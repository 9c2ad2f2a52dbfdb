-- ===== src/ZmqFeedHandler/Tests.antt =====
-- The ZeroMQ path at concrete messages.
use market_data_disseminatio.Base.Tests.{ℕ, ◌≡◌, refl, true, List, [], ◌∷◌, arith}
use market_data_disseminatio.Base.Lists.{replicate, length-replicate}
use market_data_disseminatio.Types.{Trade, trade, IsTrade}
use market_data_disseminatio.Symbols.{stored_symbol, IsText}
use market_data_disseminatio.Symbols.Pack.{
  length-stored_symbol, stored_symbol-IsByte, IsText-IsByte,
}
use market_data_disseminatio.Disseminator.{topic, Turn}
use market_data_disseminatio.Disseminator.Wire.{IsTurn}
use market_data_disseminatio.FeedHandler.{Client}
use market_data_disseminatio.ZmqFeedHandler.{zmq_subscribe_impl}
use market_data_disseminatio.ZmqFeedHandler.Delivery.{zmq_prefix_taken}
use market_data_disseminatio.ZmqFeedHandler.ListSocket.{listed, list_socket}

-- "IB" and "IBM".
abbrev ib : List ℕ
ib = 73 ∷ 66 ∷ []

abbrev ibm : List ℕ
ibm = 73 ∷ 66 ∷ 77 ∷ []

ib-IsText : IsText ib
ib-IsText = ((omega arith, omega arith), ((omega arith, omega arith), tt))

ibm-IsText : IsText ibm
ibm-IsText =
    ((omega arith, omega arith), ((omega arith, omega arith), ((omega arith, omega arith), tt)))

abbrev ibm_trade : Trade
ibm_trade = record {
  symbol = stored_symbol ibm;
  price = 4636737291354636288;
  size = 10;
  enqueue_timestamp = 1000;
  disseminate_timestamp = 0;
}

ibm_trade-IsTrade : IsTrade ibm_trade
ibm_trade-IsTrade = record {
  symbol_size = length-stored_symbol ibm;
  symbol_bytes = stored_symbol-IsByte ibm (IsText-IsByte ibm ibm-IsText);
  price_word = omega arith;
  size_word = omega arith;
  enqueue_word = omega arith;
  disseminate_word = omega arith;
}

-- A client of "IB" gets the messages about "IBM" too.
zmq_prefix_taken_example :
    listed (zmq_subscribe_impl list_socket ib []) (topic (trade ibm_trade)) ≡ true
zmq_prefix_taken_example =
    zmq_prefix_taken list_socket [] ib (77 ∷ []) (trade ibm_trade) (omega arith) ib-IsText
      ibm_trade-IsTrade refl

abbrev one_turn : Turn
one_turn = record {
  msg = trade ibm_trade;
  now = 1500;
  pad = 1 ∷ 2 ∷ 3 ∷ 4 ∷ [];
  stack = replicate 58 170;
}

one_turn-IsTurn : IsTurn one_turn
one_turn-IsTurn = record {
  msg_ok = ibm_trade-IsTrade;
  now_word = omega arith;
  pad_size = refl;
  stack_size = length-replicate {A = ℕ} 58 170;
}

abbrev client : Client
client = record { has_on_quote = true; has_on_trade = true; calls = [] }
