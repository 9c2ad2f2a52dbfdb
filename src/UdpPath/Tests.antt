-- ===== src/UdpPath/Tests.antt =====
-- Concrete messages on their way.
use market_data_disseminatio.Base.Tests.{
  ℕ, ◌≡◌, refl, none, some, List, [], ◌∷◌, arith, if◌then◌else◌,
}
use market_data_disseminatio.Base.Lists.{take, replicate, length-replicate}
use market_data_disseminatio.Base.Bytes.{of_bytes}
use market_data_disseminatio.Types.{Trade, trade}
use market_data_disseminatio.Symbols.{stored_symbol, pack_symbol, IsText}
use market_data_disseminatio.Symbols.Pack.{
  length-stored_symbol, stored_symbol-IsByte, IsText-IsByte,
}
use market_data_disseminatio.Disseminator.{stamp, Turn, udp_disseminate}
use market_data_disseminatio.Disseminator.Wire.{IsTurn}
use market_data_disseminatio.FeedHandler.{contains, insert, handle_datagram, receive_buffer_size}
use market_data_disseminatio.UdpPath.{udp_delivery, udp_delivery_by_symbol, udp_long_symbol_lost}

abbrev trade_in : List ℕ → Trade
trade_in symbol = record {
  symbol = stored_symbol symbol;
  price = 4636737291354636288;
  size = 10;
  enqueue_timestamp = 1000;
  disseminate_timestamp = 0;
}

abbrev turn_of : List ℕ → Turn
turn_of symbol = record {
  msg = trade (trade_in symbol);
  now = 1500;
  pad = 1 ∷ 2 ∷ 3 ∷ 4 ∷ [];
  stack = replicate 58 170;
}

turn_of-IsTurn : (symbol : List ℕ) → IsText symbol → IsTurn (turn_of symbol)
turn_of-IsTurn symbol text = record {
  msg_ok = record {
    symbol_size = length-stored_symbol symbol;
    symbol_bytes = stored_symbol-IsByte symbol (IsText-IsByte symbol text);
    price_word = omega arith;
    size_word = omega arith;
    enqueue_word = omega arith;
    disseminate_word = omega arith;
  };
  now_word = omega arith;
  pad_size = refl;
  stack_size = length-replicate {A = ℕ} 58 170;
}

-- "IBM".
abbrev ibm : List ℕ
ibm = 73 ∷ 66 ∷ 77 ∷ []

ibm-IsText : IsText ibm
ibm-IsText =
    ((omega arith, omega arith), ((omega arith, omega arith), ((omega arith, omega arith), tt)))

udp_delivery_example :
    (bytes : List ℕ) × (udp_disseminate (turn_of ibm) ≡ some bytes)
    × (handle_datagram (pack_symbol ibm ∷ []) (take receive_buffer_size bytes) ≡ (
        if contains (pack_symbol ibm ∷ []) (of_bytes (stored_symbol ibm))
        then some (stamp 1500 (trade (trade_in ibm)))
        else none))
udp_delivery_example =
    udp_delivery (turn_of ibm) (pack_symbol ibm ∷ []) (turn_of-IsTurn ibm ibm-IsText)

udp_delivery_by_symbol_example :
    (bytes : List ℕ) × (udp_disseminate (turn_of ibm) ≡ some bytes)
    × (handle_datagram (pack_symbol ibm ∷ []) (take receive_buffer_size bytes) ≡ (
        if contains (pack_symbol ibm ∷ []) (pack_symbol ibm)
        then some (stamp 1500 (trade (trade_in ibm)))
        else none))
udp_delivery_by_symbol_example =
    udp_delivery_by_symbol (turn_of ibm) (pack_symbol ibm ∷ []) ibm (turn_of-IsTurn ibm ibm-IsText)
      refl (omega arith) ibm-IsText

-- "ABCDEFGH".
abbrev eight : List ℕ
eight = 65 ∷ 66 ∷ 67 ∷ 68 ∷ 69 ∷ 70 ∷ 71 ∷ 72 ∷ []

eight-IsText : IsText eight
eight-IsText = (
  (omega arith, omega arith),
  (
    (omega arith, omega arith),
    (
      (omega arith, omega arith),
      (
        (omega arith, omega arith),
        (
          (omega arith, omega arith),
          (
            (omega arith, omega arith),
            ((omega arith, omega arith), ((omega arith, omega arith), tt)),
          ),
        ),
      ),
    ),
  ),
)

udp_long_symbol_lost_example :
    (bytes : List ℕ) × (udp_disseminate (turn_of eight) ≡ some bytes)
    × (handle_datagram (insert (pack_symbol eight) []) (take receive_buffer_size bytes) ≡ none)
udp_long_symbol_lost_example =
    udp_long_symbol_lost (turn_of eight) eight (turn_of-IsTurn eight eight-IsText) refl refl
      eight-IsText
