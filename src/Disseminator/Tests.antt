-- ===== src/Disseminator/Tests.antt =====
-- The bytes of a concrete message.
use market_data_disseminatio.Base.Tests.{ℕ, ◌≡◌, refl, some, [], ◌∷◌, ◌++◌, arith}
use market_data_disseminatio.Base.Lists.{length, replicate, length-replicate}
use market_data_disseminatio.Types.{Trade, MarketDataMsg, trade, IsMsg}
use market_data_disseminatio.Disseminator.{stamp, topic, payload_bytes, Turn, udp_disseminate}
use market_data_disseminatio.Disseminator.Wire.{IsTurn, udp_disseminate_lem}

-- "IBM" in 8 bytes.
abbrev one_trade : Trade
one_trade = record {
  symbol = 73 ∷ 66 ∷ 77 ∷ 0 ∷ 0 ∷ 0 ∷ 0 ∷ 0 ∷ [];
  price = 4636737291354636288;
  size = 10;
  enqueue_timestamp = 1000;
  disseminate_timestamp = 0;
}

abbrev one_turn : Turn
one_turn = record {
  msg = trade one_trade;
  now = 1500;
  pad = 1 ∷ 2 ∷ 3 ∷ 4 ∷ [];
  stack = replicate 58 170;
}

one_turn-IsTurn : IsTurn one_turn
one_turn-IsTurn = record {
  msg_ok = record {
    symbol_size = refl;
    symbol_bytes = (
      omega arith,
      (
        omega arith,
        (
          omega arith,
          (omega arith, (omega arith, (omega arith, (omega arith, (omega arith, tt))))),
        ),
      ),
    );
    price_word = omega arith;
    size_word = omega arith;
    enqueue_word = omega arith;
    disseminate_word = omega arith;
  };
  now_word = omega arith;
  pad_size = refl;
  stack_size = length-replicate {A = ℕ} 58 170;
}

abbrev stamped : MarketDataMsg
stamped = stamp 1500 (trade one_trade)

udp_disseminate_lem_example :
    (udp_disseminate one_turn ≡ some (topic stamped ++ payload_bytes (1 ∷ 2 ∷ 3 ∷ 4 ∷ []) stamped))
    × (length (topic stamped ++ payload_bytes (1 ∷ 2 ∷ 3 ∷ 4 ∷ []) stamped) ≡ 50)
    × IsMsg stamped
unfolding stamp
udp_disseminate_lem_example = udp_disseminate_lem one_turn one_turn-IsTurn
