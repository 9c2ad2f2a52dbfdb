-- ===== src/Types/Tests.antt =====
-- Messages at concrete values.
use market_data_disseminatio.Base.Tests.{◌≡◌, refl, ℕ, refl, List, [], ◌∷◌, arith}
use market_data_disseminatio.Types.Layout.{trade_of_bytes-trade_bytes}
use market_data_disseminatio.Types.{Trade, trade_bytes, trade_of_bytes, IsTrade}

-- "AAPL" in 8 bytes.
abbrev aapl : List ℕ
aapl = 65 ∷ 65 ∷ 80 ∷ 76 ∷ 0 ∷ 0 ∷ 0 ∷ 0 ∷ []

-- The price is 100.0 as a double.
abbrev one_trade : Trade
one_trade = record {
  symbol = aapl;
  price = 4636737291354636288;
  size = 70000;
  enqueue_timestamp = 1000;
  disseminate_timestamp = 2000;
}

one_trade-IsTrade : IsTrade one_trade
one_trade-IsTrade = record {
  symbol_size = refl;
  symbol_bytes = (
    omega arith,
    (
      omega arith,
      (omega arith, (omega arith, (omega arith, (omega arith, (omega arith, (omega arith, tt)))))),
    ),
  );
  price_word = omega arith;
  size_word = omega arith;
  enqueue_word = omega arith;
  disseminate_word = omega arith;
}

-- The padding holds whatever the stack held.
trade_copied : trade_of_bytes (trade_bytes (1 ∷ 2 ∷ 3 ∷ 4 ∷ []) one_trade) ≡ one_trade
trade_copied = trade_of_bytes-trade_bytes (1 ∷ 2 ∷ 3 ∷ 4 ∷ []) refl one_trade-IsTrade
