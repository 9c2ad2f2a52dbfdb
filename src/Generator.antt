-- ===== src/Generator.antt =====
-- src/generator/BaseGenerator.h and src/generator/RandomWalkGenerator.h: the generator's settings, its
-- start and stop and the messages of the random walk.
-- The random engine and its distributions, and the arithmetic of doubles, are a parameter; a double is
-- the number that its 8 bytes spell. The clock is an
-- argument. A call that throws returns the error beside the state that it leaves.
pub mod Settings
pub mod Walk
pub mod Pace
pub mod Drawn
pub mod Rate
pub mod Made
mod Tests
use market_data_disseminatio.Base.Tests.{
  ℕ, zero, suc, ◌+◌, ◌/◌, ◌≤◌, ◌<◌, ◌^◌, Bool, true, false, Option, none, some, List, [], ◌∷◌, ◌++◌,
  ltb, leb, ◌==◌, if◌then◌else◌, ◌>>=◌,
}
use market_data_disseminatio.Base.Lists.{length, get_elem?, set, take, replicate}
use market_data_disseminatio.Base.Words.{sub64}
use market_data_disseminatio.Types.{Double, Quote, Trade, MarketDataMsg, quote, trade}
use market_data_disseminatio.Symbols.{read_symbols_file, stored_symbol}

-- `std::mt19937` with its distributions, and the operations on doubles that the walk uses. The
-- distribution over integers keeps to its bounds, and a double is 8 bytes.
pub record Random : Type 1 where
  pub State : Type 0
  pub uniform_int : ℕ → ℕ → State → ℕ × State
  pub normal : Double → Double → State → Double × State
  pub add : Double → Double → Double
  pub sub : Double → Double → Double
  pub mul : Double → Double → Double
  pub div : Double → Double → Double
  pub uniform_lower : (lo hi : ℕ) (s : State) → lo ≤ hi → lo ≤ (uniform_int lo hi s).0
  pub uniform_upper : (lo hi : ℕ) (s : State) → lo ≤ hi → (uniform_int lo hi s).0 ≤ hi
  pub add_word : (a b : Double) → add a b < 2 ^ 64
  pub sub_word : (a b : Double) → sub a b < 2 ^ 64

-- The exceptions that are thrown.
pub data Error : Type 0 where
  invalid_argument logic_error : Error

-- 0.0, 0.05, 0.1, 0.001, 2.0 and 100.0.
abbrev pub double_0 : Double
double_0 = 0

abbrev pub double_0_05 : Double
double_0_05 = 0x3fa999999999999a

abbrev pub double_0_1 : Double
double_0_1 = 0x3fb999999999999a

abbrev pub double_0_001 : Double
double_0_001 = 0x3f50624dd2f1a9fc

abbrev pub double_2 : Double
double_2 = 0x4000000000000000

abbrev pub double_100 : Double
double_100 = 0x4059000000000000

-- `current_prices_.resize(n, 100.0)`.
abbrev pub resize : ℕ → List Double → List Double
resize zero prices = []
resize (suc n) [] = double_100 ∷ resize n []
resize (suc n) (p ∷ prices) = p ∷ resize n prices

module _ (random : Random) where
  open random use {State, uniform_int, normal, add, sub, mul, div}

  -- `running` says whether the generating thread is joinable.
  pub record RandomWalkGenerator : Type 0 where
    pub messages_per_sec : ℕ
    pub interval : ℕ
    pub symbols : List (List ℕ)
    pub current_prices : List Double
    pub rng : State
    pub running : Bool

  unfoldable pub set_rate : ℕ → RandomWalkGenerator → Option Error × RandomWalkGenerator
  set_rate messages_per_second g =
      if ltb messages_per_second 1 then (some invalid_argument, g) else (
        none,
        record g {
          messages_per_sec = messages_per_second;
          interval = 1_000_000_000 / messages_per_second;
        },
      )

  -- configure behind set_rate: the symbols are kept also where it throws.
  unfoldable pub load_symbols :
      Option (List ℕ) → RandomWalkGenerator → Option Error × RandomWalkGenerator
  load_symbols file g =
      let read = read_symbols_file file in
      if length read == 0 then (some logic_error, record g { symbols = read }) else (
        none,
        record g { symbols = read; current_prices = resize (length read) g.current_prices },
      )

  unfoldable pub after_rate :
      Option (List ℕ) → Option Error × RandomWalkGenerator → Option Error × RandomWalkGenerator
  after_rate file (some e, g) = (some e, g)
  after_rate file (none, g) = load_symbols file g

  unfoldable pub configure :
      ℕ → Option (List ℕ) → RandomWalkGenerator → Option Error × RandomWalkGenerator
  unfolding after_rate
  configure messages_per_second file g = after_rate file (set_rate messages_per_second g)

  unfoldable pub start : RandomWalkGenerator → Option Error × RandomWalkGenerator
  start g =
      if g.messages_per_sec == 0
      then (some logic_error, g)
      else if g.running
      then (none, g)
      else (none, record g { running = true })

  unfoldable pub stop : RandomWalkGenerator → RandomWalkGenerator
  stop g = if g.running then record g { running = false } else g

  -- `current_prices_[idx] += step`, and the price; `none` where the index is out of range.
  unfoldable pub walk : Double → ℕ → RandomWalkGenerator → Option (Double × RandomWalkGenerator)
  walk deviation idx g = do
    old ← get_elem? g.current_prices idx
    let drawn = normal double_0 deviation g.rng
    let price = add old drawn.0
    some (price, record g { current_prices = set g.current_prices idx price; rng = drawn.1 })

  unfoldable pub generate_quote :
      ℕ → List ℕ → ℕ → RandomWalkGenerator → Option (Quote × RandomWalkGenerator)
  generate_quote now symbol idx g = do
    (price, g1) ← walk double_0_1 idx g
    let bid_ask_spread = mul price double_0_001
    let bid = uniform_int 50 500 g1.rng
    let ask = uniform_int 50 500 bid.1
    some (
      record {
        symbol = stored_symbol symbol;
        bid_price = sub price (div bid_ask_spread double_2);
        ask_price = add price (div bid_ask_spread double_2);
        bid_size = bid.0;
        ask_size = ask.0;
        enqueue_timestamp = now;
        disseminate_timestamp = 0;
      },
      record g1 { rng = ask.1 },
    )

  unfoldable pub generate_trade :
      ℕ → List ℕ → ℕ → RandomWalkGenerator → Option (Trade × RandomWalkGenerator)
  generate_trade now symbol idx g = do
    (price, g1) ← walk double_0_05 idx g
    let drawn = uniform_int 10 100 g1.rng
    some (
      record {
        symbol = stored_symbol symbol;
        price = price;
        size = drawn.0;
        enqueue_timestamp = now;
        disseminate_timestamp = 0;
      },
      record g1 { rng = drawn.1 },
    )

  -- `symbols_[idx]` out of range is `none`. The bound of the index is a `size_t` difference.
  unfoldable pub generate_msg_impl :
      ℕ → RandomWalkGenerator → Option (MarketDataMsg × RandomWalkGenerator)
  generate_msg_impl now g = do
    let drawn = uniform_int 0 (sub64 (length g.symbols) 1) g.rng
    let kind = uniform_int 0 1 drawn.1
    symbol ← get_elem? g.symbols drawn.0
    let quoted = do
      (q, g1) ← generate_quote now symbol drawn.0 (record g { rng = kind.1 })
      some (quote q, g1)
    let traded = do
      (t, g1) ← generate_trade now symbol drawn.0 (record g { rng = kind.1 })
      some (trade t, g1)
    if kind.0 == 0 then traded else quoted
