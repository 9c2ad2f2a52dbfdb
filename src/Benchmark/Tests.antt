-- ===== src/Benchmark/Tests.antt =====
-- A file of two symbols, and a line that is not one.
use market_data_disseminatio.Base.Tests.{ℕ, ◌%◌, ◌^◌, ◌≡◌, refl, false, some, List, [], ◌∷◌, arith}
use market_data_disseminatio.Base.Lists.{length, All}
use market_data_disseminatio.Symbols.{strip, onto_first, get_lines, tickers_from, read_symbols_file}
use market_data_disseminatio.Queue.{fresh}
use market_data_disseminatio.Generator.{Random, RandomWalkGenerator}
use market_data_disseminatio.Benchmark.{udp_subscriber, subscribe_symbols_file}
use market_data_disseminatio.Benchmark.Subscriptions.{subscribe_each, subscribe_symbols_file_lem}
use market_data_disseminatio.Benchmark.Delivery.{IsShort}

-- "IBM\n\nKO\n".
abbrev pub file : List ℕ
file = 73 ∷ 66 ∷ 77 ∷ 10 ∷ 10 ∷ 75 ∷ 79 ∷ 10 ∷ []

pub two_symbols : length (read_symbols_file (some file)) ≡ 2
unfolding read_symbols_file tickers_from get_lines onto_first strip
two_symbols = refl

subscribe_symbols_file_lem_example :
    subscribe_symbols_file udp_subscriber (some file) fresh
    ≡ subscribe_each udp_subscriber (read_symbols_file (some file)) (fresh, 0)
subscribe_symbols_file_lem_example = subscribe_symbols_file_lem udp_subscriber (some file) fresh

abbrev ibm : List ℕ
ibm = 73 ∷ 66 ∷ 77 ∷ []

abbrev ko : List ℕ
ko = 75 ∷ 79 ∷ []

pub read_file : read_symbols_file (some file) ≡ ibm ∷ ko ∷ []
unfolding read_symbols_file tickers_from get_lines onto_first strip
read_file = refl

pub symbols-IsShort : All IsShort (ibm ∷ ko ∷ [])
symbols-IsShort = (
  record {
    short = omega arith;
    text = (
      (omega arith, omega arith),
      ((omega arith, omega arith), ((omega arith, omega arith), tt)),
    );
  },
  (
    record {
      short = omega arith;
      text = ((omega arith, omega arith), ((omega arith, omega arith), tt));
    },
    tt,
  ),
)

-- An engine that always draws the least number.
abbrev pub least : Random
least = record {
  State = ℕ;
  uniform_int = λ lo hi s. (lo, s);
  normal = λ mean deviation s. (mean, s);
  add = λ a b. a % 2 ^ 64;
  sub = λ a b. a % 2 ^ 64;
  mul = λ a b. a;
  div = λ a b. a;
  uniform_lower = λ lo hi s h. omega arith;
  uniform_upper = λ lo hi s h. h;
  add_word = λ a b. omega arith;
  sub_word = λ a b. omega arith;
}

abbrev pub generator : RandomWalkGenerator least
generator = record {
  messages_per_sec = 0;
  interval = 0;
  symbols = [];
  current_prices = [];
  rng = 0;
  running = false;
}
