-- ===== src/Generator/Tests.antt =====
-- A generator with an engine that always draws the least number.
use market_data_disseminatio.Base.Tests.{
  ℕ, ◌+◌, ◌-◌, ◌*◌, ◌%◌, ◌^◌, ◌≤◌, ◌≡◌, refl, true, false, none, some, List, [], ◌∷◌, arith,
}
use market_data_disseminatio.Base.Lists.{length, get_elem?}
use market_data_disseminatio.Types.{MarketDataMsg, symbol_of}
use market_data_disseminatio.Symbols.{
  strip, onto_first, get_lines, tickers_from, read_symbols_file, stored_symbol,
}
use market_data_disseminatio.Generator.{
  Random, logic_error, RandomWalkGenerator, set_rate, load_symbols, after_rate, configure, start,
  generate_msg_impl,
}
use market_data_disseminatio.Generator.Settings.{IsConfigured, start_unconfigured}
use market_data_disseminatio.Generator.Pace.{
  Tick, stop_seen, refused, accepted, Pace, generation_loop,
}
use market_data_disseminatio.Generator.Drawn.{Drawn}
use market_data_disseminatio.Generator.Rate.{begin, generation_loop_lem}
use market_data_disseminatio.Generator.Walk.{IsDrawn, generate_msg_impl_lem}

abbrev least : Random
least = record {
  State = ℕ;
  uniform_int = λ lo hi s. (lo, s);
  normal = λ mean deviation s. (mean, s);
  add = λ a b. a % 2 ^ 64;
  sub = λ a b. a % 2 ^ 64;
  mul = λ a b. a;
  div = λ a b. a;
  uniform_lower = λ lo hi s h. omega arith;
  uniform_upper = λ lo hi s h. h;
  add_word = λ a b. omega arith;
  sub_word = λ a b. omega arith;
}

abbrev generator : RandomWalkGenerator least
generator = record {
  messages_per_sec = 0;
  interval = 0;
  symbols = [];
  current_prices = [];
  rng = 0;
  running = false;
}

-- "IBM\n".
abbrev ibm_file : List ℕ
ibm_file = 73 ∷ 66 ∷ 77 ∷ 10 ∷ []

one_symbol : length (read_symbols_file (some ibm_file)) ≡ 1
unfolding read_symbols_file tickers_from get_lines onto_first strip
one_symbol = refl

abbrev configured : RandomWalkGenerator least
configured = record {
  messages_per_sec = 100_000;
  interval = 10_000;
  symbols = (73 ∷ 66 ∷ 77 ∷ []) ∷ [];
  current_prices = 0x4059000000000000 ∷ [];
  rng = 0;
  running = false;
}

configure_ibm : (configure least 100_000 (some ibm_file) generator).1 ≡ configured
unfolding configure set_rate load_symbols after_rate read_symbols_file tickers_from get_lines
    onto_first strip
configure_ibm = refl

configured-IsConfigured : IsConfigured configured
configured-IsConfigured = record {
  rate = omega arith;
  interval_fits = omega arith;
  interval_longest = omega arith;
  symbols_some = omega arith;
  symbols_few = omega arith;
  symbols_proper = (
    record { not_empty = omega arith; short = omega arith; plain = (refl, (refl, (refl, tt))) },
    tt,
  );
  prices = refl;
}

generate_msg_impl_lem_example :
    (msg : MarketDataMsg) × (g' : RandomWalkGenerator least) × (generate_msg_impl least 7 configured
      ≡ some (msg, g'))
    × ((idx : ℕ) × (symbol : List ℕ) × (get_elem? configured.symbols idx ≡ some symbol)
        × (symbol_of msg ≡ stored_symbol symbol))
    × IsDrawn 7 msg
    × IsConfigured g'
    × (g'.symbols ≡ configured.symbols)
    × (g'.interval ≡ configured.interval)
generate_msg_impl_lem_example = generate_msg_impl_lem 7 configured configured-IsConfigured

-- A file that cannot be opened.
no_file : read_symbols_file none ≡ []
unfolding read_symbols_file
no_file = refl

start_unconfigured_example :
    let g' = (configure least 100_000 none generator).1 in
    ((configure least 100_000 none generator).0 ≡ some logic_error)
    × ((start least g').0 ≡ none)
    × ((start least g').1.running ≡ true)
    × (generate_msg_impl least 7 (start least g').1 ≡ none)
start_unconfigured_example = start_unconfigured 100_000 7 none generator (omega arith) no_file refl

-- Three rounds: one message that the queue takes at the second try, a round too early for the next, and
-- one that is dropped at a stop.
abbrev ticks : List Tick
ticks =
    record {
      stop_requested = false;
      now = 5;
      made_at = 5;
      enqueued_at = 6;
      attempts = refused ∷ accepted ∷ [];
    }
    ∷ record { stop_requested = false; now = 9_000; made_at = 0; enqueued_at = 0; attempts = [] }
    ∷ record {
      stop_requested = false;
      now = 10_005;
      made_at = 10_006;
      enqueued_at = 10_007;
      attempts = stop_seen ∷ [];
    }
    ∷ []

generation_loop_lem_example :
    (p : Pace least) × (generation_loop least ticks (begin 5 configured) ≡ some p)
    × IsConfigured p.generator
    × (p.made * 10_000 ≤ (10_005 - 5) + 10_000)
    × (length p.pushed ≤ p.made)
    × Drawn configured p.made p.pushed p.generator
    × (p.made ≤ length p.pushed + 2)
generation_loop_lem_example =
    generation_loop_lem ticks 5 10_005 configured configured-IsConfigured (omega arith)
      (omega arith, (omega arith, (omega arith, tt)))
