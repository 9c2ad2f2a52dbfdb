-- ===== src/Generator/Settings.antt =====
-- What `configure` and `start` of the generator establish, and what a failed `configure` leaves.
use native.Mathlib.Nat.{div-add-mod, mod-lt}
use market_data_disseminatio.Base.Tests.{
  ℕ, zero, suc, ◌+◌, ◌*◌, ◌^◌, ◌≤◌, ◌<◌, ◌≡◌, refl, ap, true, false, Option, none, some, List, [],
  ◌∷◌, arith, ge→ltb, ==-false,
}
use market_data_disseminatio.Base.Lists.{length, All}
use market_data_disseminatio.Types.{Double}
use market_data_disseminatio.Symbols.{read_symbols_file, IsSymbol}
use market_data_disseminatio.Symbols.File.{read_symbols_file-IsSymbol}
use market_data_disseminatio.Generator.{
  Random, logic_error, resize, RandomWalkGenerator, set_rate, load_symbols, configure, start,
  generate_msg_impl,
}

length-resize : (n : ℕ) (prices : List Double) → length (resize n prices) ≡ n
length-resize zero prices = refl
length-resize (suc n) [] = ap suc (length-resize n [])
length-resize (suc n) (p ∷ prices) = ap suc (length-resize n prices)

-- A generator that can run: the interval is the number of whole nanoseconds in a second's share, and
-- each of the symbols has a price.
pub record IsConfigured {random : Random} (g : RandomWalkGenerator random) : Type 0 where
  pub rate : 0 < g.messages_per_sec
  pub interval_fits : g.interval * g.messages_per_sec ≤ 1_000_000_000
  pub interval_longest : 1_000_000_000 < (g.interval + 1) * g.messages_per_sec
  pub symbols_some : 0 < length g.symbols
  pub symbols_few : length g.symbols < 2 ^ 64
  pub symbols_proper : All IsSymbol g.symbols
  pub prices : length g.current_prices ≡ length g.symbols

module _ {random : Random} where
  load_symbols-some :
      (file : Option (List ℕ)) (g : RandomWalkGenerator random)
      → 0 < length (read_symbols_file file)
      → load_symbols random file g ≡ (
        none,
        record g {
          symbols = read_symbols_file file;
          current_prices = resize (length (read_symbols_file file)) g.current_prices;
        },
      )
  unfolding load_symbols
  load_symbols-some file g h = rw (==-false (length (read_symbols_file file)) 0 (omega arith)) refl

  -- For a rate of at least 1 and a file with a symbol in it, `configure` throws nothing, and the
  -- generator can run: its interval is the longest whose messages fit a second at the rate, its
  -- symbols are those of the file, proper ones, and each has a price.
  pub configure-IsConfigured :
      (messages_per_second : ℕ) (file : Option (List ℕ)) (g : RandomWalkGenerator random)
      → 1 ≤ messages_per_second
      → 0 < length (read_symbols_file file)
      → length (read_symbols_file file) < 2 ^ 64
      → ((configure random messages_per_second file g).0 ≡ none)
        × IsConfigured (configure random messages_per_second file g).1
        × ((configure random messages_per_second file g).1.symbols ≡ read_symbols_file file)
  unfolding configure set_rate
  configure-IsConfigured m file g h some_symbol few =
      rw (ge→ltb m 1 h, load_symbols-some file _ some_symbol)
        (
          refl,
          record {
            rate = h;
            interval_fits = omega (arith, div-add-mod 1_000_000_000 m);
            interval_longest =
                omega (arith, div-add-mod 1_000_000_000 m, mod-lt 1_000_000_000 {m = m} h);
            symbols_some = some_symbol;
            symbols_few = few;
            symbols_proper = read_symbols_file-IsSymbol file;
            prices = length-resize (length (read_symbols_file file)) g.current_prices;
          },
          refl,
        )

  -- A file without a symbol makes `configure` throw, but with the rate set: `start` then starts the
  -- generating thread all the same, whose first message reads a symbol out of range.
  pub start_unconfigured :
      (messages_per_second now : ℕ) (file : Option (List ℕ)) (g : RandomWalkGenerator random)
      → 1 ≤ messages_per_second
      → read_symbols_file file ≡ []
      → g.running ≡ false
      → let g' = (configure random messages_per_second file g).1 in
        ((configure random messages_per_second file g).0 ≡ some logic_error)
        × ((start random g').0 ≡ none)
        × ((start random g').1.running ≡ true)
        × (generate_msg_impl random now (start random g').1 ≡ none)
  unfolding configure set_rate load_symbols start generate_msg_impl
  start_unconfigured m now file g h empty idle =
      rw (ge→ltb m 1 h, empty, ==-false m 0 (omega arith), idle) (refl, refl, refl, refl)
