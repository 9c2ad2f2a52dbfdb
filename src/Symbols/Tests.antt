-- ===== src/Symbols/Tests.antt =====
-- Symbols at concrete texts.
use market_data_disseminatio.Base.Tests.{ℕ, ◌≡◌, refl, true, some, List, [], ◌∷◌, arith}
use market_data_disseminatio.Symbols.{
  strip, onto_first, get_lines, tickers_from, read_symbols_file, strncpy, stored_symbol, IsSymbol,
}
use market_data_disseminatio.Symbols.File.{symbols_file, read_symbols_file-symbols_file}

-- "MSFT" and "IBM".
abbrev msft : List ℕ
msft = 77 ∷ 83 ∷ 70 ∷ 84 ∷ []

abbrev ibm : List ℕ
ibm = 73 ∷ 66 ∷ 77 ∷ []

-- "MSFT\r\n" and "\n" and " IBM", the last line without an end.
abbrev mixed_file : List ℕ
mixed_file = 77 ∷ 83 ∷ 70 ∷ 84 ∷ 13 ∷ 10 ∷ 10 ∷ 32 ∷ 73 ∷ 66 ∷ 77 ∷ []

read_mixed_file : read_symbols_file (some mixed_file) ≡ msft ∷ ibm ∷ []
unfolding read_symbols_file tickers_from get_lines onto_first strip
read_mixed_file = refl

msft-IsSymbol : IsSymbol msft
msft-IsSymbol = record {
  not_empty = omega arith;
  short = omega arith;
  plain = (refl, (refl, (refl, (refl, tt))));
}

ibm-IsSymbol : IsSymbol ibm
ibm-IsSymbol = record {
  not_empty = omega arith;
  short = omega arith;
  plain = (refl, (refl, (refl, tt)));
}

read_symbols_file-symbols_file_example :
    read_symbols_file (some (symbols_file true (msft ∷ ibm ∷ []))) ≡ msft ∷ ibm ∷ []
read_symbols_file-symbols_file_example =
    read_symbols_file-symbols_file true (msft ∷ ibm ∷ []) (msft-IsSymbol, (ibm-IsSymbol, tt))

stored_msft : stored_symbol msft ≡ 77 ∷ 83 ∷ 70 ∷ 84 ∷ 0 ∷ 0 ∷ 0 ∷ 0 ∷ []
unfolding stored_symbol strncpy
stored_msft = refl
