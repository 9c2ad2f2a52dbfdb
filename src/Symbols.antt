-- ===== src/Symbols.antt =====
-- The way of a symbol through the program: read from the symbols file
-- (src/generator/RandomWalkGenerator.h, read_symbols_file, and the loop of run_benchmark_pipeline in
-- src/main.cpp), stored in the `char[8]` of a message (generate_quote, generate_trade), and packed
-- into the number by which the feed handler filters (src/feedhandler/UdpFeedHandler.h, pack_symbol).
-- A `std::string` is its list of bytes.
pub mod File
pub mod Pack
mod Tests
use market_data_disseminatio.Base.Tests.{
  ℕ, zero, suc, Bool, true, false, not, ◌&&◌, ◌||◌, ◌≡◌, ◌<◌, Option, none, some, List, [], ◌∷◌,
  ◌++◌, leb, ltb, ◌==◌, if◌then◌else◌, min,
}
use market_data_disseminatio.Base.Lists.{length, take, replicate, All}
use market_data_disseminatio.Base.Bytes.{of_bytes}

-- `::isspace` in the C locale.
abbrev pub is_space : ℕ → Bool
is_space c = c == b' ' || (leb 9 c && leb c 13)

-- `erase(remove_if(…), end())`.
abbrev pub remove_if : (ℕ → Bool) → List ℕ → List ℕ
remove_if p [] = []
remove_if p (c ∷ s) = let rest = remove_if p s in if p c then rest else c ∷ rest

-- The three erasures made on a line: every '\r', every '\n', every space.
unfoldable pub strip : List ℕ → List ℕ
strip line = remove_if is_space (remove_if (λ c. c == 10) (remove_if (λ c. c == 13) line))

-- `!str.empty() && str.length() < 9`.
abbrev pub is_listed : List ℕ → Bool
is_listed [] = false
is_listed (c ∷ s) = ltb (length (c ∷ s)) 9

-- `std::getline` until it fails: the lines, without their '\n'; behind the last '\n' there is a line
-- only if there are bytes.
unfoldable pub onto_first : ℕ → List (List ℕ) → List (List ℕ)
onto_first c [] = (c ∷ []) ∷ []
onto_first c (line ∷ lines) = (c ∷ line) ∷ lines

unfoldable pub get_lines : List ℕ → List (List ℕ)
unfolding onto_first
get_lines [] = []
get_lines (c ∷ s) = if c == 10 then [] ∷ get_lines s else onto_first c (get_lines s)

-- The loop of read_symbols_file over the lines, with `tickers` so far.
unfoldable pub tickers_from : List (List ℕ) → List (List ℕ) → List (List ℕ)
tickers_from [] tickers = tickers
tickers_from (line ∷ lines) tickers =
    tickers_from lines (if is_listed (strip line) then tickers ++ strip line ∷ [] else tickers)

-- A file that cannot be opened gives no line.
unfoldable pub read_symbols_file : Option (List ℕ) → List (List ℕ)
unfolding tickers_from
read_symbols_file none = []
read_symbols_file (some bytes) = tickers_from (get_lines bytes) []

-- `strncpy(dst, src, n)`: the bytes up to the first NUL, then NULs, `n` in all.
unfoldable pub strncpy : ℕ → List ℕ → List ℕ
strncpy zero src = []
strncpy (suc n) [] = 0 ∷ strncpy n []
strncpy (suc n) (c ∷ src) = if c == 0 then replicate (suc n) 0 else c ∷ strncpy n src

-- `strncpy(msg.symbol, symbol.c_str(), sizeof(msg.symbol) - 1)` into a message of zeros.
unfoldable pub stored_symbol : List ℕ → List ℕ
unfolding strncpy
stored_symbol symbol = strncpy 7 symbol ++ 0 ∷ []

-- `memcpy` of at most 8 bytes into a `uint64_t` of zeros.
pub pack_symbol : List ℕ → ℕ
pack_symbol sym = of_bytes (take (min (length sym) 8) sym)

-- A symbol as an exchange spells it: no NUL, no space, and it fits the file's limit.
pub record IsSymbol (s : List ℕ) : Type 0 where
  pub not_empty : 0 < length s
  pub short : length s < 9
  pub plain : All (λ c. is_space c ≡ false) s

-- Every byte is a byte and no NUL, so that C strings and `std::string`s agree.
abbrev pub IsText : List ℕ → Type 0
IsText s = All (λ c. (0 < c) × (c < 256)) s
