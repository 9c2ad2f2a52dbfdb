-- ===== src/Symbols/File.antt =====
-- What read_symbols_file returns for a file's bytes.
use mathlib.Core.List.{append_assoc, append-nil}
use market_data_disseminatio.Base.Tests.{
  ℕ, ◌≡◌, refl, sym, ap, ◌∙◌, Bool, true, false, Option, none, some, List, map, [], ◌∷◌, ◌++◌,
  arith, ◌==◌, Bool-cases, inl, inr,
}
use market_data_disseminatio.Base.Lists.{All, All-append}
use market_data_disseminatio.Symbols.{
  is_space, remove_if, strip, is_listed, onto_first, get_lines, tickers_from, read_symbols_file,
  IsSymbol,
}

module _ (p : ℕ → Bool) where
  remove_if-none : (s : List ℕ) → All (λ c. p c ≡ false) s → remove_if p s ≡ s
  remove_if-none [] h = refl
  remove_if-none (c ∷ s) h = rw h.0 (ap (λ l. c ∷ l) (remove_if-none s h.1))

  remove_if-All : (s : List ℕ) → All (λ c. p c ≡ false) (remove_if p s)
  remove_if-All [] = tt
  remove_if-All (c ∷ s) = elim (Bool-cases (p c)) [
    | inl e ↦ rw e (remove_if-All s)
    | inr e ↦ rw e (e, remove_if-All s)
  ]

  remove_if-last :
      (s : List ℕ) (d : ℕ) → All (λ c. p c ≡ false) s → p d ≡ true → remove_if p (s ++ d ∷ []) ≡ s
  remove_if-last [] d h e = rw e refl
  remove_if-last (c ∷ s) d h e = rw h.0 (ap (λ l. c ∷ l) (remove_if-last s d h.1 e))

strip-plain : (line : List ℕ) → All (λ c. is_space c ≡ false) (strip line)
unfolding strip
strip-plain line = remove_if-All is_space (remove_if (λ c. c == 10) (remove_if (λ c. c == 13) line))

-- What is no space is no line end.
not_ends :
    (s : List ℕ)
    → All (λ c. is_space c ≡ false) s
    → All (λ c. (c == 13) ≡ false) s × All (λ c. (c == 10) ≡ false) s
not_ends [] h = (tt, tt)
not_ends (c ∷ s) h =
    let (a, b) = not_ends s h.1 in ((ground (arith, h.0), a), (ground (arith, h.0), b))

-- A line without spaces is left as it is.
strip-none : (s : List ℕ) → All (λ c. is_space c ≡ false) s → strip s ≡ s
unfolding strip
strip-none s h =
    let (cr, lf) = not_ends s h in
    ap (λ l. remove_if is_space (remove_if (λ c. c == 10) l)) (remove_if-none (λ c. c == 13) s cr)
    ∙ ap (remove_if is_space) (remove_if-none (λ c. c == 10) s lf)
    ∙ remove_if-none is_space s h

listed_plain : (s : List ℕ) → is_listed s ≡ true → All (λ c. is_space c ≡ false) s → IsSymbol s
listed_plain [] h p = cc
listed_plain (c ∷ s) h p = record { not_empty = omega arith; short = ground arith; plain = p }

is_listed_of_IsSymbol : (s : List ℕ) → IsSymbol s → is_listed s ≡ true
is_listed_of_IsSymbol [] v = absurd (omega (arith, v.not_empty))
is_listed_of_IsSymbol (c ∷ s) v = ground (arith, v.short)

is_listed-IsSymbol : (line : List ℕ) → is_listed (strip line) ≡ true → IsSymbol (strip line)
is_listed-IsSymbol line h = listed_plain (strip line) h (strip-plain line)

tickers_from-All :
    (lines tickers : List (List ℕ))
    → All IsSymbol tickers
    → All IsSymbol (tickers_from lines tickers)
unfolding tickers_from
tickers_from-All [] tickers h = h
tickers_from-All (line ∷ lines) tickers h = elim (Bool-cases (is_listed (strip line))) [
  | inl e ↦
      rw e
        (tickers_from-All lines _ (All-append IsSymbol tickers _ h (is_listed-IsSymbol line e, tt)))
  | inr e ↦ rw e (tickers_from-All lines tickers h)
]

-- Whatever the file holds, every symbol read is one of 1 to 8 bytes with no white space.
pub read_symbols_file-IsSymbol : (file : Option (List ℕ)) → All IsSymbol (read_symbols_file file)
unfolding read_symbols_file
read_symbols_file-IsSymbol none = tt
read_symbols_file-IsSymbol (some bytes) = tickers_from-All (get_lines bytes) [] tt

-- The end of a line in a file of the one sort or the other.
abbrev pub line_end : Bool → List ℕ
line_end true = 13 ∷ 10 ∷ []
line_end false = 10 ∷ []

-- A symbols file: each symbol on a line.
pub symbols_file : Bool → List (List ℕ) → List ℕ
symbols_file crlf [] = []
symbols_file crlf (s ∷ symbols) = s ++ (line_end crlf ++ symbols_file crlf symbols)

get_lines-nil : get_lines [] ≡ []
unfolding get_lines
get_lines-nil = refl

get_lines-line :
    (s rest : List ℕ)
    → All (λ c. (c == 10) ≡ false) s
    → get_lines (s ++ 10 ∷ rest) ≡ s ∷ get_lines rest
unfolding get_lines
get_lines-line [] rest h = refl
get_lines-line (c ∷ s) rest h = rw h.0 (ap (onto_first c) (get_lines-line s rest h.1))

-- The lines of a symbols file: a '\r' stays on the line.
abbrev as_line : Bool → List ℕ → List ℕ
as_line true s = s ++ 13 ∷ []
as_line false s = s

get_lines-symbols_file :
    (crlf : Bool) (symbols : List (List ℕ))
    → All IsSymbol symbols
    → get_lines (symbols_file crlf symbols) ≡ map (as_line crlf) symbols
unfolding symbols_file
get_lines-symbols_file crlf [] v = get_lines-nil
get_lines-symbols_file true (s ∷ symbols) v =
    ap get_lines (sym (append_assoc s (13 ∷ []) (10 ∷ symbols_file true symbols)))
    ∙ get_lines-line (s ++ 13 ∷ []) (symbols_file true symbols)
        (All-append _ s (13 ∷ []) (not_ends s v.0.plain).1 (refl, tt))
    ∙ ap (λ l. (s ++ 13 ∷ []) ∷ l) (get_lines-symbols_file true symbols v.1)
get_lines-symbols_file false (s ∷ symbols) v =
    get_lines-line s (symbols_file false symbols) (not_ends s v.0.plain).1
    ∙ ap (λ l. s ∷ l) (get_lines-symbols_file false symbols v.1)

strip-as_line :
    (crlf : Bool) (s : List ℕ) → All (λ c. is_space c ≡ false) s → strip (as_line crlf s) ≡ s
unfolding strip
strip-as_line true s h =
    let (cr, lf) = not_ends s h in
    ap (λ l. remove_if is_space (remove_if (λ c. c == 10) l))
      (remove_if-last (λ c. c == 13) s 13 cr refl)
    ∙ ap (remove_if is_space) (remove_if-none (λ c. c == 10) s lf)
    ∙ remove_if-none is_space s h
strip-as_line false s h = strip-none s h

tickers_from-listed :
    (line s : List ℕ) (lines tickers : List (List ℕ))
    → strip line ≡ s
    → IsSymbol s
    → tickers_from (line ∷ lines) tickers ≡ tickers_from lines (tickers ++ s ∷ [])
unfolding tickers_from
tickers_from-listed line s lines tickers e v = rw (e, is_listed_of_IsSymbol s v)

tickers_from-as_line :
    (crlf : Bool) (symbols tickers : List (List ℕ))
    → All IsSymbol symbols
    → tickers_from (map (as_line crlf) symbols) tickers ≡ tickers ++ symbols
unfolding tickers_from
tickers_from-as_line crlf [] tickers v = sym (append-nil tickers)
tickers_from-as_line crlf (s ∷ symbols) tickers v =
    tickers_from-listed (as_line crlf s) s (map (as_line crlf) symbols) tickers
      (strip-as_line crlf s v.0.plain) v.0
    ∙ tickers_from-as_line crlf symbols (tickers ++ s ∷ []) v.1
    ∙ append_assoc tickers (s ∷ []) symbols

-- A file with one proper symbol on each line, its lines ended by "\n" or by "\r\n", is read as
-- those symbols, in order.
pub read_symbols_file-symbols_file :
    (crlf : Bool) (symbols : List (List ℕ))
    → All IsSymbol symbols
    → read_symbols_file (some (symbols_file crlf symbols)) ≡ symbols
unfolding read_symbols_file
read_symbols_file-symbols_file crlf symbols v =
    ap (λ lines. tickers_from lines []) (get_lines-symbols_file crlf symbols v)
    ∙ tickers_from-as_line crlf symbols [] v
