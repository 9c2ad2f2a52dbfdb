-- ===== src/Symbols/Pack.antt =====
-- Which symbols the number of a stored symbol tells apart.
use market_data_disseminatio.Base.Tests.{
  ℕ, zero, suc, ◌+◌, ◌≤◌, ◌<◌, ◌≡◌, ◌≢◌, refl, sym, ap, ap₂, ◌∙◌, List, [], ◌∷◌, arith, ◌==◌,
  ==-false, min, Bool-cases, inl, inr,
}
use market_data_disseminatio.Base.Lists.{
  length, replicate, All, take-all, length-replicate, length-append, All-append,
}
use market_data_disseminatio.Base.Bytes.{IsByte, of_bytes, of_bytes-append_zeros}
use market_data_disseminatio.Symbols.{strncpy, stored_symbol, pack_symbol, IsText}

-- Two texts with one number are equal: no byte is NUL, so the number shows the length too.
pub of_bytes-injective : (s t : List ℕ) → IsText s → IsText t → of_bytes s ≡ of_bytes t → s ≡ t
of_bytes-injective [] [] p q e = refl
of_bytes-injective [] (d ∷ t) p q e = absurd (omega arith)
of_bytes-injective (c ∷ s) [] p q e = absurd (omega arith)
of_bytes-injective (c ∷ s) (d ∷ t) p q e =
    ap₂ ◌∷◌ (omega arith) (of_bytes-injective s t p.1 q.1 (omega arith))

pack_symbol_lem : (s : List ℕ) → length s < 9 → pack_symbol s ≡ of_bytes s
unfolding pack_symbol
pack_symbol_lem s h = ap of_bytes (take-all (min (length s) 8) s (omega arith))

-- The feed handler tells all accepted symbols apart: those with one packed number are equal.
pub pack_symbol-injective :
    (s t : List ℕ)
    → length s < 9
    → length t < 9
    → IsText s
    → IsText t
    → pack_symbol s ≡ pack_symbol t
    → s ≡ t
pack_symbol-injective s t hs ht p q e =
    of_bytes-injective s t p q (sym (pack_symbol_lem s hs) ∙ e ∙ pack_symbol_lem t ht)

strncpy-fits : (n : ℕ) (s : List ℕ) → length s ≤ n → IsText s → of_bytes (strncpy n s) ≡ of_bytes s
unfolding strncpy
strncpy-fits zero [] h p = refl
strncpy-fits zero (c ∷ s) h p = absurd (omega arith)
strncpy-fits (suc n) [] h p = omega (arith, strncpy-fits n [] (omega arith) tt)
strncpy-fits (suc n) (c ∷ s) h p =
    rw (==-false c 0 (omega arith)) (omega (arith, strncpy-fits n s (omega arith) p.1))

strncpy-cut : (n : ℕ) (s : List ℕ) → n < length s → IsText s → of_bytes (strncpy n s) < of_bytes s
unfolding strncpy
strncpy-cut zero [] h p = absurd (omega arith)
strncpy-cut zero (c ∷ s) h p = omega arith
strncpy-cut (suc n) [] h p = absurd (omega arith)
strncpy-cut (suc n) (c ∷ s) h p =
    rw (==-false c 0 (omega arith)) (omega (arith, strncpy-cut n s (omega arith) p.1))

-- A symbol of at most 7 bytes stands in a message so that its 8 bytes are the packed number.
pub stored_symbol-fits :
    (s : List ℕ) → length s ≤ 7 → IsText s → of_bytes (stored_symbol s) ≡ pack_symbol s
unfolding stored_symbol
stored_symbol-fits s h p =
    of_bytes-append_zeros (strncpy 7 s) 1
    ∙ strncpy-fits 7 s h p
    ∙ sym (pack_symbol_lem s (omega arith))

-- A symbol of 8 bytes, which the files' limit lets through, is cut when it is stored: the number in
-- the message is not the one that a subscription to the symbol packs.
pub stored_symbol-cut :
    (s : List ℕ) → length s ≡ 8 → IsText s → of_bytes (stored_symbol s) ≢ pack_symbol s
unfolding stored_symbol
stored_symbol-cut s h p e = omega (
  arith,
  of_bytes-append_zeros (strncpy 7 s) 1,
  strncpy-cut 7 s (omega arith) p,
  pack_symbol_lem s (omega arith),
)

strncpy-length : (n : ℕ) (s : List ℕ) → length (strncpy n s) ≡ n
unfolding strncpy
strncpy-length zero s = refl
strncpy-length (suc n) [] = ap suc (strncpy-length n [])
strncpy-length (suc n) (c ∷ s) =
    ground (arith, length-replicate {A = ℕ} (suc n) 0, strncpy-length n s)

pub length-stored_symbol : (s : List ℕ) → length (stored_symbol s) ≡ 8
unfolding stored_symbol
length-stored_symbol s = length-append (strncpy 7 s) (0 ∷ []) ∙ ap (λ n. n + 1) (strncpy-length 7 s)

replicate-IsByte : (n : ℕ) → All IsByte (replicate n 0)
replicate-IsByte zero = tt
replicate-IsByte (suc n) = (omega arith, replicate-IsByte n)

strncpy-IsByte : (n : ℕ) (s : List ℕ) → All IsByte s → All IsByte (strncpy n s)
unfolding strncpy
strncpy-IsByte zero s p = tt
strncpy-IsByte (suc n) [] p = (omega arith, strncpy-IsByte n [] tt)
strncpy-IsByte (suc n) (c ∷ s) p = elim (Bool-cases (c == 0)) [
  | inl e ↦ rw e (replicate-IsByte (suc n))
  | inr e ↦ rw e (p.0, strncpy-IsByte n s p.1)
]

pub stored_symbol-IsByte : (s : List ℕ) → All IsByte s → All IsByte (stored_symbol s)
unfolding stored_symbol
stored_symbol-IsByte s p =
    All-append IsByte (strncpy 7 s) (0 ∷ []) (strncpy-IsByte 7 s p) (omega arith)

pub IsText-IsByte : (s : List ℕ) → IsText s → All IsByte s
IsText-IsByte [] p = tt
IsText-IsByte (c ∷ s) p = (p.0.1, IsText-IsByte s p.1)
