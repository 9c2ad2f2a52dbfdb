-- ===== src/Base/Bytes.antt =====
-- Little-endian bytes: what `memcpy` of an integer object reads and writes on the target.
use native.Mathlib.Nat.{pow-suc}
use market_data_disseminatio.Base.Tests.{
  ℕ, zero, suc, ◌+◌, ◌*◌, ◌/◌, ◌%◌, ◌^◌, ◌<◌, ◌≡◌, refl, ap, ap₂, ◌∙◌, List, [], ◌∷◌, ◌++◌, arith,
}
use market_data_disseminatio.Base.Lists.{length, replicate, All}

abbrev pub IsByte : ℕ → Type 0
IsByte b = b < 256

-- The `k` bytes of a number, the lowest first.
abbrev pub to_bytes : ℕ → ℕ → List ℕ
to_bytes zero x = []
to_bytes (suc k) x = x % 256 ∷ to_bytes k (x / 256)

-- The number that bytes stand for, the lowest first.
abbrev pub of_bytes : List ℕ → ℕ
of_bytes [] = 0
of_bytes (b ∷ bs) = b + 256 * of_bytes bs

pub length-to_bytes : (k x : ℕ) → length (to_bytes k x) ≡ k
length-to_bytes zero x = refl
length-to_bytes (suc k) x = ap suc (length-to_bytes k (x / 256))

pub to_bytes-IsByte : (k x : ℕ) → All IsByte (to_bytes k x)
to_bytes-IsByte zero x = tt
to_bytes-IsByte (suc k) x = (omega arith, to_bytes-IsByte k (x / 256))

pub of_bytes-to_bytes : (k x : ℕ) → x < 256 ^ k → of_bytes (to_bytes k x) ≡ x
of_bytes-to_bytes zero x h = omega arith
of_bytes-to_bytes (suc k) x h =
    let e : 256 ^ suc k ≡ 256 ^ k * 256 = pow-suc 256 k in
    omega (arith, of_bytes-to_bytes k (x / 256) (omega arith))

pub to_bytes-of_bytes :
    (k : ℕ) (bs : List ℕ) → length bs ≡ k → All IsByte bs → to_bytes k (of_bytes bs) ≡ bs
to_bytes-of_bytes zero [] h b = refl
to_bytes-of_bytes zero (x ∷ bs) h b = absurd (omega arith)
to_bytes-of_bytes (suc k) [] h b = absurd (omega arith)
to_bytes-of_bytes (suc k) (x ∷ bs) h b =
    ap₂ ◌∷◌ (omega arith) (ap (to_bytes k) (omega arith) ∙ to_bytes-of_bytes k bs (omega arith) b.1)

pub of_bytes-append_zeros : (bs : List ℕ) (n : ℕ) → of_bytes (bs ++ replicate n 0) ≡ of_bytes bs
of_bytes-append_zeros [] zero = refl
of_bytes-append_zeros [] (suc n) = omega (arith, of_bytes-append_zeros [] n)
of_bytes-append_zeros (b ∷ bs) n = omega (arith, of_bytes-append_zeros bs n)
