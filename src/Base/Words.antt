-- ===== src/Base/Words.antt =====
-- Machine words: `size_t` and `uint64_t` arithmetic wraps at 2 ^ 64, `uint32_t` at 2 ^ 32.
use native.Mathlib.Nat.{
  mod-mod_of_dvd, dvd_of_mod-eq-zero, div-add-mod, mul-le-mul_left, mod-add-mod,
}
use market_data_disseminatio.Base.Tests.{
  ℕ, suc, ◌+◌, ◌-◌, ◌/◌, ◌%◌, ◌^◌, ◌≤◌, ◌<◌, ◌≡◌, sym, ap, ◌∙◌, dec_lt, arith,
}

abbrev pub u64 : ℕ → ℕ
u64 n = n % 2 ^ 64

abbrev pub u32 : ℕ → ℕ
u32 n = n % 2 ^ 32

-- `a - b` in uint64_t.
abbrev pub sub64 : ℕ → ℕ → ℕ
sub64 a b = (a + 2 ^ 64 - b) % 2 ^ 64

-- A distance that fits in a word is recovered from its wrapped end.
pub sub64-u64-add : (a n : ℕ) → a < 2 ^ 64 → n < 2 ^ 64 → sub64 (u64 (a + n)) a ≡ n
sub64-u64-add a n ha hn = omega arith

-- The distance of two counters is recovered from their wrapped values.
pub sub64-u64-u64 : (p k : ℕ) → k ≤ p → p < k + 2 ^ 64 → sub64 (u64 p) (u64 k) ≡ p - k
sub64-u64-u64 p k h d = omega arith

-- Where `m` divides the word size, an index taken modulo `m` does not see the wrap.
pub mod-mod_of_divides : (n w m : ℕ) → w % m ≡ 0 → (n % w) % m ≡ n % m
mod-mod_of_divides n w m h = mod-mod_of_dvd m n (dvd_of_mod-eq-zero m h)

-- Two numbers less than `m` apart with one remainder are equal.
mod-injective_lt : (m a b : ℕ) → a ≤ b → b < a + m → a % m ≡ b % m → a ≡ b
mod-injective_lt m a b le lt e = elim (dec_lt (a / m) (b / m)) [
  | yes q ↦ absurd (
      omega (
        arith,
        div-add-mod a m,
        div-add-mod b m,
        mul-le-mul_left {m = suc (a / m)} {n = b / m} m q,
      ))
  | no q ↦ omega (
    arith,
    div-add-mod a m,
    div-add-mod b m,
    mul-le-mul_left {m = b / m} {n = a / m} m (omega arith),
  )
]

-- Two positions of one window of `m` cells have different cells.
pub mod-injective_window : (m c i j : ℕ) → i < m → j < m → (c + i) % m ≡ (c + j) % m → i ≡ j
mod-injective_window m c i j hi hj e = elim (dec_lt i j) [
  | yes q ↦ omega (arith, mod-injective_lt m (c + i) (c + j) (omega arith) (omega arith) e)
  | no q ↦ omega (arith, mod-injective_lt m (c + j) (c + i) (omega arith) (omega arith) (sym e))
]

-- The cell `i` places past the next counter value, wrap included.
pub mod-u64_shift : (m r i : ℕ) → (2 ^ 64) % m ≡ 0 → (u64 (r + 1) + i) % m ≡ (r + suc i) % m
mod-u64_shift m r i h =
    sym (mod-add-mod (u64 (r + 1)) m i)
    ∙ ap (λ k. (k + i) % m) (mod-mod_of_divides (r + 1) (2 ^ 64) m h)
    ∙ mod-add-mod (r + 1) m i
    ∙ ap (λ k. k % m) (omega arith)
