-- ===== src/Queue/Destroy.antt =====
-- The destructor of CustomSpscQueue, and what the wrap of the counters does to it.
use native.Mathlib.Nat.{add-mod-mod, mul-add-mod_self_left, div-add-mod, mod-eq_of_lt, mod-lt}
use market_data_disseminatio.Base.Tests.{
  ℕ, suc, ◌+◌, ◌-◌, ◌*◌, ◌/◌, ◌%◌, ◌^◌, ◌≤◌, ◌<◌, ◌≡◌, refl, sym, ap, ◌∙◌, Option, none, some, List,
  [], ◌∷◌, arith, lt→ltb, ge→ltb,
}
use market_data_disseminatio.Base.Lists.{length, get_elem?, update}
use market_data_disseminatio.Queue.{CustomSpscQueue, destroy_loop, destroy}
use market_data_disseminatio.Queue.Refine.{IsCapacity, Holds, window-tail}

-- Going round the ring from any position meets every cell.
round : (cap r k : ℕ) → k < cap → (r + (k + cap - r % cap) % cap) % cap ≡ k
round cap r k h =
    add-mod-mod r (k + cap - r % cap) cap
    ∙ ap (λ n. n % cap) e
    ∙ mul-add-mod_self_left cap (r / cap + 1) k
    ∙ mod-eq_of_lt h
  where
    e : r + (k + cap - r % cap) ≡ cap * (r / cap + 1) + k
    e = omega (arith, div-add-mod r cap, mod-lt r {m = cap} (omega arith))

module _ {ℓ} {A : Type ℓ} {cap : ℕ} (positive : 0 < cap) where
  destroy_loop-none :
      (xs : List A) (r w : ℕ) (cells : ℕ → Option A)
      → length xs ≤ cap
      → w ≡ r + length xs
      → ((i : ℕ) → i < cap → cells ((r + i) % cap) ≡ get_elem? xs i)
      → (left : ℕ → Option A) × (destroy_loop cap (suc (length xs)) r w cells ≡ some left)
        × ((k : ℕ) → k < cap → left k ≡ none)
  unfolding destroy_loop
  destroy_loop-none [] r w cells len e window = (
    cells,
    ground arith,
    λ k hk.
        ap cells (sym (round cap r k hk)) ∙ window ((k + cap - r % cap) % cap) (mod-lt _ positive),
  )
  destroy_loop-none (x ∷ xs) r w cells len e window =
      let (left, done, raw) =
        destroy_loop-none xs (r + 1) w (update cells (r % cap) none) (omega arith) (omega arith)
          (λ i hi.
            ap (λ k. update cells (r % cap) none (k % cap)) (omega arith)
            ∙ window-tail cells r x xs positive len window i hi) in
      (left, rw (lt→ltb r w (omega arith)) done, raw)

module _ {ℓ} {A : Type ℓ} {cap : ℕ} (c : IsCapacity cap) where
  -- While the counters have not wrapped between the oldest item and the newest, the destructor
  -- ends, and leaves no object in any cell of the storage.
  pub destroy-none :
      {q : CustomSpscQueue A} {xs : List A}
      → Holds cap q xs
      → q.read + length xs < 2 ^ 64
      → (left : ℕ → Option A) × (destroy cap q ≡ some left) × ((k : ℕ) → k < cap → left k ≡ none)
  unfolding destroy
  destroy-none {q} {xs} h fits =
      let e : q.write ≡ q.read + length xs = omega (arith, h.write_at) in
      let d : length xs ≡ q.write - q.read = omega arith in
      rw (← d) (destroy_loop-none c.positive xs q.read q.write q.cells h.bounded e h.cell)

  -- Where the counters have wrapped in between, the destructor's loop does not run at all: it ends
  -- with every cell as it was, and the oldest item is still there.
  pub destroy-wrapped :
      {q : CustomSpscQueue A} {x : A} {xs : List A}
      → Holds cap q (x ∷ xs)
      → 2 ^ 64 ≤ q.read + length (x ∷ xs)
      → (destroy cap q ≡ some q.cells) × (q.cells (q.read % cap) ≡ some x)
  unfolding destroy destroy_loop
  destroy-wrapped {q} {x} {xs} h wraps = (
    rw (ge→ltb q.read q.write (omega (arith, h.write_at, h.bounded, c.small))) refl,
    ap (λ k. q.cells (k % cap)) (omega arith) ∙ h.cell 0 c.positive,
  )
