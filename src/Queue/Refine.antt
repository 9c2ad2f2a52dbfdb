-- ===== src/Queue/Refine.antt =====
-- CustomSpscQueue against a bounded first-in first-out list, at every position of its wrapping
-- counters.
use native.Mathlib.Nat.{add-mod_right}
use market_data_disseminatio.Base.Tests.{
  ℕ, suc, ◌+◌, ◌%◌, ◌^◌, ◌≤◌, ◌<◌, ◌≡◌, refl, sym, ap, ◌∙◌, true, false, Option, none, some, List,
  [], ◌∷◌, ◌++◌, arith, ==-false, ℕ_discrete, dec_lt,
}
use market_data_disseminatio.Base.Lists.{
  length, get_elem?, update, length-append, get_elem?-none, update_self, update-ne,
  get_elem?-append_self, get_elem?-append_ne,
}
use market_data_disseminatio.Base.Words.{
  u64, sub64, sub64-u64-add, mod-mod_of_divides, mod-injective_window, mod-u64_shift,
}
use market_data_disseminatio.Queue.{
  CustomSpscQueue, nothing, item, fresh, push, pop, is_empty, moved,
}

-- A capacity for which the index `counter % cap` survives the wrap of the counter.
pub record IsCapacity (cap : ℕ) : Type 0 where
  pub positive : 0 < cap
  pub small : cap < 2 ^ 64
  pub divides : (2 ^ 64) % cap ≡ 0

-- The queue holds the items `xs`, oldest first: they stand in the cells from `read_` on, going
-- round at `cap`, and every other cell is raw.
pub record Holds {ℓ} {A : Type ℓ} (cap : ℕ) (q : CustomSpscQueue A) (xs : List A) : Type ℓ where
  pub bounded : length xs ≤ cap
  pub read_word : q.read < 2 ^ 64
  pub write_at : q.write ≡ u64 (q.read + length xs)
  pub cell : (i : ℕ) → i < cap → q.cells ((q.read + i) % cap) ≡ get_elem? xs i

zero-ne-suc : (i : ℕ) → ¬ (0 ≡ suc i)
zero-ne-suc i e = omega arith

-- Filling the cell behind a window extends the window.
pub window-snoc {ℓ} :
    {A : Type ℓ} {cap : ℕ} (cells : ℕ → Option A) (r w : ℕ) (xs : List A) (a : A)
    → length xs < cap
    → w ≡ (r + length xs) % cap
    → ((i : ℕ) → i < cap → cells ((r + i) % cap) ≡ get_elem? xs i)
    → (i : ℕ) → i < cap
    → update cells w (some a) ((r + i) % cap) ≡ get_elem? (xs ++ a ∷ []) i
window-snoc {cap = cap} cells r w xs a room at window i hi = elim (ℕ_discrete i (length xs)) [
  | yes e ↦
      update_self cells _ _ (some a) (at ∙ ap (λ k. (r + k) % cap) (sym e))
      ∙ sym (get_elem?-append_self xs a i e)
  | no ne ↦
      update-ne cells _ _ (some a)
        (λ p. ne (mod-injective_window cap r i (length xs) hi room (sym p ∙ at)))
      ∙ window i hi
      ∙ sym (get_elem?-append_ne xs a i ne)
]

-- Emptying the first cell of a window leaves the window of the other items.
pub window-tail {ℓ} :
    {A : Type ℓ} {cap : ℕ} (cells : ℕ → Option A) (r : ℕ) (x : A) (xs : List A)
    → 0 < cap
    → length (x ∷ xs) ≤ cap
    → ((i : ℕ) → i < cap → cells ((r + i) % cap) ≡ get_elem? (x ∷ xs) i)
    → (i : ℕ) → i < cap
    → update cells (r % cap) none ((r + suc i) % cap) ≡ get_elem? xs i
window-tail {cap = cap} cells r x xs pos len window i hi = elim (dec_lt (suc i) cap) [
  | yes lt ↦
      update-ne cells _ _ none
        (λ p. zero-ne-suc i (mod-injective_window cap r 0 (suc i) pos lt (here ∙ p)))
      ∙ window (suc i) lt
  | no ge ↦
      update_self cells _ _ none (sym (add-mod_right r cap) ∙ ap (λ k. (r + k) % cap) (omega arith))
      ∙ sym (get_elem?-none xs i (omega arith))
]
  where
    here : (r + 0) % cap ≡ r % cap
    here = ap (λ k. k % cap) (omega arith)

module _ {ℓ} {A : Type ℓ} {cap : ℕ} (c : IsCapacity cap) where
  distance :
      {q : CustomSpscQueue A} {xs : List A} → Holds cap q xs → sub64 q.write q.read ≡ length xs
  distance {q} {xs} h =
      ap (λ w. sub64 w q.read) h.write_at
      ∙ sub64-u64-add q.read (length xs) h.read_word (omega (arith, h.bounded, c.small))

  write_cell :
      {q : CustomSpscQueue A} {xs : List A}
      → Holds cap q xs
      → q.write % cap ≡ (q.read + length xs) % cap
  write_cell {q} {xs} h =
      ap (λ w. w % cap) h.write_at ∙ mod-mod_of_divides (q.read + length xs) (2 ^ 64) cap c.divides

  pub fresh-Holds : Holds {A = A} cap fresh []
  unfolding fresh
  fresh-Holds = record {
    bounded = omega arith;
    read_word = omega arith;
    write_at = omega arith;
    cell = λ i h. refl;
  }

  -- Storing an item at the write index puts it behind the items held.
  push_cell :
      {q : CustomSpscQueue A} {xs : List A} (a : A)
      → Holds cap q xs
      → length xs < cap
      → (i : ℕ) → i < cap
      → update q.cells (q.write % cap) (some a) ((q.read + i) % cap) ≡ get_elem? (xs ++ a ∷ []) i
  push_cell {q} {xs} a h room i hi =
      window-snoc q.cells q.read (q.write % cap) xs a room (write_cell h) h.cell i hi

  -- Moving the oldest item out leaves the rest, one cell further on.
  pop_cell :
      {q : CustomSpscQueue A} {x : A} {xs : List A}
      → Holds cap q (x ∷ xs)
      → (i : ℕ) → i < cap
      → update q.cells (q.read % cap) none ((u64 (q.read + 1) + i) % cap) ≡ get_elem? xs i
  pop_cell {q} {x} {xs} h i hi =
      rw (mod-u64_shift cap q.read i c.divides)
        (window-tail q.cells q.read x xs c.positive h.bounded h.cell i hi)

  pub push-full :
      {q : CustomSpscQueue A} {xs : List A} (a : A)
      → Holds cap q xs
      → length xs ≡ cap
      → push cap q a ≡ (false, q)
  unfolding push
  push-full a h e = ground (arith, distance h)

  pub push-Holds :
      {q : CustomSpscQueue A} {xs : List A} (a : A)
      → Holds cap q xs
      → length xs < cap
      → ((push cap q a).0 ≡ true) × Holds cap (push cap q a).1 (xs ++ a ∷ [])
  unfolding push
  push-Holds {q} {xs} a h room =
      rw (==-false (sub64 q.write q.read) cap (omega (arith, distance h))) (
        refl,
        record {
          bounded = omega (arith, length-append xs (a ∷ []));
          read_word = h.read_word;
          write_at = omega (arith, h.write_at, length-append xs (a ∷ []));
          cell = push_cell a h room;
        },
      )

  pub pop-nil : {q : CustomSpscQueue A} → Holds cap q [] → pop cap q ≡ (nothing, q)
  unfolding pop
  pop-nil h = ground arith

  pub pop-Holds :
      {q : CustomSpscQueue A} {x : A} {xs : List A}
      → Holds cap q (x ∷ xs)
      → ((pop cap q).0 ≡ item x) × Holds cap (pop cap q).1 xs
  unfolding pop
  pop-Holds {q} {x} {xs} h =
      rw (==-false q.read q.write (omega (arith, h.write_at, h.read_word, h.bounded, c.small))) (
        ap moved (ap (λ k. q.cells (k % cap)) (omega arith) ∙ h.cell 0 c.positive),
        record {
          bounded = omega (arith, h.bounded);
          read_word = omega arith;
          write_at = omega (arith, h.write_at);
          cell = pop_cell h;
        },
      )

  pub is_empty_lem :
      {q : CustomSpscQueue A} (xs : List A)
      → Holds cap q xs
      → is_empty q ≡ elim xs [ [] ↦ true | x ∷ r ↦ false ]
  unfolding is_empty
  is_empty_lem [] h = ground arith
  is_empty_lem {q} (x ∷ xs) h =
      ==-false q.read q.write (omega (arith, h.write_at, h.read_word, h.bounded, c.small))
