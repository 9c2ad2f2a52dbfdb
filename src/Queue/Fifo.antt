-- ===== src/Queue/Fifo.antt =====
-- The contract of CustomSpscQueue: a first-in first-out list of at most `cap` items, and the theorem
-- that no sequence of calls tells the ring from it.
use market_data_disseminatio.Base.Tests.{
  ℕ, ◌≡◌, ◌≢◌, refl, ap₂, Bool, true, false, List, [], ◌∷◌, ◌++◌, arith, ◌==◌, if◌then◌else◌,
  ℕ_discrete, ==-false, ==-refl,
}
use market_data_disseminatio.Base.Lists.{length}
use market_data_disseminatio.Queue.{
  CustomSpscQueue, Popped, nothing, item, fresh, is_empty, push, pop,
}
use market_data_disseminatio.Queue.Refine.{
  IsCapacity, Holds, fresh-Holds, push-full, push-Holds, pop-nil, pop-Holds, is_empty_lem,
}

pub data Call {ℓ} (A : Type ℓ) : Type ℓ where
  push_call : A → Call A
  pop_call : Call A
  empty_call : Call A

pub data Reply {ℓ} (A : Type ℓ) : Type ℓ where
  pushed : Bool → Reply A
  popped : Popped A → Reply A
  emptiness : Bool → Reply A

module _ {ℓ} {A : Type ℓ} where
  -- The calls of one client, in order, with what each returns.
  unfoldable pub run : ℕ → CustomSpscQueue A → List (Call A) → List (Reply A)
  run cap q [] = []
  run cap q (push_call a ∷ calls) = pushed (push cap q a).0 ∷ run cap (push cap q a).1 calls
  run cap q (pop_call ∷ calls) = popped (pop cap q).0 ∷ run cap (pop cap q).1 calls
  run cap q (empty_call ∷ calls) = emptiness (is_empty q) ∷ run cap q calls

  -- The bounded list: an item that does not fit is refused.
  abbrev pub fifo_push : ℕ → List A → A → Bool × List A
  fifo_push cap xs a = if length xs == cap then (false, xs) else (true, xs ++ a ∷ [])

  abbrev pub fifo_pop : List A → Popped A × List A
  fifo_pop [] = (nothing, [])
  fifo_pop (x ∷ xs) = (item x, xs)

  abbrev pub fifo_empty : List A → Bool
  fifo_empty [] = true
  fifo_empty (x ∷ xs) = false

  pub fifo_run : ℕ → List A → List (Call A) → List (Reply A)
  fifo_run cap xs [] = []
  fifo_run cap xs (push_call a ∷ calls) =
      pushed (fifo_push cap xs a).0 ∷ fifo_run cap (fifo_push cap xs a).1 calls
  fifo_run cap xs (pop_call ∷ calls) = popped (fifo_pop xs).0 ∷ fifo_run cap (fifo_pop xs).1 calls
  fifo_run cap xs (empty_call ∷ calls) = emptiness (fifo_empty xs) ∷ fifo_run cap xs calls

module _ {ℓ} {A : Type ℓ} {cap : ℕ} (c : IsCapacity cap) where
  -- `push` answers as the bounded list does, and leaves the ring holding its list.
  pub push_refines :
      {q : CustomSpscQueue A} {xs : List A} (a : A)
      → Holds cap q xs
      → ((push cap q a).0 ≡ (fifo_push cap xs a).0)
        × Holds cap (push cap q a).1 (fifo_push cap xs a).1
  push_refines {q} {xs} a h = elim (ℕ_discrete (length xs) cap) [
    | yes e ↦ rw (push-full c a h e, e, ==-refl cap) (refl, h)
    | no ne ↦ rw (==-false (length xs) cap ne) (push-Holds c a h (omega (arith, h.bounded)))
  ]

  -- `pop` answers as the bounded list does, never by an undefined read, and leaves the ring holding
  -- the rest.
  pub pop_refines :
      {q : CustomSpscQueue A} (xs : List A)
      → Holds cap q xs
      → ((pop cap q).0 ≡ (fifo_pop xs).0) × Holds cap (pop cap q).1 (fifo_pop xs).1
  pop_refines [] h = rw (pop-nil c h) (refl, h)
  pop_refines (x ∷ xs) h = pop-Holds c h

  run-eq-fifo_run :
      (calls : List (Call A)) {q : CustomSpscQueue A} {xs : List A}
      → Holds cap q xs
      → run cap q calls ≡ fifo_run cap xs calls
  unfolding run fifo_run
  run-eq-fifo_run [] h = refl
  run-eq-fifo_run (push_call a ∷ calls) h =
      let (e, h') = push_refines a h in ap₂ (λ b l. pushed b ∷ l) e (run-eq-fifo_run calls h')
  run-eq-fifo_run (pop_call ∷ calls) {xs = xs} h =
      let (e, h') = pop_refines xs h in ap₂ (λ b l. popped b ∷ l) e (run-eq-fifo_run calls h')
  run-eq-fifo_run (empty_call ∷ calls) {xs = xs} h =
      ap₂ (λ b l. emptiness b ∷ l) (is_empty_lem c xs h) (run-eq-fifo_run calls h)

  -- For a capacity that divides 2 ^ 64 and is smaller, every sequence of `push`, `pop` and `empty`
  -- on a new queue returns what the bounded first-in first-out list returns.
  pub run_refines : (calls : List (Call A)) → run cap fresh calls ≡ fifo_run cap [] calls
  run_refines calls = run-eq-fifo_run calls (fresh-Holds c)

module _ {A : Type 0} (cap : ℕ) (xs : List A) (a : A) where
  pub fifo_push-true :
      (fifo_push cap xs a).0 ≡ true → ((fifo_push cap xs a).1 ≡ xs ++ a ∷ []) × (length xs ≢ cap)
  fifo_push-true e = elim (ℕ_discrete (length xs) cap) [
    | yes full ↦ absurd (ground (arith, full))
    | no room ↦ (rw (==-false (length xs) cap room) refl, room)
  ]

  pub fifo_push-false :
      (fifo_push cap xs a).0 ≡ false → ((fifo_push cap xs a).1 ≡ xs) × (length xs ≡ cap)
  fifo_push-false e = elim (ℕ_discrete (length xs) cap) [
    | yes full ↦ (rw (full, ==-refl cap) refl, full)
    | no room ↦ absurd (ground (arith, ==-false (length xs) cap room))
  ]
