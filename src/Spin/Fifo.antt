-- ===== src/Spin/Fifo.antt =====
-- SpinSpscQueue against a bounded first-in first-out list, over any storage.
use market_data_disseminatio.Base.Tests.{
  ℕ, ◌≡◌, refl, sym, subst, List, [], ◌∷◌, if◌then◌else◌, Bool-cases, inl, inr,
}
use market_data_disseminatio.Queue.Fifo.{fifo_push}
use market_data_disseminatio.Queue.Storage.{Storage, IsStorage}
use market_data_disseminatio.Spin.{
  SpinRound, Spun, got, stopped, spinning, push_all, after_try, spin_pop,
}

module _ {A : Type 0} (cap : ℕ) where
  -- The list behind the producer's calls: an item that does not fit is refused.
  abbrev pub fifo_push_all : List A → List A → List A
  fifo_push_all [] xs = xs
  fifo_push_all (a ∷ items) xs = fifo_push_all items (fifo_push cap xs a).1

  abbrev pub fifo_try : List A → Spun A × List A → Spun A × List A
  fifo_try [] rest = rest
  fifo_try (x ∷ xs) rest = (got x, xs)

  -- The first round, up to a stop, in which the list is not empty gives its oldest item.
  pub fifo_spin : List (SpinRound A) → List A → Spun A × List A
  fifo_spin [] xs = (spinning, xs)
  fifo_spin (r ∷ rounds) xs =
      let rest = fifo_spin rounds [] in
      if r.stop_requested then (stopped, xs) else fifo_try (fifo_push_all r.arriving xs) rest

module _ {A : Type 0} {cap : ℕ} {storage : Storage A} (v : IsStorage cap storage) where
  push_all-Contains :
      (items : List A) {s : storage.State} {xs : List A}
      → v.Contains s xs
      → v.Contains (push_all storage items s) (fifo_push_all cap items xs)
  unfolding push_all
  push_all-Contains [] h = h
  push_all-Contains (a ∷ items) h = push_all-Contains items (v.push_as a h).1

  abbrev Agrees : Spun A × storage.State → Spun A × List A → Type 0
  Agrees a b = (a.0 ≡ b.0) × v.Contains a.1 b.1

  after_try-Agrees :
      (ys : List A) {s : storage.State} (rest : storage.State → Spun A × storage.State)
      (fifo_rest : Spun A × List A)
      → v.Contains s ys
      → ((t : storage.State) → v.Contains t [] → Agrees (rest t) fifo_rest)
      → Agrees
          (after_try storage
            (storage.storage_pop s).0
            (storage.storage_pop s).1
            (rest (storage.storage_pop s).1))
          (fifo_try cap ys fifo_rest)
  after_try-Agrees [] {s} rest fifo_rest h ih =
      let (e, h2) = v.pop_as [] h in
      subst
        (λ p.
          Agrees (after_try storage p (storage.storage_pop s).1 (rest (storage.storage_pop s).1))
            fifo_rest)
        (sym e) (ih (storage.storage_pop s).1 h2)
  after_try-Agrees (x ∷ ys) {s} rest fifo_rest h ih =
      let (e, h2) = v.pop_as (x ∷ ys) h in
      subst
        (λ p.
          Agrees (after_try storage p (storage.storage_pop s).1 (rest (storage.storage_pop s).1))
            (got x, ys))
        (sym e) (refl, h2)

  -- Over a storage that answers as a bounded list, `pop` of SpinSpscQueue returns the oldest item in the
  -- first round, up to a stop, in which there is one, false at a stop before, and never an undefined
  -- read; what is left in the storage is the rest.
  pub spin_pop_refines :
      (rounds : List (SpinRound A)) {s : storage.State} {xs : List A}
      → v.Contains s xs
      → ((spin_pop storage rounds s).0 ≡ (fifo_spin cap rounds xs).0)
        × v.Contains (spin_pop storage rounds s).1 (fifo_spin cap rounds xs).1
  unfolding spin_pop fifo_spin
  spin_pop_refines [] h = (refl, h)
  spin_pop_refines (r ∷ rounds) {s} {xs} h = elim (Bool-cases r.stop_requested) [
    | inl e ↦ rw e (refl, h)
    | inr e ↦ rw e (
        after_try-Agrees (fifo_push_all cap r.arriving xs) (spin_pop storage rounds)
          (fifo_spin cap rounds []) (push_all-Contains r.arriving h)
          (λ t empty. spin_pop_refines rounds empty))
  ]
