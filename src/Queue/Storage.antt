-- ===== src/Queue/Storage.antt =====
-- src/utils/QueueConcepts.h: what the waiting queues ask of their storage, and CustomSpscQueue as one.
use market_data_disseminatio.Base.Tests.{ℕ, Bool, ◌≡◌, List, [], ◌∷◌}
use market_data_disseminatio.Queue.{CustomSpscQueue, Popped, push, pop, is_empty}
use market_data_disseminatio.Queue.Refine.{IsCapacity, Holds, is_empty_lem}
use market_data_disseminatio.Queue.Fifo.{fifo_push, fifo_pop, fifo_empty, push_refines, pop_refines}

-- SpscQueueStorage<UnderlyingQueue_T, T>: the operations that the queues ask of their storage.
pub record Storage (A : Type 0) : Type 1 where
  pub State : Type 0
  pub storage_push : State → A → Bool × State
  pub storage_pop : State → Popped A × State
  pub storage_empty : State → Bool

-- What they rely on: the storage answers as a bounded first-in first-out list.
pub record IsStorage {A : Type 0} (cap : ℕ) (storage : Storage A) : Type 1 where
  pub Contains : storage.State → List A → Type 0
  pub push_as :
      {s : storage.State} {xs : List A} (a : A)
      → Contains s xs
      → ((storage.storage_push s a).0 ≡ (fifo_push cap xs a).0)
        × Contains (storage.storage_push s a).1 (fifo_push cap xs a).1
  pub pop_as :
      {s : storage.State} (xs : List A)
      → Contains s xs
      → ((storage.storage_pop s).0 ≡ (fifo_pop xs).0)
        × Contains (storage.storage_pop s).1 (fifo_pop xs).1
  pub empty_as :
      {s : storage.State} (xs : List A) → Contains s xs → storage.storage_empty s ≡ fifo_empty xs

pub is_empty_refines :
    {A : Type 0} {cap : ℕ} (c : IsCapacity cap) {q : CustomSpscQueue A} (xs : List A)
    → Holds cap q xs
    → is_empty q ≡ fifo_empty xs
is_empty_refines c [] h = is_empty_lem c [] h
is_empty_refines c (x ∷ xs) h = is_empty_lem c (x ∷ xs) h

abbrev pub ring_storage : {A : Type 0} → ℕ → Storage A
ring_storage {A} cap = record {
  State = CustomSpscQueue A;
  storage_push = push cap;
  storage_pop = pop cap;
  storage_empty = is_empty;
}

abbrev pub ring_is_storage :
    {A : Type 0} {cap : ℕ} → IsCapacity cap → IsStorage {A = A} cap (ring_storage cap)
ring_is_storage {cap = cap} c = record {
  Contains = Holds cap;
  push_as = push_refines c;
  pop_as = pop_refines c;
  empty_as = λ xs h. is_empty_refines c xs h;
}
