-- ===== src/Waitable/Stored.antt =====
-- src/utils/WaitableSpscQueue.h over any storage that src/utils/QueueConcepts.h allows: `queue_.push` and
-- `queue_.pop` are calls of the storage, each one access, and what they return decides the branch. The
-- other accesses are those of Waitable, whose `items` play no part here.
use market_data_disseminatio.Base.Tests.{ℕ, ◌≡◌, ◌≢◌, Bool, true, false, [], ◌∷◌, ◌++◌}
use market_data_disseminatio.Queue.{nothing, item, undefined}
use market_data_disseminatio.Queue.Storage.{Storage}
use market_data_disseminatio.Waitable.{
  idle, pushed, outside, first_try, going_to_sleep, second_try, got, before_wait, running, System,
  Step, push_room, push_full, first_item, first_miss, second_item, second_miss, removed, start,
}

-- The calls of the queue.
abbrev pub calls_queue : {A : Type 0} {cap : ℕ} {s t : System A} → Step cap s t → Bool
calls_queue (push_room a p r) = true
calls_queue (push_full a p f) = true
calls_queue (first_item a rest c e r) = true
calls_queue (first_miss c e) = true
calls_queue (second_item a rest c e) = true
calls_queue (second_miss c e) = true
calls_queue _ = false

module _ {A : Type 0} (storage : Storage A) where
  -- `faulty` is set by an undefined read.
  pub record Stored : Type 0 where
    pub queue : storage.State
    pub system : System A
    pub faulty : Bool

  pub data StoredStep (cap : ℕ) (s : Stored) : Stored → Type 0 where
    push_stored :
        (a : A)
        → s.system.producer ≡ idle
        → (storage.storage_push s.queue a).0 ≡ true
        → StoredStep cap s (record s {
          queue = (storage.storage_push s.queue a).1;
          system = record (s.system) { producer = pushed; sent = s.system.sent ++ a ∷ [] };
        })
    push_rejected :
        (a : A)
        → s.system.producer ≡ idle
        → (storage.storage_push s.queue a).0 ≡ false
        → StoredStep cap s (record s { queue = (storage.storage_push s.queue a).1 })
    first_popped :
        (a : A)
        → s.system.consumer ≡ first_try
        → (storage.storage_pop s.queue).0 ≡ item a
        → s.system.stopper ≢ running
        → StoredStep cap s (record s {
          queue = (storage.storage_pop s.queue).1;
          system = record (s.system) {
            consumer = outside;
            stopper = removed s.system.stopper;
            received = s.system.received ++ a ∷ [];
          };
        })
    first_nothing :
        s.system.consumer ≡ first_try
        → (storage.storage_pop s.queue).0 ≡ nothing
        → StoredStep cap s (record s {
          queue = (storage.storage_pop s.queue).1;
          system = record (s.system) { consumer = going_to_sleep };
        })
    first_undefined :
        s.system.consumer ≡ first_try
        → (storage.storage_pop s.queue).0 ≡ undefined
        → StoredStep cap s (record s { faulty = true })
    second_popped :
        (a : A)
        → s.system.consumer ≡ second_try
        → (storage.storage_pop s.queue).0 ≡ item a
        → StoredStep cap s (record s {
          queue = (storage.storage_pop s.queue).1;
          system = record (s.system) { consumer = got a };
        })
    second_nothing :
        s.system.consumer ≡ second_try
        → (storage.storage_pop s.queue).0 ≡ nothing
        → StoredStep cap s (record s {
          queue = (storage.storage_pop s.queue).1;
          system = record (s.system) { consumer = before_wait };
        })
    second_undefined :
        s.system.consumer ≡ second_try
        → (storage.storage_pop s.queue).0 ≡ undefined
        → StoredStep cap s (record s { faulty = true })
    apart :
        (t : System A)
        → (step : Step cap s.system t) → calls_queue step ≡ false
        → StoredStep cap s (record s { system = t })

  pub data StoredReach (cap : ℕ) (empty : storage.State) : Stored → Type 0 where
    here : StoredReach cap empty (record { queue = empty; system = start; faulty = false })
    next : {s t : Stored} → StoredReach cap empty s → StoredStep cap s t → StoredReach cap empty t

  unfoldable pub waitable_empty : Stored → Bool
  waitable_empty s = storage.storage_empty s.queue
