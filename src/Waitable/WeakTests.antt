-- ===== src/Waitable/WeakTests.antt =====
-- WaitableSpscQueue over a ring of two places, and with late stores.
use market_data_disseminatio.Base.Tests.{
  ℕ, ◌+◌, ◌≤◌, ◌≡◌, ◌⊎◌, refl, true, false, List, [], ◌∷◌, ◌++◌, arith,
}
use market_data_disseminatio.Base.Lists.{length}
use market_data_disseminatio.Queue.{CustomSpscQueue, fresh, push, pop, is_empty}
use market_data_disseminatio.Queue.Refine.{IsCapacity, Holds, fresh-Holds}
use market_data_disseminatio.Queue.Storage.{ring_storage, ring_is_storage}
use market_data_disseminatio.Waitable.{
  pushed, seen, cleared, asleep, quiet, running, enter, go_on, raise, block, Reach, outside,
}
use market_data_disseminatio.Waitable.Stored.{
  Stored, StoredReach, here, next, apart, push_stored, first_nothing, second_nothing,
  waitable_empty,
}
use market_data_disseminatio.Waitable.StoredFifo.{with_items, stored_refines, stored_wakeup}
use market_data_disseminatio.Waitable.Weak.{
  Buffered, WeakStep, WeakReach, here as weak_here, next as weak_next, push_late, IsSleptOver,
  wakeup_lost,
}
use market_data_disseminatio.Waitable.WeakFifo.{weak_account}

two : IsCapacity 2
two = record { positive = omega arith; small = omega arith; divides = refl }

abbrev ring : CustomSpscQueue ℕ
ring = (push 2 (pop 2 (pop 2 fresh).1).1 7).1

abbrev slept_over : Stored (ring_storage {A = ℕ} 2)
slept_over = record {
  queue = ring;
  system = record {
    items = [];
    sleeping = true;
    stop = false;
    producer = pushed;
    consumer = asleep;
    stopper = quiet;
    sent = 7 ∷ [];
    received = [];
  };
  faulty = false;
}

StoredReach-slept_over : StoredReach (ring_storage {A = ℕ} 2) 2 fresh slept_over
unfolding push pop fresh
StoredReach-slept_over =
    next
      (next
        (next
          (next
            (next
              (next (next here (apart _ (enter refl refl) refl)) (apart _ (go_on refl refl) refl))
              (first_nothing refl refl))
            (apart _ (raise refl) refl))
          (second_nothing refl refl))
        (apart _ (block refl refl) refl))
      (push_stored 7 refl refl)

stored_refines_example :
    (xs : List ℕ) × Holds 2 ring xs
    × Reach 2 (with_items xs slept_over.system)
    × (slept_over.faulty ≡ false)
    × (7 ∷ [] ≡ [] ++ ([] ++ xs))
    × (length xs ≤ 2)
stored_refines_example =
    stored_refines (ring_is_storage two) (fresh-Holds two) StoredReach-slept_over

ring_not_empty : waitable_empty (ring_storage 2) slept_over ≡ false
unfolding waitable_empty push pop fresh is_empty
ring_not_empty = refl

stored_wakeup_example : (pushed ≡ pushed) ⊎ (pushed ≡ seen) ⊎ (pushed ≡ cleared) ⊎ (quiet ≡ running)
stored_wakeup_example =
    stored_wakeup (ring_is_storage two) (fresh-Holds two) StoredReach-slept_over refl ring_not_empty

wakeup_lost_example :
    (w : Buffered ℕ) × WeakReach 2 w
    × IsSleptOver 7 w
    × ((v : Buffered ℕ)
        → WeakStep 2 w v
        → (v ≡ w) ⊎ (v.system.producer ≡ pushed) ⊎ (v.system.stop ≡ true))
wakeup_lost_example = wakeup_lost (omega arith) 7

-- A push whose item is not visible yet.
abbrev unseen : Buffered ℕ
unseen = record {
  system = record {
    items = [];
    sleeping = false;
    stop = false;
    producer = pushed;
    consumer = outside;
    stopper = quiet;
    sent = 7 ∷ [];
    received = [];
  };
  buffer = 7 ∷ [];
}

WeakReach-unseen : WeakReach 2 unseen
WeakReach-unseen = weak_next weak_here (push_late 7 refl (omega arith))

weak_account_example : (unseen.system.sent ≡ [] ++ ([] ++ []) ++ unseen.buffer) × (0 + 1 ≤ 2)
weak_account_example = weak_account 2 WeakReach-unseen
