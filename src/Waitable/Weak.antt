-- ===== src/Waitable/Weak.antt =====
-- WaitableSpscQueue where the producer's store to the queue may become visible late. `push` of
-- src/utils/WaitableSpscQueue.h stores the item with release order and then loads `is_sleeping_` with
-- relaxed order, so the load may take effect first, as it does on x86, whose processors keep stores in a
-- buffer. This is the only delay modelled: the buffer holds the items that the consumer cannot see yet,
-- and is emptied in order and before the producer's next store.
use market_data_disseminatio.Base.Tests.{
  ℕ, ◌+◌, ◌<◌, ◌≡◌, ◌⊎◌, inl, inr, refl, Bool, true, false, List, [], ◌∷◌, ◌++◌, arith,
}
use market_data_disseminatio.Base.Lists.{length}
use market_data_disseminatio.Waitable.{
  idle, pushed, asleep, quiet, System, Step, push_room, push_full, flag_true, flag_false, clear,
  notify, enter, enter_stopped, give_up, go_on, first_item, first_miss, raise, second_item,
  second_miss, lower, pass, block, request, callback_store, callback_notify, start,
}
use market_data_disseminatio.Waitable.Kept.{is_push}

pub record Buffered {ℓ} (A : Type ℓ) : Type ℓ where
  pub system : System A
  pub buffer : List A

-- The producer's store of the flag.
abbrev pub stores_flag {ℓ} : {A : Type ℓ} {cap : ℕ} {s t : System A} → Step cap s t → Bool
stores_flag (clear p) = true
stores_flag _ = false

pub data WeakStep {ℓ} {A : Type ℓ} (cap : ℕ) (w : Buffered A) : Buffered A → Type ℓ where
  push_late :
      (a : A)
      → w.system.producer ≡ idle
      → length w.system.items + length w.buffer < cap
      → WeakStep cap w (record {
        system = record (w.system) { producer = pushed; sent = w.system.sent ++ a ∷ [] };
        buffer = w.buffer ++ a ∷ [];
      })
  push_refused :
      (a : A)
      → w.system.producer ≡ idle
      → length w.system.items + length w.buffer ≡ cap
      → WeakStep cap w w
  become_visible :
      (a : A) (rest : List A)
      → w.buffer ≡ a ∷ rest
      → WeakStep cap w (record {
        system = record (w.system) { items = w.system.items ++ a ∷ [] };
        buffer = rest;
      })
  shared :
      (t : System A)
      → (step : Step cap w.system t) → is_push step ≡ false
      → (stores_flag step ≡ true → w.buffer ≡ [])
      → WeakStep cap w (record { system = t; buffer = w.buffer })

pub data WeakReach {ℓ} {A : Type ℓ} (cap : ℕ) : Buffered A → Type ℓ where
  here : WeakReach cap (record { system = start; buffer = [] })
  next : {w v : Buffered A} → WeakReach cap w → WeakStep cap w v → WeakReach cap v

-- The producer is outside `push`, its item is in the queue for all to see, and the consumer is blocked.
pub record IsSleptOver {ℓ} {A : Type ℓ} (a : A) (w : Buffered A) : Type ℓ where
  pub at_rest : w.system.producer ≡ idle
  pub waiting_item : w.system.items ≡ a ∷ []
  pub visible : w.buffer ≡ []
  pub unstopped : w.system.stopper ≡ quiet
  pub blocked : w.system.consumer ≡ asleep

slept_over {ℓ} : {A : Type ℓ} → A → Buffered A
slept_over a = record {
  system = record {
    items = a ∷ [];
    sleeping = true;
    stop = false;
    producer = idle;
    consumer = asleep;
    stopper = quiet;
    sent = a ∷ [];
    received = [];
  };
  buffer = [];
}

module _ {ℓ} {A : Type ℓ} {cap : ℕ} where
  -- From there nothing moves but another `push` or a stop request.
  IsSleptOver-step :
      {a : A} {w v : Buffered A}
      → IsSleptOver a w
      → WeakStep cap w v
      → (v ≡ w) ⊎ (v.system.producer ≡ pushed) ⊎ (v.system.stop ≡ true)
  IsSleptOver-step h (push_late a p r) = inr (inl refl)
  IsSleptOver-step h (push_refused a p f) = inl refl
  IsSleptOver-step h (become_visible a rest e) = ground (arith, h.visible)
  IsSleptOver-step h (shared t (push_room a p r) n m) = cc
  IsSleptOver-step h (shared t (push_full a p f) n m) = cc
  IsSleptOver-step h (shared t (flag_true p f) n m) = ground arith
  IsSleptOver-step h (shared t (flag_false p f) n m) = ground arith
  IsSleptOver-step h (shared t (clear p) n m) = ground arith
  IsSleptOver-step h (shared t (notify p) n m) = ground arith
  IsSleptOver-step h (shared t (enter c f) n m) = ground arith
  IsSleptOver-step h (shared t (enter_stopped c f) n m) = ground arith
  IsSleptOver-step h (shared t (give_up c f r) n m) = ground arith
  IsSleptOver-step h (shared t (go_on c f) n m) = ground arith
  IsSleptOver-step h (shared t (first_item b rest c e r) n m) = ground arith
  IsSleptOver-step h (shared t (first_miss c e) n m) = ground arith
  IsSleptOver-step h (shared t (raise c) n m) = ground arith
  IsSleptOver-step h (shared t (second_item b rest c e) n m) = ground arith
  IsSleptOver-step h (shared t (second_miss c e) n m) = ground arith
  IsSleptOver-step h (shared t (lower b c r) n m) = ground arith
  IsSleptOver-step h (shared t (pass c f) n m) = ground arith
  IsSleptOver-step h (shared t (block c f) n m) = ground arith
  IsSleptOver-step h (shared t (request f) n m) = inr (inr refl)
  IsSleptOver-step h (shared t (callback_store p) n m) = ground arith
  IsSleptOver-step h (shared t (callback_notify p) n m) = ground arith

  -- The producer looks at the flag before the consumer raises it, and its item becomes visible after the
  -- second try.
  WeakReach-slept_over : 0 < cap → (a : A) → WeakReach cap (slept_over a)
  unfolding slept_over
  WeakReach-slept_over room a =
      next
        (next
          (next
            (next
              (next
                (next
                  (next
                    (next (next here (push_late a refl room))
                      (shared _ (flag_false refl refl) refl (λ e. cc)))
                    (shared _ (enter refl refl) refl (λ e. cc)))
                  (shared _ (go_on refl refl) refl (λ e. cc)))
                (shared _ (first_miss refl refl) refl (λ e. cc)))
              (shared _ (raise refl) refl (λ e. cc)))
            (shared _ (second_miss refl refl) refl (λ e. cc)))
          (shared _ (block refl refl) refl (λ e. cc)))
        (become_visible a [] refl)

  -- With a late store a wakeup is lost that no stop has to do with: for every positive capacity, the
  -- system can reach a state in which the producer has ended its `push`, the item is there for all to
  -- see, and the consumer is blocked; from there nothing moves but another `push` or a stop request.
  pub wakeup_lost :
      0 < cap
      → (a : A)
      → (w : Buffered A) × WeakReach cap w
        × IsSleptOver a w
        × ((v : Buffered A)
            → WeakStep cap w v
            → (v ≡ w) ⊎ (v.system.producer ≡ pushed) ⊎ (v.system.stop ≡ true))
  unfolding slept_over
  wakeup_lost room a =
      let over : IsSleptOver a (slept_over a) = record {
        at_rest = refl;
        waiting_item = refl;
        visible = refl;
        unstopped = refl;
        blocked = refl;
      } in
      (slept_over a, WeakReach-slept_over room a, over, λ v st. IsSleptOver-step over st)
