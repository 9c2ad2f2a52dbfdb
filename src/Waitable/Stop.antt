-- ===== src/Waitable/Stop.antt =====
-- A stop request against the sleep of WaitableSpscQueue::pop.
use market_data_disseminatio.Base.Tests.{ℕ, ◌<◌, ◌≡◌, refl, ap, true, [], arith}
use market_data_disseminatio.Base.Lists.{length}
use market_data_disseminatio.Waitable.{
  idle, pushed, asleep, finished, System, Step, push_room, push_full, flag_true, flag_false, clear,
  notify, enter, enter_stopped, give_up, go_on, first_item, first_miss, raise, second_item,
  second_miss, lower, pass, block, request, callback_store, callback_notify, Reach, here, next,
}

-- The stop is requested and its callback is over, the producer is outside `push`, and the consumer is
-- blocked in `wait` on an empty queue.
pub record IsStranded {ℓ} {A : Type ℓ} (s : System A) : Type ℓ where
  pub stopped : s.stop ≡ true
  pub called_back : s.stopper ≡ finished
  pub at_rest : s.producer ≡ idle
  pub blocked : s.consumer ≡ asleep
  pub nothing_left : s.items ≡ []

module _ {ℓ} {A : Type ℓ} {cap : ℕ} (room : 0 < cap) where
  -- From there nothing but another `push` can happen: no step of the consumer or of the stop request
  -- is left, so a thread that joins the consumer after the last `push` waits for ever.
  pub IsStranded-step : {s t : System A} → IsStranded s → Step cap s t → t.producer ≡ pushed
  IsStranded-step v (push_room a p r) = refl
  IsStranded-step v (push_full a p full) = absurd (omega (arith, ap length v.nothing_left))
  IsStranded-step v (flag_true p f) = ground arith
  IsStranded-step v (flag_false p f) = ground arith
  IsStranded-step v (clear p) = ground arith
  IsStranded-step v (notify p) = ground arith
  IsStranded-step v (enter c f) = ground arith
  IsStranded-step v (enter_stopped c f) = ground arith
  IsStranded-step v (give_up c f r) = ground arith
  IsStranded-step v (go_on c f) = ground arith
  IsStranded-step v (first_item a rest c e r) = ground arith
  IsStranded-step v (first_miss c e) = ground arith
  IsStranded-step v (raise c) = ground arith
  IsStranded-step v (second_item a rest c e) = ground arith
  IsStranded-step v (second_miss c e) = ground arith
  IsStranded-step v (lower a c r) = ground arith
  IsStranded-step v (pass c f) = ground arith
  IsStranded-step v (block c f) = ground arith
  IsStranded-step v (request f) = ground arith
  IsStranded-step v (callback_store p) = ground arith
  IsStranded-step v (callback_notify p) = ground arith

  stranded : System A
  stranded = record {
    items = [];
    sleeping = true;
    stop = true;
    producer = idle;
    consumer = asleep;
    stopper = finished;
    sent = [];
    received = [];
  }

  -- The request and its callback run between the consumer's look at the stop token and its store.
  Reach-stranded : Reach cap stranded
  unfolding stranded
  Reach-stranded =
      next
        (next
          (next
            (next
              (next
                (next (next (next (next here (enter refl refl)) (go_on refl refl)) (request refl))
                  (callback_store refl))
                (callback_notify refl))
              (first_miss refl refl))
            (raise refl))
          (second_miss refl refl))
        (block refl refl)

  -- A stop request can be lost: where it comes between the consumer's look at the stop token and its
  -- store of `is_sleeping_`, the system can reach a state with the stop requested, its callback over,
  -- the consumer blocked on an empty queue, and no step left but another `push`. So a thread that
  -- joins the consumer when the producer has ended waits for ever.
  pub stop_lost :
      (s : System A) × Reach cap s
      × IsStranded s
      × ((t : System A) → Step cap s t → t.producer ≡ pushed)
  unfolding stranded
  stop_lost =
      let v : IsStranded stranded = record {
        stopped = refl;
        called_back = refl;
        at_rest = refl;
        blocked = refl;
        nothing_left = refl;
      } in
      (stranded, Reach-stranded, v, λ t st. IsStranded-step v st)
