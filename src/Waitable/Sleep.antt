-- ===== src/Waitable/Sleep.antt =====
-- No item is slept over, and none is lost: invariants of every interleaving of WaitableSpscQueue.
use mathlib.Core.List.{append_assoc}
use market_data_disseminatio.Base.Tests.{
  ℕ, ◌≤◌, ◌≡◌, ◌≢◌, ◌⊎◌, inl, inr, refl, sym, ap, ◌∙◌, true, false, [], ◌∷◌, ◌++◌, arith,
  Bool-cases,
}
use market_data_disseminatio.Base.Lists.{length, length-append}
use market_data_disseminatio.Waitable.Kept.{in_hand, is_push, Step-Keeps}
use market_data_disseminatio.Waitable.{
  Producer, pushed, seen, cleared, before_wait, asleep, quiet, running, System, Step, push_room,
  push_full, flag_true, flag_false, clear, notify, enter, enter_stopped, give_up, go_on, first_item,
  first_miss, raise, second_item, second_miss, lower, pass, block, request, callback_store,
  callback_notify, Reach, here, next,
}

-- The producer is on its way to look at the flag, or has seen it true.
abbrev IsOnItsWay : Producer → Type 0
IsOnItsWay p = (p ≡ pushed) ⊎ (p ≡ seen)

module _ {ℓ} {A : Type ℓ} where
  record Inv (s : System A) : Type ℓ where
    unstopped : s.stop ≡ false → s.stopper ≡ quiet
    waiting : s.consumer ≡ before_wait → s.sleeping ≡ true → (s.items ≡ []) ⊎ IsOnItsWay s.producer
    blocked : s.consumer ≡ asleep → s.sleeping ≡ true → (s.items ≡ []) ⊎ IsOnItsWay s.producer
    waking :
        s.consumer ≡ asleep → s.sleeping ≡ false → (s.producer ≡ cleared) ⊎ (s.stopper ≡ running)

  Step-Inv : {cap : ℕ} {s t : System A} → Step cap s t → Inv s → Inv t
  Step-Inv (push_room a p room) v = ground arith
  Step-Inv (push_full a p full) v = v
  Step-Inv (flag_true p f) v = ground arith
  Step-Inv (flag_false p f) v = ground arith
  Step-Inv (clear p) v = ground arith
  Step-Inv (notify p) v = ground arith
  Step-Inv (enter c f) v = ground arith
  Step-Inv (enter_stopped c f) v = ground arith
  Step-Inv (give_up c f r) v = ground arith
  Step-Inv (go_on c f) v = ground arith
  Step-Inv (first_item a rest c e r) v = ground arith
  Step-Inv (first_miss c e) v = ground arith
  Step-Inv (raise c) v = ground arith
  Step-Inv (second_item a rest c e) v = ground arith
  Step-Inv (second_miss c e) v = ground arith
  Step-Inv (lower a c r) v = ground arith
  Step-Inv (pass c f) v = ground arith
  Step-Inv (block c f) v = ground arith
  Step-Inv (request f) v = ground arith
  Step-Inv (callback_store p) v = ground arith
  Step-Inv (callback_notify p) v = ground arith

  Reach-Inv : {cap : ℕ} {s : System A} → Reach cap s → Inv s
  Reach-Inv here = ground arith
  Reach-Inv (next r st) = Step-Inv st (Reach-Inv r)

  -- No wakeup for data is lost, whatever the interleaving: where the consumer is blocked and the queue
  -- is not empty, the producer has yet to look at the flag or to notify, or the stop callback has yet
  -- to notify.
  pub no_lost_wakeup :
      {cap : ℕ} {s : System A}
      → Reach cap s
      → s.consumer ≡ asleep
      → s.items ≢ []
      → (s.producer ≡ pushed) ⊎ (s.producer ≡ seen) ⊎ (s.producer ≡ cleared) ⊎ (s.stopper ≡ running)
  no_lost_wakeup {s = s} r sleeps more = elim (Bool-cases s.sleeping) [
    | inl e ↦ ground (arith, (Reach-Inv r).blocked sleeps e)
    | inr e ↦ ground (arith, (Reach-Inv r).waking sleeps e)
  ]

  record Account (cap : ℕ) (s : System A) : Type ℓ where
    order : s.sent ≡ s.received ++ (in_hand s.consumer ++ s.items)
    fits : length s.items ≤ cap

  kept-Account :
      {cap : ℕ} {s t : System A} (step : Step cap s t)
      → is_push step ≡ false
      → Account cap s
      → Account cap t
  kept-Account step n v =
      let k = Step-Keeps step n in
      record { order = k.sent ∙ v.order ∙ sym k.items; fits = omega (arith, k.shorter, v.fits) }

  Step-Account : {cap : ℕ} {s t : System A} → Step cap s t → Account cap s → Account cap t
  Step-Account {s = s} (push_room a p room) v = record {
    order =
        ap (λ l. l ++ a ∷ []) v.order
        ∙ append_assoc s.received (in_hand s.consumer ++ s.items) (a ∷ [])
        ∙ ap (λ l. s.received ++ l) (append_assoc (in_hand s.consumer) s.items (a ∷ []));
    fits = omega (arith, length-append s.items (a ∷ []));
  }
  Step-Account (push_full a p full) v = v
  Step-Account step v = kept-Account step refl v

  Reach-Account : {cap : ℕ} {s : System A} → Reach cap s → Account cap s
  Reach-Account here = record { order = refl; fits = omega arith }
  Reach-Account (next r st) = Step-Account st (Reach-Account r)

  -- No item is lost, doubled or overtaken, whatever the interleaving: what the producer's successful
  -- calls passed is what the consumer's successful calls returned, then at most one item that the
  -- consumer is about to return, then the queue, which never holds more than its capacity.
  pub account :
      {cap : ℕ} {s : System A}
      → Reach cap s
      → (s.sent ≡ s.received ++ (in_hand s.consumer ++ s.items)) × (length s.items ≤ cap)
  account r = ((Reach-Account r).order, (Reach-Account r).fits)
