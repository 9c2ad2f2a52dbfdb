-- ===== src/Waitable/StoredFifo.antt =====
-- WaitableSpscQueue over a storage against WaitableSpscQueue over a list.
use market_data_disseminatio.Base.Tests.{
  ℕ, ◌≤◌, ◌≡◌, ◌≢◌, ◌⊎◌, refl, sym, subst, ◌∙◌, false, List, [], ◌∷◌, ◌++◌, arith,
}
use market_data_disseminatio.Base.Lists.{length}
use market_data_disseminatio.Queue.{nothing, item, undefined}
use market_data_disseminatio.Queue.Fifo.{fifo_push-true, fifo_push-false}
use market_data_disseminatio.Queue.Storage.{Storage, IsStorage}
use market_data_disseminatio.Waitable.{
  asleep, pushed, seen, cleared, running, System, Step, push_room, push_full, flag_true, flag_false,
  clear, notify, enter, enter_stopped, give_up, go_on, first_item, first_miss, raise, second_item,
  second_miss, lower, pass, block, request, callback_store, callback_notify, Reach, here, next,
}
use market_data_disseminatio.Waitable.Kept.{in_hand}
use market_data_disseminatio.Waitable.Sleep.{account, no_lost_wakeup}
use market_data_disseminatio.Waitable.Stored.{
  calls_queue, Stored, StoredStep, push_stored, push_rejected, first_popped, first_nothing,
  first_undefined, second_popped, second_nothing, second_undefined, apart, StoredReach, here, next,
  waitable_empty,
}

-- The system with the items of a list.
abbrev pub with_items : {A : Type 0} → List A → System A → System A
with_items xs s = record s { items = xs }

-- An access that does not call the queue is the same whatever the items.
apart-with_items :
    {A : Type 0} {cap : ℕ} {s t : System A} (xs : List A) (step : Step cap s t)
    → calls_queue step ≡ false
    → Step cap (with_items xs s) (with_items xs t)
apart-with_items xs (push_room a p r) n = cc
apart-with_items xs (push_full a p f) n = cc
apart-with_items xs (flag_true p f) n = flag_true p f
apart-with_items xs (flag_false p f) n = flag_false p f
apart-with_items xs (clear p) n = clear p
apart-with_items xs (notify p) n = notify p
apart-with_items xs (enter c f) n = enter c f
apart-with_items xs (enter_stopped c f) n = enter_stopped c f
apart-with_items xs (give_up c f r) n = give_up c f r
apart-with_items xs (go_on c f) n = go_on c f
apart-with_items xs (first_item a rest c e r) n = cc
apart-with_items xs (first_miss c e) n = cc
apart-with_items xs (raise c) n = raise c
apart-with_items xs (second_item a rest c e) n = cc
apart-with_items xs (second_miss c e) n = cc
apart-with_items xs (lower a c r) n = lower a c r
apart-with_items xs (pass c f) n = pass c f
apart-with_items xs (block c f) n = block c f
apart-with_items xs (request f) n = request f
apart-with_items xs (callback_store p) n = callback_store p
apart-with_items xs (callback_notify p) n = callback_notify p

module _ {A : Type 0} {cap : ℕ} {storage : Storage A} (v : IsStorage cap storage) where
  -- The storage holds `xs`, and the system over the list `xs` can reach the same state.
  pub record Shows (s : Stored storage) (xs : List A) : Type 0 where
    pub contains : v.Contains s.queue xs
    pub reached : Reach cap (with_items xs s.system)
    pub sound : s.faulty ≡ false

  popped_item :
      (xs : List A) {q : storage.State} {a : A}
      → v.Contains q xs
      → (storage.storage_pop q).0 ≡ item a
      → (rest : List A) × (xs ≡ a ∷ rest) × v.Contains (storage.storage_pop q).1 rest
  popped_item [] h e = let (gives, _) = v.pop_as [] h in cc
  popped_item (x ∷ xs) h e = let (gives, keeps) = v.pop_as (x ∷ xs) h in (xs, cc, keeps)

  popped_nothing :
      (xs : List A) {q : storage.State}
      → v.Contains q xs
      → (storage.storage_pop q).0 ≡ nothing
      → (xs ≡ []) × v.Contains (storage.storage_pop q).1 []
  popped_nothing [] h e = (refl, (v.pop_as [] h).1)
  popped_nothing (x ∷ xs) h e = let (gives, _) = v.pop_as (x ∷ xs) h in cc

  popped_undefined :
      (xs : List A) {q : storage.State} → v.Contains q xs → (storage.storage_pop q).0 ≢ undefined
  popped_undefined [] h e = let (gives, _) = v.pop_as [] h in cc
  popped_undefined (x ∷ xs) h e = let (gives, _) = v.pop_as (x ∷ xs) h in cc

  StoredStep-Shows :
      {s t : Stored storage} {xs : List A}
      → StoredStep storage cap s t
      → Shows s xs
      → (ys : List A) × Shows t ys
  StoredStep-Shows {s} {xs = xs} (push_stored a p e) h =
      let (gives, keeps) = v.push_as a h.contains in
      let (grows, room) = fifo_push-true cap xs a (sym gives ∙ e) in
      (
        xs ++ a ∷ [],
        record {
          contains = subst (v.Contains _) grows keeps;
          reached = next h.reached (push_room a p (omega (arith, (account h.reached).1)));
          sound = h.sound;
        },
      )
  StoredStep-Shows {s} {xs = xs} (push_rejected a p e) h =
      let (gives, keeps) = v.push_as a h.contains in
      let (same, full) = fifo_push-false cap xs a (sym gives ∙ e) in
      (
        xs,
        record { contains = subst (v.Contains _) same keeps; reached = h.reached; sound = h.sound },
      )
  StoredStep-Shows {xs = xs} (first_popped a c e r) h =
      let (rest, shape, keeps) = popped_item xs h.contains e in
      (
        rest,
        record {
          contains = keeps;
          reached = next h.reached (first_item a rest c shape r);
          sound = h.sound;
        },
      )
  StoredStep-Shows {s} {xs = xs} (first_nothing c e) h =
      let (shape, keeps) = popped_nothing xs h.contains e in
      (
        [],
        record {
          contains = keeps;
          reached =
              next (subst (λ l. Reach cap (with_items l s.system)) shape h.reached)
                (first_miss c refl);
          sound = h.sound;
        },
      )
  StoredStep-Shows {xs = xs} (first_undefined c e) h = absurd (popped_undefined xs h.contains e)
  StoredStep-Shows {xs = xs} (second_popped a c e) h =
      let (rest, shape, keeps) = popped_item xs h.contains e in
      (
        rest,
        record {
          contains = keeps;
          reached = next h.reached (second_item a rest c shape);
          sound = h.sound;
        },
      )
  StoredStep-Shows {s} {xs = xs} (second_nothing c e) h =
      let (shape, keeps) = popped_nothing xs h.contains e in
      (
        [],
        record {
          contains = keeps;
          reached =
              next (subst (λ l. Reach cap (with_items l s.system)) shape h.reached)
                (second_miss c refl);
          sound = h.sound;
        },
      )
  StoredStep-Shows {xs = xs} (second_undefined c e) h = absurd (popped_undefined xs h.contains e)
  StoredStep-Shows {xs = xs} (apart t step n) h = (
    xs,
    record {
      contains = h.contains;
      reached = next h.reached (apart-with_items xs step n);
      sound = h.sound;
    },
  )

  StoredReach-Shows :
      {empty : storage.State} {s : Stored storage}
      → v.Contains empty []
      → StoredReach storage cap empty s
      → (xs : List A) × Shows s xs
  StoredReach-Shows h here = ([], record { contains = h; reached = here; sound = refl })
  StoredReach-Shows h (next r st) =
      let (xs, shows) = StoredReach-Shows h r in StoredStep-Shows st shows

  -- Over a storage that answers as a bounded list, begun empty, every interleaving of WaitableSpscQueue is
  -- one of WaitableSpscQueue over the list that the storage holds, and none has an undefined read; what
  -- the successful pushes passed is what the successful pops returned, then at most one item that the
  -- consumer is about to return, then the storage's list, of at most its capacity.
  pub stored_refines :
      {s : Stored storage} {empty : storage.State}
      → v.Contains empty []
      → StoredReach storage cap empty s
      → (xs : List A) × v.Contains s.queue xs
        × Reach cap (with_items xs s.system)
        × (s.faulty ≡ false)
        × (s.system.sent ≡ s.system.received ++ (in_hand s.system.consumer ++ xs))
        × (length xs ≤ cap)
  stored_refines h r =
      let (xs, shows) = StoredReach-Shows h r in
      let (order, fits) = account shows.reached in
      (xs, shows.contains, shows.reached, shows.sound, order, fits)

  -- Over a storage that answers as a bounded list, begun empty, no wakeup for data is lost, whatever the
  -- interleaving: where the consumer is blocked and `empty` of the queue is false, the producer has yet to
  -- look at the flag or to notify, or the stop callback has yet to notify.
  pub stored_wakeup :
      {s : Stored storage} {empty : storage.State}
      → v.Contains empty []
      → StoredReach storage cap empty s
      → s.system.consumer ≡ asleep
      → waitable_empty storage s ≡ false
      → (s.system.producer ≡ pushed)
        ⊎ (s.system.producer ≡ seen)
        ⊎ (s.system.producer ≡ cleared)
        ⊎ (s.system.stopper ≡ running)
  unfolding waitable_empty
  stored_wakeup h r sleeps more =
      let (xs, shows) = StoredReach-Shows h r in
      no_lost_wakeup shows.reached sleeps (λ e. cc (more, v.empty_as xs shows.contains))
