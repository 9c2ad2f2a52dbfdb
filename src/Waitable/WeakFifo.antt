-- ===== src/Waitable/WeakFifo.antt =====
-- Late stores of WaitableSpscQueue lose a wakeup, but no item.
use mathlib.Core.List.{append_assoc}
use market_data_disseminatio.Base.Tests.{ℕ, ◌+◌, ◌≤◌, ◌≡◌, refl, sym, ap, ◌∙◌, [], ◌∷◌, ◌++◌, arith}
use market_data_disseminatio.Base.Lists.{length, length-append}
use market_data_disseminatio.Waitable.Kept.{in_hand, Step-Keeps}
use market_data_disseminatio.Waitable.Weak.{
  Buffered, WeakStep, push_late, push_refused, become_visible, shared, WeakReach, here, next,
}

module _ {ℓ} {A : Type ℓ} (cap : ℕ) where
  record WeakAccount (w : Buffered A) : Type ℓ where
    order :
        w.system.sent
        ≡ w.system.received ++ (in_hand w.system.consumer ++ w.system.items) ++ w.buffer
    fits : length w.system.items + length w.buffer ≤ cap

  WeakStep-WeakAccount : {w v : Buffered A} → WeakStep cap w v → WeakAccount w → WeakAccount v
  WeakStep-WeakAccount {w} (push_late a p room) h = record {
    order =
        ap (λ l. l ++ a ∷ []) h.order
        ∙ append_assoc (w.system.received ++ (in_hand w.system.consumer ++ w.system.items)) w.buffer
            (a ∷ []);
    fits = omega (arith, length-append w.buffer (a ∷ []));
  }
  WeakStep-WeakAccount (push_refused a p full) h = h
  WeakStep-WeakAccount {w} (become_visible a rest e) h =
      let s = w.system in
      record {
        order =
            h.order
            ∙ ap (λ l. s.received ++ (in_hand s.consumer ++ s.items) ++ l) e
            ∙ sym (append_assoc (s.received ++ (in_hand s.consumer ++ s.items)) (a ∷ []) rest)
            ∙ ap (λ l. l ++ rest)
                (append_assoc s.received (in_hand s.consumer ++ s.items) (a ∷ [])
                  ∙ ap (λ l. s.received ++ l) (append_assoc (in_hand s.consumer) s.items (a ∷ [])));
        fits = omega (arith, ap length e, h.fits, length-append s.items (a ∷ []));
      }
  WeakStep-WeakAccount {w} (shared t step n m) h =
      let k = Step-Keeps step n in
      record {
        order = k.sent ∙ h.order ∙ ap (λ l. l ++ w.buffer) (sym k.items);
        fits = omega (arith, k.shorter, h.fits);
      }

  WeakReach-WeakAccount : {w : Buffered A} → WeakReach cap w → WeakAccount w
  WeakReach-WeakAccount here = record { order = refl; fits = omega arith }
  WeakReach-WeakAccount (next r st) = WeakStep-WeakAccount st (WeakReach-WeakAccount r)

  -- However late the producer's stores become visible, no item is lost, doubled or overtaken: what its
  -- successful calls passed is what the consumer's successful calls returned, then at most one item that
  -- the consumer is about to return, then the visible items, then those to come, and the last two
  -- together are never more than the capacity.
  pub weak_account :
      {w : Buffered A}
      → WeakReach cap w
      → (w.system.sent
          ≡ w.system.received ++ (in_hand w.system.consumer ++ w.system.items) ++ w.buffer)
        × (length w.system.items + length w.buffer ≤ cap)
  weak_account r = ((WeakReach-WeakAccount r).order, (WeakReach-WeakAccount r).fits)
