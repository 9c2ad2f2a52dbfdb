-- ===== src/Waitable/Kept.antt =====
-- What each access of WaitableSpscQueue but a push keeps of the items.
use mathlib.Core.List.{append_assoc}
use market_data_disseminatio.Base.Tests.{
  ℕ, ◌≤◌, ◌≡◌, refl, sym, ap, ◌∙◌, Bool, true, false, List, [], ◌∷◌, ◌++◌, arith,
}
use market_data_disseminatio.Base.Lists.{length}
use market_data_disseminatio.Waitable.{
  Consumer, got, System, Step, push_room, push_full, flag_true, flag_false, clear, notify, enter,
  enter_stopped, give_up, go_on, first_item, first_miss, raise, second_item, second_miss, lower,
  pass, block, request, callback_store, callback_notify,
}

abbrev pub is_push {ℓ} : {A : Type ℓ} {cap : ℕ} {s t : System A} → Step cap s t → Bool
is_push (push_room a p r) = true
is_push (push_full a p f) = true
is_push _ = false

module _ {ℓ} {A : Type ℓ} where
  -- The item that the second try has taken.
  abbrev pub in_hand : Consumer A → List A
  in_hand (got a) = a ∷ []
  in_hand _ = []

  -- What an access keeps of the items and their counts.
  pub record Keeps (s t : System A) : Type ℓ where
    pub sent : t.sent ≡ s.sent
    pub items :
        t.received ++ (in_hand t.consumer ++ t.items)
        ≡ s.received ++ (in_hand s.consumer ++ s.items)
    pub shorter : length t.items ≤ length s.items

  held :
      (s : System A) {c : Consumer A} {items : List A}
      → s.consumer ≡ c
      → s.items ≡ items
      → s.received ++ (in_hand s.consumer ++ s.items) ≡ s.received ++ (in_hand c ++ items)
  held s {c = k} c i =
      ap (λ k. s.received ++ (in_hand k ++ s.items)) c ∙ ap (λ l. s.received ++ (in_hand k ++ l)) i

  pub Step-Keeps :
      {cap : ℕ} {s t : System A} (step : Step cap s t) → is_push step ≡ false → Keeps s t
  Step-Keeps (push_room a p r) m = cc
  Step-Keeps (push_full a p f) m = cc
  Step-Keeps (flag_true p f) m = ground arith
  Step-Keeps (flag_false p f) m = ground arith
  Step-Keeps (clear p) m = ground arith
  Step-Keeps (notify p) m = ground arith
  Step-Keeps (enter c f) m = ground arith
  Step-Keeps (enter_stopped c f) m = ground arith
  Step-Keeps (give_up c f r) m = ground arith
  Step-Keeps (go_on c f) m = ground arith
  Step-Keeps {s} (first_item b rest c e r) m = record {
    sent = refl;
    items = append_assoc s.received (b ∷ []) rest ∙ sym (held s c e);
    shorter = omega (arith, ap length e);
  }
  Step-Keeps (first_miss c e) m = ground arith
  Step-Keeps (raise c) m = ground arith
  Step-Keeps {s} (second_item b rest c e) m = record {
    sent = refl;
    items = sym (held s c e);
    shorter = omega (arith, ap length e);
  }
  Step-Keeps (second_miss c e) m = ground arith
  Step-Keeps {s} (lower b c r) m = record {
    sent = refl;
    items = append_assoc s.received (b ∷ []) s.items ∙ sym (held s c refl);
    shorter = omega arith;
  }
  Step-Keeps (pass c f) m = ground arith
  Step-Keeps (block c f) m = ground arith
  Step-Keeps (request f) m = ground arith
  Step-Keeps (callback_store p) m = ground arith
  Step-Keeps (callback_notify p) m = ground arith
