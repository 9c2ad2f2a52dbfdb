-- ===== src/Base/Handles.antt =====
-- A table of open handles, such as descriptors or sockets, and calls on one of them after the other: what
-- has become of it, and that no other one changes.
use market_data_disseminatio.Base.Tests.{
  ℕ, ◌≡◌, subst, refl, sym, ap, ◌∙◌, Bool, true, false, Option, none, some, ◌==◌, if◌then◌else◌,
  Bool-cases, inl, inr, ==-refl, ==-false, ==_iff, ◌≢◌,
}

module _ {S D : Type 0} (look : S → ℕ → Option D) where
  -- The handles after a call are those before, but for `fd`, which has become `d`.
  abbrev pub Turns : S → ℕ → D → S → Type 0
  Turns s fd d s' = (k : ℕ) → look s' k ≡ (if k == fd then some d else look s k)

  -- Nothing is open that was not before, and nothing is closed.
  abbrev pub Same : S → S → Type 0
  Same s0 s = (k : ℕ) → look s k ≡ look s0 k

  -- Since the state `s0`, the handle `fd` was opened, and is `d` now.
  pub record Held (s0 : S) (fd : ℕ) (d : D) (s : S) : Type 0 where
    pub was_free : look s0 fd ≡ none
    pub only : Turns s0 fd d s

  pub Held-Same : (s0 s s' : S) (h : ℕ) (d : D) → Held s0 h d s → Same s s' → Held s0 h d s'
  Held-Same s0 s s' h d held same = record {
    was_free = held.was_free;
    only = λ k. same k ∙ held.only k;
  }

  module _ (s0 s : S) (fd : ℕ) (d : D) where
    pub at_self : Held s0 fd d s → look s fd ≡ some d
    at_self h = h.only fd ∙ ap (λ b. if b then some d else look s0 fd) (==-refl fd)

    pub then_Held : (s' : S) (d' : D) → Held s0 fd d s → Turns s fd d' s' → Held s0 fd d' s'
    then_Held s' d' h step = record {
      was_free = h.was_free;
      only = λ k. step k ∙ ap (λ o. if k == fd then some d' else o) (h.only k) ∙ inner (k == fd) k;
    }
      where
        inner :
            (b : Bool) (k : ℕ)
            → (if b then some d' else (if b then some d else look s0 k))
              ≡ (if b then some d' else look s0 k)
        inner true k = refl
        inner false k = refl

    -- A call that succeeds has set its part.
    pub done : (d' : D) (b : Bool) → b ≡ true → Held s0 fd (if b then d' else d) s → Held s0 fd d' s
    done d' b e h = subst (λ b. Held s0 fd (if b then d' else d) s) e h

    -- Closing the handle leaves all as it was.
    pub closed_Same :
        (s' : S)
        → Held s0 fd d s
        → ((k : ℕ) → look s' k ≡ (if k == fd then none else look s k))
        → Same s0 s'
    closed_Same s' h close k =
        close k ∙ ap (λ o. if k == fd then none else o) (h.only k) ∙ elim (Bool-cases (k == fd)) [
          | inl e ↦
              let same : k ≡ fd = (==_iff k fd).0 e in
              ap (λ b. if b then none else (if b then some d else look s0 k)) e
              ∙ sym h.was_free
              ∙ ap (look s0) (sym same)
          | inr e ↦ ap (λ b. if b then none else (if b then some d else look s0 k)) e
        ]

  -- Two handles opened one after the other, of which the first is closed.
  pub closed_first :
      (s0 s1 s2 s3 : S) (a b : ℕ) (da db : D)
      → Held s0 a da s1
      → Held s1 b db s2
      → ((k : ℕ) → look s3 k ≡ (if k == a then none else look s2 k))
      → Held s0 b db s3
  closed_first s0 s1 s2 s3 a b da db first second close =
      let open_a : look s1 a ≡ some da = at_self s0 s1 a da first in
      let apart : a ≢ b = λ e. cc (open_a, second.was_free, ap (look s1) e) in
      record {
        was_free =
            sym (ap (λ c. if c then some da else look s0 b) (==-false b a (λ e. apart (sym e))))
            ∙ sym (first.only b)
            ∙ second.was_free;
        only = λ k. close k ∙ elim (Bool-cases (k == a)) [
          | inl e ↦
              let same : k ≡ a = (==_iff k a).0 e in
              ap (λ c. if c then none else look s2 k) e
              ∙ sym (ap (look s0) same ∙ first.was_free)
              ∙ sym (
                  ap (λ c. if c then some db else look s0 k)
                    (==-false k b (λ e. apart (sym same ∙ e))))
          | inr e ↦
              ap (λ c. if c then none else look s2 k) e
              ∙ second.only k
              ∙ ap (λ o. if k == b then some db else o)
                  (first.only k ∙ ap (λ c. if c then some da else look s0 k) e)
        ];
      }
