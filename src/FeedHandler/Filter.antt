-- ===== src/FeedHandler/Filter.antt =====
-- The set of subscriptions, as the commands of the client make it.
use market_data_disseminatio.Base.Tests.{
  ℕ, ◌≡◌, refl, sym, ap, ◌∙◌, true, false, List, [], ◌∷◌, arith, ◌==◌, if◌then◌else◌, Bool-cases,
  inl, inr, ==_iff,
}
use market_data_disseminatio.FeedHandler.{SubCommand, contains, insert, erase, apply_command}

pub contains-insert :
    (a b : ℕ) (xs : List ℕ) → contains (insert a xs) b ≡ (if a == b then true else contains xs b)
unfolding contains insert
contains-insert a b xs = elim (Bool-cases (contains xs a)) [
  | inl e ↦ rw e (elim (Bool-cases (a == b)) [
    | inl ab ↦ rw ab (let same : a ≡ b = (==_iff a b).0 ab in ap (contains xs) (sym same) ∙ e)
    | inr ne ↦ rw ne refl
  ])
  | inr e ↦ rw e (elim (Bool-cases (a == b)) [ inl ab ↦ rw ab refl | inr ne ↦ rw ne refl ])
]

pub contains-erase :
    (a b : ℕ) (xs : List ℕ) → contains (erase a xs) b ≡ (if a == b then false else contains xs b)
unfolding contains erase
contains-erase a b [] = ground arith
contains-erase a b (x ∷ xs) = ground (arith, contains-erase a b xs)

-- A command decides the membership of its own symbol, and of no other.
pub contains-apply_command :
    (cmd : SubCommand) (b : ℕ) (xs : List ℕ)
    → contains (apply_command cmd xs) b
      ≡ (if cmd.symbol_id == b then cmd.is_subscribe else contains xs b)
unfolding apply_command
contains-apply_command cmd b xs =
    ground (arith, contains-insert cmd.symbol_id b xs, contains-erase cmd.symbol_id b xs)
