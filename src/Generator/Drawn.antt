-- ===== src/Generator/Drawn.antt =====
-- The messages that the generator makes one after the other, and those of them that the pacing loop pushes.
use market_data_disseminatio.Base.Tests.{ℕ, suc, ◌+◌, ◌≡◌, refl, some, List, [], ◌∷◌, ◌++◌, arith}
use market_data_disseminatio.Base.Lists.{length, length-append}
use market_data_disseminatio.Types.{MarketDataMsg}
use market_data_disseminatio.Generator.{Random, RandomWalkGenerator, generate_msg_impl}
use market_data_disseminatio.Generator.Pace.{
  Pushed, taken, dropped, pushing, push_until, Tick, stamp_enqueued, Pace, after_push,
}

-- The messages that a generator makes one after the other, with the clock's answers as they come: how many,
-- and those of them that are pushed, in order, each as it was made but stamped again; the generator behind
-- them.
pub data Drawn {random : Random} (g : RandomWalkGenerator random)
    : ℕ → List MarketDataMsg → RandomWalkGenerator random → Type 0 where
  none_drawn : Drawn g 0 [] g
  and_pushed :
      (made_at enqueued_at : ℕ) {n : ℕ} {pushed : List MarketDataMsg} {msg : MarketDataMsg}
      {g1 g2 : RandomWalkGenerator random}
      → Drawn g n pushed g1
      → generate_msg_impl random made_at g1 ≡ some (msg, g2)
      → Drawn g (suc n) (pushed ++ stamp_enqueued enqueued_at msg ∷ []) g2
  and_dropped :
      (made_at : ℕ) {n : ℕ} {pushed : List MarketDataMsg} {msg : MarketDataMsg}
      {g1 g2 : RandomWalkGenerator random}
      → Drawn g n pushed g1
      → generate_msg_impl random made_at g1 ≡ some (msg, g2)
      → Drawn g (suc n) pushed g2

-- The messages that a round loses, if it makes one: those that the queue has not taken at a stop, or not yet.
abbrev pub lost : Pushed → ℕ
lost taken = 0
lost dropped = 1
lost pushing = 1

-- The rounds whose inner loop does not end with the message in the queue.
abbrev pub not_taken : List Tick → ℕ
not_taken [] = 0
not_taken (t ∷ ticks) = lost (push_until t.attempts) + not_taken ticks

pub after_push-count :
    {random : Random} (answer : Pushed) (msg : MarketDataMsg) (p : Pace random)
    → length (after_push random answer msg p).1.pushed + lost answer ≡ suc (length p.pushed)
unfolding after_push
after_push-count taken msg p = omega (arith, length-append p.pushed (msg ∷ []))
after_push-count dropped msg p = omega arith
after_push-count pushing msg p = omega arith

pub after_push-made :
    {random : Random} (answer : Pushed) (msg : MarketDataMsg) (p : Pace random)
    → (after_push random answer msg p).1.made ≡ p.made
unfolding after_push
after_push-made taken msg p = refl
after_push-made dropped msg p = refl
after_push-made pushing msg p = refl
