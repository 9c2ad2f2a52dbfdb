-- ===== src/Generator/Pace.antt =====
-- generation_loop of src/generator/BaseGenerator.h: it makes a message whenever the clock has reached
-- `next_time`, pushes it until the queue takes it, and moves `next_time` on by the interval.
-- What the rounds meet (the stop token, the clock, the answers of `push`) is an argument. Times are
-- nanoseconds of the steady clock, which does not come near its bound.
use market_data_disseminatio.Base.Tests.{
  ℕ, suc, ◌+◌, Bool, true, false, Option, some, List, [], ◌∷◌, ◌++◌, leb, if◌then◌else◌, ◌>>=◌,
}
use market_data_disseminatio.Types.{MarketDataMsg, quote, trade}
use market_data_disseminatio.Generator.{Random, RandomWalkGenerator, generate_msg_impl}

-- A look at the condition of the inner loop: the stop token is set, or `push` returns false, or true.
pub data Attempt : Type 0 where
  stop_seen refused accepted : Attempt

-- How the inner loop ends: with the message in the queue, or dropped at a stop; `pushing` where it is
-- still running.
pub data Pushed : Type 0 where
  taken dropped pushing : Pushed

abbrev pub push_until : List Attempt → Pushed
push_until [] = pushing
push_until (stop_seen ∷ attempts) = dropped
push_until (refused ∷ attempts) = push_until attempts
push_until (accepted ∷ attempts) = taken

-- `made_at` is the clock in the making of the message, `enqueued_at` when it is stamped again.
pub record Tick : Type 0 where
  pub stop_requested : Bool
  pub now : ℕ
  pub made_at : ℕ
  pub enqueued_at : ℕ
  pub attempts : List Attempt

-- `arg.enqueue_timestamp = now`.
abbrev pub stamp_enqueued : ℕ → MarketDataMsg → MarketDataMsg
stamp_enqueued now (quote q) = quote (record q { enqueue_timestamp = now })
stamp_enqueued now (trade t) = trade (record t { enqueue_timestamp = now })

module _ (random : Random) where
  -- The loop's state; the program does not count the messages made, nor keep those pushed.
  pub record Pace : Type 0 where
    pub generator : RandomWalkGenerator random
    pub next_time : ℕ
    pub made : ℕ
    pub pushed : List MarketDataMsg

  -- Behind the inner loop, with `made` and the generator already moved on, and whether the outer loop
  -- goes on.
  unfoldable pub after_push : Pushed → MarketDataMsg → Pace → Bool × Pace
  after_push taken msg p = (
    true,
    record p { next_time = p.next_time + p.generator.interval; pushed = p.pushed ++ msg ∷ [] },
  )
  after_push dropped msg p = (true, record p { next_time = p.next_time + p.generator.interval })
  after_push pushing msg p = (false, p)

  -- The body of the outer loop.
  unfoldable pub tick : Tick → Pace → Option (Bool × Pace)
  tick t p =
      if leb p.next_time t.now
      then (do
        (msg, g) ← generate_msg_impl random t.made_at p.generator
        some (
            after_push (push_until t.attempts) (stamp_enqueued t.enqueued_at msg)
              (record p { generator = g; made = suc p.made })))
      else some (true, p)

  -- The loop over its rounds: it ends at a stop, or is still running where the list ends.
  unfoldable pub generation_loop : List Tick → Pace → Option Pace
  generation_loop [] p = some p
  generation_loop (t ∷ ticks) p = if t.stop_requested then some p else (do
    (goes_on, p') ← tick t p
    let rest = generation_loop ticks p'
    if goes_on then rest else some p')
