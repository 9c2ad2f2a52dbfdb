-- ===== src/Benchmark/Steps.antt =====
-- Statements one after the other, each from the phase that the one before it leaves.
use market_data_disseminatio.Base.Tests.{
  ℕ, ◌≡◌, inl, inr, refl, sym, ap, subst, false, Option, List,
}
use market_data_disseminatio.Base.Lists.{All}
use market_data_disseminatio.Types.{MarketDataMsg}
use market_data_disseminatio.Generator.{Random}
use market_data_disseminatio.Benchmark.{Subscriber, IsSubscriber}
use market_data_disseminatio.Benchmark.Threads.{Status, going, throwing, Host, Process}
use market_data_disseminatio.Benchmark.Run.{Run, beside, after, perform_at, perform}
use market_data_disseminatio.Benchmark.Phases.{
  Trouble, no_directory, not_configured, no_thread, not_subscribed, stuck, Phase, IsOrdered, At,
  Moves, beside-Moves,
}
use market_data_disseminatio.Benchmark.InOrder.{IsInOrder, At-IsInOrder}

module _ {random : Random} {subscriber : Subscriber} (ready : IsSubscriber subscriber) (host : Host)
    (rate : ℕ) (file : Option (List ℕ)) (all : List (MarketDataMsg × ℕ)) where
  -- The run goes on in the phase, or has failed in another one, in which there is a monitor unless its
  -- directory cannot be made.
  pub data Fine (p : Phase random) (run : Run random subscriber) : Type 0 where
    fine : run.status ≡ going → At ready all p run.now → All IsInOrder run.past → Fine p run
    failed :
        (r : Phase random)
        → IsOrdered r
        → Trouble ready host rate file run.status
        → (run.status ≡ throwing → r.generator.running ≡ false)
        → (r.alive ≡ false → host.directory ≡ false)
        → At ready all r run.now
        → All IsInOrder run.past
        → Fine p run

  stopped :
      {status : Status} (f : Process random subscriber → Status × Process random subscriber)
      (run : Run random subscriber)
      → Trouble ready host rate file status
      → perform_at f status run ≡ run
  unfolding perform_at
  stopped f run (no_directory e) = refl
  stopped f run (not_configured e) = refl
  stopped f run (no_thread part e) = refl
  stopped f run (not_subscribed symbol state now e) = refl
  stopped f run (stuck part e) = refl

  module _ {p q r : Phase random}
      (f : Process random subscriber → Status × Process random subscriber) where
    pub after-Fine :
        (run : Run random subscriber)
        → IsOrdered p
        → IsOrdered r
        → (r.alive ≡ false → host.directory ≡ false)
        → Moves ready host rate file all p q r f
        → At ready all p run.now
        → All IsInOrder run.past
        → Fine q (after run (beside f run.now))
    after-Fine run v w made m h past =
        elim ((beside-Moves ready host rate file all p q r f v m).moves run.now h) [
          | inl (went, h') ↦ fine went h' (At-IsInOrder v h, past)
          | inr (trouble, idle, h') ↦ failed r w trouble idle made h' (At-IsInOrder v h, past)
        ]

    pub perform-Fine :
        {run : Run random subscriber}
        → IsOrdered p
        → IsOrdered r
        → (r.alive ≡ false → host.directory ≡ false)
        → Moves ready host rate file all p q r f
        → Fine p run
        → Fine q (perform f run)
    unfolding perform perform_at
    perform-Fine {run} v w made m (fine went h past) =
        subst (Fine q) (ap (λ status. perform_at f status run) (sym went))
          (after-Fine run v w made m h past)
    perform-Fine {run} v w made m (failed r' v' trouble idle made' h past) =
        subst (Fine q) (sym (stopped f run trouble)) (failed r' v' trouble idle made' h past)
