-- ===== src/Benchmark/Run.antt =====
-- run_benchmark_pipeline of src/main.cpp, statement by statement, with the destructors at its end, which run
-- also where an exception leaves it.
use market_data_disseminatio.Base.Tests.{ℕ, Option, List, [], ◌∷◌, if◌then◌else◌}
use market_data_disseminatio.Generator.{Random}
use market_data_disseminatio.Benchmark.{Subscriber}
use market_data_disseminatio.Benchmark.Threads.{
  Host, Process, Status, blocked, configure_generator, dangling, destroy_monitor, going,
  make_monitor, receive, sleep, start_disseminator, start_feedhandler, start_generator,
  stop_disseminator, stop_feedhandler, stop_generator, subscribe_all, terminating, throwing,
}

module _ (random : Random) (subscriber : Subscriber) where
  -- A run: the process now, and what it was before, the latest first.
  pub record Run : Type 0 where
    pub status : Status
    pub now : Process random subscriber
    pub past : List (Process random subscriber)

-- An exception that was thrown goes on behind a destructor that returns.
unfoldable pub rethrow : Status → Status
rethrow going = throwing
rethrow throwing = throwing
rethrow blocked = blocked
rethrow dangling = dangling
rethrow terminating = terminating

module _ {random : Random} {subscriber : Subscriber} where
  -- A statement with what comes in beside it.
  abbrev pub resume :
      (Process random subscriber → Status × Process random subscriber)
      → Status
      → Process random subscriber
      → Status × Process random subscriber
  resume f going s = f s
  resume f throwing s = (throwing, s)
  resume f blocked s = (blocked, s)
  resume f dangling s = (dangling, s)
  resume f terminating s = (terminating, s)

  unfoldable pub beside :
      (Process random subscriber → Status × Process random subscriber)
      → Process random subscriber
      → Status × Process random subscriber
  beside f s =
      let received = if s.feedhandler then receive s.incoming s else (going, s) in
      resume f received.0 received.1

  -- The run behind a call that ended with `done`.
  abbrev pub after :
      Run random subscriber → Status × Process random subscriber → Run random subscriber
  after r done = record { status = done.0; now = done.1; past = r.now ∷ r.past }

  unfoldable pub perform_at :
      (Process random subscriber → Status × Process random subscriber)
      → Status
      → Run random subscriber
      → Run random subscriber
  perform_at f going r = after r (beside f r.now)
  perform_at f throwing r = r
  perform_at f blocked r = r
  perform_at f dangling r = r
  perform_at f terminating r = r

  unfoldable pub perform :
      (Process random subscriber → Status × Process random subscriber)
      → Run random subscriber
      → Run random subscriber
  unfolding perform_at
  perform f r = perform_at f r.status r

  -- A destructor runs at the end, and also while an exception is thrown.
  unfoldable pub destruct_at :
      (Process random subscriber → Status × Process random subscriber)
      → Status
      → Run random subscriber
      → Run random subscriber
  unfolding rethrow
  destruct_at f going r = after r (beside f r.now)
  destruct_at f throwing r = let done = beside f r.now in after r (rethrow done.0, done.1)
  destruct_at f blocked r = r
  destruct_at f dangling r = r
  destruct_at f terminating r = r

  unfoldable pub destruct :
      (Process random subscriber → Status × Process random subscriber)
      → Run random subscriber
      → Run random subscriber
  unfolding destruct_at
  destruct f r = destruct_at f r.status r

  unfoldable pub run_statements :
      List (Process random subscriber → Status × Process random subscriber)
      → Run random subscriber
      → Run random subscriber
  run_statements [] r = r
  run_statements (f ∷ statements) r = run_statements statements (perform f r)

  unfoldable pub statements :
      Host
      → ℕ
      → Option (List ℕ)
      → List (Process random subscriber → Status × Process random subscriber)
  statements host rate file =
      make_monitor host
      ∷ configure_generator rate file
      ∷ start_feedhandler host
      ∷ subscribe_all file
      ∷ start_disseminator host
      ∷ sleep
      ∷ start_generator host
      ∷ sleep
      ∷ stop_generator host
      ∷ sleep
      ∷ stop_disseminator host
      ∷ stop_feedhandler host
      ∷ []

  unfoldable pub run_benchmark_pipeline :
      Host → ℕ → Option (List ℕ) → Process random subscriber → Run random subscriber
  run_benchmark_pipeline host rate file s =
      let start : Run random subscriber = record { status = going; now = s; past = [] } in
      destruct destroy_monitor
        (destruct (stop_generator host) (run_statements (statements host rate file) start))
