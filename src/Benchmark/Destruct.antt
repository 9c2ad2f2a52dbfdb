-- ===== src/Benchmark/Destruct.antt =====
-- What the destructors behind run_benchmark_pipeline do where no thread runs any more.
use market_data_disseminatio.Base.Tests.{◌≡◌, ap, ◌∙◌, if◌then◌else◌, false}
use market_data_disseminatio.Generator.{Random}
use market_data_disseminatio.Benchmark.{Subscriber}
use market_data_disseminatio.Benchmark.Threads.{
  Status, going, throwing, blocked, Host, Process, receive, feedhandler, disseminator,
  stop_disseminator, stop_feedhandler,
}
use market_data_disseminatio.Benchmark.Run.{
  Run, resume, beside, after, rethrow, destruct_at, destruct,
}

module _ {random : Random} {subscriber : Subscriber} where
  -- A destructor without a feed handler beside it.
  pub destruct_quiet :
      (f : Process random subscriber → Status × Process random subscriber)
      (run : Run random subscriber)
      → run.status ≡ going
      → run.now.feedhandler ≡ false
      → destruct f run ≡ after run (f run.now)
  unfolding destruct destruct_at beside
  destruct_quiet f run went off =
      ap (λ status. destruct_at f status run) went
      ∙ ap
          (λ b. after run (
            let received = if b then receive run.now.incoming run.now else (going, run.now) in
            resume f received.0 received.1))
          off

  -- The same, while an exception is thrown.
  pub destruct_thrown :
      (f : Process random subscriber → Status × Process random subscriber)
      (run : Run random subscriber) {next : Process random subscriber}
      → run.status ≡ throwing
      → run.now.feedhandler ≡ false
      → f run.now ≡ (going, next)
      → destruct f run ≡ after run (throwing, next)
  unfolding destruct destruct_at beside rethrow
  destruct_thrown f run threw off done =
      let thrown : Status × Process random subscriber → Run random subscriber =
        λ done. after run (rethrow done.0, done.1) in
      ap (λ status. destruct_at f status run) threw
      ∙ ap
          (λ b. thrown (
            let received = if b then receive run.now.incoming run.now else (going, run.now) in
            resume f received.0 received.1))
          off
      ∙ ap thrown done

  -- The stops, where nothing runs any more.
  pub stop_feedhandler-idle :
      (host : Host) (s : Process random subscriber)
      → s.feedhandler ≡ false
      → stop_feedhandler host s ≡ (going, s)
  unfolding stop_feedhandler
  stop_feedhandler-idle host s off =
      ap
        (λ b.
          if b
          then (if host.returns feedhandler
              then (going, record s { feedhandler = false })
              else (blocked, s))
          else (going, s))
        off

  pub stop_disseminator-idle :
      (host : Host) (s : Process random subscriber)
      → s.disseminator ≡ false
      → stop_disseminator host s ≡ (going, s)
  unfolding stop_disseminator
  stop_disseminator-idle host s off =
      ap
        (λ b.
          if b
          then (if host.returns disseminator
              then (going, record s { disseminator = false })
              else (blocked, s))
          else (going, s))
        off

  pub stop_feedhandler-off :
      (host : Host) (run : Run random subscriber)
      → run.status ≡ going
      → run.now.feedhandler ≡ false
      → destruct (stop_feedhandler host) run ≡ after run (going, run.now)
  stop_feedhandler-off host run went off =
      destruct_quiet (stop_feedhandler host) run went off
      ∙ ap (after run) (stop_feedhandler-idle host run.now off)

  pub stop_disseminator-off :
      (host : Host) (run : Run random subscriber)
      → run.status ≡ going
      → run.now.feedhandler ≡ false
      → run.now.disseminator ≡ false
      → destruct (stop_disseminator host) run ≡ after run (going, run.now)
  stop_disseminator-off host run went off idle =
      destruct_quiet (stop_disseminator host) run went off
      ∙ ap (after run) (stop_disseminator-idle host run.now idle)
