-- ===== src/Benchmark/Pipeline.antt =====
-- What run_benchmark_pipeline promises, whatever fails in it.
use mathlib.Core.List.{flatten}
use market_data_disseminatio.Base.Tests.{
  ℕ, ◌<◌, ◌≡◌, ◌≢◌, ◌⊎◌, inl, inr, refl, sym, ap, subst, ◌∙◌, true, false, Bool-cases,
  if◌then◌else◌, arith, Option, none, some, List, [], ◌++◌,
}
use market_data_disseminatio.Base.Lists.{All}
use market_data_disseminatio.Types.{MarketDataMsg}
use market_data_disseminatio.Symbols.{read_symbols_file}
use market_data_disseminatio.Generator.{Random, RandomWalkGenerator, stop}
use market_data_disseminatio.Monitor.{new_monitor, save_to_csv}
use market_data_disseminatio.Benchmark.{Subscriber, IsSubscriber}
use market_data_disseminatio.Benchmark.Threads.{
  Status, going, throwing, blocked, Part, Host, Process, record_calls, destroy_monitor,
}
use market_data_disseminatio.Benchmark.Run.{
  Run, rethrow, destruct_at, destruct, run_statements, statements, run_benchmark_pipeline,
}
use market_data_disseminatio.Benchmark.Phases.{
  Trouble, no_directory, not_configured, no_thread, not_subscribed, stuck, Phase, IsOrdered, At,
}
use market_data_disseminatio.Benchmark.InOrder.{IsInOrder, At-IsInOrder, IsOrdered-alive}
use market_data_disseminatio.Benchmark.Steps.{Fine, fine, failed}
use market_data_disseminatio.Benchmark.Order.{
  over, begun, begun-IsOrdered, stop_off, configured-Fine, running,
}
use market_data_disseminatio.Benchmark.Ends.{one_of, stopped-Fine, Left, destroyed}

-- Before the pipeline: no thread runs, and there is no monitor and no file.
pub record IsIdle {random : Random} {subscriber : Subscriber} (s : Process random subscriber)
    : Type 0 where
  pub generator : s.generator.running ≡ false
  pub disseminator : s.disseminator ≡ false
  pub feedhandler : s.feedhandler ≡ false
  pub monitor : s.monitor ≡ none
  pub csv : s.csv ≡ none

-- The files hold the latencies of the calls that came, up to those that have not come yet.
abbrev pub Wrote :
    {random : Random} {subscriber : Subscriber}
    → List (MarketDataMsg × ℕ)
    → Process random subscriber
    → Type 0
Wrote all s =
    (seen : List (MarketDataMsg × ℕ)) × (seen ++ flatten s.incoming ≡ all)
    × (s.csv ≡ some (save_to_csv (record_calls seen new_monitor)))

stuck_part :
    {subscriber : Subscriber} {ready : IsSubscriber subscriber} {host : Host} {rate : ℕ}
    {file : Option (List ℕ)} {status : Status}
    → status ≡ blocked
    → Trouble ready host rate file status
    → (part : Part) × (host.returns part ≡ false)
stuck_part e (no_directory f) = cc
stuck_part e (not_configured f) = cc
stuck_part e (no_thread part f) = cc
stuck_part e (not_subscribed symbol state now f) = cc
stuck_part e (stuck part f) = (part, f)

module _ {random : Random} {subscriber : Subscriber} (ready : IsSubscriber subscriber) (host : Host)
    (rate : ℕ) (file : Option (List ℕ)) (all : List (MarketDataMsg × ℕ)) where
  -- It returns with no thread left, and the files are written; or it throws for a reason, with no
  -- generator left, the monitor destroyed, and the files written unless its directory cannot be made; or it is
  -- blocked behind a loop that does not return, and there are no files.
  abbrev pub Ended : Run random subscriber → Type 0
  Ended run =
      (run.status ≡ going)
        × ((run.now.generator.running ≡ false)
            × (run.now.disseminator ≡ false)
            × (run.now.feedhandler ≡ false))
        × Wrote all run.now
        × ready.Ready run.now.subscriptions
      ⊎ (run.status ≡ throwing)
        × Trouble ready host rate file throwing
        × (run.now.generator.running ≡ false)
        × (run.now.monitor ≡ none)
        × (Wrote all run.now
            ⊎ (host.directory ≡ false) × (run.now.feedhandler ≡ false) × (run.now.csv ≡ none))
      ⊎ (run.status ≡ blocked)
        × ((part : Part) × (host.returns part ≡ false))
        × (run.now.csv ≡ none)

  module _ (run : Run random subscriber) where
    written :
        (r : Phase random) {s : Process random subscriber}
        → IsOrdered r
        → (r.alive ≡ false → host.directory ≡ false)
        → Left ready all r s
        → Wrote all s ⊎ (host.directory ≡ false) × (s.feedhandler ≡ false) × (s.csv ≡ none)
    written r v made left = elim (Bool-cases r.alive) [
      | inl alive ↦ inl (
        left.seen,
        left.told,
        left.csv
            ∙ ap (λ b. if b then some (save_to_csv (record_calls left.seen new_monitor)) else none)
                alive,
      )
      | inr dead ↦ inr (
        made dead,
        left.feedhandler ∙ elim (Bool-cases r.feedhandler) [
          | inl on ↦ cc (v.behind_feedhandler on, dead)
          | inr off ↦ off
        ],
        left.csv
            ∙ ap (λ b. if b then some (save_to_csv (record_calls left.seen new_monitor)) else none)
                dead,
      )
    ]

    abbrev Good : Status → Type 0
    unfolding destruct_at
    Good status =
        All IsInOrder (destruct_at destroy_monitor status run).past
        × Ended (destruct_at destroy_monitor status run)

    -- The monitor's destructor behind the statements.
    destroyed-Ended :
        (g : RandomWalkGenerator random)
        → g.running ≡ false
        → Fine ready host rate file all (over g) run
        → All IsInOrder (destruct destroy_monitor run).past × Ended (destruct destroy_monitor run)
    unfolding destruct destruct_at rethrow
    destroyed-Ended g idle (fine went h past) =
        let v = IsOrdered-alive (begun g) (begun-IsOrdered g idle) idle in
        let (_, left) = destroyed ready all (over g) run.now v h in
        subst Good (sym went) (
          (At-IsInOrder v h, past),
          inl (
            (destroyed ready all (over g) run.now v h).0,
            (
              ap (λ (g : RandomWalkGenerator random). g.running) left.generator ∙ idle,
              left.disseminator,
              left.feedhandler,
            ),
            (left.seen, left.told, left.csv),
            left.kept,
          ),
        )
    destroyed-Ended g idle (failed r v trouble quiet made h past) =
        let (goes, left) = destroyed ready all r run.now v h in
        elim (one_of trouble) [
          | inl thrown ↦ subst Good (sym thrown) (
            (At-IsInOrder v h, past),
            inr (
                inl (
                  ap rethrow goes,
                  subst (Trouble ready host rate file) thrown trouble,
                  ap (λ (g : RandomWalkGenerator random). g.running) left.generator ∙ quiet thrown,
                  left.monitor,
                  written r v made left,
                )),
          )
          | inr stays ↦
              subst Good (sym stays) (past, inr (inr (stays, stuck_part stays trouble, h.csv)))
        ]

module _ {random : Random} {subscriber : Subscriber} (ready : IsSubscriber subscriber) (host : Host)
    (rate : ℕ) (file : Option (List ℕ)) (s : Process random subscriber) (v : IsIdle s)
    (kept : ready.Ready s.subscriptions) where
  -- From a process without threads, files and a monitor, over a feed handler whose subscriptions have a
  -- property that its `subscribe` keeps: in every state that run_benchmark_pipeline goes through before its
  -- end, the generator runs only while the disseminator does, the disseminator only while the feed handler
  -- does, and the feed handler only while the monitor is alive that its callbacks write to. In the end no
  -- thread is left, the files hold the latencies of just the calls that came, in order, and the
  -- subscriptions have the property still; or an exception is thrown, for a directory that cannot be
  -- made, a rate of 0, a file without symbols, a thread that cannot be made or a call of `subscribe` that
  -- throws on subscriptions with the property, with no generator left and the monitor destroyed, and the
  -- files hold the calls too, unless the directory cannot be made, so that there was no monitor, and then
  -- there are no files and the feed handler does not run; or it
  -- is blocked, because a loop does not return that was asked to stop, and nothing is written.
  pub run_benchmark_pipeline_lem :
      All IsInOrder (run_benchmark_pipeline host rate file s).past
      × Ended ready host rate file (flatten s.incoming) (run_benchmark_pipeline host rate file s)
  unfolding run_benchmark_pipeline statements run_statements
  run_benchmark_pipeline_lem =
      let all = flatten s.incoming in
      let g = s.generator in
      let initial : Run random subscriber = record { status = going; now = s; past = [] } in
      let start : At ready all (begun g) s = record {
        generator = refl;
        disseminator = v.disseminator;
        feedhandler = v.feedhandler;
        seen = [];
        monitor = v.monitor;
        nothing = λ e. refl;
        told = refl;
        csv = v.csv;
        kept = kept;
      } in
      let (g1, idle1, rated, f1) =
        configured-Fine ready host rate file all g v.generator initial (fine refl start tt) in
      let (g2, idle2, f2) = running ready host rate file all g1 _ idle1 rated f1 in
      let over-IsOrdered = IsOrdered-alive (begun g2) (begun-IsOrdered g2 idle2) idle2 in
      destroyed-Ended ready host rate file all _ (stop random g2) (stop_off g2)
        (stopped-Fine ready host rate file all _ over-IsOrdered idle2 (λ e. cc) f2)

  -- If the directory and all threads can be made, the rate is at least 1, the file has a symbol, every
  -- loop returns that is asked to stop and no call of `subscribe` throws on subscriptions with the
  -- property, run_benchmark_pipeline returns, with no thread left, the files hold the latencies of just
  -- the calls that came, in order, and the subscriptions have the property still.
  pub run_benchmark_pipeline-returns :
      host.directory ≡ true
      → 0 < rate
      → read_symbols_file file ≢ []
      → ((part : Part) → host.can_start part ≡ true)
      → ((part : Part) → host.returns part ≡ true)
      → ((symbol : List ℕ) (state : subscriber.State)
          → ready.Ready state
          → (subscriber.subscribe_one symbol state).0 ≡ true)
      → let run = run_benchmark_pipeline host rate file s in
        (run.status ≡ going)
        × ((run.now.generator.running ≡ false)
            × (run.now.disseminator ≡ false)
            × (run.now.feedhandler ≡ false))
        × Wrote (flatten s.incoming) run.now
        × ready.Ready run.now.subscriptions
  run_benchmark_pipeline-returns directory positive symbols starts returns subscribes =
      elim run_benchmark_pipeline_lem.1 [
        | inl good ↦ good
        | inr (inl (threw, trouble, off, dead, files)) ↦ absurd (no_trouble trouble)
        | inr (inr (stays, (part, fails), rest)) ↦ cc (returns part, fails)
      ]
    where
      no_trouble : Trouble ready host rate file throwing → ⊥
      no_trouble (no_directory e) = cc (directory, e)
      no_trouble (not_configured (inl zero_rate)) = omega arith
      no_trouble (not_configured (inr empty)) = symbols empty
      no_trouble (no_thread part e) = cc (starts part, e)
      no_trouble (not_subscribed symbol state now e) = cc (subscribes symbol state now, e)
