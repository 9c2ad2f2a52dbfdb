-- ===== src/Benchmark/Order.antt =====
-- run_benchmark_pipeline as a whole: the order in which its threads start and stop, and what it leaves.
use market_data_disseminatio.Base.Tests.{
  inl, inr, Bool-cases, ℕ, ◌<◌, ◌≡◌, refl, true, false, arith, Option, List, [], ◌∷◌,
}
use market_data_disseminatio.Types.{MarketDataMsg}
use market_data_disseminatio.Generator.{Random, RandomWalkGenerator, configure, start, stop}
use market_data_disseminatio.Benchmark.{Subscriber, IsSubscriber}
use market_data_disseminatio.Benchmark.Threads.{
  Host, configure_generator, make_monitor, start_feedhandler, subscribe_all, start_disseminator,
  sleep, start_generator, stop_generator, stop_disseminator, stop_feedhandler,
}
use market_data_disseminatio.Benchmark.Run.{Run, perform, run_statements}
use market_data_disseminatio.Benchmark.Phases.{Phase, IsOrdered}
use market_data_disseminatio.Benchmark.InOrder.{
  IsOrdered-alive, IsOrdered-generator, IsOrdered-running, IsOrdered-disseminator,
  IsOrdered-feedhandler,
}
use market_data_disseminatio.Benchmark.Steps.{Fine, perform-Fine}
use market_data_disseminatio.Benchmark.Statements.{
  make_monitor-made, make_monitor-Moves, start_feedhandler-Moves, subscribe_all-Moves,
  start_disseminator-Moves, sleep-Moves, stop_disseminator-Moves, stop_feedhandler-Moves,
}
use market_data_disseminatio.Benchmark.Generating.{
  configure_generator-Moves, start_generator-Moves, stop_generator-Moves, idle_after,
}

-- The phase that the statements end in.
abbrev pub over : {random : Random} → RandomWalkGenerator random → Phase random
over g = record { generator = g; disseminator = false; feedhandler = false; alive = true }

abbrev pub begun : {random : Random} → RandomWalkGenerator random → Phase random
begun g = record { generator = g; disseminator = false; feedhandler = false; alive = false }

pub begun-IsOrdered :
    {random : Random} (g : RandomWalkGenerator random) → g.running ≡ false → IsOrdered (begun g)
begun-IsOrdered g idle = record {
  behind_generator = λ on. cc (on, idle);
  behind_disseminator = λ e. e;
  behind_feedhandler = λ e. cc;
}

pub stop_off : {random : Random} (g : RandomWalkGenerator random) → (stop random g).running ≡ false
unfolding stop
stop_off g = ground arith

module _ {random : Random} {subscriber : Subscriber} (ready : IsSubscriber subscriber) (host : Host)
    (rate : ℕ) (file : Option (List ℕ)) (all : List (MarketDataMsg × ℕ)) where
  module _ (g : RandomWalkGenerator random) (idle : g.running ≡ false)
      (run : Run random subscriber) where
    -- The monitor is made, or its directory cannot be.
    made-Fine :
        Fine ready host rate file all (begun g) run
        → Fine ready host rate file all (over g) (perform (make_monitor host) run)
    made-Fine v =
        let p = begun g in
        let v0 = begun-IsOrdered g idle in
        elim (Bool-cases host.directory) [
          | inl there ↦
              perform-Fine ready host rate file all (make_monitor host) v0
                (IsOrdered-alive p v0 idle) (λ e. cc)
                (make_monitor-made ready host rate file all p (over g) refl there) v
          | inr refused ↦
              perform-Fine ready host rate file all (make_monitor host) v0 v0 (λ e. refused)
                (make_monitor-Moves ready host rate file all p refl idle) v
        ]

    pub configured-Fine :
        Fine ready host rate file all (begun g) run
        → (g1 : RandomWalkGenerator random) × (g1.running ≡ false)
          × (0 < g1.messages_per_sec)
          × Fine ready host rate file all
              (over g1)
              (perform (configure_generator rate file) (perform (make_monitor host) run))
    configured-Fine v =
        let p = begun g in
        let p1 = over g in
        let v0 = begun-IsOrdered g idle in
        let v1 = IsOrdered-alive p v0 idle in
        let (g1, idle1, rated, moves) =
          configure_generator-Moves ready host rate file all p1 idle in
        let v2 =
          IsOrdered-generator p1 v1 idle (configure random rate file g).1
            (idle_after rate file g idle) in
        (
          g1,
          idle1,
          rated,
          perform-Fine ready host rate file all (configure_generator rate file) v1 v2 (λ e. cc)
              moves (made-Fine v),
        )

  pub running :
      (g : RandomWalkGenerator random) (run : Run random subscriber)
      → g.running ≡ false
      → 0 < g.messages_per_sec
      → Fine ready host rate file all (over g) run
      → (g2 : RandomWalkGenerator random) × (g2.running ≡ false)
        × Fine ready host rate file all (over g2) (
            run_statements
              (start_feedhandler host
                ∷ subscribe_all file
                ∷ start_disseminator host
                ∷ sleep
                ∷ start_generator host
                ∷ sleep
                ∷ stop_generator host
                ∷ sleep
                ∷ stop_disseminator host
                ∷ stop_feedhandler host
                ∷ [])
              run)
  unfolding run_statements
  running g run idle rated v =
      let p1 = over g in
      let p2 : Phase random = record p1 { feedhandler = true } in
      let p3 : Phase random = record p2 { disseminator = true } in
      let g2 = (start random g).1 in
      let p4 : Phase random = record p3 { generator = g2 } in
      let g3 = stop random g2 in
      let p5 : Phase random = record p4 { generator = g3 } in
      let p6 : Phase random = record p5 { disseminator = false } in
      let off = stop_off g2 in
      let v1 = IsOrdered-alive (begun g) (begun-IsOrdered g idle) idle in
      let v2 = IsOrdered-feedhandler p1 v1 idle true refl (λ e. refl) in
      let v3 = IsOrdered-disseminator p2 v2 idle true (λ e. refl) in
      let v4 = IsOrdered-running p3 v3 idle g2 refl in
      let v5 = IsOrdered-generator p3 v3 idle g3 off in
      let v6 = IsOrdered-disseminator p5 v5 off false (λ e. refl) in
      let f1 =
        perform-Fine ready host rate file all _ v1 v1 (λ e. cc)
          (start_feedhandler-Moves ready host rate file all p1 refl idle) v in
      let f2 =
        perform-Fine ready host rate file all _ v2 v2 (λ e. cc)
          (subscribe_all-Moves ready host rate file all p2 idle) f1 in
      let f3 =
        perform-Fine ready host rate file all _ v2 v2 (λ e. cc)
          (start_disseminator-Moves ready host rate file all p2 refl idle) f2 in
      let f4 =
        perform-Fine ready host rate file all _ v3 v3 (λ e. cc)
          (sleep-Moves ready host rate file all p3) f3 in
      let f5 =
        perform-Fine ready host rate file all _ v3 v3 (λ e. cc)
          (start_generator-Moves ready host rate file all p3 idle rated) f4 in
      let f6 =
        perform-Fine ready host rate file all _ v4 v4 (λ e. cc)
          (sleep-Moves ready host rate file all p4) f5 in
      let f7 =
        perform-Fine ready host rate file all _ v4 v4 (λ e. cc)
          (stop_generator-Moves ready host rate file all p4) f6 in
      let f8 =
        perform-Fine ready host rate file all _ v5 v5 (λ e. cc)
          (sleep-Moves ready host rate file all p5) f7 in
      let f9 =
        perform-Fine ready host rate file all _ v5 v5 (λ e. cc)
          (stop_disseminator-Moves ready host rate file all p5 off) f8 in
      let f10 =
        perform-Fine ready host rate file all _ v6 v6 (λ e. cc)
          (stop_feedhandler-Moves ready host rate file all p6 off) f9 in
      (g3, off, f10)
