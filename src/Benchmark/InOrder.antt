-- ===== src/Benchmark/InOrder.antt =====
-- The order of the threads, in a phase and in a process.
use market_data_disseminatio.Base.Tests.{
  ℕ, ◌≡◌, refl, sym, ap, ◌∙◌, Bool, true, false, none, some, List, if◌then◌else◌,
}
use market_data_disseminatio.Types.{MarketDataMsg}
use market_data_disseminatio.Generator.{Random, RandomWalkGenerator}
use market_data_disseminatio.Monitor.{LatencyMonitor, new_monitor}
use market_data_disseminatio.Benchmark.{Subscriber, IsSubscriber}
use market_data_disseminatio.Benchmark.Threads.{Process, record_calls}
use market_data_disseminatio.Benchmark.Phases.{Phase, IsOrdered, At}

-- A process in which each part runs only while those behind it do, and the client's monitor is alive.
pub record IsInOrder {random : Random} {subscriber : Subscriber} (s : Process random subscriber)
    : Type 0 where
  pub behind_generator : s.generator.running ≡ true → s.disseminator ≡ true
  pub behind_disseminator : s.disseminator ≡ true → s.feedhandler ≡ true
  pub behind_feedhandler : s.feedhandler ≡ true → (m : LatencyMonitor) × (s.monitor ≡ some m)

module _ {random : Random} {subscriber : Subscriber} {ready : IsSubscriber subscriber}
    {all : List (MarketDataMsg × ℕ)} {p : Phase random} {s : Process random subscriber} where
  pub At-IsInOrder : IsOrdered p → At ready all p s → IsInOrder s
  At-IsInOrder v h = record {
    behind_generator = λ on.
        h.disseminator
        ∙ v.behind_generator
            (sym (ap (λ (g : RandomWalkGenerator random). g.running) h.generator) ∙ on);
    behind_disseminator = λ on. h.feedhandler ∙ v.behind_disseminator (sym h.disseminator ∙ on);
    behind_feedhandler = λ on. (
      record_calls h.seen new_monitor,
      h.monitor
          ∙ ap (λ b. if b then some (record_calls h.seen new_monitor) else none)
              (v.behind_feedhandler (sym h.feedhandler ∙ on)),
    );
  }

module _ {random : Random} (p : Phase random) (v : IsOrdered p)
    (idle : p.generator.running ≡ false) where
  pub IsOrdered-alive : IsOrdered (record p { alive = true })
  IsOrdered-alive = record {
    behind_generator = v.behind_generator;
    behind_disseminator = v.behind_disseminator;
    behind_feedhandler = λ on. refl;
  }

  pub IsOrdered-generator :
      (g : RandomWalkGenerator random) → g.running ≡ false → IsOrdered (record p { generator = g })
  IsOrdered-generator g off = record {
    behind_generator = λ on. cc (on, off);
    behind_disseminator = v.behind_disseminator;
    behind_feedhandler = v.behind_feedhandler;
  }

  pub IsOrdered-running :
      (g : RandomWalkGenerator random)
      → p.disseminator ≡ true
      → IsOrdered (record p { generator = g })
  IsOrdered-running g on = record {
    behind_generator = λ running. on;
    behind_disseminator = v.behind_disseminator;
    behind_feedhandler = v.behind_feedhandler;
  }

  pub IsOrdered-disseminator :
      (b : Bool) → (b ≡ true → p.feedhandler ≡ true) → IsOrdered (record p { disseminator = b })
  IsOrdered-disseminator b on = record {
    behind_generator = λ running. cc (running, idle);
    behind_disseminator = on;
    behind_feedhandler = v.behind_feedhandler;
  }

  pub IsOrdered-feedhandler :
      (b : Bool)
      → p.disseminator ≡ false
      → (b ≡ true → p.alive ≡ true)
      → IsOrdered (record p { feedhandler = b })
  IsOrdered-feedhandler b off on = record {
    behind_generator = v.behind_generator;
    behind_disseminator = λ e. cc (e, off);
    behind_feedhandler = on;
  }
