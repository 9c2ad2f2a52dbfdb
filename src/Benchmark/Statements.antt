-- ===== src/Benchmark/Statements.antt =====
-- What each statement of run_benchmark_pipeline does in a phase that it can meet.
use market_data_disseminatio.Base.Tests.{
  ℕ, ◌≡◌, inl, inr, refl, sym, ap, subst, ◌∙◌, Bool-cases, Bool, true, false, Option, none, some,
  List, [], ◌++◌, if◌then◌else◌,
}
use mathlib.Core.List.{flatten}
use market_data_disseminatio.Types.{MarketDataMsg}
use market_data_disseminatio.Generator.{Random}
use market_data_disseminatio.Monitor.{new_monitor}
use market_data_disseminatio.Benchmark.{Subscriber, IsSubscriber, subscribe_symbols_file}
use market_data_disseminatio.Benchmark.Subscriptions.{
  subscribe_symbols_file-Ready, subscribe_symbols_file-false,
}
use market_data_disseminatio.Benchmark.Threads.{
  Status, going, throwing, disseminator, feedhandler, Host, Process, record_calls, make_monitor,
  start_disseminator, stop_disseminator, start_feedhandler, stop_feedhandler, subscribe_all, sleep,
}
use market_data_disseminatio.Benchmark.Phases.{
  Trouble, not_subscribed, no_directory, no_thread, stuck, Phase, At, Outcome, Moves,
}

-- The threads' parts of a process, changed with those of the phase.
pub turned :
    {random : Random} {subscriber : Subscriber} {ready : IsSubscriber subscriber}
    {all : List (MarketDataMsg × ℕ)} {p q : Phase random} {s s' : Process random subscriber}
    → At ready all p s
    → q.alive ≡ p.alive
    → (s'.monitor ≡ s.monitor)
      × (s'.incoming ≡ s.incoming)
      × (s'.csv ≡ s.csv)
      × (s'.subscriptions ≡ s.subscriptions)
    → s'.generator ≡ q.generator
    → s'.disseminator ≡ q.disseminator
    → s'.feedhandler ≡ q.feedhandler
    → At ready all q s'
turned {ready = ready} h alive (monitor, incoming, csv, subscriptions) g d f = record {
  generator = g;
  disseminator = d;
  feedhandler = f;
  seen = h.seen;
  monitor =
      monitor
      ∙ h.monitor
      ∙ ap (λ b. if b then some (record_calls h.seen new_monitor) else none) (sym alive);
  nothing = λ e. h.nothing (sym alive ∙ e);
  told = ap (λ l. h.seen ++ flatten l) incoming ∙ h.told;
  csv = csv ∙ h.csv;
  kept = subst ready.Ready (sym subscriptions) h.kept;
}

module _ {random : Random} {subscriber : Subscriber} (ready : IsSubscriber subscriber) (host : Host)
    (rate : ℕ) (file : Option (List ℕ)) (all : List (MarketDataMsg × ℕ)) where
  pub branch :
      {q r : Phase random} (b : Bool) {x y : Status × Process random subscriber}
      → (b ≡ true → Outcome ready host rate file all q r x)
      → (b ≡ false → Outcome ready host rate file all q r y)
      → Outcome ready host rate file all q r (if b then x else y)
  branch true good bad = good refl
  branch false good bad = bad refl

  module _ (p : Phase random) where
    monitor_made :
        p.alive ≡ false
        → (s : Process random subscriber) → (h : At ready all p s)
        → At ready all (record p { alive = true }) (record s { monitor = some new_monitor })
    unfolding record_calls
    monitor_made dead s h = record {
      generator = h.generator;
      disseminator = h.disseminator;
      feedhandler = h.feedhandler;
      seen = [];
      monitor = refl;
      nothing = λ e. refl;
      told = ap (λ l. l ++ flatten s.incoming) (sym (h.nothing dead)) ∙ h.told;
      csv = h.csv;
      kept = h.kept;
    }

    pub make_monitor-Moves :
        p.alive ≡ false
        → p.generator.running ≡ false
        → Moves ready host rate file all p (record p { alive = true }) p (make_monitor host)
    unfolding make_monitor
    make_monitor-Moves dead idle = record {
      moves = λ s h.
          branch host.directory (λ made. inl (refl, monitor_made dead s h))
            (λ refused. inr (no_directory refused, (λ e. idle), h));
    }

    -- Where the directory can be made, the statement does not fail.
    pub make_monitor-made :
        (r : Phase random)
        → p.alive ≡ false
        → host.directory ≡ true
        → Moves ready host rate file all p (record p { alive = true }) r (make_monitor host)
    unfolding make_monitor
    make_monitor-made r dead there = record {
      moves = λ s h.
          branch host.directory (λ made. inl (refl, monitor_made dead s h))
            (λ refused. cc (there, refused));
    }

    pub start_feedhandler-Moves :
        p.feedhandler ≡ false
        → p.generator.running ≡ false
        → Moves ready host rate file all p
            (record p { feedhandler = true })
            p
            (start_feedhandler host)
    unfolding start_feedhandler
    start_feedhandler-Moves off idle = record {
      moves = λ s h.
          branch s.feedhandler (λ on. cc (on, h.feedhandler, off))
            (λ e.
              branch (host.can_start feedhandler)
                (λ made.
                  inl
                    (refl, turned h refl (refl, refl, refl, refl) h.generator h.disseminator refl))
                (λ refused. inr (no_thread feedhandler refused, (λ e. idle), h)));
    }

    pub subscribe_all-Moves :
        p.generator.running ≡ false → Moves ready host rate file all p p p (subscribe_all file)
    unfolding subscribe_all
    subscribe_all-Moves idle = record {
      moves = λ s h.
          let subscribed = subscribe_symbols_file subscriber file s.subscriptions in
          let next : Process random subscriber = record s {
            subscriptions = subscribed.1.0;
            sub_count = subscribed.1.1;
          } in
          let h' : At ready all p next = record {
            generator = h.generator;
            disseminator = h.disseminator;
            feedhandler = h.feedhandler;
            seen = h.seen;
            monitor = h.monitor;
            nothing = h.nothing;
            told = h.told;
            csv = h.csv;
            kept = subscribe_symbols_file-Ready ready file s.subscriptions h.kept;
          } in
          elim (Bool-cases subscribed.0) [
            | inl all_called ↦ inl (ap (λ (b : Bool). if b then going else throwing) all_called, h')
            | inr thrown ↦
                let (symbol, state, now, e) =
                  subscribe_symbols_file-false ready file s.subscriptions h.kept thrown in
                let throws = ap (λ (b : Bool). if b then going else throwing) thrown in
                inr (
                  subst (Trouble ready host rate file) (sym throws)
                      (not_subscribed symbol state now e),
                  (λ e. idle),
                  h',
                )
          ];
    }

    pub sleep-Moves : Moves ready host rate file all p p p sleep
    unfolding sleep
    sleep-Moves = record { moves = λ s h. inl (refl, h) }

    pub stop_feedhandler-Moves :
        p.generator.running ≡ false
        → Moves ready host rate file all p
            (record p { feedhandler = false })
            p
            (stop_feedhandler host)
    unfolding stop_feedhandler
    stop_feedhandler-Moves idle = record {
      moves = λ s h.
          branch s.feedhandler
            (λ on.
              branch (host.returns feedhandler)
                (λ e.
                  inl
                    (refl, turned h refl (refl, refl, refl, refl) h.generator h.disseminator refl))
                (λ e. inr (stuck feedhandler e, (λ e. idle), h)))
            (λ off.
              inl (refl, turned h refl (refl, refl, refl, refl) h.generator h.disseminator off));
    }

    pub start_disseminator-Moves :
        p.disseminator ≡ false
        → p.generator.running ≡ false
        → Moves ready host rate file all p
            (record p { disseminator = true })
            p
            (start_disseminator host)
    unfolding start_disseminator
    start_disseminator-Moves off idle = record {
      moves = λ s h.
          branch s.disseminator (λ on. cc (on, h.disseminator, off))
            (λ e.
              branch (host.can_start disseminator)
                (λ made.
                  inl (refl, turned h refl (refl, refl, refl, refl) h.generator refl h.feedhandler))
                (λ refused. inr (no_thread disseminator refused, (λ e. idle), h)));
    }

    pub stop_disseminator-Moves :
        p.generator.running ≡ false
        → Moves ready host rate file all p
            (record p { disseminator = false })
            p
            (stop_disseminator host)
    unfolding stop_disseminator
    stop_disseminator-Moves idle = record {
      moves = λ s h.
          branch s.disseminator
            (λ on.
              branch (host.returns disseminator)
                (λ e.
                  inl (refl, turned h refl (refl, refl, refl, refl) h.generator refl h.feedhandler))
                (λ e. inr (stuck disseminator e, (λ e. idle), h)))
            (λ off.
              inl (refl, turned h refl (refl, refl, refl, refl) h.generator off h.feedhandler));
    }
