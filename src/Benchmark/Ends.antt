-- ===== src/Benchmark/Ends.antt =====
-- How run_benchmark_pipeline ends, with the destructors of the generator and of the monitor.
use mathlib.Core.List.{flatten}
use market_data_disseminatio.Base.Tests.{
  ℕ, ◌≡◌, ◌⊎◌, inl, inr, refl, sym, ap, subst, ◌∙◌, Bool, false, Bool-cases, if◌then◌else◌, Option,
  none, some, List, ◌++◌,
}
use market_data_disseminatio.Base.Lists.{All}
use market_data_disseminatio.Types.{MarketDataMsg}
use market_data_disseminatio.Generator.{Random, stop}
use market_data_disseminatio.Monitor.{new_monitor, save_to_csv}
use market_data_disseminatio.Benchmark.{Subscriber, IsSubscriber}
use market_data_disseminatio.Benchmark.Threads.{
  Status, going, throwing, blocked, Host, Process, record_calls, receive, stop_generator,
  destroy_at, destroy_monitor,
}
use market_data_disseminatio.Benchmark.Run.{Run, resume, beside, rethrow, destruct_at, destruct}
use market_data_disseminatio.Benchmark.Phases.{
  Trouble, no_directory, not_configured, no_thread, not_subscribed, stuck, Phase, IsOrdered, At,
  beside-Moves, receive-At,
}
use market_data_disseminatio.Benchmark.InOrder.{IsOrdered-generator, IsInOrder, At-IsInOrder}
use market_data_disseminatio.Benchmark.Steps.{Fine, fine, failed, after-Fine}
use market_data_disseminatio.Benchmark.Generating.{stop_generator-Moves}
use market_data_disseminatio.Benchmark.Order.{stop_off}

pub one_of :
    {subscriber : Subscriber} {ready : IsSubscriber subscriber} {host : Host} {rate : ℕ}
    {file : Option (List ℕ)} {status : Status}
    → Trouble ready host rate file status
    → (status ≡ throwing) ⊎ (status ≡ blocked)
one_of (no_directory e) = inl refl
one_of (not_configured e) = inl refl
one_of (no_thread part e) = inl refl
one_of (not_subscribed symbol state now e) = inl refl
one_of (stuck part e) = inr refl

pub rethrown :
    {subscriber : Subscriber} {ready : IsSubscriber subscriber} {host : Host} {rate : ℕ}
    {file : Option (List ℕ)} {status : Status}
    → Trouble ready host rate file status
    → rethrow status ≡ status
unfolding rethrow
rethrown (no_directory e) = refl
rethrown (not_configured e) = refl
rethrown (no_thread part e) = refl
rethrown (not_subscribed symbol state now e) = refl
rethrown (stuck part e) = refl

module _ {random : Random} {subscriber : Subscriber} (ready : IsSubscriber subscriber) (host : Host)
    (rate : ℕ) (file : Option (List ℕ)) (all : List (MarketDataMsg × ℕ)) where
  -- The generator's destructor, over a phase in which no generator runs.
  module _ (run : Run random subscriber) where
    throwing-Fine :
        (p : Phase random) {r : Phase random}
        → IsOrdered r
        → Trouble ready host rate file throwing
        → r.generator.running ≡ false
        → (r.alive ≡ false → host.directory ≡ false)
        → At ready all r run.now
        → All IsInOrder run.past
        → Fine ready host rate file all p (destruct_at (stop_generator host) throwing run)
    unfolding destruct_at rethrow
    throwing-Fine p {r} v trouble idle made h past =
        let r' : Phase random = record r { generator = stop random r.generator } in
        let off = stop_off r.generator in
        let v' = IsOrdered-generator r v idle r'.generator off in
        let done = beside (stop_generator host) run.now in
        elim ((beside-Moves ready host rate file all r r' r _ v
            (stop_generator-Moves ready host rate file all r)).moves
          run.now h) [
            | inl (went, h') ↦
                failed r' v' (subst (Trouble ready host rate file) (sym (ap rethrow went)) trouble)
                  (λ e. off) made h' (At-IsInOrder v h, past)
            | inr (again, idle', h') ↦
                failed r v (subst (Trouble ready host rate file) (sym (rethrown again)) again)
                  (λ e. idle) made h' (At-IsInOrder v h, past)
          ]

    pub stopped-Fine :
        {p : Phase random}
        → IsOrdered p
        → p.generator.running ≡ false
        → (p.alive ≡ false → host.directory ≡ false)
        → Fine ready host rate file all p run
        → Fine ready host rate file all
            (record p { generator = stop random p.generator })
            (destruct (stop_generator host) run)
    unfolding destruct destruct_at
    stopped-Fine {p} v idle made (fine went h past) =
        subst
          (λ status.
            Fine ready host rate file all (record p { generator = stop random p.generator })
              (destruct_at (stop_generator host) status run))
          (sym went)
          (after-Fine ready host rate file all (stop_generator host) run v v made
            (stop_generator-Moves ready host rate file all p) h past)
    stopped-Fine {p} v idle made (failed r v' trouble quiet made' h past) =
        let Q : Status → Type 0 = λ status.
          Fine ready host rate file all (record p { generator = stop random p.generator })
            (destruct_at (stop_generator host) status run) in
        elim (one_of trouble) [
          | inl thrown ↦ subst Q (sym thrown) (
              throwing-Fine (record p { generator = stop random p.generator }) v'
                (subst (Trouble ready host rate file) thrown trouble) (quiet thrown) made' h past)
          | inr stays ↦ subst Q (sym stays) (failed r v' trouble quiet made' h past)
        ]

module _ {random : Random} {subscriber : Subscriber} (ready : IsSubscriber subscriber)
    (all : List (MarketDataMsg × ℕ)) (r : Phase random) where
  -- What is left of a phase once the monitor is destroyed: if there was one, the files hold the latencies
  -- of the calls that the client got.
  pub record Left (s : Process random subscriber) : Type 0 where
    pub generator : s.generator ≡ r.generator
    pub disseminator : s.disseminator ≡ r.disseminator
    pub feedhandler : s.feedhandler ≡ r.feedhandler
    pub seen : List (MarketDataMsg × ℕ)
    pub told : seen ++ flatten s.incoming ≡ all
    pub monitor : s.monitor ≡ none
    pub kept : ready.Ready s.subscriptions
    pub csv : s.csv ≡ (if r.alive then some (save_to_csv (record_calls seen new_monitor)) else none)

  destroy_monitor-Left :
      (s : Process random subscriber)
      → At ready all r s
      → ((destroy_monitor s).0 ≡ going) × Left (destroy_monitor s).1
  unfolding destroy_monitor
  destroy_monitor-Left s h =
      let m = record_calls h.seen new_monitor in
      elim (Bool-cases r.alive) [
        | inl alive ↦
            subst (λ o. ((destroy_at o s).0 ≡ going) × Left (destroy_at o s).1)
              (sym (h.monitor ∙ ap (λ b. if b then some m else none) alive))
              (
                refl,
                record {
                  generator = h.generator;
                  disseminator = h.disseminator;
                  feedhandler = h.feedhandler;
                  seen = h.seen;
                  told = h.told;
                  kept = h.kept;
                  monitor = refl;
                  csv = ap (λ b. if b then some (save_to_csv m) else none) (sym alive);
                },
              )
        | inr dead ↦
            let gone = h.monitor ∙ ap (λ b. if b then some m else none) dead in
            subst (λ o. ((destroy_at o s).0 ≡ going) × Left (destroy_at o s).1) (sym gone)
              (
                refl,
                record {
                  generator = h.generator;
                  disseminator = h.disseminator;
                  feedhandler = h.feedhandler;
                  seen = h.seen;
                  told = h.told;
                  kept = h.kept;
                  monitor = gone;
                  csv = h.csv ∙ ap (λ b. if b then some (save_to_csv m) else none) (sym dead);
                },
              )
      ]

  pub destroyed :
      (s : Process random subscriber)
      → IsOrdered r
      → At ready all r s
      → ((beside destroy_monitor s).0 ≡ going) × Left (beside destroy_monitor s).1
  unfolding beside
  destroyed s v h =
      let Q : Status × Process random subscriber → Type 0 =
        λ done. (done.0 ≡ going) × Left done.1 in
      let f : Bool → Status × Process random subscriber = λ b.
        (let received = if b then receive s.incoming s else (going, s) in
          resume destroy_monitor received.0 received.1) in
      elim (Bool-cases s.feedhandler) [
        | inl on ↦
            let (went, h') =
              receive-At ready all r (v.behind_feedhandler (sym h.feedhandler ∙ on)) s h in
            subst Q
              (sym (
                ap f on
                ∙ ap (λ status. resume destroy_monitor status (receive s.incoming s).1) went))
              (destroy_monitor-Left (receive s.incoming s).1 h')
        | inr off ↦ subst Q (sym (ap f off)) (destroy_monitor-Left s h)
      ]
