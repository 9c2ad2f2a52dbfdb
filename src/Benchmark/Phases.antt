-- ===== src/Benchmark/Phases.antt =====
-- How each statement of run_benchmark_pipeline moves the process on, and what a failure leaves.
use market_data_disseminatio.Base.Tests.{
  ℕ, ◌≡◌, ◌⊎◌, inl, inr, refl, sym, ap, subst, ◌∙◌, Bool, true, false, Option, none, some, List, [],
  ◌∷◌, ◌++◌, if◌then◌else◌, Bool-cases,
}
use mathlib.Core.List.{flatten, append_assoc}
use market_data_disseminatio.Types.{MarketDataMsg}
use market_data_disseminatio.Symbols.{read_symbols_file}
use market_data_disseminatio.Generator.{Random, RandomWalkGenerator}
use market_data_disseminatio.Monitor.{LatencyMonitor, on_message, new_monitor}
use market_data_disseminatio.Benchmark.{Subscriber, IsSubscriber}
use market_data_disseminatio.Benchmark.Threads.{
  Status, going, throwing, blocked, Part, Host, Process, record_calls, call_back, receive,
}
use market_data_disseminatio.Benchmark.Run.{resume, beside}

-- Why the pipeline does not go on.
pub data Trouble {subscriber : Subscriber} (ready : IsSubscriber subscriber) (host : Host)
    (rate : ℕ) (file : Option (List ℕ)) : Status → Type 0 where
  no_directory : host.directory ≡ false → Trouble ready host rate file throwing
  not_configured :
      (rate ≡ 0) ⊎ (read_symbols_file file ≡ []) → Trouble ready host rate file throwing
  no_thread : (part : Part) → host.can_start part ≡ false → Trouble ready host rate file throwing
  not_subscribed :
      (symbol : List ℕ) (state : subscriber.State)
      → ready.Ready state
      → (subscriber.subscribe_one symbol state).0 ≡ false
      → Trouble ready host rate file throwing
  stuck : (part : Part) → host.returns part ≡ false → Trouble ready host rate file blocked

-- The parts that run, and whether the monitor is alive.
pub record Phase (random : Random) : Type 0 where
  pub generator : RandomWalkGenerator random
  pub disseminator : Bool
  pub feedhandler : Bool
  pub alive : Bool

-- A part runs only while those behind it do.
pub record IsOrdered {random : Random} (p : Phase random) : Type 0 where
  pub behind_generator : p.generator.running ≡ true → p.disseminator ≡ true
  pub behind_disseminator : p.disseminator ≡ true → p.feedhandler ≡ true
  pub behind_feedhandler : p.feedhandler ≡ true → p.alive ≡ true

module _ {random : Random} {subscriber : Subscriber} (ready : IsSubscriber subscriber)
    (all : List (MarketDataMsg × ℕ)) where
  -- The process is in the phase; the calls that the client got so far, `seen`, are those of `all` that do
  -- not come any more.
  pub record At (p : Phase random) (s : Process random subscriber) : Type 0 where
    pub generator : s.generator ≡ p.generator
    pub disseminator : s.disseminator ≡ p.disseminator
    pub feedhandler : s.feedhandler ≡ p.feedhandler
    pub seen : List (MarketDataMsg × ℕ)
    pub monitor : s.monitor ≡ (if p.alive then some (record_calls seen new_monitor) else none)
    pub nothing : p.alive ≡ false → seen ≡ []
    pub told : seen ++ flatten s.incoming ≡ all
    pub csv : s.csv ≡ none
    pub kept : ready.Ready s.subscriptions

record_calls-append :
    (calls calls' : List (MarketDataMsg × ℕ)) (m : LatencyMonitor)
    → record_calls (calls ++ calls') m ≡ record_calls calls' (record_calls calls m)
unfolding record_calls
record_calls-append [] calls' m = refl
record_calls-append ((msg, t3) ∷ calls) calls' m =
    record_calls-append calls calls' (on_message msg t3 m)

call_back-some :
    (calls : List (MarketDataMsg × ℕ)) (m : LatencyMonitor)
    → call_back calls (some m) ≡ (going, some (record_calls calls m))
unfolding call_back record_calls
call_back-some [] m = refl
call_back-some (c ∷ calls) m = refl

module _ {random : Random} {subscriber : Subscriber} (ready : IsSubscriber subscriber)
    (all : List (MarketDataMsg × ℕ)) (p : Phase random) (alive : p.alive ≡ true) where
  -- What comes in beside a statement finds the monitor alive.
  pub receive-At :
      (s : Process random subscriber)
      → At ready all p s
      → ((receive s.incoming s).0 ≡ going) × At ready all p (receive s.incoming s).1
  unfolding receive flatten
  receive-At s h = received s.incoming refl
    where
      now : s.monitor ≡ some (record_calls h.seen new_monitor)
      now = h.monitor ∙ ap (λ b. if b then some (record_calls h.seen new_monitor) else none) alive

      received :
          (incoming : List (List (MarketDataMsg × ℕ)))
          → s.incoming ≡ incoming
          → ((receive incoming s).0 ≡ going) × At ready all p (receive incoming s).1
      received [] e = (refl, h)
      received (calls ∷ incoming) e =
          let called =
            ap (call_back calls) now ∙ call_back-some calls (record_calls h.seen new_monitor) in
          (
            ap (λ (c : Status × Option LatencyMonitor). c.0) called,
            record {
              generator = h.generator;
              disseminator = h.disseminator;
              feedhandler = h.feedhandler;
              csv = h.csv;
              kept = h.kept;
              seen = h.seen ++ calls;
              monitor =
                  ap (λ (c : Status × Option LatencyMonitor). c.1) called
                  ∙ ap some (sym (record_calls-append h.seen calls new_monitor))
                  ∙ ap (λ b. if b then some (record_calls (h.seen ++ calls) new_monitor) else none)
                      (sym alive);
              nothing = λ dead. cc;
              told =
                  append_assoc h.seen calls (flatten incoming)
                  ∙ ap (λ l. h.seen ++ flatten l) (sym e)
                  ∙ h.told;
            },
          )

module _ {random : Random} {subscriber : Subscriber} (ready : IsSubscriber subscriber) (host : Host)
    (rate : ℕ) (file : Option (List ℕ)) (all : List (MarketDataMsg × ℕ)) where
  -- A statement goes on in the phase `q`, or fails in the phase `r`; where it throws, no generator runs.
  abbrev pub Outcome : Phase random → Phase random → Status × Process random subscriber → Type 0
  Outcome q r done =
      (done.0 ≡ going) × At ready all q done.1
      ⊎ Trouble ready host rate file done.0
        × (done.0 ≡ throwing → r.generator.running ≡ false)
        × At ready all r done.1

  pub record Moves (p q r : Phase random)
      (f : Process random subscriber → Status × Process random subscriber) : Type 0 where
    pub moves : (s : Process random subscriber) → At ready all p s → Outcome q r (f s)

  abbrev after :
      (Process random subscriber → Status × Process random subscriber)
      → Status × Process random subscriber
      → Status × Process random subscriber
  after f received = resume f received.0 received.1

  module _ (p q r : Phase random)
      (f : Process random subscriber → Status × Process random subscriber) where
    pub beside-Moves : IsOrdered p → Moves p q r f → Moves p q r (beside f)
    unfolding beside
    beside-Moves v m = record {
      moves = λ s h. elim (Bool-cases s.feedhandler) [
        | inl on ↦
            let (went, h') =
              receive-At ready all p (v.behind_feedhandler (sym h.feedhandler ∙ on)) s h in
            subst (Outcome q r)
              (sym (
                ap (λ b. after f (if b then receive s.incoming s else (going, s))) on
                ∙ ap (λ status. resume f status (receive s.incoming s).1) went))
              (m.moves (receive s.incoming s).1 h')
        | inr off ↦
            subst (Outcome q r)
              (sym (ap (λ b. after f (if b then receive s.incoming s else (going, s))) off))
              (m.moves s h)
      ];
    }
