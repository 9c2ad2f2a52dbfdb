-- ===== src/Benchmark/Generating.antt =====
-- What the statements about the generator do in a phase that they can meet.
use market_data_disseminatio.Base.Tests.{
  ℕ, ◌<◌, ◌≡◌, ◌⊎◌, inl, inr, refl, sym, ap, subst, ◌∙◌, Bool, true, false, Option, none, some,
  List, [], ◌∷◌, ltb, ◌==◌, if◌then◌else◌, Bool-cases, arith, ◌||◌,
}
use market_data_disseminatio.Base.Lists.{length}
use market_data_disseminatio.Types.{MarketDataMsg}
use market_data_disseminatio.Symbols.{read_symbols_file}
use market_data_disseminatio.Generator.{
  Random, Error, invalid_argument, logic_error, RandomWalkGenerator, set_rate, load_symbols,
  after_rate, configure, start, stop,
}
use market_data_disseminatio.Benchmark.{Subscriber, IsSubscriber}
use market_data_disseminatio.Benchmark.Threads.{
  generator, Host, Process, status_of, launch, configure_generator, start_generator, stop_generator,
}
use market_data_disseminatio.Benchmark.Phases.{
  Trouble, not_configured, no_thread, stuck, Phase, At, Outcome, Moves,
}
use market_data_disseminatio.Benchmark.Statements.{turned, branch}

or_false : (a b : Bool) → (a || b) ≡ false → b ≡ false
or_false true b e = cc
or_false false b e = e

length_zero : (l : List (List ℕ)) → (length l == 0) ≡ true → l ≡ []
length_zero [] e = refl
length_zero (x ∷ l) e = ground arith

module _ {random : Random} where
  stop_idle : (g : RandomWalkGenerator random) → g.running ≡ false → g ≡ stop random g
  unfolding stop
  stop_idle g idle = sym (ap (λ b. if b then record g { running = false } else g) idle)

  start-none : (g : RandomWalkGenerator random) → 0 < g.messages_per_sec → (start random g).0 ≡ none
  unfolding start
  start-none g rated = ground arith

module _ {random : Random} (rate : ℕ) (file : Option (List ℕ)) where
  -- How configure ends.
  pub configure_cases :
      (g : RandomWalkGenerator random)
      → let configured = configure random rate file g in
        (configured.1.running ≡ g.running)
        × ((configured.0 ≡ none) × (0 < configured.1.messages_per_sec)
            ⊎ ((e : Error) × (configured.0 ≡ some e)
                × ((rate ≡ 0) ⊎ (read_symbols_file file ≡ []))))
  unfolding configure set_rate load_symbols after_rate
  configure_cases g = elim (Bool-cases (ltb rate 1)) [
    | inl low ↦ rw low (refl, inr (invalid_argument, refl, inl (ground arith)))
    | inr high ↦ elim (Bool-cases (length (read_symbols_file file) == 0)) [
      | inl no_symbol ↦
          rw (high, no_symbol)
            (refl, inr (logic_error, refl, inr (length_zero (read_symbols_file file) no_symbol)))
      | inr symbol ↦ rw (high, symbol) (refl, inl (refl, ground arith))
    ]
  ]

  pub idle_after :
      (g : RandomWalkGenerator random)
      → g.running ≡ false
      → (configure random rate file g).1.running ≡ false
  idle_after g idle = (configure_cases g).0 ∙ idle

module _ {random : Random} {subscriber : Subscriber} (ready : IsSubscriber subscriber) (host : Host)
    (rate : ℕ) (file : Option (List ℕ)) (all : List (MarketDataMsg × ℕ)) where
  module _ (p : Phase random) where
    pub stop_generator-Moves :
        Moves ready host rate file all p
          (record p { generator = stop random p.generator })
          p
          (stop_generator host)
    unfolding stop_generator stop
    stop_generator-Moves = record {
      moves = λ s h.
          branch ready host rate file all s.generator.running
            (λ on.
              branch ready host rate file all (host.returns generator)
                (λ e. inl (
                  refl,
                  turned h refl (refl, refl, refl, refl) (ap (stop random) h.generator)
                      h.disseminator h.feedhandler,
                ))
                (λ e. inr (stuck generator e, (λ e. cc), h)))
            (λ off. inl (
              refl,
              turned h refl (refl, refl, refl, refl)
                  (h.generator
                    ∙ stop_idle p.generator (
                        sym (ap (λ (g : RandomWalkGenerator random). g.running) h.generator) ∙ off))
                  h.disseminator h.feedhandler,
            ));
    }

    -- The phase behind configure.
    abbrev configured : Phase random
    configured = record p { generator = (configure random rate file p.generator).1 }

    configured-At :
        (s : Process random subscriber)
        → At ready all p s
        → At ready all configured
            (record s { generator = (configure random rate file s.generator).1 })
    configured-At s h =
        turned h refl (refl, refl, refl, refl)
          (ap (λ g. (configure random rate file g).1) h.generator) h.disseminator h.feedhandler

    configured-Moves :
        (configure random rate file p.generator).0 ≡ none
        → Moves ready host rate file all p configured configured (configure_generator rate file)
    unfolding configure_generator
    configured-Moves done = record {
      moves = λ s h. inl (
        ap (λ g. status_of (configure random rate file g).0) h.generator ∙ ap status_of done,
        configured-At s h,
      );
    }

    refused-Moves :
        (q : Phase random) {e : Error}
        → p.generator.running ≡ false
        → (configure random rate file p.generator).0 ≡ some e
        → (rate ≡ 0) ⊎ (read_symbols_file file ≡ [])
        → Moves ready host rate file all p q configured (configure_generator rate file)
    unfolding configure_generator
    refused-Moves q idle threw why = record {
      moves = λ s h.
          let throws =
            ap (λ g. status_of (configure random rate file g).0) h.generator ∙ ap status_of threw in
          inr (
            subst (Trouble ready host rate file) (sym throws) (not_configured why),
            (λ e. idle_after rate file p.generator idle),
            configured-At s h,
          );
    }

    -- Where configure throws, no phase follows, so any will do.
    pub configure_generator-Moves :
        p.generator.running ≡ false
        → (g : RandomWalkGenerator random) × (g.running ≡ false)
          × (0 < g.messages_per_sec)
          × Moves ready host rate file all p
              (record p { generator = g })
              configured
              (configure_generator rate file)
    configure_generator-Moves idle =
        let off = idle_after rate file p.generator idle in
        elim (configure_cases rate file p.generator).1 [
          | inl (done, rated) ↦ (configured.generator, off, rated, configured-Moves done)
          | inr (e, threw, why) ↦
              let g = record configured.generator { messages_per_sec = 1 } in
              (g, off, omega arith, refused-Moves (record p { generator = g }) idle threw why)
        ]

    pub start_generator-Moves :
        p.generator.running ≡ false
        → 0 < p.generator.messages_per_sec
        → Moves ready host rate file all p
            (record p { generator = (start random p.generator).1 })
            p
            (start_generator host)
    unfolding start_generator
    start_generator-Moves idle rated = record {
      moves = λ s h.
          let same = ap (λ (g : RandomWalkGenerator random). g.running) h.generator in
          subst
            (λ e.
              Outcome ready host rate file all
                (record p { generator = (start random p.generator).1 }) p
                (launch host s e (start random s.generator).1))
            (sym (ap (λ g. (start random g).0) h.generator ∙ start-none p.generator rated))
            (branch ready host rate file all (s.generator.running || host.can_start generator)
              (λ made. inl (
                refl,
                turned h refl (refl, refl, refl, refl) (ap (λ g. (start random g).1) h.generator)
                    h.disseminator h.feedhandler,
              ))
              (λ refused. inr (
                no_thread generator
                    (or_false s.generator.running (host.can_start generator) refused),
                (λ e. idle),
                h,
              )));
    }
