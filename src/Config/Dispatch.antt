-- ===== src/Config/Dispatch.antt =====
-- Which configurations run, and on what queue.
use text.Mathlib.TextEquality.{eq_iff}
use market_data_disseminatio.Base.Tests.{
  ℕ, ◌≡◌, ◌≢◌, ◌⊎◌, inl, inr, refl, sym, ap, subst, ◌∙◌, Option-cases, false, none, some, arith,
}
use market_data_disseminatio.Queue.Refine.{IsCapacity}
use market_data_disseminatio.Config.{
  BenchmarkConfig, Options, Pipeline, Ran, ending, strategy_of, underlying_of, transport_of,
  config_of, dispatch_types, dispatch_size, exit, uncaught, guarded, main,
}

-- dispatch_types builds what the configuration names.
dispatch_types_lem :
    (size : ℕ) (config : BenchmarkConfig)
    → dispatch_types size config ≡ record {
      underlying = config.underlying_queue;
      strategy = config.queue_strategy;
      capacity = size;
      protocol = config.transport;
    }
unfolding dispatch_types
dispatch_types_lem size config = ground arith

-- The sizes of the switch.
abbrev pub IsSize : ℕ → Type 0
IsSize n = (n ≡ 128) ⊎ (n ≡ 512) ⊎ (n ≡ 1024) ⊎ (n ≡ 4096) ⊎ (n ≡ 16384) ⊎ (n ≡ 65536)

IsSize-IsCapacity : {n : ℕ} → IsSize n → IsCapacity n
IsSize-IsCapacity (inl e) =
    rw e (record { positive = omega arith; small = omega arith; divides = refl })
IsSize-IsCapacity (inr (inl e)) =
    rw e (record { positive = omega arith; small = omega arith; divides = refl })
IsSize-IsCapacity (inr (inr (inl e))) =
    rw e (record { positive = omega arith; small = omega arith; divides = refl })
IsSize-IsCapacity (inr (inr (inr (inl e)))) =
    rw e (record { positive = omega arith; small = omega arith; divides = refl })
IsSize-IsCapacity (inr (inr (inr (inr (inl e))))) =
    rw e (record { positive = omega arith; small = omega arith; divides = refl })
IsSize-IsCapacity (inr (inr (inr (inr (inr e))))) =
    rw e (record { positive = omega arith; small = omega arith; divides = refl })

-- The pipeline that a configuration names.
abbrev pub pipeline_of : BenchmarkConfig → Pipeline
pipeline_of config = record {
  underlying = config.underlying_queue;
  strategy = config.queue_strategy;
  capacity = config.queue_size;
  protocol = config.transport;
}

dispatch_size_cases :
    (config : BenchmarkConfig) {p : Pipeline}
    → dispatch_size config ≡ some p
    → IsSize config.queue_size × (p ≡ pipeline_of config)
unfolding dispatch_size
dispatch_size_cases config h = ground (
  arith,
  dispatch_types_lem 128 config,
  dispatch_types_lem 512 config,
  dispatch_types_lem 1024 config,
  dispatch_types_lem 4096 config,
  dispatch_types_lem 16384 config,
  dispatch_types_lem 65536 config,
)

-- Where dispatch_size accepts a configuration, its size is one of the six, the queue, the wait
-- strategy, the capacity and the transport are those of the configuration, and the capacity is one for
-- which CustomSpscQueue keeps its order across the wrap of its counters.
pub dispatch_size-some :
    (config : BenchmarkConfig) {p : Pipeline}
    → dispatch_size config ≡ some p
    → IsSize config.queue_size × (p ≡ pipeline_of config) × IsCapacity p.capacity
dispatch_size-some config h =
    let (size, same) = dispatch_size_cases config h in
    (
      size,
      same,
      subst IsCapacity (sym (ap (λ (q : Pipeline). q.capacity) same)) (IsSize-IsCapacity size),
    )

-- Every one of the six sizes is accepted.
pub dispatch_size-IsSize :
    (config : BenchmarkConfig)
    → IsSize config.queue_size
    → dispatch_size config ≡ some (pipeline_of config)
unfolding dispatch_size
dispatch_size-IsSize config (inl e) = ground (arith, dispatch_types_lem 128 config)
dispatch_size-IsSize config (inr (inl e)) = ground (arith, dispatch_types_lem 512 config)
dispatch_size-IsSize config (inr (inr (inl e))) = ground (arith, dispatch_types_lem 1024 config)
dispatch_size-IsSize config (inr (inr (inr (inl e)))) =
    ground (arith, dispatch_types_lem 4096 config)
dispatch_size-IsSize config (inr (inr (inr (inr (inl e))))) =
    ground (arith, dispatch_types_lem 16384 config)
dispatch_size-IsSize config (inr (inr (inr (inr (inr e))))) =
    ground (arith, dispatch_types_lem 65536 config)

-- A wait strategy, an underlying queue or a transport of another name ends the process by an exception
-- that nothing catches, before any benchmark, and not with the exit code 1 of the handler.
pub main_uncaught :
    (run : Pipeline → BenchmarkConfig → Ran) (o : Options)
    → o.help ≡ false
    → ((o.queue ≢ "spin") × (o.queue ≢ "waitable"))
      ⊎ ((o.underlying ≢ "custom") × (o.underlying ≢ "boost"))
      ⊎ ((o.transport ≢ "udp") × (o.transport ≢ "zmq"))
    → main run o ≡ uncaught
unfolding main config_of strategy_of underlying_of transport_of
main_uncaught run o h bad = ground (
  arith,
  eq_iff o.queue "spin",
  eq_iff o.queue "waitable",
  eq_iff o.underlying "custom",
  eq_iff o.underlying "boost",
  eq_iff o.transport "udp",
  eq_iff o.transport "zmq",
)

config-size :
    (o : Options) {config : BenchmarkConfig}
    → config_of o ≡ some config
    → config.queue_size ≡ o.size
unfolding config_of
config-size o e = ground arith

main-guarded :
    (run : Pipeline → BenchmarkConfig → Ran) (o : Options) {config : BenchmarkConfig}
    → o.help ≡ false
    → config_of o ≡ some config
    → main run o ≡ guarded run config
unfolding main
main-guarded run o h e = ground arith

guarded-none :
    (run : Pipeline → BenchmarkConfig → Ran) (config : BenchmarkConfig)
    → dispatch_size config ≡ none
    → guarded run config ≡ exit 1
unfolding guarded
guarded-none run config e = ground arith

guarded-some :
    (run : Pipeline → BenchmarkConfig → Ran) (config : BenchmarkConfig) {p : Pipeline}
    → dispatch_size config ≡ some p
    → guarded run config ≡ ending (run p config)
unfolding guarded
guarded-some run config e = ground arith

-- Behind the configuration: the process ends as its pipeline makes it end, or with exit code 1.
pub main_config_lem :
    (run : Pipeline → BenchmarkConfig → Ran) (o : Options) {config : BenchmarkConfig}
    → o.help ≡ false
    → config_of o ≡ some config
    → IsSize o.size × (main run o ≡ ending (run (pipeline_of config) config))
      ⊎ ¬ IsSize o.size × (main run o ≡ exit 1)
main_config_lem run o {config} h e = elim (Option-cases (dispatch_size config)) [
  | inl refused ↦ inr (
    (λ size. cc (refused, dispatch_size-IsSize config (subst IsSize (sym (config-size o e)) size))),
    main-guarded run o h e ∙ guarded-none run config refused,
  )
  | inr (p, found) ↦
      let (size, same) = dispatch_size_cases config found in
      inl (
        subst IsSize (config-size o e) size,
        main-guarded run o h e ∙ guarded-some run config (found ∙ ap some same),
      )
]
