-- ===== src/Benchmark/Main.antt =====
-- main of src/main.cpp with the benchmarks that dispatch_types runs over UDP and over ZeroMQ. The contents of
-- the symbols file are an argument.
use mathlib.Core.List.{flatten}
use Prim.Native.String.{String}
use market_data_disseminatio.Base.Tests.{
  ℕ, ◌<◌, ◌≡◌, ◌≢◌, inl, inr, refl, ap, ◌∙◌, true, false, Option, none, some, List, [],
}
use market_data_disseminatio.Symbols.{read_symbols_file}
use market_data_disseminatio.Base.Handles.{Same}
use market_data_disseminatio.Types.{MarketDataMsg}
use market_data_disseminatio.Queue.{fresh}
use market_data_disseminatio.Generator.{Random, RandomWalkGenerator}
use market_data_disseminatio.Sockets.Zmq.{Zmq, IsZmq, new_zmq_disseminator, new_zmq_feed_handler}
use market_data_disseminatio.Sockets.ZmqClosed.{Obliging}
use market_data_disseminatio.Benchmark.{Subscriber, udp_subscriber}
use market_data_disseminatio.Benchmark.Run.{Run}
use market_data_disseminatio.Benchmark.Zmq.{ZmqSide, zmq_bind, zmq_subscriber, dispatch_zmq}
use market_data_disseminatio.Benchmark.WholeZmq.{dispatch_zmq-returns}
use market_data_disseminatio.Sockets.{Os, IsOs}
use market_data_disseminatio.Sockets.Udp.{
  built, UdpFeedHandler, UdpDisseminator, new_udp_feed_handler, new_udp_disseminator,
}
use market_data_disseminatio.Sockets.Opened.{Unchanged}
use market_data_disseminatio.Config.{
  BenchmarkConfig, Options, Pipeline, TransportProtocol, udp_multicast, zmq, config_of, Ran,
  returned, threw, unending, undefined, terminated, ending, exit, main,
}
use market_data_disseminatio.Config.Dispatch.{IsSize, main_config_lem}
use market_data_disseminatio.Benchmark.Threads.{
  Status, going, throwing, blocked, dangling, terminating, Part, Host, Process,
}
use market_data_disseminatio.Benchmark.Udp.{Stage, dispatch_udp}
use market_data_disseminatio.Benchmark.Pipeline.{IsIdle, Wrote}
use market_data_disseminatio.Benchmark.Whole.{dispatch_udp-returns}

abbrev pub ran_of : Status → Ran
ran_of going = returned
ran_of throwing = threw
ran_of blocked = unending
ran_of dangling = undefined
ran_of terminating = terminated

-- A process before its benchmark.
abbrev pub at_rest :
    {random : Random} (subscriber : Subscriber)
    → subscriber.State
    → RandomWalkGenerator random
    → List (List (MarketDataMsg × ℕ))
    → Process random subscriber
at_rest subscriber subscriptions g incoming = record {
  generator = g;
  disseminator = false;
  feedhandler = false;
  subscriptions = subscriptions;
  sub_count = 0;
  monitor = none;
  csv = none;
  incoming = incoming;
}

module _ {random : Random} (subscriber : Subscriber) (subscriptions : subscriber.State)
    (g : RandomWalkGenerator random) (incoming : List (List (MarketDataMsg × ℕ))) where
  at_rest-IsIdle : g.running ≡ false → IsIdle (at_rest subscriber subscriptions g incoming)
  at_rest-IsIdle off = record {
    generator = off;
    disseminator = refl;
    feedhandler = refl;
    monitor = refl;
    csv = refl;
  }

module _ {random : Random} (os : Os) (z : Zmq) (host : Host) (to_string : ℕ → String)
    (files : String → Option (List ℕ)) (g : RandomWalkGenerator random)
    (incoming : List (List (MarketDataMsg × ℕ))) (system : os.State) (zmq_system : z.State) where
  -- dispatch_types over UDP and over ZeroMQ for a configuration.
  abbrev pub dispatched_udp : BenchmarkConfig → Stage random os
  dispatched_udp config =
      dispatch_udp os host config.message_rate (files config.symbols_file)
        (at_rest udp_subscriber fresh g incoming) config.ip_address config.port system

  abbrev pub dispatched_zmq : BenchmarkConfig → Run random (zmq_subscriber z)
  dispatched_zmq config =
      dispatch_zmq z host config.message_rate (files config.symbols_file)
        (at_rest (zmq_subscriber z) (record { multicast_sub = none; system = zmq_system }) g
          incoming)
        (zmq_bind to_string config.port)

  abbrev pub by_transport : TransportProtocol → BenchmarkConfig → Ran
  by_transport udp_multicast config = ran_of (dispatched_udp config).run.status
  by_transport zmq config = ran_of (dispatched_zmq config).status

  abbrev pub benchmark : Pipeline → BenchmarkConfig → Ran
  benchmark p config = by_transport p.protocol config

  pub main-benchmark :
      (o : Options) {config : BenchmarkConfig}
      → o.help ≡ false
      → config_of o ≡ some config
      → IsSize o.size
      → main benchmark o ≡ ending (by_transport config.transport config)
  main-benchmark o help named size = elim (main_config_lem benchmark o help named) [
    | inl (accepted, ends) ↦ ends
    | inr (refused, ends) ↦ absurd (refused size)
  ]

  -- Without help, for options of known names, one of the six sizes and UDP, if the sockets of the two
  -- parts can be made and set up, the directory and all threads can be made, the rate is at least 1, the
  -- symbols file has a symbol and every loop returns that is asked to stop, the process ends with exit
  -- code 0: no thread is left, every descriptor is open or closed as before, and the files hold the
  -- latencies of just the calls that came, in order.
  pub main_udp :
      IsOs os
      → g.running ≡ false
      → (o : Options) {config : BenchmarkConfig} {u : UdpDisseminator} {h : UdpFeedHandler}
      → o.help ≡ false
      → config_of o ≡ some config
      → IsSize o.size
      → config.transport ≡ udp_multicast
      → (let made = new_udp_disseminator os config.ip_address config.port system in
          (made.0 ≡ built u)
          × ((new_udp_feed_handler os config.ip_address config.port made.1).0 ≡ built h))
      → host.directory ≡ true
      → 0 < config.message_rate
      → read_symbols_file (files config.symbols_file) ≢ []
      → ((part : Part) → host.can_start part ≡ true)
      → ((part : Part) → host.returns part ≡ true)
      → (main benchmark o ≡ exit 0)
        × (((dispatched_udp config).run.now.generator.running ≡ false)
            × ((dispatched_udp config).run.now.disseminator ≡ false)
            × ((dispatched_udp config).run.now.feedhandler ≡ false))
        × Wrote (flatten incoming) (dispatched_udp config).run.now
        × Unchanged os system (dispatched_udp config).system
  main_udp v idle o {config} help named size udp (sends, hears) directory positive symbols starts
        returns =
      let (went, stopped, wrote, closed) =
        dispatch_udp-returns os v host config.message_rate (files config.symbols_file)
          (at_rest udp_subscriber fresh g incoming) config.ip_address config.port system
          (at_rest-IsIdle udp_subscriber fresh g incoming idle) sends hears directory positive
          symbols starts returns in
      (
        main-benchmark o help named size
            ∙ ap (λ protocol. ending (by_transport protocol config)) udp
            ∙ ap (λ status. ending (ran_of status)) went,
        stopped,
        wrote,
        closed,
      )

  -- The same over ZeroMQ, if no option is refused on an open socket: the process ends with exit code 0,
  -- no thread is left, every socket is open or closed as before, and the files hold the latencies of just
  -- the calls that came, in order.
  pub main_zmq :
      IsZmq z
      → Obliging z
      → g.running ≡ false
      → (o : Options) {config : BenchmarkConfig} {h sub : ℕ} → o.help ≡ false
      → config_of o ≡ some config
      → IsSize o.size
      → config.transport ≡ zmq
      → (let made = new_zmq_disseminator z (zmq_bind to_string config.port) zmq_system in
          (made.0 ≡ some h)
          × ((new_zmq_feed_handler z (zmq_bind to_string config.port) made.1).0 ≡ some sub))
      → host.directory ≡ true
      → 0 < config.message_rate
      → read_symbols_file (files config.symbols_file) ≢ []
      → ((part : Part) → host.can_start part ≡ true)
      → ((part : Part) → host.returns part ≡ true)
      → (main benchmark o ≡ exit 0)
        × (((dispatched_zmq config).now.generator.running ≡ false)
            × ((dispatched_zmq config).now.disseminator ≡ false)
            × ((dispatched_zmq config).now.feedhandler ≡ false))
        × Wrote (flatten incoming) (dispatched_zmq config).now
        × Same z.look zmq_system (dispatched_zmq config).now.subscriptions.system
  main_zmq v obliging idle o {config} help named size over_zmq (sends, hears) directory positive
        symbols starts returns =
      let side : ZmqSide z = record { multicast_sub = none; system = zmq_system } in
      let (went, stopped, wrote, closed) =
        dispatch_zmq-returns z v host config.message_rate (files config.symbols_file)
          (at_rest (zmq_subscriber z) side g incoming) (zmq_bind to_string config.port) obliging
          (at_rest-IsIdle (zmq_subscriber z) side g incoming idle) sends hears directory positive
          symbols starts returns in
      (
        main-benchmark o help named size
            ∙ ap (λ protocol. ending (by_transport protocol config)) over_zmq
            ∙ ap (λ status. ending (ran_of status)) went,
        stopped,
        wrote,
        closed,
      )
