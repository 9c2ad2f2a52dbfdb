-- ===== src/Benchmark/MainRefused.antt =====
-- main of src/main.cpp where a socket cannot be made or set up.
use Prim.Native.String.{String}
use market_data_disseminatio.Base.Tests.{
  ℕ, ◌≡◌, ◌⊎◌, refl, ap, ◌∙◌, Option, none, some, List, false,
}
use market_data_disseminatio.Base.Handles.{Same}
use market_data_disseminatio.Types.{MarketDataMsg}
use market_data_disseminatio.Queue.{fresh}
use market_data_disseminatio.Generator.{Random, RandomWalkGenerator}
use market_data_disseminatio.Sockets.{Os, IsOs, Descriptor}
use market_data_disseminatio.Sockets.Owned.{Owns}
use market_data_disseminatio.Sockets.Udp.{
  SocketError, built, threw, UdpDisseminator, new_udp_feed_handler, new_udp_disseminator,
}
use market_data_disseminatio.Sockets.Opened.{Unchanged}
use market_data_disseminatio.Sockets.Zmq.{Zmq, IsZmq, new_zmq_disseminator, new_zmq_feed_handler}
use market_data_disseminatio.Config.{
  Options, BenchmarkConfig, udp_multicast, zmq, config_of, ending, exit, main,
}
use market_data_disseminatio.Config.Dispatch.{IsSize}
use market_data_disseminatio.Benchmark.{udp_subscriber}
use market_data_disseminatio.Benchmark.Threads.{Host}
use market_data_disseminatio.Benchmark.Zmq.{ZmqSide, zmq_bind, zmq_subscriber}
use market_data_disseminatio.Benchmark.Refused.{dispatch_udp-IsRefused}
use market_data_disseminatio.Benchmark.RefusedZmq.{dispatch_zmq-IsRefused}
use market_data_disseminatio.Benchmark.Main.{
  ran_of, at_rest, dispatched_udp, dispatched_zmq, by_transport, benchmark, main-benchmark,
}

module _ {random : Random} (os : Os) (z : Zmq) (host : Host) (to_string : ℕ → String)
    (files : String → Option (List ℕ)) (g : RandomWalkGenerator random)
    (incoming : List (List (MarketDataMsg × ℕ))) (system : os.State) (zmq_system : z.State) where
  -- Without help, for options of known names, one of the six sizes and UDP, if the constructor of the
  -- disseminator or of the feed handler throws, the process ends with exit code 1: no thread was made and
  -- no file was written, and every descriptor is open or closed as before, or one more is open.
  pub main_udp_refused :
      IsOs os
      → (o : Options) {config : BenchmarkConfig} → o.help ≡ false
      → config_of o ≡ some config
      → IsSize o.size
      → config.transport ≡ udp_multicast
      → (let made = new_udp_disseminator os config.ip_address config.port system in
          ((e : SocketError) × (made.0 ≡ threw e))
          ⊎ ((u : UdpDisseminator) × (e : SocketError) × (made.0 ≡ built u)
              × ((new_udp_feed_handler os config.ip_address config.port made.1).0 ≡ threw e)))
      → (main (benchmark os z host to_string files g incoming system zmq_system) o ≡ exit 1)
        × ((dispatched_udp os z host to_string files g incoming system zmq_system config).run.now
            ≡ at_rest udp_subscriber fresh g incoming)
        × (Unchanged os system
              (dispatched_udp os z host to_string files g incoming system zmq_system config).system
            ⊎ ((fd : ℕ) × (d : Descriptor) × Owns os system fd d
                  (dispatched_udp os z host to_string files g incoming system zmq_system
                    config).system))
  main_udp_refused v o {config} help named size udp refused =
      let out =
        dispatch_udp-IsRefused os v host config.message_rate (files config.symbols_file)
          (at_rest udp_subscriber fresh g incoming) config.ip_address config.port system refl refl
          refused in
      (
        main-benchmark os z host to_string files g incoming system zmq_system o help named size
            ∙ ap
                (λ protocol. ending (
                  by_transport os z host to_string files g incoming system zmq_system protocol
                    config))
                udp
            ∙ ap (λ status. ending (ran_of status)) out.threw_out,
        out.untouched,
        out.left,
      )

  -- The same over ZeroMQ, where no socket stays open: the process ends with exit code 1, no thread was made
  -- and no file was written, and every socket is open or closed as before.
  pub main_zmq_refused :
      IsZmq z
      → (o : Options) {config : BenchmarkConfig} → o.help ≡ false
      → config_of o ≡ some config
      → IsSize o.size
      → config.transport ≡ zmq
      → (let made = new_zmq_disseminator z (zmq_bind to_string config.port) zmq_system in
          (made.0 ≡ none)
          ⊎ ((h : ℕ) × (made.0 ≡ some h)
              × ((new_zmq_feed_handler z (zmq_bind to_string config.port) made.1).0 ≡ none)))
      → (main (benchmark os z host to_string files g incoming system zmq_system) o ≡ exit 1)
        × ((last : z.State) × ((dispatched_zmq os z host to_string files g incoming system
                zmq_system config).now
              ≡ at_rest
                  (zmq_subscriber z)
                  (record { multicast_sub = none; system = last })
                  g
                  incoming)
            × Same z.look zmq_system last)
  main_zmq_refused v o {config} help named size over_zmq refused =
      let side : ZmqSide z = record { multicast_sub = none; system = zmq_system } in
      let out =
        dispatch_zmq-IsRefused z v host config.message_rate (files config.symbols_file)
          (at_rest (zmq_subscriber z) side g incoming) (zmq_bind to_string config.port) refl refl
          refused in
      (
        main-benchmark os z host to_string files g incoming system zmq_system o help named size
            ∙ ap
                (λ protocol. ending (
                  by_transport os z host to_string files g incoming system zmq_system protocol
                    config))
                over_zmq
            ∙ ap (λ status. ending (ran_of status)) out.threw_out,
        (out.system, out.untouched, out.same),
      )
