-- ===== src/Config/Named.antt =====
-- What the options name, and how main ends for them.
use market_data_disseminatio.Base.Tests.{◌≡◌, ◌⊎◌, refl, ap, ◌∙◌, false, some}
use Prim.Native.String.{String}
use market_data_disseminatio.Config.{
  QueueWaitStrategy, spin, waitable, TransportProtocol, udp_multicast, zmq, UnderlyingQueue, custom,
  boost, BenchmarkConfig, Options, Pipeline, Ran, ending, strategy_of, underlying_of, transport_of,
  config_of, exit, main,
}
use market_data_disseminatio.Config.Dispatch.{IsSize, main_config_lem}

-- The word of the command line for an enumerator.
abbrev pub strategy_name : QueueWaitStrategy → String
strategy_name spin = "spin"
strategy_name waitable = "waitable"

abbrev pub underlying_name : UnderlyingQueue → String
underlying_name custom = "custom"
underlying_name boost = "boost"

abbrev pub transport_name : TransportProtocol → String
transport_name udp_multicast = "udp"
transport_name zmq = "zmq"

strategy_of-name : (q : QueueWaitStrategy) → strategy_of (strategy_name q) ≡ some q
unfolding strategy_of
strategy_of-name spin = refl
strategy_of-name waitable = refl

underlying_of-name : (u : UnderlyingQueue) → underlying_of (underlying_name u) ≡ some u
unfolding underlying_of
underlying_of-name custom = refl
underlying_of-name boost = refl

transport_of-name : (t : TransportProtocol) → transport_of (transport_name t) ≡ some t
unfolding transport_of
transport_of-name udp_multicast = refl
transport_of-name zmq = refl

-- The configuration of options whose names are those of the enumerators.
abbrev pub config_named :
    QueueWaitStrategy → UnderlyingQueue → TransportProtocol → Options → BenchmarkConfig
config_named strategy underlying protocol o = record {
  queue_strategy = strategy;
  transport = protocol;
  underlying_queue = underlying;
  queue_size = o.size;
  message_rate = o.rate;
  duration_sec = o.duration;
  ip_address = "239.192.1.1";
  port = 5555;
  symbols_file = o.symbols;
  out_dir = o.out;
}

config_of-named :
    (strategy : QueueWaitStrategy) (underlying : UnderlyingQueue) (protocol : TransportProtocol)
    (o : Options)
    → o.queue ≡ strategy_name strategy
    → o.underlying ≡ underlying_name underlying
    → o.transport ≡ transport_name protocol
    → config_of o ≡ some (config_named strategy underlying protocol o)
unfolding config_of
config_of-named strategy underlying protocol o queue queue_of transport =
    rw
      (
        ap strategy_of queue ∙ strategy_of-name strategy,
        ap underlying_of queue_of ∙ underlying_of-name underlying,
        ap transport_of transport ∙ transport_of-name protocol,
      )
      refl

-- Without help, for a wait strategy of the name "spin" or "waitable", an underlying queue of the name
-- "custom" or "boost" and a transport of the name "udp" or "zmq": if the size is one of the six, the process
-- ends as the benchmark makes it end that runs on the queue with the enumerators of these names and that
-- capacity, over that transport, with the rate, the duration, the symbols file and the output directory of
-- the options: with exit code 0 where it returns and 1 where it throws. For any other size it ends with exit
-- code 1.
pub main_lem :
    (run : Pipeline → BenchmarkConfig → Ran) (strategy : QueueWaitStrategy)
    (underlying : UnderlyingQueue) (protocol : TransportProtocol) (o : Options)
    → o.help ≡ false
    → o.queue ≡ strategy_name strategy
    → o.underlying ≡ underlying_name underlying
    → o.transport ≡ transport_name protocol
    → IsSize o.size
        × (main run o
            ≡ ending (
                run
                  (record {
                    underlying = underlying;
                    strategy = strategy;
                    capacity = o.size;
                    protocol = protocol;
                  })
                  (config_named strategy underlying protocol o)))
      ⊎ ¬ IsSize o.size × (main run o ≡ exit 1)
main_lem run strategy underlying protocol o h queue queue_of transport =
    main_config_lem run o h
      (config_of-named strategy underlying protocol o queue queue_of transport)
