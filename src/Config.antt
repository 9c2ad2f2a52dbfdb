-- ===== src/Config.antt =====
-- src/utils/config.h and the command line of src/main.cpp: main, dispatch_size and dispatch_types.
-- cxxopts is not modelled: the values that it returns for the options are an argument. What a
-- benchmark does once its queue and its transport are chosen is an argument too, `run`.
pub mod Dispatch
pub mod Named
mod Tests
use Prim.Native.String.{String}
use text.Mathlib.Text.{◌==◌ as str_eq}
use market_data_disseminatio.Base.Tests.{
  ℕ, ◌≡◌, Bool, true, false, Option, none, some, ◌==◌, if◌then◌else◌, ◌>>=◌,
}

pub data QueueWaitStrategy : Type 0 where
  spin waitable : QueueWaitStrategy

pub data TransportProtocol : Type 0 where
  udp_multicast zmq : TransportProtocol

pub data UnderlyingQueue : Type 0 where
  custom boost : UnderlyingQueue

pub record BenchmarkConfig : Type 0 where
  pub queue_strategy : QueueWaitStrategy
  pub transport : TransportProtocol
  pub underlying_queue : UnderlyingQueue
  pub queue_size : ℕ
  pub message_rate : ℕ
  pub duration_sec : ℕ
  pub ip_address : String
  pub port : ℕ
  pub symbols_file : String
  pub out_dir : String

-- The option values: `queue`, `size`, `transport`, `rate`, `duration`, `symbols`, `out`,
-- `underlying`, and whether `help` was given.
pub record Options : Type 0 where
  pub help : Bool
  pub queue : String
  pub size : ℕ
  pub transport : String
  pub rate : ℕ
  pub duration : ℕ
  pub symbols : String
  pub out : String
  pub underlying : String

-- The names of the enumerators; `none` where main throws `std::invalid_argument`.
unfoldable pub strategy_of : String → Option QueueWaitStrategy
strategy_of s =
    if str_eq s "spin" then some spin else if str_eq s "waitable" then some waitable else none

unfoldable pub underlying_of : String → Option UnderlyingQueue
underlying_of s =
    if str_eq s "custom" then some custom else if str_eq s "boost" then some boost else none

unfoldable pub transport_of : String → Option TransportProtocol
transport_of s =
    if str_eq s "udp" then some udp_multicast else if str_eq s "zmq" then some zmq else none

-- The part of main that fills the configuration in, its tests in order.
unfoldable pub config_of : Options → Option BenchmarkConfig
config_of o = do
  strategy ← strategy_of o.queue
  underlying ← underlying_of o.underlying
  protocol ← transport_of o.transport
  some (record {
    queue_strategy = strategy;
    transport = protocol;
    underlying_queue = underlying;
    queue_size = o.size;
    message_rate = o.rate;
    duration_sec = o.duration;
    ip_address = "239.192.1.1";
    port = 5555;
    symbols_file = o.symbols;
    out_dir = o.out;
  })

-- What dispatch_types builds: the queue's type with its capacity, and the transport.
pub record Pipeline : Type 0 where
  pub underlying : UnderlyingQueue
  pub strategy : QueueWaitStrategy
  pub capacity : ℕ
  pub protocol : TransportProtocol

-- The branches of dispatch_types<Size>, as the source nests them.
unfoldable pub dispatch_types : ℕ → BenchmarkConfig → Pipeline
dispatch_types size config = elim config.underlying_queue [
  | custom ↦ elim config.queue_strategy [
    | spin ↦ elim config.transport [
      | udp_multicast ↦ record {
        underlying = custom;
        strategy = spin;
        capacity = size;
        protocol = udp_multicast;
      }
      | zmq ↦ record { underlying = custom; strategy = spin; capacity = size; protocol = zmq }
    ]
    | waitable ↦ elim config.transport [
      | udp_multicast ↦ record {
        underlying = custom;
        strategy = waitable;
        capacity = size;
        protocol = udp_multicast;
      }
      | zmq ↦ record { underlying = custom; strategy = waitable; capacity = size; protocol = zmq }
    ]
  ]
  | boost ↦ elim config.queue_strategy [
    | spin ↦ elim config.transport [
      | udp_multicast ↦ record {
        underlying = boost;
        strategy = spin;
        capacity = size;
        protocol = udp_multicast;
      }
      | zmq ↦ record { underlying = boost; strategy = spin; capacity = size; protocol = zmq }
    ]
    | waitable ↦ elim config.transport [
      | udp_multicast ↦ record {
        underlying = boost;
        strategy = waitable;
        capacity = size;
        protocol = udp_multicast;
      }
      | zmq ↦ record { underlying = boost; strategy = waitable; capacity = size; protocol = zmq }
    ]
  ]
]

-- The switch over the size; `none` where it throws `std::invalid_argument`.
unfoldable pub dispatch_size : BenchmarkConfig → Option Pipeline
dispatch_size config =
    if config.queue_size == 128
    then some (dispatch_types 128 config)
    else if config.queue_size == 512
    then some (dispatch_types 512 config)
    else if config.queue_size == 1024
    then some (dispatch_types 1024 config)
    else if config.queue_size == 4096
    then some (dispatch_types 4096 config)
    else if config.queue_size == 16384
    then some (dispatch_types 16384 config)
    else if config.queue_size == 65536
    then some (dispatch_types 65536 config)
    else none

-- How a benchmark ends: it returns, it throws a `std::exception`, it never ends, its behaviour is
-- undefined, or it calls `std::terminate`.
pub data Ran : Type 0 where
  returned threw unending undefined terminated : Ran

-- How the process ends: an exit code, an exception that no handler catches or that leaves a destructor,
-- never, or in any way.
pub data Ending : Type 0 where
  exit : ℕ → Ending
  uncaught never anyhow : Ending

-- The try block of main around a benchmark.
abbrev pub ending : Ran → Ending
ending returned = exit 0
ending threw = exit 1
ending unending = never
ending undefined = anyhow
ending terminated = uncaught

-- The try block around dispatch_size, with the benchmark that it runs.
unfoldable pub guarded : (Pipeline → BenchmarkConfig → Ran) → BenchmarkConfig → Ending
guarded run config = elim (dispatch_size config) [ none ↦ exit 1 | some p ↦ ending (run p config) ]

unfoldable pub main : (Pipeline → BenchmarkConfig → Ran) → Options → Ending
main run o =
    if o.help
    then exit 0
    else (elim (config_of o) [ none ↦ uncaught | some config ↦ guarded run config ])
