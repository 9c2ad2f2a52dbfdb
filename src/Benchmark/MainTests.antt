-- ===== src/Benchmark/MainTests.antt =====
-- The program with the options that it has by default, and with `zmq` in place of `udp`.
use mathlib.Core.List.{flatten}
use Prim.Native.String.{String}
use market_data_disseminatio.Base.Handles.{Same}
use market_data_disseminatio.Base.Tests.{ℕ, ◌≡◌, inl, inr, refl, false, some, arith}
use market_data_disseminatio.Sockets.Udp.{
  built, new_udp_disseminator, set_multicast, new_udp_feed_handler, bind_socket, join_group,
  make_nonblocking,
}
use market_data_disseminatio.Sockets.Opened.{Unchanged}
use market_data_disseminatio.Sockets.Toy.{toy, toy-IsOs, none_open}
use market_data_disseminatio.Sockets.Zmq.{
  new_zmq_disseminator, bind_pub, new_zmq_feed_handler, connect_sub,
}
use market_data_disseminatio.Sockets.ZmqToy.{
  toy as zmq_toy, toy-IsZmq, toy-Obliging, none_open as no_socket,
}
use market_data_disseminatio.Config.{
  BenchmarkConfig, Options, custom, spin, udp_multicast, zmq, config_of, strategy_of, underlying_of,
  transport_of, exit, main,
}
use market_data_disseminatio.Benchmark.Tests.{file, least, generator as unset}
use market_data_disseminatio.Benchmark.PipelineTests.{able, calls, symbols_some}
use market_data_disseminatio.Benchmark.Udp.{Stage}
use market_data_disseminatio.Benchmark.Pipeline.{Wrote}
use market_data_disseminatio.Benchmark.Run.{Run}
use market_data_disseminatio.Benchmark.Zmq.{zmq_bind, zmq_subscriber}
use market_data_disseminatio.Benchmark.Main.{
  dispatched_udp, dispatched_zmq, benchmark, main_udp, main_zmq,
}

abbrev pub options : Options
options = record {
  help = false;
  queue = "spin";
  size = 1024;
  transport = "udp";
  rate = 10000;
  duration = 10;
  symbols = "tickers.txt";
  out = "data";
  underlying = "custom";
}

abbrev pub config : BenchmarkConfig
config = record {
  queue_strategy = spin;
  transport = udp_multicast;
  underlying_queue = custom;
  queue_size = 1024;
  message_rate = 10000;
  duration_sec = 10;
  ip_address = "239.192.1.1";
  port = 5555;
  symbols_file = "tickers.txt";
  out_dir = "data";
}

pub config_of-options : config_of options ≡ some config
unfolding config_of strategy_of underlying_of transport_of
config_of-options = refl

sender_built :
    (new_udp_disseminator toy "239.192.1.1" 5555 none_open).0
    ≡ built (record { sock = 3; dest_port = 5555; dest_addr = 0xEF000001 })
unfolding new_udp_disseminator set_multicast
sender_built = refl

handler_built :
    (new_udp_feed_handler toy "239.192.1.1" 5555
      (new_udp_disseminator toy "239.192.1.1" 5555 none_open).1).0
    ≡ built (record { sock = 4 })
unfolding new_udp_disseminator set_multicast new_udp_feed_handler bind_socket join_group
    make_nonblocking
handler_built = refl

-- `std::to_string` of the one port.
abbrev pub port_text : ℕ → String
port_text port = "5555"

abbrev stage : Stage least toy
stage =
    dispatched_udp toy zmq_toy able port_text (λ name. some file) unset calls none_open no_socket
      config

main_udp_example :
    (main
        (benchmark toy zmq_toy able port_text (λ name. some file) unset calls none_open no_socket)
        options
      ≡ exit 0)
    × ((stage.run.now.generator.running ≡ false)
        × (stage.run.now.disseminator ≡ false)
        × (stage.run.now.feedhandler ≡ false))
    × Wrote (flatten calls) stage.run.now
    × Unchanged toy none_open stage.system
main_udp_example =
    main_udp toy zmq_toy able port_text (λ name. some file) unset calls none_open no_socket toy-IsOs
      refl options refl config_of-options (inr (inr (inl refl))) refl (sender_built, handler_built)
      refl (omega arith) symbols_some (λ part. refl) (λ part. refl)

-- The same options, over ZeroMQ.
abbrev pub zmq_options : Options
zmq_options = record options { transport = "zmq" }

abbrev pub zmq_config : BenchmarkConfig
zmq_config = record config { transport = zmq }

pub config_of-zmq_options : config_of zmq_options ≡ some zmq_config
unfolding config_of strategy_of underlying_of transport_of
config_of-zmq_options = refl

publisher_made : (new_zmq_disseminator zmq_toy (zmq_bind port_text 5555) no_socket).0 ≡ some 7
unfolding new_zmq_disseminator bind_pub
publisher_made = refl

listener_made :
    (new_zmq_feed_handler zmq_toy
      (zmq_bind port_text 5555)
      (new_zmq_disseminator zmq_toy (zmq_bind port_text 5555) no_socket).1).0
    ≡ some 8
unfolding new_zmq_disseminator bind_pub new_zmq_feed_handler connect_sub
listener_made = refl

abbrev zmq_run : Run least (zmq_subscriber zmq_toy)
zmq_run =
    dispatched_zmq toy zmq_toy able port_text (λ name. some file) unset calls none_open no_socket
      zmq_config

main_zmq_example :
    (main
        (benchmark toy zmq_toy able port_text (λ name. some file) unset calls none_open no_socket)
        zmq_options
      ≡ exit 0)
    × ((zmq_run.now.generator.running ≡ false)
        × (zmq_run.now.disseminator ≡ false)
        × (zmq_run.now.feedhandler ≡ false))
    × Wrote (flatten calls) zmq_run.now
    × Same zmq_toy.look no_socket zmq_run.now.subscriptions.system
main_zmq_example =
    main_zmq toy zmq_toy able port_text (λ name. some file) unset calls none_open no_socket
      toy-IsZmq toy-Obliging refl zmq_options refl config_of-zmq_options (inr (inr (inl refl))) refl
      (publisher_made, listener_made) refl (omega arith) symbols_some (λ part. refl) (λ part. refl)
