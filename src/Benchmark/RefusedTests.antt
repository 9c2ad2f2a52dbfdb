-- ===== src/Benchmark/RefusedTests.antt =====
-- The program where the second socket cannot be made.
use market_data_disseminatio.Base.Tests.{
  ℕ, ◌≡◌, ◌⊎◌, inl, inr, refl, Option, none, some, [], ◌==◌, if◌then◌else◌,
}
use market_data_disseminatio.Base.Handles.{Same}
use market_data_disseminatio.Queue.{fresh}
use market_data_disseminatio.Sockets.{Descriptor}
use market_data_disseminatio.Sockets.Owned.{Owns}
use market_data_disseminatio.Sockets.Udp.{
  create_failed, built, threw, new_udp_disseminator, set_multicast, new_udp_feed_handler,
}
use market_data_disseminatio.Sockets.Opened.{Unchanged}
use market_data_disseminatio.Sockets.Toy.{new, toy, toy-IsOs, none_open}
use market_data_disseminatio.Sockets.Zmq.{
  sub_socket, ZmqSocket, new_zmq_disseminator, bind_pub, new_zmq_feed_handler,
}
use market_data_disseminatio.Sockets.ZmqToy.{toy as zmq_toy, toy-IsZmq, none_open as no_socket}
use market_data_disseminatio.Config.{exit, main}
use market_data_disseminatio.Benchmark.{udp_subscriber}
use market_data_disseminatio.Benchmark.Tests.{file, generator as unset}
use market_data_disseminatio.Benchmark.PipelineTests.{able, calls}
use market_data_disseminatio.Benchmark.Zmq.{zmq_bind, zmq_subscriber}
use market_data_disseminatio.Benchmark.Main.{at_rest, dispatched_udp, dispatched_zmq, benchmark}
use market_data_disseminatio.Benchmark.MainRefused.{main_udp_refused, main_zmq_refused}
use market_data_disseminatio.Benchmark.MainTests.{
  options, config, config_of-options, zmq_options, zmq_config, config_of-zmq_options, port_text,
}

-- One of the two descriptors is taken.
abbrev one_open : ℕ → Option Descriptor
one_open k = if k == 3 then some new else none

sender_built :
    (new_udp_disseminator toy "239.192.1.1" 5555 one_open).0
    ≡ built (record { sock = 4; dest_port = 5555; dest_addr = 0xEF000001 })
unfolding new_udp_disseminator set_multicast
sender_built = refl

handler_refused :
    (new_udp_feed_handler toy "239.192.1.1" 5555
      (new_udp_disseminator toy "239.192.1.1" 5555 one_open).1).0
    ≡ threw create_failed
unfolding new_udp_disseminator set_multicast new_udp_feed_handler
handler_refused = refl

main_udp_refused_example :
    (main
        (benchmark toy zmq_toy able port_text (λ name. some file) unset calls one_open no_socket)
        options
      ≡ exit 1)
    × ((dispatched_udp toy zmq_toy able port_text
          (λ name. some file)
          unset
          calls
          one_open
          no_socket
          config).run.now
        ≡ at_rest udp_subscriber fresh unset calls)
    × (Unchanged toy one_open
          (dispatched_udp toy zmq_toy able port_text
            (λ name. some file)
            unset
            calls
            one_open
            no_socket
            config).system
        ⊎ ((fd : ℕ) × (d : Descriptor) × Owns toy one_open fd d
              (dispatched_udp toy zmq_toy able port_text
                (λ name. some file)
                unset
                calls
                one_open
                no_socket
                config).system))
main_udp_refused_example =
    main_udp_refused toy zmq_toy able port_text (λ name. some file) unset calls one_open no_socket
      toy-IsOs options refl config_of-options (inr (inr (inl refl))) refl
      (inr (_, create_failed, sender_built, handler_refused))

-- The subscriber's place is taken.
abbrev one_socket : ℕ → Option ZmqSocket
one_socket k =
    if k == 8
    then some (record { kind = sub_socket; bound = none; connected = none; options = [] })
    else none

publisher_made : (new_zmq_disseminator zmq_toy (zmq_bind port_text 5555) one_socket).0 ≡ some 7
unfolding new_zmq_disseminator bind_pub
publisher_made = refl

listener_refused :
    (new_zmq_feed_handler zmq_toy
      (zmq_bind port_text 5555)
      (new_zmq_disseminator zmq_toy (zmq_bind port_text 5555) one_socket).1).0
    ≡ none
unfolding new_zmq_disseminator bind_pub new_zmq_feed_handler
listener_refused = refl

main_zmq_refused_example :
    (main
        (benchmark toy zmq_toy able port_text (λ name. some file) unset calls none_open one_socket)
        zmq_options
      ≡ exit 1)
    × ((last : ℕ → Option ZmqSocket) × ((dispatched_zmq toy zmq_toy able port_text
            (λ name. some file)
            unset
            calls
            none_open
            one_socket
            zmq_config).now
          ≡ at_rest
              (zmq_subscriber zmq_toy)
              (record { multicast_sub = none; system = last })
              unset
              calls)
        × Same zmq_toy.look one_socket last)
main_zmq_refused_example =
    main_zmq_refused toy zmq_toy able port_text (λ name. some file) unset calls none_open one_socket
      toy-IsZmq zmq_options refl config_of-zmq_options (inr (inr (inl refl))) refl
      (inr (7, publisher_made, listener_refused))
