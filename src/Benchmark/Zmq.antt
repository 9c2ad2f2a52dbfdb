-- ===== src/Benchmark/Zmq.antt =====
-- The branches of dispatch_types in src/main.cpp that use ZeroMQ: the disseminator and the feed handler are
-- made, run_benchmark_pipeline runs, and the destructors stop what still runs and close the sockets. What
-- cppzmq keeps is a part of the process here, since the subscriptions are options of a socket.
use Prim.Native.String.{String, ◌++◌}
use market_data_disseminatio.Base.Tests.{
  ℕ, Bool, false, Option, none, some, List, [], if◌then◌else◌,
}
use market_data_disseminatio.Generator.{Random}
use market_data_disseminatio.Sockets.Zmq.{
  Zmq, subscribe_to, set_topics, new_zmq_disseminator, new_zmq_feed_handler, close_zmq_disseminator,
  close_zmq_feed_handler,
}
use market_data_disseminatio.Benchmark.{Subscriber}
use market_data_disseminatio.Benchmark.Threads.{
  Status, going, throwing, terminating, Host, Process, stop_disseminator, stop_feedhandler,
}
use market_data_disseminatio.Benchmark.Run.{Run, destruct, run_benchmark_pipeline}

-- `std::to_string` is an argument.
abbrev pub zmq_bind : (ℕ → String) → ℕ → String
zmq_bind to_string port = "tcp://127.0.0.1:" ++ to_string port

-- `multicast_sub` is the socket of the feed handler, `none` outside its lifetime.
pub record ZmqSide (z : Zmq) : Type 0 where
  pub multicast_sub : Option ℕ
  pub system : z.State

module _ (z : Zmq) where
  -- There is no call outside the socket's lifetime.
  abbrev pub subscribe_at : Option ℕ → List ℕ → ZmqSide z → Bool × ZmqSide z
  subscribe_at none symbol side = (false, side)
  subscribe_at (some h) symbol side =
      let set = set_topics z subscribe_to h symbol side.system in
      (set.0, record side { system = set.1 })

  abbrev pub zmq_subscriber : Subscriber
  zmq_subscriber = record {
    State = ZmqSide z;
    subscribe_one = λ symbol side. subscribe_at side.multicast_sub symbol side;
  }

module _ {random : Random} (z : Zmq) where
  -- The rest of ~ZmqFeedHandler behind the stop.
  abbrev pub close_at :
      Option ℕ → Process random (zmq_subscriber z) → Status × Process random (zmq_subscriber z)
  close_at none s = (going, s)
  close_at (some h) s =
      let closed = close_zmq_feed_handler z h s.subscriptions.system in
      if closed.0
      then (going, record s { subscriptions = record { multicast_sub = none; system = closed.1 } })
      else (
        terminating,
        record s { subscriptions = record { multicast_sub = some h; system = closed.1 } },
      )

  unfoldable pub close_sub :
      Process random (zmq_subscriber z) → Status × Process random (zmq_subscriber z)
  close_sub s = close_at s.subscriptions.multicast_sub s

  -- The rest of ~ZmqDisseminator.
  unfoldable pub close_pub :
      ℕ → Process random (zmq_subscriber z) → Status × Process random (zmq_subscriber z)
  close_pub h s = (
    going,
    record s {
      subscriptions = record (s.subscriptions) {
        system = close_zmq_disseminator z h s.subscriptions.system;
      };
    },
  )

  -- A process, with what cppzmq keeps now.
  abbrev pub over_sub :
      Option ℕ → z.State → Process random (zmq_subscriber z) → Process random (zmq_subscriber z)
  over_sub sub system s = record s {
    subscriptions = record { multicast_sub = sub; system = system };
  }

  module _ (host : Host) where
    unfoldable pub destroy_zmq_feedhandler :
        Run random (zmq_subscriber z) → Run random (zmq_subscriber z)
    destroy_zmq_feedhandler run = destruct close_sub (destruct (stop_feedhandler host) run)

    unfoldable pub destroy_zmq_disseminator :
        ℕ → Run random (zmq_subscriber z) → Run random (zmq_subscriber z)
    destroy_zmq_disseminator h run = destruct (close_pub h) (destruct (stop_disseminator host) run)

    module _ (rate : ℕ) (file : Option (List ℕ)) (s : Process random (zmq_subscriber z)) where
      unfoldable pub with_sub : Option ℕ → z.State → Run random (zmq_subscriber z)
      with_sub none system = record { status = throwing; now = over_sub none system s; past = [] }
      with_sub (some h) system =
          destroy_zmq_feedhandler
            (run_benchmark_pipeline host rate file (over_sub (some h) system s))

      unfoldable pub with_pub : String → Option ℕ → z.State → Run random (zmq_subscriber z)
      with_pub address none system = record {
        status = throwing;
        now = over_sub none system s;
        past = [];
      }
      with_pub address (some h) system =
          let made = new_zmq_feed_handler z address system in
          destroy_zmq_disseminator h (with_sub made.0 made.1)

      unfoldable pub dispatch_zmq : String → Run random (zmq_subscriber z)
      dispatch_zmq address =
          let made = new_zmq_disseminator z address s.subscriptions.system in
          with_pub address made.0 made.1
