-- ===== src/Benchmark/Udp.antt =====
-- The branches of dispatch_types in src/main.cpp that use UDP: the disseminator and the feed handler are
-- made, run_benchmark_pipeline runs, and the destructors stop what still runs and close the sockets.
use Prim.Native.String.{String}
use market_data_disseminatio.Base.Tests.{ℕ, Option, List, []}
use market_data_disseminatio.Generator.{Random}
use market_data_disseminatio.Sockets.{Os}
use market_data_disseminatio.Sockets.Udp.{
  Constructed, built, threw, UdpFeedHandler, UdpDisseminator, new_udp_feed_handler,
  new_udp_disseminator, close_sock,
}
use market_data_disseminatio.Benchmark.{udp_subscriber}
use market_data_disseminatio.Benchmark.Threads.{
  Status, going, throwing, blocked, dangling, terminating, Host, Process, stop_disseminator,
  stop_feedhandler,
}
use market_data_disseminatio.Benchmark.Run.{Run, destruct, run_benchmark_pipeline}

module _ (random : Random) (os : Os) where
  -- The program's run, with the state of the operating system.
  pub record Stage : Type 0 where
    pub run : Run random udp_subscriber
    pub system : os.State

-- `close`, unless the thread's join before it has not returned.
abbrev pub close_behind : (os : Os) → Status → ℕ → os.State → os.State
close_behind os going sock system = close_sock os sock system
close_behind os throwing sock system = close_sock os sock system
close_behind os blocked sock system = system
close_behind os dangling sock system = system
close_behind os terminating sock system = system

module _ {random : Random} (os : Os) (host : Host) where
  -- The destructors.
  unfoldable pub destroy_feedhandler : ℕ → Stage random os → Stage random os
  destroy_feedhandler sock stage =
      let run = destruct (stop_feedhandler host) stage.run in
      record { run = run; system = close_behind os run.status sock stage.system }

  unfoldable pub destroy_disseminator : ℕ → Stage random os → Stage random os
  destroy_disseminator sock stage =
      let run = destruct (stop_disseminator host) stage.run in
      record { run = run; system = close_behind os run.status sock stage.system }

  module _ (rate : ℕ) (file : Option (List ℕ)) (s : Process random udp_subscriber) where
    unfoldable pub with_feedhandler : Constructed UdpFeedHandler → os.State → Stage random os
    with_feedhandler (threw e) system = record {
      run = record { status = throwing; now = s; past = [] };
      system = system;
    }
    with_feedhandler (built h) system =
        destroy_feedhandler h.sock
          (record { run = run_benchmark_pipeline host rate file s; system = system })

    unfoldable pub with_disseminator :
        String → ℕ → Constructed UdpDisseminator → os.State → Stage random os
    with_disseminator ip port (threw e) system = record {
      run = record { status = throwing; now = s; past = [] };
      system = system;
    }
    with_disseminator ip port (built u) system =
        let made = new_udp_feed_handler os ip port system in
        destroy_disseminator u.sock (with_feedhandler made.0 made.1)

    unfoldable pub dispatch_udp : String → ℕ → os.State → Stage random os
    dispatch_udp ip port system =
        let made = new_udp_disseminator os ip port system in with_disseminator ip port made.0 made.1
