-- ===== src/Benchmark/Threads.antt =====
-- What run_benchmark_pipeline of src/main.cpp calls, over any feed handler: the start and stop of the threads
-- of BaseGenerator, IDisseminator and IFeedHandler, the monitor and its destructor, and the subscriptions.
-- The threads' loops are elsewhere: here a thread runs, and calls the client's callbacks while it does, or
-- it does not. Whether the operating system can make a thread, whether a loop returns once it is asked to
-- stop, and the calls that come are arguments.
use market_data_disseminatio.Base.Tests.{
  ℕ, Bool, true, false, Option, none, some, List, [], ◌∷◌, ◌||◌, if◌then◌else◌,
}
use market_data_disseminatio.Types.{MarketDataMsg}
use market_data_disseminatio.Generator.{Random, Error, RandomWalkGenerator, configure, start, stop}
use market_data_disseminatio.Monitor.{LatencyMonitor, on_message, new_monitor, save_to_csv}
use market_data_disseminatio.Benchmark.{Subscriber, subscribe_symbols_file}

-- How a statement ends. `dangling` is the use of a monitor that was destroyed; `blocked` is a join that
-- never returns, and `terminating` a call of `std::terminate`.
pub data Status : Type 0 where
  going throwing blocked dangling terminating : Status

pub data Part : Type 0 where
  generator disseminator feedhandler : Part

-- What the system decides: the threads it can make, the loops that return, and whether the monitor's
-- directory can be made.
pub record Host : Type 0 where
  pub can_start : Part → Bool
  pub returns : Part → Bool
  pub directory : Bool

module _ (random : Random) (subscriber : Subscriber) where
  -- `disseminator` and `feedhandler` say whether `worker_` and `receiver_thread_` are joinable; `monitor`
  -- is `none` outside its lifetime; `csv` are the files, once written; `incoming` are the calls that are
  -- still to come, a list for each statement.
  pub record Process : Type 0 where
    pub generator : RandomWalkGenerator random
    pub disseminator : Bool
    pub feedhandler : Bool
    pub subscriptions : subscriber.State
    pub sub_count : ℕ
    pub monitor : Option LatencyMonitor
    pub csv : Option (List ℕ × List ℕ)
    pub incoming : List (List (MarketDataMsg × ℕ))

-- The client's calls, the earliest first.
unfoldable pub record_calls : List (MarketDataMsg × ℕ) → LatencyMonitor → LatencyMonitor
record_calls [] m = m
record_calls ((msg, t3) ∷ calls) m = record_calls calls (on_message msg t3 m)

-- The callbacks hold a reference to the monitor.
unfoldable pub call_back :
    List (MarketDataMsg × ℕ) → Option LatencyMonitor → Status × Option LatencyMonitor
call_back [] m = (going, m)
call_back calls (some m) = (going, some (record_calls calls m))
call_back (c ∷ calls) none = (dangling, none)

abbrev pub status_of : Option Error → Status
status_of none = going
status_of (some e) = throwing

module _ {random : Random} {subscriber : Subscriber} where
  -- What the feed handler's thread does beside a statement.
  unfoldable pub receive :
      List (List (MarketDataMsg × ℕ))
      → Process random subscriber
      → Status × Process random subscriber
  receive [] s = (going, s)
  receive (calls ∷ incoming) s =
      let called = call_back calls s.monitor in
      (called.0, record s { monitor = called.1; incoming = incoming })

  -- The `LatencyMonitor`, whose callbacks are set at once.
  unfoldable pub make_monitor :
      Host → Process random subscriber → Status × Process random subscriber
  make_monitor host s =
      if host.directory then (going, record s { monitor = some new_monitor }) else (throwing, s)

  unfoldable pub configure_generator :
      ℕ → Option (List ℕ) → Process random subscriber → Status × Process random subscriber
  configure_generator rate file s =
      let configured = configure random rate file s.generator in
      (status_of configured.0, record s { generator = configured.1 })

  -- BaseGenerator::start, whose thread may not be made.
  abbrev pub launch :
      Host
      → Process random subscriber
      → Option Error
      → RandomWalkGenerator random
      → Status × Process random subscriber
  launch host s (some e) g = (throwing, s)
  launch host s none g =
      if s.generator.running || host.can_start generator
      then (going, record s { generator = g })
      else (throwing, s)

  unfoldable pub start_generator :
      Host → Process random subscriber → Status × Process random subscriber
  start_generator host s =
      let started = start random s.generator in launch host s started.0 started.1

  unfoldable pub stop_generator :
      Host → Process random subscriber → Status × Process random subscriber
  stop_generator host s =
      if s.generator.running
      then (if host.returns generator
          then (going, record s { generator = stop random s.generator })
          else (blocked, s))
      else (going, s)

  -- IDisseminator::start and stop.
  unfoldable pub start_disseminator :
      Host → Process random subscriber → Status × Process random subscriber
  start_disseminator host s =
      if s.disseminator
      then (going, s)
      else if host.can_start disseminator
      then (going, record s { disseminator = true })
      else (throwing, s)

  unfoldable pub stop_disseminator :
      Host → Process random subscriber → Status × Process random subscriber
  stop_disseminator host s =
      if s.disseminator
      then (if host.returns disseminator
          then (going, record s { disseminator = false })
          else (blocked, s))
      else (going, s)

  -- IFeedHandler::start and stop.
  unfoldable pub start_feedhandler :
      Host → Process random subscriber → Status × Process random subscriber
  start_feedhandler host s =
      if s.feedhandler
      then (going, s)
      else if host.can_start feedhandler
      then (going, record s { feedhandler = true })
      else (throwing, s)

  unfoldable pub stop_feedhandler :
      Host → Process random subscriber → Status × Process random subscriber
  stop_feedhandler host s =
      if s.feedhandler
      then (if host.returns feedhandler
          then (going, record s { feedhandler = false })
          else (blocked, s))
      else (going, s)

  unfoldable pub subscribe_all :
      Option (List ℕ) → Process random subscriber → Status × Process random subscriber
  subscribe_all file s =
      let subscribed = subscribe_symbols_file subscriber file s.subscriptions in
      (
        if subscribed.0 then going else throwing,
        record s { subscriptions = subscribed.1.0; sub_count = subscribed.1.1 },
      )

  -- `sleep_for`.
  unfoldable pub sleep : Process random subscriber → Status × Process random subscriber
  sleep s = (going, s)

  -- The monitor's destructor.
  abbrev pub destroy_at :
      Option LatencyMonitor → Process random subscriber → Status × Process random subscriber
  destroy_at none s = (going, s)
  destroy_at (some m) s = (going, record s { monitor = none; csv = some (save_to_csv m) })

  unfoldable pub destroy_monitor : Process random subscriber → Status × Process random subscriber
  destroy_monitor s = destroy_at s.monitor s
