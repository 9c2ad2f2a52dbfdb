-- ===== src/Benchmark.antt =====
-- run_benchmark_pipeline of src/main.cpp, the part that subscribes: it reads the symbols file a second
-- time, beside the generator, and calls `subscribe` of the feed handler for each symbol. The UDP receive
-- loop, which already runs, takes no command out in between here.
pub mod Subscriptions
pub mod Delivery
pub mod Queued
pub mod Taken
pub mod QueuedZmq
pub mod Threads
pub mod Run
pub mod Phases
pub mod InOrder
pub mod Steps
pub mod Statements
pub mod Generating
pub mod Order
pub mod Ends
pub mod Pipeline
pub mod Udp
pub mod Destruct
pub mod Whole
pub mod Refused
pub mod Zmq
pub mod ZmqClosed
pub mod WholeZmq
pub mod RefusedZmq
pub mod Main
pub mod MainRefused
mod Tests
mod QueuedTests
mod PipelineTests
mod MainTests
mod RefusedTests
use market_data_disseminatio.Base.Tests.{
  ℕ, ◌+◌, Bool, true, Option, none, some, List, [], ◌∷◌, if◌then◌else◌,
}
use market_data_disseminatio.Symbols.{strip, is_listed, get_lines}
use market_data_disseminatio.FeedHandler.{CommandQueue, subscribe, request}

-- What run_benchmark_pipeline asks of a feed handler beside its thread: `subscribe`, with whether it
-- returns or throws.
pub record Subscriber : Type 1 where
  pub State : Type 0
  pub subscribe_one : List ℕ → State → Bool × State

-- What a call of `subscribe` keeps.
pub record IsSubscriber (subscriber : Subscriber) : Type 1 where
  pub Ready : subscriber.State → Type 0
  pub subscribe_keeps :
      (symbol : List ℕ) (state : subscriber.State)
      → Ready state
      → Ready (subscriber.subscribe_one symbol state).1

abbrev pub udp_subscriber : Subscriber
udp_subscriber = record {
  State = CommandQueue;
  subscribe_one = λ symbol q. (true, request (subscribe symbol) q);
}

abbrev pub udp_is_subscriber : IsSubscriber udp_subscriber
udp_is_subscriber = record { Ready = λ q. Unit; subscribe_keeps = λ symbol q h. tt }

module _ (subscriber : Subscriber) where
  -- A line without its spaces, with `sub_count`; whether the loop goes on.
  abbrev pub subscribe_line : List ℕ → subscriber.State × ℕ → Bool × (subscriber.State × ℕ)
  subscribe_line sym (state, sub_count) =
      let subscribed = subscriber.subscribe_one sym state in
      if is_listed sym
      then (subscribed.0, (subscribed.1, if subscribed.0 then sub_count + 1 else sub_count))
      else (true, (state, sub_count))

  unfoldable pub subscribe_lines :
      List (List ℕ) → subscriber.State × ℕ → Bool × (subscriber.State × ℕ)
  subscribe_lines [] s = (true, s)
  subscribe_lines (line ∷ lines) s =
      let done = subscribe_line (strip line) s in
      let rest = subscribe_lines lines done.1 in if done.0 then rest else done

  -- A file that cannot be opened gives no line.
  unfoldable pub subscribe_symbols_file :
      Option (List ℕ) → subscriber.State → Bool × (subscriber.State × ℕ)
  subscribe_symbols_file none state = (true, (state, 0))
  subscribe_symbols_file (some bytes) state = subscribe_lines (get_lines bytes) (state, 0)
