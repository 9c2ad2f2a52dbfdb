-- ===== src/Benchmark/QueuedZmq.antt =====
-- The benchmark over ZeroMQ from end to end: the generator's loop pushes into a WaitableSpscQueue over some
-- storage, the disseminator sends what it pops, the socket takes what begins with a subscribed topic, and of
-- that any messages arrive, each whole.
use mathlib.Core.List.{Memᴰ}
use market_data_disseminatio.Base.Tests.{
  ℕ, ◌+◌, ◌^◌, ◌≤◌, ◌<◌, ◌≡◌, refl, ◌∙◌, true, false, Option, some, List, map, [], ◌∷◌, ◌++◌, arith,
}
use market_data_disseminatio.Base.Lists.{length, drop, All, All-map, All-member}
use market_data_disseminatio.Types.{MarketDataMsg}
use market_data_disseminatio.Symbols.{read_symbols_file}
use market_data_disseminatio.Queue.Storage.{Storage, IsStorage}
use market_data_disseminatio.Waitable.Kept.{in_hand}
use market_data_disseminatio.Waitable.Stored.{Stored, StoredReach}
use market_data_disseminatio.Disseminator.{stamp, topic, Turn}
use market_data_disseminatio.Disseminator.Wire.{IsTurn}
use market_data_disseminatio.FeedHandler.{Client, deliver_to_client}
use market_data_disseminatio.UdpPath.Stream.{IsWanted}
use market_data_disseminatio.ZmqFeedHandler.{Socket, zmq_receive_loop}
use market_data_disseminatio.ZmqFeedHandler.Delivery.{deliver_all}
use market_data_disseminatio.Generator.{Random, RandomWalkGenerator, configure}
use market_data_disseminatio.Generator.Pace.{Tick, Pace, generation_loop}
use market_data_disseminatio.Generator.Rate.{begin}
use market_data_disseminatio.Monitor.{LatencyRecord, save_to_csv, monitor_calls}
use market_data_disseminatio.Monitor.Calls.{save_to_csv-monitor_calls}
use market_data_disseminatio.Monitor.Csv.{read_lines}
use market_data_disseminatio.Benchmark.{subscribe_symbols_file}
use market_data_disseminatio.Benchmark.Delivery.{
  IsShort, Sending, IsSending, turns_of, client, made-IsWanted, one_call,
}
use market_data_disseminatio.Benchmark.Queued.{pushed_of, messages_queued}
use market_data_disseminatio.ZmqFeedHandler.Events.{ZmqEvent, event_round, messages_of, zmq_events}
use market_data_disseminatio.Benchmark.Taken.{socket_subscriber, made-taken}

-- How many calls the client gets for messages in order: each message is one.
length-deliver_all :
    (arriving : List (Turn × ℕ)) (c : Client)
    → c.has_on_quote ≡ true
    → c.has_on_trade ≡ true
    → length (deliver_all arriving c).calls ≡ length arriving + length c.calls
length-deliver_all [] c q t = omega arith
length-deliver_all ((turn, t3) ∷ arriving) c q t =
    let (calls, on_quote, on_trade) = one_call t3 (stamp turn.now turn.msg) c q t in
    omega (
      arith,
      calls,
      length-deliver_all arriving (deliver_to_client t3 (stamp turn.now turn.msg) c) on_quote
          on_trade,
    )

-- For a rate of at least 1 and a symbols file of at least one symbol (fewer than 2 ^ 64), each of at most 7
-- bytes with no NUL, over ZeroMQ: the generator's loop does not fault. When its successful pushes have
-- gone into a WaitableSpscQueue over a storage that answers as a bounded list, begun empty, by any
-- interleaving with the disseminator's pops, then no read was undefined, and what it pushed is what those
-- pops returned, then at most one message that a pop is about to return, then what the storage holds, at
-- most its capacity. The socket takes each of the messages that they returned, once the benchmark has
-- subscribed; and of these, whichever arrive whole in both parts, in whatever order, among timeouts, errors
-- that do not end the loop and parts without their second, reach the client, in the order of arrival and
-- bit for bit as stamped, and nothing else does; and the two files that the monitor writes, read back as
-- three decimal numbers a line, hold one line for each.
pub benchmark_delivers_zmq :
    {random : Random} (messages_per_second t0 : ℕ) (file : Option (List ℕ))
    (g : RandomWalkGenerator random) (ticks : List Tick) {storage : Storage MarketDataMsg} {cap : ℕ}
    (v : IsStorage cap storage) {empty : storage.State} {s : Stored storage} (socket : Socket)
    (socket_state : socket.State) (sendings : List Sending) (events : List ZmqEvent)
    → 1 ≤ messages_per_second
    → 0 < length (read_symbols_file file)
    → length (read_symbols_file file) < 2 ^ 64
    → All IsShort (read_symbols_file file)
    → All (λ t. t.enqueued_at < 2 ^ 64) ticks
    → v.Contains empty []
    → StoredReach storage cap empty s
    → s.system.sent
      ≡ pushed_of
          (generation_loop random ticks (begin t0 (configure random messages_per_second file g).1))
    → All IsSending sendings
    → All (λ a. Memᴰ a.0 (turns_of s.system.received sendings)) (messages_of events)
    → (p : Pace random) × (xs : List MarketDataMsg) × (quotes : List LatencyRecord) × (trades : List
        LatencyRecord)
      × (generation_loop random ticks (begin t0 (configure random messages_per_second file g).1)
          ≡ some p)
      × (s.faulty ≡ false)
      × v.Contains s.queue xs
      × (p.pushed ≡ s.system.received ++ (in_hand s.system.consumer ++ xs))
      × (length xs ≤ cap)
      × All
          (λ (t : Turn).
            socket.takes
              (subscribe_symbols_file (socket_subscriber socket) file socket_state).1.0
              (topic (stamp t.now t.msg))
            ≡ true)
          (turns_of s.system.received sendings)
      × (zmq_receive_loop (map event_round events) client ≡ deliver_all (messages_of events) client)
      × (read_lines (length quotes) (
            drop 29 (save_to_csv (monitor_calls (deliver_all (messages_of events) client).calls)).0)
          ≡ some quotes)
      × (read_lines (length trades) (
            drop 29 (save_to_csv (monitor_calls (deliver_all (messages_of events) client).calls)).1)
          ≡ some trades)
      × (length quotes + length trades ≡ length (messages_of events))
benchmark_delivers_zmq m t0 file g ticks v {s = s} socket socket_state sendings events h some_symbol
      few shorts enqueued begun reach sent ok among =
    let symbols = read_symbols_file file in
    let (p, xs, done, sound, contains, pushed, fits, made) =
      messages_queued m t0 file g ticks v h some_symbol few shorts enqueued begun reach sent in
    let turns = turns_of s.system.received sendings in
    let arriving = messages_of events in
    let good : All IsTurn turns =
      All-map (IsWanted _) IsTurn turns (λ t w. w.turn)
        (made-IsWanted symbols s.system.received sendings shorts made ok) in
    let delivered = zmq_events events client (
      All-map (λ (a : Turn × ℕ). Memᴰ a.0 turns) (λ a. IsTurn a.0) arriving
        (λ a at. All-member IsTurn turns good at) among) in
    let (quotes, trades, quotes_read, trades_read, count) =
      save_to_csv-monitor_calls (deliver_all arriving client).calls in
    (
      p,
      xs,
      quotes,
      trades,
      done,
      sound,
      contains,
      pushed,
      fits,
      made-taken socket file socket_state s.system.received sendings shorts made,
      delivered,
      quotes_read,
      trades_read,
      count ∙ length-deliver_all arriving client refl refl ∙ omega arith,
    )
