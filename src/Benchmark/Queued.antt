-- ===== src/Benchmark/Queued.antt =====
-- The benchmark over UDP from end to end: the generator's loop pushes into a WaitableSpscQueue over some
-- storage, the disseminator sends what it pops, and the network loses, repeats and reorders datagrams as it
-- likes, but delivers each that arrives whole.
use mathlib.Core.List.{Memᴰ}
use market_data_disseminatio.Base.Tests.{
  ℕ, ◌+◌, ◌^◌, ◌≤◌, ◌<◌, ◌≡◌, refl, sym, ap, subst, ◌∙◌, false, Option, none, some, List, map, [],
  ◌∷◌, ◌++◌, arith,
}
use market_data_disseminatio.Base.Lists.{
  length, drop, All, All-prefix, All-members, members-map, length-map,
}
use market_data_disseminatio.Types.{MarketDataMsg}
use market_data_disseminatio.Symbols.{read_symbols_file}
use market_data_disseminatio.Queue.{fresh}
use market_data_disseminatio.Queue.Refine.{fresh-Holds}
use market_data_disseminatio.Queue.Storage.{Storage, IsStorage}
use market_data_disseminatio.Waitable.Kept.{in_hand}
use market_data_disseminatio.Waitable.Stored.{Stored, StoredReach}
use market_data_disseminatio.Waitable.StoredFifo.{stored_refines}
use market_data_disseminatio.Disseminator.{Turn, udp_disseminate, run_loop}
use market_data_disseminatio.FeedHandler.{
  command_capacity, subscribe, Client, Receiver, receive_loop,
}
use market_data_disseminatio.FeedHandler.Commands.{apply_all, command_capacity-IsCapacity}
use market_data_disseminatio.FeedHandler.Loop.{command_of}
use market_data_disseminatio.UdpPath.Stream.{
  UdpEvent, event_round, datagrams_of, times_of, length-times_of, deliver_all, IsWanted, udp_stream,
}
use market_data_disseminatio.Generator.{Random, RandomWalkGenerator, configure}
use market_data_disseminatio.Generator.Settings.{configure-IsConfigured}
use market_data_disseminatio.Generator.Pace.{Tick, Pace, generation_loop}
use market_data_disseminatio.Generator.Rate.{begin}
use market_data_disseminatio.Generator.Made.{IsMade, generation_loop-Makes}
use market_data_disseminatio.Monitor.{LatencyRecord, save_to_csv, monitor_calls}
use market_data_disseminatio.Monitor.Calls.{save_to_csv-monitor_calls}
use market_data_disseminatio.Monitor.Csv.{read_lines}
use market_data_disseminatio.Benchmark.Subscriptions.{subscribe_symbols_file-Holds}
use market_data_disseminatio.Benchmark.Delivery.{
  IsShort, Sending, IsSending, turns_of, client, receiver_of, texts_of, made-IsWanted,
  length-deliver_all,
}

abbrev pub pushed_of : {random : Random} → Option (Pace random) → List MarketDataMsg
pushed_of none = []
pushed_of (some p) = p.pushed

run_loop-map : (turns : List Turn) → run_loop (map some turns) ≡ map udp_disseminate turns
unfolding run_loop
run_loop-map [] = refl
run_loop-map (t ∷ turns) = ap (λ l. udp_disseminate t ∷ l) (run_loop-map turns)

-- The generator's messages on their way through the queue.
pub messages_queued :
    {random : Random} (messages_per_second t0 : ℕ) (file : Option (List ℕ))
    (g : RandomWalkGenerator random) (ticks : List Tick) {storage : Storage MarketDataMsg} {cap : ℕ}
    (v : IsStorage cap storage) {empty : storage.State} {s : Stored storage}
    → 1 ≤ messages_per_second
    → 0 < length (read_symbols_file file)
    → length (read_symbols_file file) < 2 ^ 64
    → All IsShort (read_symbols_file file)
    → All (λ t. t.enqueued_at < 2 ^ 64) ticks
    → v.Contains empty []
    → StoredReach storage cap empty s
    → s.system.sent
      ≡ pushed_of
          (generation_loop random ticks (begin t0 (configure random messages_per_second file g).1))
    → (p : Pace random) × (xs : List MarketDataMsg) × (generation_loop random ticks
          (begin t0 (configure random messages_per_second file g).1)
        ≡ some p)
      × (s.faulty ≡ false)
      × v.Contains s.queue xs
      × (p.pushed ≡ s.system.received ++ (in_hand s.system.consumer ++ xs))
      × (length xs ≤ cap)
      × All (IsMade (read_symbols_file file)) s.system.received
messages_queued m t0 file g ticks v {s = s} h some_symbol few shorts enqueued begun reach sent =
    let symbols = read_symbols_file file in
    let (quiet, configured, same) = configure-IsConfigured m file g h some_symbol few in
    let (p, done, made) =
      generation_loop-Makes symbols (texts_of symbols shorts) ticks
        (begin t0 (configure _ m file g).1) enqueued
        (record { configured = configured; same_symbols = same; pushed_made = tt }) in
    let (xs, contains, _, sound, order, fits) = stored_refines v begun reach in
    let pushed : p.pushed ≡ s.system.received ++ (in_hand s.system.consumer ++ xs) =
      sym (sent ∙ ap pushed_of done) ∙ order in
    (
      p,
      xs,
      done,
      sound,
      contains,
      pushed,
      fits,
      All-prefix (IsMade symbols) s.system.received _
          (subst (All (IsMade symbols)) pushed made.pushed_made),
    )

-- The datagrams that arrive are the messages of `delivered`, each one of `turns`; the client is called
-- for these in order, and the files hold a line for each call.
pub record IsDelivered (turns : List Turn) (events : List UdpEvent) (r : Receiver) : Type 0 where
  pub delivered : List Turn
  pub drawn : All (λ t. Memᴰ t turns) delivered
  pub sent_as : map udp_disseminate delivered ≡ datagrams_of events
  pub client_called : r.client ≡ deliver_all delivered (times_of events) client
  pub quotes : List LatencyRecord
  pub trades : List LatencyRecord
  pub quotes_read :
      read_lines (length quotes) (drop 29 (save_to_csv (monitor_calls r.client.calls)).0)
      ≡ some quotes
  pub trades_read :
      read_lines (length trades) (drop 29 (save_to_csv (monitor_calls r.client.calls)).1)
      ≡ some trades
  pub counted : length quotes + length trades ≡ length (datagrams_of events)

-- What a network delivers of wanted messages.
arriving_lem :
    (file : Option (List ℕ)) (turns : List Turn) (events : List UdpEvent)
    → length (read_symbols_file file) ≤ command_capacity
    → All (IsWanted (apply_all (map command_of (map subscribe (read_symbols_file file))) [])) turns
    → All (λ d. Memᴰ d (run_loop (map some turns))) (datagrams_of events)
    → (r : Receiver) × (receive_loop (map event_round events) (receiver_of file client) ≡ some r)
      × IsDelivered turns events r
arriving_lem file turns events few wanted among =
    let (delivered, sent_as, drawn) =
      members-map udp_disseminate turns (datagrams_of events)
        (subst (λ l. All (λ d. Memᴰ d l) (datagrams_of events)) (run_loop-map turns) among) in
    let (r, run, called) =
      udp_stream delivered events (map command_of (map subscribe (read_symbols_file file)))
        (receiver_of file client)
        (subscribe_symbols_file-Holds file fresh (fresh-Holds command_capacity-IsCapacity) few)
        (All-members (IsWanted _) turns delivered wanted drawn) sent_as in
    let (quotes, trades, quotes_read, trades_read, count) =
      save_to_csv-monitor_calls r.client.calls in
    (
      r,
      run,
      record {
        delivered = delivered;
        drawn = drawn;
        sent_as = sent_as;
        client_called = called;
        quotes = quotes;
        trades = trades;
        quotes_read = quotes_read;
        trades_read = trades_read;
        counted =
            count
            ∙ ap (λ (c : Client). length c.calls) called
            ∙ length-deliver_all delivered (times_of events) client refl refl
            ∙ omega (
              arith,
              length-map udp_disseminate delivered,
              ap length sent_as,
              length-times_of events,
            );
      },
    )

-- For a rate of at least 1 and a symbols file of 1 to 128 symbols, each of at most 7 bytes with no NUL,
-- over UDP: the generator's loop does not fault. When its successful pushes have gone into a
-- WaitableSpscQueue over a storage that answers as a bounded list, begun empty, by any interleaving with the
-- disseminator's pops, then no read was undefined, and what it pushed is what those pops returned, then
-- at most one message that a pop is about to return, then what the storage holds, at most its capacity.
-- And whatever the network loses, repeats or reorders of the datagrams of what they returned, and however
-- many rounds of the receive loop, before, between and behind them, find no datagram or an error, every
-- datagram that arrives, each whole, reaches the client, in the order of arrival and bit for bit as it was
-- stamped, and nothing else does; and the two files that the monitor writes, read back as three decimal
-- numbers a line, hold one line for each. The client asks for nothing more while these rounds go on, and no
-- stop is requested.
pub benchmark_delivers :
    {random : Random} (messages_per_second t0 : ℕ) (file : Option (List ℕ))
    (g : RandomWalkGenerator random) (ticks : List Tick) {storage : Storage MarketDataMsg} {cap : ℕ}
    (v : IsStorage cap storage) {empty : storage.State} {s : Stored storage}
    (sendings : List Sending) (events : List UdpEvent)
    → 1 ≤ messages_per_second
    → 0 < length (read_symbols_file file)
    → length (read_symbols_file file) ≤ command_capacity
    → All IsShort (read_symbols_file file)
    → All (λ t. t.enqueued_at < 2 ^ 64) ticks
    → v.Contains empty []
    → StoredReach storage cap empty s
    → s.system.sent
      ≡ pushed_of
          (generation_loop random ticks (begin t0 (configure random messages_per_second file g).1))
    → All IsSending sendings
    → All
        (λ d. Memᴰ d (run_loop (map some (turns_of s.system.received sendings))))
        (datagrams_of events)
    → (p : Pace random) × (xs : List MarketDataMsg) × (r : Receiver) × (generation_loop random ticks
          (begin t0 (configure random messages_per_second file g).1)
        ≡ some p)
      × (s.faulty ≡ false)
      × v.Contains s.queue xs
      × (p.pushed ≡ s.system.received ++ (in_hand s.system.consumer ++ xs))
      × (length xs ≤ cap)
      × (receive_loop (map event_round events) (receiver_of file client) ≡ some r)
      × IsDelivered (turns_of s.system.received sendings) events r
benchmark_delivers m t0 file g ticks v {s = s} sendings events h some_symbol few shorts enqueued
      begun reach sent ok among =
    let symbols = read_symbols_file file in
    let (p, xs, done, sound, contains, pushed, fits, made) =
      messages_queued m t0 file g ticks v h some_symbol (omega (arith, few)) shorts enqueued begun
        reach sent in
    let (r, run, delivered) =
      arriving_lem file (turns_of s.system.received sendings) events few
        (made-IsWanted symbols s.system.received sendings shorts made ok) among in
    (p, xs, r, done, sound, contains, pushed, fits, run, delivered)
