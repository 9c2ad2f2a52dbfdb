-- ===== src/Benchmark/QueuedTests.antt =====
-- One message through a ring of two places, whose datagram arrives twice.
use mathlib.Core.List.{Memᴰ}
use market_data_disseminatio.Base.Tests.{
  ℕ, ℕ_discrete, ◌≡◌, ◌≤◌, refl, sym, subst, false, some, List, map, [], ◌∷◌, ◌++◌, arith, ◌+◌,
  true,
}
use market_data_disseminatio.Base.Lists.{length, All, replicate, length-replicate, drop}
use market_data_disseminatio.Types.{MarketDataMsg, trade}
use market_data_disseminatio.Symbols.{
  strip, onto_first, get_lines, tickers_from, read_symbols_file, strncpy, stored_symbol,
}
use market_data_disseminatio.Queue.{fresh, push, pop}
use market_data_disseminatio.Queue.Refine.{IsCapacity, Holds, fresh-Holds}
use market_data_disseminatio.Queue.Storage.{ring_storage, ring_is_storage}
use market_data_disseminatio.Waitable.{pushed, quiet, enter, go_on, outside}
use market_data_disseminatio.Waitable.Stored.{
  Stored, StoredReach, here, next, apart, push_stored, first_popped,
}
use market_data_disseminatio.Disseminator.{
  Turn, udp_disseminate, run_loop, stamp, topic, payload_bytes,
}
use market_data_disseminatio.Disseminator.Wire.{IsTurn, udp_disseminate_lem}
use market_data_disseminatio.FeedHandler.{Receiver, receive_loop}
use market_data_disseminatio.UdpPath.Stream as Udp
use market_data_disseminatio.UdpPath.Stream.{UdpEvent, datagrams_of}
use market_data_disseminatio.Generator.{
  configure, set_rate, load_symbols, after_rate, generate_msg_impl, generate_quote, generate_trade,
  walk,
}
use market_data_disseminatio.Generator.Pace.{
  Tick, accepted, tick, after_push, Pace, generation_loop,
}
use market_data_disseminatio.Generator.Rate.{begin}
use market_data_disseminatio.Benchmark.Delivery.{
  IsShort, Sending, turns_of, client, receiver_of, IsSending,
}
use market_data_disseminatio.Benchmark.Queued.{pushed_of, IsDelivered, benchmark_delivers}
use market_data_disseminatio.Benchmark.Tests.{
  least, generator, file, two_symbols, read_file, symbols-IsShort,
}
use market_data_disseminatio.ZmqFeedHandler.{zmq_receive_loop}
use market_data_disseminatio.ZmqFeedHandler.Delivery.{deliver_all}
use market_data_disseminatio.ZmqFeedHandler.ListSocket.{list_socket}
use market_data_disseminatio.Monitor.{LatencyRecord, save_to_csv, monitor_calls}
use market_data_disseminatio.Monitor.Csv.{read_lines}
use market_data_disseminatio.Benchmark.{subscribe_symbols_file}
use market_data_disseminatio.ZmqFeedHandler.Events.{ZmqEvent, arrives, silent, event_round}
use market_data_disseminatio.Benchmark.Taken.{socket_subscriber}
use market_data_disseminatio.Benchmark.QueuedZmq.{benchmark_delivers_zmq}

abbrev one_tick : List Tick
one_tick =
    record {
      stop_requested = false;
      now = 5;
      made_at = 5;
      enqueued_at = 6;
      attempts = accepted ∷ [];
    }
    ∷ []

abbrev traded : MarketDataMsg
traded = trade (record {
  symbol = 73 ∷ 66 ∷ 77 ∷ 0 ∷ 0 ∷ 0 ∷ 0 ∷ 0 ∷ [];
  price = 4_636_737_291_354_636_288;
  size = 10;
  enqueue_timestamp = 6;
  disseminate_timestamp = 0;
})

pushed_traded :
    traded ∷ []
    ≡ pushed_of
        (generation_loop least one_tick (begin 5 (configure least 100_000 (some file) generator).1))
unfolding generation_loop tick after_push configure set_rate load_symbols after_rate
    generate_msg_impl generate_quote generate_trade walk read_symbols_file tickers_from get_lines
    onto_first strip stored_symbol strncpy
pushed_traded = refl

two : IsCapacity 2
two = record { positive = omega arith; small = omega arith; divides = refl }

-- The message has gone through the ring.
abbrev passed_on : Stored (ring_storage {A = MarketDataMsg} 2)
passed_on = record {
  queue = (pop 2 (push 2 fresh traded).1).1;
  system = record {
    items = [];
    sleeping = false;
    stop = false;
    producer = pushed;
    consumer = outside;
    stopper = quiet;
    sent = traded ∷ [];
    received = traded ∷ [];
  };
  faulty = false;
}

StoredReach-passed_on : StoredReach (ring_storage {A = MarketDataMsg} 2) 2 fresh passed_on
unfolding push pop fresh ℕ_discrete
StoredReach-passed_on =
    next
      (next (next (next here (push_stored traded refl refl)) (apart _ (enter refl refl) refl))
        (apart _ (go_on refl refl) refl))
      (first_popped traded refl refl cc)

abbrev one_sending : List Sending
one_sending = record { now = 100; pad = 1 ∷ 2 ∷ 3 ∷ 4 ∷ []; stack = replicate 58 170 } ∷ []

one_sending-IsSending : All IsSending one_sending
one_sending-IsSending = (
  record { now_word = omega arith; pad_size = refl; stack_size = length-replicate {A = ℕ} 58 170 },
  tt,
)

abbrev one_turn : Turn
one_turn = record { msg = traded; now = 100; pad = 1 ∷ 2 ∷ 3 ∷ 4 ∷ []; stack = replicate 58 170 }

abbrev turns : List Turn
turns = turns_of (traded ∷ []) one_sending

-- The datagram's bytes.
abbrev datagram_bytes : List ℕ
datagram_bytes =
    let msg = stamp one_turn.now one_turn.msg in topic msg ++ payload_bytes one_turn.pad msg

one_turn-IsTurn : IsTurn one_turn
one_turn-IsTurn = record {
  msg_ok = record {
    symbol_size = refl;
    symbol_bytes = (
      omega arith,
      (
        omega arith,
        (
          omega arith,
          (omega arith, (omega arith, (omega arith, (omega arith, (omega arith, tt))))),
        ),
      ),
    );
    price_word = omega arith;
    size_word = omega arith;
    enqueue_word = omega arith;
    disseminate_word = omega arith;
  };
  now_word = omega arith;
  pad_size = refl;
  stack_size = length-replicate {A = ℕ} 58 170;
}

sent_once : some datagram_bytes ≡ udp_disseminate one_turn
sent_once = sym (udp_disseminate_lem one_turn one_turn-IsTurn).0

-- The datagram, twice, among rounds with no datagram and an error.
abbrev udp_events : List UdpEvent
udp_events =
    Udp.silent
    ∷ Udp.arrives datagram_bytes 200
    ∷ Udp.failing
    ∷ Udp.silent
    ∷ Udp.arrives datagram_bytes 300
    ∷ Udp.silent
    ∷ []

arriving-sent : All (λ d. Memᴰ d (run_loop (map some turns))) (datagrams_of udp_events)
unfolding run_loop
arriving-sent =
    let once : Memᴰ (some datagram_bytes) (run_loop (map some turns)) =
      subst (λ d. Memᴰ d (run_loop (map some turns))) (sym sent_once) (Memᴰ.head refl) in
    (once, (once, tt))

benchmark_delivers_example :
    (p : Pace least) × (xs : List MarketDataMsg) × (r : Receiver) × (generation_loop least one_tick
        (begin 5 (configure least 100_000 (some file) generator).1)
      ≡ some p)
    × (passed_on.faulty ≡ false)
    × Holds 2 passed_on.queue xs
    × (p.pushed ≡ (traded ∷ []) ++ ([] ++ xs))
    × (length xs ≤ 2)
    × (receive_loop (map Udp.event_round udp_events) (receiver_of (some file) client) ≡ some r)
    × IsDelivered turns udp_events r
benchmark_delivers_example =
    benchmark_delivers 100_000 5 (some file) generator one_tick (ring_is_storage two) one_sending
      udp_events (omega arith) (omega (arith, two_symbols)) (omega (arith, two_symbols))
      (subst (All IsShort) (sym read_file) symbols-IsShort) (omega arith, tt) (fresh-Holds two)
      StoredReach-passed_on pushed_traded one_sending-IsSending arriving-sent

-- The message over ZeroMQ, twice, with a timeout in between.
abbrev events : List ZmqEvent
events = arrives one_turn 200 ∷ silent ∷ arrives one_turn 300 ∷ []

abbrev twice : List (Turn × ℕ)
twice = (one_turn, 200) ∷ (one_turn, 300) ∷ []

benchmark_delivers_zmq_example :
    (p : Pace least) × (xs : List MarketDataMsg) × (quotes : List LatencyRecord) × (trades : List
      LatencyRecord)
    × (generation_loop least one_tick (begin 5 (configure least 100_000 (some file) generator).1)
        ≡ some p)
    × (passed_on.faulty ≡ false)
    × Holds 2 passed_on.queue xs
    × (p.pushed ≡ (traded ∷ []) ++ ([] ++ xs))
    × (length xs ≤ 2)
    × All
        (λ (t : Turn).
          list_socket.takes
            (subscribe_symbols_file (socket_subscriber list_socket) (some file) []).1.0
            (topic (stamp t.now t.msg))
          ≡ true)
        turns
    × (zmq_receive_loop (map event_round events) client ≡ deliver_all twice client)
    × (read_lines
          (length quotes)
          (drop 29 (save_to_csv (monitor_calls (deliver_all twice client).calls)).0)
        ≡ some quotes)
    × (read_lines
          (length trades)
          (drop 29 (save_to_csv (monitor_calls (deliver_all twice client).calls)).1)
        ≡ some trades)
    × (length quotes + length trades ≡ 2)
benchmark_delivers_zmq_example =
    benchmark_delivers_zmq 100_000 5 (some file) generator one_tick (ring_is_storage two)
      list_socket [] one_sending events (omega arith) (omega (arith, two_symbols))
      (omega (arith, two_symbols)) (subst (All IsShort) (sym read_file) symbols-IsShort)
      (omega arith, tt) (fresh-Holds two) StoredReach-passed_on pushed_traded one_sending-IsSending
      (Memᴰ.head refl, (Memᴰ.head refl, tt))
