-- ===== src/Benchmark/Taken.antt =====
-- Over ZeroMQ, the generator's messages are among those that the socket takes once the benchmark has
-- subscribed.
use mathlib.Core.List.{append-nil}
use market_data_disseminatio.Base.Tests.{
  ℕ, zero, suc, ◌+◌, ◌≡◌, refl, sym, ap, subst, ◌∙◌, Bool, true, false, ◌||◌, Option, some, List,
  [], ◌∷◌,
}
use market_data_disseminatio.Base.Lists.{get_elem?, All}
use market_data_disseminatio.Types.{MarketDataMsg, quote, trade, IsMsg, symbol_of}
use market_data_disseminatio.Symbols.{read_symbols_file, stored_symbol}
use market_data_disseminatio.Disseminator.{stamp, topic, Turn}
use market_data_disseminatio.ZmqFeedHandler.{Socket, zmq_subscribe_impl, is_prefix}
use market_data_disseminatio.ZmqFeedHandler.Delivery.{zmq_prefix_taken}
use market_data_disseminatio.Generator.Made.{IsMade}
use market_data_disseminatio.Benchmark.{Subscriber, subscribe_symbols_file}
use market_data_disseminatio.Benchmark.Subscriptions.{subscribe_each, subscribe_symbols_file_lem}
use market_data_disseminatio.Benchmark.Delivery.{IsShort, IsShort-of, Sending, turns_of}

-- A feed handler whose socket refuses no option, so that `subscribe` never throws. Benchmark/Zmq has the one
-- whose `set` may throw.
abbrev pub socket_subscriber : Socket → Subscriber
socket_subscriber socket = record {
  State = socket.State;
  subscribe_one = λ symbol s. (true, zmq_subscribe_impl socket symbol s);
}

or-true : (a : Bool) → (a || true) ≡ true
or-true true = refl
or-true false = refl

topic-stamp : (now : ℕ) (msg : MarketDataMsg) → topic (stamp now msg) ≡ topic msg
unfolding topic stamp
topic-stamp now (quote q) = refl
topic-stamp now (trade t) = refl

module _ (socket : Socket) where
  -- A subscription takes nothing away.
  zmq_subscribe_impl-takes :
      (symbol bytes : List ℕ) (s : socket.State)
      → socket.takes s bytes ≡ true
      → socket.takes (zmq_subscribe_impl socket symbol s) bytes ≡ true
  unfolding zmq_subscribe_impl
  zmq_subscribe_impl-takes symbol bytes s taken =
      let q = b'Q' ∷ b':' ∷ symbol in
      let t = b'T' ∷ b':' ∷ symbol in
      socket.takes_subscribe t bytes (socket.subscribe q s)
      ∙ ap (λ b. is_prefix t bytes || b)
          (socket.takes_subscribe q bytes s
            ∙ ap (λ b. is_prefix q bytes || b) taken
            ∙ or-true (is_prefix q bytes))
      ∙ or-true (is_prefix t bytes)

  subscribe_each-keeps :
      (symbols : List (List ℕ)) (bytes : List ℕ) (s : socket.State) (n : ℕ)
      → socket.takes s bytes ≡ true
      → socket.takes (subscribe_each (socket_subscriber socket) symbols (s, n)).1.0 bytes ≡ true
  unfolding subscribe_each
  subscribe_each-keeps [] bytes s n taken = taken
  subscribe_each-keeps (symbol ∷ symbols) bytes s n taken =
      subscribe_each-keeps symbols bytes (zmq_subscribe_impl socket symbol s) (n + 1)
        (zmq_subscribe_impl-takes symbol bytes s taken)

  -- The messages about a symbol that is subscribed to are taken.
  subscribe_each-takes :
      (symbols : List (List ℕ)) (i : ℕ) {symbol : List ℕ} (msg : MarketDataMsg) (s : socket.State)
      (n : ℕ)
      → get_elem? symbols i ≡ some symbol
      → IsShort symbol
      → IsMsg msg
      → symbol_of msg ≡ stored_symbol symbol
      → socket.takes (subscribe_each (socket_subscriber socket) symbols (s, n)).1.0 (topic msg)
        ≡ true
  unfolding subscribe_each
  subscribe_each-takes [] i msg s n listed short v e = cc
  subscribe_each-takes (t ∷ symbols) zero {symbol} msg s n listed short v e =
      let same : t ≡ symbol = cc in
      let is_short = subst IsShort (sym same) short in
      subscribe_each-keeps symbols (topic msg) (zmq_subscribe_impl socket t s) (n + 1) (
        zmq_prefix_taken socket s t [] msg is_short.short is_short.text v
          (e ∙ ap stored_symbol (sym same ∙ sym (append-nil t))))
  subscribe_each-takes (t ∷ symbols) (suc i) msg s n listed short v e =
      subscribe_each-takes symbols i msg (zmq_subscribe_impl socket t s) (n + 1) listed short v e

  -- The socket takes the messages that the generator makes, as they are stamped.
  pub made-taken :
      (file : Option (List ℕ)) (s : socket.State) (msgs : List MarketDataMsg)
      (sendings : List Sending)
      → All IsShort (read_symbols_file file)
      → All (IsMade (read_symbols_file file)) msgs
      → All
          (λ (t : Turn).
            socket.takes
              (subscribe_symbols_file (socket_subscriber socket) file s).1.0
              (topic (stamp t.now t.msg))
            ≡ true)
          (turns_of msgs sendings)
  made-taken file s [] sendings shorts made = tt
  made-taken file s (msg ∷ msgs) [] shorts made = tt
  made-taken file s (msg ∷ msgs) (e ∷ sendings) shorts made =
      let v = made.0 in
      let symbols = read_symbols_file file in
      (
        ap (λ (r : Bool × (socket.State × ℕ)). socket.takes r.1.0 (topic (stamp e.now msg)))
              (subscribe_symbols_file_lem (socket_subscriber socket) file s)
            ∙ ap (socket.takes (subscribe_each (socket_subscriber socket) symbols (s, 0)).1.0)
                (topic-stamp e.now msg)
            ∙ subscribe_each-takes symbols v.idx msg s 0 v.listed
                (IsShort-of symbols v.idx shorts v.listed) v.msg_ok v.stored,
        made-taken file s msgs sendings shorts made.1,
      )
