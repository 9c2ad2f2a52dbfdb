-- ===== src/FeedHandler.antt =====
-- src/feedhandler/IFeedHandler.h and src/feedhandler/UdpFeedHandler.h: subscriptions go through a
-- command queue of 128 places to the receiving thread, which filters datagrams by their packed symbol
-- and hands the messages to the client's callbacks.
-- The socket is not modelled: what `recvfrom` returns in each round is an argument. The thread that
-- calls `subscribe` acts before any of the pops of the receive loop, also while it drains the command
-- queue; a push and a pop count as one step each, and Queue/Concurrent has their interleavings.
pub mod Filter
pub mod Commands
pub mod Requests
pub mod Loop
pub mod Subscribed
mod Tests
use market_data_disseminatio.Base.Tests.{
  ℕ, zero, suc, ◌+◌, ◌-◌, Bool, true, false, ◌&&◌, ◌||◌, Option, none, some, List, [], ◌∷◌, ◌++◌,
  ltb, ◌==◌, if◌then◌else◌, ◌>>=◌,
}
use market_data_disseminatio.Base.Lists.{length, take, drop, get_elem?}
use market_data_disseminatio.Base.Bytes.{of_bytes}
use market_data_disseminatio.Types.{
  MarketDataMsg, quote, trade, topic_header_size, sizeof_quote, sizeof_trade, quote_of_bytes,
  trade_of_bytes,
}
use market_data_disseminatio.Queue.{CustomSpscQueue, Popped, nothing, item, undefined, push, pop}
use market_data_disseminatio.Symbols.{pack_symbol}

pub record SubCommand : Type 0 where
  pub is_subscribe : Bool
  pub symbol_id : ℕ

-- `std::unordered_set<uint64_t>`: its elements, in some order.
unfoldable pub contains : List ℕ → ℕ → Bool
contains [] a = false
contains (x ∷ xs) a = x == a || contains xs a

unfoldable pub insert : ℕ → List ℕ → List ℕ
unfolding contains
insert a xs = if contains xs a then xs else a ∷ xs

unfoldable pub erase : ℕ → List ℕ → List ℕ
erase a [] = []
erase a (x ∷ xs) = let rest = erase a xs in if x == a then rest else x ∷ rest

abbrev pub command_capacity : ℕ
command_capacity = 128

abbrev pub CommandQueue : Type 0
CommandQueue = CustomSpscQueue SubCommand

-- The result of `push` is not looked at.
unfoldable pub subscribe_impl : List ℕ → CommandQueue → CommandQueue
subscribe_impl symbol q =
    (push command_capacity q (record { is_subscribe = true; symbol_id = pack_symbol symbol })).1

unfoldable pub unsubscribe_impl : List ℕ → CommandQueue → CommandQueue
unsubscribe_impl symbol q =
    (push command_capacity q (record { is_subscribe = false; symbol_id = pack_symbol symbol })).1

-- A call of the client: IFeedHandler::subscribe and IFeedHandler::unsubscribe.
pub data Request : Type 0 where
  subscribe : List ℕ → Request
  unsubscribe : List ℕ → Request

unfoldable pub request : Request → CommandQueue → CommandQueue
request (subscribe symbol) q = subscribe_impl symbol q
request (unsubscribe symbol) q = unsubscribe_impl symbol q

unfoldable pub requests : List Request → CommandQueue → CommandQueue
requests [] q = q
requests (r ∷ rs) q = requests rs (request r q)

unfoldable pub apply_command : SubCommand → List ℕ → List ℕ
apply_command cmd subs =
    if cmd.is_subscribe then insert cmd.symbol_id subs else erase cmd.symbol_id subs

-- `while (command_queue_.pop(cmd))`, from where no push comes any more from the other thread; `none` where
-- the fuel runs out or a raw cell is read.
unfoldable pub drain : ℕ → CommandQueue → List ℕ → Option (CommandQueue × List ℕ)
drain zero q subs = none
drain (suc fuel) q subs =
    let (popped, q') = pop command_capacity q in
    elim popped [
      | nothing ↦ some (q', subs)
      | item cmd ↦ drain fuel q' (apply_command cmd subs)
      | undefined ↦ none
    ]

-- The same loop with the client's calls before each pop, as long as they come: behind them, the queue holds at
-- most 128 commands, so 129 calls of `pop` end it.
unfoldable pub drain_beside :
    List (List Request) → CommandQueue → List ℕ → Option (CommandQueue × List ℕ)
drain_beside [] q subs = drain (suc command_capacity) q subs
drain_beside (called ∷ beside) q subs =
    let (popped, q') = pop command_capacity (requests called q) in
    elim popped [
      | nothing ↦ some (q', subs)
      | item cmd ↦ drain_beside beside q' (apply_command cmd subs)
      | undefined ↦ none
    ]

-- The dispatch on the type byte and the payload's size.
unfoldable pub unpack : ℕ → List ℕ → Option MarketDataMsg
unpack msg_type payload =
    if msg_type == b'Q' && length payload == sizeof_quote
    then some (quote (quote_of_bytes payload))
    else if msg_type == b'T' && length payload == sizeof_trade
    then some (trade (trade_of_bytes payload))
    else none

abbrev pub first_byte : List ℕ → ℕ
first_byte [] = 0
first_byte (b ∷ bytes) = b

-- The body of the loop from the check of `bytes_recvd` on, with the bytes received in the buffer:
-- the message that is delivered, or `none` for a `continue`.
unfoldable pub handle_datagram : List ℕ → List ℕ → Option MarketDataMsg
handle_datagram subs bytes =
    if ltb (length bytes) topic_header_size
    then none
    else if contains subs (of_bytes (take 8 (drop 2 bytes)))
    then unpack (first_byte bytes) (drop topic_header_size bytes)
    else none

-- What `recvfrom` returns: -1, with the queue of datagrams empty or for another reason, or a datagram,
-- of which the buffer takes 1024 bytes.
pub data Received : Type 0 where
  would_block : Received
  failed : Received
  datagram : List ℕ → Received

abbrev pub receive_buffer_size : ℕ
receive_buffer_size = 1024

-- The callbacks that are set, and the calls made to them, the latest first.
pub record Client : Type 0 where
  pub has_on_quote : Bool
  pub has_on_trade : Bool
  pub calls : List (MarketDataMsg × ℕ)

-- deliver_to_client, with the clock's `t3`.
unfoldable pub deliver_to_client : ℕ → MarketDataMsg → Client → Client
deliver_to_client t3 (quote q) c =
    if c.has_on_quote then record c { calls = (quote q, t3) ∷ c.calls } else c
deliver_to_client t3 (trade t) c =
    if c.has_on_trade then record c { calls = (trade t, t3) ∷ c.calls } else c

unfoldable pub on_received : ℕ → List ℕ → Received → Client → Client
on_received t3 subs would_block c = c
on_received t3 subs failed c = c
on_received t3 subs (datagram bytes) c =
    elim (handle_datagram subs (take receive_buffer_size bytes)) [
      | none ↦ c
      | some msg ↦ deliver_to_client t3 msg c
    ]

-- The state that the receive loop works on.
pub record Receiver : Type 0 where
  pub command_queue : CommandQueue
  pub local_subscriptions : List ℕ
  pub client : Client

-- What a round of the loop meets: the stop token; the client's calls, those since the last drain first, and
-- then those before each further pop of the drain, which are not made where the drain has ended before; the
-- result of `recvfrom`; the clock.
pub record Round : Type 0 where
  pub stop_requested : Bool
  pub called : List (List Request)
  pub received : Received
  pub now : ℕ

-- One round: the commands are drained, and then the socket is read.
unfoldable pub receive_round : Round → Receiver → Option Receiver
receive_round round r = do
  (queue, subs) ← drain_beside round.called r.command_queue r.local_subscriptions
  some (record {
    command_queue = queue;
    local_subscriptions = subs;
    client = on_received round.now subs round.received r.client;
  })

-- The loop over its rounds: it ends at a stop, or is still running where the list ends.
unfoldable pub receive_loop : List Round → Receiver → Option Receiver
receive_loop [] r = some r
receive_loop (round ∷ rounds) r =
    if round.stop_requested then some r else (receive_round round r >>= receive_loop rounds)
