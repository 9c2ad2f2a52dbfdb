-- ===== src/ZmqFeedHandler.antt =====
-- src/feedhandler/ZmqFeedHandler.h: subscriptions by topic prefix, and the receive loop over messages of
-- two parts. The ZeroMQ socket is a parameter; what its calls return in each round of the loop is an
-- argument.
pub mod Delivery
pub mod Events
pub mod ListSocket
mod Tests
use market_data_disseminatio.Base.Tests.{
  ℕ, Bool, true, false, not, ◌&&◌, ◌||◌, ◌≡◌, Option, none, some, List, [], ◌∷◌, ◌++◌, ltb, ◌==◌,
  if◌then◌else◌,
}
use market_data_disseminatio.Base.Lists.{length}
use market_data_disseminatio.FeedHandler.{Client, unpack, first_byte, deliver_to_client}

abbrev pub is_prefix : List ℕ → List ℕ → Bool
is_prefix [] t = true
is_prefix (c ∷ p) [] = false
is_prefix (c ∷ p) (d ∷ t) = (c == d) && is_prefix p t

-- A SUB socket. It takes a message whose topic begins with one of its subscriptions.
pub record Socket : Type 1 where
  pub State : Type 0
  pub subscribe : List ℕ → State → State
  pub unsubscribe : List ℕ → State → State
  pub takes : State → List ℕ → Bool
  pub takes_subscribe :
      (prefix topic : List ℕ) (s : State)
      → takes (subscribe prefix s) topic ≡ (is_prefix prefix topic || takes s topic)

unfoldable pub zmq_subscribe_impl : (socket : Socket) → List ℕ → socket.State → socket.State
zmq_subscribe_impl socket symbol s =
    socket.subscribe (b'T' ∷ b':' ∷ symbol) (socket.subscribe (b'Q' ∷ b':' ∷ symbol) s)

unfoldable pub zmq_unsubscribe_impl : (socket : Socket) → List ℕ → socket.State → socket.State
zmq_unsubscribe_impl socket symbol s =
    socket.unsubscribe (b'T' ∷ b':' ∷ symbol) (socket.unsubscribe (b'Q' ∷ b':' ∷ symbol) s)

-- What a call of `recv` does: it times out, throws (`true` for ETERM or ENOTSOCK), or returns a part.
pub data Recv : Type 0 where
  timed_out : Recv
  thrown : Bool → Recv
  part : List ℕ → Recv

-- `more` is the answer to `rcvmore`; `second` is the call made then.
pub record ZmqRound : Type 0 where
  pub stop_requested : Bool
  pub first : Recv
  pub more : Bool
  pub second : Recv
  pub now : ℕ

-- The two parts of a message: `topic_msg.size() < 1` is skipped, the rest goes by the type byte and the
-- size of the payload.
unfoldable pub on_parts : ℕ → List ℕ → List ℕ → Client → Client
on_parts now topic_msg payload_msg c =
    if ltb (length topic_msg) 1 then c else (elim (unpack (first_byte topic_msg) payload_msg) [
      | none ↦ c
      | some msg ↦ deliver_to_client now msg c
    ])

-- The second `recv` and what follows; whether the loop goes on.
unfoldable pub on_second : ℕ → List ℕ → Recv → Client → Bool × Client
on_second now topic_msg timed_out c = (true, c)
on_second now topic_msg (thrown ends) c = (not ends, c)
on_second now topic_msg (part payload_msg) c = (true, on_parts now topic_msg payload_msg c)

-- The body of the loop, with its handler.
unfoldable pub on_first : ZmqRound → Recv → Client → Bool × Client
on_first r timed_out c = (true, c)
on_first r (thrown ends) c = (not ends, c)
on_first r (part topic_msg) c = if r.more then on_second r.now topic_msg r.second c else (true, c)

unfoldable pub zmq_receive_loop : List ZmqRound → Client → Client
zmq_receive_loop [] c = c
zmq_receive_loop (r ∷ rounds) c =
    let after = on_first r r.first c in
    let rest = zmq_receive_loop rounds after.1 in
    if r.stop_requested then c else if after.0 then rest else after.1
