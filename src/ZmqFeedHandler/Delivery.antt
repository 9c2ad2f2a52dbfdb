-- ===== src/ZmqFeedHandler/Delivery.antt =====
-- Messages over ZeroMQ: from send_impl of src/disseminator/ZmqDisseminator.h to the client.
use mathlib.Core.List.{append-nil}
use market_data_disseminatio.Base.Tests.{
  ℕ, zero, suc, ◌≤◌, ◌≡◌, refl, sym, ap, ◌∙◌, Bool, true, false, ◌||◌, some, List, [], ◌∷◌, ◌++◌,
  arith, map, ==-refl, ==-false, if◌then◌else◌, ge→ltb,
}
use market_data_disseminatio.Base.Lists.{length, take, take-all, All}
use market_data_disseminatio.Types.{MarketDataMsg, quote, trade, IsMsg, symbol_of}
use market_data_disseminatio.Symbols.{strncpy, stored_symbol, IsText}
use market_data_disseminatio.Disseminator.{stamp, topic, payload_bytes, zmq_send_impl, Turn}
use market_data_disseminatio.Disseminator.Wire.{IsTurn, length-topic, stamp-IsMsg}
use market_data_disseminatio.FeedHandler.{Client, deliver_to_client, unpack, first_byte}
use market_data_disseminatio.UdpPath.{unpack_payload}
use market_data_disseminatio.ZmqFeedHandler.{
  is_prefix, Socket, zmq_subscribe_impl, part, ZmqRound, on_parts, on_second, on_first,
  zmq_receive_loop,
}

prefix-strncpy :
    (n : ℕ) (s more rest : List ℕ)
    → length s ≤ n
    → IsText s
    → is_prefix s (strncpy n (s ++ more) ++ rest) ≡ true
unfolding strncpy
prefix-strncpy n [] more rest h p = refl
prefix-strncpy zero (c ∷ s) more rest h p = absurd (omega arith)
prefix-strncpy (suc n) (c ∷ s) more rest h p =
    rw (==-false c 0 (omega arith), ==-refl c) (prefix-strncpy n s more rest (omega arith) p.1)

prefix_symbol :
    (s more : List ℕ) → length s ≤ 7 → IsText s → is_prefix s (stored_symbol (s ++ more)) ≡ true
unfolding stored_symbol
prefix_symbol s more h p = prefix-strncpy 7 s more (0 ∷ []) h p

-- A subscription to a symbol of at most 7 bytes with no NUL takes the messages about this symbol, and
-- also those about every longer symbol that begins with it.
pub zmq_prefix_taken :
    (socket : Socket) (state : socket.State) (s more : List ℕ) (msg : MarketDataMsg)
    → length s ≤ 7
    → IsText s
    → IsMsg msg
    → symbol_of msg ≡ stored_symbol (s ++ more)
    → socket.takes (zmq_subscribe_impl socket s state) (topic msg) ≡ true
unfolding zmq_subscribe_impl topic
zmq_prefix_taken socket state s more (quote q) h p v e =
    socket.takes_subscribe (b'T' ∷ b':' ∷ s) (b'Q' ∷ b':' ∷ take 8 q.symbol) _
    ∙ socket.takes_subscribe (b'Q' ∷ b':' ∷ s) (b'Q' ∷ b':' ∷ take 8 q.symbol) state
    ∙ ap (λ l. is_prefix s l || socket.takes state (b'Q' ∷ b':' ∷ take 8 q.symbol))
        (take-all 8 q.symbol (omega (arith, v.symbol_size)) ∙ e)
    ∙ ap (λ b. b || socket.takes state (b'Q' ∷ b':' ∷ take 8 q.symbol)) (prefix_symbol s more h p)
zmq_prefix_taken socket state s more (trade t) h p v e =
    socket.takes_subscribe (b'T' ∷ b':' ∷ s) (b'T' ∷ b':' ∷ take 8 t.symbol) _
    ∙ ap
        (λ l.
          is_prefix s l
          || socket.takes (socket.subscribe (b'Q' ∷ b':' ∷ s) state)
              (b'T' ∷ b':' ∷ take 8 t.symbol))
        (take-all 8 t.symbol (omega (arith, v.symbol_size)) ∙ e)
    ∙ ap
        (λ b.
          b
          || socket.takes (socket.subscribe (b'Q' ∷ b':' ∷ s) state)
              (b'T' ∷ b':' ∷ take 8 t.symbol))
        (prefix_symbol s more h p)

-- A round of the loop in which the two parts of a turn's message arrive, at time `t3`.
abbrev pub round_of : Turn × ℕ → ZmqRound
round_of (t, t3) =
    let sent =
      zmq_send_impl (topic (stamp t.now t.msg)) (payload_bytes t.pad (stamp t.now t.msg)) in
    record {
      stop_requested = false;
      first = part sent.0;
      more = true;
      second = part sent.1;
      now = t3;
    }

-- The client's callbacks called for the messages, in order.
abbrev pub deliver_all : List (Turn × ℕ) → Client → Client
deliver_all [] c = c
deliver_all ((t, t3) ∷ turns) c = deliver_all turns (deliver_to_client t3 (stamp t.now t.msg) c)

on_parts-topic :
    (pad : List ℕ) (msg : MarketDataMsg) (t3 : ℕ) (c : Client)
    → length pad ≡ 4
    → IsMsg msg
    → on_parts t3 (topic msg) (payload_bytes pad msg) c ≡ deliver_to_client t3 msg c
unfolding on_parts
on_parts-topic pad msg t3 c p v =
    let unpacked : unpack (first_byte (topic msg)) (payload_bytes pad msg) ≡ some msg =
      ap (λ l. unpack (first_byte l) (payload_bytes pad msg)) (sym (append-nil (topic msg)))
      ∙ unpack_payload pad msg [] p v in
    rw (ge→ltb (length (topic msg)) 1 (omega (arith, length-topic msg v)), unpacked) refl

pub on_first-round_of :
    (t : Turn) (t3 : ℕ) (c : Client)
    → IsTurn t
    → on_first (round_of (t, t3)) (round_of (t, t3)).first c
      ≡ (true, deliver_to_client t3 (stamp t.now t.msg) c)
unfolding on_first on_second zmq_send_impl
on_first-round_of t t3 c v =
    let msg = stamp t.now t.msg in
    let ok = stamp-IsMsg t.now t.msg v.now_word v.msg_ok in
    ap (λ l. (true, on_parts t3 l (payload_bytes t.pad msg) c))
      (take-all 10 (topic msg) (omega (arith, length-topic msg ok)))
    ∙ ap (λ d. (true, d)) (on_parts-topic t.pad msg t3 c v.pad_size ok)

-- When the two parts of each message arrive whole, the client's callbacks are called for every message,
-- in order, bit for bit as it was stamped.
pub zmq_delivery :
    (turns : List (Turn × ℕ)) (c : Client)
    → All (λ p. IsTurn p.0) turns
    → zmq_receive_loop (map round_of turns) c ≡ deliver_all turns c
unfolding zmq_receive_loop
zmq_delivery [] c v = refl
zmq_delivery ((t, t3) ∷ turns) c v =
    ap
      (λ (after : Bool × Client).
        let rest = zmq_receive_loop (map round_of turns) after.1 in
        if after.0 then rest else after.1)
      (on_first-round_of t t3 c v.0)
    ∙ zmq_delivery turns (deliver_to_client t3 (stamp t.now t.msg) c) v.1
