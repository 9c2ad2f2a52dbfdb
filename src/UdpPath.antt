-- ===== src/UdpPath.antt =====
-- A message over UDP, from run_loop of src/disseminator/IDisseminator.h and send_impl of
-- src/disseminator/UdpDisseminator.h to receive_loop_impl of src/feedhandler/UdpFeedHandler.h, for a
-- datagram that the network delivers whole.
pub mod Stream
mod Tests
use market_data_disseminatio.Base.Tests.{
  ℕ, zero, suc, ◌+◌, ◌^◌, ◌≤◌, ◌<◌, ◌≡◌, ◌≢◌, refl, sym, ap, ap₂, ◌∙◌, Bool, true, false, Option,
  none, some, List, [], ◌∷◌, ◌++◌, arith, leb, ltb, ◌==◌, if◌then◌else◌, ◌>>=◌, le→leb, ge→ltb,
  ==-refl, ==-false, Bool-cases, inl, inr,
}
use market_data_disseminatio.Base.Lists.{
  length, take, drop, take-append, drop-append, take-all, length-append,
}
use market_data_disseminatio.Base.Bytes.{of_bytes}
use market_data_disseminatio.Types.{
  Quote, Trade, MarketDataMsg, quote, trade, IsMsg, quote_bytes, trade_bytes, quote_of_bytes,
  trade_of_bytes, symbol_of,
}
use market_data_disseminatio.Types.Layout.{
  length-quote_bytes, length-trade_bytes, quote_of_bytes-quote_bytes, trade_of_bytes-trade_bytes,
}
use market_data_disseminatio.Symbols.{stored_symbol, pack_symbol, IsText}
use market_data_disseminatio.Symbols.Pack.{stored_symbol-fits, stored_symbol-cut}
use market_data_disseminatio.Disseminator.{stamp, topic, payload_bytes, Turn, udp_disseminate}
use market_data_disseminatio.Disseminator.Wire.{
  IsTurn, udp_disseminate_lem, length-topic, length-payload_bytes, sizeof_msg-le,
}
use market_data_disseminatio.FeedHandler.{
  contains, insert, unpack, handle_datagram, first_byte, receive_buffer_size,
}

symbol-stamp : (now : ℕ) (msg : MarketDataMsg) → symbol_of (stamp now msg) ≡ symbol_of msg
unfolding stamp
symbol-stamp now (quote q) = refl
symbol-stamp now (trade t) = refl

size_symbol : (msg : MarketDataMsg) → IsMsg msg → length (symbol_of msg) ≡ 8
size_symbol (quote q) v = v.symbol_size
size_symbol (trade t) v = v.symbol_size

-- The topic holds the symbol behind its two letters.
symbol_in_topic :
    (msg : MarketDataMsg) (rest : List ℕ)
    → IsMsg msg
    → take 8 (drop 2 (topic msg ++ rest)) ≡ symbol_of msg
unfolding topic
symbol_in_topic (quote q) rest v =
    ap (λ l. take 8 (l ++ rest)) (take-all 8 q.symbol (omega (arith, v.symbol_size)))
    ∙ take-append 8 q.symbol rest v.symbol_size
symbol_in_topic (trade t) rest v =
    ap (λ l. take 8 (l ++ rest)) (take-all 8 t.symbol (omega (arith, v.symbol_size)))
    ∙ take-append 8 t.symbol rest v.symbol_size

pub unpack_payload :
    (pad : List ℕ) (msg : MarketDataMsg) (rest : List ℕ)
    → length pad ≡ 4
    → IsMsg msg
    → unpack (first_byte (topic msg ++ rest)) (payload_bytes pad msg) ≡ some msg
unfolding unpack topic payload_bytes
unpack_payload pad (quote q) rest p v =
    rw (length-quote_bytes q v.symbol_size)
      (ap (λ q. some (quote q)) (quote_of_bytes-quote_bytes v))
unpack_payload pad (trade t) rest p v =
    rw (length-trade_bytes pad t p v.symbol_size)
      (ap (λ t. some (trade t)) (trade_of_bytes-trade_bytes pad p v))

-- The receive loop unpacks what the disseminator packed, if the symbol is subscribed to.
handle_datagram-topic :
    (subs pad : List ℕ) (msg : MarketDataMsg)
    → length pad ≡ 4
    → IsMsg msg
    → handle_datagram subs (topic msg ++ payload_bytes pad msg)
      ≡ (if contains subs (of_bytes (symbol_of msg)) then some msg else none)
unfolding handle_datagram
handle_datagram-topic subs pad msg p v = rw (
  ge→ltb (length (topic msg ++ payload_bytes pad msg)) 10
      (omega (arith, length-append (topic msg) (payload_bytes pad msg), length-topic msg v)),
  symbol_in_topic msg (payload_bytes pad msg) v,
  drop-append 10 (topic msg) (payload_bytes pad msg) (length-topic msg v),
  unpack_payload pad msg (payload_bytes pad msg) p v,
)

-- A message that the disseminator sends over UDP reaches a subscriber to its symbol bit for bit, with
-- the dissemination time put in, and nobody else.
pub udp_delivery :
    (t : Turn) (subs : List ℕ)
    → IsTurn t
    → (bytes : List ℕ) × (udp_disseminate t ≡ some bytes)
      × (handle_datagram subs (take receive_buffer_size bytes)
          ≡ (if contains subs (of_bytes (symbol_of t.msg)) then some (stamp t.now t.msg) else none))
udp_delivery t subs v =
    let msg = stamp t.now t.msg in
    let (sent, size, ok) = udp_disseminate_lem t v in
    (
      topic msg ++ payload_bytes t.pad msg,
      sent,
      ap (handle_datagram subs) (
            take-all 1024 (topic msg ++ payload_bytes t.pad msg)
              (omega (arith, size, sizeof_msg-le msg)))
          ∙ handle_datagram-topic subs t.pad msg v.pad_size ok
          ∙ ap (λ s. if contains subs (of_bytes s) then some msg else none)
              (symbol-stamp t.now t.msg),
    )

-- For a message about a symbol of at most 7 bytes, the subscriber's filter is decided by that
-- symbol's own packed number.
pub udp_delivery_by_symbol :
    (t : Turn) (subs s : List ℕ)
    → IsTurn t
    → symbol_of t.msg ≡ stored_symbol s
    → length s ≤ 7
    → IsText s
    → (bytes : List ℕ) × (udp_disseminate t ≡ some bytes)
      × (handle_datagram subs (take receive_buffer_size bytes)
          ≡ (if contains subs (pack_symbol s) then some (stamp t.now t.msg) else none))
udp_delivery_by_symbol t subs s v e short text =
    let (bytes, sent, got) = udp_delivery t subs v in
    (
      bytes,
      sent,
      got
          ∙ ap (λ n. if contains subs n then some (stamp t.now t.msg) else none)
              (ap of_bytes e ∙ stored_symbol-fits s short text),
    )

-- A message whose symbol is stored as the generator stores a symbol of 8 bytes with no NUL, cut to 7 bytes
-- and a NUL, never reaches a client that has subscribed to that symbol only.
pub udp_long_symbol_lost :
    (t : Turn) (s : List ℕ)
    → IsTurn t
    → symbol_of t.msg ≡ stored_symbol s
    → length s ≡ 8
    → IsText s
    → (bytes : List ℕ) × (udp_disseminate t ≡ some bytes)
      × (handle_datagram (insert (pack_symbol s) []) (take receive_buffer_size bytes) ≡ none)
unfolding insert contains
udp_long_symbol_lost t s v e long text =
    let (bytes, sent, got) = udp_delivery t (insert (pack_symbol s) []) v in
    (
      bytes,
      sent,
      got
          ∙ rw (
            e,
            ==-false (pack_symbol s) (of_bytes (stored_symbol s))
                (λ p. stored_symbol-cut s long text (sym p)),
          ),
    )
