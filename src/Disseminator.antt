-- ===== src/Disseminator.antt =====
-- src/disseminator/IDisseminator.h (run_loop) and the send_impl of
-- src/disseminator/UdpDisseminator.h and src/disseminator/ZmqDisseminator.h: a message taken from the
-- queue gets its timestamp and its topic and goes out as bytes.
-- The system calls are not modelled: what is handed to `sendto` and to the ZeroMQ socket is the
-- result. What the stack held before (the bytes of `datagram` and the padding of a Trade) is an
-- argument.
pub mod Wire
mod Tests
use market_data_disseminatio.Base.Tests.{
  ℕ, ◌+◌, ◌≤◌, Bool, true, false, Option, none, some, List, [], ◌∷◌, ◌++◌, leb, if◌then◌else◌,
  ◌>>=◌, max,
}
use market_data_disseminatio.Base.Lists.{length, take, drop}
use market_data_disseminatio.Types.{
  Quote, Trade, MarketDataMsg, quote, trade, topic_header_size, sizeof_quote, sizeof_trade,
  quote_bytes, trade_bytes, symbol_of,
}

-- `payload.disseminate_timestamp = now`.
unfoldable pub stamp : ℕ → MarketDataMsg → MarketDataMsg
stamp now (quote q) = quote (record q { disseminate_timestamp = now })
stamp now (trade t) = trade (record t { disseminate_timestamp = now })

-- `topic_buf`: the type, ':' and the 8 bytes of the symbol.
unfoldable pub topic : MarketDataMsg → List ℕ
topic (quote q) = b'Q' ∷ b':' ∷ take 8 q.symbol
topic (trade t) = b'T' ∷ b':' ∷ take 8 t.symbol

-- The object that is passed as `&payload, sizeof(T)`.
unfoldable pub payload_bytes : List ℕ → MarketDataMsg → List ℕ
payload_bytes pad (quote q) = quote_bytes q
payload_bytes pad (trade t) = trade_bytes pad t

-- `memcpy(buffer + offset, bytes, length bytes)`; `none` where it would leave the buffer.
unfoldable pub copy_to : List ℕ → ℕ → List ℕ → Option (List ℕ)
copy_to buffer offset bytes =
    if leb (offset + length bytes) (length buffer)
    then some (take offset buffer ++ (bytes ++ drop (offset + length bytes) buffer))
    else none

abbrev pub buffer_size : ℕ
buffer_size = topic_header_size + max sizeof_quote sizeof_trade

-- UdpDisseminator::send_impl, up to `sendto`: the bytes of the datagram. `stack` is what the buffer
-- holds before.
unfoldable pub udp_send_impl : List ℕ → List ℕ → List ℕ → Option (List ℕ)
udp_send_impl stack topic_buf payload = do
  headed ← copy_to stack 0 (take topic_header_size topic_buf)
  datagram ← copy_to headed topic_header_size payload
  some (take (topic_header_size + length payload) datagram)

-- ZmqDisseminator::send_impl: the two parts of the message.
unfoldable pub zmq_send_impl : List ℕ → List ℕ → List ℕ × List ℕ
zmq_send_impl topic_buf payload = (take 10 topic_buf, payload)

-- One round of the loop: the message popped, the clock when it is stamped, and what the stack held.
pub record Turn : Type 0 where
  pub msg : MarketDataMsg
  pub now : ℕ
  pub pad : List ℕ
  pub stack : List ℕ

-- The body of the loop over UDP.
unfoldable pub udp_disseminate : Turn → Option (List ℕ)
udp_disseminate t =
    let msg = stamp t.now t.msg in udp_send_impl t.stack (topic msg) (payload_bytes t.pad msg)

-- `while (queue_.pop(msg, stoken))` over what the calls of `pop` return, `none` for `false`: the
-- datagrams sent. The list may end before a `false`: the loop is then still running.
unfoldable pub run_loop : List (Option Turn) → List (Option (List ℕ))
run_loop [] = []
run_loop (none ∷ pops) = []
run_loop (some t ∷ pops) = udp_disseminate t ∷ run_loop pops
