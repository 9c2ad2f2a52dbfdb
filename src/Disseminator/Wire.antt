-- ===== src/Disseminator/Wire.antt =====
-- The bytes that go out for a message.
use mathlib.Core.List.{append_assoc}
use market_data_disseminatio.Base.Tests.{
  ℕ, suc, ◌+◌, ◌^◌, ◌≤◌, ◌<◌, ◌≡◌, sym, ap, ◌∙◌, Option, some, List, ◌++◌, arith, ◌>>=◌, le→leb,
}
use market_data_disseminatio.Base.Lists.{
  length, take, drop, take-append, take-all, length-append, length-drop,
}
use market_data_disseminatio.Types.{
  MarketDataMsg, quote, trade, IsMsg, topic_header_size, sizeof_quote, sizeof_trade,
}
use market_data_disseminatio.Types.Layout.{length-quote_bytes, length-trade_bytes}
use market_data_disseminatio.Disseminator.{
  stamp, topic, payload_bytes, copy_to, buffer_size, udp_send_impl, Turn, udp_disseminate,
}

pub length-topic : (msg : MarketDataMsg) → IsMsg msg → length (topic msg) ≡ topic_header_size
unfolding topic
length-topic (quote q) v =
    ap (λ l. suc (suc (length l))) (take-all 8 q.symbol (omega (arith, v.symbol_size)))
    ∙ ap (λ n. suc (suc n)) v.symbol_size
length-topic (trade t) v =
    ap (λ l. suc (suc (length l))) (take-all 8 t.symbol (omega (arith, v.symbol_size)))
    ∙ ap (λ n. suc (suc n)) v.symbol_size

-- sizeof of the alternative that the message holds.
abbrev pub sizeof_msg : MarketDataMsg → ℕ
sizeof_msg (quote q) = sizeof_quote
sizeof_msg (trade t) = sizeof_trade

pub length-payload_bytes :
    (pad : List ℕ) (msg : MarketDataMsg)
    → length pad ≡ 4
    → IsMsg msg
    → length (payload_bytes pad msg) ≡ sizeof_msg msg
unfolding payload_bytes
length-payload_bytes pad (quote q) p v = length-quote_bytes q v.symbol_size
length-payload_bytes pad (trade t) p v = length-trade_bytes pad t p v.symbol_size

pub sizeof_msg-le : (msg : MarketDataMsg) → sizeof_msg msg ≤ 48
sizeof_msg-le (quote q) = omega arith
sizeof_msg-le (trade t) = omega arith

copy_to-fits :
    (buffer bytes : List ℕ) (offset : ℕ)
    → offset + length bytes ≤ length buffer
    → copy_to buffer offset bytes
      ≡ some (take offset buffer ++ (bytes ++ drop (offset + length bytes) buffer))
unfolding copy_to
copy_to-fits buffer bytes offset h = rw (le→leb (offset + length bytes) (length buffer) h)

-- A topic of 10 bytes and a payload that is no longer than the largest message fit the buffer, and
-- the datagram is the one behind the other: nothing of the old contents of the stack goes out.
udp_send_impl_lem :
    (stack topic_buf payload : List ℕ)
    → length stack ≡ buffer_size
    → length topic_buf ≡ topic_header_size
    → topic_header_size + length payload ≤ buffer_size
    → udp_send_impl stack topic_buf payload ≡ some (topic_buf ++ payload)
unfolding udp_send_impl
udp_send_impl_lem stack topic_buf payload hs ht hp =
    ap (λ t. copy_to stack 0 t >>= send) (take-all 10 topic_buf (omega arith))
    ∙ ap (λ o. o >>= send) (copy_to-fits stack topic_buf 0 (omega arith))
    ∙ ap (λ o. o >>= cut)
        (copy_to-fits (topic_buf ++ rest) payload 10
          (omega (arith, length-append topic_buf rest, length-drop (0 + length topic_buf) stack)))
    ∙ ap (λ t. some (take (10 + length payload) (t ++ (payload ++ junk))))
        (take-append 10 topic_buf rest ht)
    ∙ ap (λ l. some (take (10 + length payload) l)) (sym (append_assoc topic_buf payload junk))
    ∙ ap some (
        take-append (10 + length payload) (topic_buf ++ payload) junk
          (omega (arith, length-append topic_buf payload)))
  where
    rest : List ℕ
    rest = drop (0 + length topic_buf) stack

    junk : List ℕ
    junk = drop (10 + length payload) (topic_buf ++ rest)

    cut : List ℕ → Option (List ℕ)
    cut datagram = some (take (10 + length payload) datagram)

    send : List ℕ → Option (List ℕ)
    send headed = copy_to headed 10 payload >>= cut

pub stamp-IsMsg : (now : ℕ) (msg : MarketDataMsg) → now < 2 ^ 64 → IsMsg msg → IsMsg (stamp now msg)
unfolding stamp
stamp-IsMsg now (quote q) h v = record {
  symbol_size = v.symbol_size;
  symbol_bytes = v.symbol_bytes;
  bid_word = v.bid_word;
  ask_word = v.ask_word;
  bid_size_word = v.bid_size_word;
  ask_size_word = v.ask_size_word;
  enqueue_word = v.enqueue_word;
  disseminate_word = h;
}
stamp-IsMsg now (trade t) h v = record {
  symbol_size = v.symbol_size;
  symbol_bytes = v.symbol_bytes;
  price_word = v.price_word;
  size_word = v.size_word;
  enqueue_word = v.enqueue_word;
  disseminate_word = h;
}

-- What a round of the loop meets on the target: values of their C++ types, and objects of their
-- sizes.
pub record IsTurn (t : Turn) : Type 0 where
  pub msg_ok : IsMsg t.msg
  pub now_word : t.now < 2 ^ 64
  pub pad_size : length t.pad ≡ 4
  pub stack_size : length t.stack ≡ buffer_size

-- Every message goes out as one datagram: the topic of 10 bytes and the object's bytes with the
-- dissemination time put in, 58 bytes for a quote and 50 for a trade; the copies stay in the buffer.
pub udp_disseminate_lem :
    (t : Turn)
    → IsTurn t
    → let msg = stamp t.now t.msg in
      (udp_disseminate t ≡ some (topic msg ++ payload_bytes t.pad msg))
      × (length (topic msg ++ payload_bytes t.pad msg) ≡ topic_header_size + sizeof_msg msg)
      × IsMsg msg
unfolding udp_disseminate
udp_disseminate_lem t v =
    let ok = stamp-IsMsg t.now t.msg v.now_word v.msg_ok in
    let msg = stamp t.now t.msg in
    (
      udp_send_impl_lem t.stack (topic msg) (payload_bytes t.pad msg) v.stack_size
          (length-topic msg ok)
          (omega (arith, length-payload_bytes t.pad msg v.pad_size ok, sizeof_msg-le msg)),
      omega (
        arith,
        length-append (topic msg) (payload_bytes t.pad msg),
        length-topic msg ok,
        length-payload_bytes t.pad msg v.pad_size ok,
      ),
      ok,
    )
