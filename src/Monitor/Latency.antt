-- ===== src/Monitor/Latency.antt =====
-- The latencies of one message add up.
use market_data_disseminatio.Base.Tests.{
  ℕ, inl, inr, ◌⊎◌, Bool-cases, ltb, leb, ◌+◌, ◌-◌, ◌^◌, ◌≤◌, ◌<◌, ◌≡◌, refl, List, [], ◌∷◌, ◌++◌,
  arith,
}
use market_data_disseminatio.Base.Words.{sub64}
use market_data_disseminatio.Types.{MarketDataMsg, quote, trade}
use market_data_disseminatio.Disseminator.{stamp}
use market_data_disseminatio.Monitor.{LatencyRecord, LatencyMonitor, on_quote, on_trade, on_message}

abbrev pub enqueued : MarketDataMsg → ℕ
enqueued (quote q) = q.enqueue_timestamp
enqueued (trade t) = t.enqueue_timestamp

-- The latencies kept for the message's type, and those for the other type.
abbrev pub latencies_of : MarketDataMsg → LatencyMonitor → List LatencyRecord
latencies_of (quote q) m = m.quote_latencies
latencies_of (trade t) m = m.trade_latencies

abbrev pub other_latencies : MarketDataMsg → LatencyMonitor → List LatencyRecord
other_latencies (quote q) m = m.trade_latencies
other_latencies (trade t) m = m.quote_latencies

-- Whether a message was enqueued, stamped and received in this order, at times of 64 bits.
in_order :
    (e now t3 : ℕ) → (now < e) ⊎ (t3 < now) ⊎ (2 ^ 64 ≤ t3) ⊎ (e ≤ now) × (now ≤ t3) × (t3 < 2 ^ 64)
in_order e now t3 = elim (Bool-cases (ltb now e)) [
  | inl early ↦ inl (ground arith)
  | inr a ↦ elim (Bool-cases (ltb t3 now)) [
    | inl early ↦ inr (inl (ground arith))
    | inr b ↦ elim (Bool-cases (leb (2 ^ 64) t3)) [
      | inl large ↦ inr (inr (inl (ground arith)))
      | inr c ↦ inr (inr (inr (ground arith, ground arith, ground arith)))
    ]
  ]
]

-- The three latencies are the true differences of the times, and the first two add up to the third.
pub record IsTrue (e now t3 : ℕ) (lat : LatencyRecord) : Type 0 where
  pub queue : lat.queue_ns ≡ now - e
  pub network : lat.network_ns ≡ t3 - now
  pub total : lat.queue_ns + lat.network_ns ≡ lat.total_ns

IsTrue-sub64 :
    (e now t3 : ℕ)
    → let lat : LatencyRecord = record {
      queue_ns = sub64 now e;
      network_ns = sub64 t3 now;
      total_ns = sub64 t3 e;
    } in
      (now < e) ⊎ (t3 < now) ⊎ (2 ^ 64 ≤ t3) ⊎ IsTrue e now t3 lat
IsTrue-sub64 e now t3 = elim (in_order e now t3) [
  | inl early ↦ inl early
  | inr (inl early) ↦ inr (inl early)
  | inr (inr (inl large)) ↦ inr (inr (inl large))
  | inr (inr (inr (h, k, w))) ↦
      inr (inr (inr (record { queue = omega arith; network = omega arith; total = omega arith })))
]

-- Each message, whatever its times, adds one record behind those of its own type and none to the other
-- type's. And it was stamped before it was enqueued, or received before it was stamped, or at a time of more
-- than 64 bits; or its latencies in the queue and in the network are the true differences of the times, and
-- add up to the whole.
pub on_message_lem :
    (msg : MarketDataMsg) (now t3 : ℕ) (m : LatencyMonitor)
    → (lat : LatencyRecord) × (latencies_of msg (on_message (stamp now msg) t3 m)
        ≡ latencies_of msg m ++ lat ∷ [])
      × (other_latencies msg (on_message (stamp now msg) t3 m) ≡ other_latencies msg m)
      × ((now < enqueued msg) ⊎ (t3 < now) ⊎ (2 ^ 64 ≤ t3) ⊎ IsTrue (enqueued msg) now t3 lat)
unfolding on_message on_quote on_trade stamp
on_message_lem (quote q) now t3 m = (_, refl, refl, IsTrue-sub64 q.enqueue_timestamp now t3)
on_message_lem (trade t) now t3 m = (_, refl, refl, IsTrue-sub64 t.enqueue_timestamp now t3)
