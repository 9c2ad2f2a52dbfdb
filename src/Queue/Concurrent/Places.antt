-- ===== src/Queue/Concurrent/Places.antt =====
-- Where the producer and the consumer stand, and the places in the ring that they name.
use market_data_disseminatio.Base.Tests.{
  ℕ, ◌+◌, ◌-◌, ◌%◌, ◌^◌, ◌≤◌, ◌<◌, ◌≡◌, ◌≢◌, refl, sym, ap, ap₂, ◌∙◌, subst, List, [], ◌∷◌, ◌++◌,
  arith,
}
use market_data_disseminatio.Base.Lists.{length, drop, length-drop, get_elem?-append_lt}
use market_data_disseminatio.Base.Words.{u64, sub64, mod-mod_of_divides, sub64-u64-u64}
use market_data_disseminatio.Queue.{moved}
use market_data_disseminatio.Queue.Refine.{IsCapacity}
use market_data_disseminatio.Queue.Concurrent.{
  Producer, has_both, Consumer, waiting, has_read, may_take, taken, razed, System,
}
use market_data_disseminatio.Queue.Concurrent.Inv.{gone, ProducerOk, ConsumerOk, Inv, sent_length}

module _ {A : Type 0} where
  gone-le :
      (n read seen : ℕ) (queued : List A) (k : Consumer A)
      → ConsumerOk n read seen queued k
      → seen ≤ n + length queued
      → gone k ≤ length queued
  gone-le n read seen queued waiting ok h = omega arith
  gone-le n read seen queued (has_read r) ok h = omega arith
  gone-le n read seen queued (may_take r w) ok h = omega arith
  gone-le n read seen queued (taken r p) ok h = omega arith
  gone-le n read seen queued (razed r p) ok h = omega arith

  pub ConsumerOk-append :
      (n read seen : ℕ) (queued more : List A) (k : Consumer A)
      → ConsumerOk n read seen queued k
      → seen ≤ n + length queued
      → ConsumerOk n read seen (queued ++ more) k
  ConsumerOk-append n read seen queued more waiting ok h = ok
  ConsumerOk-append n read seen queued more (has_read r) ok h = ok
  ConsumerOk-append n read seen queued more (may_take r w) ok h = ok
  ConsumerOk-append n read seen queued more (taken r p) ok h =
      (ok.0, ok.1, ok.2 ∙ ap moved (sym (get_elem?-append_lt queued more 0 (omega arith))))
  ConsumerOk-append n read seen queued more (razed r p) ok h =
      (ok.0, ok.1, ok.2 ∙ ap moved (sym (get_elem?-append_lt queued more 0 (omega arith))))

  cons_of : (l : List A) → 0 < length l → (x : A) × (xs : List A) × (l ≡ x ∷ xs)
  cons_of [] h = absurd (omega arith)
  cons_of (x ∷ xs) h = (x, xs, refl)

module _ {A : Type 0} {cap : ℕ} (c : IsCapacity cap) {s : System A} {queued : List A}
    (v : Inv cap s queued) where
  pub producer_at :
      {p : Producer A} → s.producer ≡ p → ProducerOk cap (length s.sent) s.write s.seen_read p
  producer_at e = subst (ProducerOk cap (length s.sent) s.write s.seen_read) e v.producer_ok

  pub consumer_at :
      {k : Consumer A}
      → s.consumer ≡ k
      → ConsumerOk (length s.received) s.read s.seen_write queued k
  consumer_at e = subst (ConsumerOk (length s.received) s.read s.seen_write queued) e v.consumer_ok

  pub gone_le : gone s.consumer ≤ length queued
  gone_le =
      gone-le (length s.received) s.read s.seen_write queued s.consumer v.consumer_ok
        (omega (arith, v.write_bound, sent_length v))

  -- A test that does not find the queue full leaves a free place.
  pub room :
      {a : A} {w r : ℕ}
      → s.producer ≡ has_both a w r
      → sub64 w r ≢ cap
      → length s.sent < s.seen_read + cap
  room {w = w} {r} p ne = differs (ap₂ sub64 (ok.0 ∙ v.write_at) ok.1 ∙ distance)
    where
      ok : (w ≡ s.write) × (r ≡ u64 s.seen_read)
      ok = producer_at p

      behind : s.seen_read ≤ length s.sent
      behind = omega (arith, v.read_view, sent_length v)

      distance : sub64 (u64 (length s.sent)) (u64 s.seen_read) ≡ length s.sent - s.seen_read
      distance = sub64-u64-u64 (length s.sent) s.seen_read behind (omega (arith, v.near, c.small))

      differs : sub64 w r ≡ length s.sent - s.seen_read → length s.sent < s.seen_read + cap
      differs e =
          let ne' : length s.sent - s.seen_read ≢ cap = λ q. ne (e ∙ q) in
          omega (arith, behind, v.near)

  -- The place behind the items held is the one that the write counter names.
  pub write_place :
      {w : ℕ}
      → w ≡ s.write
      → w % cap
        ≡ (length s.received + gone s.consumer + length (drop (gone s.consumer) queued)) % cap
  write_place e =
      ap (λ k. k % cap) (e ∙ v.write_at)
      ∙ mod-mod_of_divides (length s.sent) (2 ^ 64) cap c.divides
      ∙ ap (λ k. k % cap)
          (omega (arith, sent_length v, gone_le, length-drop (gone s.consumer) queued))

  pub read_place : {r : ℕ} → r ≡ s.read → r % cap ≡ length s.received % cap
  read_place e =
      ap (λ k. k % cap) (e ∙ v.read_at)
      ∙ mod-mod_of_divides (length s.received) (2 ^ 64) cap c.divides

  pub ahead_of_take :
      {r w : ℕ} → s.consumer ≡ may_take r w → r ≢ w → length s.received < s.seen_write
  ahead_of_take k ne =
      let (r_is, w_is) = consumer_at k in omega (arith, v.write_view, r_is, w_is, v.read_at)

  -- What has been seen published is in the queue.
  pub front : length s.received < s.seen_write → (x : A) × (xs : List A) × (queued ≡ x ∷ xs)
  front h = cons_of queued (omega (arith, v.write_bound, sent_length v))
