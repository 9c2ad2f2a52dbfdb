-- ===== src/Queue/Concurrent/Inv.antt =====
-- What holds between any two steps of the producer and the consumer of a CustomSpscQueue.
use market_data_disseminatio.Base.Tests.{
  ℕ, ◌+◌, ◌%◌, ◌≤◌, ◌<◌, ◌≡◌, refl, sym, ap, ◌∙◌, subst, List, [], ◌∷◌, ◌++◌, arith,
}
use market_data_disseminatio.Base.Lists.{length, get_elem?, drop, length-append}
use market_data_disseminatio.Base.Words.{u64}
use market_data_disseminatio.Queue.{moved}
use market_data_disseminatio.Queue.Concurrent.{
  Producer, resting, has_write, has_both, constructed, Consumer, waiting, has_read, may_take, taken,
  razed, System, start,
}

module _ {A : Type 0} where
  -- An item that stands in its cell and is not published.
  abbrev pub in_place : Producer A → List A
  in_place (constructed a w) = a ∷ []
  in_place _ = []

  -- Cells that are raw again before that is published.
  abbrev pub gone : Consumer A → ℕ
  gone (razed r p) = 1
  gone _ = 0

  -- What the producer's local variables say, with `n` items published.
  abbrev pub ProducerOk : ℕ → ℕ → ℕ → ℕ → Producer A → Type 0
  ProducerOk cap n write seen resting = Unit
  ProducerOk cap n write seen (has_write a w) = w ≡ write
  ProducerOk cap n write seen (has_both a w r) = (w ≡ write) × (r ≡ u64 seen)
  ProducerOk cap n write seen (constructed a w) = (w ≡ write) × (n < seen + cap)

  -- What the consumer's local variables say, with `n` items taken out.
  abbrev pub ConsumerOk : ℕ → ℕ → ℕ → List A → Consumer A → Type 0
  ConsumerOk n read seen queued waiting = Unit
  ConsumerOk n read seen queued (has_read r) = r ≡ read
  ConsumerOk n read seen queued (may_take r w) = (r ≡ read) × (w ≡ u64 seen)
  ConsumerOk n read seen queued (taken r p) =
      (r ≡ read) × (n < seen) × (p ≡ moved (get_elem? queued 0))
  ConsumerOk n read seen queued (razed r p) =
      (r ≡ read) × (n < seen) × (p ≡ moved (get_elem? queued 0))

  pub record Inv (cap : ℕ) (s : System A) (queued : List A) : Type 0 where
    pub order : s.sent ≡ s.received ++ queued
    pub fits : length queued + length (in_place s.producer) ≤ cap
    pub read_at : s.read ≡ u64 (length s.received)
    pub write_at : s.write ≡ u64 (length s.sent)
    pub read_view : s.seen_read ≤ length s.received
    pub near : length s.sent ≤ s.seen_read + cap
    pub write_view : length s.received ≤ s.seen_write
    pub write_bound : s.seen_write ≤ length s.sent
    pub producer_ok : ProducerOk cap (length s.sent) s.write s.seen_read s.producer
    pub consumer_ok : ConsumerOk (length s.received) s.read s.seen_write queued s.consumer
    pub cell :
        (i : ℕ)
        → i < cap
        → s.cells ((length s.received + gone s.consumer + i) % cap)
          ≡ get_elem? (drop (gone s.consumer) queued ++ in_place s.producer) i

  pub Inv-start : {cap : ℕ} → Inv cap start []
  Inv-start = record {
    order = refl;
    fits = omega arith;
    read_at = refl;
    write_at = refl;
    read_view = omega arith;
    near = omega arith;
    write_view = omega arith;
    write_bound = omega arith;
    producer_ok = tt;
    consumer_ok = tt;
    cell = λ i h. refl;
  }

  -- The producer moves on without touching a cell, with what it has seen of `read_`.
  pub producer_moves :
      {cap : ℕ} {s : System A} {queued : List A} (p : Producer A) (k : ℕ)
      → Inv cap s queued
      → in_place s.producer ≡ []
      → in_place p ≡ []
      → s.seen_read ≤ k
      → k ≤ length s.received
      → ProducerOk cap (length s.sent) s.write k p
      → Inv cap (record s { producer = p; seen_read = k }) queued
  producer_moves {s = s} {queued} p k v before after lo hi ok = record {
    order = v.order;
    fits = omega (arith, v.fits, ap length before, ap length after);
    read_at = v.read_at;
    write_at = v.write_at;
    read_view = hi;
    near = omega (arith, v.near);
    write_view = v.write_view;
    write_bound = v.write_bound;
    producer_ok = ok;
    consumer_ok = v.consumer_ok;
    cell = λ i h.
        v.cell i h
        ∙ ap (λ l. get_elem? (drop (gone s.consumer) queued ++ l) i) (before ∙ sym after);
  }

  -- The consumer moves on without touching a cell, with what it has seen of `write_`.
  pub consumer_moves :
      {cap : ℕ} {s : System A} {queued : List A} (c : Consumer A) (k : ℕ)
      → Inv cap s queued
      → gone s.consumer ≡ 0
      → gone c ≡ 0
      → s.seen_write ≤ k
      → k ≤ length s.sent
      → ConsumerOk (length s.received) s.read k queued c
      → Inv cap (record s { consumer = c; seen_write = k }) queued
  consumer_moves {cap} {s} {queued} c k v before after lo hi ok = record {
    order = v.order;
    fits = v.fits;
    read_at = v.read_at;
    write_at = v.write_at;
    read_view = v.read_view;
    near = v.near;
    write_view = omega (arith, v.write_view);
    write_bound = hi;
    producer_ok = v.producer_ok;
    consumer_ok = ok;
    cell =
        subst
          (λ g.
            (i : ℕ)
            → i < cap
            → s.cells ((length s.received + g + i) % cap)
              ≡ get_elem? (drop g queued ++ in_place s.producer) i)
          (before ∙ sym after) v.cell;
  }

  pub sent_length :
      {cap : ℕ} {s : System A} {queued : List A}
      → Inv cap s queued
      → length s.sent ≡ length s.received + length queued
  sent_length {s = s} {queued} v = ap length v.order ∙ length-append s.received queued
