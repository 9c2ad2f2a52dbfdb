-- ===== src/Queue/Concurrent/Produce.antt =====
-- The producer's steps on a cell and on its counter keep the invariant.
use mathlib.Core.List.{append_assoc, append-nil}
use market_data_disseminatio.Base.Tests.{
  ℕ, ◌+◌, ◌%◌, ◌≡◌, ◌≢◌, sym, ap, ◌∙◌, some, List, [], ◌∷◌, ◌++◌, arith,
}
use market_data_disseminatio.Base.Lists.{
  length, get_elem?, drop, update, length-append, length-drop, drop-append_le,
}
use market_data_disseminatio.Base.Words.{u64, sub64}
use market_data_disseminatio.Queue.Refine.{IsCapacity, window-snoc}
use market_data_disseminatio.Queue.Concurrent.{resting, has_both, constructed, System}
use market_data_disseminatio.Queue.Concurrent.Inv.{in_place, gone, Inv, sent_length}
use market_data_disseminatio.Queue.Concurrent.Places.{
  ConsumerOk-append, producer_at, gone_le, room, write_place,
}

module _ {A : Type 0} {cap : ℕ} (c : IsCapacity cap) {s : System A} {queued : List A}
    (v : Inv cap s queued) where
  pub construct-Inv :
      {a : A} {w r : ℕ}
      → s.producer ≡ has_both a w r
      → sub64 w r ≢ cap
      → Inv cap
          (record s { cells = update s.cells (w % cap) (some a); producer = constructed a w })
          queued
  construct-Inv {a} {w} {r} p ne = record {
    order = v.order;
    fits = omega (arith, room c v p ne, sent_length v, v.read_view);
    read_at = v.read_at;
    write_at = v.write_at;
    read_view = v.read_view;
    near = v.near;
    write_view = v.write_view;
    write_bound = v.write_bound;
    producer_ok = ((producer_at c v p).0, room c v p ne);
    consumer_ok = v.consumer_ok;
    cell =
        window-snoc s.cells (length s.received + gone s.consumer) (w % cap)
          (drop (gone s.consumer) queued) a
          (omega (
            arith,
            room c v p ne,
            sent_length v,
            v.read_view,
            length-drop (gone s.consumer) queued,
          ))
          (write_place c v (producer_at c v p).0)
          (λ i h.
            v.cell i h
            ∙ ap (λ l. get_elem? l i)
                (ap (λ k. drop (gone s.consumer) queued ++ in_place k) p
                  ∙ append-nil (drop (gone s.consumer) queued)));
  }

  pub publish-Inv :
      {a : A} {w : ℕ}
      → s.producer ≡ constructed a w
      → Inv cap
          (record s { write = u64 (w + 1); producer = resting; sent = s.sent ++ a ∷ [] })
          (queued ++ a ∷ [])
  publish-Inv {a} {w} p = record {
    order = ap (λ l. l ++ a ∷ []) v.order ∙ append_assoc s.received queued (a ∷ []);
    fits = omega (arith, v.fits, ap (λ k. length (in_place k)) p, length-append queued (a ∷ []));
    read_at = v.read_at;
    write_at = omega (arith, (producer_at c v p).0, v.write_at, length-append s.sent (a ∷ []));
    read_view = v.read_view;
    near = omega (arith, (producer_at c v p).1, length-append s.sent (a ∷ []));
    write_view = v.write_view;
    write_bound = omega (arith, v.write_bound, length-append s.sent (a ∷ []));
    producer_ok = tt;
    consumer_ok =
        ConsumerOk-append (length s.received) s.read s.seen_write queued (a ∷ []) s.consumer
          v.consumer_ok (omega (arith, v.write_bound, sent_length v));
    cell = λ i h.
        v.cell i h
        ∙ ap (λ l. get_elem? l i)
            (ap (λ k. drop (gone s.consumer) queued ++ in_place k) p
              ∙ sym (drop-append_le (gone s.consumer) queued (a ∷ []) (gone_le c v))
              ∙ sym (append-nil (drop (gone s.consumer) (queued ++ a ∷ []))));
  }
