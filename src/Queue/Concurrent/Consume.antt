-- ===== src/Queue/Concurrent/Consume.antt =====
-- The consumer's steps on a cell and on its counter keep the invariant.
use mathlib.Core.List.{append_assoc}
use market_data_disseminatio.Base.Tests.{
  ℕ, suc, ◌+◌, ◌%◌, ◌<◌, ◌≡◌, ◌≢◌, refl, sym, ap, ◌∙◌, none, List, [], ◌∷◌, ◌++◌, arith,
}
use market_data_disseminatio.Base.Lists.{
  length, get_elem?, drop, update, length-append, length-drop, get_elem?-append_lt,
}
use market_data_disseminatio.Base.Words.{u64}
use market_data_disseminatio.Queue.{Popped, item, moved}
use market_data_disseminatio.Queue.Refine.{IsCapacity, window-tail}
use market_data_disseminatio.Queue.Concurrent.{waiting, may_take, taken, razed, System}
use market_data_disseminatio.Queue.Concurrent.Inv.{in_place, gone, Inv, consumer_moves, sent_length}
use market_data_disseminatio.Queue.Concurrent.Places.{consumer_at, read_place, ahead_of_take, front}

module _ {A : Type 0} {cap : ℕ} (c : IsCapacity cap) {s : System A} {queued : List A}
    (v : Inv cap s queued) where
  -- A test that does not find the queue empty has an item to take, and it stands in the cell.
  pub take_item-Inv :
      {r w : ℕ}
      → s.consumer ≡ may_take r w
      → r ≢ w
      → Inv cap (record s { consumer = taken r (moved (s.cells (r % cap))) }) queued
  take_item-Inv {r} {w} k ne =
      consumer_moves (taken r (moved (s.cells (r % cap)))) s.seen_write v (ap gone k) refl
        (omega arith) v.write_bound (r_is, ahead, ap moved in_cell)
    where
      ok : (r ≡ s.read) × (w ≡ u64 s.seen_write)
      ok = consumer_at c v k

      r_is : r ≡ s.read
      r_is = ok.0

      ahead : length s.received < s.seen_write
      ahead = ahead_of_take c v k ne

      in_cell : s.cells (r % cap) ≡ get_elem? queued 0
      in_cell =
          ap s.cells (read_place c v r_is ∙ ap (λ j. j % cap) (omega (arith, ap gone k)))
          ∙ v.cell 0 c.positive
          ∙ ap (λ g. get_elem? (drop g queued ++ in_place s.producer) 0) (ap gone k)
          ∙ get_elem?-append_lt queued (in_place s.producer) 0
              (omega (arith, ahead, v.write_bound, sent_length v))

  pub raze-Inv :
      {r : ℕ} {p : Popped A}
      → s.consumer ≡ taken r p
      → Inv cap (record s { cells = update s.cells (r % cap) none; consumer = razed r p }) queued
  raze-Inv {r} {p} k = record {
    order = v.order;
    fits = v.fits;
    read_at = v.read_at;
    write_at = v.write_at;
    read_view = v.read_view;
    near = v.near;
    write_view = v.write_view;
    write_bound = v.write_bound;
    producer_ok = v.producer_ok;
    consumer_ok = consumer_at c v k;
    cell = λ i h.
        ap (λ j. update s.cells j none ((length s.received + 1 + i) % cap))
          (read_place c v (consumer_at c v k).0)
        ∙ ap (λ j. update s.cells (length s.received % cap) none (j % cap)) (omega arith)
        ∙ emptied (front c v (consumer_at c v k).1) i h;
  }
    where
      window :
          (x : A) (xs : List A)
          → queued ≡ x ∷ xs
          → (i : ℕ) → i < cap
          → s.cells ((length s.received + i) % cap) ≡ get_elem? (x ∷ (xs ++ in_place s.producer)) i
      window x xs e i h =
          ap (λ j. s.cells (j % cap)) (omega (arith, ap gone k))
          ∙ v.cell i h
          ∙ ap (λ g. get_elem? (drop g queued ++ in_place s.producer) i) (ap gone k)
          ∙ ap (λ l. get_elem? (l ++ in_place s.producer) i) e

      emptied :
          ((x : A) × (xs : List A) × (queued ≡ x ∷ xs))
          → (i : ℕ) → i < cap
          → update s.cells (length s.received % cap) none ((length s.received + suc i) % cap)
            ≡ get_elem? (drop 1 queued ++ in_place s.producer) i
      emptied (x, xs, e) i h =
          window-tail s.cells (length s.received) x (xs ++ in_place s.producer) c.positive
            (omega (arith, v.fits, ap length e, length-append xs (in_place s.producer)))
            (window x xs e) i h
          ∙ ap (λ l. get_elem? (l ++ in_place s.producer) i) (sym (ap (drop 1) e))

  pub release-Inv :
      {r : ℕ} {a : A}
      → s.consumer ≡ razed r (item a)
      → Inv cap
          (record s { read = u64 (r + 1); consumer = waiting; received = s.received ++ a ∷ [] })
          (drop 1 queued)
  release-Inv {r} {a} k = record {
    order = put_over (front c v ok.1);
    fits = omega (arith, v.fits, length-drop 1 queued);
    read_at = omega (arith, ok.0, v.read_at, length-append s.received (a ∷ []));
    write_at = v.write_at;
    read_view = omega (arith, v.read_view, length-append s.received (a ∷ []));
    near = v.near;
    write_view = omega (arith, ok.1, length-append s.received (a ∷ []));
    write_bound = v.write_bound;
    producer_ok = v.producer_ok;
    consumer_ok = tt;
    cell = λ i h.
        ap (λ j. s.cells (j % cap)) (omega (arith, ap gone k, length-append s.received (a ∷ [])))
        ∙ v.cell i h
        ∙ ap (λ g. get_elem? (drop g queued ++ in_place s.producer) i) (ap gone k);
  }
    where
      ok : (r ≡ s.read) × (length s.received < s.seen_write) × (item a ≡ moved (get_elem? queued 0))
      ok = consumer_at c v k

      put_over :
          ((x : A) × (xs : List A) × (queued ≡ x ∷ xs))
          → s.sent ≡ (s.received ++ a ∷ []) ++ drop 1 queued
      put_over (x, xs, e) =
          let first : item a ≡ item x = ok.2 ∙ ap (λ l. moved (get_elem? l 0)) e in
          let whole : a ∷ drop 1 queued ≡ queued = cc (first, e, ap (drop 1) e) in
          v.order
          ∙ ap (λ l. s.received ++ l) (sym whole)
          ∙ sym (append_assoc s.received (a ∷ []) (drop 1 queued))
