-- ===== src/Queue/Concurrent/Safety.antt =====
-- What the producer and the consumer of a CustomSpscQueue can rely on, whatever the interleaving, for a
-- capacity that is positive, divides 2 ^ 64 and is smaller.
use market_data_disseminatio.Base.Tests.{
  ℕ, ◌%◌, ◌≤◌, ◌<◌, ◌≡◌, ◌≢◌, ap, ◌∙◌, none, some, List, ◌++◌, arith,
}
use market_data_disseminatio.Base.Lists.{
  length, get_elem?, drop, length-append, length-drop, get_elem?-none,
}
use market_data_disseminatio.Base.Words.{sub64}
use market_data_disseminatio.Queue.{Popped}
use market_data_disseminatio.Queue.Refine.{IsCapacity}
use market_data_disseminatio.Queue.Concurrent.{has_both, may_take, taken, System, Reach}
use market_data_disseminatio.Queue.Concurrent.Inv.{in_place, gone, Inv, sent_length}
use market_data_disseminatio.Queue.Concurrent.Steps.{Reach-Inv}
use market_data_disseminatio.Queue.Concurrent.Places.{
  producer_at, consumer_at, room, write_place, read_place, ahead_of_take, front,
}

module _ {A : Type 0} {cap : ℕ} (c : IsCapacity cap) {s : System A} (reached : Reach cap s) where
  -- For a positive capacity that divides 2 ^ 64 and is smaller: what the consumer's calls of `pop` have
  -- returned is, in order, the beginning of what the producer's calls of `push` have passed, and at most `cap`
  -- items are in between.
  pub first_in_first_out :
      (queued : List A) × (s.sent ≡ s.received ++ queued) × (length queued ≤ cap)
  first_in_first_out =
      let (queued, v) = Reach-Inv c reached in (queued, v.order, omega (arith, v.fits))

  -- When `push` is about to construct an object, no object lives in the cell.
  construct_on_raw :
      {a : A} {w r : ℕ} → s.producer ≡ has_both a w r → sub64 w r ≢ cap → s.cells (w % cap) ≡ none
  construct_on_raw {a} {w} p ne =
      let (queued, v) = Reach-Inv c reached in
      let shown = drop (gone s.consumer) queued in
      ap s.cells (write_place c v (producer_at c v p).0)
      ∙ v.cell (length shown) (
          omega (
            arith,
            room c v p ne,
            sent_length v,
            v.read_view,
            length-drop (gone s.consumer) queued,
          ))
      ∙ get_elem?-none (shown ++ in_place s.producer) (length shown) (
          omega (arith, ap (λ k. length (in_place k)) p, length-append shown (in_place s.producer)))

  -- The oldest item stands in the cell that the read counter names, as long as it is not destroyed.
  item_at_read :
      {queued : List A} {r : ℕ}
      → Inv cap s queued
      → r ≡ s.read
      → gone s.consumer ≡ 0
      → length s.received < s.seen_write
      → (a : A) × (s.cells (r % cap) ≡ some a)
  item_at_read {queued} v r_is g ahead =
      let (x, xs, e) = front c v ahead in
      (
        x,
        ap s.cells (read_place c v r_is ∙ ap (λ j. j % cap) (omega arith))
            ∙ v.cell 0 c.positive
            ∙ ap (λ k. get_elem? (drop k queued ++ in_place s.producer) 0) g
            ∙ ap (λ l. get_elem? (l ++ in_place s.producer) 0) e,
      )

  -- For a positive capacity that divides 2 ^ 64 and is smaller: when `pop` is about to move an item out, there
  -- is one in the cell, and no raw memory is read.
  pub take_from_full :
      {r w : ℕ} → s.consumer ≡ may_take r w → r ≢ w → (a : A) × (s.cells (r % cap) ≡ some a)
  take_from_full k ne =
      let (queued, v) = Reach-Inv c reached in
      item_at_read v (consumer_at c v k).0 (ap gone k) (ahead_of_take c v k ne)

  -- For a positive capacity that divides 2 ^ 64 and is smaller, there is no data race on the cells: when `push`
  -- is about to construct an object while `pop` is between its move and its destroy, they work on different
  -- cells.
  pub no_race :
      {a : A} {w r r' : ℕ} {p : Popped A}
      → s.producer ≡ has_both a w r
      → sub64 w r ≢ cap
      → s.consumer ≡ taken r' p
      → w % cap ≢ r' % cap
  no_race p ne k same =
      let (queued, v) = Reach-Inv c reached in
      let (x, full) = item_at_read v (consumer_at c v k).0 (ap gone k) (consumer_at c v k).1 in
      let raw = construct_on_raw p ne in cc (raw, full, ap s.cells same)
