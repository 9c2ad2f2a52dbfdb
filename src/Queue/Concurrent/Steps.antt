-- ===== src/Queue/Concurrent/Steps.antt =====
-- Every step of the producer or the consumer keeps the invariant.
use market_data_disseminatio.Base.Tests.{ℕ, refl, ap, List, [], ◌∷◌, ◌++◌, arith}
use market_data_disseminatio.Base.Lists.{drop}
use market_data_disseminatio.Base.Words.{u64}
use market_data_disseminatio.Queue.Refine.{IsCapacity}
use market_data_disseminatio.Queue.Concurrent.{
  resting, has_write, has_both, waiting, has_read, may_take, System, Step, begin_push, load_read,
  refuse, construct, publish, begin_pop, load_write, find_empty, take_item, raze, release, Reach,
  here, next,
}
use market_data_disseminatio.Queue.Concurrent.Inv.{
  in_place, gone, Inv, producer_moves, consumer_moves, Inv-start,
}
use market_data_disseminatio.Queue.Concurrent.Places.{producer_at, consumer_at}
use market_data_disseminatio.Queue.Concurrent.Produce.{construct-Inv, publish-Inv}
use market_data_disseminatio.Queue.Concurrent.Consume.{take_item-Inv, raze-Inv, release-Inv}

module _ {A : Type 0} {cap : ℕ} (c : IsCapacity cap) where
  Step-Inv :
      {s t : System A} {queued : List A}
      → Inv cap s queued
      → Step cap s t
      → (left : List A) × Inv cap t left
  Step-Inv {s} {queued = queued} v (begin_push a p) = (
    queued,
    producer_moves (has_write a s.write) s.seen_read v (ap in_place p) refl (omega arith)
        v.read_view refl,
  )
  Step-Inv {queued = queued} v (load_read a w k p lo hi) = (
    queued,
    producer_moves (has_both a w (u64 k)) k v (ap in_place p) refl lo hi (producer_at c v p, refl),
  )
  Step-Inv {s} {queued = queued} v (refuse a w r p full) = (
    queued,
    producer_moves resting s.seen_read v (ap in_place p) refl (omega arith) v.read_view tt,
  )
  Step-Inv {queued = queued} v (construct a w r p ne) = (queued, construct-Inv c v p ne)
  Step-Inv {queued = queued} v (publish a w p) = (queued ++ a ∷ [], publish-Inv c v p)
  Step-Inv {s} {queued = queued} v (begin_pop k) = (
    queued,
    consumer_moves (has_read s.read) s.seen_write v (ap gone k) refl (omega arith) v.write_bound
        refl,
  )
  Step-Inv {queued = queued} v (load_write r n k lo hi) = (
    queued,
    consumer_moves (may_take r (u64 n)) n v (ap gone k) refl lo hi (consumer_at c v k, refl),
  )
  Step-Inv {s} {queued = queued} v (find_empty r w k e) = (
    queued,
    consumer_moves waiting s.seen_write v (ap gone k) refl (omega arith) v.write_bound tt,
  )
  Step-Inv {queued = queued} v (take_item r w k ne) = (queued, take_item-Inv c v k ne)
  Step-Inv {queued = queued} v (raze r p k) = (queued, raze-Inv c v k)
  Step-Inv {queued = queued} v (release r a k) = (drop 1 queued, release-Inv c v k)

  pub Reach-Inv : {s : System A} → Reach cap s → (queued : List A) × Inv cap s queued
  Reach-Inv here = ([], Inv-start)
  Reach-Inv (next r st) = let (queued, v) = Reach-Inv r in Step-Inv v st
