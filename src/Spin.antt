-- ===== src/Spin.antt =====
-- src/utils/SpinSpscQueue.h, over any storage that src/utils/QueueConcepts.h allows: `pop` tries the
-- storage again until it has an item or the stop token is set. The rounds of its loop are an argument:
-- the stop token, and the items that the producer pushes between two tries.
pub mod Fifo
mod Tests
use market_data_disseminatio.Base.Tests.{ℕ, Bool, true, false, ◌≡◌, List, [], ◌∷◌, if◌then◌else◌}
use market_data_disseminatio.Queue.{Popped, nothing, item, undefined}
use market_data_disseminatio.Queue.Storage.{Storage}

pub record SpinRound (A : Type 0) : Type 0 where
  pub stop_requested : Bool
  pub arriving : List A

-- How `pop` ends: true with an item, false at a stop, an undefined read; or it is still spinning where
-- the list of rounds ends.
pub data Spun (A : Type 0) : Type 0 where
  got : A → Spun A
  stopped : Spun A
  broken : Spun A
  spinning : Spun A

module _ {A : Type 0} (storage : Storage A) where
  -- The producer's calls of `push`.
  unfoldable pub push_all : List A → storage.State → storage.State
  push_all [] s = s
  push_all (a ∷ items) s = push_all items (storage.storage_push s a).1

  -- Behind a try of the storage; `rest` is the next round.
  abbrev pub after_try : Popped A → storage.State → Spun A × storage.State → Spun A × storage.State
  after_try nothing s rest = rest
  after_try (item a) s rest = (got a, s)
  after_try undefined s rest = (broken, s)

  unfoldable pub spin_pop : List (SpinRound A) → storage.State → Spun A × storage.State
  spin_pop [] s = (spinning, s)
  spin_pop (r ∷ rounds) s =
      let tried = storage.storage_pop (push_all r.arriving s) in
      let rest = spin_pop rounds tried.1 in
      if r.stop_requested then (stopped, s) else after_try tried.0 tried.1 rest

  unfoldable pub spin_empty : storage.State → Bool
  spin_empty s = storage.storage_empty s
