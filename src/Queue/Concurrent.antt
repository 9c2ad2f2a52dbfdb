-- ===== src/Queue/Concurrent.antt =====
-- src/utils/CustomSpscQueue.h with `push` and `pop` running at the same time, one on each thread: every
-- access to `read_`, `write_` and a cell is a step, and the steps of the two threads interleave in any
-- order. An acquire load of the other thread's counter may return any value stored since the one that
-- this thread has seen last; the `seen_` counts are that memory. The cells are plain memory: a load
-- sees what was stored, since the theorems show that the two threads never touch one cell at once.
mod Inv
mod Places
mod Produce
mod Consume
mod Steps
pub mod Safety
use market_data_disseminatio.Base.Tests.{
  ℕ, ◌+◌, ◌%◌, ◌≤◌, ◌≡◌, ◌≢◌, Option, none, some, List, [], ◌∷◌, ◌++◌,
}
use market_data_disseminatio.Base.Lists.{length, update}
use market_data_disseminatio.Base.Words.{u64, sub64}
use market_data_disseminatio.Queue.{Popped, item, moved}

-- Where the producer stands in `push`, with its local variables.
pub data Producer {ℓ} (A : Type ℓ) : Type ℓ where
  resting : Producer A
  has_write : A → (w : ℕ) → Producer A  -- before `read_.load`
  has_both : A → (w r : ℕ) → Producer A  -- before the test
  constructed : A → (w : ℕ) → Producer A  -- before `write_.store`

-- Where the consumer stands in `pop`.
pub data Consumer {ℓ} (A : Type ℓ) : Type ℓ where
  waiting : Consumer A
  has_read : (r : ℕ) → Consumer A  -- before `write_.load`
  may_take : (r w : ℕ) → Consumer A  -- before the test
  taken : (r : ℕ) → Popped A → Consumer A  -- before `destroy_at`
  razed : (r : ℕ) → Popped A → Consumer A  -- before `read_.store`

-- `sent` and `received` are the items of the calls that returned true; the program keeps neither.
pub record System {ℓ} (A : Type ℓ) : Type ℓ where
  pub read : ℕ
  pub write : ℕ
  pub cells : ℕ → Option A
  pub producer : Producer A
  pub consumer : Consumer A
  pub sent : List A
  pub received : List A
  pub seen_read : ℕ
  pub seen_write : ℕ

pub data Step {ℓ} {A : Type ℓ} (cap : ℕ) (s : System A) : System A → Type ℓ where
  begin_push :
      (a : A) → s.producer ≡ resting → Step cap s (record s { producer = has_write a s.write })
  load_read :
      (a : A) (w k : ℕ)
      → s.producer ≡ has_write a w
      → s.seen_read ≤ k
      → k ≤ length s.received
      → Step cap s (record s { producer = has_both a w (u64 k); seen_read = k })
  refuse :
      (a : A) (w r : ℕ)
      → s.producer ≡ has_both a w r
      → sub64 w r ≡ cap
      → Step cap s (record s { producer = resting })
  construct :
      (a : A) (w r : ℕ)
      → s.producer ≡ has_both a w r
      → sub64 w r ≢ cap
      → Step cap s
          (record s { cells = update s.cells (w % cap) (some a); producer = constructed a w })
  publish :
      (a : A) (w : ℕ)
      → s.producer ≡ constructed a w
      → Step cap s (record s { write = u64 (w + 1); producer = resting; sent = s.sent ++ a ∷ [] })
  begin_pop : s.consumer ≡ waiting → Step cap s (record s { consumer = has_read s.read })
  load_write :
      (r k : ℕ)
      → s.consumer ≡ has_read r
      → s.seen_write ≤ k
      → k ≤ length s.sent
      → Step cap s (record s { consumer = may_take r (u64 k); seen_write = k })
  find_empty :
      (r w : ℕ) → s.consumer ≡ may_take r w → r ≡ w → Step cap s (record s { consumer = waiting })
  take_item :
      (r w : ℕ)
      → s.consumer ≡ may_take r w
      → r ≢ w
      → Step cap s (record s { consumer = taken r (moved (s.cells (r % cap))) })
  raze :
      (r : ℕ) (p : Popped A)
      → s.consumer ≡ taken r p
      → Step cap s (record s { cells = update s.cells (r % cap) none; consumer = razed r p })
  release :
      (r : ℕ) (a : A)
      → s.consumer ≡ razed r (item a)
      → Step cap s
          (record s { read = u64 (r + 1); consumer = waiting; received = s.received ++ a ∷ [] })

abbrev pub start {ℓ} : {A : Type ℓ} → System A
start = record {
  read = 0;
  write = 0;
  cells = λ _. none;
  producer = resting;
  consumer = waiting;
  sent = [];
  received = [];
  seen_read = 0;
  seen_write = 0;
}

pub data Reach {ℓ} {A : Type ℓ} (cap : ℕ) : System A → Type ℓ where
  here : Reach cap start
  next : {s t : System A} → Reach cap s → Step cap s t → Reach cap t
