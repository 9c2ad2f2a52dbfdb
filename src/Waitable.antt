-- ===== src/Waitable.antt =====
-- src/utils/WaitableSpscQueue.h: a producer, a consumer that sleeps on `is_sleeping_` when the queue is
-- empty, and a thread that may request a stop, interleaved one access to shared state at a time in any
-- order, each access taking effect at once (sequential consistency).
-- The underlying queue is the list of its items, of at most `cap`: its `push` and `pop` count as one
-- access each. A pop that takes an item on the first try, and a stop that is seen, leave `pop` in the same step,
-- with the callback's destructor, which waits while the callback runs: no shared access is in between but
-- those of the callback itself. `std::atomic::wait(true)` returns when the flag is not `true`; a thread in it is woken
-- by a notification and then looks at the flag again.
pub mod Kept
pub mod Sleep
pub mod Stop
pub mod Weak
pub mod WeakFifo
pub mod Stored
pub mod StoredFifo
mod Tests
mod WeakTests
use market_data_disseminatio.Base.Tests.{ℕ, ◌<◌, ◌≡◌, ◌≢◌, Bool, true, false, List, [], ◌∷◌, ◌++◌}
use market_data_disseminatio.Base.Lists.{length}

-- Where the producer stands in `push`.
pub data Producer : Type 0 where
  idle : Producer
  pushed : Producer  -- behind `queue_.push(item)` that returned true
  seen : Producer  -- `is_sleeping_` was read as true
  cleared : Producer  -- `is_sleeping_` is stored false, before notify_one

-- Where the consumer stands in `pop`.
pub data Consumer {ℓ} (A : Type ℓ) : Type ℓ where
  outside : Consumer A
  loop_head : Consumer A  -- before `stoken.stop_requested()`
  first_try : Consumer A  -- before the first `queue_.pop(item)`
  going_to_sleep : Consumer A  -- before `is_sleeping_.store(true)`
  second_try : Consumer A  -- before the second `queue_.pop(item)`
  got : A → Consumer A  -- the second try took an item, before `is_sleeping_.store(false)` and return
  before_wait : Consumer A  -- before `is_sleeping_.wait(true)` reads the flag
  asleep : Consumer A  -- blocked in `wait`

-- A call of `request_stop`: `requested` from the setting of the stop state to the callback's store,
-- `running` from there to its notify_all.
pub data Stopper : Type 0 where
  quiet : Stopper
  requested : Stopper
  running : Stopper
  finished : Stopper

-- `sent` and `received` are the items of the calls that returned true; the program keeps neither.
pub record System {ℓ} (A : Type ℓ) : Type ℓ where
  pub items : List A
  pub sleeping : Bool
  pub stop : Bool
  pub producer : Producer
  pub consumer : Consumer A
  pub stopper : Stopper
  pub sent : List A
  pub received : List A

-- A notification wakes a consumer that is blocked, and is lost otherwise.
abbrev pub woken {ℓ} : {A : Type ℓ} → Consumer A → Consumer A
woken asleep = before_wait
woken c = c

-- The callback is registered only while `pop` runs: without it, request_stop is done at once.
abbrev pub called {ℓ} : {A : Type ℓ} → Consumer A → Stopper
called outside = finished
called c = requested

-- The destructor of the callback, when `pop` returns: a callback that has not begun is removed.
abbrev pub removed : Stopper → Stopper
removed requested = finished
removed p = p

-- One access of one thread.
pub data Step {ℓ} {A : Type ℓ} (cap : ℕ) (s : System A) : System A → Type ℓ where
  push_room :
      (a : A)
      → s.producer ≡ idle
      → length s.items < cap
      → Step cap s
          (record s { items = s.items ++ a ∷ []; producer = pushed; sent = s.sent ++ a ∷ [] })
  push_full : (a : A) → s.producer ≡ idle → length s.items ≡ cap → Step cap s s
  flag_true : s.producer ≡ pushed → s.sleeping ≡ true → Step cap s (record s { producer = seen })
  flag_false : s.producer ≡ pushed → s.sleeping ≡ false → Step cap s (record s { producer = idle })
  clear : s.producer ≡ seen → Step cap s (record s { sleeping = false; producer = cleared })
  notify :
      s.producer ≡ cleared → Step cap s (record s { producer = idle; consumer = woken s.consumer })
  enter : s.consumer ≡ outside → s.stop ≡ false → Step cap s (record s { consumer = loop_head })
  enter_stopped :
      s.consumer ≡ outside
      → s.stop ≡ true
      → Step cap s (record s { sleeping = false; consumer = loop_head })
  give_up :
      s.consumer ≡ loop_head
      → s.stop ≡ true
      → s.stopper ≢ running
      → Step cap s (record s { consumer = outside; stopper = removed s.stopper })
  go_on : s.consumer ≡ loop_head → s.stop ≡ false → Step cap s (record s { consumer = first_try })
  first_item :
      (a : A) (rest : List A)
      → s.consumer ≡ first_try
      → s.items ≡ a ∷ rest
      → s.stopper ≢ running
      → Step cap s (record s {
        items = rest;
        consumer = outside;
        stopper = removed s.stopper;
        received = s.received ++ a ∷ [];
      })
  first_miss :
      s.consumer ≡ first_try → s.items ≡ [] → Step cap s (record s { consumer = going_to_sleep })
  raise :
      s.consumer ≡ going_to_sleep → Step cap s (record s { sleeping = true; consumer = second_try })
  second_item :
      (a : A) (rest : List A)
      → s.consumer ≡ second_try
      → s.items ≡ a ∷ rest
      → Step cap s (record s { items = rest; consumer = got a })
  second_miss :
      s.consumer ≡ second_try → s.items ≡ [] → Step cap s (record s { consumer = before_wait })
  lower :
      (a : A)
      → s.consumer ≡ got a
      → s.stopper ≢ running
      → Step cap s (record s {
        sleeping = false;
        consumer = outside;
        stopper = removed s.stopper;
        received = s.received ++ a ∷ [];
      })
  pass :
      s.consumer ≡ before_wait → s.sleeping ≡ false → Step cap s (record s { consumer = loop_head })
  block : s.consumer ≡ before_wait → s.sleeping ≡ true → Step cap s (record s { consumer = asleep })
  request : s.stop ≡ false → Step cap s (record s { stop = true; stopper = called s.consumer })
  callback_store :
      s.stopper ≡ requested → Step cap s (record s { sleeping = false; stopper = running })
  callback_notify :
      s.stopper ≡ running
      → Step cap s (record s { stopper = finished; consumer = woken s.consumer })

abbrev pub start {ℓ} : {A : Type ℓ} → System A
start = record {
  items = [];
  sleeping = false;
  stop = false;
  producer = idle;
  consumer = outside;
  stopper = quiet;
  sent = [];
  received = [];
}

pub data Reach {ℓ} {A : Type ℓ} (cap : ℕ) : System A → Type ℓ where
  here : Reach cap start
  next : {s t : System A} → Reach cap s → Step cap s t → Reach cap t
