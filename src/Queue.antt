-- ===== src/Queue.antt =====
-- src/utils/CustomSpscQueue.h: the bounded ring of `CustomSpscQueue<T, Capacity>`, called from one
-- thread at a time. `Capacity` is the parameter `cap`. The two counters are `std::size_t` and wrap at
-- 2 ^ 64. `data_` is raw memory: a cell is `none` where no object lives, so that a read of such a
-- cell, which C++ leaves undefined, is a result of its own.
pub mod Refine
pub mod Fifo
pub mod Storage
pub mod Destroy
pub mod Concurrent
mod Tests
use market_data_disseminatio.Base.Tests.{
  ℕ, zero, suc, ◌+◌, ◌-◌, ◌%◌, ◌<◌, ◌≡◌, Bool, true, false, Option, none, some, ltb, ◌==◌,
  if◌then◌else◌,
}
use market_data_disseminatio.Base.Lists.{update}
use market_data_disseminatio.Base.Words.{u64, sub64}

-- `read_`, `write_` and the cells of `data_`.
pub record CustomSpscQueue {ℓ} (A : Type ℓ) : Type ℓ where
  pub read : ℕ
  pub write : ℕ
  pub cells : ℕ → Option A

-- What `pop` returns: `false`; `true` with the item moved out; or the undefined read of a cell that
-- holds no object.
pub data Popped {ℓ} (A : Type ℓ) : Type ℓ where
  nothing : Popped A
  item : A → Popped A
  undefined : Popped A

-- The constructor allocates raw memory: no cell holds an object.
unfoldable pub fresh {ℓ} : {A : Type ℓ} → CustomSpscQueue A
fresh = record { read = 0; write = 0; cells = λ _. none }

unfoldable pub is_empty {ℓ} : {A : Type ℓ} → CustomSpscQueue A → Bool
is_empty q = q.read == q.write

-- `std::move(data_[idx])` of what the cell holds.
abbrev pub moved {ℓ} : {A : Type ℓ} → Option A → Popped A
moved none = undefined
moved (some a) = item a

module _ {ℓ} {A : Type ℓ} (cap : ℕ) where
  unfoldable pub push : CustomSpscQueue A → A → Bool × CustomSpscQueue A
  push q a = if sub64 q.write q.read == cap then (false, q) else (
    true,
    record q { write = u64 (q.write + 1); cells = update q.cells (q.write % cap) (some a) },
  )

  unfoldable pub pop : CustomSpscQueue A → Popped A × CustomSpscQueue A
  pop q = if q.read == q.write then (nothing, q) else (
    moved (q.cells (q.read % cap)),
    record q { read = u64 (q.read + 1); cells = update q.cells (q.read % cap) none },
  )

  -- `while (r < w) { destroy_at(data_ + r % RealCapacity); r++; }`; `none` where the fuel runs out.
  unfoldable pub destroy_loop : ℕ → ℕ → ℕ → (ℕ → Option A) → Option (ℕ → Option A)
  destroy_loop zero r w cells = none
  destroy_loop (suc fuel) r w cells =
      let rest = destroy_loop fuel (r + 1) w (update cells (r % cap) none) in
      if ltb r w then rest else some cells

  -- The destructor, up to the deallocation; the cells that it leaves.
  unfoldable pub destroy : CustomSpscQueue A → Option (ℕ → Option A)
  destroy q = destroy_loop (suc (q.write - q.read)) q.read q.write q.cells
