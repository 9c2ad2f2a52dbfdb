-- ===== src/Spin/Tests.antt =====
-- SpinSpscQueue over a ring of two places.
use market_data_disseminatio.Base.Tests.{ℕ, ◌≡◌, refl, false, List, [], ◌∷◌, arith}
use market_data_disseminatio.Queue.{fresh}
use market_data_disseminatio.Queue.Refine.{IsCapacity, Holds, fresh-Holds}
use market_data_disseminatio.Spin.{SpinRound, spin_pop}
use market_data_disseminatio.Queue.Storage.{ring_storage, ring_is_storage}
use market_data_disseminatio.Spin.Fifo.{fifo_spin, spin_pop_refines}

two : IsCapacity 2
two = record { positive = omega arith; small = omega arith; divides = refl }

-- Nothing in the first round, and three items before the second, of which the last does not fit.
abbrev two_rounds : List (SpinRound ℕ)
two_rounds =
    record { stop_requested = false; arriving = [] }
    ∷ record { stop_requested = false; arriving = 1 ∷ 2 ∷ 3 ∷ [] }
    ∷ []

spin_pop_refines_example :
    ((spin_pop (ring_storage 2) two_rounds fresh).0 ≡ (fifo_spin 2 two_rounds []).0)
    × Holds 2 (spin_pop (ring_storage 2) two_rounds fresh).1 (fifo_spin 2 two_rounds []).1
spin_pop_refines_example = spin_pop_refines (ring_is_storage two) two_rounds (fresh-Holds two)
