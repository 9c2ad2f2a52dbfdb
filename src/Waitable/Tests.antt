-- ===== src/Waitable/Tests.antt =====
-- WaitableSpscQueue at concrete interleavings.
use market_data_disseminatio.Base.Tests.{ℕ, ◌≡◌, arith}
use market_data_disseminatio.Waitable.{pushed, System, Step, Reach}
use market_data_disseminatio.Waitable.Stop.{IsStranded, stop_lost}

stop_lost_example :
    (s : System ℕ) × Reach 2 s × IsStranded s × ((t : System ℕ) → Step 2 s t → t.producer ≡ pushed)
stop_lost_example = stop_lost (omega arith)
