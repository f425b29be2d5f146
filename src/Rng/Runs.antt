-- ===== src/Rng/Runs.antt =====
-- The theorem at a concrete seed.
use sipr.Common.{◌≡◌, arith, length}
use sipr.Rng.{new, fill}
use sipr.Rng.Period.{IsState, fill-IsState}

fill-IsState_example : IsState (fill (new 0) 11).0 × (length (fill (new 0) 11).1 ≡ 11)
fill-IsState_example = fill-IsState 0 11 (omega arith)
