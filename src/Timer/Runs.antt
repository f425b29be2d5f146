-- ===== src/Timer/Runs.antt =====
-- Concrete runs of the timer queue, and its theorems at concrete inputs.
use sipr.Common.{ℕ, ◌≡◌, refl, true, List, [], ◌∷◌, some, arith}
use sipr.Timer.{
  Entry, TimerQueue, new, push, cmp, arm, cancel, contains, insert, remove, pop_due, pop_due_loop,
  next_deadline, next_deadline_loop, len,
}
use sipr.Timer.Order.{Absent}
use sipr.Timer.Refine.{IsValid, live}
use sipr.Timer.History.{
  Call, arms, cancels, pops, looks, armed, silent, fired, next, step, run, spec_run, run_refines,
  cancel_final,
}
use sipr.Common.{◌+◌}
use sipr.Timer.Count.{cancel_stale}
use sipr.Timer.Service.{
  World, Reach, next as then_step, started, start, arm_at, Covers, Reach-Covers, turn, here,
  arms as arming, turns, is_sooner,
}

abbrev entry : ℕ → ℕ → ℕ → Entry ℕ
entry d i e = record { deadline = d; id = i; event = e }

-- Timers 1 and 2 are armed, 3 has a tombstone.
abbrev two_left : TimerQueue ℕ
two_left = record {
  heap = entry 10 3 30 ∷ entry 20 1 31 ∷ entry 20 2 32 ∷ [];
  cancelled = 3 ∷ [];
  next_id = 5;
}

two_left-IsValid : IsValid two_left
two_left-IsValid = record {
  sorted = omega arith;
  distinct = omega arith;
  issued = omega arith;
  tombs = omega arith;
}

abbrev history : List (Call ℕ)
history = arms 30 7 ∷ arms 10 8 ∷ arms 10 9 ∷ cancels 2 ∷ looks ∷ pops 29 ∷ pops 30 ∷ []

history-run :
    (run new history).1
    ≡ armed 1 ∷ armed 2 ∷ armed 3 ∷ silent ∷ next (some 10) ∷ fired (9 ∷ []) ∷ fired (7 ∷ []) ∷ []
unfolding run step new arm push cmp cancel insert contains remove next_deadline next_deadline_loop
    pop_due pop_due_loop
history-run = refl

run_refines_example :
    ((run new history).1 ≡ (spec_run ([], 0) history).1)
    × (live (run new history).0 ≡ (spec_run ([], 0) history).0.0)
unfolding step new arm push cmp cancel insert contains remove next_deadline next_deadline_loop
    pop_due pop_due_loop
run_refines_example = run_refines history (omega arith)

cancel_final_example : Absent 1 (live (run (cancel two_left 1) (pops 5 ∷ looks ∷ [])).0)
cancel_final_example =
    cancel_final two_left 1 (pops 5 ∷ looks ∷ []) two_left-IsValid (omega arith) (tt, (tt, tt))

cancel_stale_example :
    (len (cancel two_left 4) + 1 ≡ len two_left) × (live (cancel two_left 4) ≡ live two_left)
unfolding contains len
cancel_stale_example = cancel_stale two_left 4 refl refl refl (omega arith)

-- The thread has looked at the queue at time 6; a timer for 40 is armed, then one for 60.
parked : World ℕ
unfolding started arm_at turn pop_due next_deadline
parked = record {
  state = (arm_at (turn (arm_at (start 5) 40 7).0 6 1).0 60 8).0;
  waits = true;
  until = some 40;
  owed = 0;
}

parked-Reach : Reach (started 5) parked
unfolding parked started arm_at turn arm push cmp pop_due pop_due_loop next_deadline
    next_deadline_loop contains remove new is_sooner
parked-Reach =
    then_step (then_step (then_step here (arming _ 40 7 (omega arith))) (turns _ 6 1 refl))
      (arming _ 60 8 (omega arith))

Reach-Covers_example :
    (parked.until ≡ parked.state.wakes_at) × Covers parked.until parked.state.queue.heap
unfolding parked
Reach-Covers_example = Reach-Covers 5 parked-Reach refl refl
