-- ===== src/Timer/Service.antt =====
-- `TimerService`: the thread that delivers fired events, and the calls that wake it.
-- Every critical section of the mutex is one step. `notify_one` comes after the lock is dropped, so
-- it is a step of its own; a condvar wait may also end by its timeout or for no reason. A thread that
-- has returned counts as one that does not wait.
use sipr.Common.{
  ℕ, suc, ◌+◌, ◌<◌, ◌≤◌, ◌^◌, ◌≡◌, refl, ap, inl, inr, Bool, true, false, List, [], ◌∷◌, Option,
  none, some, arith, ltb, leb, length, take, if◌then◌else◌, Bool-cases, if_intro, All, All-mono,
}
use sipr.Timer.{
  Entry, TimerQueue, new, arm, cancel, pop_due, next_deadline, no_entries, push, next_deadline_loop,
  contains, remove,
}
use sipr.Timer.Order.{Sorted, Before}
use sipr.Timer.Refine.{
  IsValid, new-IsValid, arm-IsValid, cancel-IsValid, pop_due-IsValid, next_deadline-IsValid,
}

pub record QueueState {ℓ} (E : Type ℓ) : Type ℓ where
  pub queue : TimerQueue E
  pub shutdown : Bool
  pub wakes_at : Option ℕ

-- `wakes_at.is_none_or(|at| deadline < at)`
unfoldable pub is_sooner : Option ℕ → ℕ → Bool
is_sooner none deadline = true
is_sooner (some at) deadline = ltb deadline at

module _ {ℓ} {E : Type ℓ} where
  -- `start`: the thread's first look at the queue is immediate.
  unfoldable pub start : ℕ → QueueState E
  start now = record { queue = new; shutdown = false; wakes_at = some now }

  -- The critical section of `arm_at`; the last part says whether `notify_one` follows.
  unfoldable pub arm_at : QueueState E → ℕ → E → QueueState E × ℕ × Bool
  unfolding is_sooner
  arm_at s deadline event =
      let (q, id) = arm s.queue deadline event in
      let sooner = is_sooner s.wakes_at deadline in
      (record s { queue = q; wakes_at = if sooner then some deadline else s.wakes_at }, id, sooner)

  unfoldable pub cancel_timer : QueueState E → ℕ → QueueState E
  cancel_timer s id = record s { queue = cancel s.queue id }

  -- `arm`, at the time `now`.
  unfoldable pub arm_after : QueueState E → ℕ → ℕ → E → QueueState E × ℕ × Bool
  unfolding arm_at
  arm_after s now delay event = arm_at s (now + delay) event

  -- `drop`, up to the join of the thread: the flag, and `notify_one` follows.
  unfoldable pub shut_down : QueueState E → QueueState E
  shut_down s = record s { shutdown = true }

  -- One turn of the loop of `run` at the time `now`, up to the wait: the new state, what was sent,
  -- and whether the thread goes on to wait. The receiver takes `accepts` events, then it is gone.
  unfoldable pub turn : QueueState E → ℕ → ℕ → QueueState E × List E × Bool
  turn s now accepts =
      let (q, fired) = pop_due s.queue now in
      let (q', next) = next_deadline q in
      if s.shutdown
      then (s, [], false)
      else if leb (length fired) accepts
      then (record s { queue = q'; wakes_at = next }, fired, true)
      else (record s { queue = q }, take accepts fired, false)

-- The state, and around it: whether the thread waits on the condvar, until when, and the calls of
-- `notify_one` that are still to come.
pub record World {ℓ} (E : Type ℓ) : Type ℓ where
  pub state : QueueState E
  pub waits : Bool
  pub until : Option ℕ
  pub owed : ℕ

abbrev one_if : Bool → ℕ
one_if true = 1
one_if false = 0

module _ {ℓ} {E : Type ℓ} where
  pub data Step : World E → World E → Type ℓ where
    arms :
        (w : World E) (d : ℕ) (e : E)
        → w.state.queue.next_id + 1 < 2 ^ 64
        → Step w (record w {
          state = (arm_at w.state d e).0;
          owed = w.owed + one_if (arm_at w.state d e).2;
        })
    cancels :
        (w : World E) (i : ℕ)
        → i ≤ w.state.queue.next_id
        → Step w (record w { state = cancel_timer w.state i })
    drops :
        (w : World E)
        → Step w (record w { state = record (w.state) { shutdown = true }; owed = w.owed + 1 })
    notifies :
        (w : World E) (n : ℕ) → w.owed ≡ suc n → Step w (record w { owed = n; waits = false })
    wakes : (w : World E) → Step w (record w { waits = false })
    turns :
        (w : World E) (now accepts : ℕ)
        → w.waits ≡ false
        → Step w (record w {
          state = (turn w.state now accepts).0;
          waits = (turn w.state now accepts).2;
          until = (turn w.state now accepts).0.wakes_at;
        })

  pub data Reach (w : World E) : World E → Type ℓ where
    here : Reach w w
    next : {u v : World E} → Reach w u → Step u v → Reach w v

  unfoldable pub started : ℕ → World E
  unfolding start
  started now = record { state = start now; waits = false; until = none; owed = 0 }

  -- A wait until `t` misses no entry of the heap.
  abbrev pub Covers : Option ℕ → List (Entry E) → Type 0
  Covers none [] = Unit {0}
  Covers none (e ∷ es) = ⊥
  Covers (some t) es = All (λ e. t ≤ e.deadline) es

  -- While the thread waits and nobody is about to wake it, it wakes in time for every timer.
  abbrev pub IsPrompt : World E → Type 0
  IsPrompt w =
      w.waits ≡ true → w.owed ≡ 0 → (w.until ≡ w.state.wakes_at) × Covers w.until w.state.queue.heap

  -- The deadline that `next_deadline` finds is the earliest in the heap that it leaves.
  next_deadline_loop-Covers :
      (es : List (Entry E)) (c : List ℕ)
      → Sorted es
      → Covers (next_deadline_loop es c).2 (next_deadline_loop es c).0
  unfolding next_deadline_loop
  next_deadline_loop-Covers [] c s = tt
  next_deadline_loop-Covers (e ∷ es) c s = elim (Bool-cases (contains c e.id)) [
    | inl t ↦ rw t (next_deadline_loop-Covers es (remove c e.id) s.1)
    | inr f ↦ rw f (
      omega arith,
      All-mono {P = Before e} {Q = λ x. e.deadline ≤ x.deadline} (λ x b. omega arith) es s.0,
    )
  ]

  turn_cases {κ} :
      (P : QueueState E × List E × Bool → Type κ) (s : QueueState E) (now accepts : ℕ)
      → P (s, [], false)
      → ((fired : List E)
          → P (
            record s {
              queue = (next_deadline (pop_due s.queue now).0).0;
              wakes_at = (next_deadline (pop_due s.queue now).0).1;
            },
            fired,
            true,
          ))
      → ((fired : List E) → P (record s { queue = (pop_due s.queue now).0 }, fired, false))
      → P (turn s now accepts)
  unfolding turn
  turn_cases P s now accepts stop go lost =
      if_intro P s.shutdown (λ _. stop)
        (λ _. if_intro P (leb (length (pop_due s.queue now).1) accepts) (λ _. go _) (λ _. lost _))

  turn-Covers :
      (s : QueueState E) (now accepts : ℕ)
      → IsValid s.queue
      → (turn s now accepts).2 ≡ true
      → Covers (turn s now accepts).0.wakes_at (turn s now accepts).0.queue.heap
  unfolding next_deadline
  turn-Covers s now accepts v =
      turn_cases (λ r. r.2 ≡ true → Covers r.0.wakes_at r.0.queue.heap) s now accepts (λ h. cc)
        (λ _ _. next_deadline_loop-Covers _ _ (pop_due-IsValid s.queue now v).sorted) (λ _ h. cc)

  turn-IsValid :
      (s : QueueState E) (now accepts : ℕ) → IsValid s.queue → IsValid (turn s now accepts).0.queue
  turn-IsValid s now accepts v =
      turn_cases (λ r. IsValid r.0.queue) s now accepts v
        (λ _. next_deadline-IsValid _ (pop_due-IsValid s.queue now v))
        (λ _. pop_due-IsValid s.queue now v)

  push-Covers :
      (t : ℕ) (e : Entry E) (es : List (Entry E))
      → t ≤ e.deadline
      → Covers (some t) es
      → Covers (some t) (push e es)
  unfolding push
  push-Covers t e [] h c = (h, tt)
  push-Covers t e (x ∷ es) h c = ground (arith, push-Covers t e es h c.1)

  -- A timer that does not wake the thread is not due before the thread wakes.
  arm_at-Covers :
      (s : QueueState E) (d : ℕ) (e : E) (at : Option ℕ)
      → at ≡ s.wakes_at
      → is_sooner at d ≡ false
      → Covers at s.queue.heap
      → Covers at (arm s.queue d e).0.heap
  unfolding is_sooner arm
  arm_at-Covers s d e none p h c = cc
  arm_at-Covers s d e (some t) p h c = push-Covers t _ s.queue.heap (ground arith) c

  arm_at-IsPrompt :
      (w : World E) (d : ℕ) (e : E)
      → IsPrompt w
      → w.waits ≡ true
      → w.owed + one_if (arm_at w.state d e).2 ≡ 0
      → (w.until ≡ (arm_at w.state d e).0.wakes_at)
        × Covers w.until (arm_at w.state d e).0.queue.heap
  unfolding arm_at
  arm_at-IsPrompt w d e p a b = elim (Bool-cases (is_sooner w.state.wakes_at d)) [
    | inl h ↦ absurd (omega (arith, ap one_if h))
    | inr h ↦
        let (u, c) = p a (omega arith) in rw h (u, arm_at-Covers w.state d e w.until u (rw u h) c)
  ]

  cancel-Covers :
      (q : TimerQueue E) (i : ℕ) (t : Option ℕ) → Covers t q.heap → Covers t (cancel q i).heap
  unfolding cancel
  cancel-Covers q i t c = elim (Bool-cases (no_entries q.heap)) [ inl h ↦ rw h c | inr h ↦ rw h c ]

  Step-IsValid : {w v : World E} → Step w v → IsValid w.state.queue → IsValid v.state.queue
  Step-IsValid (arms w d e h) v = unfold arm_at in arm-IsValid w.state.queue d e h v
  Step-IsValid (cancels w i h) v = unfold cancel_timer in cancel-IsValid w.state.queue i h v
  Step-IsValid (drops w) v = v
  Step-IsValid (notifies w n h) v = v
  Step-IsValid (wakes w) v = v
  Step-IsValid (turns w now accepts h) v = turn-IsValid w.state now accepts v

  Step-IsPrompt : {w v : World E} → Step w v → IsValid w.state.queue → IsPrompt w → IsPrompt v
  Step-IsPrompt (arms w d e h) v p = arm_at-IsPrompt w d e p
  Step-IsPrompt (cancels w i h) v p = λ a b.
      let (u, c) = p a b in unfold cancel_timer in (u, cancel-Covers w.state.queue i w.until c)
  Step-IsPrompt (drops w) v p = λ a b. absurd (omega arith)
  Step-IsPrompt (notifies w n h) v p = λ a b. cc
  Step-IsPrompt (wakes w) v p = λ a b. cc
  Step-IsPrompt (turns w now accepts h) v p = λ a b. (refl, turn-Covers w.state now accepts v a)

  Reach-IsPrompt :
      (now : ℕ) {w : World E} → Reach (started now) w → IsValid w.state.queue × IsPrompt w
  Reach-IsPrompt now here = unfold started in (new-IsValid, λ a b. cc)
  Reach-IsPrompt now (next r st) =
      let (v, p) = Reach-IsPrompt now r in (Step-IsValid st v, Step-IsPrompt st v p)

  -- However the calls, the wake-ups and the turns of the thread interleave from the start: while the
  -- thread waits and no `notify_one` is still to come, it sleeps until the `wakes_at` of the state,
  -- which is not after the deadline of any entry of the heap.
  pub Reach-Covers :
      (now : ℕ) {w : World E}
      → Reach (started now) w
      → w.waits ≡ true
      → w.owed ≡ 0
      → (w.until ≡ w.state.wakes_at) × Covers w.until w.state.queue.heap
  Reach-Covers now r a b = (Reach-IsPrompt now r).1 a b
