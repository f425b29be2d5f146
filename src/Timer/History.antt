-- ===== src/Timer/History.antt =====
-- Any history of calls on the queue, against the list of live timers.
use sipr.Common.{
  ℕ, ◌+◌, ◌<◌, ◌≤◌, ◌^◌, ◌≡◌, refl, ap, not, List, [], ◌∷◌, Option, arith, ◌==◌, ◌≢◌, filter,
  All-filter, sym, subst,
}
use sipr.Timer.{Entry, TimerQueue, new, push, arm, cancel, pop_due, next_deadline}
use sipr.Timer.Order.{Absent, push-Absent}
use sipr.Timer.Live.{later, due, first_deadline, events}
use sipr.Timer.Refine.{
  IsValid, live, new-IsValid, arm-IsValid, cancel-IsValid, pop_due-IsValid, next_deadline-IsValid,
  live-arm, live-cancel, live-pop_due, live-next_deadline, next_id_lem,
}

pub data Call {ℓ} (E : Type ℓ) : Type ℓ where
  arms : ℕ → E → Call E
  cancels : ℕ → Call E
  pops : ℕ → Call E
  looks : Call E

-- What a call answers: the new id, nothing, the fired events, the next deadline.
pub data Answer {ℓ} (E : Type ℓ) : Type ℓ where
  armed : ℕ → Answer E
  silent : Answer E
  fired : List E → Answer E
  next : Option ℕ → Answer E

-- The specification: the live timers in firing order, and the last id given out.
abbrev pub Timers {ℓ} : Type ℓ → Type ℓ
Timers E = List (Entry E) × ℕ

module _ {ℓ} {E : Type ℓ} where
  unfoldable pub step : TimerQueue E → Call E → TimerQueue E × Answer E
  step q (arms d e) = let (q', id) = arm q d e in (q', armed id)
  step q (cancels i) = (cancel q i, silent)
  step q (pops now) = let (q', es) = pop_due q now in (q', fired es)
  step q looks = let (q', d) = next_deadline q in (q', next d)

  unfoldable pub spec_step : Timers E → Call E → Timers E × Answer E
  spec_step (es, n) (arms d e) =
      ((push (record { deadline = d; id = n + 1; event = e }) es, n + 1), armed (n + 1))
  spec_step (es, n) (cancels i) = ((filter (λ e. not (i == e.id)) es, n), silent)
  spec_step (es, n) (pops now) = ((filter (later now) es, n), fired (events (filter (due now) es)))
  spec_step (es, n) looks = ((es, n), next (first_deadline es))

  abbrev pub view : TimerQueue E → Timers E
  view q = (live q, q.next_id)

  -- Ids do not run out, and only ids that were given out are cancelled.
  abbrev pub Allowed : TimerQueue E → Call E → Type 0
  Allowed q (arms d e) = q.next_id + 1 < 2 ^ 64
  Allowed q (cancels i) = i ≤ q.next_id
  Allowed q (pops now) = Unit {0}
  Allowed q looks = Unit {0}

  -- Every call keeps the queue well formed: the heap in order, the tombstones and the ids below the
  -- next one. A call to cancel takes an id that `arm` has given out.
  pub step-IsValid :
      (q : TimerQueue E) (c : Call E) → Allowed q c → IsValid q → IsValid (step q c).0
  unfolding step
  step-IsValid q (arms d e) a v = arm-IsValid q d e a v
  step-IsValid q (cancels i) a v = cancel-IsValid q i a v
  step-IsValid q (pops now) a v = pop_due-IsValid q now v
  step-IsValid q looks a v = next_deadline-IsValid q v

  next_id-cancel : (q : TimerQueue E) (i : ℕ) → (cancel q i).next_id ≡ q.next_id
  unfolding cancel
  next_id-cancel q i = ground arith

  next_id-arm :
      (q : TimerQueue E) (d : ℕ) (e : E)
      → q.next_id + 1 < 2 ^ 64
      → (arm q d e).0.next_id ≡ q.next_id + 1
  unfolding arm
  next_id-arm q d e h = omega arith

  next_id-pop_due : (q : TimerQueue E) (now : ℕ) → (pop_due q now).0.next_id ≡ q.next_id
  unfolding pop_due
  next_id-pop_due q now = refl

  next_id-next_deadline : (q : TimerQueue E) → (next_deadline q).0.next_id ≡ q.next_id
  unfolding next_deadline
  next_id-next_deadline q = refl

  -- One call does to the live timers what the specification says, and answers the same.
  pub view-step :
      (q : TimerQueue E) (c : Call E)
      → Allowed q c
      → IsValid q
      → (view (step q c).0 ≡ (spec_step (view q) c).0) × ((step q c).1 ≡ (spec_step (view q) c).1)
  unfolding step spec_step
  view-step q (arms d e) a v =
      (ground (arith, live-arm q d e a v, next_id-arm q d e a), ap armed (next_id_lem q d e a))
  view-step q (cancels i) a v = (ground (arith, live-cancel q i, next_id-cancel q i), refl)
  view-step q (pops now) a v =
      let (es, l) = live-pop_due q now v in (ground (arith, l, next_id-pop_due q now), ap fired es)
  view-step q looks a v =
      let (d, l) = live-next_deadline q v in (ground (arith, l, next_id-next_deadline q), ap next d)

  unfoldable pub run : TimerQueue E → List (Call E) → TimerQueue E × List (Answer E)
  run q [] = (q, [])
  run q (c ∷ cs) = let (q', a) = step q c in let (last, answers) = run q' cs in (last, a ∷ answers)

  unfoldable pub spec_run : Timers E → List (Call E) → Timers E × List (Answer E)
  spec_run s [] = (s, [])
  spec_run s (c ∷ cs) =
      let (s', a) = spec_step s c in let (last, answers) = spec_run s' cs in (last, a ∷ answers)

  abbrev pub AllAllowed : TimerQueue E → List (Call E) → Type 0
  AllAllowed q [] = Unit {0}
  AllAllowed q (c ∷ cs) = Allowed q c × AllAllowed (step q c).0 cs

  view-new : view new ≡ ([], 0)
  unfolding new
  view-new = refl

  view-run :
      (q : TimerQueue E) (cs : List (Call E))
      → AllAllowed q cs
      → IsValid q
      → (view (run q cs).0 ≡ (spec_run (view q) cs).0) × ((run q cs).1 ≡ (spec_run (view q) cs).1)
  unfolding run spec_run
  view-run q [] a v = (refl, refl)
  view-run q (c ∷ cs) a v =
      let (s, o) = view-step q c a.0 v in
      let (ss, os) = view-run (step q c).0 cs a.1 (step-IsValid q c a.0 v) in
      rw (← s, ← o) (ss, ap (λ rest. (step q c).1 ∷ rest) os)

  -- Every history from a new queue answers as the list of live timers does, and leaves those timers
  -- live, as long as the ids do not run out and only ids that were given out are cancelled.
  pub run_refines :
      (cs : List (Call E))
      → AllAllowed new cs
      → ((run new cs).1 ≡ (spec_run ([], 0) cs).1)
        × (live (run new cs).0 ≡ (spec_run ([], 0) cs).0.0)
  run_refines cs a =
      let (l, o) = view-run new cs a new-IsValid in
      (rw view-new at o, ap (λ s. s.0) (rw view-new at l))

  -- No timer of the specification has the id, and it will not be given out again.
  abbrev Gone : ℕ → Timers E → Type 0
  Gone i (es, n) = Absent i es × (i ≤ n)

  spec_step-Gone : (i : ℕ) (s : Timers E) (c : Call E) → Gone i s → Gone i (spec_step s c).0
  unfolding spec_step
  spec_step-Gone i (es, n) (arms d e) (g, h) = (
    push-Absent i (record { deadline = d; id = n + 1; event = e }) es (omega arith) g,
    omega arith,
  )
  spec_step-Gone i (es, n) (cancels j) (g, h) =
      (All-filter (λ e. e.id ≢ i) (λ e. not (j == e.id)) es g, h)
  spec_step-Gone i (es, n) (pops now) (g, h) = (All-filter (λ e. e.id ≢ i) (later now) es g, h)
  spec_step-Gone i (es, n) looks g = g

  spec_run-Gone : (i : ℕ) (s : Timers E) (cs : List (Call E)) → Gone i s → Gone i (spec_run s cs).0
  unfolding spec_run
  spec_run-Gone i s [] g = g
  spec_run-Gone i s (c ∷ cs) g = spec_run-Gone i (spec_step s c).0 cs (spec_step-Gone i s c g)

  cancelled-Absent : (i : ℕ) (es : List (Entry E)) → Absent i (filter (λ e. not (i == e.id)) es)
  cancelled-Absent i [] = tt
  cancelled-Absent i (e ∷ es) = ground (arith, cancelled-Absent i es)

  -- Once a timer that was given out is cancelled in a well-formed queue, no later history of allowed
  -- calls makes it live again.
  pub cancel_final :
      (q : TimerQueue E) (i : ℕ) (cs : List (Call E))
      → IsValid q
      → i ≤ q.next_id
      → AllAllowed (cancel q i) cs
      → Absent i (live (run (cancel q i) cs).0)
  cancel_final q i cs v h a =
      let (l, _) = view-run (cancel q i) cs a (cancel-IsValid q i h v) in
      let gone : Gone i (view (cancel q i)) = (
        subst (Absent i) (sym (live-cancel q i)) (cancelled-Absent i (live q)),
        omega (arith, next_id-cancel q i),
      ) in
      subst (λ s. Absent i s.0) (sym l) (spec_run-Gone i (view (cancel q i)) cs gone).0
