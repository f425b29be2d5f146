-- ===== src/Timer/Refine.antt =====
-- The queue implements a list of live timers in firing order: what each operation does to it.
use sipr.Common.{
  ℕ, ◌+◌, ◌%◌, ◌<◌, ◌≤◌, ◌^◌, ◌≡◌, ◌≢◌, refl, inl, inr, true, false, not, List, [], ◌∷◌, arith,
  ◌==◌, Bool-cases, All, All-mono, All-filter, filter,
}
use sipr.Timer.{
  Entry, TimerQueue, contains, insert, new, push, arm, cancel, no_entries, pop_due, next_deadline,
}
use sipr.Timer.Order.{
  Sorted, Absent, Distinct, filter-push, push-Sorted, push-Distinct, All-push, filter-Sorted,
  filter-Distinct,
}
use sipr.Timer.Live.{
  pending, later, due, first_deadline, events, pop_due_loop-heap, pop_due_loop-fired,
  pop_due_loop-live, pop_due_loop-tombs, next_deadline_loop-found, next_deadline_loop-live,
  next_deadline_loop-All, next_deadline_loop-Sorted, next_deadline_loop-tombs, All-contains,
  All-insert, contains-insert,
}

module _ {ℓ} {E : Type ℓ} where
  -- The timers that can still fire, first to fire first.
  abbrev pub live : TimerQueue E → List (Entry E)
  live q = filter (pending q.cancelled) q.heap

  pub record IsValid (q : TimerQueue E) : Type ℓ where
    pub sorted : Sorted q.heap
    pub distinct : Distinct q.heap
    pub issued : All (λ (e : Entry E). e.id ≤ q.next_id) q.heap
    pub tombs : All (λ i. i ≤ q.next_id) q.cancelled

  -- The id of the next timer is not in use, as long as ids do not wrap.
  Absent-next : (n : ℕ) (es : List (Entry E)) → All (λ e. e.id ≤ n) es → Absent (n + 1) es
  Absent-next n es = All-mono {P = λ e. e.id ≤ n} {Q = λ e. e.id ≢ n + 1} (λ e h p. omega arith) es

  pub new-IsValid : IsValid (new {E = E})
  unfolding new
  new-IsValid = record { sorted = tt; distinct = tt; issued = tt; tombs = tt }

  pub next_id_lem :
      (q : TimerQueue E) (d : ℕ) (e : E) → q.next_id + 1 < 2 ^ 64 → (arm q d e).1 ≡ q.next_id + 1
  unfolding arm
  next_id_lem q d e h = omega arith

  pub arm-IsValid :
      (q : TimerQueue E) (d : ℕ) (e : E)
      → q.next_id + 1 < 2 ^ 64
      → IsValid q
      → IsValid (arm q d e).0
  unfolding arm
  arm-IsValid q d e h v =
      let wrap : (q.next_id + 1) % 2 ^ 64 ≡ q.next_id + 1 = omega arith in
      let fresh : Absent (q.next_id + 1) q.heap = Absent-next q.next_id q.heap v.issued in
      let older : All (λ x. x.id ≤ q.next_id + 1) q.heap =
        All-mono {P = λ x. x.id ≤ q.next_id} (λ x k. omega arith) q.heap v.issued in
      rw wrap (record {
        sorted = push-Sorted _ q.heap fresh v.sorted;
        distinct = push-Distinct _ q.heap fresh v.distinct;
        issued = All-push (λ x. x.id ≤ q.next_id + 1) _ q.heap fresh (omega arith) older;
        tombs = All-mono {P = λ i. i ≤ q.next_id} (λ i k. omega arith) q.cancelled v.tombs;
      })

  no_tomb : (q : TimerQueue E) → IsValid q → contains q.cancelled (q.next_id + 1) ≡ false
  no_tomb q v = elim (Bool-cases (contains q.cancelled (q.next_id + 1))) [
    | inl t ↦
        absurd
          (omega (arith, All-contains (λ i. i ≤ q.next_id) q.cancelled (q.next_id + 1) v.tombs t))
    | inr f ↦ f
  ]

  pub live-arm :
      (q : TimerQueue E) (d : ℕ) (e : E)
      → q.next_id + 1 < 2 ^ 64
      → IsValid q
      → live (arm q d e).0 ≡ push (record { deadline = d; id = q.next_id + 1; event = e }) (live q)
  unfolding arm
  live-arm q d e h v =
      let wrap : (q.next_id + 1) % 2 ^ 64 ≡ q.next_id + 1 = omega arith in
      let new_entry : Entry E = record { deadline = d; id = q.next_id + 1; event = e } in
      let fresh : Absent (q.next_id + 1) q.heap = Absent-next q.next_id q.heap v.issued in
      rw (wrap, filter-push (pending q.cancelled) new_entry q.heap fresh v.sorted, no_tomb q v) refl

  no_entries→nil : (es : List (Entry E)) → no_entries es ≡ true → es ≡ []
  no_entries→nil [] h = refl
  no_entries→nil (e ∷ es) h = cc

  pending-insert :
      (c : List ℕ) (i : ℕ) (es : List (Entry E))
      → filter (pending (insert c i)) es ≡ filter (λ e. not (i == e.id)) (filter (pending c) es)
  pending-insert c i [] = refl
  pending-insert c i (e ∷ es) = ground (arith, contains-insert c i e.id, pending-insert c i es)

  pub live-cancel :
      (q : TimerQueue E) (i : ℕ) → live (cancel q i) ≡ filter (λ e. not (i == e.id)) (live q)
  unfolding cancel
  live-cancel q i = elim (Bool-cases (no_entries q.heap)) [
    | inl h ↦ rw (h, no_entries→nil q.heap h)
    | inr h ↦ rw h (pending-insert q.cancelled i q.heap)
  ]

  pub live-pop_due :
      (q : TimerQueue E) (now : ℕ)
      → IsValid q
      → ((pop_due q now).1 ≡ events (filter (due now) (live q)))
        × (live (pop_due q now).0 ≡ filter (later now) (live q))
  unfolding pop_due
  live-pop_due q now v = (
    pop_due_loop-fired now q.heap q.cancelled [] v.sorted v.distinct,
    pop_due_loop-live now q.heap q.cancelled [] v.sorted v.distinct,
  )

  pub live-next_deadline :
      (q : TimerQueue E)
      → IsValid q
      → ((next_deadline q).1 ≡ first_deadline (live q)) × (live (next_deadline q).0 ≡ live q)
  unfolding next_deadline
  live-next_deadline q v = (
    next_deadline_loop-found q.heap q.cancelled v.distinct,
    next_deadline_loop-live q.heap q.cancelled v.distinct,
  )

  pub cancel-IsValid : (q : TimerQueue E) (i : ℕ) → i ≤ q.next_id → IsValid q → IsValid (cancel q i)
  unfolding cancel
  cancel-IsValid q i h v = elim (Bool-cases (no_entries q.heap)) [
    | inl e ↦
        rw e (record { sorted = v.sorted; distinct = v.distinct; issued = v.issued; tombs = tt })
    | inr e ↦ rw e (record {
      sorted = v.sorted;
      distinct = v.distinct;
      issued = v.issued;
      tombs = All-insert (λ j. j ≤ q.next_id) q.cancelled i h v.tombs;
    })
  ]

  pub pop_due-IsValid : (q : TimerQueue E) (now : ℕ) → IsValid q → IsValid (pop_due q now).0
  unfolding pop_due
  pop_due-IsValid q now v =
      let kept = pop_due_loop-heap now q.heap q.cancelled [] v.sorted in
      record {
        sorted = rw kept (filter-Sorted (later now) q.heap v.sorted);
        distinct = rw kept (filter-Distinct (later now) q.heap v.distinct);
        issued = rw kept (All-filter (λ e. e.id ≤ q.next_id) (later now) q.heap v.issued);
        tombs = pop_due_loop-tombs (λ i. i ≤ q.next_id) now q.heap q.cancelled [] v.tombs;
      }

  pub next_deadline-IsValid : (q : TimerQueue E) → IsValid q → IsValid (next_deadline q).0
  unfolding next_deadline
  next_deadline-IsValid q v =
      let (s, d) = next_deadline_loop-Sorted q.heap q.cancelled v.sorted v.distinct in
      record {
        sorted = s;
        distinct = d;
        issued = next_deadline_loop-All (λ e. e.id ≤ q.next_id) q.heap q.cancelled v.issued;
        tombs = next_deadline_loop-tombs (λ i. i ≤ q.next_id) q.heap q.cancelled v.tombs;
      }
