-- ===== src/Timer/Live.antt =====
-- The live timers: the heap without the entries that have a tombstone; and the loops on them.
use mathlib.Core.List.{append_assoc, append-nil}
use sipr.Common.{
  ℕ, ◌≡◌, ◌≢◌, refl, sym, inl, inr, Bool, true, not, List, [], ◌∷◌, ◌++◌, map, Option, none, some,
  arith, ltb, leb, ◌==◌, if◌then◌else◌, Bool-cases, if_intro, subst, All, All-mono, All-filter,
  filter, filter-All, filter_congr,
}
use sipr.Timer.{Entry, contains, insert, remove, pop_due_loop, next_deadline_loop}
use sipr.Timer.Order.{Before, Sorted, Absent, Distinct}

pub contains-remove_ne : (c : List ℕ) (i j : ℕ) → j ≢ i → contains (remove c i) j ≡ contains c j
unfolding contains remove
contains-remove_ne [] i j h = refl
contains-remove_ne (x ∷ c) i j h = ground (arith, contains-remove_ne c i j h)

pub contains-insert :
    (c : List ℕ) (i j : ℕ) → contains (insert c i) j ≡ (if i == j then true else contains c j)
unfolding contains insert
contains-insert c i j = ground arith

pub All-contains {κ} : (P : ℕ → Type κ) (c : List ℕ) (i : ℕ) → All P c → contains c i ≡ true → P i
unfolding contains
All-contains P [] i h e = absurd (cc)
All-contains P (x ∷ c) i h e = elim (Bool-cases (x == i)) [
  | inl p ↦ subst P (ground arith) h.0
  | inr p ↦ All-contains P c i h.1 (rw p at e)
]

pub All-remove {κ} : (P : ℕ → Type κ) (c : List ℕ) (i : ℕ) → All P c → All P (remove c i)
unfolding remove
All-remove P [] i h = tt
All-remove P (x ∷ c) i h = if_intro (All P) (x == i) (λ _. h.1) (λ _. (h.0, All-remove P c i h.1))

pub All-insert {κ} : (P : ℕ → Type κ) (c : List ℕ) (i : ℕ) → P i → All P c → All P (insert c i)
unfolding insert
All-insert P c i p h = if_intro (All P) (contains c i) (λ _. h) (λ _. (p, h))

-- What a set still holds after a removal it held before.
pub contains-remove_le :
    (c : List ℕ) (i j : ℕ) → contains (remove c i) j ≡ true → contains c j ≡ true
unfolding contains remove
contains-remove_le [] i j h = h
contains-remove_le (x ∷ c) i j h = ground (arith, contains-remove_le c i j)

module _ {ℓ} {E : Type ℓ} where
  abbrev pub pending : List ℕ → Entry E → Bool
  pending c e = not (contains c e.id)

  abbrev pub later : ℕ → Entry E → Bool
  later now e = ltb now e.deadline

  abbrev pub due : ℕ → Entry E → Bool
  due now e = leb e.deadline now

  abbrev pub first_deadline : List (Entry E) → Option ℕ
  first_deadline [] = none
  first_deadline (e ∷ es) = some e.deadline

  abbrev pub events : List (Entry E) → List E
  events = map λ e. e.event

  pub pending-remove :
      (c : List ℕ) (i : ℕ) (es : List (Entry E))
      → Absent i es
      → filter (pending (remove c i)) es ≡ filter (pending c) es
  pending-remove c i es h = filter_congr _ _ es (
      All-mono {P = λ e. e.id ≢ i} {Q = λ e. pending (remove c i) e ≡ pending c e}
        (λ e n. rw (contains-remove_ne c i e.id n)) es h)

  -- Nothing behind an entry that is not due is due.
  later-All :
      (now : ℕ) (e : Entry E) (es : List (Entry E))
      → ltb now e.deadline ≡ true
      → All (Before e) es
      → All (λ x. ltb now x.deadline ≡ true) es
  later-All now e es h = All-mono (λ x b. ground arith) es

  later-due : (now : ℕ) (e : Entry E) → due now e ≡ not (later now e)
  later-due now e = ground arith

  due_none :
      (now : ℕ) (es : List (Entry E))
      → All (λ x. ltb now x.deadline ≡ true) es
      → filter (due now) es ≡ []
  due_none now [] h = refl
  due_none now (e ∷ es) h = rw (later-due now e, h.0) (due_none now es h.1)

  -- What is left of the heap is what is not due.
  pub pop_due_loop-heap :
      (now : ℕ) (es : List (Entry E)) (c : List ℕ) (fired : List E)
      → Sorted es
      → (pop_due_loop now es c fired).0 ≡ filter (later now) es
  unfolding pop_due_loop
  pop_due_loop-heap now [] c fired s = refl
  pop_due_loop-heap now (e ∷ es) c fired s = elim (Bool-cases (ltb now e.deadline)) [
    | inl h ↦ rw (h, filter-All _ es (later-All now e es h s.0))
    | inr h ↦ rw h (pop_due_loop-heap now es _ _ s.1)
  ]

  -- What fires is what is due and has no tombstone, in the order of the heap.
  pub pop_due_loop-fired :
      (now : ℕ) (es : List (Entry E)) (c : List ℕ) (fired : List E)
      → Sorted es
      → Distinct es
      → (pop_due_loop now es c fired).2 ≡ fired ++ events (filter (due now) (filter (pending c) es))
  unfolding pop_due_loop
  pop_due_loop-fired now [] c fired s d = sym (append-nil fired)
  pop_due_loop-fired now (e ∷ es) c fired s d = elim (Bool-cases (ltb now e.deadline)) [
    | inl h ↦
        let all : All (λ x. ltb now x.deadline ≡ true) (e ∷ es) = (h, later-All now e es h s.0) in
        rw (h, due_none now _ (All-filter _ (pending c) (e ∷ es) all)) (sym (append-nil fired))
    | inr h ↦ ground (
      arith,
      h,
      later-due now e,
      pop_due_loop-fired now es (remove c e.id)
          (if not (contains c e.id) then fired ++ (e.event ∷ []) else fired) s.1 d.1,
      pending-remove c e.id es d.0,
      append_assoc fired (e.event ∷ []) (events (filter (due now) (filter (pending c) es))),
    )
  ]

  -- The tombstones that are left do not touch what is left of the heap.
  pub pop_due_loop-live :
      (now : ℕ) (es : List (Entry E)) (c : List ℕ) (fired : List E)
      → Sorted es
      → Distinct es
      → filter (pending (pop_due_loop now es c fired).1) (pop_due_loop now es c fired).0
        ≡ filter (later now) (filter (pending c) es)
  unfolding pop_due_loop
  pop_due_loop-live now [] c fired s d = refl
  pop_due_loop-live now (e ∷ es) c fired s d = elim (Bool-cases (ltb now e.deadline)) [
    | inl h ↦
        let all : All (λ x. ltb now x.deadline ≡ true) (e ∷ es) = (h, later-All now e es h s.0) in
        rw (h, filter-All (later now) _ (All-filter _ (pending c) (e ∷ es) all))
    | inr h ↦ ground (
      arith,
      h,
      pop_due_loop-live now es (remove c e.id)
          (if not (contains c e.id) then fired ++ (e.event ∷ []) else fired) s.1 d.1,
      pending-remove c e.id es d.0,
    )
  ]

  pub pop_due_loop-tombs {κ} :
      (P : ℕ → Type κ) (now : ℕ) (es : List (Entry E)) (c : List ℕ) (fired : List E)
      → All P c
      → All P (pop_due_loop now es c fired).1
  unfolding pop_due_loop
  pop_due_loop-tombs P now [] c fired h = h
  pop_due_loop-tombs P now (e ∷ es) c fired h =
      if_intro {A = List (Entry E) × List ℕ × List E} (λ r. All P r.1) (ltb now e.deadline) (λ _. h)
        (λ _. pop_due_loop-tombs P now es (remove c e.id) _ (All-remove P c e.id h))

  pub next_deadline_loop-found :
      (es : List (Entry E)) (c : List ℕ)
      → Distinct es
      → (next_deadline_loop es c).2 ≡ first_deadline (filter (pending c) es)
  unfolding next_deadline_loop
  next_deadline_loop-found [] c d = refl
  next_deadline_loop-found (e ∷ es) c d =
      ground (arith, next_deadline_loop-found es (remove c e.id) d.1, pending-remove c e.id es d.0)

  pub next_deadline_loop-live :
      (es : List (Entry E)) (c : List ℕ)
      → Distinct es
      → filter (pending (next_deadline_loop es c).1) (next_deadline_loop es c).0
        ≡ filter (pending c) es
  unfolding next_deadline_loop
  next_deadline_loop-live [] c d = refl
  next_deadline_loop-live (e ∷ es) c d =
      ground (arith, next_deadline_loop-live es (remove c e.id) d.1, pending-remove c e.id es d.0)

  pub next_deadline_loop-All {κ} :
      (P : Entry E → Type κ) (es : List (Entry E)) (c : List ℕ)
      → All P es
      → All P (next_deadline_loop es c).0
  unfolding next_deadline_loop
  next_deadline_loop-All P [] c h = tt
  next_deadline_loop-All P (e ∷ es) c h = elim (Bool-cases (contains c e.id)) [
    | inl t ↦ rw t (next_deadline_loop-All P es (remove c e.id) h.1)
    | inr t ↦ rw t h
  ]

  -- What is left of the heap is in order, and the tombstones are old ones.
  pub next_deadline_loop-Sorted :
      (es : List (Entry E)) (c : List ℕ)
      → Sorted es
      → Distinct es
      → Sorted (next_deadline_loop es c).0 × Distinct (next_deadline_loop es c).0
  unfolding next_deadline_loop
  next_deadline_loop-Sorted [] c s d = (tt, tt)
  next_deadline_loop-Sorted (e ∷ es) c s d =
      if_intro {A = List (Entry E) × List ℕ × Option ℕ} (λ r. Sorted r.0 × Distinct r.0)
        (contains c e.id) (λ _. next_deadline_loop-Sorted es (remove c e.id) s.1 d.1) (λ _. (s, d))

  pub next_deadline_loop-tombs {κ} :
      (P : ℕ → Type κ) (es : List (Entry E)) (c : List ℕ)
      → All P c
      → All P (next_deadline_loop es c).1
  unfolding next_deadline_loop
  next_deadline_loop-tombs P [] c h = h
  next_deadline_loop-tombs P (e ∷ es) c h =
      if_intro {A = List (Entry E) × List ℕ × Option ℕ} (λ r. All P r.1) (contains c e.id)
        (λ _. next_deadline_loop-tombs P es (remove c e.id) (All-remove P c e.id h)) (λ _. h)
