-- ===== src/Timer/Count.antt =====
-- `len` counts the live timers as long as every tombstone belongs to an entry of the heap. `cancel`
-- of a timer that has fired breaks that, and from then on `len` is too small.
use sipr.Common.{
  ℕ, ◌+◌, ◌≤◌, ◌≡◌, refl, inl, inr, true, false, List, [], ◌∷◌, arith, ◌==◌, Bool-cases, Bool, All,
  if◌then◌else◌, filter, length,
}
use sipr.Timer.{Entry, TimerQueue, contains, insert, remove, cancel, no_entries, len}
use sipr.Timer.Order.{Absent, Distinct}
use sipr.Timer.Live.{All-contains, pending, pending-remove, contains-remove_le}
use sipr.Timer.Refine.{live}

-- A set without duplicates.
abbrev pub NoDup : List ℕ → Type 0
NoDup [] = Unit {0}
NoDup (i ∷ c) = (contains c i ≡ false) × NoDup c

length-remove : (c : List ℕ) (i : ℕ) → contains c i ≡ true → length c ≡ length (remove c i) + 1
unfolding contains remove
length-remove [] i h = cc
length-remove (x ∷ c) i h = ground (arith, length-remove c i)

contains-remove-false :
    (c : List ℕ) (i j : ℕ) → contains c j ≡ false → contains (remove c i) j ≡ false
unfolding contains remove
contains-remove-false [] i j h = h
contains-remove-false (x ∷ c) i j h = ground (arith, contains-remove-false c i j)

NoDup-remove : (c : List ℕ) (i : ℕ) → NoDup c → NoDup (remove c i)
unfolding remove
NoDup-remove [] i h = tt
NoDup-remove (x ∷ c) i h = ground (arith, NoDup-remove c i h.1, contains-remove-false c i x)

remove_gone : (c : List ℕ) (i : ℕ) → NoDup c → contains (remove c i) i ≡ false
unfolding remove contains
remove_gone [] i h = refl
remove_gone (x ∷ c) i h = ground (arith, remove_gone c i h.1)

NoDup-insert : (c : List ℕ) (i : ℕ) → NoDup c → NoDup (insert c i)
unfolding insert
NoDup-insert c i h = elim (Bool-cases (contains c i)) [ inl e ↦ rw e h | inr e ↦ rw e (e, h) ]

module _ {ℓ} {E : Type ℓ} where
  -- Some entry has the id.
  abbrev pub has_id : List (Entry E) → ℕ → Bool
  has_id [] i = false
  has_id (e ∷ es) i = if e.id == i then true else has_id es i

  -- Every tombstone belongs to an entry.
  abbrev pub NoStale : TimerQueue E → Type 0
  NoStale q = All (λ i. has_id q.heap i ≡ true) q.cancelled

  has_other :
      (e : Entry E) (es : List (Entry E)) (c : List ℕ) (i : ℕ)
      → (contains c i ≡ true → has_id (e ∷ es) i ≡ true)
      → contains c e.id ≡ false
      → contains c i ≡ true
      → has_id es i ≡ true
  has_other e es c i h f k = ground (arith, h k)

  has_rest :
      (e : Entry E) (es : List (Entry E)) (c : List ℕ) (i : ℕ)
      → (contains c i ≡ true → has_id (e ∷ es) i ≡ true)
      → contains (remove c e.id) i ≡ true
      → contains (remove c e.id) e.id ≡ false
      → has_id es i ≡ true
  has_rest e es c i h k f = ground (arith, h (contains-remove_le c e.id i k))

  has_id-Absent : (es : List (Entry E)) (i : ℕ) → has_id es i ≡ false → Absent i es
  has_id-Absent [] i h = tt
  has_id-Absent (e ∷ es) i h = ground (arith, has_id-Absent es i)

  -- Entries and live entries differ by the tombstones.
  length-pending :
      (es : List (Entry E)) (c : List ℕ)
      → Distinct es
      → NoDup c
      → ((i : ℕ) → contains c i ≡ true → has_id es i ≡ true)
      → length es ≡ length (filter (pending c) es) + length c
  unfolding contains
  length-pending [] [] d n h = refl
  length-pending [] (i ∷ c) d n h = ground (arith, h i)
  length-pending (e ∷ es) c d n h = elim (Bool-cases (contains c e.id)) [
    | inl t ↦
        let rest =
          length-pending es (remove c e.id) d.1 (NoDup-remove c e.id n)
            (λ i k. has_rest e es c i (h i) k (remove_gone c e.id n)) in
        ground (arith, t, length-remove c e.id t, pending-remove c e.id es d.0, rest)
    | inr f ↦
        let rest = length-pending es c d.1 n (λ i k. has_other e es c i (h i) f k) in
        ground (arith, f, rest)
  ]

  pending-Absent :
      (i : ℕ) (c : List ℕ) (es : List (Entry E))
      → Absent i es
      → filter (pending (i ∷ c)) es ≡ filter (pending c) es
  unfolding contains
  pending-Absent i c [] h = refl
  pending-Absent i c (e ∷ es) h = ground (arith, pending-Absent i c es h.1, h.0)

  -- When no id stands twice in the heap or in the tombstones, and every tombstone is that of an entry,
  -- `len` is the number of live timers.
  pub len-live :
      (q : TimerQueue E) → Distinct q.heap → NoDup q.cancelled → NoStale q → len q ≡ length (live q)
  unfolding len
  len-live q d n s = omega (
    arith,
    length-pending q.heap q.cancelled d n
        (λ i. All-contains (λ j. has_id q.heap j ≡ true) q.cancelled i s),
  )

  -- Cancelling an id that is neither in the heap nor a tombstone, while others are armed, as of a timer
  -- that has fired: if `len` was positive it falls by one, although the live timers are as before.
  pub cancel_stale :
      (q : TimerQueue E) (i : ℕ)
      → no_entries q.heap ≡ false
      → has_id q.heap i ≡ false
      → contains q.cancelled i ≡ false
      → 1 ≤ len q
      → (len (cancel q i) + 1 ≡ len q) × (live (cancel q i) ≡ live q)
  unfolding len cancel insert
  cancel_stale q i h f c some_left =
      rw (h, c)
        (omega (arith, some_left), pending-Absent i q.cancelled q.heap (has_id-Absent q.heap i f))
