-- ===== src/Histogram/Table.antt =====
-- What the counts of a repartition table add up to.
use sipr.Common.{
  ℕ, Bool, true, ◌&&◌, ◌==◌, ltb, leb, Bool-cases, Option-cases, inl, inr, ap, filter,
  get_or-set_self, get_or-set_ne, if◌then◌else◌, zero, suc, ◌+◌, ◌-◌, ◌^◌, ◌≤◌, ◌<◌, false, List,
  [], ◌∷◌, Option, none, some, ◌≡◌, ◌≢◌, refl, ◌∙◌, length, get_or, arith, length-set,
}
use sipr.Histogram.{Repartition, to_u64, count_up, first_above, class_of, is_inert, table_record}

first_above-lt : (bounds : List ℕ) (ms i : ℕ) → first_above bounds ms ≡ some i → i < length bounds
unfolding first_above
first_above-lt [] ms i e = cc
first_above-lt (b ∷ bounds) ms zero e = omega arith
first_above-lt (b ∷ bounds) ms (suc i) e = ground (arith, first_above-lt bounds ms i)

abbrev pub IsSized : Repartition → Type 0
IsSized t = length t.counts ≡ length t.bounds + 1

chosen-lt :
    (t : Repartition)
    → IsSized t
    → (o : Option ℕ) → ((i : ℕ) → o ≡ some i → i < length t.bounds)
    → (elim o [ some i ↦ i | none ↦ length t.counts - 1 ]) < length t.counts
chosen-lt t sized none bound = omega (arith, sized)
chosen-lt t sized (some i) bound = omega (arith, sized, bound i refl)

class_of-lt : (t : Repartition) (ms : ℕ) → IsSized t → class_of t ms < length t.counts
unfolding class_of
class_of-lt t ms sized = chosen-lt t sized (first_above t.bounds ms) (first_above-lt t.bounds ms)

-- The samples one after the other.
unfoldable pub tallied : Repartition → List ℕ → Repartition
unfolding table_record
tallied t [] = t
tallied t (x ∷ xs) = tallied (table_record t x) xs

-- The class a number falls in, bound by bound: the bounds before are no greater, its own is greater,
-- and the class behind the last bound has all that are left.
unfoldable pub falls_in : List ℕ → ℕ → ℕ → Bool
falls_in [] zero ms = true
falls_in [] (suc i) ms = false
falls_in (b ∷ bounds) zero ms = ltb ms b
falls_in (b ∷ bounds) (suc i) ms = leb b ms && falls_in bounds i ms

abbrev chosen : List ℕ → Option ℕ → ℕ
chosen bounds none = length bounds
chosen bounds (some i) = i

chosen-falls_in :
    (bounds : List ℕ) (ms i : ℕ)
    → (chosen bounds (first_above bounds ms) == i) ≡ falls_in bounds i ms
unfolding first_above falls_in
chosen-falls_in [] ms zero = refl
chosen-falls_in [] ms (suc i) = ground arith
chosen-falls_in (b ∷ bounds) ms zero = elim (Option-cases (first_above bounds ms)) [
  | inl e ↦ ground (arith, e)
  | inr (j, e) ↦ ground (arith, e)
]
chosen-falls_in (b ∷ bounds) ms (suc i) = elim (Option-cases (first_above bounds ms)) [
  | inl e ↦ ground (arith, e, chosen-falls_in bounds ms i)
  | inr (j, e) ↦ ground (arith, e, chosen-falls_in bounds ms i)
]

class_of-chosen :
    (t : Repartition) (ms : ℕ)
    → IsSized t
    → class_of t ms ≡ chosen t.bounds (first_above t.bounds ms)
unfolding class_of
class_of-chosen t ms sized = elim (Option-cases (first_above t.bounds ms)) [
  | inl e ↦ rw (class_of, e) (omega (arith, sized))
  | inr (j, e) ↦ rw (class_of, e) refl
]

class_of-falls_in :
    (t : Repartition) (ms i : ℕ) → IsSized t → (class_of t ms == i) ≡ falls_in t.bounds i ms
class_of-falls_in t ms i sized = rw (class_of-chosen t ms sized) (chosen-falls_in t.bounds ms i)

-- One sample counts in the class it falls in, and in no other.
get_or-table_record :
    (t : Repartition) (x i : ℕ)
    → IsSized t
    → is_inert t ≡ false
    → get_or t.counts i 0 + 1 < 2 ^ 64
    → (IsSized (table_record t x) × ((table_record t x).bounds ≡ t.bounds))
      × (get_or (table_record t x).counts i 0
          ≡ get_or t.counts i 0 + (if falls_in t.bounds i (to_u64 x) then 1 else 0))
unfolding table_record
get_or-table_record t x i sized active room =
    let at = class_of t (to_u64 x) in
    let new_count = count_up (get_or t.counts at 0) in
    let falls = class_of-falls_in t (to_u64 x) i sized in
    rw active (
      (length-set t.counts at new_count ∙ sized, refl),
      rw (← falls) (elim (Bool-cases (at == i)) [
        | inl e ↦
            let same : at ≡ i = ground arith in
            let put = get_or-set_self t.counts at new_count 0 (class_of-lt t (to_u64 x) sized) in
            rw (e, ← same) (put ∙ (omega (arith, room, ap (λ j. get_or t.counts j 0) same)))
        | inr e ↦
            let other : at ≢ i = ground arith in
            rw e (get_or-set_ne t.counts at i new_count 0 other ∙ (omega arith))
      ]),
    )

-- The number of the samples that fall in a class.
abbrev pub tally : List ℕ → ℕ → List ℕ → ℕ
tally bounds i xs = length (filter (λ x. falls_in bounds i (to_u64 x)) xs)

-- As long as its count does not wrap, every class of a table that has a bound, and is sized for its
-- bounds, counts exactly the samples that fall in it: those that are less than its own bound and
-- than no bound before it, and behind the last bound those that are less than no bound.
pub tallied-tally :
    (t : Repartition) (xs : List ℕ) (i : ℕ)
    → IsSized t
    → is_inert t ≡ false
    → get_or t.counts i 0 + length xs < 2 ^ 64
    → get_or (tallied t xs).counts i 0 ≡ get_or t.counts i 0 + tally t.bounds i xs
unfolding tallied
tallied-tally t [] i sized active room = omega arith
tallied-tally t (x ∷ xs) i sized active room =
    let ((sized', kept), one) = get_or-table_record t x i sized active (omega (arith, room)) in
    let active' : is_inert (table_record t x) ≡ false =
      ap (λ bounds. length bounds == 0) kept ∙ active in
    let small : get_or (table_record t x).counts i 0 ≤ get_or t.counts i 0 + 1 =
      ground (arith, one) in
    tallied-tally (table_record t x) xs i sized' active' (omega (arith, small))
    ∙ rw (kept, one) (ground arith)
