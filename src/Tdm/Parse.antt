-- ===== src/Tdm/Parse.antt =====
-- The text form of a TDM map. A text is its bytes; std's `trim` and `parse::<u32>` are parameters, and
-- the one message of every error is `none`.
use sipr.Common.{
  ℕ, zero, suc, ◌-◌, ◌<◌, ◌≤◌, ◌≡◌, refl, arith, inl, inr, Option-cases, List, [], ◌∷◌, Option,
  none, some, length, ltb, ◌==◌, if◌then◌else◌,
}
use sipr.Tdm.{TdmMap}

-- `find` and `split_once` of one byte: what stands before it and behind it.
unfoldable split_once : ℕ → List ℕ → Option (List ℕ × List ℕ)
split_once at [] = none
split_once at (c ∷ s) =
    let rest = split_once at s in
    if c == at
    then some ([], s)
    else elim rest [ none ↦ none | some (before, behind) ↦ some (c ∷ before, behind) ]

-- One group more, unless a later one failed.
abbrev with_group : List ℕ → Option (List (List ℕ)) → Option (List (List ℕ))
with_group inner none = none
with_group inner (some more) = some (inner ∷ more)

-- The loop over the groups; every round takes two bytes at least.
unfoldable groups_loop : ℕ → List ℕ → Option (List (List ℕ))
unfolding split_once
groups_loop fuel [] = some []
groups_loop zero (c ∷ s) = none
groups_loop (suc fuel) (c ∷ s) =
    if c == 123
    then elim (split_once 125 s) [
      | none ↦ none
      | some (inner, rest) ↦ with_group inner (groups_loop fuel rest)
    ]
    else none

module _ (trim : List ℕ → List ℕ) (parse_u32 : List ℕ → Option ℕ) where
  unfoldable brace_groups : List ℕ → Option (List (List ℕ))
  unfolding groups_loop
  brace_groups text = let rest = trim text in groups_loop (length rest) rest

  unfoldable number : List ℕ → Option ℕ
  number s = parse_u32 (trim s)

  -- `hi < lo` is an error.
  unfoldable ordered : Option ℕ → Option ℕ → Option (ℕ × ℕ)
  ordered none hi = none
  ordered (some lo) none = none
  ordered (some lo) (some hi) = if ltb hi lo then none else some (lo, hi)

  unfoldable range : List ℕ → Option (ℕ × ℕ)
  unfolding split_once number ordered
  range s = elim (split_once 45 s) [ none ↦ none | some (lo, hi) ↦ ordered (number lo) (number hi) ]

  unfoldable assemble : Option (ℕ × ℕ) → Option ℕ → Option (ℕ × ℕ) → Option (ℕ × ℕ) → Option TdmMap
  assemble (some (x, x_end)) (some h) (some (y, y_end)) (some (z, z_end)) =
      some (record { a = x_end - x; x = x; h = h; b = y_end - y; y = y; c = z_end - z; z = z })
  assemble none h second third = none
  assemble (some first) none second third = none
  assemble (some first) (some h) none third = none
  assemble (some first) (some h) (some second) none = none

  unfoldable of_groups : List (List ℕ) → Option TdmMap
  unfolding assemble range number
  of_groups (first ∷ middle ∷ second ∷ third ∷ []) =
      assemble (range first) (number middle) (range second) (range third)
  of_groups [] = none
  of_groups (a ∷ []) = none
  of_groups (a ∷ b ∷ []) = none
  of_groups (a ∷ b ∷ c ∷ []) = none
  of_groups (a ∷ b ∷ c ∷ d ∷ e ∷ more) = none

  unfoldable parse : List ℕ → Option TdmMap
  unfolding brace_groups of_groups
  parse text = elim (brace_groups text) [ none ↦ none | some groups ↦ of_groups groups ]

-- What stands behind a byte is shorter than the text.
length-split_once :
    (at : ℕ) (s before behind : List ℕ)
    → split_once at s ≡ some (before, behind)
    → length behind < length s
unfolding split_once
length-split_once at [] before behind h = cc h
length-split_once at (c ∷ s) before behind h = elim (Option-cases (split_once at s)) [
  | inl e ↦ ground (arith, e, h)
  | inr ((b, rest), e) ↦ ground (arith, e, h, length-split_once at s b rest e)
]

-- Fuel of the length of the text is enough: more fuel gives the same groups.
groups_loop_fuel :
    (n m : ℕ) (s : List ℕ) → length s ≤ n → length s ≤ m → groups_loop n s ≡ groups_loop m s
unfolding groups_loop
groups_loop_fuel zero zero s hn hm = refl
groups_loop_fuel n m [] hn hm = refl
groups_loop_fuel zero (suc m) (c ∷ s) hn hm = absurd (omega arith)
groups_loop_fuel (suc n) zero (c ∷ s) hn hm = absurd (omega arith)
groups_loop_fuel (suc n) (suc m) (c ∷ s) hn hm = elim (Option-cases (split_once 125 s)) [
  | inl e ↦ rw e refl
  | inr ((inner, rest), e) ↦
      let shorter = length-split_once 125 s inner rest e in
      rw (e, groups_loop_fuel n m rest (omega (arith, shorter)) (omega (arith, shorter))) refl
]
