-- ===== src/Regex/Parse/Total.antt =====
-- What a parser of a pattern leaves: fewer bytes, and no end of its fuel.
use sipr.Common.{
  ℕ, suc, ◌≤◌, Bool, true, false, List, [], ◌∷◌, Option, none, some, ◌≡◌, ◌≢◌, refl, inl, inr, ◌==◌,
  if◌then◌else◌, length, arith, length-drop, Bool-cases,
}
use sipr.Regex.{
  Node, Nodes, literal, any_byte, class, start, end, group, seq, alt, repeat, done, next,
}
use sipr.Regex.Parse.{
  Parser, RegexError, out_of_fuel, Parsed, ok, err, bind, skip, bump_or, expect, or_error,
  take_digits, digits_of,
}

-- Every group's index is from 1 to n.
unfoldable mutual
  pub GroupsBelow : ℕ → Node → Type 0
  GroupsBelow n (group idx inner) = (1 ≤ idx) × (idx ≤ n) × GroupsBelow n inner
  GroupsBelow n (seq nodes) = AllBelow n nodes
  GroupsBelow n (alt nodes) = AllBelow n nodes
  GroupsBelow n (repeat node min max) = GroupsBelow n node
  GroupsBelow n node = Unit

  pub AllBelow : ℕ → Nodes → Type 0
  AllBelow n done = Unit
  AllBelow n (next node nodes) = GroupsBelow n node × AllBelow n nodes

mutual
  unfolding GroupsBelow

  pub GroupsBelow-mono : (n m : ℕ) (node : Node) → n ≤ m → GroupsBelow n node → GroupsBelow m node
  GroupsBelow-mono n m (group idx inner) h (one, below, deep) =
      (one, omega arith, GroupsBelow-mono n m inner h deep)
  GroupsBelow-mono n m (seq nodes) h below = AllBelow-mono n m nodes h below
  GroupsBelow-mono n m (alt nodes) h below = AllBelow-mono n m nodes h below
  GroupsBelow-mono n m (repeat node min max) h below = GroupsBelow-mono n m node h below
  GroupsBelow-mono n m (literal c) h below = tt
  GroupsBelow-mono n m any_byte h below = tt
  GroupsBelow-mono n m (class negated items) h below = tt
  GroupsBelow-mono n m start h below = tt
  GroupsBelow-mono n m end h below = tt

  pub AllBelow-mono : (n m : ℕ) (nodes : Nodes) → n ≤ m → AllBelow n nodes → AllBelow m nodes
  AllBelow-mono n m done h below = tt
  AllBelow-mono n m (next node nodes) h (first, below) =
      (GroupsBelow-mono n m node h first, AllBelow-mono n m nodes h below)

-- After a call: an error that is not the fuel's, or no more than `len` bytes left, no fewer than `g`
-- groups counted, and a good result.
abbrev pub Post : {A : Type 0} → (ℕ → A → Type 0) → ℕ → ℕ → Parsed A → Type 0
Post Good len g (err e) = e ≢ out_of_fuel
Post Good len g (ok a q) = (length q.rest ≤ len) × (g ≤ q.ngroups) × Good q.ngroups a

abbrev pub Anything : {A : Type 0} → ℕ → A → Type 0
Anything n a = Unit

pub bind-Post :
    {A B : Type 0} (Good : ℕ → A → Type 0) (Fine : ℕ → B → Type 0) (len g len' g' : ℕ)
    (r : Parsed A) (f : A → Parser → Parsed B)
    → Post Good len g r
    → ((a : A) (q : Parser)
        → length q.rest ≤ len
        → g ≤ q.ngroups
        → Good q.ngroups a
        → Post Fine len' g' (f a q))
    → Post Fine len' g' (bind r f)
unfolding bind
bind-Post Good Fine len g len' g' (ok a q) f (short, counted, good) next_one =
    next_one a q short counted good
bind-Post Good Fine len g len' g' (err e) f other next_one = other

-- A branch is good if each case is.
pub if_Post :
    {A : Type 0} (Good : ℕ → A → Type 0) (len g : ℕ) (b : Bool) (x y : Parsed A)
    → Post Good len g x
    → Post Good len g y
    → Post Good len g (if b then x else y)
if_Post Good len g true x y first second = first
if_Post Good len g false x y first second = second

module _ (len g : ℕ) where
  pub bump_or-Post :
      (e : RegexError) (p : Parser)
      → e ≢ out_of_fuel
      → length p.rest ≤ suc len
      → g ≤ p.ngroups
      → Post Anything len g (bump_or e p)
  unfolding bump_or skip
  bump_or-Post e p other short counted = go p.rest refl
    where
      go : (s : List ℕ) → p.rest ≡ s → Post Anything len g (bump_or e p)
      go [] q = rw (bump_or, q) other
      go (b ∷ s) q = rw (bump_or, q) (omega (arith, length-drop 1 p.rest, short), counted, tt)

  pub expect-Post :
      (c : ℕ) (e : RegexError) (p : Parser)
      → e ≢ out_of_fuel
      → length p.rest ≤ suc len
      → g ≤ p.ngroups
      → Post Anything len g (expect c e p)
  unfolding expect
  expect-Post c e p other short counted =
      bind-Post Anything Anything len g len g (bump_or e p) _ (bump_or-Post e p other short counted)
        (λ b q small more _. elim (Bool-cases (b == c)) [
          | inl same ↦ rw same (small, more, tt)
          | inr differs ↦ rw differs other
        ])

  pub or_error-Post :
      {A : Type 0} (a : Option A) (e : RegexError) (p : Parser)
      → e ≢ out_of_fuel
      → length p.rest ≤ len
      → g ≤ p.ngroups
      → Post Anything len g (or_error a e p)
  or_error-Post none e p other short counted = other
  or_error-Post (some a) e p other short counted = (short, counted, tt)

  pub take_digits-Post :
      (p : Parser) → length p.rest ≤ len → g ≤ p.ngroups → Post Anything len g (take_digits p)
  unfolding take_digits skip
  take_digits-Post p short counted =
      (omega (arith, length-drop (length (digits_of p.rest)) p.rest), counted, tt)
