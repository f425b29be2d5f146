-- ===== src/Vars/Names.antt =====
-- The layout gives every variable a slot of its own, inside its layer.
use Prim.Native.String.{String}
use text.Mathlib.TextEquality.{eq_iff}
use sipr.Common.{
  ℕ, zero, suc, ◌<◌, ◌≤◌, ◌≡◌, ◌≢◌, refl, ap, sym, ◌∙◌, List, [], ◌∷◌, Option, none, some, arith,
  inl, inr, Bool-cases, length, get_elem?, ltb, ltb→lt, get_or, length-replicate,
}
use sipr.Vars.{
  VarTable, VarScope, in_call, in_user, in_global, VarSpace, VarLayout, Slot, call_slot, user_slot,
  global_slot, position, scope, shared_slot, place, slots_from, layout, Heap, Value, unset,
  new_store,
}
use sipr.Vars.Layers.{Fits}

position_unique :
    (ns : List String) (a b : String) (p : ℕ)
    → position ns a ≡ some p
    → position ns b ≡ some p
    → a ≡ b
unfolding position
position_unique [] a b p ha hb = cc
position_unique (n ∷ ns) a b zero ha hb = ground (arith, eq_iff n a, eq_iff n b)
position_unique (n ∷ ns) a b (suc p) ha hb =
    ground (arith, eq_iff n a, eq_iff n b, position_unique ns a b p)

position-lt : (ns : List String) (a : String) (p : ℕ) → position ns a ≡ some p → p < length ns
unfolding position
position-lt [] a p h = cc
position-lt (n ∷ ns) a zero h = omega arith
position-lt (n ∷ ns) a (suc p) h = ground (arith, position-lt ns a p)

-- Where the slot of a name comes from: the shared table of its scope, or the call slots from `k` on
-- and below `len`.
abbrev pub Origin : VarSpace → String → ℕ → ℕ → Slot → Type 0
Origin space name k len (call_slot c) = (k ≤ c) × (c < len)
Origin space name k len (user_slot p) = position space.user_names name ≡ some p
Origin space name k len (global_slot p) = position space.global_names name ≡ some p

shared_slot-Origin :
    (space : VarSpace) (sc : VarScope) (name : String) (k len : ℕ) (s : Slot)
    → shared_slot space sc name ≡ some s
    → Origin space name k len s
unfolding shared_slot
shared_slot-Origin space in_call name k len s h = cc
shared_slot-Origin space in_user name k len (call_slot c) h = ground arith
shared_slot-Origin space in_user name k len (user_slot p) h = ground arith
shared_slot-Origin space in_user name k len (global_slot p) h = ground arith
shared_slot-Origin space in_global name k len (call_slot c) h = ground arith
shared_slot-Origin space in_global name k len (user_slot p) h = ground arith
shared_slot-Origin space in_global name k len (global_slot p) h = ground arith

place-Origin_of :
    (space : VarSpace) (o : Option Slot) (name : String) (k len : ℕ)
    → ((s : Slot) → o ≡ some s → Origin space name k len s)
    → (place o k).1 ≤ len
    → (k ≤ (place o k).1) × Origin space name k len (place o k).0
unfolding place
place-Origin_of space none name k len shared h = (omega arith, (omega arith, omega arith))
place-Origin_of space (some s) name k len shared h = (omega arith, shared s refl)

place-Origin :
    (space : VarSpace) (sc : VarScope) (name : String) (k len : ℕ)
    → (place (shared_slot space sc name) k).1 ≤ len
    → (k ≤ (place (shared_slot space sc name) k).1)
      × Origin space name k len (place (shared_slot space sc name) k).0
place-Origin space sc name k len h =
    place-Origin_of space (shared_slot space sc name) name k len
      (shared_slot-Origin space sc name k len) h

len_le :
    (space : VarSpace) (t : VarTable) (id k : ℕ) (ns : List String)
    → k ≤ (slots_from space t id k ns).1
unfolding slots_from
len_le space t id k [] = omega arith
len_le space t id k (n ∷ ns) =
    let k' = (place (shared_slot space (scope t id) n) k).1 in
    omega (
      arith,
      (place-Origin space (scope t id) n k k' (omega arith)).0,
      len_le space t (suc id) k' ns,
    )

Origin-mono :
    (space : VarSpace) (name : String) (k k' len : ℕ) (s : Slot)
    → k ≤ k'
    → Origin space name k' len s
    → Origin space name k len s
Origin-mono space name k k' len (call_slot c) h o = (omega arith, o.1)
Origin-mono space name k k' len (user_slot p) h o = o
Origin-mono space name k k' len (global_slot p) h o = o

slots_from-Origin :
    (space : VarSpace) (t : VarTable) (id k i : ℕ) (ns : List String) (name : String) (s : Slot)
    → get_elem? ns i ≡ some name
    → get_elem? (slots_from space t id k ns).0 i ≡ some s
    → Origin space name k (slots_from space t id k ns).1 s
unfolding slots_from
slots_from-Origin space t id k i [] name s named at = cc
slots_from-Origin space t id k zero (n ∷ ns) name s named at =
    let o = shared_slot space (scope t id) n in
    let whole = len_le space t (suc id) (place o k).1 ns in
    let same : n ≡ name = cc named in
    let placed : (place o k).0 ≡ s = cc at in
    rw (← same, ← placed) (place-Origin space (scope t id) n k _ whole).1
slots_from-Origin space t id k (suc i) (n ∷ ns) name s named at =
    let k' = (place (shared_slot space (scope t id) n) k).1 in
    Origin-mono space name k k' _ s (place-Origin space (scope t id) n k k' (omega arith)).0
      (slots_from-Origin space t (suc id) k' i ns name s named at)

-- Two slots that names of two origins have.
apart :
    (space : VarSpace) (a b : String) (k k' len : ℕ) (s : Slot)
    → a ≢ b
    → Origin space a k k' s
    → Origin space b k' len s
    → ⊥
apart space a b k k' len (call_slot c) ne o o' = omega arith
apart space a b k k' len (user_slot p) ne o o' = ne (position_unique space.user_names a b p o o')
apart space a b k k' len (global_slot p) ne o o' =
    ne (position_unique space.global_names a b p o o')

slots_from-apart :
    (space : VarSpace) (t : VarTable) (id k i j : ℕ) (ns : List String) (a b : String) (s : Slot)
    → i < j
    → get_elem? ns i ≡ some a
    → get_elem? ns j ≡ some b
    → a ≢ b
    → get_elem? (slots_from space t id k ns).0 i ≡ some s
    → get_elem? (slots_from space t id k ns).0 j ≡ some s
    → ⊥
unfolding slots_from
slots_from-apart space t id k i j [] a b s lt na nb ne si sj = cc
slots_from-apart space t id k i zero (n ∷ ns) a b s lt na nb ne si sj = omega arith
slots_from-apart space t id k zero (suc j) (n ∷ ns) a b s lt na nb ne si sj =
    let o = shared_slot space (scope t id) n in
    let k' = (place o k).1 in
    let same : n ≡ a = cc na in
    let placed : (place o k).0 ≡ s = cc si in
    let here = (place-Origin space (scope t id) n k k' (omega arith)).1 in
    apart space n b k k' _ s (λ e. ne (sym same ∙ e)) (rw (← placed) here)
      (slots_from-Origin space t (suc id) k' j ns b s nb sj)
slots_from-apart space t id k (suc i) (suc j) (n ∷ ns) a b s lt na nb ne si sj =
    slots_from-apart space t (suc id) (place (shared_slot space (scope t id) n) k).1 i j ns a b s
      (omega arith) na nb ne si sj

-- In the layout of a table two variables with different names have different slots.
pub layout-apart :
    (space : VarSpace) (t : VarTable) (i j : ℕ) (a b : String) (s r : Slot)
    → get_elem? t.names i ≡ some a
    → get_elem? t.names j ≡ some b
    → a ≢ b
    → get_elem? (layout space t).slots i ≡ some s
    → get_elem? (layout space t).slots j ≡ some r
    → s ≢ r
unfolding layout
layout-apart space t i j a b s r na nb ne si sj e = elim (Bool-cases (ltb i j)) [
  | inl before ↦
      slots_from-apart space t 0 0 i j t.names a b r (ltb→lt i j before) na nb ne (si ∙ ap some e)
        sj
  | inr late ↦ elim (Bool-cases (ltb j i)) [
    | inl before ↦
        slots_from-apart space t 0 0 j i t.names b a r (ltb→lt j i before) nb na (λ f. ne (sym f))
          sj (si ∙ ap some e)
    | inr early ↦
        let same : i ≡ j = ground (arith, late, early) in
        let one_name : a ≡ b = cc (na, nb, same) in ne one_name
  ]
]

length-slots_from :
    (space : VarSpace) (t : VarTable) (id k : ℕ) (ns : List String)
    → length (slots_from space t id k ns).0 ≡ length ns
unfolding slots_from
length-slots_from space t id k [] = refl
length-slots_from space t id k (n ∷ ns) =
    ap suc (length-slots_from space t (suc id) (place (shared_slot space (scope t id) n) k).1 ns)

Origin-Fits {ℓ} :
    {F : Type ℓ} (heap : Heap F) (space : VarSpace) (l : VarLayout) (u g k : ℕ) (name : String)
    (s : Slot)
    → u < length heap
    → g < length heap
    → length (get_or heap u []) ≡ length space.user_names
    → length (get_or heap g []) ≡ length space.global_names
    → Origin space name k l.call_len s
    → Fits heap (new_store l u g) s
unfolding new_store
Origin-Fits {F = F} heap space l u g k name (call_slot c) hu hg lu lg o =
    omega (arith, length-replicate {A = Value F} l.call_len unset, o.1)
Origin-Fits heap space l u g k name (user_slot p) hu hg lu lg o =
    (hu, omega (arith, position-lt space.user_names name p o))
Origin-Fits heap space l u g k name (global_slot p) hu hg lu lg o =
    (hg, omega (arith, position-lt space.global_names name p o))

-- A new store over a user table and a global table of the space's sizes has room for the slot of every
-- variable of the table.
pub layout-Fits {ℓ} :
    {F : Type ℓ} (heap : Heap F) (space : VarSpace) (t : VarTable) (u g id : ℕ) (name : String)
    (s : Slot)
    → u < length heap
    → g < length heap
    → length (get_or heap u []) ≡ length space.user_names
    → length (get_or heap g []) ≡ length space.global_names
    → get_elem? t.names id ≡ some name
    → get_elem? (layout space t).slots id ≡ some s
    → Fits heap (new_store (layout space t) u g) s
unfolding layout
layout-Fits heap space t u g id name s hu hg lu lg named at =
    Origin-Fits heap space (layout space t) u g 0 name s hu hg lu lg
      (slots_from-Origin space t 0 0 id t.names name s named at)
