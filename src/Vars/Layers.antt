-- ===== src/Vars/Layers.antt =====
-- Reads after writes, through the layers and through the tables that stores share.
use sipr.Common.{
  ℕ, ◌<◌, ◌≡◌, ◌≢◌, refl, ap, sym, [], Option, none, some, inl, inr, ◌⊎◌, length, get_elem?, get_or,
  set, get_or-set_self, get_or-set_ne,
}
use native.Mathlib.Decide.{ℕ_discrete}
use sipr.Vars.{
  VarStore, Value, unset, Heap, Slot, call_slot, user_slot, global_slot, table_get, table_set,
  read_slot, write_slot, get, set_value,
}

module _ {ℓ} {F : Type ℓ} where
  -- A slot of the heap that is there.
  abbrev pub IsRoom : Heap F → ℕ → ℕ → Type 0
  IsRoom heap table i = (table < length heap) × (i < length (get_or heap table []))

  -- A store that has room for a slot.
  abbrev pub Fits : Heap F → VarStore F → Slot → Type 0
  Fits heap store (call_slot i) = i < length store.call
  Fits heap store (user_slot i) = IsRoom heap store.user i
  Fits heap store (global_slot i) = IsRoom heap store.global i

  get-set_table :
      (heap : Heap F) (table i : ℕ) (value : Value F)
      → IsRoom heap table i
      → table_get (table_set heap table i value) table i ≡ value
  unfolding table_get table_set
  get-set_table heap table i value (there, room) =
      rw (get_or-set_self heap table (set (get_or heap table []) i value) [] there)
        (get_or-set_self (get_or heap table []) i value unset room)

  get-set_table_ne :
      (heap : Heap F) (table i table' j : ℕ) (value : Value F)
      → IsRoom heap table i
      → (table ≢ table') ⊎ (i ≢ j)
      → table_get (table_set heap table i value) table' j ≡ table_get heap table' j
  unfolding table_get table_set
  get-set_table_ne heap table i table' j value room (inl apart) =
      rw (get_or-set_ne heap table table' (set (get_or heap table []) i value) [] apart) refl
  get-set_table_ne heap table i table' j value room (inr apart) =
      let here = get_or-set_self heap table (set (get_or heap table []) i value) [] room.0 in
      elim (ℕ_discrete table table') [
        | yes same ↦
            rw (← same) (rw here (get_or-set_ne (get_or heap table []) i j value unset apart))
        | no other ↦
            rw (get_or-set_ne heap table table' (set (get_or heap table []) i value) [] other) refl
      ]

  -- A write through one store, read at the same slot.
  write_slot_self :
      (heap : Heap F) (store : VarStore F) (s : Slot) (value : Value F)
      → Fits heap store s
      → read_slot
          (write_slot heap store (some s) value).0
          (write_slot heap store (some s) value).1
          (some s)
        ≡ value
  unfolding read_slot write_slot
  write_slot_self heap store (call_slot i) value room =
      get_or-set_self store.call i value unset room
  write_slot_self heap store (user_slot i) value room = get-set_table heap store.user i value room
  write_slot_self heap store (global_slot i) value room =
      get-set_table heap store.global i value room

  -- At another slot, when the user table is not the global one.
  write_slot_ne :
      (heap : Heap F) (store : VarStore F) (s t : Slot) (value : Value F)
      → Fits heap store s
      → store.user ≢ store.global
      → s ≢ t
      → read_slot
          (write_slot heap store (some s) value).0
          (write_slot heap store (some s) value).1
          (some t)
        ≡ read_slot heap store (some t)
  unfolding read_slot write_slot
  write_slot_ne heap store (call_slot i) (call_slot j) value room tables apart =
      get_or-set_ne store.call i j value unset (λ e. apart (ap call_slot e))
  write_slot_ne heap store (call_slot i) (user_slot j) value room tables apart = refl
  write_slot_ne heap store (call_slot i) (global_slot j) value room tables apart = refl
  write_slot_ne heap store (user_slot i) (call_slot j) value room tables apart = refl
  write_slot_ne heap store (user_slot i) (user_slot j) value room tables apart =
      get-set_table_ne heap store.user i store.user j value room (inr (λ e. apart (ap user_slot e)))
  write_slot_ne heap store (user_slot i) (global_slot j) value room tables apart =
      get-set_table_ne heap store.user i store.global j value room (inl tables)
  write_slot_ne heap store (global_slot i) (call_slot j) value room tables apart = refl
  write_slot_ne heap store (global_slot i) (user_slot j) value room tables apart =
      get-set_table_ne heap store.global i store.user j value room (inl (λ e. tables (sym e)))
  write_slot_ne heap store (global_slot i) (global_slot j) value room tables apart =
      get-set_table_ne heap store.global i store.global j value room
        (inr (λ e. apart (ap global_slot e)))

  layout-write_slot :
      (heap : Heap F) (store : VarStore F) (s : Slot) (value : Value F)
      → (write_slot heap store (some s) value).1.layout ≡ store.layout
  unfolding write_slot
  layout-write_slot heap store (call_slot i) value = refl
  layout-write_slot heap store (user_slot i) value = refl
  layout-write_slot heap store (global_slot i) value = refl

  -- What was written to a variable that the store has room for is read back.
  pub get-set_value :
      (heap : Heap F) (store : VarStore F) (id : ℕ) (s : Slot) (value : Value F)
      → get_elem? store.layout.slots id ≡ some s
      → Fits heap store s
      → get (set_value heap store id value).0 (set_value heap store id value).1 id ≡ value
  unfolding get set_value
  get-set_value heap store id s value at room =
      rw (at, layout-write_slot heap store s value, at) (write_slot_self heap store s value room)

  -- A variable of another slot keeps its value, if the store's user table is not its global one.
  pub get-set_value_ne :
      (heap : Heap F) (store : VarStore F) (id j : ℕ) (s t : Slot) (value : Value F)
      → get_elem? store.layout.slots id ≡ some s
      → get_elem? store.layout.slots j ≡ some t
      → Fits heap store s
      → store.user ≢ store.global
      → s ≢ t
      → get (set_value heap store id value).0 (set_value heap store id value).1 j ≡ get heap store j
  unfolding get set_value
  get-set_value_ne heap store id j s t value at_id at_j room tables apart =
      rw (at_id, layout-write_slot heap store s value, at_j)
        (write_slot_ne heap store s t value room tables apart)

  -- A global variable that one store writes is read by every store of the same layout that has the
  -- same global table.
  pub get-set_global :
      (heap : Heap F) (a b : VarStore F) (id i : ℕ) (value : Value F)
      → get_elem? a.layout.slots id ≡ some (global_slot i)
      → get_elem? b.layout.slots id ≡ some (global_slot i)
      → IsRoom heap a.global i
      → a.global ≡ b.global
      → get (set_value heap a id value).0 b id ≡ value
  unfolding get set_value read_slot write_slot
  get-set_global heap a b id i value at_a at_b room same =
      rw (at_a, at_b) (rw (← same) (get-set_table heap a.global i value room))

  write_slot_private :
      (heap : Heap F) (a b : VarStore F) (i : ℕ) (t : Option Slot) (value : Value F)
      → IsRoom heap a.user i
      → a.user ≢ b.user
      → a.user ≢ b.global
      → read_slot (write_slot heap a (some (user_slot i)) value).0 b t ≡ read_slot heap b t
  unfolding read_slot write_slot
  write_slot_private heap a b i none value room users tables = refl
  write_slot_private heap a b i (some (call_slot j)) value room users tables = refl
  write_slot_private heap a b i (some (user_slot j)) value room users tables =
      get-set_table_ne heap a.user i b.user j value room (inl users)
  write_slot_private heap a b i (some (global_slot j)) value room users tables =
      get-set_table_ne heap a.user i b.global j value room (inl tables)

  -- A user variable that one store writes changes nothing that a store of another user reads.
  pub get-set_user :
      (heap : Heap F) (a b : VarStore F) (id i j : ℕ) (value : Value F)
      → get_elem? a.layout.slots id ≡ some (user_slot i)
      → IsRoom heap a.user i
      → a.user ≢ b.user
      → a.user ≢ b.global
      → get (set_value heap a id value).0 b j ≡ get heap b j
  unfolding get set_value
  get-set_user heap a b id i j value at room users tables =
      rw at (write_slot_private heap a b i (get_elem? b.layout.slots j) value room users tables)
