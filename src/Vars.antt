-- ===== src/Vars.antt =====
-- crates/sipr-engine/src/vars.rs, with VarTable of crates/sipr-scenario/src/model.rs: the variables of
-- a scenario in their three layers. A shared table (`Rc<RefCell<…>>`) is an address into a heap of
-- tables, so that two stores that hold one table see each other's writes. The value type is that of
-- crates/sipr-engine/src/actions.rs over a type of doubles.
pub mod Names
pub mod Layers
pub mod Values
mod Runs
use Prim.Native.String.{String}
use mathlib.Core.Option
use text.Mathlib.Text.{◌==◌}
use sipr.Common.{
  ℕ, zero, suc, ◌+◌, Bool, true, false, not, ◌||◌, List, [], ◌∷◌, ◌++◌, Option, none, some, length,
  get_elem?, get_or, set, replicate, map, if◌then◌else◌,
}

pub data VarScope : Type 0 where
  in_call in_user in_global : VarScope

abbrev pub scope_eq : VarScope → VarScope → Bool
scope_eq in_call in_call = true
scope_eq in_user in_user = true
scope_eq in_global in_global = true
scope_eq in_call in_user = false
scope_eq in_call in_global = false
scope_eq in_user in_call = false
scope_eq in_user in_global = false
scope_eq in_global in_call = false
scope_eq in_global in_user = false

pub record VarTable : Type 0 where
  pub names : List String
  pub scopes : List VarScope

-- `iter().position(|n| n == name)`
unfoldable pub position : List String → String → Option ℕ
position [] name = none
position (n ∷ ns) name = if n == name then some 0 else Option.map suc (position ns name)

unfoldable pub intern : VarTable → String → VarTable × ℕ
unfolding position
intern t name = elim (position t.names name) [
  | some i ↦ (t, i)
  | none ↦ (
    record { names = t.names ++ (name ∷ []); scopes = t.scopes ++ (in_call ∷ []) },
    length t.names,
  )
]

unfoldable pub scope : VarTable → ℕ → VarScope
scope t id = get_or t.scopes id in_call

unfoldable pub set_scope : VarTable → ℕ → VarScope → VarTable
set_scope t id s = record t { scopes = set t.scopes id s }

-- The names in a scope, in id order, from an id on. (The ids that `in_scope` pairs them with are not
-- used by `VarSpace::new`.)
unfoldable pub names_from : VarTable → VarScope → ℕ → List String → List String
unfolding scope
names_from t s id [] = []
names_from t s id (n ∷ ns) =
    let rest = names_from t s (suc id) ns in if scope_eq (scope t id) s then n ∷ rest else rest

unfoldable pub in_scope : VarTable → VarScope → List String
unfolding names_from
in_scope t s = names_from t s 0 t.names

unfoldable pub find : VarTable → String → Option ℕ
unfolding position
find t name = position t.names name

pub record VarSpace : Type 0 where
  pub user_names : List String
  pub global_names : List String
  pub conflicts : List String

-- `iter().any(|n| n == name)`
unfoldable pub any : List String → String → Bool
any [] name = false
any (n ∷ ns) name = n == name || any ns name

unfoldable pub add_new : List String → String → List String
unfolding any
add_new names name = if any names name then names else names ++ (name ∷ [])

unfoldable pub note_conflict : VarSpace → String → VarSpace
unfolding add_new
note_conflict space name = record space { conflicts = add_new space.conflicts name }

unfoldable pub add_user : VarSpace → String → VarSpace
unfolding any note_conflict add_new
add_user space name =
    if any space.global_names name
    then note_conflict space name
    else record space { user_names = add_new space.user_names name }

unfoldable pub add_global : VarSpace → String → VarSpace
unfolding any note_conflict add_new
add_global space name =
    if any space.user_names name
    then note_conflict space name
    else record space { global_names = add_new space.global_names name }

abbrev pub fold {ℓ κ} : {A : Type ℓ} {B : Type κ} → (B → A → B) → B → List A → B
fold f b [] = b
fold f b (a ∷ more) = fold f (f b a) more

unfoldable pub add_table : VarSpace → VarTable → VarSpace
unfolding add_user add_global in_scope
add_table space t =
    fold add_global (fold add_user space (in_scope t in_user)) (in_scope t in_global)

unfoldable pub new : List VarTable → VarSpace
unfolding add_table
new tables = fold add_table (record { user_names = []; global_names = []; conflicts = [] }) tables

pub data Slot : Type 0 where
  call_slot user_slot global_slot : ℕ → Slot

pub record VarLayout : Type 0 where
  pub slots : List Slot
  pub call_len : ℕ

-- The shared slot of a variable, if it has one.
unfoldable pub shared_slot : VarSpace → VarScope → String → Option Slot
unfolding position
shared_slot space in_user name = Option.map user_slot (position space.user_names name)
shared_slot space in_global name = Option.map global_slot (position space.global_names name)
shared_slot space in_call name = none

-- `unwrap_or_else`: a call slot of its own for a variable that has no shared one.
unfoldable pub place : Option Slot → ℕ → Slot × ℕ
place (some s) call_len = (s, call_len)
place none call_len = (call_slot call_len, call_len + 1)

-- The slots of the ids from `id` on; the count of call slots goes along.
unfoldable pub slots_from : VarSpace → VarTable → ℕ → ℕ → List String → List Slot × ℕ
unfolding shared_slot scope place
slots_from space t id call_len [] = ([], call_len)
slots_from space t id call_len (n ∷ ns) =
    let (s, call_len') = place (shared_slot space (scope t id) n) call_len in
    let (rest, len) = slots_from space t (suc id) call_len' ns in (s ∷ rest, len)

unfoldable pub layout : VarSpace → VarTable → VarLayout
unfolding slots_from
layout space t =
    let (slots, len) = slots_from space t 0 0 t.names in record { slots = slots; call_len = len }

pub data Value {ℓ} (F : Type ℓ) : Type ℓ where
  unset : Value F
  str : String → Value F
  num : F → Value F
  bool : Bool → Value F

-- Every shared table of the run, by its address.
abbrev pub Heap {ℓ} : Type ℓ → Type ℓ
Heap F = List (List (Value F))

module _ {ℓ} {F : Type ℓ} where
  unfoldable pub with_len : Heap F → ℕ → Heap F × ℕ
  with_len heap len = (heap ++ (replicate len unset ∷ []), length heap)

  unfoldable pub user_table : VarSpace → Heap F → Heap F × ℕ
  unfolding with_len
  user_table space heap = with_len heap (length space.user_names)

  unfoldable pub global_table : VarSpace → Heap F → Heap F × ℕ
  unfolding with_len
  global_table space heap = with_len heap (length space.global_names)

  unfoldable pub table_get : Heap F → ℕ → ℕ → Value F
  table_get heap table i = get_or (get_or heap table []) i unset

  unfoldable pub table_set : Heap F → ℕ → ℕ → Value F → Heap F
  table_set heap table i value = set heap table (set (get_or heap table []) i value)

pub record VarStore {ℓ} (F : Type ℓ) : Type ℓ where
  pub call : List (Value F)
  pub user : ℕ
  pub global : ℕ
  pub layout : VarLayout

module _ {ℓ} {F : Type ℓ} where
  unfoldable pub new_store : VarLayout → ℕ → ℕ → VarStore F
  new_store layout user global = record {
    call = replicate layout.call_len unset;
    user = user;
    global = global;
    layout = layout;
  }

  unfoldable pub read_slot : Heap F → VarStore F → Option Slot → Value F
  unfolding table_get
  read_slot heap store (some (call_slot i)) = get_or store.call i unset
  read_slot heap store (some (user_slot i)) = table_get heap store.user i
  read_slot heap store (some (global_slot i)) = table_get heap store.global i
  read_slot heap store none = unset

  unfoldable pub get : Heap F → VarStore F → ℕ → Value F
  unfolding read_slot
  get heap store id = read_slot heap store (get_elem? store.layout.slots id)

  unfoldable pub write_slot : Heap F → VarStore F → Option Slot → Value F → Heap F × VarStore F
  unfolding table_set
  write_slot heap store (some (call_slot i)) value =
      (heap, record store { call = set store.call i value })
  write_slot heap store (some (user_slot i)) value = (table_set heap store.user i value, store)
  write_slot heap store (some (global_slot i)) value = (table_set heap store.global i value, store)
  write_slot heap store none value = (heap, store)

  unfoldable pub set_value : Heap F → VarStore F → ℕ → Value F → Heap F × VarStore F
  unfolding write_slot
  set_value heap store id value = write_slot heap store (get_elem? store.layout.slots id) value
