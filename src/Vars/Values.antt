-- ===== src/Vars/Values.antt =====
-- The views of a value (crates/sipr-engine/src/actions.rs) and the smaller operations of the tables. The
-- doubles, their text and the trimming and reading of a text are std's, and parameters.
use Prim.Native.String.{String}
use sipr.Common.{
  ℕ, Bool, true, false, not, [], ◌∷◌, Option, none, some, length, get_or, if◌then◌else◌, ◌==◌,
}
use sipr.Vars.{
  VarTable, VarScope, in_call, in_user, in_global, VarSpace, VarStore, Value, unset, str, num, bool,
  Heap, position, layout, user_table, global_table, new, new_store, get,
}

-- `VarScope::label` and `level`.
unfoldable pub label : VarScope → String
label in_call = "call"
label in_user = "user"
label in_global = "global"

unfoldable pub level : VarScope → ℕ
level in_global = 0
level in_user = 1
level in_call = 2

-- `VarTable::name`, `len` and `is_empty`.
unfoldable pub name : VarTable → ℕ → String
name t id = get_or t.names id "?"

unfoldable pub len : VarTable → ℕ
len t = length t.names

unfoldable pub is_empty : VarTable → Bool
is_empty t = length t.names == 0

unfoldable pub global_slot_of : VarSpace → String → Option ℕ
unfolding position
global_slot_of space name = position space.global_names name

module _ {ℓ} {F : Type ℓ} where
  -- `VarStore::standalone`, with the heap that it puts its tables into.
  unfoldable pub standalone : Heap F → VarTable → Heap F × VarStore F
  unfolding new layout user_table global_table new_store
  standalone heap vars =
      let space = new (vars ∷ []) in
      let (with_user, user) = user_table space heap in
      let (with_both, global) = global_table space with_user in
      (with_both, new_store (layout space vars) user global)

module _ {ℓ} {F : Type ℓ} (zero_double : F) (of_bool : Bool → F) (is_zero : F → Bool)
    (to_text : F → String) (is_blank : String → Bool) (parse_trimmed : String → Option F) where
  unfoldable pub is_set : Value F → Bool
  is_set unset = false
  is_set (str s) = true
  is_set (num n) = not (is_zero n)
  is_set (bool b) = b

  unfoldable pub as_double : Value F → F
  as_double (num n) = n
  as_double (str s) = zero_double
  as_double (bool b) = zero_double
  as_double unset = zero_double

  -- A text of blanks only is 0; any other is read without its leading blanks.
  unfoldable pub to_double : Value F → Option F
  to_double (num n) = some n
  to_double (bool b) = some (of_bool b)
  to_double (str s) = if is_blank s then some zero_double else parse_trimmed s
  to_double unset = none

  unfoldable pub as_str : Value F → String
  as_str (str s) = s
  as_str (num n) = if is_zero n then "" else to_text n
  as_str (bool true) = "true"
  as_str (bool false) = "false"
  as_str unset = ""

  -- `VarStore::is_set`
  unfoldable pub store_is_set : Heap F → VarStore F → ℕ → Bool
  unfolding is_set get
  store_is_set heap store id = is_set (get heap store id)
