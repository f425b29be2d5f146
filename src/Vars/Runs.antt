-- ===== src/Vars/Runs.antt =====
-- The scoped table of the program's own tests, and the theorems at it.
use text.Mathlib.TextEquality.{eq_iff}
use sipr.Common.{ℕ, ◌≡◌, ◌≢◌, refl, [], ◌∷◌, arith}
use sipr.Vars.{
  VarTable, VarSpace, VarStore, VarLayout, Heap, unset, num, in_call, in_user, in_global, call_slot,
  user_slot, global_slot, layout, get, set_value, new,
}
use sipr.Vars.Layers.{get-set_value_ne}
use sipr.Vars.Names.{layout-apart}

abbrev scoped : VarTable
scoped = record { names = "call" ∷ "u" ∷ "g" ∷ []; scopes = in_call ∷ in_user ∷ in_global ∷ [] }

abbrev space : VarSpace
space = record { user_names = "u" ∷ []; global_names = "g" ∷ []; conflicts = [] }

space_run : new (scoped ∷ []) ≡ space
unfolding new
space_run = refl

abbrev slots : VarLayout
slots = record { slots = call_slot 0 ∷ user_slot 0 ∷ global_slot 0 ∷ []; call_len = 1 }

layout_run : layout space scoped ≡ slots
unfolding layout
layout_run = refl

-- The global table, and the tables of two users.
abbrev heap : Heap ℕ
heap = (unset ∷ []) ∷ (unset ∷ []) ∷ (unset ∷ []) ∷ []

abbrev alice : VarStore ℕ
alice = record { call = unset ∷ []; user = 1; global = 0; layout = slots }

abbrev bob : VarStore ℕ
bob = record { call = unset ∷ []; user = 2; global = 0; layout = slots }

get-set_value_ne_example :
    get (set_value heap alice 1 (num 7)).0 (set_value heap alice 1 (num 7)).1 2 ≡ get heap alice 2
get-set_value_ne_example =
    get-set_value_ne heap alice 1 2 (user_slot 0) (global_slot 0) (num 7) refl refl
      (omega arith, omega arith) (λ e. omega (arith, e)) (λ e. cc e)

layout-apart_example : call_slot 0 ≢ user_slot 0
unfolding layout
layout-apart_example =
    layout-apart space scoped 0 1 "call" "u" (call_slot 0) (user_slot 0) refl refl
      (ground (arith, eq_iff "call" "u")) refl refl
