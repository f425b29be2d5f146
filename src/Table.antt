-- ===== src/Table.antt =====
-- crates/sipr-net/src/table.rs: the call table, 64 hash maps that each hold the calls of one shard.
-- The hash of a Call-ID (std's `DefaultHasher`) is a parameter. Each operation holds the lock of the
-- one shard it touches, and is one step.
pub mod Laws
pub mod Refine
mod Runs
use Prim.Native.String.{String}
use text.Mathlib.Text.{◌==◌}
use sipr.Common.{
  ℕ, ◌+◌, ◌%◌, Bool, true, false, List, [], ◌∷◌, Option, none, some, get_or, set, replicate, length,
  if◌then◌else◌,
}
use sipr.Common.{◌==◌ as nat_eq}

abbrev pub shard_count : ℕ
shard_count = 64

-- A hash map as an association list: `HashMap::get`, `insert` and `remove`.
module _ {ℓ} {V : Type ℓ} where
  unfoldable pub entry_of : String → List (String × V) → Option V
  entry_of key [] = none
  entry_of key ((name, call) ∷ rest) = if name == key then some call else entry_of key rest

  unfoldable pub assign : String → V → List (String × V) → List (String × V)
  assign key new_call [] = (key, new_call) ∷ []
  assign key new_call ((name, call) ∷ rest) =
      if name == key then (key, new_call) ∷ rest else (name, call) ∷ assign key new_call rest

  unfoldable pub erase : String → List (String × V) → List (String × V)
  erase key [] = []
  erase key ((name, call) ∷ rest) = if name == key then rest else (name, call) ∷ erase key rest

pub record CallTable {ℓ} (V : Type ℓ) : Type ℓ where
  pub shards : List (List (String × V))

unfoldable pub new {ℓ} : {V : Type ℓ} → CallTable V
new = record { shards = replicate shard_count [] }

-- The total of the sizes of the shards.
unfoldable pub sum_lengths {ℓ} : {V : Type ℓ} → List (List (String × V)) → ℕ
sum_lengths [] = 0
sum_lengths (m ∷ ms) = length m + sum_lengths ms

unfoldable pub len {ℓ} : {V : Type ℓ} → CallTable V → ℕ
unfolding sum_lengths
len t = sum_lengths t.shards

unfoldable pub is_empty {ℓ} : {V : Type ℓ} → CallTable V → Bool
unfolding len
is_empty t = nat_eq (len t) 0

-- `h.finish() as usize % SHARDS`, on a machine whose usize has 64 bits.
unfoldable pub shard_index : (String → ℕ) → String → ℕ
shard_index hash call_id = hash call_id % shard_count

module _ {ℓ} {V : Type ℓ} (hash : String → ℕ) where
  unfoldable pub shard : CallTable V → String → List (String × V)
  unfolding shard_index
  shard t call_id = get_or t.shards (shard_index hash call_id) []

  -- The table with a new shard in the place of the one of `call_id`.
  unfoldable pub put_shard : CallTable V → String → List (String × V) → CallTable V
  unfolding shard_index
  put_shard t call_id m = record { shards = set t.shards (shard_index hash call_id) m }

  unfoldable pub insert : CallTable V → String → V → CallTable V × Option V
  unfolding shard put_shard
  insert t call_id value = (
    put_shard t call_id (assign call_id value (shard t call_id)),
    entry_of call_id (shard t call_id),
  )

  unfoldable pub remove : CallTable V → String → CallTable V × Option V
  unfolding shard put_shard
  remove t call_id =
      (put_shard t call_id (erase call_id (shard t call_id)), entry_of call_id (shard t call_id))

  -- `f` gives its answer and what it leaves in the call's state.
  unfoldable pub with_call {κ} :
      {R : Type κ} → CallTable V → String → (V → R × V) → CallTable V × Option R
  unfolding shard put_shard
  with_call t call_id f = elim (entry_of call_id (shard t call_id)) [
    | none ↦ (t, none)
    | some v ↦
        let (answer, after) = f v in
        (put_shard t call_id (assign call_id after (shard t call_id)), some answer)
  ]

  unfoldable pub contains : CallTable V → String → Bool
  unfolding shard
  contains t call_id = elim (entry_of call_id (shard t call_id)) [ none ↦ false | some v ↦ true ]
