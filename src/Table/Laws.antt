-- ===== src/Table/Laws.antt =====
-- The sharded table implements one map from Call-IDs to calls, and counts it.
use Prim.Native.String.{String}
use native.Mathlib.Decide.{ℕ_discrete}
use text.Mathlib.Text.{◌==◌}
use text.Mathlib.TextEquality.{eq_iff}
use sipr.Common.{
  ℕ, zero, suc, ◌+◌, ◌<◌, List, [], ◌∷◌, Option, none, some, ◌≡◌, ◌≢◌, refl, ap, ◌∙◌, ◌⊎◌, inl, inr,
  get_or, set, length, if◌then◌else◌, arith, All, All-set, All-get_or, All-replicate,
  get_or-set_self, get_or-set_ne, length-set, length-replicate, Bool-cases,
}
use sipr.Table.{
  CallTable, entry_of, assign, erase, shard_count, shard_index, shard, put_shard, new, len,
  sum_lengths, insert, remove, with_call,
}

module _ {ℓ} {V : Type ℓ} where
  -- No Call-ID stands twice in a map.
  abbrev pub Unique : List (String × V) → Type ℓ
  Unique [] = Unit {ℓ}
  Unique ((k, v) ∷ m) = (entry_of k m ≡ none) × Unique m

  pub entry_of-assign :
      (k j : String) (v : V) (m : List (String × V))
      → entry_of j (assign k v m) ≡ (if k == j then some v else entry_of j m)
  unfolding entry_of assign
  entry_of-assign k j v [] = refl
  entry_of-assign k j v ((i, w) ∷ m) =
      ground (arith, entry_of-assign k j v m, eq_iff i j, eq_iff i k, eq_iff k j)

  pub entry_of-erase :
      (k j : String) (m : List (String × V))
      → Unique m
      → entry_of j (erase k m) ≡ (if k == j then none else entry_of j m)
  unfolding entry_of erase
  entry_of-erase k j [] u = ground arith
  entry_of-erase k j ((i, w) ∷ m) u =
      ground (arith, entry_of-erase k j m u.1, eq_iff i j, eq_iff i k, eq_iff k j)

  pub Unique-assign :
      (k : String) (v : V) (m : List (String × V)) → Unique m → Unique (assign k v m)
  unfolding assign entry_of
  Unique-assign k v [] u = (refl, tt)
  Unique-assign k v ((i, w) ∷ m) u =
      ground (arith, eq_iff i k, eq_iff k i, entry_of-assign k i v m, Unique-assign k v m u.1)

  pub Unique-erase : (k : String) (m : List (String × V)) → Unique m → Unique (erase k m)
  unfolding erase
  Unique-erase k [] u = tt
  Unique-erase k ((i, w) ∷ m) u =
      ground (arith, eq_iff i k, eq_iff k i, entry_of-erase k i m u.1, Unique-erase k m u.1)

  -- One entry more if the key is new.
  abbrev pub one_if_none : Option V → ℕ
  one_if_none none = 1
  one_if_none (some v) = 0

  abbrev pub one_if_some : Option V → ℕ
  one_if_some none = 0
  one_if_some (some v) = 1

  pub length-assign :
      (k : String) (v : V) (m : List (String × V))
      → length (assign k v m) ≡ length m + one_if_none (entry_of k m)
  unfolding assign entry_of
  length-assign k v [] = refl
  length-assign k v ((i, w) ∷ m) = ground (arith, length-assign k v m)

  pub length-erase :
      (k : String) (m : List (String × V))
      → length (erase k m) + one_if_some (entry_of k m) ≡ length m
  unfolding erase entry_of
  length-erase k [] = refl
  length-erase k ((i, w) ∷ m) = ground (arith, length-erase k m)

  sum_lengths-set :
      (ms : List (List (String × V))) (i : ℕ) (m : List (String × V))
      → i < length ms
      → sum_lengths (set ms i m) + length (get_or ms i []) ≡ sum_lengths ms + length m
  unfolding sum_lengths
  sum_lengths-set [] i m h = elim h [ ]
  sum_lengths-set (n ∷ ms) zero m h = omega arith
  sum_lengths-set (n ∷ ms) (suc i) m h = omega (arith, sum_lengths-set ms i m (omega arith))

  -- All shards are there, and none holds a Call-ID twice.
  pub record IsValid (t : CallTable V) : Type ℓ where
    pub all_shards : length t.shards ≡ shard_count
    pub unique : All Unique t.shards

  pub new-IsValid : IsValid new
  unfolding new
  new-IsValid = record {
    all_shards = length-replicate {A = List (String × V)} shard_count [];
    unique = All-replicate Unique shard_count [] tt;
  }

shard_index_lt : (hash : String → ℕ) (k : String) → shard_index hash k < shard_count
unfolding shard_index
shard_index_lt hash k = omega arith

-- A call on the table, and what it answers.
pub data Call {ℓ} (V : Type ℓ) : Type ℓ where
  inserts : String → V → Call V
  removes : String → Call V
  updates : String → (V → V) → Call V

module _ {ℓ} {V : Type ℓ} (hash : String → ℕ) where
  -- The map that the table stands for.
  abbrev pub find : CallTable V → String → Option V
  find t k = entry_of k (shard hash t k)

  -- `with` is taken with a closure that answers the state it found.
  unfoldable pub step : CallTable V → Call V → CallTable V × Option V
  step t (inserts k v) = insert hash t k v
  step t (removes k) = remove hash t k
  step t (updates k f) = with_call hash t k (λ v. (v, f v))

  shard_fits : (t : CallTable V) (k : String) → IsValid t → shard_index hash k < length t.shards
  shard_fits t k v = omega (arith, v.all_shards, shard_index_lt hash k)

  pub shard-Unique : (t : CallTable V) (k : String) → IsValid t → Unique (shard hash t k)
  unfolding shard
  shard-Unique t k v = All-get_or Unique t.shards (shard_index hash k) [] tt v.unique

  pub put_shard-IsValid :
      (t : CallTable V) (k : String) (m : List (String × V))
      → Unique m
      → IsValid t
      → IsValid (put_shard hash t k m)
  unfolding put_shard
  put_shard-IsValid t k m u v = record {
    all_shards = length-set t.shards (shard_index hash k) m ∙ v.all_shards;
    unique = All-set Unique t.shards (shard_index hash k) m u v.unique;
  }

  -- Another Call-ID in the same shard sees the new shard; in another shard, the old one.
  shard-put_shard :
      (t : CallTable V) (k j : String) (m : List (String × V))
      → IsValid t
      → ((shard_index hash k ≡ shard_index hash j) × (shard hash (put_shard hash t k m) j ≡ m))
        ⊎ ((shard_index hash k ≢ shard_index hash j)
            × (shard hash (put_shard hash t k m) j ≡ shard hash t j))
  unfolding shard put_shard
  shard-put_shard t k j m v = elim (ℕ_discrete (shard_index hash k) (shard_index hash j)) [
    | yes e ↦
        inl (e, rw (← e) (get_or-set_self t.shards (shard_index hash k) m [] (shard_fits t k v)))
    | no n ↦ inr (n, get_or-set_ne t.shards (shard_index hash k) (shard_index hash j) m [] n)
  ]

  same_shard :
      (t : CallTable V) (k j : String)
      → shard_index hash k ≡ shard_index hash j
      → shard hash t k ≡ shard hash t j
  unfolding shard
  same_shard t k j e = ap (λ i. get_or t.shards i []) e

  -- A change of the shard of `k` that touches only `k` touches only `k` in the table.
  pub find-put_shard :
      (t : CallTable V) (k j : String) (m : List (String × V)) (o : Option V)
      → IsValid t
      → entry_of j m ≡ (if k == j then o else entry_of j (shard hash t k))
      → find (put_shard hash t k m) j ≡ (if k == j then o else find t j)
  find-put_shard t k j m o v h = elim (shard-put_shard t k j m v) [
    | inl (e, s) ↦ rw (s, h, same_shard t k j e) refl
    | inr (n, s) ↦ elim (Bool-cases (k == j)) [
      | inl e ↦ absurd (n (ap (shard_index hash) ((eq_iff k j).0 e)))
      | inr e ↦ rw (s, e) refl
    ]
  ]

  pub len-put_shard :
      (t : CallTable V) (k : String) (m : List (String × V))
      → IsValid t
      → len (put_shard hash t k m) + length (shard hash t k) ≡ len t + length m
  unfolding len put_shard shard
  len-put_shard t k m v = sum_lengths-set t.shards (shard_index hash k) m (shard_fits t k v)
