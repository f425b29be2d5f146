-- ===== src/Table/Refine.antt =====
-- Each call on the sharded table against one map from Call-IDs to calls.
use Prim.Native.String.{String}
use text.Mathlib.Text.{◌==◌}
use text.Mathlib.TextEquality.{eq_iff}
use sipr.Common.{
  ℕ, ◌+◌, Option, none, some, ◌≡◌, ◌∙◌, subst, refl, inl, inr, if◌then◌else◌, arith, Bool-cases,
  Option-cases,
}
use sipr.Table.{CallTable, entry_of, assign, erase, shard, len, insert, remove, with_call}
use sipr.Table.Laws.{
  IsValid, Call, inserts, removes, updates, find, step, entry_of-assign, entry_of-erase,
  length-assign, length-erase, Unique-assign, Unique-erase, shard-Unique, put_shard-IsValid,
  find-put_shard, len-put_shard, one_if_some,
}

abbrev pub key_of {ℓ} : {V : Type ℓ} → Call V → String
key_of (inserts k v) = k
key_of (removes k) = k
key_of (updates k f) = k

-- What a call leaves of the entry that it finds.
abbrev pub entry_after {ℓ} : {V : Type ℓ} → Call V → Option V → Option V
entry_after (inserts k v) o = some v
entry_after (removes k) o = none
entry_after (updates k f) none = none
entry_after (updates k f) (some v) = some (f v)

module _ {ℓ} {V : Type ℓ} (hash : String → ℕ) where
  -- Under the test, the entry of `j` is the entry of `k`.
  update_entry :
      (t : CallTable V) (k j : String) (o : Option V) (f : V → V)
      → find hash t k ≡ o
      → (if k == j then entry_after (updates k f) o else find hash t j)
        ≡ (if k == j then entry_after (updates k f) (find hash t j) else find hash t j)
  update_entry t k j o f e = elim (Bool-cases (k == j)) [
    | inl h ↦
        let same : find hash t j ≡ o = subst (λ i. find hash t i ≡ o) ((eq_iff k j).0 h) e in
        rw (h, same) refl
    | inr h ↦ rw h refl
  ]

  unchanged :
      (t : CallTable V) (k j : String)
      → find hash t k ≡ none
      → find hash t j ≡ (if k == j then none else find hash t j)
  unchanged t k j e = elim (Bool-cases (k == j)) [
    | inl h ↦ rw h (subst (λ i. find hash t i ≡ none) ((eq_iff k j).0 h) e)
    | inr h ↦ rw h refl
  ]

  -- On a well-formed table each call answers the entry it finds, leaves the table well formed, and changes the entry of its
  -- own Call-ID only, whatever the hash puts into one shard.
  pub step_refines :
      (t : CallTable V) (c : Call V) (j : String)
      → IsValid t
      → ((step hash t c).1 ≡ find hash t (key_of c))
        × IsValid (step hash t c).0
        × (find hash (step hash t c).0 j
            ≡ (if key_of c == j then entry_after c (find hash t j) else find hash t j))
  unfolding step insert remove with_call
  step_refines t (inserts k v) j w = (
    refl,
    put_shard-IsValid hash t k _ (Unique-assign k v _ (shard-Unique hash t k w)) w,
    find-put_shard hash t k j _ (some v) w (entry_of-assign k j v (shard hash t k)),
  )
  step_refines t (removes k) j w = (
    refl,
    put_shard-IsValid hash t k _ (Unique-erase k _ (shard-Unique hash t k w)) w,
    find-put_shard hash t k j _ none w
        (entry_of-erase k j (shard hash t k) (shard-Unique hash t k w)),
  )
  step_refines t (updates k f) j w = elim (Option-cases (entry_of k (shard hash t k))) [
    | inl e ↦ rw (e, with_call) (refl, w, unchanged t k j e ∙ update_entry t k j none f e)
    | inr (v, e) ↦
        rw (e, with_call)
          (
            refl,
            put_shard-IsValid hash t k _ (Unique-assign k (f v) _ (shard-Unique hash t k w)) w,
            find-put_shard hash t k j _ (some (f v)) w (entry_of-assign k j (f v) (shard hash t k))
                ∙ update_entry t k j (some v) f e,
          )
  ]

  -- On a well-formed table the count of the calls goes up by one for a new Call-ID, down by one for a call removed, and
  -- stays otherwise.
  pub len-step :
      (t : CallTable V) (c : Call V)
      → IsValid t
      → len (step hash t c).0 + one_if_some (find hash t (key_of c))
        ≡ len t + one_if_some (entry_after c (find hash t (key_of c)))
  unfolding step insert remove with_call
  len-step t (inserts k v) w = ground (
    arith,
    len-put_shard hash t k (assign k v (shard hash t k)) w,
    length-assign k v (shard hash t k),
  )
  len-step t (removes k) w =
      ground (
        arith,
        len-put_shard hash t k (erase k (shard hash t k)) w,
        length-erase k (shard hash t k),
      )
  len-step t (updates k f) w = elim (Option-cases (entry_of k (shard hash t k))) [
    | inl e ↦ rw (e, with_call) refl
    | inr (v, e) ↦
        rw (e, with_call)
          (ground (
            arith,
            e,
            len-put_shard hash t k (assign k (f v) (shard hash t k)) w,
            length-assign k (f v) (shard hash t k),
          ))
  ]
