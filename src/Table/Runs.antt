-- ===== src/Table/Runs.antt =====
-- The theorems of the call table at concrete inputs: all Call-IDs in one shard.
use Prim.Native.String.{String}
use sipr.Common.{ℕ, [], ◌∷◌, ◌≡◌, refl, replicate, All-replicate}
use sipr.Table.{CallTable, entry_of}
use sipr.Table.Laws.{IsValid, Unique, inserts, find, step}
use sipr.Table.Refine.{step_refines}

abbrev one_shard : String → ℕ
one_shard call_id = 0

abbrev two_calls : CallTable ℕ
two_calls = record { shards = (("a@1", 1) ∷ ("b@2", 2) ∷ []) ∷ replicate 63 [] }

two_calls-IsValid : IsValid two_calls
unfolding entry_of
two_calls-IsValid = record {
  all_shards = refl;
  unique = ((refl, (refl, tt)), All-replicate (Unique {V = ℕ}) 63 [] tt);
}

step_refines_example :
    ((step one_shard two_calls (inserts "a@1" 10)).1 ≡ find one_shard two_calls "a@1")
    × IsValid (step one_shard two_calls (inserts "a@1" 10)).0
    × (find one_shard (step one_shard two_calls (inserts "a@1" 10)).0 "b@2"
        ≡ find one_shard two_calls "b@2")
step_refines_example = step_refines one_shard two_calls (inserts "a@1" 10) "b@2" two_calls-IsValid
