-- ===== src/Histogram/Runs.antt =====
-- Runs of the histogram and the table, on whole numbers in place of doubles.
use sipr.Common.{ℕ, ◌+◌, ◌-◌, ◌*◌, ◌/◌, ◌≡◌, refl, [], ◌∷◌, min, max, arith, get_or}
use sipr.Histogram.{Doubles, Repartition, new, percentile_ms, target_of, mean_ms, table_new, reset}
use sipr.Histogram.Counts.{recorded}
use sipr.Histogram.Percentile.{IsLeast, percentile_ms-IsLeast}
use sipr.Histogram.Table.{falls_in, tallied, tallied-tally}

abbrev whole : Doubles ℕ
whole = record {
  zero_double = 0;
  hundred = 100;
  add = λ a b. a + b;
  sub = λ a b. a - b;
  mul = λ a b. a * b;
  div = λ a b. a / b;
  sqrt = λ a. a;
  max_double = λ a b. max a b;
  clamp = λ a lo hi. max lo (min a hi);
  ceil = λ a. a;
  of_u64 = λ n. n;
  as_u64 = λ a. a;
}

percentile_ms-IsLeast_example :
    IsLeast
      (target_of whole 2 100)
      (30 ∷ 20 ∷ [])
      0
      (percentile_ms whole (recorded whole (new whole) (30 ∷ 20 ∷ [])) 100)
percentile_ms-IsLeast_example =
    percentile_ms-IsLeast whole (30 ∷ 20 ∷ []) 100 (omega arith) (omega arith)

abbrev table : Repartition
table = table_new (10 ∷ 50 ∷ [])

tallied-tally_example : get_or (tallied table (5 ∷ 10 ∷ 49 ∷ 90 ∷ [])).counts 1 0 ≡ 2
unfolding table_new falls_in
tallied-tally_example = tallied-tally table (5 ∷ 10 ∷ 49 ∷ 90 ∷ []) 1 refl refl (omega arith)

tallied_run : (tallied table (5 ∷ 10 ∷ 90 ∷ 49 ∷ [])).counts ≡ 1 ∷ 2 ∷ 1 ∷ []
unfolding tallied table_new
tallied_run = refl

reset_run : (reset (tallied table (5 ∷ []))).counts ≡ 0 ∷ 0 ∷ 0 ∷ []
unfolding reset tallied table_new
reset_run = refl

mean_ms_run : mean_ms whole (recorded whole (new whole) (10 ∷ 20 ∷ [])) ≡ 15
unfolding mean_ms recorded new
mean_ms_run = refl
