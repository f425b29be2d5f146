-- ===== src/Histogram.antt =====
-- crates/sipr-stats/src/histogram.rs: latencies in milliseconds, and the repartition table. The counters
-- are words of 64 bits that wrap, as in a release build; the sums of doubles are parameters.
pub mod Counts
pub mod Percentile
pub mod Table
mod Runs
use sipr.Common.{
  ℕ, zero, suc, ◌+◌, ◌-◌, ◌%◌, ◌^◌, Bool, true, false, List, [], ◌∷◌, ◌++◌, Option, none, some, ltb,
  leb, ◌==◌, if◌then◌else◌, length, get_or, set, replicate, min, max,
}
use mathlib.Core.List.{map}
use mathlib.Core.Option

abbrev pub bucket_count : ℕ
bucket_count = 10000

-- The doubles, with what the histogram uses of them.
pub record Doubles {ℓ} (F : Type ℓ) : Type ℓ where
  pub zero_double : F
  pub hundred : F
  pub add : F → F → F
  pub sub : F → F → F
  pub mul : F → F → F
  pub div : F → F → F
  pub sqrt : F → F
  pub max_double : F → F → F
  pub clamp : F → F → F → F
  pub ceil : F → F
  pub of_u64 : ℕ → F
  pub as_u64 : F → ℕ

pub record Histogram {ℓ} (F : Type ℓ) : Type ℓ where
  pub buckets : List ℕ
  pub overflow : ℕ
  pub count : ℕ
  pub sum_ms : F
  pub sum_sq_ms : F
  pub min_ms : ℕ
  pub max_ms : ℕ

-- `u64::try_from(d.as_millis()).unwrap_or(u64::MAX)`
abbrev pub to_u64 : ℕ → ℕ
to_u64 ms = if ltb ms (2 ^ 64) then ms else 2 ^ 64 - 1

abbrev pub count_up : ℕ → ℕ
count_up n = (n + 1) % 2 ^ 64

module _ {ℓ} {F : Type ℓ} (d : Doubles F) where
  unfoldable pub new : Histogram F
  new = record {
    buckets = replicate bucket_count 0;
    overflow = 0;
    count = 0;
    sum_ms = d.zero_double;
    sum_sq_ms = d.zero_double;
    min_ms = 2 ^ 64 - 1;
    max_ms = 0;
  }

  -- The duration in milliseconds.
  unfoldable pub record_ms : Histogram F → ℕ → Histogram F
  record_ms h duration =
      let ms = to_u64 duration in
      let inside = ltb ms bucket_count in
      record {
        buckets = if inside then set h.buckets ms (count_up (get_or h.buckets ms 0)) else h.buckets;
        overflow = if inside then h.overflow else count_up h.overflow;
        count = count_up h.count;
        sum_ms = d.add h.sum_ms (d.of_u64 ms);
        sum_sq_ms = d.add h.sum_sq_ms (d.mul (d.of_u64 ms) (d.of_u64 ms));
        min_ms = min h.min_ms ms;
        max_ms = max h.max_ms ms;
      }

  unfoldable pub mean_ms : Histogram F → F
  mean_ms h = if h.count == 0 then d.zero_double else d.div h.sum_ms (d.of_u64 h.count)

  unfoldable pub stddev_ms : Histogram F → F
  stddev_ms h =
      if h.count == 0
      then d.zero_double
      else let n = d.of_u64 h.count in
        let mean = d.div h.sum_ms n in
        d.sqrt (d.max_double (d.sub (d.div h.sum_sq_ms n) (d.mul mean mean)) d.zero_double)

  -- `min_ms()`, the getter.
  unfoldable pub least_ms : Histogram F → ℕ
  least_ms h = if h.count == 0 then 0 else h.min_ms

  -- The buckets from number `i` on, with `seen` samples before them.
  unfoldable pub percentile_loop : ℕ → ℕ → ℕ → List ℕ → ℕ
  percentile_loop target i seen [] = bucket_count
  percentile_loop target i seen (c ∷ buckets) =
      let total = (seen + c) % 2 ^ 64 in
      let later = percentile_loop target (suc i) total buckets in
      if leb target total then i else later

  -- The rank of a percentage among so many samples.
  unfoldable pub target_of : ℕ → F → ℕ
  target_of count p =
      let clamped = d.div (d.clamp p d.zero_double d.hundred) d.hundred in
      max (d.as_u64 (d.ceil (d.mul (d.of_u64 count) clamped))) 1

  unfoldable pub percentile_ms : Histogram F → F → ℕ
  unfolding percentile_loop target_of
  percentile_ms h p =
      if h.count == 0 then 0 else percentile_loop (target_of h.count p) 0 0 h.buckets

-- The repartition table: one count for each bound, and one for what is past the last.
pub record Repartition : Type 0 where
  pub bounds : List ℕ
  pub counts : List ℕ

unfoldable pub table_new : List ℕ → Repartition
table_new bounds = record { bounds = bounds; counts = replicate (length bounds + 1) 0 }

-- The first bound that is greater.
unfoldable pub first_above : List ℕ → ℕ → Option ℕ
first_above [] ms = none
first_above (b ∷ bounds) ms =
    let later = first_above bounds ms in if ltb ms b then some 0 else Option.map suc later

abbrev pub is_inert : Repartition → Bool
is_inert t = length t.bounds == 0

-- The class of a sample: the last one, if no bound is greater.
unfoldable pub class_of : Repartition → ℕ → ℕ
unfolding first_above
class_of t ms = elim (first_above t.bounds ms) [ some i ↦ i | none ↦ length t.counts - 1 ]

unfoldable pub table_record : Repartition → ℕ → Repartition
unfolding class_of
table_record t duration =
    let i = class_of t (to_u64 duration) in
    if is_inert t then t else record t { counts = set t.counts i (count_up (get_or t.counts i 0)) }

unfoldable pub reset : Repartition → Repartition
reset t = record t { counts = map (λ c. 0) t.counts }
