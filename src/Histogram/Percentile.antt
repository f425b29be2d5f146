-- ===== src/Histogram/Percentile.antt =====
-- What a percentile is.
use sipr.Common.{
  ℕ, zero, suc, ◌+◌, ◌%◌, ◌^◌, ◌≤◌, ◌<◌, false, List, [], ◌∷◌, ◌≡◌, refl, sym, ap, ◌∙◌, inl, inr,
  leb, ◌==◌, length, get_or, replicate, arith, Bool-cases, length-replicate,
}
use sipr.Histogram.{
  bucket_count, Doubles, Histogram, new, percentile_loop, percentile_ms, target_of,
}
use sipr.Histogram.Counts.{
  occurs, below, below-suc, below-zero, below-le, recorded, recorded-buckets, recorded-count,
}

get_or-replicate : (n i : ℕ) → ◌≡◌ {A = ℕ} (get_or (replicate n 0) i 0) 0
get_or-replicate zero i = refl
get_or-replicate (suc n) zero = refl
get_or-replicate (suc n) (suc i) = get_or-replicate n i

-- The least number of milliseconds, from `i` on, that at least `target` samples do not exceed.
pub IsLeast : ℕ → List ℕ → ℕ → ℕ → Type 0
IsLeast target xs i v =
    (i ≤ v)
    × (v ≤ bucket_count)
    × (v < bucket_count → target ≤ below (suc v) xs)
    × ((w : ℕ) → i ≤ w → w < v → below (suc w) xs < target)

module _ {ℓ} {F : Type ℓ} (d : Doubles F) where
  percentile_loop-IsLeast :
      (target i : ℕ) (buckets xs : List ℕ)
      → length xs < 2 ^ 64
      → i + length buckets ≡ bucket_count
      → ((j : ℕ) → j < length buckets → get_or buckets j 0 ≡ occurs (i + j) xs)
      → IsLeast target xs i (percentile_loop d target i (below i xs) buckets)
  unfolding percentile_loop IsLeast
  percentile_loop-IsLeast target i [] xs few sized held = (
    omega arith,
    omega arith,
    λ h. absurd (omega (arith, h)),
    λ w h k. absurd (omega (arith, h, k)),
  )
  percentile_loop-IsLeast target i (c ∷ buckets) xs few sized held =
      let here : c ≡ occurs i xs = held 0 (omega arith) ∙ ap (λ n. occurs n xs) (omega arith) in
      let total : (below i xs + c) % 2 ^ 64 ≡ below (suc i) xs =
        omega (arith, here, below-suc i xs, below-le (suc i) xs) in
      let (from, upto, enough, before) =
        percentile_loop-IsLeast target (suc i) buckets xs few (omega arith)
          (λ j h. held (suc j) (omega (arith, h)) ∙ ap (λ n. occurs n xs) (omega arith)) in
      elim (Bool-cases (leb target (below (suc i) xs))) [
        | inl e ↦
            rw (total, e)
              (omega arith, omega arith, (λ h. ground arith), λ w h k. absurd (omega (arith, h, k)))
        | inr e ↦
            rw (total, e)
              (
                omega arith,
                upto,
                enough,
                λ w h k. elim (Bool-cases (w == i)) [
                  | inl f ↦ let same : w ≡ i = ground arith in rw same (ground arith)
                  | inr f ↦ before w (ground arith) k
                ],
              )
      ]

  new-recorded :
      (xs : List ℕ) (j : ℕ)
      → length xs < 2 ^ 64
      → j < bucket_count
      → (length (recorded d (new d) xs).buckets ≡ bucket_count)
        × (get_or (recorded d (new d) xs).buckets j 0 ≡ occurs j xs)
  unfolding new
  new-recorded xs j few inside =
      let blank = get_or-replicate bucket_count j in
      let (sized, held) =
        recorded-buckets d (new d) xs j (length-replicate {A = ℕ} bucket_count 0) inside
          (omega (arith, few, blank)) in
      (sized, omega (arith, held, blank))

  new-recorded_count :
      (xs : List ℕ) → length xs < 2 ^ 64 → (recorded d (new d) xs).count ≡ length xs
  unfolding new
  new-recorded_count xs few = recorded-count d (new d) xs (omega arith) ∙ omega arith

  percentile_ms-held :
      (h : Histogram F) (xs : List ℕ) (p : F)
      → 1 ≤ length xs
      → length xs < 2 ^ 64
      → h.count ≡ length xs
      → length h.buckets ≡ bucket_count
      → ((j : ℕ) → j < bucket_count → get_or h.buckets j 0 ≡ occurs j xs)
      → IsLeast (target_of d (length xs) p) xs 0 (percentile_ms d h p)
  unfolding percentile_ms
  percentile_ms-held h xs p some_sample few counted sized held =
      let empty : (h.count == 0) ≡ false = ground (arith, counted) in
      let target = target_of d (length xs) p in
      let least : IsLeast target xs 0 (percentile_loop d target 0 (below 0 xs) h.buckets) =
        percentile_loop-IsLeast target 0 h.buckets xs few (omega (arith, sized)) (λ j inside.
          held j (omega (arith, inside, sized)) ∙ ap (λ n. occurs n xs) (omega arith)) in
      rw
        (
          empty,
          counted,
          sym (ap (λ seen. percentile_loop d target 0 seen h.buckets) (below-zero xs)),
        )
        least

  -- After any samples, fewer than 2 ^ 64, the percentile is the least number of milliseconds that at
  -- least as many samples do not exceed as its rank says, one at least, and 10000 if none below it is.
  pub percentile_ms-IsLeast :
      (xs : List ℕ) (p : F)
      → 1 ≤ length xs
      → length xs < 2 ^ 64
      → IsLeast (target_of d (length xs) p) xs 0 (percentile_ms d (recorded d (new d) xs) p)
  percentile_ms-IsLeast xs p some_sample few =
      percentile_ms-held (recorded d (new d) xs) xs p some_sample few (new-recorded_count xs few)
        (new-recorded xs 0 few (omega arith)).0 (λ j inside. (new-recorded xs j few inside).1)
