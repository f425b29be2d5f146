-- ===== src/Histogram/Counts.antt =====
-- What the counters of a histogram hold after a list of samples.
use sipr.Common.{
  ℕ, suc, ◌+◌, ◌^◌, ◌≤◌, ◌<◌, false, List, [], ◌∷◌, ◌≡◌, ◌≢◌, refl, ◌∙◌, inl, inr, ltb, ◌==◌,
  if◌then◌else◌, length, get_or, arith, Bool-cases, length-set, get_or-set_self, get_or-set_ne,
}
use sipr.Histogram.{bucket_count, Doubles, Histogram, to_u64, count_up, record_ms}

-- The samples of so many milliseconds.
unfoldable pub occurs : ℕ → List ℕ → ℕ
occurs i [] = 0
occurs i (x ∷ xs) = (if to_u64 x == i then 1 else 0) + occurs i xs

-- The samples below so many milliseconds.
unfoldable pub below : ℕ → List ℕ → ℕ
below n [] = 0
below n (x ∷ xs) = (if ltb (to_u64 x) n then 1 else 0) + below n xs

pub below-suc : (n : ℕ) (xs : List ℕ) → below (suc n) xs ≡ below n xs + occurs n xs
unfolding below occurs
below-suc n [] = refl
below-suc n (x ∷ xs) = ground (arith, below-suc n xs)

pub below-zero : (xs : List ℕ) → below 0 xs ≡ 0
unfolding below
below-zero [] = refl
below-zero (x ∷ xs) = ground (arith, below-zero xs)

pub below-le : (n : ℕ) (xs : List ℕ) → below n xs ≤ length xs
unfolding below
below-le n [] = omega arith
below-le n (x ∷ xs) = ground (arith, below-le n xs)

module _ {ℓ} {F : Type ℓ} (d : Doubles F) where
  -- The samples one after the other.
  unfoldable pub recorded : Histogram F → List ℕ → Histogram F
  unfolding record_ms
  recorded h [] = h
  recorded h (x ∷ xs) = recorded (record_ms d h x) xs

  record_ms-buckets :
      (h : Histogram F) (x i : ℕ)
      → length h.buckets ≡ bucket_count
      → i < bucket_count
      → get_or h.buckets i 0 + 1 < 2 ^ 64
      → (length (record_ms d h x).buckets ≡ bucket_count)
        × (get_or (record_ms d h x).buckets i 0
            ≡ get_or h.buckets i 0 + (if to_u64 x == i then 1 else 0))
  unfolding record_ms
  record_ms-buckets h x i sized small room = elim (Bool-cases (ltb (to_u64 x) bucket_count)) [
    | inr e ↦
        let other : (to_u64 x == i) ≡ false = ground arith in
        rw (record_ms, e, other) (sized, omega arith)
    | inl e ↦ elim (Bool-cases (to_u64 x == i)) [
      | inl f ↦
          let same : to_u64 x ≡ i = ground arith in
          rw (record_ms, e, f, same)
            (
              length-set h.buckets i (count_up (get_or h.buckets i 0)) ∙ sized,
              get_or-set_self h.buckets i (count_up (get_or h.buckets i 0)) 0 (omega arith)
                  ∙ omega arith,
            )
      | inr f ↦
          let other : to_u64 x ≢ i = ground arith in
          rw (record_ms, e, f)
            (
              length-set h.buckets (to_u64 x) (count_up (get_or h.buckets (to_u64 x) 0)) ∙ sized,
              get_or-set_ne h.buckets (to_u64 x) i (count_up (get_or h.buckets (to_u64 x) 0)) 0
                    other
                  ∙ omega arith,
            )
    ]
  ]

  pub recorded-buckets :
      (h : Histogram F) (xs : List ℕ) (i : ℕ)
      → length h.buckets ≡ bucket_count
      → i < bucket_count
      → get_or h.buckets i 0 + length xs < 2 ^ 64
      → (length (recorded h xs).buckets ≡ bucket_count)
        × (get_or (recorded h xs).buckets i 0 ≡ get_or h.buckets i 0 + occurs i xs)
  unfolding recorded occurs
  recorded-buckets h [] i sized small room = (sized, omega arith)
  recorded-buckets h (x ∷ xs) i sized small room =
      let (still, one) = record_ms-buckets h x i sized small (omega arith) in
      let bit : (if to_u64 x == i then 1 else 0) ≤ 1 = ground arith in
      let (last, all) =
        recorded-buckets (record_ms d h x) xs i still small (omega (arith, one, bit)) in
      (last, omega (arith, all, one))

  pub recorded-count :
      (h : Histogram F) (xs : List ℕ)
      → h.count + length xs < 2 ^ 64
      → (recorded h xs).count ≡ h.count + length xs
  unfolding recorded record_ms
  recorded-count h [] room = omega arith
  recorded-count h (x ∷ xs) room =
      let one : (record_ms d h x).count ≡ h.count + 1 = omega arith in
      omega (arith, one, recorded-count (record_ms d h x) xs (omega (arith, one)))
