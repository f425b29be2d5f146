-- ===== src/Common/Bits.antt =====
-- `bit_xor` at variables, from the recursion on binary digits that it stands for.
use native.Mathlib.Nat.{pow-suc}
use native.Mathlib.Omega.{arith}
use mathlib.Core.List.{List, [], ◌∷◌}
use sipr.Common.Lists.{length}
use mathlib.Core.Path.{refl, ◌≡◌, ◌∙◌}
use Prim.Native.Nat.{
  bit_xor, bit_xor-bitwise, differ, digits, ℕ, suc, zero, ◌^◌, ◌%◌, ◌/◌, ◌*◌, ◌+◌, ◌<◌, ◌≤◌,
}

-- `*d ^= k` over the zip of two lists.
unfoldable pub xor_onto : List ℕ → List ℕ → List ℕ
xor_onto [] ks = []
xor_onto (d ∷ ds) [] = d ∷ ds
xor_onto (d ∷ ds) (k ∷ ks) = bit_xor d k ∷ xor_onto ds ks

abbrev xor_digits : ℕ → ℕ → ℕ → ℕ
xor_digits n a b = digits (λ y. y) differ n a b

-- The digits do not depend on the fuel, as long as the first number is within it.
xor_digits_fuel :
    (a b : ℕ) {small large : ℕ}
    → a ≤ small
    → a ≤ large
    → xor_digits small a b ≡ xor_digits large a b
xor_digits_fuel zero b {small = zero} {large = zero} fits fits' = refl
xor_digits_fuel zero b {small = zero} {large = suc large} fits fits' = refl
xor_digits_fuel zero b {small = suc small} {large = zero} fits fits' = refl
xor_digits_fuel zero b {small = suc small} {large = suc large} fits fits' = refl
xor_digits_fuel (suc a) b {small = zero} fits fits' = absurd (omega arith)
xor_digits_fuel (suc a) b {small = suc small} {large = zero} fits fits' = absurd (omega arith)
xor_digits_fuel (suc a) b {small = suc small} {large = suc large} fits fits' = omega (
  arith,
  xor_digits_fuel (suc a / 2) (b / 2) {small = small} {large = large} (omega arith) (omega arith),
)

pub zero-bit_xor : (b : ℕ) → bit_xor 0 b ≡ b
zero-bit_xor b = bit_xor-bitwise 0 b

differ_zero : (b : ℕ) → b < 2 → differ 0 b ≡ b
differ_zero zero h = refl
differ_zero (suc zero) h = refl
differ_zero (suc (suc b)) h = absurd (omega arith)

-- The lowest digit, and the rest.
pub bit_xor_step : (a b : ℕ) → bit_xor a b ≡ bit_xor (a / 2) (b / 2) * 2 + differ (a % 2) (b % 2)
bit_xor_step zero b =
    omega (arith, zero-bit_xor b, zero-bit_xor (b / 2), differ_zero (b % 2) (omega arith))
bit_xor_step (suc a) b = omega (
  arith,
  bit_xor-bitwise (suc a) b,
  bit_xor-bitwise (suc a / 2) (b / 2),
  xor_digits_fuel (suc a / 2) (b / 2) {small = a} {large = suc a / 2} (omega arith) (omega arith),
)

differ_twice : (a b : ℕ) → a < 2 → b < 2 → (differ (differ a b) b ≡ a) × (differ a b < 2)
differ_twice zero zero h k = (refl, omega arith)
differ_twice zero (suc zero) h k = (refl, omega arith)
differ_twice (suc zero) zero h k = (refl, omega arith)
differ_twice (suc zero) (suc zero) h k = (refl, omega arith)
differ_twice (suc (suc a)) b h k = absurd (omega arith)
differ_twice zero (suc (suc b)) h k = absurd (omega arith)
differ_twice (suc zero) (suc (suc b)) h k = absurd (omega arith)

-- Below 2 ^ k, at every width.
pub bit_xor-lt : (k a b : ℕ) → a < 2 ^ k → b < 2 ^ k → bit_xor a b < 2 ^ k
bit_xor-lt zero a b h l =
    let none_left : a ≡ 0 = omega arith in rw none_left (omega (arith, zero-bit_xor b))
bit_xor-lt (suc k) a b h l =
    let width = pow-suc 2 k in
    omega (
      arith,
      bit_xor_step a b,
      bit_xor-lt k (a / 2) (b / 2) (omega (arith, width)) (omega (arith, width)),
      (differ_twice (a % 2) (b % 2) (omega arith) (omega arith)).1,
      width,
    )

-- The same number twice cancels.
pub bit_xor_twice : (k a b : ℕ) → a < 2 ^ k → b < 2 ^ k → bit_xor (bit_xor a b) b ≡ a
bit_xor_twice zero a b h l =
    let a_zero : a ≡ 0 = omega arith in let b_zero : b ≡ 0 = omega arith in rw (a_zero, b_zero) refl
bit_xor_twice (suc k) a b h l =
    let width = pow-suc 2 k in
    let (same, small) = differ_twice (a % 2) (b % 2) (omega arith) (omega arith) in
    let upper : bit_xor a b / 2 ≡ bit_xor (a / 2) (b / 2) =
      omega (arith, bit_xor_step a b, small) in
    let lowest : bit_xor a b % 2 ≡ differ (a % 2) (b % 2) =
      omega (arith, bit_xor_step a b, small) in
    let rest : bit_xor (bit_xor (a / 2) (b / 2)) (b / 2) ≡ a / 2 =
      bit_xor_twice k (a / 2) (b / 2) (omega (arith, width)) (omega (arith, width)) in
    bit_xor_step (bit_xor a b) b ∙ rw (upper, lowest, rest, same) (omega arith)

lt_pow : (n : ℕ) → n < 2 ^ n
lt_pow zero = omega arith
lt_pow (suc n) = omega (arith, lt_pow n, pow-suc 2 n)

pow_mono : (a b c : ℕ) → c ≡ b + a → 2 ^ a ≤ 2 ^ c
pow_mono a zero c e = let same : c ≡ a = omega arith in rw same (omega arith)
pow_mono a (suc b) zero e = absurd (omega arith)
pow_mono a (suc b) (suc c) e = omega (arith, pow_mono a b c (omega arith), pow-suc 2 c)

-- The same, at no width.
pub bit_xor_cancel : (a b : ℕ) → bit_xor (bit_xor a b) b ≡ a
bit_xor_cancel a b =
    bit_xor_twice (b + a) a b (omega (arith, lt_pow a, pow_mono a b (b + a) (omega arith)))
      (omega (arith, lt_pow b, pow_mono b a (b + a) (omega arith)))

pub length-xor_onto : (ds ks : List ℕ) → length (xor_onto ds ks) ≡ length ds
unfolding xor_onto
length-xor_onto [] ks = refl
length-xor_onto (d ∷ ds) [] = refl
length-xor_onto (d ∷ ds) (k ∷ ks) = omega (arith, length-xor_onto ds ks)

pub xor_onto_cancel : (ds ks : List ℕ) → xor_onto (xor_onto ds ks) ks ≡ ds
unfolding xor_onto
xor_onto_cancel [] ks = refl
xor_onto_cancel (d ∷ ds) [] = refl
xor_onto_cancel (d ∷ ds) (k ∷ ks) = rw (bit_xor_cancel d k, xor_onto_cancel ds ks) refl
