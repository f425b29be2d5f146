-- ===== src/Tdm/Circuits.antt =====
-- Where the circuits of a map lie, and the map that panics.
use native.Mathlib.Nat.{mod-lt, mul-pos, mul-mod_right}
use sipr.Common.{
  ℕ, suc, inl, inr, sym, Bool, true, ◌||◌, Bool-cases, if◌then◌else◌, Option, ◌+◌, ◌-◌, ◌*◌, ◌/◌,
  ◌%◌, ◌^◌, ◌<◌, ◌≤◌, ◌≡◌, refl, ◌∙◌, arith, none, some, false, ◌==◌,
}
use sipr.Common.Words.{wrapping_add}
use sipr.Tdm.{TdmMap, Circuit, circuit, circuit_of, wrapping_mul}

-- A start and a number below a width, whose sum is a word.
in_range :
    (start n w : ℕ)
    → start + w < 2 ^ 32 - 1
    → (start ≤ wrapping_add start (n % suc w)) × (wrapping_add start (n % suc w) ≤ start + w)
in_range start n w h =
    let below : n % suc w < suc w = mod-lt n (omega arith) in
    (omega (arith, below), omega (arith, below))

not_zero : (n : ℕ) → (suc n == 0) ≡ false
not_zero n = ground arith

circuit_of-suc :
    (m : TdmMap) (a b c per_x number : ℕ)
    → (per_x == 0) ≡ false
    → circuit_of m (suc a) (suc b) (suc c) per_x number
      ≡ some (record {
        first = wrapping_add m.x (number / per_x % suc a);
        middle = m.h;
        second = wrapping_add m.y (number / suc c % suc b);
        third = wrapping_add m.z (number % suc c);
      })
unfolding circuit_of
circuit_of-suc m a b c per_x number h = rw (not_zero a, not_zero b, not_zero c, h) refl

width : (n : ℕ) → n < 2 ^ 32 - 1 → wrapping_add n 1 ≡ suc n
width n h = omega arith

-- A map whose ranges end below 2 ^ 32 - 1, and whose last two ranges have less than 2 ^ 32 pairs: every
-- number has a circuit, whose parts lie in the ranges of the map.
pub circuit_lem :
    (m : TdmMap) (number : ℕ)
    → m.x + m.a < 2 ^ 32 - 1
    → m.y + m.b < 2 ^ 32 - 1
    → m.z + m.c < 2 ^ 32 - 1
    → suc m.b * suc m.c < 2 ^ 32
    → (k : Circuit) × (circuit m number ≡ some k)
      × ((m.x ≤ k.first) × (k.first ≤ m.x + m.a))
      × ((m.y ≤ k.second) × (k.second ≤ m.y + m.b))
      × ((m.z ≤ k.third) × (k.third ≤ m.z + m.c))
unfolding circuit
circuit_lem m number hx hy hz word =
    let per_x = suc m.b * suc m.c in
    let whole : wrapping_mul (suc m.b) (suc m.c) ≡ per_x = omega (arith, word) in
    let pairs : (per_x == 0) ≡ false =
      let pos : 0 < per_x = mul-pos {m = suc m.b} {n = suc m.c} (omega arith) (omega arith) in
      ground (arith, pos) in
    (
      record {
        first = wrapping_add m.x (number / per_x % suc m.a);
        middle = m.h;
        second = wrapping_add m.y (number / suc m.c % suc m.b);
        third = wrapping_add m.z (number % suc m.c);
      },
      rw
          (
            width m.a (omega (arith, hx)),
            width m.b (omega (arith, hy)),
            width m.c (omega (arith, hz)),
            whole,
          )
          (circuit_of-suc m m.a m.b m.c per_x number pairs),
      in_range m.x (number / per_x) m.a hx,
      in_range m.y (number / suc m.c) m.b hy,
      in_range m.z number m.c hz,
    )

wrapped_suc : (n : ℕ) → n < 2 ^ 32 → wrapping_add n 1 ≡ (if suc n == 2 ^ 32 then 0 else suc n)
wrapped_suc n h = ground (arith, h)

-- The product of the widths that have wrapped is the product that wraps.
wrapped_product :
    (b c : ℕ)
    → b < 2 ^ 32
    → c < 2 ^ 32
    → wrapping_mul (wrapping_add b 1) (wrapping_add c 1) ≡ suc b * suc c % 2 ^ 32
wrapped_product b c hb hc = elim (Bool-cases (suc b == 2 ^ 32)) [
  | inl e ↦
      let full : suc b ≡ 2 ^ 32 = ground arith in
      let gone : wrapping_add b 1 ≡ 0 = omega (arith, full) in
      rw (gone, full) ((omega arith) ∙ sym (mul-mod_right (2 ^ 32) (suc c)))
  | inr e ↦ elim (Bool-cases (suc c == 2 ^ 32)) [
    | inl f ↦
        let full : suc c ≡ 2 ^ 32 = ground arith in
        let gone : wrapping_add c 1 ≡ 0 = omega (arith, full) in rw (gone, full) (omega arith)
    | inr f ↦
        let b_same : wrapping_add b 1 ≡ suc b = ground (arith, wrapped_suc b hb) in
        let c_same : wrapping_add c 1 ≡ suc c = ground (arith, wrapped_suc c hc) in
        rw (b_same, c_same) refl
  ]
]

abbrev pub is_none : Option Circuit → Bool
is_none none = true
is_none (some k) = false

panics_of :
    (m : TdmMap) (a b c per_x number : ℕ)
    → is_none (circuit_of m a b c per_x number) ≡ (c == 0 || (b == 0 || (a == 0 || per_x == 0)))
unfolding circuit_of
panics_of m a b c per_x number = ground arith

-- A product with a factor that is zero is zero.
zero_widths :
    (a b c : ℕ)
    → (c == 0 || (b == 0 || (a == 0 || wrapping_mul b c == 0))) ≡ (a == 0 || wrapping_mul b c == 0)
zero_widths a b c = elim (Bool-cases (c == 0)) [
  | inl e ↦
      let zero_c : c ≡ 0 = ground arith in
      let gone : wrapping_mul b c ≡ 0 = rw zero_c (omega arith) in ground (arith, gone)
  | inr e ↦ elim (Bool-cases (b == 0)) [
    | inl f ↦
        let zero_b : b ≡ 0 = ground arith in
        let gone : wrapping_mul b c ≡ 0 = rw zero_b (omega arith) in ground (arith, gone)
    | inr f ↦ rw (e, f) refl
  ]
]

-- For a map of words, every number finds no circuit, as a division by zero panics, exactly if the first
-- range has 2 ^ 32 numbers or the pairs of the last two ranges are a multiple of 2 ^ 32: a full third
-- range, and also two ranges of 2 ^ 16 numbers.
pub circuit_panics :
    (m : TdmMap) (number : ℕ)
    → m.a < 2 ^ 32
    → m.b < 2 ^ 32
    → m.c < 2 ^ 32
    → is_none (circuit m number) ≡ (suc m.a == 2 ^ 32 || suc m.b * suc m.c % 2 ^ 32 == 0)
unfolding circuit
circuit_panics m number ha hb hc =
    let a1 = wrapping_add m.a 1 in
    let b1 = wrapping_add m.b 1 in
    let c1 = wrapping_add m.c 1 in
    let full : (a1 == 0) ≡ (suc m.a == 2 ^ 32) = ground (arith, ha) in
    panics_of m a1 b1 c1 (wrapping_mul b1 c1) number
    ∙ zero_widths a1 b1 c1
    ∙ rw (full, wrapped_product m.b m.c hb hc) refl
