-- ===== src/Tdm.antt =====
-- crates/sipr-engine/src/tdm.rs: the circuits of a TDM map, on words of 32 bits. The sums and products
-- wrap, as in a release build; a division or a remainder by zero is a panic, which is `none`. The text
-- form is in Parse; the format of a circuit as a text is left out.
pub mod Circuits
pub mod Parse
mod Runs
use sipr.Common.{
  ℕ, zero, suc, ◌+◌, ◌*◌, ◌/◌, ◌%◌, ◌^◌, Option, none, some, ◌==◌, if◌then◌else◌, ◌||◌,
}
use sipr.Common.Words.{wrapping_add}

pub record TdmMap : Type 0 where
  pub a : ℕ
  pub x : ℕ
  pub h : ℕ
  pub b : ℕ
  pub y : ℕ
  pub c : ℕ
  pub z : ℕ

abbrev pub wrapping_mul : ℕ → ℕ → ℕ
wrapping_mul i j = i * j % 2 ^ 32

unfoldable pub circuits : TdmMap → ℕ
circuits m =
    wrapping_mul (wrapping_mul (wrapping_add m.a 1) (wrapping_add m.b 1)) (wrapping_add m.c 1)

-- The four numbers of `X.h.Y/Z`.
pub record Circuit : Type 0 where
  pub first : ℕ
  pub middle : ℕ
  pub second : ℕ
  pub third : ℕ

-- The same with the widths of the ranges, and the product of the last two, worked out.
unfoldable pub circuit_of : TdmMap → ℕ → ℕ → ℕ → ℕ → ℕ → Option Circuit
circuit_of m a1 b1 c1 per_x number =
    if c1 == 0 || (b1 == 0 || (a1 == 0 || per_x == 0))
    then none
    else some (record {
      first = wrapping_add m.x (number / per_x % a1);
      middle = m.h;
      second = wrapping_add m.y (number / c1 % b1);
      third = wrapping_add m.z (number % c1);
    })

unfoldable pub circuit : TdmMap → ℕ → Option Circuit
unfolding circuit_of
circuit m number =
    let a1 = wrapping_add m.a 1 in
    let b1 = wrapping_add m.b 1 in
    let c1 = wrapping_add m.c 1 in circuit_of m a1 b1 c1 (wrapping_mul b1 c1) number
