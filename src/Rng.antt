-- ===== src/Rng.antt =====
-- crates/sipr-net/src/rng.rs: the generator (xorshift64*), on words of 64 bits. Doubles are a
-- parameter, with the tests and the two operations of std on them.
pub mod Period
mod Runs
use Prim.Native.Nat.{bit_xor}
use sipr.Common.{
  ℕ, zero, suc, ◌+◌, ◌-◌, ◌*◌, ◌/◌, ◌%◌, ◌^◌, List, [], ◌∷◌, ◌++◌, length, take, ◌==◌,
  if◌then◌else◌, min, Bool, true, false,
}
use sipr.Common.Words.{le64}

-- The state is the number.
unfoldable pub new : ℕ → ℕ
new seed = if seed == 0 then 11400714819323198485 else seed

-- The three shifts and sums.
unfoldable pub shift_down : ℕ → ℕ → ℕ
shift_down x n = bit_xor x (x / 2 ^ n)

unfoldable pub shift_up : ℕ → ℕ
shift_up x = bit_xor x (x * 2 ^ 25 % 2 ^ 64)

unfoldable pub next_state : ℕ → ℕ
unfolding shift_down shift_up
next_state x = shift_down (shift_up (shift_down x 12)) 27

-- The new state and the value.
unfoldable pub next_u64 : ℕ → ℕ × ℕ
unfolding next_state
next_u64 x = let y = next_state x in (y, y * 2685821657736338717 % 2 ^ 64)

-- The chunks of 8 bytes of a buffer of `left` bytes.
unfoldable pub fill_loop : ℕ → ℕ → ℕ → ℕ × List ℕ
unfolding next_u64 le64
fill_loop zero left x = (x, [])
fill_loop (suc chunks) left x =
    let (y, value) = next_u64 x in
    let (final, rest) = fill_loop chunks (left - 8) y in
    (final, take (min 8 left) (le64 value) ++ rest)

-- The new state, and what a buffer of `n` bytes then holds.
unfoldable pub fill : ℕ → ℕ → ℕ × List ℕ
unfolding fill_loop
fill x n = fill_loop ((n + 7) / 8) n x

-- `to_unit n` is n / 2 ^ 53 as a double.
module _ {ℓ} {F : Type ℓ} (to_unit : ℕ → F) (times_hundred : F → F) (zero_double hundred : F)
    (fle flt : F → F → Bool) where
  unfoldable pub next_f64 : ℕ → ℕ × F
  unfolding next_u64
  next_f64 x = let (y, value) = next_u64 x in (y, to_unit (value / 2 ^ 11))

  unfoldable pub chance_pct : ℕ → F → ℕ × Bool
  unfolding next_f64
  chance_pct x pct =
      let (y, value) = next_f64 x in
      if fle pct zero_double
      then (x, false)
      else if fle hundred pct
      then (x, true)
      else (y, flt (times_hundred value) pct)
