-- ===== src/Rng/Period.antt =====
-- The state never becomes zero, where it would stay.
use Prim.Native.Nat.{bit_xor}
use sipr.Common.{
  ℕ, zero, suc, ◌+◌, ◌-◌, ◌*◌, ◌/◌, ◌%◌, ◌^◌, ◌<◌, ◌≤◌, ◌≡◌, refl, sym, ◌∙◌, arith, length,
  length-append, length-take, take, min,
}
use sipr.Common.Bits.{bit_xor-lt, bit_xor_cancel, zero-bit_xor}
use sipr.Common.Words.{le64}
use sipr.Rng.{new, shift_down, shift_up, next_state, next_u64, fill_loop, fill}

-- Numbers whose sum is zero are the same.
xor_zero : (a b : ℕ) → bit_xor a b ≡ 0 → a ≡ b
xor_zero a b h = sym (bit_xor_cancel a b) ∙ rw h (zero-bit_xor b)

-- A state: not zero, and of 64 bits.
abbrev pub IsState : ℕ → Type 0
IsState x = (1 ≤ x) × (x < 2 ^ 64)

positive : (x : ℕ) → (x ≡ 0 → ⊥) → 1 ≤ x
positive zero h = absurd (h refl)
positive (suc x) h = omega arith

shift_down-IsState : (x n : ℕ) → x / 2 ^ n < x → IsState x → IsState (shift_down x n)
unfolding shift_down
shift_down-IsState x n less (some_bit, word) = (
  positive _ (λ e. omega (arith, xor_zero x (x / 2 ^ n) e, less)),
  bit_xor-lt 64 x (x / 2 ^ n) word (omega (arith, less, word)),
)

shift_up-IsState : (x : ℕ) → IsState x → IsState (shift_up x)
unfolding shift_up
shift_up-IsState x (some_bit, word) = (
  positive _ (λ e. let same = xor_zero x (x * 2 ^ 25 % 2 ^ 64) e in omega (arith, same)),
  bit_xor-lt 64 x (x * 2 ^ 25 % 2 ^ 64) word (omega arith),
)

next_state-IsState : (x : ℕ) → IsState x → IsState (next_state x)
unfolding next_state
next_state-IsState x s =
    let first = shift_down-IsState x 12 (omega arith) s in
    let second = shift_up-IsState (shift_down x 12) first in
    shift_down-IsState (shift_up (shift_down x 12)) 27 (omega (arith, second.0)) second

bytes_of : (n : ℕ) → length (le64 n) ≡ 8
unfolding le64
bytes_of n = refl

fill_loop-IsState :
    (chunks left x : ℕ)
    → IsState x
    → left ≤ chunks * 8
    → IsState (fill_loop chunks left x).0 × (length (fill_loop chunks left x).1 ≡ left)
unfolding fill_loop next_u64
fill_loop-IsState zero left x s h = (s, omega arith)
fill_loop-IsState (suc chunks) left x s h =
    let (state, size) =
      fill_loop-IsState chunks (left - 8) (next_state x) (next_state-IsState x s) (omega arith) in
    let value = next_state x * 2685821657736338717 % 2 ^ 64 in
    let eight : length (le64 value) ≡ 8 = bytes_of value in
    (
      state,
      omega (
        arith,
        length-append (take (min 8 left) (le64 value))
            (fill_loop chunks (left - 8) (next_state x)).1,
        length-take (min 8 left) (le64 value),
        eight,
        size,
      ),
    )

pub fill_keeps : (x n : ℕ) → IsState x → IsState (fill x n).0 × (length (fill x n).1 ≡ n)
unfolding fill
fill_keeps x n state = fill_loop-IsState ((n + 7) / 8) n x state (omega arith)

-- From every seed of 64 bits the generator fills a buffer of any length whole, and the state it is left
-- with is again a word that is not zero.
pub fill-IsState :
    (seed n : ℕ)
    → seed < 2 ^ 64
    → IsState (fill (new seed) n).0 × (length (fill (new seed) n).1 ≡ n)
unfolding new
fill-IsState seed n word = fill_keeps _ n (ground arith)
