-- ===== src/Hash/Padding.antt =====
-- The padding of the hashes: whole blocks, and no two messages are padded to the same blocks.
use sipr.Common.{
  ℕ, zero, suc, ◌+◌, ◌-◌, ◌*◌, ◌/◌, ◌%◌, ◌^◌, ◌≤◌, ◌<◌, List, ◌∷◌, ◌++◌, ◌≡◌, refl, ◌∙◌, arith, inl,
  inr, Bool-cases, ◌==◌, ==_iff, length, take, drop, get_or, length-append, take-length,
  drop-length, take-append_le,
}
use sipr.Common.Words.{be64, of_be}
use sipr.Hash.{zeros, padded, bit_len}

-- How many zeros there are.
abbrev gap : ℕ → ℕ
gap n = (120 - n % 64) % 64

length-zeros : (fuel n : ℕ) → gap n < fuel → length (zeros fuel n) ≡ gap n
unfolding zeros
length-zeros zero n h = absurd (omega arith)
length-zeros (suc fuel) n h = elim (Bool-cases (n % 64 == 56)) [
  | inl e ↦ rw e (let full = (==_iff (n % 64) 56).0 e in omega (arith, full))
  | inr e ↦ rw e (let rest = length-zeros fuel (n + 1) in ground (arith, e, rest))
]

-- The message up to its length field fills all but 8 bytes of a block, and is the shortest that does.
pub length-padded :
    (input : List ℕ)
    → (length (padded input) % 64 ≡ 56)
      × (length input < length (padded input))
      × (length (padded input) ≤ length input + 64)
unfolding padded
length-padded input =
    let size = length-append input (128 ∷ zeros 64 (length input + 1)) in
    let tail = length-zeros 64 (length input + 1) (omega arith) in
    (omega (arith, size, tail), omega (arith, size, tail), omega (arith, size, tail))

-- The number that the last eight bytes are.
abbrev length_field : List ℕ → ℕ
length_field msg =
    let s = drop (length msg - 8) msg in
    of_be (get_or s 0 0) (get_or s 1 0) (get_or s 2 0) (get_or s 3 0) * 2 ^ 32
    + of_be (get_or s 4 0) (get_or s 5 0) (get_or s 6 0) (get_or s 7 0)

-- The bytes that the length field counts in bits.
abbrev pub unpadded : List ℕ → List ℕ
unpadded msg = take (length_field msg / 8) msg

field_of : (xs : List ℕ) (n : ℕ) → n < 2 ^ 64 → length_field (xs ++ be64 n) ≡ n
unfolding be64
field_of xs n h =
    let at : length (xs ++ be64 n) - 8 ≡ length xs =
      let eight : length (be64 n) ≡ 8 = refl in omega (arith, length-append xs (be64 n), eight) in
    rw (at, drop-length xs (be64 n)) (omega arith)

take-padded : (input more : List ℕ) → take (length input) (padded input ++ more) ≡ input
unfolding padded
take-padded input more =
    take-append_le (length input) (padded input) more
      (omega (arith, length-append input (128 ∷ zeros 64 (length input + 1))))
    ∙ take-length input (128 ∷ zeros 64 (length input + 1))

-- A message of less than 2 ^ 61 bytes is read back from its padded form with the big-endian length.
pub unpadded-padded :
    (input : List ℕ)
    → length input < 2 ^ 61
    → unpadded (padded input ++ be64 (bit_len input)) ≡ input
unpadded-padded input short =
    let count : length_field (padded input ++ be64 (bit_len input)) / 8 ≡ length input =
      omega (arith, field_of (padded input) (bit_len input) (omega arith)) in
    rw count (take-padded input (be64 (bit_len input)))
