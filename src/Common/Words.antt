-- ===== src/Common/Words.antt =====
-- Words of 32 and 64 bits as numbers: their bytes, rotation, and the wrapping sum.
use sipr.Common.{
  ℕ, zero, suc, ◌+◌, ◌-◌, ◌*◌, ◌/◌, ◌%◌, ◌^◌, ◌<◌, List, [], ◌∷◌, ◌++◌, arith, drop, get_or, All,
}

-- `u32::to_be_bytes` and `to_le_bytes`.
unfoldable pub be32 : ℕ → List ℕ
be32 n = n / 2 ^ 24 % 256 ∷ n / 2 ^ 16 % 256 ∷ n / 2 ^ 8 % 256 ∷ n % 256 ∷ []

unfoldable pub le32 : ℕ → List ℕ
le32 n = n % 256 ∷ n / 2 ^ 8 % 256 ∷ n / 2 ^ 16 % 256 ∷ n / 2 ^ 24 % 256 ∷ []

-- `u64::to_be_bytes` and `to_le_bytes`.
unfoldable pub be64 : ℕ → List ℕ
unfolding be32
be64 n = be32 (n / 2 ^ 32) ++ be32 n

unfoldable pub le64 : ℕ → List ℕ
unfolding le32
le64 n = le32 n ++ le32 (n / 2 ^ 32)

-- `u32::from_be_bytes` and `from_le_bytes`.
abbrev pub of_be : ℕ → ℕ → ℕ → ℕ → ℕ
of_be a b c d = a * 2 ^ 24 + b * 2 ^ 16 + c * 2 ^ 8 + d

abbrev pub of_le : ℕ → ℕ → ℕ → ℕ → ℕ
of_le a b c d = of_be d c b a

abbrev pub wrapping_add : ℕ → ℕ → ℕ
wrapping_add a b = (a + b) % 2 ^ 32

-- `!x`
abbrev pub not32 : ℕ → ℕ
not32 x = 2 ^ 32 - 1 - x

-- For 0 < n < 32.
abbrev pub rotate_left : ℕ → ℕ → ℕ
rotate_left x n = x * 2 ^ n % 2 ^ 32 + x / 2 ^ (32 - n)

abbrev pub rotate_right : ℕ → ℕ → ℕ
rotate_right x n = x / 2 ^ n + x * 2 ^ (32 - n) % 2 ^ 32

-- The first words of a chunk.
unfoldable pub be_words : ℕ → List ℕ → List ℕ
be_words zero chunk = []
be_words (suc n) chunk =
    of_be (get_or chunk 0 0) (get_or chunk 1 0) (get_or chunk 2 0) (get_or chunk 3 0)
    ∷ be_words n (drop 4 chunk)

unfoldable pub le_words : ℕ → List ℕ → List ℕ
le_words zero chunk = []
le_words (suc n) chunk =
    of_le (get_or chunk 0 0) (get_or chunk 1 0) (get_or chunk 2 0) (get_or chunk 3 0)
    ∷ le_words n (drop 4 chunk)

pub be32_bytes : (n : ℕ) → All (λ b. b < 256) (be32 n)
unfolding be32
be32_bytes n = (omega arith, (omega arith, (omega arith, (omega arith, tt))))

pub le32_bytes : (n : ℕ) → All (λ b. b < 256) (le32 n)
unfolding le32
le32_bytes n = (omega arith, (omega arith, (omega arith, (omega arith, tt))))
