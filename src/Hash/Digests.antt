-- ===== src/Hash/Digests.antt =====
-- What the digests and their text look like, and the key of the HMAC.
use sipr.Common.{
  ℕ, ◌+◌, ◌-◌, ◌*◌, ◌/◌, ◌%◌, ◌<◌, true, List, [], ◌∷◌, ◌++◌, ◌≡◌, refl, ap, sym, ◌∙◌, arith, ltb,
  lt→ltb, ◌==◌, if◌then◌else◌, length, All, replicate,
}
use sipr.Common.Tables.{holds_below, holds_below-at}
use sipr.Hash.{sha1, hmac_sha1, hmac_block, key_block, hex, hex_digit}

length-sha1 : (input : List ℕ) → length (sha1 input) ≡ 20
unfolding sha1
length-sha1 input = refl

pub length-hmac_sha1 : (key input : List ℕ) → length (hmac_sha1 key input) ≡ 20
unfolding hmac_sha1 hmac_block sha1
length-hmac_sha1 key input = refl

key_block_long : (key : List ℕ) → 64 < length key → key_block key ≡ sha1 key ++ replicate 44 0
unfolding key_block
key_block_long key long = rw (lt→ltb 64 (length key) long) refl

key_block_digest : (key : List ℕ) → length key ≡ 20 → key_block key ≡ key ++ replicate 44 0
unfolding key_block
key_block_digest key size = rw size refl

-- A key of more than 64 bytes stands for its digest.
pub hmac_sha1_long :
    (key input : List ℕ) → 64 < length key → hmac_sha1 key input ≡ hmac_sha1 (sha1 key) input
unfolding hmac_sha1
hmac_sha1_long key input long =
    ap (λ k. hmac_block k input)
      (key_block_long key long ∙ sym (key_block_digest (sha1 key) (length-sha1 key)))

-- The value of a lower-case digit, and the bytes of a text of digits.
abbrev pub digit_of : ℕ → ℕ
digit_of c = if ltb c 58 then c - 48 else c - 87

abbrev pub unhex : List ℕ → List ℕ
unhex [] = []
unhex (high ∷ []) = []
unhex (high ∷ low ∷ digits) = (digit_of high * 16 + digit_of low) ∷ unhex digits

digit_table : holds_below (λ d. digit_of (hex_digit d) == d) 16 ≡ true
unfolding holds_below hex_digit
digit_table = refl

digit_of-hex_digit : (d : ℕ) → d < 16 → digit_of (hex_digit d) ≡ d
digit_of-hex_digit d h = let row = holds_below-at _ d h digit_table in ground (arith, row)

-- The text of bytes has two digits for each and is read back.
pub unhex-hex :
    (bytes : List ℕ)
    → All (λ b. b < 256) bytes
    → (unhex (hex bytes) ≡ bytes) × (length (hex bytes) ≡ 2 * length bytes)
unfolding hex
unhex-hex [] h = (refl, refl)
unhex-hex (b ∷ bytes) h =
    let (read, size) = unhex-hex bytes h.1 in
    (
      rw
          (
            digit_of-hex_digit (b / 16) (omega arith),
            digit_of-hex_digit (b % 16) (omega arith),
            read,
          )
          (ap (λ c. c ∷ bytes) (omega arith)),
      omega (arith, size),
    )
