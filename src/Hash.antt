-- ===== src/Hash.antt =====
-- crates/sipr-auth/src/hash.rs: SHA-1 and HMAC-SHA1, and the padding that the hashes share. The child
-- modules hold MD5 and SHA-256. Bytes and words are numbers.
pub mod Md5
pub mod Sha256
pub mod Padding
pub mod Digests
mod Runs
use Prim.Native.Nat.{bit_and, bit_or, bit_xor}
use sipr.Common.{
  ℕ, zero, suc, ◌+◌, ◌-◌, ◌*◌, ◌/◌, ◌%◌, ◌^◌, List, [], ◌∷◌, ◌++◌, map, length, take, drop,
  replicate, get_or, ltb, ◌==◌, if◌then◌else◌,
}
use sipr.Common.Words.{be32, be64, be_words, wrapping_add, not32, rotate_left}

-- `while msg.len() % 64 != 56 { msg.push(0) }`, from a length on: the fuel is more than a block.
unfoldable pub zeros : ℕ → ℕ → List ℕ
zeros zero n = []
zeros (suc fuel) n = let rest = zeros fuel (n + 1) in if n % 64 == 56 then [] else 0 ∷ rest

abbrev pub bit_len : List ℕ → ℕ
bit_len input = length input * 8 % 2 ^ 64

-- The message up to its length field.
unfoldable pub padded : List ℕ → List ℕ
unfolding zeros
padded input = input ++ (128 ∷ zeros 64 (length input + 1))

pub record Sha1State : Type 0 where
  pub a : ℕ
  pub b : ℕ
  pub c : ℕ
  pub d : ℕ
  pub e : ℕ

abbrev pub sha1_start : Sha1State
sha1_start = record {
  a = 1732584193;
  b = 4023233417;
  c = 2562383102;
  d = 271733878;
  e = 3285377520;
}

unfoldable pub sha1_schedule : ℕ → List ℕ → List ℕ
sha1_schedule zero w = w
sha1_schedule (suc n) w =
    let i = length w in
    let mixed =
      bit_xor (bit_xor (bit_xor (get_or w (i - 3) 0) (get_or w (i - 8) 0)) (get_or w (i - 14) 0))
        (get_or w (i - 16) 0) in
    sha1_schedule n (w ++ (rotate_left mixed 1 ∷ []))

unfoldable pub sha1_f : ℕ → Sha1State → ℕ
sha1_f i s =
    if ltb i 20
    then bit_or (bit_and s.b s.c) (bit_and (not32 s.b) s.d)
    else if ltb i 40
    then bit_xor (bit_xor s.b s.c) s.d
    else if ltb i 60
    then bit_or (bit_or (bit_and s.b s.c) (bit_and s.b s.d)) (bit_and s.c s.d)
    else bit_xor (bit_xor s.b s.c) s.d

unfoldable pub sha1_k : ℕ → ℕ
sha1_k i =
    if ltb i 20
    then 1518500249
    else if ltb i 40
    then 1859775393
    else if ltb i 60
    then 2400959708
    else 3395469782

unfoldable pub sha1_round : ℕ → ℕ → Sha1State → Sha1State
unfolding sha1_f sha1_k
sha1_round i w s = record {
  a =
      wrapping_add
        (wrapping_add (wrapping_add (wrapping_add (rotate_left s.a 5) (sha1_f i s)) s.e) (sha1_k i))
        w;
  b = s.a;
  c = rotate_left s.b 30;
  d = s.c;
  e = s.d;
}

unfoldable pub sha1_rounds : ℕ → List ℕ → Sha1State → Sha1State
unfolding sha1_round
sha1_rounds i [] s = s
sha1_rounds i (w ∷ ws) s = sha1_rounds (suc i) ws (sha1_round i w s)

abbrev pub sha1_sum : Sha1State → Sha1State → Sha1State
sha1_sum h s = record {
  a = wrapping_add h.a s.a;
  b = wrapping_add h.b s.b;
  c = wrapping_add h.c s.c;
  d = wrapping_add h.d s.d;
  e = wrapping_add h.e s.e;
}

-- The chunks of 64 bytes.
unfoldable pub sha1_chunks : ℕ → List ℕ → Sha1State → Sha1State
unfolding sha1_schedule sha1_rounds be_words
sha1_chunks zero msg h = h
sha1_chunks (suc n) msg h =
    sha1_chunks n (drop 64 msg) (sha1_sum h (sha1_rounds 0 (sha1_schedule 64 (be_words 16 msg)) h))

abbrev pub sha1_bytes : Sha1State → List ℕ
sha1_bytes h = be32 h.a ++ (be32 h.b ++ (be32 h.c ++ (be32 h.d ++ be32 h.e)))

unfoldable pub sha1 : List ℕ → List ℕ
unfolding sha1_chunks padded be32 be64
sha1 input =
    let msg = padded input ++ be64 (bit_len input) in
    sha1_bytes (sha1_chunks (length msg / 64) msg sha1_start)

-- The key in a block of 64 bytes.
unfoldable pub key_block : List ℕ → List ℕ
unfolding sha1
key_block key =
    if ltb 64 (length key) then sha1 key ++ replicate 44 0 else key ++ replicate (64 - length key) 0

-- The digest under a block of 64 bytes.
unfoldable pub hmac_block : List ℕ → List ℕ → List ℕ
unfolding sha1
hmac_block k input =
    let inner_hash = sha1 (map (λ b. bit_xor b 54) k ++ input) in
    sha1 (map (λ b. bit_xor b 92) k ++ inner_hash)

unfoldable pub hmac_sha1 : List ℕ → List ℕ → List ℕ
unfolding key_block hmac_block
hmac_sha1 key input = hmac_block (key_block key) input

-- A digit of `{b:02x}`, and the text of the bytes.
unfoldable pub hex_digit : ℕ → ℕ
hex_digit d = if ltb d 10 then d + 48 else d + 87

unfoldable pub hex : List ℕ → List ℕ
unfolding hex_digit
hex [] = []
hex (b ∷ bytes) = hex_digit (b / 16) ∷ hex_digit (b % 16) ∷ hex bytes
