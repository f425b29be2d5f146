-- ===== src/Auth/Digits.antt =====
-- The digits and the end of a header of crates/sipr-auth/src/lib.rs: neither a quote nor a space.
use sipr.Common.{ℕ, ◌/◌, ◌%◌, ◌^◌, ◌<◌, false, List, [], ◌∷◌, ◌≡◌, ◌≢◌, refl, ap, ◌∙◌, arith}
use sipr.Common.Texts.{trim, trim_start, trim_end, Ends, Ends-append, is_whitespace, has, Lacks}
use sipr.Common.Words.{be32}
use sipr.Hash.{hex, hex_digit}
use sipr.Hash.Md5.{md5, md5_hex}
use sipr.Hash.Sha256.{sha256, sha256_hex}
use sipr.Auth.{Algorithm, md5_digest, sha256_digest, aka_v1_md5, hash, token}
use sipr.Auth.Response.{hex8}

pub hex-Lacks : (sep : ℕ) (bytes : List ℕ) → sep < 48 → Lacks sep (hex bytes)
unfolding hex hex_digit
hex-Lacks sep [] h = tt
hex-Lacks sep (b ∷ bytes) h = (digit (b / 16), (digit (b % 16), hex-Lacks sep bytes h))
  where
    digit : (d : ℕ) → hex_digit d ≢ sep
    digit d = ground arith

pub hash-Lacks : (a : Algorithm) (bytes : List ℕ) (sep : ℕ) → sep < 48 → Lacks sep (hash a bytes)
unfolding hash md5_hex sha256_hex
hash-Lacks md5_digest bytes sep h = hex-Lacks sep (md5 bytes) h
hash-Lacks aka_v1_md5 bytes sep h = hex-Lacks sep (md5 bytes) h
hash-Lacks sha256_digest bytes sep h = hex-Lacks sep (sha256 bytes) h

pub Lacks-has : (sep : ℕ) (s : List ℕ) → Lacks sep s → has sep s ≡ false
Lacks-has sep [] h = refl
Lacks-has sep (c ∷ s) h = ground (arith, Lacks-has sep s h.1, h.0)

Ends-digit : (d : ℕ) → d < 16 → Ends (hex_digit d ∷ [])
unfolding trim_end hex_digit
Ends-digit d small = ground arith

digit_black : (d : ℕ) → d < 16 → is_whitespace (hex_digit d) ≡ false
unfolding hex_digit
digit_black d small = ground arith

pub Ends-hex8 : (n : ℕ) → Ends (hex8 n)
unfolding hex8 be32 hex
Ends-hex8 n =
    Ends-append
      (hex_digit (n / 2 ^ 24 % 256 / 16)
        ∷ hex_digit (n / 2 ^ 24 % 256 % 16)
        ∷ hex_digit (n / 2 ^ 16 % 256 / 16)
        ∷ hex_digit (n / 2 ^ 16 % 256 % 16)
        ∷ hex_digit (n / 2 ^ 8 % 256 / 16)
        ∷ hex_digit (n / 2 ^ 8 % 256 % 16)
        ∷ hex_digit (n % 256 / 16)
        ∷ [])
      (hex_digit (n % 256 % 16) ∷ []) (Ends-digit (n % 256 % 16) (omega arith))

trim_start-hex8 : (n : ℕ) → trim_start (hex8 n) ≡ hex8 n
unfolding trim_start hex8 be32 hex
trim_start-hex8 n = rw (digit_black (n / 2 ^ 24 % 256 / 16) (omega arith)) refl

pub trim-hex8 : (n : ℕ) → trim (hex8 n) ≡ hex8 n
unfolding trim
trim-hex8 n = ap trim_end (trim_start-hex8 n) ∙ (Ends-hex8 n).0

pub Ends-token : (a : Algorithm) → Ends (token a)
unfolding token trim_end
Ends-token md5_digest = (refl, refl)
Ends-token sha256_digest = (refl, refl)
Ends-token aka_v1_md5 = (refl, refl)
