-- ===== src/Srtp/Sdes.antt =====
-- The text form of a master key, with and without session parameters after it.
use sipr.Common.{
  ℕ, zero, suc, ◌*◌, ◌/◌, ◌%◌, ◌^◌, ◌<◌, true, false, not, ◌&&◌, some, List, [], ◌∷◌, ◌++◌, ◌≡◌,
  refl, arith, ◌==◌, length, take, drop, All, subst, length-append, take_all, take-length,
  drop-length,
}
use sipr.Common.Tables.{holds_below, holds_below-at}
use sipr.Base64.{encode, letter, joined}
use sipr.Base64.RoundTrip.{decode-encode}
use sipr.Srtp.{MasterKey, from_bytes, first_30, trim_end, before_bar, to_sdes, from_sdes}

-- Neither `=` nor `|`.
abbrev Plain : ℕ → Type 0
Plain c = (c == 61 ≡ false) × (c == 124 ≡ false)

plain_table : holds_below (λ v. not (letter v == 61) && not (letter v == 124)) 64 ≡ true
unfolding holds_below letter
plain_table = refl

letter-Plain : (n : ℕ) → Plain (letter (n % 64))
letter-Plain n =
    let row = holds_below-at _ (n % 64) (omega arith) plain_table in ground (arith, row)

-- Without padding the text is letters only.
encode-Plain : (n : ℕ) (bytes : List ℕ) → length bytes ≡ n * 3 → All Plain (encode bytes)
unfolding encode
encode-Plain n [] h = tt
encode-Plain n (a ∷ []) h = absurd (omega arith)
encode-Plain n (a ∷ b ∷ []) h = absurd (omega arith)
encode-Plain zero (a ∷ b ∷ c ∷ rest) h = absurd (omega arith)
encode-Plain (suc n) (a ∷ b ∷ c ∷ rest) h = (
  letter-Plain (joined a b c / 2 ^ 18),
  (
    letter-Plain (joined a b c / 2 ^ 12),
    (
      letter-Plain (joined a b c / 2 ^ 6),
      (letter-Plain (joined a b c), encode-Plain n rest (omega arith)),
    ),
  ),
)

trim_end-Plain : (s : List ℕ) → All Plain s → trim_end s ≡ s
unfolding trim_end
trim_end-Plain [] h = refl
trim_end-Plain (c ∷ []) h = rw h.0.0 refl
trim_end-Plain (c ∷ d ∷ s) h = rw (trim_end-Plain (d ∷ s) h.1) refl

before_bar-Plain :
    (s more : List ℕ) → All Plain s → (before_bar s ≡ s) × (before_bar (s ++ (124 ∷ more)) ≡ s)
unfolding before_bar
before_bar-Plain [] more h = (refl, refl)
before_bar-Plain (c ∷ s) more h =
    let (alone, barred) = before_bar-Plain s more h.1 in rw (h.0.1, alone, barred) (refl, refl)

from_bytes-parts :
    (m : MasterKey)
    → length m.key ≡ 16
    → length m.salt ≡ 14
    → from_bytes (take 30 (m.key ++ m.salt)) ≡ m
unfolding from_bytes
from_bytes-parts m k s =
    let size : length (m.key ++ m.salt) ≡ 30 = omega (arith, length-append m.key m.salt, k, s) in
    let whole : take 30 (m.key ++ m.salt) ≡ m.key ++ m.salt =
      take_all 30 (m.key ++ m.salt) (omega (arith, size)) in
    let first : take 16 (m.key ++ m.salt) ≡ m.key =
      subst (λ n. take n (m.key ++ m.salt) ≡ m.key) k (take-length m.key m.salt) in
    let last : drop 16 (m.key ++ m.salt) ≡ m.salt =
      subst (λ n. drop n (m.key ++ m.salt) ≡ m.salt) k (drop-length m.key m.salt) in
    rw (whole, first, last) refl

from_sdes_text :
    (m : MasterKey) (text : List ℕ)
    → length m.key ≡ 16
    → length m.salt ≡ 14
    → All (λ b. b < 256) (m.key ++ m.salt)
    → before_bar text ≡ encode (m.key ++ m.salt)
    → from_sdes text ≡ some m
unfolding from_sdes
from_sdes_text m text k s bytes base =
    let size : length (m.key ++ m.salt) ≡ 30 = omega (arith, length-append m.key m.salt, k, s) in
    rw (base, decode-encode _ bytes, first_30, size, from_bytes-parts m k s) refl

-- A key of 16 bytes and a salt of 14 bytes are read back from their text, also with session
-- parameters after a bar.
pub from_sdes-to_sdes :
    (m : MasterKey) (more : List ℕ)
    → length m.key ≡ 16
    → length m.salt ≡ 14
    → All (λ b. b < 256) (m.key ++ m.salt)
    → (from_sdes (to_sdes m) ≡ some m) × (from_sdes (to_sdes m ++ (124 ∷ more)) ≡ some m)
unfolding to_sdes
from_sdes-to_sdes m more k s bytes =
    let size : length (m.key ++ m.salt) ≡ 30 = omega (arith, length-append m.key m.salt, k, s) in
    let plain = encode-Plain 10 (m.key ++ m.salt) size in
    let (alone, barred) = before_bar-Plain (encode (m.key ++ m.salt)) more plain in
    rw (trim_end-Plain _ plain)
      (from_sdes_text m _ k s bytes alone, from_sdes_text m _ k s bytes barred)
