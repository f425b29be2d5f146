-- ===== src/Auth/Aka.antt =====
-- `aka_challenge_response` of crates/sipr-auth/src/lib.rs: Milenage over the nonce of a challenge.
use sipr.Common.{
  ℕ, ◌+◌, ◌*◌, Bool, false, ◌||◌, List, [], ◌∷◌, ◌++◌, Option, none, some, ltb, leb, if◌then◌else◌,
  length, take, drop,
}
use sipr.Common.Texts.{utf8, equals}
use sipr.Base64.{decode}
use sipr.Milenage.{AkaVector, xor_into, f1, f1_star, f2345, f5_star}
use sipr.Auth.{AkaKeys, aka_nonce_malformed, aka_mac_mismatch, Result, ok, err, ◌>>=◌, or_err}

pub record AkaResult : Type 0 where
  pub vector : AkaVector
  pub sqn : List ℕ
  pub amf : List ℕ
  pub auts : Option (List ℕ)

-- The numbers stay below 2 ^ 48.
unfoldable pub sqn_loop : ℕ → List ℕ → ℕ
sqn_loop acc [] = acc
sqn_loop acc (b ∷ bytes) = sqn_loop (acc * 256 + b) bytes

unfoldable pub sqn_value : List ℕ → ℕ
unfolding sqn_loop
sqn_value sqn = sqn_loop 0 sqn

abbrev pub unwrap_or : Option (List ℕ) → List ℕ → List ℕ
unwrap_or none d = d
unwrap_or (some a) d = a

-- Is the sequence number no greater than the highest that was accepted?
unfoldable pub out_of_range : Option (List ℕ) → List ℕ → Bool
unfolding sqn_value
out_of_range none sqn = false
out_of_range (some ms) sqn = leb (sqn_value sqn) (sqn_value ms)

unfoldable pub auts_of : AkaKeys → List ℕ → List ℕ → Option (List ℕ)
unfolding out_of_range
auts_of keys rand sqn =
    let ms = unwrap_or keys.sqn_ms sqn in
    let ak_star = f5_star keys.k keys.opc rand in
    let mac_s = f1_star keys.k keys.opc rand ms (0 ∷ 0 ∷ []) in
    if keys.force_resync || out_of_range keys.sqn_ms sqn
    then some (xor_into ms ak_star ++ mac_s)
    else none

-- From the bytes of the nonce on.
unfoldable pub aka_response : AkaKeys → List ℕ → Result AkaResult
unfolding auts_of
aka_response keys bytes =
    let rand = take 16 bytes in
    let sqn_ak = take 6 (drop 16 bytes) in
    let amf = take 2 (drop 22 bytes) in
    let mac = take 8 (drop 24 bytes) in
    let vector = f2345 keys.k keys.opc rand in
    let sqn = xor_into sqn_ak vector.ak in
    let xmac = f1 keys.k keys.opc rand sqn (unwrap_or keys.amf amf) in
    if ltb (length bytes) 32
    then err aka_nonce_malformed
    else if equals xmac mac
    then ok record { vector = vector; sqn = sqn; amf = amf; auts = auts_of keys rand sqn }
    else err aka_mac_mismatch

unfoldable pub aka_challenge_response : List ℕ → AkaKeys → Result AkaResult
unfolding aka_response
aka_challenge_response nonce keys =
    or_err (decode (utf8 nonce)) aka_nonce_malformed >>= aka_response keys
