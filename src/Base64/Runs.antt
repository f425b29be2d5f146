-- ===== src/Base64/Runs.antt =====
-- Vectors of RFC 4648, and the theorems at concrete inputs.
use sipr.Common.{[], ◌∷◌, none, some, ◌≡◌, refl, arith}
use sipr.Base64.{classify, decode, encode}
use sipr.Base64.RoundTrip.{decode-encode}

-- `fo` is `Zm8=`.
encode_two : encode (102 ∷ 111 ∷ []) ≡ 90 ∷ 109 ∷ 56 ∷ 61 ∷ []
unfolding encode
encode_two = refl

decode_lone : decode (90 ∷ []) ≡ none
unfolding decode classify
decode_lone = refl

decode-encode_example : decode (encode (102 ∷ 111 ∷ 255 ∷ 0 ∷ [])) ≡ some (102 ∷ 111 ∷ 255 ∷ 0 ∷ [])
decode-encode_example = decode-encode (102 ∷ 111 ∷ 255 ∷ 0 ∷ []) (omega arith)
