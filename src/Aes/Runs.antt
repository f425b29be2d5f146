-- ===== src/Aes/Runs.antt =====
-- The vector of FIPS 197, appendix C.1, and the theorems at concrete inputs.
use sipr.Common.{[], ◌∷◌, ◌≡◌, refl}
use sipr.Aes.{encrypt_block}

fips_197 :
    encrypt_block
      (0 ∷ 1 ∷ 2 ∷ 3 ∷ 4 ∷ 5 ∷ 6 ∷ 7 ∷ 8 ∷ 9 ∷ 10 ∷ 11 ∷ 12 ∷ 13 ∷ 14 ∷ 15 ∷ [])
      (0 ∷ 17 ∷ 34 ∷ 51 ∷ 68 ∷ 85 ∷ 102 ∷ 119 ∷ 136 ∷ 153 ∷ 170 ∷ 187 ∷ 204 ∷ 221 ∷ 238 ∷ 255 ∷ [])
    ≡ 105 ∷ 196 ∷ 224 ∷ 216 ∷ 106 ∷ 123 ∷ 4 ∷ 48 ∷ 216 ∷ 205 ∷ 183 ∷ 128 ∷ 112 ∷ 180 ∷ 197 ∷ 90 ∷ []
unfolding encrypt_block
fips_197 = refl
