-- ===== src/Hash/Runs.antt =====
-- Vectors of RFC 1321, FIPS 180-4 and RFC 2202, and the theorems at concrete inputs.
use sipr.Common.{ℕ, List, [], ◌∷◌, ◌≡◌, refl}
use sipr.Hash.{sha1, hmac_sha1}
use sipr.Hash.Md5.{md5}
use sipr.Hash.Sha256.{sha256}

abbrev abc : List ℕ
abc = 97 ∷ 98 ∷ 99 ∷ []

-- The vectors of RFC 1321, FIPS 180-4 and RFC 2202 (case 2).
sha1-abc :
    sha1 abc
    ≡ 169 ∷ 153 ∷ 62 ∷ 54 ∷ 71 ∷ 6 ∷ 129 ∷ 106 ∷ 186 ∷ 62 ∷ 37 ∷ 113 ∷ 120 ∷ 80 ∷ 194 ∷ 108 ∷ 156
      ∷ 208 ∷ 216 ∷ 157 ∷ []
unfolding sha1
sha1-abc = refl

md5-abc :
    md5 abc
    ≡ 144 ∷ 1 ∷ 80 ∷ 152 ∷ 60 ∷ 210 ∷ 79 ∷ 176 ∷ 214 ∷ 150 ∷ 63 ∷ 125 ∷ 40 ∷ 225 ∷ 127 ∷ 114 ∷ []
unfolding md5
md5-abc = refl

sha256-abc :
    sha256 abc
    ≡ 186 ∷ 120 ∷ 22 ∷ 191 ∷ 143 ∷ 1 ∷ 207 ∷ 234 ∷ 65 ∷ 65 ∷ 64 ∷ 222 ∷ 93 ∷ 174 ∷ 34 ∷ 35 ∷ 176 ∷ 3
      ∷ 97 ∷ 163 ∷ 150 ∷ 23 ∷ 122 ∷ 156 ∷ 180 ∷ 16 ∷ 255 ∷ 97 ∷ 242 ∷ 0 ∷ 21 ∷ 173 ∷ []
unfolding sha256
sha256-abc = refl

hmac_jefe :
    hmac_sha1 (74 ∷ 101 ∷ 102 ∷ 101 ∷ []) (
      119 ∷ 104 ∷ 97 ∷ 116 ∷ 32 ∷ 100 ∷ 111 ∷ 32 ∷ 121 ∷ 97 ∷ 32 ∷ 119 ∷ 97 ∷ 110 ∷ 116 ∷ 32 ∷ 102
      ∷ 111 ∷ 114 ∷ 32 ∷ 110 ∷ 111 ∷ 116 ∷ 104 ∷ 105 ∷ 110 ∷ 103 ∷ 63 ∷ [])
    ≡ 239 ∷ 252 ∷ 223 ∷ 106 ∷ 229 ∷ 235 ∷ 47 ∷ 162 ∷ 210 ∷ 116 ∷ 22 ∷ 213 ∷ 241 ∷ 132 ∷ 223 ∷ 156
      ∷ 37 ∷ 154 ∷ 124 ∷ 121 ∷ []
unfolding hmac_sha1
hmac_jefe = refl
