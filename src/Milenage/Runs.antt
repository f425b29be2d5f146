-- ===== src/Milenage/Runs.antt =====
-- The first test set of 3GPP TS 35.208, and the theorems at concrete inputs.
use sipr.Common.{ℕ, List, [], ◌∷◌, ◌≡◌, refl}
use sipr.Milenage.{opc, f1, f1_star, f2345, f5_star}

abbrev k : List ℕ
k = 70 ∷ 91 ∷ 92 ∷ 232 ∷ 177 ∷ 153 ∷ 180 ∷ 159 ∷ 170 ∷ 95 ∷ 10 ∷ 46 ∷ 226 ∷ 56 ∷ 166 ∷ 188 ∷ []

abbrev rand : List ℕ
rand = 35 ∷ 85 ∷ 60 ∷ 190 ∷ 150 ∷ 55 ∷ 168 ∷ 157 ∷ 33 ∷ 138 ∷ 230 ∷ 77 ∷ 174 ∷ 71 ∷ 191 ∷ 53 ∷ []

abbrev sqn : List ℕ
sqn = 255 ∷ 155 ∷ 180 ∷ 208 ∷ 182 ∷ 7 ∷ []

abbrev amf : List ℕ
amf = 185 ∷ 185 ∷ []

abbrev op_c : List ℕ
op_c = 205 ∷ 99 ∷ 203 ∷ 113 ∷ 149 ∷ 74 ∷ 159 ∷ 78 ∷ 72 ∷ 165 ∷ 153 ∷ 78 ∷ 55 ∷ 160 ∷ 43 ∷ 175 ∷ []

opc_set_1 :
    opc k
      (205 ∷ 194 ∷ 2 ∷ 213 ∷ 18 ∷ 62 ∷ 32 ∷ 246 ∷ 43 ∷ 109 ∷ 103 ∷ 106 ∷ 199 ∷ 44 ∷ 179 ∷ 24 ∷ [])
    ≡ op_c
unfolding opc
opc_set_1 = refl

f1_set_1 : f1 k op_c rand sqn amf ≡ 74 ∷ 159 ∷ 250 ∷ 195 ∷ 84 ∷ 223 ∷ 175 ∷ 179 ∷ []
unfolding f1
f1_set_1 = refl

f1_star_set_1 : f1_star k op_c rand sqn amf ≡ 1 ∷ 207 ∷ 175 ∷ 158 ∷ 196 ∷ 232 ∷ 113 ∷ 233 ∷ []
unfolding f1_star
f1_star_set_1 = refl

f2345_set_1 : f2345 k op_c rand ≡ record {
  res = 165 ∷ 66 ∷ 17 ∷ 213 ∷ 227 ∷ 186 ∷ 80 ∷ 191 ∷ [];
  ck =
      180 ∷ 11 ∷ 169 ∷ 163 ∷ 197 ∷ 139 ∷ 42 ∷ 5 ∷ 187 ∷ 240 ∷ 217 ∷ 135 ∷ 178 ∷ 27 ∷ 248 ∷ 203 ∷ [];
  ik = 247 ∷ 105 ∷ 188 ∷ 215 ∷ 81 ∷ 4 ∷ 70 ∷ 4 ∷ 18 ∷ 118 ∷ 114 ∷ 113 ∷ 28 ∷ 109 ∷ 52 ∷ 65 ∷ [];
  ak = 170 ∷ 104 ∷ 156 ∷ 100 ∷ 131 ∷ 112 ∷ [];
}
unfolding f2345
f2345_set_1 = refl

f5_star_set_1 : f5_star k op_c rand ≡ 69 ∷ 30 ∷ 139 ∷ 236 ∷ 164 ∷ 59 ∷ []
unfolding f5_star
f5_star_set_1 = refl
