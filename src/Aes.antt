-- ===== src/Aes.antt =====
-- crates/sipr-auth/src/aes.rs: AES-128 of one block. Bytes are numbers, the state a list of 16.
mod Runs
pub mod Shape
use Prim.Native.Nat.{bit_xor}
use sipr.Common.{
  ℕ, zero, suc, ◌+◌, ◌-◌, ◌*◌, ◌/◌, ◌%◌, List, [], ◌∷◌, ◌++◌, map, length, take, drop, get_or,
  tabulate, leb, ◌==◌, if◌then◌else◌,
}
use sipr.Common.Bits.{xor_onto}

abbrev pub sbox : List ℕ
sbox =
    99 ∷ 124 ∷ 119 ∷ 123 ∷ 242 ∷ 107 ∷ 111 ∷ 197 ∷ 48 ∷ 1 ∷ 103 ∷ 43 ∷ 254 ∷ 215 ∷ 171 ∷ 118 ∷ 202
    ∷ 130 ∷ 201 ∷ 125 ∷ 250 ∷ 89 ∷ 71 ∷ 240 ∷ 173 ∷ 212 ∷ 162 ∷ 175 ∷ 156 ∷ 164 ∷ 114 ∷ 192 ∷ 183
    ∷ 253 ∷ 147 ∷ 38 ∷ 54 ∷ 63 ∷ 247 ∷ 204 ∷ 52 ∷ 165 ∷ 229 ∷ 241 ∷ 113 ∷ 216 ∷ 49 ∷ 21 ∷ 4 ∷ 199
    ∷ 35 ∷ 195 ∷ 24 ∷ 150 ∷ 5 ∷ 154 ∷ 7 ∷ 18 ∷ 128 ∷ 226 ∷ 235 ∷ 39 ∷ 178 ∷ 117 ∷ 9 ∷ 131 ∷ 44 ∷ 26
    ∷ 27 ∷ 110 ∷ 90 ∷ 160 ∷ 82 ∷ 59 ∷ 214 ∷ 179 ∷ 41 ∷ 227 ∷ 47 ∷ 132 ∷ 83 ∷ 209 ∷ 0 ∷ 237 ∷ 32
    ∷ 252 ∷ 177 ∷ 91 ∷ 106 ∷ 203 ∷ 190 ∷ 57 ∷ 74 ∷ 76 ∷ 88 ∷ 207 ∷ 208 ∷ 239 ∷ 170 ∷ 251 ∷ 67 ∷ 77
    ∷ 51 ∷ 133 ∷ 69 ∷ 249 ∷ 2 ∷ 127 ∷ 80 ∷ 60 ∷ 159 ∷ 168 ∷ 81 ∷ 163 ∷ 64 ∷ 143 ∷ 146 ∷ 157 ∷ 56
    ∷ 245 ∷ 188 ∷ 182 ∷ 218 ∷ 33 ∷ 16 ∷ 255 ∷ 243 ∷ 210 ∷ 205 ∷ 12 ∷ 19 ∷ 236 ∷ 95 ∷ 151 ∷ 68 ∷ 23
    ∷ 196 ∷ 167 ∷ 126 ∷ 61 ∷ 100 ∷ 93 ∷ 25 ∷ 115 ∷ 96 ∷ 129 ∷ 79 ∷ 220 ∷ 34 ∷ 42 ∷ 144 ∷ 136 ∷ 70
    ∷ 238 ∷ 184 ∷ 20 ∷ 222 ∷ 94 ∷ 11 ∷ 219 ∷ 224 ∷ 50 ∷ 58 ∷ 10 ∷ 73 ∷ 6 ∷ 36 ∷ 92 ∷ 194 ∷ 211 ∷ 172
    ∷ 98 ∷ 145 ∷ 149 ∷ 228 ∷ 121 ∷ 231 ∷ 200 ∷ 55 ∷ 109 ∷ 141 ∷ 213 ∷ 78 ∷ 169 ∷ 108 ∷ 86 ∷ 244
    ∷ 234 ∷ 101 ∷ 122 ∷ 174 ∷ 8 ∷ 186 ∷ 120 ∷ 37 ∷ 46 ∷ 28 ∷ 166 ∷ 180 ∷ 198 ∷ 232 ∷ 221 ∷ 116 ∷ 31
    ∷ 75 ∷ 189 ∷ 139 ∷ 138 ∷ 112 ∷ 62 ∷ 181 ∷ 102 ∷ 72 ∷ 3 ∷ 246 ∷ 14 ∷ 97 ∷ 53 ∷ 87 ∷ 185 ∷ 134
    ∷ 193 ∷ 29 ∷ 158 ∷ 225 ∷ 248 ∷ 152 ∷ 17 ∷ 105 ∷ 217 ∷ 142 ∷ 148 ∷ 155 ∷ 30 ∷ 135 ∷ 233 ∷ 206
    ∷ 85 ∷ 40 ∷ 223 ∷ 140 ∷ 161 ∷ 137 ∷ 13 ∷ 191 ∷ 230 ∷ 66 ∷ 104 ∷ 65 ∷ 153 ∷ 45 ∷ 15 ∷ 176 ∷ 84
    ∷ 187 ∷ 22 ∷ []

-- `SBOX[b as usize]`
unfoldable pub substitute : ℕ → ℕ
substitute b = get_or sbox b 0

abbrev pub rounds : ℕ
rounds = 10

-- The bit of 0x80 is set in the bytes from 128 on.
unfoldable pub xtime : ℕ → ℕ
xtime b = bit_xor (b * 2 % 256) (if leb 128 b then 27 else 0)

-- The word that a word of a new round key is added to.
unfoldable pub key_word : List (List ℕ) → ℕ → List ℕ
unfolding substitute
key_word w rcon =
    let i = length w in
    let t = get_or w (i - 1) [] in
    if i % 4 == 0
    then bit_xor (substitute (get_or t 1 0)) rcon
      ∷ substitute (get_or t 2 0)
      ∷ substitute (get_or t 3 0)
      ∷ substitute (get_or t 0 0)
      ∷ []
    else t

-- `n` more words.
unfoldable pub expand_loop : ℕ → List (List ℕ) → ℕ → List (List ℕ)
unfolding key_word xtime xor_onto
expand_loop zero w rcon = w
expand_loop (suc n) w rcon =
    expand_loop n (w ++ (xor_onto (get_or w (length w - 4) []) (key_word w rcon) ∷ []))
      (if length w % 4 == 0 then xtime rcon else rcon)

-- Words of a key, and the round keys of four words each.
unfoldable pub words_of : ℕ → List ℕ → List (List ℕ)
words_of zero key = []
words_of (suc n) key = take 4 key ∷ words_of n (drop 4 key)

unfoldable pub round_key : List (List ℕ) → ℕ → List ℕ
round_key w r =
    get_or w (4 * r) []
    ++ (get_or w (4 * r + 1) [] ++ (get_or w (4 * r + 2) [] ++ get_or w (4 * r + 3) []))

unfoldable pub expand_key : List ℕ → List (List ℕ)
unfolding expand_loop words_of round_key
expand_key key = tabulate 0 (rounds + 1) (round_key (expand_loop 40 (words_of 4 key) 1))

unfoldable pub add_round_key : List ℕ → List ℕ → List ℕ
unfolding xor_onto
add_round_key state rk = xor_onto state rk

unfoldable pub sub_bytes : List ℕ → List ℕ
unfolding substitute
sub_bytes state = map substitute state

-- Byte `i` is row `i % 4` of column `i / 4`.
unfoldable pub shift_rows : List ℕ → List ℕ
shift_rows s = tabulate 0 16 (λ i. get_or s (4 * ((i / 4 + i % 4) % 4) + i % 4) 0)

unfoldable pub mix_byte : List ℕ → ℕ → ℕ
unfolding xtime
mix_byte s i =
    let col = λ (r : ℕ). get_or s (4 * (i / 4) + r) 0 in
    let all = bit_xor (bit_xor (bit_xor (col 0) (col 1)) (col 2)) (col 3) in
    let a = col (i % 4) in
    let b = col ((i % 4 + 1) % 4) in bit_xor (bit_xor a all) (xtime (bit_xor a b))

unfoldable pub mix_columns : List ℕ → List ℕ
unfolding mix_byte
mix_columns s = tabulate 0 16 (mix_byte s)

-- The rounds under the keys 1 to 9.
unfoldable pub middle_rounds : List (List ℕ) → List ℕ → List ℕ
unfolding sub_bytes shift_rows mix_columns add_round_key
middle_rounds [] state = state
middle_rounds (rk ∷ rks) state =
    middle_rounds rks (add_round_key (mix_columns (shift_rows (sub_bytes state))) rk)

unfoldable pub encrypt_block : List ℕ → List ℕ → List ℕ
unfolding expand_key middle_rounds add_round_key sub_bytes shift_rows
encrypt_block key block =
    let round_keys = expand_key key in
    let state =
      middle_rounds (drop 1 (take rounds round_keys))
        (add_round_key block (get_or round_keys 0 [])) in
    add_round_key (shift_rows (sub_bytes state)) (get_or round_keys rounds [])
