-- ===== src/Base64.antt =====
-- crates/sipr-auth/src/base64.rs: base64 of bytes. Texts are their bytes; u32 arithmetic is modulo
-- 2 ^ 32. `x << 6 | v` with `v` below 64 is a sum, and so is the joining of three bytes.
pub mod RoundTrip
pub mod Tolerance
mod Runs
use sipr.Common.{
  ℕ, ◌+◌, ◌-◌, ◌*◌, ◌/◌, ◌%◌, ◌^◌, Bool, ◌&&◌, ◌||◌, List, [], ◌∷◌, ◌++◌, Option, none, some, ltb,
  leb, ◌==◌, if◌then◌else◌, get_or,
}

-- What a byte of the text means: a sextet, the end (`=`), nothing (white space), or an error.
pub data Symbol : Type 0 where
  sextet : ℕ → Symbol
  stop skip bad : Symbol

unfoldable pub classify : ℕ → Symbol
classify c =
    if leb 65 c && leb c 90
    then sextet (c - 65)
    else if leb 97 c && leb c 122
    then sextet (c - 97 + 26)
    else if leb 48 c && leb c 57
    then sextet (c - 48 + 52)
    else if c == 43 || c == 45
    then sextet 62
    else if c == 47 || c == 95
    then sextet 63
    else if c == 61
    then stop
    else if c == 32 || c == 9 || c == 13 || c == 10
    then skip
    else bad

-- `acc << 6 | v`
abbrev pub shift_in : ℕ → ℕ → ℕ
shift_in acc v = acc * 64 % 2 ^ 32 + v

-- A single trailing sextet cannot encode a byte.
unfoldable pub finish : ℕ → List ℕ → Option (List ℕ)
finish sextets out = if sextets % 4 == 1 then none else some out

unfoldable pub decode_loop : List ℕ → ℕ → ℕ → ℕ → List ℕ → Option (List ℕ)
unfolding finish
decode_loop [] acc bits sextets out = finish sextets out
decode_loop (c ∷ s) acc bits sextets out = elim (classify c) [
  | sextet v ↦
      decode_loop s (shift_in acc v) (if leb 8 (bits + 6) then bits + 6 - 8 else bits + 6)
        (sextets + 1)
        (if leb 8 (bits + 6) then out ++ (shift_in acc v / 2 ^ (bits + 6 - 8) % 256 ∷ []) else out)
  | stop ↦ finish sextets out
  | skip ↦ decode_loop s acc bits sextets out
  | bad ↦ none
]

unfoldable pub decode : List ℕ → Option (List ℕ)
unfolding decode_loop
decode text = decode_loop text 0 0 0 []

-- The bytes of `A` to `Z`, `a` to `z`, `0` to `9`, `+` and `/`.
abbrev pub alphabet : List ℕ
alphabet =
    65 ∷ 66 ∷ 67 ∷ 68 ∷ 69 ∷ 70 ∷ 71 ∷ 72 ∷ 73 ∷ 74 ∷ 75 ∷ 76 ∷ 77 ∷ 78 ∷ 79 ∷ 80 ∷ 81 ∷ 82 ∷ 83
    ∷ 84 ∷ 85 ∷ 86 ∷ 87 ∷ 88 ∷ 89 ∷ 90 ∷ 97 ∷ 98 ∷ 99 ∷ 100 ∷ 101 ∷ 102 ∷ 103 ∷ 104 ∷ 105 ∷ 106
    ∷ 107 ∷ 108 ∷ 109 ∷ 110 ∷ 111 ∷ 112 ∷ 113 ∷ 114 ∷ 115 ∷ 116 ∷ 117 ∷ 118 ∷ 119 ∷ 120 ∷ 121 ∷ 122
    ∷ 48 ∷ 49 ∷ 50 ∷ 51 ∷ 52 ∷ 53 ∷ 54 ∷ 55 ∷ 56 ∷ 57 ∷ 43 ∷ 47 ∷ []

-- `ALPHABET[i]`; the index is below 64 wherever it is used.
unfoldable pub letter : ℕ → ℕ
letter i = get_or alphabet i 0

-- The number that a chunk of one to three bytes makes, and its sextets from the highest.
abbrev pub joined : ℕ → ℕ → ℕ → ℕ
joined a b c = a * 65536 + b * 256 + c

unfoldable pub encode : List ℕ → List ℕ
unfolding letter
encode [] = []
encode (a ∷ []) =
    let n = joined a 0 0 in letter (n / 2 ^ 18 % 64) ∷ letter (n / 2 ^ 12 % 64) ∷ 61 ∷ 61 ∷ []
encode (a ∷ b ∷ []) =
    let n = joined a b 0 in
    letter (n / 2 ^ 18 % 64) ∷ letter (n / 2 ^ 12 % 64) ∷ letter (n / 2 ^ 6 % 64) ∷ 61 ∷ []
encode (a ∷ b ∷ c ∷ rest) =
    let n = joined a b c in
    letter (n / 2 ^ 18 % 64)
    ∷ letter (n / 2 ^ 12 % 64)
    ∷ letter (n / 2 ^ 6 % 64)
    ∷ letter (n % 64)
    ∷ encode rest
