-- ===== src/Framer.antt =====
-- crates/sipr-net/src/tcp.rs: `TcpFramer`, which cuts a byte stream into SIP messages.
-- A byte is a number; usize has 64 bits, and its sums wrap as they do in a release build.
pub mod Chunks
pub mod Delivery
mod Runs
use sipr.Common.{
  ℕ, zero, suc, ◌+◌, ◌-◌, ◌*◌, ◌%◌, ◌^◌, Bool, true, false, not, ◌&&◌, ◌||◌, List, [], ◌∷◌, ◌++◌,
  Option, none, some, ltb, leb, ◌==◌, if◌then◌else◌, length, take, drop,
}
use mathlib.Core.List.{reverse}
use mathlib.Core.Option

abbrev pub cr : ℕ
cr = 13

abbrev pub lf : ℕ
lf = 10

-- `haystack.starts_with(needle)`
unfoldable pub starts_with : List ℕ → List ℕ → Bool
starts_with [] ys = true
starts_with (x ∷ xs) [] = false
starts_with (x ∷ xs) (y ∷ ys) = x == y && starts_with xs ys

-- The window of the needle's length that equals it first.
unfoldable pub position_of : List ℕ → List ℕ → Option ℕ
unfolding starts_with
position_of needle [] = none
position_of needle (y ∷ ys) =
    if starts_with needle (y ∷ ys) then some 0 else Option.map suc (position_of needle ys)

abbrev pub is_empty : List ℕ → Bool
is_empty [] = true
is_empty (x ∷ xs) = false

unfoldable pub find_subslice : List ℕ → List ℕ → Option ℕ
unfolding position_of
find_subslice haystack needle =
    if is_empty needle || ltb (length haystack) (length needle)
    then none
    else position_of needle haystack

-- `u8::is_ascii_whitespace`
unfoldable pub is_ascii_whitespace : ℕ → Bool
is_ascii_whitespace b = b == 32 || b == 9 || b == 10 || b == 12 || b == 13

unfoldable pub trim_front : List ℕ → List ℕ
unfolding is_ascii_whitespace
trim_front [] = []
trim_front (first ∷ rest) =
    let go = trim_front rest in if is_ascii_whitespace first then go else first ∷ rest

-- The two loops of `trim_ascii`; the second runs from the end.
unfoldable pub trim_ascii : List ℕ → List ℕ
unfolding trim_front
trim_ascii b = reverse (trim_front (reverse (trim_front b)))

unfoldable pub to_ascii_lowercase : ℕ → ℕ
to_ascii_lowercase b = if leb 65 b && leb b 90 then b + 32 else b

unfoldable pub eq_ignore_ascii_case : List ℕ → List ℕ → Bool
unfolding to_ascii_lowercase
eq_ignore_ascii_case [] [] = true
eq_ignore_ascii_case [] (y ∷ ys) = false
eq_ignore_ascii_case (x ∷ xs) [] = false
eq_ignore_ascii_case (x ∷ xs) (y ∷ ys) =
    to_ascii_lowercase x == to_ascii_lowercase y && eq_ignore_ascii_case xs ys

-- The bytes of the white-space character (by `char::is_whitespace`, in UTF-8) that the text starts
-- with, 0 if it starts with another.
unfoldable pub space_len : List ℕ → ℕ
space_len [] = 0
space_len (a ∷ []) = if leb 9 a && leb a 13 || a == 32 then 1 else 0
space_len (a ∷ b ∷ []) =
    if leb 9 a && leb a 13 || a == 32
    then 1
    else if a == 0xc2 && (b == 0x85 || b == 0xa0)
    then 2
    else 0
space_len (a ∷ b ∷ c ∷ r) =
    if leb 9 a && leb a 13 || a == 32
    then 1
    else if a == 0xc2 && (b == 0x85 || b == 0xa0)
    then 2
    else if a == 0xe1 && b == 0x9a && c == 0x80
        || a == 0xe2
          && b == 0x80
          && (leb 0x80 c && leb c 0x8a || c == 0xa8 || c == 0xa9 || c == 0xaf)
        || a == 0xe2 && b == 0x81 && c == 0x9f
        || a == 0xe3 && b == 0x80 && c == 0x80
    then 3
    else 0

-- `str::trim_start`; each round drops a character, so the length is fuel enough.
unfoldable pub skip_spaces : ℕ → List ℕ → List ℕ
unfolding space_len
skip_spaces zero s = s
skip_spaces (suc f) s =
    let rest = skip_spaces f (drop (space_len s) s) in if space_len s == 0 then s else rest

-- The digits of a number and what white space follows them; `none` on anything else, no digit at
-- all, or a value that usize does not hold.
unfoldable pub digits_then_spaces : List ℕ → Bool → ℕ → Option ℕ
unfolding skip_spaces
digits_then_spaces [] seen acc = if seen then some acc else none
digits_then_spaces (c ∷ s) seen acc =
    let value = acc * 10 + (c - 48) in
    let rest = digits_then_spaces s true value in
    if leb 48 c && leb c 57
    then (if ltb value (2 ^ 64) then rest else none)
    else if seen && is_empty (skip_spaces (length (c ∷ s)) (c ∷ s))
    then some acc
    else none

unfoldable pub after_sign : List ℕ → Option ℕ
unfolding digits_then_spaces
after_sign [] = none
after_sign (c ∷ s) =
    if c == 43 then digits_then_spaces s false 0 else digits_then_spaces (c ∷ s) false 0

-- `from_utf8(value)` and then `s.trim().parse::<usize>()`, on bytes: white space, a sign `+` at most,
-- digits, white space. What has this shape is UTF-8.
unfoldable pub parse_usize : List ℕ → Option ℕ
unfolding after_sign
parse_usize value = after_sign (skip_spaces (length value) value)

-- `head.split(|&b| b == sep)`: the piece that is open, and the pieces after it.
unfoldable pub split_at_byte : ℕ → List ℕ → List ℕ × List (List ℕ)
split_at_byte sep [] = ([], [])
split_at_byte sep (b ∷ s) =
    let (piece, pieces) = split_at_byte sep s in
    if b == sep then ([], piece ∷ pieces) else (b ∷ piece, pieces)

-- `line.strip_suffix(b"\r").unwrap_or(line)`
unfoldable pub strip_cr : List ℕ → List ℕ
strip_cr [] = []
strip_cr (b ∷ []) = if b == cr then [] else b ∷ []
strip_cr (b ∷ c ∷ s) = b ∷ strip_cr (c ∷ s)

-- The bytes of `content-length` and of `l`.
abbrev pub content_length_name : List ℕ
content_length_name =
    99 ∷ 111 ∷ 110 ∷ 116 ∷ 101 ∷ 110 ∷ 116 ∷ 45 ∷ 108 ∷ 101 ∷ 110 ∷ 103 ∷ 116 ∷ 104 ∷ []

-- What one line says of the length, if it does.
unfoldable pub line_length : List ℕ → Option ℕ
unfolding position_of trim_ascii eq_ignore_ascii_case parse_usize
line_length line = elim (position_of (58 ∷ []) line) [
  | none ↦ none
  | some colon ↦
      let name = trim_ascii (take colon line) in
      if eq_ignore_ascii_case name content_length_name || eq_ignore_ascii_case name (108 ∷ [])
      then parse_usize (trim_ascii (drop (suc colon) line))
      else none
]

-- The loop over the lines: the first length that is read, or 0.
unfoldable pub content_length_loop : List (List ℕ) → ℕ
unfolding strip_cr line_length
content_length_loop [] = 0
content_length_loop (line ∷ lines) = elim (line_length (strip_cr line)) [
  | none ↦ content_length_loop lines
  | some n ↦ n
]

unfoldable pub content_length : List ℕ → ℕ
unfolding split_at_byte content_length_loop
content_length head =
    let (piece, pieces) = split_at_byte lf head in content_length_loop (piece ∷ pieces)

-- The loop that drops leading CRLFs.
unfoldable pub strip_crlf : List ℕ → List ℕ
strip_crlf [] = []
strip_crlf (a ∷ []) = a ∷ []
strip_crlf (a ∷ b ∷ r) = let rest = strip_crlf r in if a == cr && b == lf then rest else a ∷ b ∷ r

abbrev pub blank_line : List ℕ
blank_line = cr ∷ lf ∷ cr ∷ lf ∷ []

-- `push`: the buffer is the whole state.
unfoldable pub push : List ℕ → List ℕ → List ℕ
push buf input = buf ++ input

-- The header block is complete and ends at `sep`.
unfoldable pub cut : List ℕ → ℕ → List ℕ × Option (List ℕ)
cut buf sep =
    let total = (sep + 4 + content_length (take sep buf)) % 2 ^ 64 in
    if ltb (length buf) total then (buf, none) else (drop total buf, some (take total buf))

-- What follows the loop over the CRLFs.
unfoldable pub next_in : List ℕ → List ℕ × Option (List ℕ)
next_in buf =
    if is_empty buf
    then (buf, none)
    else elim (find_subslice buf blank_line) [ none ↦ (buf, none) | some sep ↦ cut buf sep ]

-- The new buffer, and the message if there is one.
unfoldable pub next_message : List ℕ → List ℕ × Option (List ℕ)
next_message buf = next_in (strip_crlf buf)
