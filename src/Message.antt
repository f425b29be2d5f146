-- ===== src/Message.antt =====
-- crates/sipr-net/src/message.rs: messages that come in, and the look-up of their headers. The data is
-- bytes; the start line and the headers are texts of code points.
pub mod Headers
pub mod Lines
pub mod Written
pub mod Reads
pub mod Tags
mod Runs
use sipr.Common.{
  ℕ, zero, suc, ◌+◌, ◌-◌, ◌*◌, Bool, true, false, ◌&&◌, ◌||◌, List, [], ◌∷◌, ◌++◌, Option, none,
  some, ltb, leb, ◌==◌, if◌then◌else◌, length, take, drop,
}
use sipr.Common.Texts.{
  codes, trim_start, trim_end, starts_with, equals, words_loop, is_empty, before, from, has,
}

pub data MsgKind : Type 0 where
  request : List ℕ → MsgKind
  response : ℕ → List ℕ → MsgKind

pub data ParseError : Type 0 where
  empty not_sip : ParseError

pub data Result {ℓ} (A : Type ℓ) : Type ℓ where
  ok : A → Result A
  err : ParseError → Result A

pub record Inbound : Type 0 where
  pub kind : MsgKind
  pub start : List ℕ
  pub headers : List ℕ
  pub body : List ℕ

-- `u8::is_ascii_whitespace`
abbrev pub is_ascii_whitespace : ℕ → Bool
is_ascii_whitespace b = b == 9 || b == 10 || b == 12 || b == 13 || b == 32

unfoldable pub all_blank : List ℕ → Bool
all_blank [] = true
all_blank (b ∷ bytes) = is_ascii_whitespace b && all_blank bytes

-- `find`, for a needle that is not empty: the part before it, and the part behind it.
unfoldable pub cut_at : List ℕ → List ℕ → Option (List ℕ × List ℕ)
cut_at needle [] = none
cut_at needle (b ∷ bytes) =
    let later = cut_at needle bytes in
    if starts_with (b ∷ bytes) needle
    then some ([], drop (length needle) (b ∷ bytes))
    else elim later [ none ↦ none | some p ↦ some (b ∷ p.0, p.1) ]

unfoldable pub split_head_body : List ℕ → List ℕ × List ℕ
unfolding cut_at
split_head_body bytes = elim (cut_at (13 ∷ 10 ∷ 13 ∷ 10 ∷ []) bytes) [
  | some p ↦ p
  | none ↦ elim (cut_at (10 ∷ 10 ∷ []) bytes) [ some p ↦ p | none ↦ (bytes, []) ]
]

-- `str::lines`: a line ends with LF or CR LF, and what stands behind the last one is a line unless it
-- is empty.
unfoldable pub lines : List ℕ → List (List ℕ)
lines [] = []
lines (c ∷ s) =
    let rest = lines s in
    if c == 10
    then [] ∷ rest
    else if c == 13 && starts_with s (10 ∷ [])
    then rest
    else elim rest [ [] ↦ (c ∷ []) ∷ [] | line ∷ more ↦ (c ∷ line) ∷ more ]

-- `trim_end_matches` of one character, or of two.
unfoldable pub trim_end_matches : (ℕ → Bool) → List ℕ → List ℕ
trim_end_matches p [] = []
trim_end_matches p (c ∷ s) =
    let rest = trim_end_matches p s in if is_empty rest && p c then [] else c ∷ rest

abbrev pub is_break : ℕ → Bool
is_break c = c == 10 || c == 13

abbrev pub is_cr : ℕ → Bool
is_cr c = c == 13

abbrev pub is_continuation : List ℕ → Bool
is_continuation line = starts_with line (codes " ") || starts_with line (codes "\t")

-- One more line of the header section; a folded one goes behind the last.
unfoldable pub push_line : List ℕ → List ℕ → List ℕ
unfolding trim_end_matches trim_start
push_line headers line =
    if is_continuation line
    then trim_end_matches is_break headers ++ (codes " " ++ (trim_start line ++ codes "\n"))
    else headers ++ (trim_end_matches is_cr line ++ codes "\n")

unfoldable pub push_lines : List ℕ → List (List ℕ) → List ℕ
unfolding push_line
push_lines headers [] = headers
push_lines headers (line ∷ more) = push_lines (push_line headers line) more

-- `parse` of an unsigned number below a limit: a `+` may stand before the digits.
unfoldable pub digits_loop : ℕ → ℕ → List ℕ → Option ℕ
digits_loop limit n [] = some n
digits_loop limit n (c ∷ s) =
    let m = n * 10 + (c - 48) in
    let rest = digits_loop limit m s in if leb 48 c && leb c 57 && ltb m limit then rest else none

abbrev pub digits : ℕ → List ℕ → Option ℕ
digits limit [] = none
digits limit (c ∷ s) = digits_loop limit 0 (c ∷ s)

unfoldable pub parse_number : ℕ → List ℕ → Option ℕ
unfolding digits_loop
parse_number limit [] = none
parse_number limit (c ∷ s) = if c == b'+' then digits limit s else digits limit (c ∷ s)

-- `split_ascii_whitespace`
unfoldable pub words : List ℕ → List (List ℕ)
unfolding words_loop
words s = words_loop is_ascii_whitespace [] s

abbrev pub is_alphanumeric : ℕ → Bool
is_alphanumeric c = (leb 48 c && leb c 57) || (leb 65 c && leb c 90) || (leb 97 c && leb c 122)

abbrev pub all_alphanumeric : List ℕ → Bool
all_alphanumeric [] = true
all_alphanumeric (c ∷ s) = is_alphanumeric c && all_alphanumeric s

unfoldable pub request_line : List (List ℕ) → Option MsgKind
request_line (method ∷ uri ∷ version ∷ []) =
    if equals version (codes "SIP/2.0") && all_alphanumeric method
    then some (request method)
    else none
request_line _ = none

-- The status line behind `SIP/2.0 `.
unfoldable pub status_line : List ℕ → Option MsgKind
unfolding parse_number
status_line rest = elim (parse_number 65536 (before 32 rest)) [
  | none ↦ none
  | some code ↦
      if leb 100 code && leb code 699 then some (response code (drop 1 (from 32 rest))) else none
]

unfoldable pub parse_start_line : List ℕ → Option MsgKind
unfolding status_line request_line words
parse_start_line line =
    if starts_with line (codes "SIP/2.0 ")
    then status_line (drop 8 line)
    else request_line (words line)

abbrev pub first_line : List (List ℕ) → List ℕ
first_line [] = []
first_line (line ∷ more) = line

-- `String::from_utf8_lossy` is a parameter.
module _ (from_utf8_lossy : List ℕ → List ℕ) where
  unfoldable pub parse : List ℕ → Result Inbound
  unfolding all_blank split_head_body lines push_lines parse_start_line trim_end
  parse bytes =
      let (head, body) = split_head_body bytes in
      let all = lines (from_utf8_lossy head) in
      let start = trim_end (first_line all) in
      if all_blank bytes then err empty else elim (parse_start_line start) [
        | none ↦ err not_sip
        | some kind ↦
            ok record {
              kind = kind;
              start = start;
              headers = push_lines [] (drop 1 all);
              body = body;
            }
      ]
