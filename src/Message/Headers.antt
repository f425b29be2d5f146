-- ===== src/Message/Headers.antt =====
-- The look-up of headers in crates/sipr-net/src/message.rs.
use sipr.Common.{
  ℕ, Bool, false, ◌&&◌, ◌||◌, List, [], ◌∷◌, Option, none, some, ◌==◌, if◌then◌else◌, map, filter,
  drop, ◌^◌,
}
use sipr.Common.Texts.{codes, trim, lower, equals, eq_ignore_ascii_case, before, split, from, has}
use sipr.Message.{Inbound, request, response, lines, words, parse_number}

-- The compact form of a name.
unfoldable pub compact_of : List ℕ → Option ℕ
compact_of name =
    let n = map lower name in
    if equals n (codes "call-id")
    then some b'i'
    else if equals n (codes "from")
    then some b'f'
    else if equals n (codes "to")
    then some b't'
    else if equals n (codes "via")
    then some b'v'
    else if equals n (codes "contact")
    then some b'm'
    else if equals n (codes "content-length")
    then some b'l'
    else if equals n (codes "content-type")
    then some b'c'
    else if equals n (codes "subject")
    then some b's'
    else if equals n (codes "supported")
    then some b'k'
    else if equals n (codes "content-encoding")
    then some b'e'
    else none

abbrev pub is_compact : Option ℕ → List ℕ → Bool
is_compact (some c) (d ∷ []) = lower d == lower c
is_compact _ _ = false

-- Does a name in a message, trimmed, mean the header that is asked for?
unfoldable pub names : List ℕ → List ℕ → Bool
unfolding compact_of eq_ignore_ascii_case
names asked n = eq_ignore_ascii_case n (map lower asked) || is_compact (compact_of asked) n

unfoldable pub line_matches : List ℕ → List ℕ → Bool
unfolding names trim
line_matches asked line = has b':' line && names asked (trim (before b':' line))

unfoldable pub header_lines : Inbound → List ℕ → List (List ℕ)
unfolding lines line_matches
header_lines m name = filter (line_matches name) (lines m.headers)

-- The text behind the first `:` of a line that has one.
abbrev pub value_of : List ℕ → List ℕ
value_of line = trim (drop 1 (from b':' line))

unfoldable pub header_values : Inbound → List ℕ → List (List ℕ)
unfolding header_lines trim
header_values m name = map value_of (header_lines m name)

abbrev pub first {ℓ} : {A : Type ℓ} → List A → Option A
first [] = none
first (x ∷ xs) = some x

unfoldable pub header : Inbound → List ℕ → Option (List ℕ)
unfolding header_values
header m name = first (header_values m name)

unfoldable pub call_id : Inbound → Option (List ℕ)
unfolding header
call_id m = header m (codes "Call-ID")

-- `u32` and the next word.
unfoldable pub cseq_of : List (List ℕ) → Option (ℕ × List ℕ)
unfolding parse_number
cseq_of (number ∷ method ∷ rest) = elim (parse_number (2 ^ 32) number) [
  | none ↦ none
  | some n ↦ some (n, method)
]
cseq_of _ = none

unfoldable pub cseq : Inbound → Option (ℕ × List ℕ)
unfolding header cseq_of words
cseq m = elim (header m (codes "CSeq")) [ none ↦ none | some v ↦ cseq_of (words v) ]

-- The text up to a comma or a space.
abbrev pub up_to_break : List ℕ → List ℕ
up_to_break [] = []
up_to_break (c ∷ s) = let rest = up_to_break s in if c == b',' || c == b' ' then [] else c ∷ rest

unfoldable pub find_param : List ℕ → List (List ℕ) → Option (List ℕ)
unfolding trim eq_ignore_ascii_case
find_param name [] = none
find_param name (part ∷ parts) =
    let found = has b'=' part && eq_ignore_ascii_case (trim (before b'=' part)) name in
    let later = find_param name parts in
    if found then some (up_to_break (trim (drop 1 (from b'=' part)))) else later

unfoldable pub param_value : List ℕ → List ℕ → Option (List ℕ)
unfolding find_param split
param_value value name = find_param name (drop 1 (split b';' value))

-- A parameter of the first header of a name.
unfoldable pub header_param : Inbound → List ℕ → List ℕ → Option (List ℕ)
unfolding header param_value
header_param m name param = elim (header m name) [ none ↦ none | some v ↦ param_value v param ]

abbrev pub top_via_branch : Inbound → Option (List ℕ)
top_via_branch m = header_param m (codes "Via") (codes "branch")

abbrev pub from_tag : Inbound → Option (List ℕ)
from_tag m = header_param m (codes "From") (codes "tag")

abbrev pub to_tag : Inbound → Option (List ℕ)
to_tag m = header_param m (codes "To") (codes "tag")

unfoldable pub status_code : Inbound → Option ℕ
status_code m = elim m.kind [ response code reason ↦ some code | request method ↦ none ]

unfoldable pub method : Inbound → Option (List ℕ)
method m = elim m.kind [ response code reason ↦ none | request name ↦ some name ]
