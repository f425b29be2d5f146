-- ===== src/Common/Texts.antt =====
-- Texts as lists of code points, with what the code uses of std's strings.
use Prim.Native.Char.{code}
use Prim.Native.String.{String}
use Prim.Native.Nat.{ℕ, ◌+◌, ◌-◌, ◌/◌, ◌%◌, ◌<◌}
use mathlib.Core.Path.{◌≡◌, refl}
use mathlib.Core.Logic.{◌≢◌}
use mathlib.Core.Bool.{Bool, true, false, not, ◌&&◌, ◌||◌}
use mathlib.Core.List.{List, [], ◌∷◌, ◌++◌, append_assoc}
use native.Mathlib.Omega.{arith}
use sipr.Common.Tests.{ltb, leb, ◌==◌, if◌then◌else◌}
use sipr.Common.Lists.{All}

-- The code points of a literal.
abbrev pub codes : String → List ℕ
codes String.[] = []
codes (String.◌∷◌ c s) = code c ∷ codes s

-- The bytes of a character, and of a text: `str::as_bytes`.
unfoldable pub utf8_char : ℕ → List ℕ
utf8_char c =
    if ltb c 128
    then c ∷ []
    else if ltb c 2048
    then (192 + c / 64) ∷ (128 + c % 64) ∷ []
    else if ltb c 65536
    then (224 + c / 4096) ∷ (128 + c / 64 % 64) ∷ (128 + c % 64) ∷ []
    else (240 + c / 262144) ∷ (128 + c / 4096 % 64) ∷ (128 + c / 64 % 64) ∷ (128 + c % 64) ∷ []

unfoldable pub utf8 : List ℕ → List ℕ
unfolding utf8_char
utf8 [] = []
utf8 (c ∷ s) = utf8_char c ++ utf8 s

pub utf8-append : (s t : List ℕ) → utf8 (s ++ t) ≡ utf8 s ++ utf8 t
unfolding utf8
utf8-append [] t = refl
utf8-append (c ∷ s) t = simp (utf8-append s t, append_assoc)

pub utf8_ascii : (s : List ℕ) → All (λ c. c < 128) s → utf8 s ≡ s
unfolding utf8
utf8_ascii [] h = refl
utf8_ascii (c ∷ s) h = ground (arith, utf8_ascii s h.1)

-- `char::is_whitespace`
abbrev pub is_whitespace : ℕ → Bool
is_whitespace c =
    (leb 9 c && leb c 13)
    || c == 32
    || c == 133
    || c == 160
    || c == 5760
    || (leb 8192 c && leb c 8202)
    || c == 8232
    || c == 8233
    || c == 8239
    || c == 8287
    || c == 12288

-- `trim_start_matches`
abbrev pub trim_start_matches : (ℕ → Bool) → List ℕ → List ℕ
trim_start_matches p [] = []
trim_start_matches p (c ∷ s) = let rest = trim_start_matches p s in if p c then rest else c ∷ s

abbrev pub is_empty : List ℕ → Bool
is_empty [] = true
is_empty (c ∷ s) = false

unfoldable pub trim_start : List ℕ → List ℕ
trim_start s = trim_start_matches is_whitespace s

unfoldable pub trim_end : List ℕ → List ℕ
trim_end [] = []
trim_end (c ∷ s) =
    let rest = trim_end s in if is_empty rest && is_whitespace c then [] else c ∷ rest

unfoldable pub trim : List ℕ → List ℕ
unfolding trim_start trim_end
trim s = trim_end (trim_start s)

-- The words between the characters of a kind: the word that is being read comes first.
unfoldable pub words_loop : (ℕ → Bool) → List ℕ → List ℕ → List (List ℕ)
words_loop p word [] = if is_empty word then [] else word ∷ []
words_loop p word (c ∷ s) =
    let rest = words_loop p (if p c then [] else word ++ (c ∷ [])) s in
    if p c && not (is_empty word) then word ∷ rest else rest

-- `to_ascii_lowercase` and `to_ascii_uppercase` of a character.
abbrev pub lower : ℕ → ℕ
lower c = if leb 65 c && leb c 90 then c + 32 else c

abbrev pub upper : ℕ → ℕ
upper c = if leb 97 c && leb c 122 then c - 32 else c

abbrev pub equals : List ℕ → List ℕ → Bool
equals [] [] = true
equals [] (d ∷ t) = false
equals (c ∷ s) [] = false
equals (c ∷ s) (d ∷ t) = c == d && equals s t

unfoldable pub eq_ignore_ascii_case : List ℕ → List ℕ → Bool
eq_ignore_ascii_case [] [] = true
eq_ignore_ascii_case [] (d ∷ t) = false
eq_ignore_ascii_case (c ∷ s) [] = false
eq_ignore_ascii_case (c ∷ s) (d ∷ t) = lower c == lower d && eq_ignore_ascii_case s t

abbrev pub starts_with : List ℕ → List ℕ → Bool
starts_with s [] = true
starts_with [] (d ∷ t) = false
starts_with (c ∷ s) (d ∷ t) = c == d && starts_with s t

-- The text before the first such character, the text from it on, and the text past it.
abbrev pub before : ℕ → List ℕ → List ℕ
before sep [] = []
before sep (c ∷ s) = let rest = before sep s in if c == sep then [] else c ∷ rest

abbrev pub from : ℕ → List ℕ → List ℕ
from sep [] = []
from sep (c ∷ s) = let rest = from sep s in if c == sep then c ∷ s else rest

abbrev pub has : ℕ → List ℕ → Bool
has sep [] = false
has sep (c ∷ s) = c == sep || has sep s

-- `split` at a character: the text before the first one, and the text behind each.
unfoldable pub split : ℕ → List ℕ → List (List ℕ)
split sep [] = [] ∷ []
split sep (c ∷ s) = elim (c == sep) [
  | true ↦ [] ∷ split sep s
  | false ↦ elim (split sep s) [ [] ↦ (c ∷ []) ∷ [] | p ∷ ps ↦ (c ∷ p) ∷ ps ]
]

abbrev pub Lacks : ℕ → List ℕ → Type 0
Lacks sep = All (λ c. c ≢ sep)

pub eq_ignore_ascii_case_refl : (s : List ℕ) → eq_ignore_ascii_case s s ≡ true
unfolding eq_ignore_ascii_case
eq_ignore_ascii_case_refl [] = refl
eq_ignore_ascii_case_refl (c ∷ s) = ground (arith, eq_ignore_ascii_case_refl s)

pub before-append : (sep : ℕ) (s t : List ℕ) → Lacks sep s → before sep (s ++ (sep ∷ t)) ≡ s
before-append sep [] t h = ground arith
before-append sep (c ∷ s) t h = ground (arith, before-append sep s t h.1, h.0)

pub from-append : (sep : ℕ) (s t : List ℕ) → Lacks sep s → from sep (s ++ (sep ∷ t)) ≡ sep ∷ t
from-append sep [] t h = ground arith
from-append sep (c ∷ s) t h = ground (arith, from-append sep s t h.1, h.0)

pub has-append : (sep : ℕ) (s t : List ℕ) → has sep (s ++ (sep ∷ t)) ≡ true
has-append sep [] t = ground arith
has-append sep (c ∷ s) t = ground (arith, has-append sep s t)

pub before_all : (sep : ℕ) (s : List ℕ) → Lacks sep s → before sep s ≡ s
before_all sep [] h = refl
before_all sep (c ∷ s) h = ground (arith, before_all sep s h.1, h.0)

pub from_none : (sep : ℕ) (s : List ℕ) → Lacks sep s → from sep s ≡ []
from_none sep [] h = refl
from_none sep (c ∷ s) h = ground (arith, from_none sep s h.1, h.0)

-- A text whose end stays when it is trimmed.
abbrev pub Ends : List ℕ → Type 0
Ends s = (trim_end s ≡ s) × (is_empty s ≡ false)

pub is_empty-append : (s t : List ℕ) → is_empty t ≡ false → is_empty (s ++ t) ≡ false
is_empty-append [] t h = h
is_empty-append (c ∷ s) t h = refl

-- A text that ends in such a one is such a one.
pub Ends-append : (s t : List ℕ) → Ends t → Ends (s ++ t)
unfolding trim_end
Ends-append [] t h = h
Ends-append (c ∷ s) t h = let (rest, filled) = Ends-append s t h in (rw (rest, filled) refl, refl)
