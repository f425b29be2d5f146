-- ===== src/Json.antt =====
-- crates/sipr-control/src/json.rs: the values of the control interface, their text, and its parser.
-- A text is the list of its characters as code points, its bytes are numbers. The parameters are std's:
-- what the code does with doubles, the text of one as an integer and with three decimals, the reading of
-- such a text, the bytes of a character and the characters of bytes.
pub mod Parse
pub mod Texts
pub mod Good
pub mod Pieces
pub mod RoundTrip
mod Runs
use sipr.Common.{
  ℕ, zero, suc, ◌+◌, ◌-◌, ◌*◌, ◌/◌, ◌%◌, Bool, true, false, not, ◌&&◌, ◌||◌, List, [], ◌∷◌, ◌++◌,
  Option, none, some, ltb, leb, ◌==◌, if◌then◌else◌, length, take, drop,
}

mutual
  pub data Json (F : Type 0) : Type 0 where
    null : Json F
    bool : Bool → Json F
    number : F → Json F
    string : List ℕ → Json F
    array : Items F → Json F
    object : Fields F → Json F

  pub data Items (F : Type 0) : Type 0 where
    no_item : Items F
    item : Json F → Items F → Items F

  -- A `BTreeMap`: the keys in order.
  pub data Fields (F : Type 0) : Type 0 where
    no_field : Fields F
    field : List ℕ → Json F → Fields F → Fields F

-- `out_of_fuel` is the model's own; the offsets of the messages are left out.
pub data JsonError : Type 0 where
  trailing unexpected_end unexpected expected bad_literal bad_number : JsonError
  unterminated_string unterminated_escape bad_escape bad_unicode out_of_fuel : JsonError

pub data Parsed {ℓ} (A : Type ℓ) : Type ℓ where
  ok : A → List ℕ → Parsed A
  err : JsonError → Parsed A

unfoldable pub bind {ℓ κ} :
    {A : Type ℓ} {B : Type κ} → Parsed A → (A → List ℕ → Parsed B) → Parsed B
bind (ok a s) f = f a s
bind (err e) f = err e

abbrev pub hex_digit : ℕ → ℕ
hex_digit n = if ltb n 10 then 48 + n else 87 + n

-- A character in a text, escaped where it has to be.
unfoldable pub escape : (ℕ → List ℕ) → ℕ → List ℕ
escape utf8 c =
    if c == 34
    then 92 ∷ 34 ∷ []
    else if c == 92
    then 92 ∷ 92 ∷ []
    else if c == 10
    then 92 ∷ 110 ∷ []
    else if c == 13
    then 92 ∷ 114 ∷ []
    else if c == 9
    then 92 ∷ 116 ∷ []
    else if ltb c 32
    then 92 ∷ 117 ∷ 48 ∷ 48 ∷ hex_digit (c / 16) ∷ hex_digit (c % 16) ∷ []
    else utf8 c

unfoldable pub escape_all : (ℕ → List ℕ) → List ℕ → List ℕ
unfolding escape
escape_all utf8 [] = []
escape_all utf8 (c ∷ s) = escape utf8 c ++ escape_all utf8 s

unfoldable pub write_string : (ℕ → List ℕ) → List ℕ → List ℕ
unfolding escape_all
write_string utf8 s = 34 ∷ (escape_all utf8 s ++ (34 ∷ []))

-- What the code uses of std's doubles: `display_i64` is the text of `n as i64`, `display_3` is `{n:.3}`.
pub record Numbers (F : Type 0) : Type 0 where
  pub zero_double : F
  pub e15 : F
  pub is_finite : F → Bool
  pub fract : F → F
  pub abs : F → F
  pub equals : F → F → Bool
  pub less : F → F → Bool
  pub display_i64 : F → List ℕ
  pub display_3 : F → List ℕ

module _ {F : Type 0} (d : Numbers F) where
  -- `n.fract() == 0.0 && n.abs() < 1e15`
  abbrev pub is_whole : F → Bool
  is_whole n = d.equals (d.fract n) d.zero_double && d.less (d.abs n) d.e15

  unfoldable pub write_number : F → List ℕ
  write_number n =
      if not (d.is_finite n)
      then 110 ∷ 117 ∷ 108 ∷ 108 ∷ []
      else if is_whole n
      then d.display_i64 n
      else d.display_3 n

module _ {F : Type 0} (d : Numbers F) (utf8 : ℕ → List ℕ) where
  unfoldable mutual
    unfolding write_string write_number

    pub write : Json F → List ℕ
    write null = 110 ∷ 117 ∷ 108 ∷ 108 ∷ []
    write (bool true) = 116 ∷ 114 ∷ 117 ∷ 101 ∷ []
    write (bool false) = 102 ∷ 97 ∷ 108 ∷ 115 ∷ 101 ∷ []
    write (number n) = write_number d n
    write (string s) = write_string utf8 s
    write (array items) = 91 ∷ (write_items true items ++ (93 ∷ []))
    write (object map) = 123 ∷ (write_fields true map ++ (125 ∷ []))

    -- A comma stands before every item but the first.
    pub write_items : Bool → Items F → List ℕ
    write_items first no_item = []
    write_items true (item x items) = write x ++ write_items false items
    write_items false (item x items) = 44 ∷ (write x ++ write_items false items)

    pub write_fields : Bool → Fields F → List ℕ
    write_fields first no_field = []
    write_fields true (field k v map) =
        write_string utf8 k ++ (58 ∷ (write v ++ write_fields false map))
    write_fields false (field k v map) =
        44 ∷ (write_string utf8 k ++ (58 ∷ (write v ++ write_fields false map)))

-- `u8::is_ascii_whitespace`
unfoldable pub is_space : ℕ → Bool
is_space b = b == 32 || b == 9 || b == 10 || b == 12 || b == 13

unfoldable pub skip_ws : List ℕ → List ℕ
unfolding is_space
skip_ws [] = []
skip_ws (b ∷ s) = let rest = skip_ws s in if is_space b then rest else b ∷ s

unfoldable pub expect : ℕ → List ℕ → Parsed (Unit {0})
expect c [] = err expected
expect c (b ∷ s) = if b == c then ok tt s else err expected

unfoldable pub begins_with : List ℕ → List ℕ → Bool
begins_with [] s = true
begins_with (w ∷ word) [] = false
begins_with (w ∷ word) (b ∷ s) = w == b && begins_with word s

unfoldable pub literal {ℓ} : {A : Type ℓ} → List ℕ → A → List ℕ → Parsed A
unfolding begins_with
literal word value s =
    if begins_with word s then ok value (drop (length word) s) else err bad_literal

-- What a number is made of: digits and `-+.eE`.
unfoldable pub in_number : ℕ → Bool
in_number b = leb 48 b && leb b 57 || b == 45 || b == 43 || b == 46 || b == 101 || b == 69

unfoldable pub number_text : List ℕ → List ℕ
unfolding in_number
number_text [] = []
number_text (b ∷ s) = let more = number_text s in if in_number b then b ∷ more else []

abbrev pub is_continuation : ℕ → Bool
is_continuation b = b / 64 == 2

unfoldable pub continuation_of : List ℕ → List ℕ
continuation_of [] = []
continuation_of (b ∷ s) = let more = continuation_of s in if is_continuation b then b ∷ more else []

unfoldable pub hex_value : ℕ → Option ℕ
hex_value b =
    if leb 48 b && leb b 57
    then some (b - 48)
    else if leb 97 b && leb b 102
    then some (b - 87)
    else if leb 65 b && leb b 70
    then some (b - 55)
    else none

unfoldable pub hex_from : ℕ → List ℕ → Option ℕ
unfolding hex_value
hex_from n [] = some n
hex_from n (b ∷ s) = elim (hex_value b) [ none ↦ none | some d ↦ hex_from (n * 16 + d) s ]

-- `u32::from_str_radix`, which takes a plus sign, of four bytes.
unfoldable pub from_str_radix : List ℕ → Option ℕ
unfolding hex_from
from_str_radix [] = none
from_str_radix (b ∷ []) = if b == 43 then none else hex_from 0 (b ∷ [])
from_str_radix (b ∷ c ∷ s) = if b == 43 then hex_from 0 (c ∷ s) else hex_from 0 (b ∷ c ∷ s)

-- `char::from_u32(hex).unwrap_or('\u{fffd}')`
abbrev pub char_of : ℕ → ℕ
char_of n = if leb 0xd800 n && leb n 0xdfff || leb 0x110000 n then 0xfffd else n

-- The character that a letter behind a backslash means.
unfoldable pub unescaped : ℕ → Option ℕ
unescaped e =
    if e == 34
    then some 34
    else if e == 92
    then some 92
    else if e == 47
    then some 47
    else if e == 110
    then some 10
    else if e == 114
    then some 13
    else if e == 116
    then some 9
    else if e == 98
    then some 8
    else if e == 102
    then some 12
    else none
