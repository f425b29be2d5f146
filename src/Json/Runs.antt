-- ===== src/Json/Runs.antt =====
-- Documents written and read, and the theorem at a concrete value.
use Prim.Native.Char.{code}
use Prim.Native.String.{String}
use sipr.Common.{
  ℕ, ◌+◌, ◌-◌, ◌*◌, ◌/◌, ◌%◌, true, false, List, [], ◌∷◌, Option, none, some, ◌≡◌, refl, ap, ltb,
  ◌==◌, arith, if◌then◌else◌,
}
use sipr.Json.{
  Json, null, bool, number, string, array, object, no_item, item, Fields, no_field, field, Numbers,
  Parsed, ok, err, unexpected_end, write, is_continuation, in_number,
}
use sipr.Json.Parse.{parse, text_lt}
use sipr.Json.Texts.{CharOk}
use sipr.Json.Good.{Reads, Good, Above, snoc, read_back}
use sipr.Json.RoundTrip.{parse-write}

abbrev ascii : String → List ℕ
ascii String.[] = []
ascii (String.◌∷◌ first rest) = code first ∷ ascii rest

-- Halves below ten stand for the doubles, with all from twenty halves on for those that are not finite,
-- and characters of one or two bytes for all.
abbrev halves : Numbers ℕ
halves = record {
  zero_double = 0;
  e15 = 20;
  is_finite = λ n. ltb n 20;
  fract = λ n. n % 2;
  abs = λ n. n;
  equals = λ a b. a == b;
  less = λ a b. ltb a b;
  display_i64 = λ n. (48 + n / 2) ∷ [];
  display_3 = λ n. (48 + n / 2) ∷ 46 ∷ (48 + n % 2 * 5) ∷ 48 ∷ 48 ∷ [];
}

abbrev read_half : List ℕ → Option ℕ
read_half [] = none
read_half (b ∷ []) = some ((b - 48) * 2)
read_half (b ∷ c ∷ []) = none
read_half (b ∷ c ∷ e ∷ s) = some ((b - 48) * 2 + (e - 48) / 5)

abbrev two_bytes : ℕ → List ℕ
two_bytes c = if ltb c 128 then c ∷ [] else (192 + c / 64) ∷ (128 + c % 64) ∷ []

abbrev one_char : List ℕ → Option (List ℕ)
one_char [] = none
one_char (b ∷ []) = some (b ∷ [])
one_char (b ∷ c ∷ s) = some (((b - 192) * 64 + (c - 128)) ∷ [])

abbrev read_text : List ℕ → Parsed (Json ℕ)
read_text text = parse one_char read_half text

reads_document :
    read_text (ascii " { \"b\" : [1, null ,{}], \"a\":true} ")
    ≡ ok
        (object (
          field (ascii "a") (bool true) (
            field
              (ascii "b")
              (array (item (number 2) (item null (item (object no_field) no_item))))
              no_field)))
        []
unfolding parse
reads_document = refl

reads_nothing : read_text [] ≡ err unexpected_end
unfolding parse
reads_nothing = refl

-- The escapes of a character beyond U+FFFF, as a pair, are two replacement characters.
reads_pair : read_text (ascii "\"\\ud83d\\ude00\"") ≡ ok (string (0xfffd ∷ 0xfffd ∷ [])) []
unfolding parse
reads_pair = refl

-- A sign among the four digits of an escape.
reads_sign : read_text (ascii "\"\\u+041\"") ≡ ok (string (65 ∷ [])) []
unfolding parse
reads_sign = refl

halves_read : Reads halves read_half
unfolding in_number
halves_read = record {
  whole = λ n. n;
  rounded = λ n. n;
  of_i64 = λ n finite even.
      (48 + n / 2, [], refl, ground arith, (ground arith, tt), ap some (ground arith));
  of_3 = λ n finite. (
    48 + n / 2,
    46 ∷ (48 + n % 2 * 5) ∷ 48 ∷ 48 ∷ [],
    refl,
    ground arith,
    (ground arith, (refl, (ground arith, (refl, (refl, tt))))),
    ap some (omega arith),
  );
}

-- A list with 7, 3.5 and a number that is not finite, and an object whose text has a quote, a control
-- character and one of two bytes.
abbrev fields : Fields ℕ
fields = field (97 ∷ []) (string (34 ∷ 1 ∷ 233 ∷ [])) (field (98 ∷ []) null no_field)

abbrev document : Json ℕ
document =
    array (item (number 14) (item (number 7) (item (number 25) (item (object fields) no_item))))

plain_char : (c : ℕ) → ltb c 128 ≡ true → is_continuation c ≡ false → CharOk two_bytes one_char c
unfolding CharOk
plain_char c small starts = (c, [], rw small refl, (λ h. refl), starts, tt, refl)

document-Good : Good halves read_half two_bytes one_char halves_read document
unfolding Good Above text_lt snoc CharOk
document-Good = (
  tt,
  (
    tt,
    (
      tt,
      (
        (
          (plain_char 97 refl refl, tt),
          (
            plain_char 34 refl refl,
            (
              plain_char 1 refl refl,
              ((195, 169 ∷ [], refl, (λ h. absurd (omega (arith, h))), refl, (refl, tt), refl), tt),
            ),
          ),
          tt,
          ((plain_char 98 refl refl, tt), tt, (refl, refl, tt), tt),
        ),
        tt,
      ),
    ),
  ),
)

write_run :
    write halves two_bytes (array (item (number 14) (item (number 7) (item (number 25) no_item))))
    ≡ ascii "[7,3.500,null]"
unfolding write
write_run = refl

parse-write_example :
    parse one_char read_half (write halves two_bytes document)
    ≡ ok (array (item (number 14) (item (number 7) (item null (item (object fields) no_item))))) []
unfolding read_back halves_read
parse-write_example =
    parse-write halves read_half two_bytes one_char halves_read document document-Good
