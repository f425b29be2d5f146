-- ===== src/Json/Parse.antt =====
-- crates/sipr-control/src/json.rs: the parser. `read` is std's reading of a number, `from_utf8` its
-- reading of the bytes of characters.
use sipr.Common.{
  ℕ, zero, suc, ◌+◌, ◌*◌, Bool, true, false, ◌&&◌, ◌||◌, List, [], ◌∷◌, ◌++◌, Option, none, some,
  ltb, leb, ◌==◌, if◌then◌else◌, length, take, drop,
}
use sipr.Json.{
  Json, null, bool, number, string, array, object, Items, no_item, item, Fields, no_field, field,
  trailing, unexpected_end, unexpected, expected, bad_number, unterminated_string,
  unterminated_escape, bad_escape, bad_unicode, out_of_fuel, Parsed, ok, err, bind, skip_ws, expect,
  literal, number_text, continuation_of, from_str_radix, char_of, unescaped,
}

-- The order of texts.
unfoldable pub text_lt : List ℕ → List ℕ → Bool
text_lt s [] = false
text_lt [] (y ∷ ys) = true
text_lt (x ∷ xs) (y ∷ ys) = ltb x y || x == y && text_lt xs ys

-- `BTreeMap::insert`
unfoldable pub insert : {F : Type 0} → List ℕ → Json F → Fields F → Fields F
unfolding text_lt
insert k v no_field = field k v no_field
insert k v (field l w map) =
    let later = field l w (insert k v map) in
    if text_lt k l then field k v (field l w map) else if text_lt l k then later else field l v map

abbrev pub or_replacement : Option (List ℕ) → List ℕ
or_replacement none = 0xfffd ∷ []
or_replacement (some s) = s

-- The four digits behind `\u`.
unfoldable pub unicode : List ℕ → Option ℕ
unfolding from_str_radix
unicode s = if ltb (length s) 4 then none else from_str_radix (take 4 s)

module _ (from_utf8 : List ℕ → Option (List ℕ)) where
  -- Behind the first quote; each round takes a byte.
  unfoldable pub string_loop : ℕ → List ℕ → Parsed (List ℕ)
  unfolding bind unicode continuation_of unescaped
  string_loop zero s = err out_of_fuel
  string_loop (suc fuel) [] = err unterminated_string
  string_loop (suc fuel) (b ∷ s) = elim (b == 34) [
    | true ↦ ok [] s
    | false ↦ elim (b == 92) [
      | true ↦ elim s [
        | [] ↦ err unterminated_escape
        | e ∷ t ↦ elim (e == 117) [
          | true ↦ elim (unicode t) [
            | none ↦ err bad_unicode
            | some n ↦ bind (string_loop fuel (drop 4 t)) λ out r. ok (char_of n ∷ out) r
          ]
          | false ↦ elim (unescaped e) [
            | none ↦ err bad_escape
            | some c ↦ bind (string_loop fuel t) λ out r. ok (c ∷ out) r
          ]
        ]
      ]
      | false ↦
          bind (string_loop fuel (drop (length (continuation_of s)) s))
            λ out r. ok (or_replacement (from_utf8 (b ∷ continuation_of s)) ++ out) r
    ]
  ]

  unfoldable pub parse_string : List ℕ → Parsed (List ℕ)
  unfolding bind expect string_loop
  parse_string s = bind (expect 34 s) λ _ t. string_loop (suc (length t)) t

  module _ {F : Type 0} (read : List ℕ → Option F) where
    unfoldable pub parse_number : List ℕ → Parsed (Json F)
    unfolding number_text
    parse_number s = elim (read (number_text s)) [
      | none ↦ err bad_number
      | some n ↦ ok (number n) (drop (length (number_text s)) s)
    ]

    -- A value that is no array and no object, by its first byte.
    unfoldable pub plain : ℕ → List ℕ → Parsed (Json F)
    unfolding bind parse_string literal parse_number
    plain c s =
        if c == 34
        then bind (parse_string s) (λ text r. ok (string text) r)
        else if c == 116
        then literal (116 ∷ 114 ∷ 117 ∷ 101 ∷ []) (bool true) s
        else if c == 102
        then literal (102 ∷ 97 ∷ 108 ∷ 115 ∷ 101 ∷ []) (bool false) s
        else if c == 110
        then literal (110 ∷ 117 ∷ 108 ∷ 108 ∷ []) null s
        else if c == 45 || leb 48 c && leb c 57
        then parse_number s
        else err unexpected

    unfoldable mutual
      unfolding bind skip_ws plain parse_string expect insert

      pub value : ℕ → List ℕ → Parsed (Json F)
      value zero s = err out_of_fuel
      value (suc fuel) s = elim (skip_ws s) [
        | [] ↦ err unexpected_end
        | c ∷ t ↦ elim (c == 123) [
          | true ↦ elim (skip_ws t) [
            | [] ↦ bind (members fuel no_field []) λ map r. ok (object map) r
            | d ∷ u ↦ elim (d == 125) [
              | true ↦ ok (object no_field) u
              | false ↦ bind (members fuel no_field (d ∷ u)) λ map r. ok (object map) r
            ]
          ]
          | false ↦ elim (c == 91) [
            | true ↦ elim (skip_ws t) [
              | [] ↦ bind (elements fuel []) λ items r. ok (array items) r
              | d ∷ u ↦ elim (d == 93) [
                | true ↦ ok (array no_item) u
                | false ↦ bind (elements fuel (d ∷ u)) λ items r. ok (array items) r
              ]
            ]
            | false ↦ plain c (c ∷ t)
          ]
        ]
      ]

      pub elements : ℕ → List ℕ → Parsed (Items F)
      elements zero s = err out_of_fuel
      elements (suc fuel) s = bind (value fuel s) λ x t. elim (skip_ws t) [
        | [] ↦ err expected
        | c ∷ u ↦ elim (c == 44) [
          | true ↦ bind (elements fuel u) λ items r. ok (item x items) r
          | false ↦ elim (c == 93) [ true ↦ ok (item x no_item) u | false ↦ err expected ]
        ]
      ]

      -- With the map so far.
      pub members : ℕ → Fields F → List ℕ → Parsed (Fields F)
      members zero map s = err out_of_fuel
      members (suc fuel) map s = bind (parse_string (skip_ws s)) λ key t.
          bind (expect 58 (skip_ws t)) λ _ u. bind (value fuel u) λ x v. elim (skip_ws v) [
            | [] ↦ err expected
            | c ∷ w ↦ elim (c == 44) [
              | true ↦ members fuel (insert key x map) w
              | false ↦ elim (c == 125) [ true ↦ ok (insert key x map) w | false ↦ err expected ]
            ]
          ]

    abbrev pub all_read : Json F → List ℕ → Parsed (Json F)
    all_read v [] = ok v []
    all_read v (b ∷ s) = err trailing

    -- Two calls for each byte at most.
    unfoldable pub parse : List ℕ → Parsed (Json F)
    unfolding bind value skip_ws
    parse text = bind (value (2 * length text + 2) text) λ v s. all_read v (skip_ws s)
