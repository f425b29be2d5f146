-- ===== src/Json/Pieces.antt =====
-- How the parser reads the parts of what is written.
use sipr.Common.{
  ℕ, suc, ◌+◌, ◌≤◌, true, false, List, [], ◌∷◌, ◌++◌, Option, some, ◌≡◌, refl, ap, ◌∙◌, ◌==◌,
  length, All, arith, inl, inr, Bool-cases, length-append, drop-length,
}
use mathlib.Core.List.{append_assoc}
use sipr.Json.{
  Json, null, bool, number, string, array, object, Items, no_item, item, Fields, no_field, ok, bind,
  Numbers, write_number, write, write_string, is_space, skip_ws, in_number, number_text, expect,
}
use sipr.Json.Parse.{insert, value, elements, members, plain, parse_number}
use sipr.Json.Texts.{CharOk, parse_string-write_string}
use sipr.Json.Good.{
  IsText, Reads, Stops, read_number, write_number-IsText, write_number_null, Good, Opens,
  write-Opens,
}

module _ {F : Type 0} (d : Numbers F) (read : List ℕ → Option F) (utf8 : ℕ → List ℕ)
    (from_utf8 : List ℕ → Option (List ℕ)) (law : Reads d read) where
  pub number_text-append :
      (s rest : List ℕ) → All (λ c. in_number c ≡ true) s → Stops rest → number_text (s ++ rest) ≡ s
  unfolding number_text
  number_text-append [] [] all stops = refl
  number_text-append [] (b ∷ rest) all stops = rw stops refl
  number_text-append (c ∷ s) rest (one, all) stops =
      rw (one, number_text-append s rest all stops) refl

  pub skip_ws-stays : (b : ℕ) (s : List ℕ) → is_space b ≡ false → skip_ws (b ∷ s) ≡ b ∷ s
  unfolding skip_ws
  skip_ws-stays b s e = rw e refl

  -- A value that is neither an array nor an object.
  pub value-plain :
      (fuel b : ℕ) (s : List ℕ)
      → is_space b ≡ false
      → (b == 123) ≡ false
      → (b == 91) ≡ false
      → value from_utf8 read (suc fuel) (b ∷ s) ≡ plain from_utf8 read b (b ∷ s)
  unfolding value
  value-plain fuel b s space brace bracket =
      rw (value, skip_ws-stays b s space, brace, bracket) refl

  pub parse_number-append :
      (s rest : List ℕ) (n : F)
      → All (λ c. in_number c ≡ true) s
      → Stops rest
      → read s ≡ some n
      → parse_number from_utf8 read (s ++ rest) ≡ ok (number n) rest
  unfolding parse_number
  parse_number-append s rest n all stops back =
      let text = number_text-append s rest all stops in
      rw (parse_number, text, back, text, drop-length s rest) refl

  pub value-null :
      (fuel : ℕ) (rest : List ℕ)
      → value from_utf8 read (suc fuel) (110 ∷ 117 ∷ 108 ∷ 108 ∷ rest) ≡ ok null rest
  unfolding value
  value-null fuel rest = refl

  value-text :
      (fuel : ℕ) (text : List ℕ) (m : F) (rest : List ℕ)
      → IsText d read text m
      → Stops rest
      → value from_utf8 read (suc fuel) (text ++ rest) ≡ ok (number m) rest
  unfolding plain is_space
  value-text fuel text m rest (b, s, same, starts, all, back) stops =
      let space : is_space b ≡ false = ground arith in
      let brace : (b == 123) ≡ false = ground arith in
      let bracket : (b == 91) ≡ false = ground arith in
      let quote : (b == 34) ≡ false = ground arith in
      let t : (b == 116) ≡ false = ground arith in
      let f : (b == 102) ≡ false = ground arith in
      let n : (b == 110) ≡ false = ground arith in
      rw same (
        value-plain fuel b (s ++ rest) space brace bracket
        ∙ rw (plain, quote, t, f, n, starts) (parse_number-append (b ∷ s) rest m all stops back))

  pub value-number :
      (fuel : ℕ) (n : F) (rest : List ℕ)
      → Stops rest
      → value from_utf8 read (suc fuel) (write_number d n ++ rest)
        ≡ ok (read_number d read utf8 from_utf8 law n) rest
  value-number fuel n rest stops = elim (Bool-cases (d.is_finite n)) [
    | inl e ↦
        let (m, text, read_as) = write_number-IsText d read utf8 from_utf8 law n e in
        rw read_as (value-text fuel (write_number d n) m rest text stops)
    | inr e ↦
        let (text, read_as) = write_number_null d read utf8 from_utf8 law n e in
        rw (text, read_as) (value-null fuel rest)
  ]

  pub value-string :
      (fuel : ℕ) (s rest : List ℕ)
      → All (CharOk utf8 from_utf8) s
      → value from_utf8 read (suc fuel) (write_string utf8 s ++ rest) ≡ ok (string s) rest
  unfolding plain bind write_string is_space
  value-string fuel s rest all =
      value-plain fuel 34 _ refl refl refl
      ∙ ap (λ p. bind p (λ text r. ok (string text) r))
          (parse_string-write_string utf8 from_utf8 s rest all)

  -- The arrays of a text, and its objects, by what is in them.
  pub value-array :
      (fuel b : ℕ) (s rest : List ℕ) (items : Items F)
      → is_space b ≡ false
      → (b == 93) ≡ false
      → elements from_utf8 read fuel (b ∷ s) ≡ ok items rest
      → value from_utf8 read (suc fuel) (91 ∷ b ∷ s) ≡ ok (array items) rest
  unfolding value skip_ws bind
  value-array fuel b s rest items space bracket e =
      rw (value, skip_ws-stays b s space, bracket, e) refl

  pub value-object :
      (fuel b : ℕ) (s rest : List ℕ) (map : Fields F)
      → is_space b ≡ false
      → (b == 125) ≡ false
      → members from_utf8 read fuel no_field (b ∷ s) ≡ ok map rest
      → value from_utf8 read (suc fuel) (123 ∷ b ∷ s) ≡ ok (object map) rest
  unfolding value skip_ws bind
  value-object fuel b s rest map space brace e = rw (value, skip_ws-stays b s space, brace, e) refl

  -- What comes behind an item or a field: a comma or the closing bracket.
  pub elements-last :
      (fuel : ℕ) (s rest : List ℕ) (x : Json F)
      → value from_utf8 read fuel s ≡ ok x (93 ∷ rest)
      → elements from_utf8 read (suc fuel) s ≡ ok (item x no_item) rest
  unfolding elements bind skip_ws is_space
  elements-last fuel s rest x e = rw (elements, e) refl

  pub elements-more :
      (fuel : ℕ) (s t rest : List ℕ) (x : Json F) (items : Items F)
      → value from_utf8 read fuel s ≡ ok x (44 ∷ t)
      → elements from_utf8 read fuel t ≡ ok items rest
      → elements from_utf8 read (suc fuel) s ≡ ok (item x items) rest
  unfolding elements bind skip_ws is_space
  elements-more fuel s t rest x items e more = rw (elements, e, more) refl

  pub key_first : (k t : List ℕ) → skip_ws (write_string utf8 k ++ t) ≡ write_string utf8 k ++ t
  unfolding skip_ws write_string is_space
  key_first k t = refl

  -- A key, its colon and its value.
  pub members-last :
      (fuel : ℕ) (k s rest : List ℕ) (v : Json F) (before : Fields F)
      → All (CharOk utf8 from_utf8) k
      → value from_utf8 read fuel s ≡ ok v (125 ∷ rest)
      → members from_utf8 read (suc fuel) before (write_string utf8 k ++ (58 ∷ s))
        ≡ ok (insert k v before) rest
  unfolding members bind skip_ws is_space expect
  members-last fuel k s rest v before all e =
      rw (members, key_first k (58 ∷ s), parse_string-write_string utf8 from_utf8 k (58 ∷ s) all, e)
        refl

  pub members-more :
      (fuel : ℕ) (k s t rest : List ℕ) (v : Json F) (before map : Fields F)
      → All (CharOk utf8 from_utf8) k
      → value from_utf8 read fuel s ≡ ok v (44 ∷ t)
      → members from_utf8 read fuel (insert k v before) t ≡ ok map rest
      → members from_utf8 read (suc fuel) before (write_string utf8 k ++ (58 ∷ s)) ≡ ok map rest
  unfolding members bind skip_ws is_space expect
  members-more fuel k s t rest v before map all e more =
      rw
        (
          members,
          key_first k (58 ∷ s),
          parse_string-write_string utf8 from_utf8 k (58 ∷ s) all,
          e,
          more,
        )
        refl

  pub value-true :
      (fuel : ℕ) (rest : List ℕ)
      → value from_utf8 read (suc fuel) (116 ∷ 114 ∷ 117 ∷ 101 ∷ rest) ≡ ok (bool true) rest
  unfolding value
  value-true fuel rest = refl

  pub value-false :
      (fuel : ℕ) (rest : List ℕ)
      → value from_utf8 read (suc fuel) (102 ∷ 97 ∷ 108 ∷ 115 ∷ 101 ∷ rest) ≡ ok (bool false) rest
  unfolding value
  value-false fuel rest = refl

  pub value_empty :
      (fuel : ℕ) (rest : List ℕ)
      → (value from_utf8 read (suc fuel) (91 ∷ 93 ∷ rest) ≡ ok (array no_item) rest)
        × (value from_utf8 read (suc fuel) (123 ∷ 125 ∷ rest) ≡ ok (object no_field) rest)
  unfolding value
  value_empty fuel rest = (refl, refl)

  pub Opens-append :
      (s t : List ℕ) → Opens d read utf8 from_utf8 law s → Opens d read utf8 from_utf8 law (s ++ t)
  unfolding Opens
  Opens-append s t (b, more, same, space, bracket, brace) =
      (b, more ++ t, ap (λ u. u ++ t) same, space, bracket, brace)

  pub value-elements :
      (fuel : ℕ) (s rest : List ℕ) (items : Items F)
      → Opens d read utf8 from_utf8 law s
      → elements from_utf8 read fuel s ≡ ok items rest
      → value from_utf8 read (suc fuel) (91 ∷ s) ≡ ok (array items) rest
  unfolding Opens
  value-elements fuel s rest items (b, more, same, space, bracket, brace) e =
      rw same (value-array fuel b more rest items space bracket (rw same at e))

  pub value-members :
      (fuel : ℕ) (s rest : List ℕ) (map : Fields F)
      → Opens d read utf8 from_utf8 law s
      → members from_utf8 read fuel no_field s ≡ ok map rest
      → value from_utf8 read (suc fuel) (123 ∷ s) ≡ ok (object map) rest
  unfolding Opens
  value-members fuel s rest map (b, more, same, space, bracket, brace) e =
      rw same (value-object fuel b more rest map space brace (rw same at e))

  pub string-Opens : (k t : List ℕ) → Opens d read utf8 from_utf8 law (write_string utf8 k ++ t)
  unfolding Opens write_string is_space
  string-Opens k t = (34, _, refl, refl, refl, refl)

  pub not_empty : (v : Json F) → Good d read utf8 from_utf8 law v → 1 ≤ length (write d utf8 v)
  unfolding Opens
  not_empty v good =
      let (b, more, same, space, bracket, brace) = write-Opens d read utf8 from_utf8 law v good in
      omega (arith, ap length same)

  -- A field, and what comes behind it.
  pub field_text :
      (key v more rest : List ℕ)
      → (key ++ (58 ∷ (v ++ more))) ++ rest ≡ key ++ (58 ∷ (v ++ (more ++ rest)))
  field_text key v more rest =
      append_assoc key (58 ∷ (v ++ more)) rest
      ∙ ap (λ s. key ++ (58 ∷ s)) (append_assoc v more rest)

  pub length_field :
      (key v more : List ℕ)
      → length (key ++ (58 ∷ (v ++ more))) ≡ length key + 1 + length v + length more
  length_field key v more =
      omega (arith, length-append key (58 ∷ (v ++ more)), length-append v more)
