-- ===== src/Json/Good.antt =====
-- The values that `write` and `parse` agree on.
use sipr.Common.{
  ℕ, Bool, true, false, ◌&&◌, ◌||◌, List, [], ◌∷◌, Option, some, ◌≡◌, refl, ap, ◌∙◌, leb, ◌==◌, All,
  arith, inl, inr, Bool-cases, if◌then◌else◌,
}
use sipr.Json.{
  Json, null, bool, number, string, array, object, Items, no_item, item, Fields, no_field, field,
  Numbers, is_whole, write_number, write, write_string, is_space, in_number,
}
use sipr.Json.Parse.{text_lt, insert}
use sipr.Json.Texts.{CharOk}

-- No byte that a number goes on with.
abbrev pub Stops : List ℕ → Type 0
Stops [] = Unit
Stops (b ∷ s) = in_number b ≡ false

module _ {F : Type 0} (d : Numbers F) (read : List ℕ → Option F) where
  -- The text is not empty, begins with a digit or a minus sign, has only what numbers are made of, and is
  -- read as the number.
  abbrev pub IsText : List ℕ → F → Type 0
  IsText text n =
      (b : ℕ) × (s : List ℕ) × (text ≡ b ∷ s)
      × (b == 45 || leb 48 b && leb b 57 ≡ true)
      × All (λ c. in_number c ≡ true) (b ∷ s)
      × (read (b ∷ s) ≡ some n)

  -- The integers that are written without a fraction: less than 10 ^ 15 in size.
  abbrev pub is_integer : F → Bool
  is_integer n = d.equals (d.fract n) d.zero_double && d.less (d.abs n) d.e15

  -- What std says of the texts of finite numbers: `whole` is the double of an integer that is written, and
  -- `rounded` that of three decimals.
  pub record Reads : Type 0 where
    pub whole : F → F
    pub rounded : F → F
    pub of_i64 :
        (n : F) → d.is_finite n ≡ true → is_integer n ≡ true → IsText (d.display_i64 n) (whole n)
    pub of_3 : (n : F) → d.is_finite n ≡ true → IsText (d.display_3 n) (rounded n)

module _ {F : Type 0} (d : Numbers F) (read : List ℕ → Option F) (utf8 : ℕ → List ℕ)
    (from_utf8 : List ℕ → Option (List ℕ)) (law : Reads d read) where
  -- What is read of a number that is written: nothing but null of one that is not finite.
  unfoldable pub read_number : F → Json F
  read_number n =
      if d.is_finite n
      then number (if is_integer d read n then law.whole n else law.rounded n)
      else null

  -- The key is greater than all in the map.
  unfoldable pub Above : Fields F → List ℕ → Type 0
  Above no_field k = Unit
  Above (field l w map) k = (text_lt l k ≡ true) × (text_lt k l ≡ false) × Above map k

  unfoldable pub snoc : Fields F → List ℕ → Json F → Fields F
  snoc no_field k v = field k v no_field
  snoc (field l w map) k v = field l w (snoc map k v)

  -- A value whose texts are texts and whose keys are in order.
  unfoldable mutual
    pub Good : Json F → Type 0
    Good null = Unit
    Good (bool b) = Unit
    Good (number n) = Unit
    Good (string s) = All (CharOk utf8 from_utf8) s
    Good (array items) = GoodItems items
    Good (object map) = GoodFields no_field map

    pub GoodItems : Items F → Type 0
    GoodItems no_item = Unit
    GoodItems (item x items) = Good x × GoodItems items

    -- Behind the fields of a map.
    pub GoodFields : Fields F → Fields F → Type 0
    GoodFields before no_field = Unit
    GoodFields before (field k v map) =
        All (CharOk utf8 from_utf8) k × Good v × Above before k × GoodFields (snoc before k v) map

  -- What is read of a value that is written.
  unfoldable mutual
    unfolding read_number

    pub read_back : Json F → Json F
    read_back null = null
    read_back (bool b) = bool b
    read_back (number n) = read_number n
    read_back (string s) = string s
    read_back (array items) = array (read_items items)
    read_back (object map) = object (read_fields map)

    pub read_items : Items F → Items F
    read_items no_item = no_item
    read_items (item x items) = item (read_back x) (read_items items)

    pub read_fields : Fields F → Fields F
    read_fields no_field = no_field
    read_fields (field k v map) = field k (read_back v) (read_fields map)

  pub read_fields-snoc :
      (map : Fields F) (k : List ℕ) (v : Json F)
      → read_fields (snoc map k v) ≡ snoc (read_fields map) k (read_back v)
  unfolding read_back snoc
  read_fields-snoc no_field k v = refl
  read_fields-snoc (field l w map) k v = ap (field l (read_back w)) (read_fields-snoc map k v)

  pub Above-read_fields : (map : Fields F) (k : List ℕ) → Above map k → Above (read_fields map) k
  unfolding read_back Above
  Above-read_fields no_field k above = tt
  Above-read_fields (field l w map) k (less, not_less, above) =
      (less, not_less, Above-read_fields map k above)

  pub insert-snoc :
      (map : Fields F) (k : List ℕ) (v : Json F) → Above map k → insert k v map ≡ snoc map k v
  unfolding insert snoc Above
  insert-snoc no_field k v above = refl
  insert-snoc (field l w map) k v (less, not_less, above) =
      rw (insert, not_less, less) (ap (field l w) (insert-snoc map k v above))

  -- The fields behind others.
  unfoldable pub joined : Fields F → Fields F → Fields F
  joined before no_field = before
  joined before (field k v map) = joined (snoc before k v) map

  pub joined-field :
      (k : List ℕ) (v : Json F) (before map : Fields F)
      → joined (field k v before) map ≡ field k v (joined before map)
  unfolding joined snoc
  joined-field k v before no_field = refl
  joined-field k v before (field l w map) = joined-field k v (snoc before l w) map

  pub joined-no_field : (map : Fields F) → joined no_field map ≡ map
  unfolding joined snoc
  joined-no_field no_field = refl
  joined-no_field (field k v map) =
      joined-field k v no_field map ∙ ap (field k v) (joined-no_field map)

  -- What a written value begins with: no white space and no closing bracket.
  unfoldable pub Opens : List ℕ → Type 0
  Opens s =
      (b : ℕ) × (more : List ℕ) × (s ≡ b ∷ more)
      × (is_space b ≡ false)
      × ((b == 93) ≡ false)
      × ((b == 125) ≡ false)

  -- The text of a finite number, and what is read of it.
  pub write_number-IsText :
      (n : F)
      → d.is_finite n ≡ true
      → (m : F) × IsText d read (write_number d n) m × (read_number n ≡ number m)
  unfolding write_number read_number
  write_number-IsText n finite = elim (Bool-cases (is_whole d n)) [
    | inl e ↦ (
      law.whole n,
      rw (write_number, finite, e) (law.of_i64 n finite e),
      rw (read_number, finite, e) refl,
    )
    | inr e ↦ (
      law.rounded n,
      rw (write_number, finite, e) (law.of_3 n finite),
      rw (read_number, finite, e) refl,
    )
  ]

  pub write_number_null :
      (n : F)
      → d.is_finite n ≡ false
      → (write_number d n ≡ 110 ∷ 117 ∷ 108 ∷ 108 ∷ []) × (read_number n ≡ null)
  unfolding write_number read_number
  write_number_null n infinite = (rw (write_number, infinite) refl, rw (read_number, infinite) refl)

  number-Opens : (n : F) → Opens (write_number d n)
  unfolding Opens is_space
  number-Opens n = elim (Bool-cases (d.is_finite n)) [
    | inl e ↦
        let (m, (b, s, same, starts, all, back), read_as) = write_number-IsText n e in
        (b, s, same, ground arith, ground arith, ground arith)
    | inr e ↦ (110, _, (write_number_null n e).0, refl, refl, refl)
  ]

  pub write-Opens : (v : Json F) → Good v → Opens (write d utf8 v)
  unfolding write Opens Good is_space write_string
  write-Opens null good = (110, _, refl, refl, refl, refl)
  write-Opens (bool true) good = (116, _, refl, refl, refl, refl)
  write-Opens (bool false) good = (102, _, refl, refl, refl, refl)
  write-Opens (number n) good = number-Opens n
  write-Opens (string s) good = (34, _, refl, refl, refl, refl)
  write-Opens (array items) good = (91, _, refl, refl, refl, refl)
  write-Opens (object map) good = (123, _, refl, refl, refl, refl)
