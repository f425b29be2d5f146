-- ===== src/Json/RoundTrip.antt =====
-- A value that is written is read back.
use sipr.Common.{
  ℕ, zero, suc, ◌+◌, ◌*◌, ◌≤◌, true, false, List, [], ◌∷◌, ◌++◌, Option, ◌≡◌, ◌≢◌, refl, sym, ap,
  ◌∙◌, length, arith, length-append,
}
use mathlib.Core.List.{append_assoc, append-nil}
use sipr.Json.{
  Json, null, bool, number, string, array, object, Items, no_item, item, Fields, no_field, field,
  ok, bind, Numbers, write, write_items, write_fields, write_string, skip_ws, in_number,
}
use sipr.Json.Parse.{value, elements, members, parse}
use sipr.Json.Good.{
  Reads, read_back, read_items, read_fields, read_fields-snoc, Above-read_fields, Stops, snoc, Good,
  GoodItems, GoodFields, insert-snoc, joined, joined-no_field, write-Opens,
}
use sipr.Json.Pieces.{
  value-number, value-string, elements-last, elements-more, members-last, members-more, value-null,
  value-true, value-false, value_empty, Opens-append, value-elements, value-members, string-Opens,
  not_empty, field_text, length_field,
}

module _ {F : Type 0} (d : Numbers F) (read : List ℕ → Option F) (utf8 : ℕ → List ℕ)
    (from_utf8 : List ℕ → Option (List ℕ)) (law : Reads d read) where
  mutual
    unfolding write Good joined read_back in_number

    value-write :
        (fuel : ℕ) (v : Json F) (rest : List ℕ)
        → Good d read utf8 from_utf8 law v
        → 2 * length (write d utf8 v) ≤ fuel
        → Stops rest
        → value from_utf8 read fuel (write d utf8 v ++ rest)
          ≡ ok (read_back d read utf8 from_utf8 law v) rest
    value-write zero v rest good h stops =
        absurd (omega (arith, not_empty d read utf8 from_utf8 law v good))
    value-write (suc fuel) null rest good h stops = value-null d read utf8 from_utf8 law fuel rest
    value-write (suc fuel) (bool true) rest good h stops =
        value-true d read utf8 from_utf8 law fuel rest
    value-write (suc fuel) (bool false) rest good h stops =
        value-false d read utf8 from_utf8 law fuel rest
    value-write (suc fuel) (number n) rest good h stops =
        value-number d read utf8 from_utf8 law fuel n rest stops
    value-write (suc fuel) (string s) rest good h stops =
        value-string d read utf8 from_utf8 law fuel s rest good
    value-write (suc fuel) (array no_item) rest good h stops =
        (value_empty d read utf8 from_utf8 law fuel rest).0
    value-write (suc fuel) (array (item x items)) rest good h stops =
        let inside = write_items d utf8 true (item x items) in
        ap (λ s. value from_utf8 read (suc fuel) (91 ∷ s)) (append_assoc inside (93 ∷ []) rest)
        ∙ value-elements d read utf8 from_utf8 law fuel (inside ++ (93 ∷ rest)) rest
            (read_items d read utf8 from_utf8 law (item x items))
            (Opens-append d read utf8 from_utf8 law inside (93 ∷ rest) (
              Opens-append d read utf8 from_utf8 law (write d utf8 x) _
                (write-Opens d read utf8 from_utf8 law x good.0)))
            (elements-write fuel (item x items) rest (λ q. cc) good
              (omega (arith, length-append inside (93 ∷ []))))
    value-write (suc fuel) (object no_field) rest good h stops =
        (value_empty d read utf8 from_utf8 law fuel rest).1
    value-write (suc fuel) (object (field k v map)) rest good h stops =
        let inside = write_fields d utf8 true (field k v map) in
        ap (λ s. value from_utf8 read (suc fuel) (123 ∷ s)) (append_assoc inside (125 ∷ []) rest)
        ∙ value-members d read utf8 from_utf8 law fuel (inside ++ (125 ∷ rest)) rest
            (joined d read utf8 from_utf8 law no_field
              (read_fields d read utf8 from_utf8 law (field k v map)))
            (Opens-append d read utf8 from_utf8 law inside (125 ∷ rest)
              (string-Opens d read utf8 from_utf8 law k _))
            (members-write fuel (field k v map) no_field rest (λ q. cc) good
              (omega (arith, length-append inside (125 ∷ []))))
        ∙ ap (λ m. ok (object m) rest)
            (joined-no_field d read utf8 from_utf8 law
              (read_fields d read utf8 from_utf8 law (field k v map)))

    elements-write :
        (fuel : ℕ) (items : Items F) (rest : List ℕ)
        → items ≢ no_item
        → GoodItems d read utf8 from_utf8 law items
        → 2 * length (write_items d utf8 true items) + 1 ≤ fuel
        → elements from_utf8 read fuel (write_items d utf8 true items ++ (93 ∷ rest))
          ≡ ok (read_items d read utf8 from_utf8 law items) rest
    elements-write zero items rest some_item good h = absurd (omega arith)
    elements-write (suc fuel) no_item rest some_item good h = absurd (some_item refl)
    elements-write (suc fuel) (item x no_item) rest some_item (good, all) h =
        elements-last d read utf8 from_utf8 law fuel _ rest (read_back d read utf8 from_utf8 law x)
          (ap (λ s. value from_utf8 read fuel (s ++ (93 ∷ rest))) (append-nil (write d utf8 x))
            ∙ value-write fuel x (93 ∷ rest) good (omega (arith, length-append (write d utf8 x) []))
                refl)
    elements-write (suc fuel) (item x (item y items)) rest some_item (good, all) h =
        let later = write_items d utf8 true (item y items) in
        ap (elements from_utf8 read (suc fuel))
          (append_assoc (write d utf8 x) (44 ∷ later) (93 ∷ rest))
        ∙ elements-more d read utf8 from_utf8 law fuel
            (write d utf8 x ++ (44 ∷ (later ++ (93 ∷ rest)))) (later ++ (93 ∷ rest)) rest
            (read_back d read utf8 from_utf8 law x)
            (read_items d read utf8 from_utf8 law (item y items))
            (value-write fuel x (44 ∷ (later ++ (93 ∷ rest))) good
              (omega (arith, length-append (write d utf8 x) (44 ∷ later))) refl)
            (elements-write fuel (item y items) rest (λ q. cc) all
              (omega (
                arith,
                length-append (write d utf8 x) (44 ∷ later),
                not_empty d read utf8 from_utf8 law x good,
              )))

    members-write :
        (fuel : ℕ) (map : Fields F) (before : Fields F) (rest : List ℕ)
        → map ≢ no_field
        → GoodFields d read utf8 from_utf8 law before map
        → 2 * length (write_fields d utf8 true map) + 1 ≤ fuel
        → members from_utf8 read fuel
            (read_fields d read utf8 from_utf8 law before)
            (write_fields d utf8 true map ++ (125 ∷ rest))
          ≡ ok
              (joined d read utf8 from_utf8 law
                (read_fields d read utf8 from_utf8 law before)
                (read_fields d read utf8 from_utf8 law map))
              rest
    members-write zero map before rest some_field good h = absurd (omega arith)
    members-write (suc fuel) no_field before rest some_field good h = absurd (some_field refl)
    members-write (suc fuel) (field k v no_field) before rest some_field (key, good, above, all) h =
        ap (members from_utf8 read (suc fuel) (read_fields d read utf8 from_utf8 law before)) (
          field_text d read utf8 from_utf8 law (write_string utf8 k) (write d utf8 v) []
            (125 ∷ rest))
        ∙ members-last d read utf8 from_utf8 law fuel k (write d utf8 v ++ (125 ∷ rest)) rest
            (read_back d read utf8 from_utf8 law v) (read_fields d read utf8 from_utf8 law before)
            key
            (value-write fuel v (125 ∷ rest) good
              (omega (
                arith,
                length_field d read utf8 from_utf8 law (write_string utf8 k) (write d utf8 v) [],
              ))
              refl)
        ∙ ap (λ m. ok m rest)
            (insert-snoc d read utf8 from_utf8 law (read_fields d read utf8 from_utf8 law before) k
              (read_back d read utf8 from_utf8 law v)
              (Above-read_fields d read utf8 from_utf8 law before k above))
    members-write (suc fuel) (field k v (field l w map)) before rest some_field
          (key, good, above, all) h =
        let later = write_fields d utf8 true (field l w map) in
        ap (members from_utf8 read (suc fuel) (read_fields d read utf8 from_utf8 law before)) (
          field_text d read utf8 from_utf8 law (write_string utf8 k) (write d utf8 v) (44 ∷ later)
            (125 ∷ rest))
        ∙ members-more d read utf8 from_utf8 law fuel k
            (write d utf8 v ++ (44 ∷ (later ++ (125 ∷ rest)))) (later ++ (125 ∷ rest)) rest
            (read_back d read utf8 from_utf8 law v) (read_fields d read utf8 from_utf8 law before)
            (joined d read utf8 from_utf8 law (read_fields d read utf8 from_utf8 law before)
              (read_fields d read utf8 from_utf8 law (field k v (field l w map))))
            key
            (value-write fuel v (44 ∷ (later ++ (125 ∷ rest))) good
              (omega (
                arith,
                length_field d read utf8 from_utf8 law (write_string utf8 k) (write d utf8 v)
                    (44 ∷ later),
              ))
              refl)
            (ap (λ m. members from_utf8 read fuel m (later ++ (125 ∷ rest)))
                ((insert-snoc d read utf8 from_utf8 law
                    (read_fields d read utf8 from_utf8 law before) k
                    (read_back d read utf8 from_utf8 law v)
                    (Above-read_fields d read utf8 from_utf8 law before k above))
                  ∙ sym (read_fields-snoc d read utf8 from_utf8 law before k v))
              ∙ members-write fuel (field l w map) (snoc d read utf8 from_utf8 law before k v) rest
                  (λ q. cc) all
                  (omega (
                    arith,
                    length_field d read utf8 from_utf8 law (write_string utf8 k) (write d utf8 v)
                        (44 ∷ later),
                    not_empty d read utf8 from_utf8 law v good,
                  ))
              ∙ ap
                  (λ m.
                    ok
                      (joined d read utf8 from_utf8 law m
                        (read_fields d read utf8 from_utf8 law (field l w map)))
                      rest)
                  (read_fields-snoc d read utf8 from_utf8 law before k v))

  -- What `Display` writes of a value, `parse` reads back whole, if its texts are texts and the keys of its
  -- objects are in order: the same value, but that an integer less than 10 ^ 15 in size is what std reads
  -- of its integer text, any other finite number what std reads of its text with three decimals, and a
  -- number that is not finite is null. Of std it is supposed that such a text is made of what numbers are
  -- made of, with a digit or a minus sign first, and is read.
  pub parse-write :
      (v : Json F)
      → Good d read utf8 from_utf8 law v
      → parse from_utf8 read (write d utf8 v) ≡ ok (read_back d read utf8 from_utf8 law v) []
  unfolding parse bind skip_ws
  parse-write v good =
      let fuel = 2 * length (write d utf8 v) + 2 in
      let whole : value from_utf8 read fuel (write d utf8 v)
          ≡ ok (read_back d read utf8 from_utf8 law v) [] =
        ap (value from_utf8 read fuel) (sym (append-nil (write d utf8 v)))
        ∙ value-write fuel v [] good (omega arith) tt in
      rw (parse, whole) refl
