-- ===== src/Json/Texts.antt =====
-- A text that is written is read back.
use sipr.Common.{
  ℕ, zero, suc, ◌/◌, ◌%◌, ◌≤◌, ◌<◌, Bool, true, false, List, [], ◌∷◌, ◌++◌, Option, none, some, ◌≡◌,
  refl, ap, ◌∙◌, inl, inr, ltb, ◌==◌, length, All, arith, Bool-cases, length-append, drop-length,
}
use mathlib.Core.List.{append_assoc}
use sipr.Common.Tables.{holds_below, holds_below-at}
use sipr.Json.{
  ok, bind, hex_digit, escape, escape_all, write_string, expect, is_continuation, continuation_of,
  from_str_radix, char_of, unescaped,
}
use sipr.Json.Parse.{unicode, string_loop, parse_string}

-- What UTF-8 says of a character: its first byte is below 128 only if it is the character, and no
-- continuation; the others are; and they are read back.
unfoldable pub CharOk : (ℕ → List ℕ) → (List ℕ → Option (List ℕ)) → ℕ → Type 0
CharOk utf8 from_utf8 c =
    (lead : ℕ) × (conts : List ℕ) × (utf8 c ≡ lead ∷ conts)
    × (lead < 128 → lead ≡ c)
    × (is_continuation lead ≡ false)
    × All (λ b. is_continuation b ≡ true) conts
    × (from_utf8 (lead ∷ conts) ≡ some (c ∷ []))

-- What comes next is no continuation of a character.
abbrev pub Plain : List ℕ → Type 0
Plain [] = Unit
Plain (b ∷ s) = is_continuation b ≡ false

continuation_of-append :
    (conts tail : List ℕ)
    → All (λ b. is_continuation b ≡ true) conts
    → Plain tail
    → continuation_of (conts ++ tail) ≡ conts
unfolding continuation_of
continuation_of-append [] [] all plain = refl
continuation_of-append [] (b ∷ s) all plain = rw plain refl
continuation_of-append (b ∷ conts) tail (one, all) plain =
    rw (one, continuation_of-append conts tail all plain) refl

-- The four digits of a control character.
abbrev digits_of : ℕ → List ℕ
digits_of c = 48 ∷ 48 ∷ hex_digit (c / 16) ∷ hex_digit (c % 16) ∷ []

abbrev is_some_of : Option ℕ → ℕ → Bool
is_some_of none c = false
is_some_of (some n) c = n == c

abbrev reads_digits : ℕ → Bool
reads_digits c = is_some_of (from_str_radix (digits_of c)) c

all_digits : holds_below (λ n. reads_digits n) 32 ≡ true
unfolding from_str_radix holds_below
all_digits = refl

reads_digits_true : (o : Option ℕ) (c : ℕ) → is_some_of o c ≡ true → o ≡ some c
reads_digits_true none c h = cc
reads_digits_true (some n) c h = ap some (ground arith)

unicode_small :
    (c : ℕ) (tail : List ℕ)
    → c < 32
    → (unicode (48 ∷ 48 ∷ hex_digit (c / 16) ∷ hex_digit (c % 16) ∷ tail) ≡ some c)
      × (char_of c ≡ c)
unfolding unicode from_str_radix
unicode_small c tail small =
    let long : ltb (suc (suc (suc (suc (length tail))))) 4 ≡ false = ground arith in
    let read =
      reads_digits_true (from_str_radix (digits_of c)) c
        (holds_below-at (λ n. reads_digits n) c small all_digits) in
    (rw (unicode, long) read, ground arith)

module _ (utf8 : ℕ → List ℕ) (from_utf8 : List ℕ → Option (List ℕ)) where
  -- One character, escaped or not, is read in one round.
  string_loop-escape :
      (fuel c : ℕ) (tail : List ℕ)
      → CharOk utf8 from_utf8 c
      → Plain tail
      → string_loop from_utf8 (suc fuel) (escape utf8 c ++ tail)
        ≡ bind (string_loop from_utf8 fuel tail) (λ out r. ok (c ∷ out) r)
  unfolding escape string_loop unescaped CharOk
  string_loop-escape fuel c tail (lead, conts, same, low, starts, all, back) plain =
      elim (Bool-cases (c == 34)) [
        | inl e ↦ let q : c ≡ 34 = ground arith in rw q refl
        | inr e1 ↦ elim (Bool-cases (c == 92)) [
          | inl e ↦ let q : c ≡ 92 = ground arith in rw q refl
          | inr e2 ↦ elim (Bool-cases (c == 10)) [
            | inl e ↦ let q : c ≡ 10 = ground arith in rw q refl
            | inr e3 ↦ elim (Bool-cases (c == 13)) [
              | inl e ↦ let q : c ≡ 13 = ground arith in rw q refl
              | inr e4 ↦ elim (Bool-cases (c == 9)) [
                | inl e ↦ let q : c ≡ 9 = ground arith in rw q refl
                | inr e5 ↦ elim (Bool-cases (ltb c 32)) [
                  | inl e ↦
                      let (read, kept) = unicode_small c tail (ground arith) in
                      rw (escape, e1, e2, e3, e4, e5, e) (rw (string_loop, read, kept) refl)
                  | inr e6 ↦
                      let first : (lead == 34) ≡ false = ground arith in
                      let second : (lead == 92) ≡ false = ground arith in
                      rw (escape, e1, e2, e3, e4, e5, e6, same)
                        (rw
                          (
                            string_loop,
                            first,
                            second,
                            continuation_of-append conts tail all plain,
                            drop-length conts tail,
                            back,
                          )
                          refl)
                ]
              ]
            ]
          ]
        ]
      ]

  -- What is written of a character begins with no continuation.
  escape_starts :
      (c : ℕ)
      → CharOk utf8 from_utf8 c
      → (b : ℕ) × (more : List ℕ) × (escape utf8 c ≡ b ∷ more) × (is_continuation b ≡ false)
  unfolding escape CharOk
  escape_starts c (lead, conts, same, low, starts, all, back) = elim (Bool-cases (c == 34)) [
    | inl e ↦ (92, 34 ∷ [], rw e refl, refl)
    | inr e1 ↦ elim (Bool-cases (c == 92)) [
      | inl e ↦ (92, 92 ∷ [], rw (e1, e) refl, refl)
      | inr e2 ↦ elim (Bool-cases (c == 10)) [
        | inl e ↦ (92, 110 ∷ [], rw (e1, e2, e) refl, refl)
        | inr e3 ↦ elim (Bool-cases (c == 13)) [
          | inl e ↦ (92, 114 ∷ [], rw (e1, e2, e3, e) refl, refl)
          | inr e4 ↦ elim (Bool-cases (c == 9)) [
            | inl e ↦ (92, 116 ∷ [], rw (e1, e2, e3, e4, e) refl, refl)
            | inr e5 ↦ elim (Bool-cases (ltb c 32)) [
              | inl e ↦ (92, 117 ∷ digits_of c, rw (e1, e2, e3, e4, e5, e) refl, refl)
              | inr e6 ↦ (lead, conts, rw (e1, e2, e3, e4, e5, e6) same, starts)
            ]
          ]
        ]
      ]
    ]
  ]

  escape_all-Plain :
      (s rest : List ℕ) → All (CharOk utf8 from_utf8) s → Plain (escape_all utf8 s ++ (34 ∷ rest))
  unfolding escape_all
  escape_all-Plain [] rest all = refl
  escape_all-Plain (c ∷ s) rest (one, all) =
      let (b, more, same, starts) = escape_starts c one in rw (escape_all, same) starts

  length-escape_all-ge :
      (s : List ℕ) → All (CharOk utf8 from_utf8) s → length s ≤ length (escape_all utf8 s)
  unfolding escape_all
  length-escape_all-ge [] all = omega arith
  length-escape_all-ge (c ∷ s) (one, all) =
      let (b, more, same, starts) = escape_starts c one in
      omega (
        arith,
        ap length same,
        length-append (escape utf8 c) (escape_all utf8 s),
        length-escape_all-ge s all,
      )

  string_loop-quote :
      (fuel : ℕ) (rest : List ℕ) → string_loop from_utf8 (suc fuel) (34 ∷ rest) ≡ ok [] rest
  unfolding string_loop
  string_loop-quote fuel rest = refl

  string_loop-escape_all :
      (fuel : ℕ) (s rest : List ℕ)
      → length s < fuel
      → All (CharOk utf8 from_utf8) s
      → string_loop from_utf8 fuel (escape_all utf8 s ++ (34 ∷ rest)) ≡ ok s rest
  unfolding escape_all bind
  string_loop-escape_all zero s rest h all = absurd (omega arith)
  string_loop-escape_all (suc fuel) [] rest h all = string_loop-quote fuel rest
  string_loop-escape_all (suc fuel) (c ∷ s) rest h (one, all) =
      ap (string_loop from_utf8 (suc fuel))
        (append_assoc (escape utf8 c) (escape_all utf8 s) (34 ∷ rest))
      ∙ string_loop-escape fuel c (escape_all utf8 s ++ (34 ∷ rest)) one
          (escape_all-Plain s rest all)
      ∙ ap (λ p. bind p (λ out r. ok (c ∷ out) r))
          (string_loop-escape_all fuel s rest (omega arith) all)

  -- A text that is written is read back, whatever follows.
  pub parse_string-write_string :
      (s rest : List ℕ)
      → All (CharOk utf8 from_utf8) s
      → parse_string from_utf8 (write_string utf8 s ++ rest) ≡ ok s rest
  unfolding parse_string write_string expect bind
  parse_string-write_string s rest all =
      let text : (escape_all utf8 s ++ (34 ∷ [])) ++ rest ≡ escape_all utf8 s ++ (34 ∷ rest) =
        append_assoc (escape_all utf8 s) (34 ∷ []) rest in
      rw text (
        string_loop-escape_all (suc (length (escape_all utf8 s ++ (34 ∷ rest)))) s rest
          (omega (arith, length-escape_all-ge s all, length-append (escape_all utf8 s) (34 ∷ rest)))
          all)
