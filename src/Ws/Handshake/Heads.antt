-- ===== src/Ws/Handshake/Heads.antt =====
-- Where a head ends, however the stream is cut into reads.
use mathlib.Core.List.{append_assoc, append-nil}
use sipr.Common.{
  ℕ, ◌+◌, ◌≤◌, Bool, true, false, List, [], ◌∷◌, ◌++◌, none, some, ◌≡◌, ◌≢◌, refl, sym, ap, ◌∙◌,
  inl, inr, ◌⊎◌, ltb, length, drop, arith, Bool-cases, Option-cases, All, drop-append_le,
}
use sipr.Common.Texts.{starts_with, is_empty}
use sipr.Message.{cut_at}
use sipr.Message.Lines.{blank_line}
use sipr.Ws.Handshake.{ok, Head, read_head, max_head}

starts_with-append : (s t n : List ℕ) → starts_with s n ≡ true → starts_with (s ++ t) n ≡ true
starts_with-append s t [] h = refl
starts_with-append [] t (d ∷ n) h = cc
starts_with-append (c ∷ s) t (d ∷ n) h = ground (arith, starts_with-append s t n)

starts_with-within :
    (s t n : List ℕ) → length n ≤ length s → starts_with (s ++ t) n ≡ true → starts_with s n ≡ true
starts_with-within s t [] fits h = refl
starts_with-within [] t (d ∷ n) fits h = absurd (omega (arith, fits))
starts_with-within (c ∷ s) t (d ∷ n) fits h = ground (arith, starts_with-within s t n)

length-starts_with : (s n : List ℕ) → starts_with s n ≡ true → length n ≤ length s
length-starts_with s [] h = omega arith
length-starts_with [] (d ∷ n) h = cc
length-starts_with (c ∷ s) (d ∷ n) h = ground (arith, length-starts_with s n)

abbrev is_blank_line : List ℕ → Bool
is_blank_line s = starts_with s blank_line

cut_at-here :
    (c : ℕ) (s : List ℕ)
    → is_blank_line (c ∷ s) ≡ true
    → cut_at blank_line (c ∷ s) ≡ some ([], drop 4 (c ∷ s))
unfolding cut_at
cut_at-here c s h = rw h refl

cut_at-later :
    (c : ℕ) (s x y : List ℕ)
    → is_blank_line (c ∷ s) ≡ false
    → cut_at blank_line s ≡ some (x, y)
    → cut_at blank_line (c ∷ s) ≡ some (c ∷ x, y)
unfolding cut_at
cut_at-later c s x y h e = rw (h, e) refl

-- The text begins with the blank line, or it is found behind the first byte.
cut_at-cases :
    (c : ℕ) (s x y : List ℕ)
    → cut_at blank_line (c ∷ s) ≡ some (x, y)
    → ((is_blank_line (c ∷ s) ≡ true) × (x ≡ []) × (y ≡ drop 4 (c ∷ s)))
      ⊎ ((is_blank_line (c ∷ s) ≡ false)
          × (rest : List ℕ) × (x ≡ c ∷ rest)
          × (cut_at blank_line s ≡ some (rest, y)))
cut_at-cases c s x y e = elim (Bool-cases (is_blank_line (c ∷ s))) [
  | inl h ↦
      let same : some (x, y) ≡ some ([], drop 4 (c ∷ s)) = sym e ∙ cut_at-here c s h in
      inl (h, cc same, cc same)
  | inr h ↦ elim (Option-cases (cut_at blank_line s)) [
    | inl none_left ↦ absurd (cc (e, cut_at-none c s h none_left))
    | inr ((rest, later), found) ↦
        let same : some (x, y) ≡ some (c ∷ rest, later) =
          sym e ∙ cut_at-later c s rest later h found in
        inr (h, rest, cc same, found ∙ cc same)
  ]
]
  where
    cut_at-none :
        (c : ℕ) (s : List ℕ)
        → is_blank_line (c ∷ s) ≡ false
        → cut_at blank_line s ≡ none
        → cut_at blank_line (c ∷ s) ≡ none
    cut_at-none c s h e = unfold cut_at in rw (h, e) refl

cut_at-nil : (x y : List ℕ) → cut_at blank_line [] ≢ some (x, y)
unfolding cut_at
cut_at-nil x y e = cc

length-cut_at : (s x y : List ℕ) → cut_at blank_line s ≡ some (x, y) → 4 ≤ length s
length-cut_at [] x y e = absurd (cut_at-nil x y e)
length-cut_at (c ∷ s) x y e = elim (cut_at-cases c s x y e) [
  | inl (h, front, back) ↦ length-starts_with (c ∷ s) blank_line h
  | inr (h, rest, front, found) ↦ omega (arith, length-cut_at s rest y found)
]

-- More bytes behind the blank line change nothing before it.
cut_at-append :
    (s t x y : List ℕ)
    → cut_at blank_line s ≡ some (x, y)
    → cut_at blank_line (s ++ t) ≡ some (x, y ++ t)
cut_at-append [] t x y e = absurd (cut_at-nil x y e)
cut_at-append (c ∷ s) t x y e = elim (cut_at-cases c s x y e) [
  | inl (h, front, back) ↦
      let fits : 4 ≤ length (c ∷ s) = length-starts_with (c ∷ s) blank_line h in
      rw (front, back, sym (drop-append_le 4 (c ∷ s) t fits))
        (cut_at-here c (s ++ t) (starts_with-append (c ∷ s) t blank_line h))
  | inr (h, rest, front, found) ↦ elim (Bool-cases (is_blank_line (c ∷ (s ++ t)))) [
    | inl wide ↦
        let fits : 4 ≤ length (c ∷ s) = omega (arith, length-cut_at s rest y found) in
        absurd (cc (h, starts_with-within (c ∷ s) t blank_line fits wide))
    | inr k ↦ rw front (cut_at-later c (s ++ t) rest (y ++ t) k (cut_at-append s t rest y found))
  ]
]

-- A blank line that stands in the first part of a text is found there.
cut_at-within :
    (s t x y : List ℕ)
    → cut_at blank_line (s ++ t) ≡ some (x, y)
    → length x + 4 ≤ length s
    → cut_at blank_line s ≢ none
cut_at-within [] t x y e fits nothing = absurd (omega (arith, fits))
cut_at-within (c ∷ s) t x y e fits nothing = elim (cut_at-cases c (s ++ t) x y e) [
  | inl (h, front, back) ↦
      let size : 4 ≤ length (c ∷ s) = omega (arith, fits) in
      cc (nothing, cut_at-here c s (starts_with-within (c ∷ s) t blank_line size h))
  | inr (h, rest, front, found) ↦ elim (Option-cases (cut_at blank_line s)) [
    | inl none_left ↦
        cut_at-within s t rest y found (omega (arith, fits, ap length front)) none_left
    | inr ((x', y'), e') ↦ elim (Bool-cases (is_blank_line (c ∷ s))) [
      | inl k ↦ cc (nothing, cut_at-here c s k)
      | inr k ↦ cc (nothing, cut_at-later c s x' y' k e')
    ]
  ]
]

abbrev pub concat : List (List ℕ) → List ℕ
concat [] = []
concat (chunk ∷ reads) = chunk ++ concat reads

-- However a stream is cut into reads, none of them empty, the reader of a head gives the bytes up to the
-- first blank line and that line, if they are no more than `max_head`; what it has read besides, and the
-- reads to come, are the bytes behind them.
pub read_head-lem :
    (head : List ℕ) (reads : List (List ℕ)) (x y : List ℕ)
    → cut_at blank_line (head ++ concat reads) ≡ some (x, y)
    → All (λ chunk. is_empty chunk ≡ false) reads
    → length x + 4 ≤ max_head
    → (h : Head) × (read_head head reads ≡ ok h)
      × (h.head ≡ x ++ blank_line)
      × (h.rest ++ concat h.reads ≡ y)
unfolding read_head
read_head-lem head [] x y e filled fits =
    let found : cut_at blank_line head ≡ some (x, y) =
      ap (cut_at blank_line) (sym (append-nil head)) ∙ e in
    (
      record { head = x ++ blank_line; rest = y; reads = [] },
      rw (read_head, found) refl,
      refl,
      append-nil y,
    )
read_head-lem head (chunk ∷ reads) x y e (some_bytes, filled) fits =
    elim (Option-cases (cut_at blank_line head)) [
      | inr ((x', y'), found) ↦
          let same : some (x, y) ≡ some (x', y' ++ (chunk ++ concat reads)) =
            sym e ∙ cut_at-append head (chunk ++ concat reads) x' y' found in
          (
            record { head = x' ++ blank_line; rest = y'; reads = chunk ∷ reads },
            rw (read_head, found) refl,
            cc same,
            cc same,
          )
      | inl nothing ↦ elim (Bool-cases (ltb max_head (length head))) [
        | inl long ↦
            let inside : length x + 4 ≤ length head = ground (arith, fits, long) in
            absurd (cut_at-within head (chunk ++ concat reads) x y e inside nothing)
        | inr short ↦
            let (h, got, front, back) =
              read_head-lem (head ++ chunk) reads x y
                (ap (cut_at blank_line) (append_assoc head chunk (concat reads)) ∙ e) filled fits in
            (h, rw (read_head, nothing, short, some_bytes) got, front, back)
      ]
    ]
