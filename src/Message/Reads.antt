-- ===== src/Message/Reads.antt =====
-- What crates/sipr-net/src/message.rs reads of a message that is written out.
use sipr.Common.{
  ℕ, ◌<◌, true, false, List, [], ◌∷◌, ◌++◌, some, ◌≡◌, refl, sym, ap, ◌∙◌, inl, inr, arith,
  Bool-cases, All, map, filter,
}
use sipr.Common.Texts.{
  trim, trim_start, trim_end, is_empty, is_whitespace, before-append, from-append, has-append,
}
use sipr.Message.{MsgKind, Inbound, ok, parse, parse_start_line, all_blank, is_ascii_whitespace}
use sipr.Message.Headers.{names, line_matches, header_lines, value_of, header_values}
use sipr.Message.Lines.{
  IsLine, tails, blank_line, end_lines, split_head_body-tails, lines-tails, lines-end_lines,
}
use sipr.Message.Written.{
  Field, value, unfolded, raws, IsField, push_lines-raws, unfoldeds-IsLine, raws-IsLine,
}

line_matches-unfolded :
    (asked : List ℕ) (f : Field) → IsField f → line_matches asked (unfolded f) ≡ names asked f.name
unfolding line_matches
line_matches-unfolded asked f h =
    rw
      (
        has-append b':' f.name (32 ∷ value f),
        before-append b':' f.name (32 ∷ value f) h.plain,
        h.name_trimmed,
      )
      refl

value_of-unfolded : (f : Field) → IsField f → value_of (unfolded f) ≡ value f
value_of-unfolded f h =
    rw (from-append b':' f.name (32 ∷ value f) h.plain) (trim-space (value f) ∙ h.trimmed)
  where
    trim-space : (s : List ℕ) → trim (32 ∷ s) ≡ trim s
    trim-space s = unfold trim in unfold trim_start in refl

found_values :
    (asked : List ℕ) (fs : List Field)
    → All IsField fs
    → map value_of (filter (line_matches asked) (map unfolded fs))
      ≡ map value (filter (λ f. names asked f.name) fs)
found_values asked [] hs = refl
found_values asked (f ∷ fs) (h, hs) = elim (Bool-cases (names asked f.name)) [
  | inl e ↦
      rw (line_matches-unfolded asked f h, e, value_of-unfolded f h)
        (ap (λ values. value f ∷ values) (found_values asked fs hs))
  | inr e ↦ rw (line_matches-unfolded asked f h, e) (found_values asked fs hs)
]

all_blank-trim_end : (s : List ℕ) → all_blank s ≡ true → trim_end s ≡ []
unfolding all_blank trim_end
all_blank-trim_end [] h = refl
all_blank-trim_end (c ∷ s) h = elim (Bool-cases (is_ascii_whitespace c)) [
  | inl e ↦
      let blank : is_whitespace c ≡ true = ground (arith, e) in
      let rest : all_blank s ≡ true = ground (arith, e, h) in
      rw (all_blank-trim_end s rest, blank) refl
  | inr e ↦ absurd (ground (arith, e, h))
]

all_blank-append : (s t : List ℕ) → all_blank s ≡ false → all_blank (s ++ t) ≡ false
unfolding all_blank
all_blank-append [] t h = cc
all_blank-append (c ∷ s) t h = ground (arith, all_blank-append s t)

all_blank-trimmed : (s : List ℕ) → trim_end s ≡ s → is_empty s ≡ false → all_blank s ≡ false
all_blank-trimmed s ends filled = elim (Bool-cases (all_blank s)) [
  | inr e ↦ e
  | inl e ↦
      let none_left : s ≡ [] = sym ends ∙ all_blank-trim_end s e in
      absurd (cc (filled, ap is_empty none_left))
]

-- A message: its start line, its fields and its body.
abbrev pub message_bytes : List ℕ → List Field → List ℕ → List ℕ
message_bytes start fs body = (start ++ tails (raws fs)) ++ (blank_line ++ body)

header_values-end_lines :
    (m : Inbound) (fs : List Field) (asked : List ℕ)
    → m.headers ≡ end_lines (map unfolded fs)
    → All IsField fs
    → header_values m asked ≡ map value (filter (λ f. names asked f.name) fs)
unfolding header_values header_lines
header_values-end_lines m fs asked e hs =
    rw (e, lines-end_lines (map unfolded fs) (unfoldeds-IsLine fs hs)) (found_values asked fs hs)

module _ (from_utf8_lossy : List ℕ → List ℕ)
    (lossy_ascii : (s : List ℕ) → All (λ c. c < 128) s → from_utf8_lossy s ≡ s) where
  -- A message of ASCII lines, with any body, is read whole: the kind that its start line says, the start
  -- line and the body as they were, and under every name the values of the fields that have it, in
  -- order, each unfolded into one line with a space for each break.
  pub parse-message_bytes :
      (start : List ℕ) (kind : MsgKind) (fs : List Field) (body : List ℕ)
      → IsLine start
      → trim_end start ≡ start
      → parse_start_line start ≡ some kind
      → All IsField fs
      → All (λ c. c < 128) (start ++ tails (raws fs))
      → (m : Inbound) × (parse from_utf8_lossy (message_bytes start fs body) ≡ ok m)
        × (m.kind ≡ kind)
        × (m.start ≡ start)
        × (m.body ≡ body)
        × ((asked : List ℕ)
            → header_values m asked ≡ map value (filter (λ f. names asked f.name) fs))
  unfolding parse
  parse-message_bytes start kind fs body line ends said hs ascii =
      let head = start ++ tails (raws fs) in
      let halves = split_head_body-tails start (raws fs) body line (raws-IsLine fs hs) in
      let all = lines-tails start (raws fs) line (raws-IsLine fs hs) in
      let filled : all_blank (message_bytes start fs body) ≡ false =
        all_blank-append head (blank_line ++ body)
          (all_blank-append start (tails (raws fs)) (all_blank-trimmed start ends line.filled)) in
      let m : Inbound = record {
        kind = kind;
        start = start;
        headers = end_lines (map unfolded fs);
        body = body;
      } in
      (
        m,
        rw (halves, lossy_ascii head ascii, all, filled, ends, said)
            (rw (← push_lines-raws [] fs hs, halves, lossy_ascii head ascii, all, ends) refl),
        refl,
        refl,
        refl,
        λ asked. header_values-end_lines m fs asked refl hs,
      )
