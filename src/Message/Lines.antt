-- ===== src/Message/Lines.antt =====
-- Lines that are written with CR LF between them, as crates/sipr-net/src/message.rs cuts them.
use mathlib.Core.List.{append_assoc, append-nil}
use sipr.Common.{ℕ, false, List, [], ◌∷◌, ◌++◌, some, ◌≡◌, ◌≢◌, refl, ap, ◌∙◌, arith, All}
use sipr.Common.Texts.{is_empty, Lacks}
use sipr.Message.{cut_at, split_head_body, lines}

-- A line that is not empty, and holds no CR or LF.
pub record IsLine (s : List ℕ) : Type 0 where
  pub no_lf : Lacks 10 s
  pub no_cr : Lacks 13 s
  pub filled : is_empty s ≡ false

-- Lines with CR LF before each.
abbrev pub tails : List (List ℕ) → List ℕ
tails [] = []
tails (line ∷ more) = 13 ∷ 10 ∷ (line ++ tails more)

-- Lines with LF behind each.
abbrev pub end_lines : List (List ℕ) → List ℕ
end_lines [] = []
end_lines (line ∷ more) = line ++ (10 ∷ end_lines more)

abbrev pub blank_line : List ℕ
blank_line = 13 ∷ 10 ∷ 13 ∷ 10 ∷ []

-- The blank line is not found where a line stands: it begins with CR.
cut_at-line :
    (line rest x y : List ℕ)
    → Lacks 13 line
    → cut_at blank_line rest ≡ some (x, y)
    → cut_at blank_line (line ++ rest) ≡ some (line ++ x, y)
unfolding cut_at
cut_at-line [] rest x y h e = e
cut_at-line (c ∷ line) rest x y (hc, h) e = rw (cut_at-line line rest x y h e) (ground arith)

cut_at-crlf :
    (c : ℕ) (s x y : List ℕ)
    → c ≢ 13
    → cut_at blank_line (c ∷ s) ≡ some (x, y)
    → cut_at blank_line (13 ∷ 10 ∷ (c ∷ s)) ≡ some (13 ∷ 10 ∷ x, y)
unfolding cut_at
cut_at-crlf c s x y h e = rw e (ground (arith, h))

cut_at-tails :
    (more : List (List ℕ)) (body : List ℕ)
    → All IsLine more
    → cut_at blank_line (tails more ++ (blank_line ++ body)) ≡ some (tails more, body)
cut_at-tails [] body hs = unfold cut_at in refl
cut_at-tails ([] ∷ more) body (h, hs) = absurd (cc h.filled)
cut_at-tails ((c ∷ line) ∷ more) body (h, hs) =
    let rest = line ++ tails more in
    let inside : cut_at blank_line (c ∷ (rest ++ (blank_line ++ body))) ≡ some (c ∷ rest, body) =
      ap (λ s. cut_at blank_line (c ∷ s)) (append_assoc line (tails more) (blank_line ++ body))
      ∙ cut_at-line (c ∷ line) (tails more ++ (blank_line ++ body)) (tails more) body h.no_cr
          (cut_at-tails more body hs) in
    cut_at-crlf c (rest ++ (blank_line ++ body)) (c ∷ rest) body (h.no_cr.0) inside

-- What is written with a blank line behind it is found before that line.
pub cut_at-head :
    (line : List ℕ) (more : List (List ℕ)) (body : List ℕ)
    → IsLine line
    → All IsLine more
    → cut_at blank_line ((line ++ tails more) ++ (blank_line ++ body))
      ≡ some (line ++ tails more, body)
cut_at-head line more body h hs =
    ap (cut_at blank_line) (append_assoc line (tails more) (blank_line ++ body))
    ∙ cut_at-line line (tails more ++ (blank_line ++ body)) (tails more) body h.no_cr
        (cut_at-tails more body hs)

pub split_head_body-tails :
    (line : List ℕ) (more : List (List ℕ)) (body : List ℕ)
    → IsLine line
    → All IsLine more
    → split_head_body ((line ++ tails more) ++ (blank_line ++ body)) ≡ (line ++ tails more, body)
unfolding split_head_body
split_head_body-tails line more body h hs =
    rw (split_head_body, cut_at-head line more body h hs) refl

lines-line :
    (line rest : List ℕ)
    → Lacks 10 line
    → Lacks 13 line
    → lines (line ++ (10 ∷ rest)) ≡ line ∷ lines rest
unfolding lines
lines-line [] rest h k = refl
lines-line (c ∷ line) rest (hc, h) (kc, k) = rw (lines-line line rest h k) (ground arith)

lines-crlf :
    (line rest : List ℕ)
    → Lacks 10 line
    → Lacks 13 line
    → lines (line ++ (13 ∷ 10 ∷ rest)) ≡ line ∷ lines rest
unfolding lines
lines-crlf [] rest h k = refl
lines-crlf (c ∷ line) rest (hc, h) (kc, k) = rw (lines-crlf line rest h k) (ground arith)

lines-last :
    (c : ℕ) (line : List ℕ)
    → Lacks 10 (c ∷ line)
    → Lacks 13 (c ∷ line)
    → lines (c ∷ line) ≡ (c ∷ line) ∷ []
unfolding lines
lines-last c [] (hc, h) (kc, k) = ground arith
lines-last c (d ∷ line) (hc, h) (kc, k) = rw (lines-last d line h k) (ground arith)

pub lines-tails :
    (line : List ℕ) (more : List (List ℕ))
    → IsLine line
    → All IsLine more
    → lines (line ++ tails more) ≡ line ∷ more
lines-tails [] [] h hs = absurd (cc h.filled)
lines-tails (c ∷ line) [] h hs = rw (append-nil line) (lines-last c line h.no_lf h.no_cr)
lines-tails line (next ∷ more) h (hn, hs) =
    lines-crlf line (next ++ tails more) h.no_lf h.no_cr
    ∙ ap (λ ls. line ∷ ls) (lines-tails next more hn hs)

-- With the blank line behind them there is an empty line more.
pub lines-tails_blank :
    (line : List ℕ) (more : List (List ℕ))
    → IsLine line
    → All IsLine more
    → lines ((line ++ tails more) ++ blank_line) ≡ line ∷ (more ++ ([] ∷ []))
lines-tails_blank line [] h hs =
    ap lines (append_assoc line [] blank_line)
    ∙ lines-crlf line (13 ∷ 10 ∷ []) h.no_lf h.no_cr
    ∙ ap (λ ls. line ∷ ls) (unfold lines in refl)
lines-tails_blank line (next ∷ more) h (hn, hs) =
    ap lines (append_assoc line (13 ∷ 10 ∷ (next ++ tails more)) blank_line)
    ∙ lines-crlf line ((next ++ tails more) ++ blank_line) h.no_lf h.no_cr
    ∙ ap (λ ls. line ∷ ls) (lines-tails_blank next more hn hs)

pub lines-end_lines : (ls : List (List ℕ)) → All IsLine ls → lines (end_lines ls) ≡ ls
lines-end_lines [] hs = unfold lines in refl
lines-end_lines (line ∷ more) (h, hs) =
    lines-line line (end_lines more) h.no_lf h.no_cr
    ∙ ap (λ ls. line ∷ ls) (lines-end_lines more hs)
