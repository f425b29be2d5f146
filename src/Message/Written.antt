-- ===== src/Message/Written.antt =====
-- Header fields that are written out, folded or not, and what crates/sipr-net/src/message.rs keeps.
use mathlib.Core.List.{append_assoc, append-nil}
use sipr.Common.{
  ℕ, false, List, [], ◌∷◌, ◌++◌, ◌≡◌, ◌≢◌, refl, sym, ap, ◌∙◌, arith, All, All-append, All-mono,
  map,
}
use sipr.Common.Texts.{codes, trim, trim_start, starts_with, is_empty, is_empty-append, Lacks}
use sipr.Message.{is_break, is_cr, is_continuation, trim_end_matches, push_line, push_lines}
use sipr.Message.Lines.{IsLine, end_lines}

-- A field: its name, the start of its value, and the pieces on continuation lines.
pub record Field : Type 0 where
  pub name : List ℕ
  pub start : List ℕ
  pub folds : List (List ℕ)

-- The pieces, with a space before each.
abbrev pub spaced : List (List ℕ) → List ℕ
spaced [] = []
spaced (piece ∷ pieces) = 32 ∷ (piece ++ spaced pieces)

abbrev pub value : Field → List ℕ
value f = f.start ++ spaced f.folds

abbrev pub unfolded : Field → List ℕ
unfolded f = f.name ++ (codes ": " ++ value f)

abbrev pub first_of : Field → List ℕ
first_of f = f.name ++ (codes ": " ++ f.start)

-- The lines of a field, and of fields.
abbrev pub raw : Field → List (List ℕ)
raw f = first_of f ∷ map (λ piece. 32 ∷ piece) f.folds

abbrev pub raws : List Field → List (List ℕ)
raws [] = []
raws (f ∷ fs) = raw f ++ raws fs

abbrev pub IsFold : List ℕ → Type 0
IsFold piece = IsLine piece × (trim_start piece ≡ piece)

-- No line break in any part, a name that is trimmed and holds no colon, and a value that is trimmed.
pub record IsField (f : Field) : Type 0 where
  pub name_line : IsLine f.name
  pub apart : is_continuation f.name ≡ false
  pub plain : Lacks b':' f.name
  pub name_trimmed : trim f.name ≡ f.name
  pub no_lf : Lacks 10 f.start
  pub no_cr : Lacks 13 f.start
  pub pieces : All IsFold f.folds
  pub trimmed : trim (value f) ≡ value f

abbrev Keeps : List ℕ → Type 0
Keeps s = (trim_end_matches is_break s ≡ s) × (is_empty s ≡ false)

Keeps-append : (s t : List ℕ) → Keeps t → Keeps (s ++ t)
unfolding trim_end_matches
Keeps-append [] t h = h
Keeps-append (c ∷ s) t h = let (rest, filled) = Keeps-append s t h in (rw (rest, filled) refl, refl)

trim_end_matches-clean : (s : List ℕ) → Lacks 10 s → Lacks 13 s → trim_end_matches is_break s ≡ s
unfolding trim_end_matches
trim_end_matches-clean [] h k = refl
trim_end_matches-clean (c ∷ s) (hc, h) (kc, k) = rw (trim_end_matches-clean s h k) (ground arith)

Keeps-line : (s : List ℕ) → IsLine s → Keeps s
Keeps-line s h = (trim_end_matches-clean s h.no_lf h.no_cr, h.filled)

trim_end_matches-lf :
    (s : List ℕ) → trim_end_matches is_break (s ++ codes "\n") ≡ trim_end_matches is_break s
unfolding trim_end_matches
trim_end_matches-lf [] = refl
trim_end_matches-lf (c ∷ s) = rw (trim_end_matches-lf s) refl

-- The line break behind a text goes.
trim_end_matches-break : (s : List ℕ) → Keeps s → trim_end_matches is_break (s ++ codes "\n") ≡ s
trim_end_matches-break s (kept, filled) = trim_end_matches-lf s ∙ kept

trim_end_matches-cr : (s : List ℕ) → Lacks 13 s → trim_end_matches is_cr s ≡ s
unfolding trim_end_matches
trim_end_matches-cr [] k = refl
trim_end_matches-cr (c ∷ s) (kc, k) = rw (trim_end_matches-cr s k) (ground arith)

push_line-fold :
    (text piece : List ℕ)
    → Keeps text
    → IsFold piece
    → push_line (text ++ codes "\n") (32 ∷ piece) ≡ (text ++ (32 ∷ piece)) ++ codes "\n"
unfolding push_line trim_start
push_line-fold text piece keeps (line, apart) =
    rw (trim_end_matches-break text keeps, apart)
      (sym (append_assoc text (32 ∷ piece) (codes "\n")))

push_lines-folds :
    (text : List ℕ) (pieces : List (List ℕ)) (rest : List (List ℕ))
    → Keeps text
    → All IsFold pieces
    → push_lines (text ++ codes "\n") (map (λ piece. 32 ∷ piece) pieces ++ rest)
      ≡ push_lines ((text ++ spaced pieces) ++ codes "\n") rest
unfolding push_lines
push_lines-folds text [] rest keeps hs = rw (append-nil text) refl
push_lines-folds text (piece ∷ pieces) rest keeps (h, hs) =
    let next : Keeps (text ++ (32 ∷ piece)) =
      Keeps-append text (32 ∷ piece) (Keeps-append (codes " ") piece (Keeps-line piece h.0)) in
    ap (λ headers. push_lines headers (map (λ p. 32 ∷ p) pieces ++ rest))
      (push_line-fold text piece keeps h)
    ∙ push_lines-folds (text ++ (32 ∷ piece)) pieces rest next hs
    ∙ ap (λ t. push_lines (t ++ codes "\n") rest) (append_assoc text (32 ∷ piece) (spaced pieces))

starts_with-append :
    (s rest : List ℕ) (c : ℕ)
    → is_empty s ≡ false
    → starts_with (s ++ rest) (c ∷ []) ≡ starts_with s (c ∷ [])
starts_with-append [] rest c h = cc
starts_with-append (d ∷ s) rest c h = refl

is_continuation-append :
    (s rest : List ℕ) → is_empty s ≡ false → is_continuation (s ++ rest) ≡ is_continuation s
is_continuation-append s rest h =
    rw (starts_with-append s rest b' ' h, starts_with-append s rest b'\t' h) refl

first_of-IsLine : (f : Field) → IsField f → IsLine (first_of f)
first_of-IsLine f h = record {
  no_lf =
      All-append (λ c. c ≢ 10) f.name (codes ": " ++ f.start) h.name_line.no_lf
        (omega arith, (omega arith, h.no_lf));
  no_cr =
      All-append (λ c. c ≢ 13) f.name (codes ": " ++ f.start) h.name_line.no_cr
        (omega arith, (omega arith, h.no_cr));
  filled = is_empty-append f.name (codes ": " ++ f.start) refl;
}

push_line-first :
    (headers : List ℕ) (f : Field)
    → IsField f
    → push_line headers (first_of f) ≡ (headers ++ first_of f) ++ codes "\n"
unfolding push_line
push_line-first headers f h =
    rw
      (
        is_continuation-append f.name (codes ": " ++ f.start) h.name_line.filled,
        h.apart,
        trim_end_matches-cr (first_of f) (first_of-IsLine f h).no_cr,
      )
      (sym (append_assoc headers (first_of f) (codes "\n")))

push_lines-cons :
    (headers line : List ℕ) (rest : List (List ℕ))
    → push_lines headers (line ∷ rest) ≡ push_lines (push_line headers line) rest
unfolding push_lines
push_lines-cons headers line rest = refl

push_lines-field :
    (headers : List ℕ) (f : Field) (rest : List (List ℕ))
    → IsField f
    → push_lines headers (raw f ++ rest) ≡ push_lines (headers ++ (unfolded f ++ codes "\n")) rest
push_lines-field headers f rest h =
    let text = headers ++ first_of f in
    let folds = map (λ piece. 32 ∷ piece) f.folds ++ rest in
    let keeps : Keeps text =
      Keeps-append headers (first_of f) (Keeps-line (first_of f) (first_of-IsLine f h)) in
    let whole : (text ++ spaced f.folds) ++ codes "\n" ≡ headers ++ (unfolded f ++ codes "\n") =
      simp append_assoc in
    push_lines-cons headers (first_of f) folds
    ∙ ap (λ t. push_lines t folds) (push_line-first headers f h)
    ∙ push_lines-folds text f.folds rest keeps h.pieces
    ∙ ap (λ t. push_lines t rest) whole

pub push_lines-raws :
    (headers : List ℕ) (fs : List Field)
    → All IsField fs
    → push_lines headers (raws fs) ≡ headers ++ end_lines (map unfolded fs)
push_lines-raws headers [] hs = unfold push_lines in sym (append-nil headers)
push_lines-raws headers (f ∷ fs) (h, hs) =
    push_lines-field headers f (raws fs) h
    ∙ push_lines-raws (headers ++ (unfolded f ++ codes "\n")) fs hs
    ∙ simp append_assoc

Lacks-spaced :
    (c : ℕ) (pieces : List (List ℕ)) → c ≢ 32 → All (Lacks c) pieces → Lacks c (spaced pieces)
Lacks-spaced c [] h hs = tt
Lacks-spaced c (piece ∷ pieces) h (hp, hs) =
    (λ e. h (sym e), All-append (λ d. d ≢ c) piece (spaced pieces) hp (Lacks-spaced c pieces h hs))

pub unfolded-IsLine : (f : Field) → IsField f → IsLine (unfolded f)
unfolded-IsLine f h = record {
  no_lf =
      All-append (λ c. c ≢ 10) f.name (codes ": " ++ value f) h.name_line.no_lf
        (
          omega arith,
          (
            omega arith,
            All-append (λ c. c ≢ 10) f.start (spaced f.folds) h.no_lf
                (Lacks-spaced 10 f.folds (omega arith)
                  (All-mono (λ p (k : IsFold p). k.0.no_lf) f.folds h.pieces)),
          ),
        );
  no_cr =
      All-append (λ c. c ≢ 13) f.name (codes ": " ++ value f) h.name_line.no_cr
        (
          omega arith,
          (
            omega arith,
            All-append (λ c. c ≢ 13) f.start (spaced f.folds) h.no_cr
                (Lacks-spaced 13 f.folds (omega arith)
                  (All-mono (λ p (k : IsFold p). k.0.no_cr) f.folds h.pieces)),
          ),
        );
  filled = is_empty-append f.name (codes ": " ++ value f) refl;
}

fold-IsLine : (piece : List ℕ) → IsFold piece → IsLine (32 ∷ piece)
fold-IsLine piece (line, apart) = record {
  no_lf = (omega arith, line.no_lf);
  no_cr = (omega arith, line.no_cr);
  filled = refl;
}

folds-IsLine :
    (pieces : List (List ℕ)) → All IsFold pieces → All IsLine (map (λ piece. 32 ∷ piece) pieces)
folds-IsLine [] hs = tt
folds-IsLine (piece ∷ pieces) (h, hs) = (fold-IsLine piece h, folds-IsLine pieces hs)

pub raws-IsLine : (fs : List Field) → All IsField fs → All IsLine (raws fs)
raws-IsLine [] hs = tt
raws-IsLine (f ∷ fs) (h, hs) = (
  first_of-IsLine f h,
  All-append IsLine (map (λ piece. 32 ∷ piece) f.folds) (raws fs) (folds-IsLine f.folds h.pieces)
      (raws-IsLine fs hs),
)

pub unfoldeds-IsLine : (fs : List Field) → All IsField fs → All IsLine (map unfolded fs)
unfoldeds-IsLine [] hs = tt
unfoldeds-IsLine (f ∷ fs) (h, hs) = (unfolded-IsLine f h, unfoldeds-IsLine fs hs)
