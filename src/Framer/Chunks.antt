-- ===== src/Framer/Chunks.antt =====
-- How the framer sees a stream that arrives in pieces.
use sipr.Common.{
  ℕ, ◌+◌, ◌%◌, ◌^◌, ◌≤◌, true, false, ◌&&◌, List, [], ◌∷◌, ◌++◌, Option, none, some, ◌≡◌, refl, sym,
  ap, ◌∙◌, inl, inr, ltb, ◌==◌, length, take, drop, arith, Bool-cases, Option-cases, length-append,
  take-append_le, drop-append_le, take-append-drop,
}
use sipr.Framer.{
  cr, lf, starts_with, position_of, find_subslice, strip_crlf, blank_line, cut, next_in,
  next_message, content_length, push,
}

starts_with-append :
    (needle xs ys : List ℕ)
    → length needle ≤ length xs
    → starts_with needle (xs ++ ys) ≡ starts_with needle xs
unfolding starts_with
starts_with-append [] xs ys h = refl
starts_with-append (n ∷ ns) [] ys h = absurd (omega arith)
starts_with-append (n ∷ ns) (x ∷ xs) ys h = rw (starts_with-append ns xs ys (omega arith))

starts_with-length : (needle xs : List ℕ) → starts_with needle xs ≡ true → length needle ≤ length xs
unfolding starts_with
starts_with-length [] xs h = omega arith
starts_with-length (n ∷ ns) [] h = cc
starts_with-length (n ∷ ns) (x ∷ xs) h = ground (arith, starts_with-length ns xs)

position_of-length :
    (needle xs : List ℕ) (i : ℕ) → position_of needle xs ≡ some i → i + length needle ≤ length xs
unfolding position_of
position_of-length needle [] i h = cc
position_of-length needle (x ∷ xs) i h = elim (Option-cases (position_of needle xs)) [
  | inl e ↦ ground (arith, e, starts_with-length needle (x ∷ xs))
  | inr (j, e) ↦
      ground (arith, e, starts_with-length needle (x ∷ xs), position_of-length needle xs j e)
]

-- More bytes behind do not move the first occurrence.
pub position_of-append :
    (needle xs ys : List ℕ) (i : ℕ)
    → position_of needle xs ≡ some i
    → position_of needle (xs ++ ys) ≡ some i
unfolding position_of
position_of-append needle [] ys i h = cc
position_of-append needle (x ∷ xs) ys i h =
    let fits = position_of-length needle (x ∷ xs) i h in
    let same = starts_with-append needle (x ∷ xs) ys (omega arith) in
    elim (Option-cases (position_of needle xs)) [
      | inl e ↦ ground (arith, e, same)
      | inr (j, e) ↦ ground (arith, e, same, position_of-append needle xs ys j e)
    ]

find_subslice_fits :
    (xs : List ℕ) (i : ℕ) → find_subslice xs blank_line ≡ some i → i + 4 ≤ length xs
unfolding find_subslice
find_subslice_fits xs i h = ground (arith, position_of-length blank_line xs i)

find_subslice-append :
    (xs ys : List ℕ) (i : ℕ)
    → find_subslice xs blank_line ≡ some i
    → find_subslice (xs ++ ys) blank_line ≡ some i
unfolding find_subslice
find_subslice-append xs ys i h = ground (
  arith,
  position_of-length blank_line xs i,
  position_of-append blank_line xs ys i,
  length-append xs ys,
)

strip_crlf-append :
    (a b : List ℕ) → 2 ≤ length (strip_crlf a) → strip_crlf (a ++ b) ≡ strip_crlf a ++ b
unfolding strip_crlf
strip_crlf-append [] b h = absurd (omega arith)
strip_crlf-append (x ∷ []) b h = absurd (omega arith)
strip_crlf-append (x ∷ y ∷ r) b h = elim (Bool-cases (x == cr && y == lf)) [
  | inl e ↦ rw e (strip_crlf-append r b (rw e at h))
  | inr e ↦ rw e
]

-- Stripping what arrived first changes nothing for what comes after.
strip_crlf_again : (a b : List ℕ) → strip_crlf (strip_crlf a ++ b) ≡ strip_crlf (a ++ b)
unfolding strip_crlf
strip_crlf_again [] b = refl
strip_crlf_again (x ∷ []) b = refl
strip_crlf_again (x ∷ y ∷ r) b = elim (Bool-cases (x == cr && y == lf)) [
  | inl e ↦ rw e (strip_crlf_again r b)
  | inr e ↦ rw e (rw e)
]

-- A message comes from a blank line in the stripped buffer.
next_in-some :
    (buf r m : List ℕ)
    → next_in buf ≡ (r, some m)
    → (sep : ℕ) × (find_subslice buf blank_line ≡ some sep) × (cut buf sep ≡ (r, some m))
unfolding next_in
next_in-some [] r m h = cc (ap (λ (p : List ℕ × Option (List ℕ)). p.1) h)
next_in-some (x ∷ s) r m h = elim (Option-cases (find_subslice (x ∷ s) blank_line)) [
  | inl f ↦ cc (ap (λ (p : List ℕ × Option (List ℕ)). p.1) (rw f at h))
  | inr (sep, f) ↦ (sep, f, rw f at h)
]

-- `cut` splits the buffer, and does so again when more bytes follow.
cut-some :
    (buf b : List ℕ) (sep : ℕ) (r m : List ℕ)
    → sep + 4 ≤ length buf
    → cut buf sep ≡ (r, some m)
    → (buf ≡ m ++ r) × (cut (buf ++ b) sep ≡ (r ++ b, some m))
unfolding cut
cut-some buf b sep r m fits h =
    let total = (sep + 4 + content_length (take sep buf)) % 2 ^ 64 in
    elim (Bool-cases (ltb (length buf) total)) [
      | inl e ↦ cc (ap (λ (p : List ℕ × Option (List ℕ)). p.1) (rw e at h))
      | inr e ↦
          let done : total ≤ length buf = ground arith in
          let q : ◌≡◌ {A = List ℕ × Option (List ℕ)} (drop total buf, some (take total buf))
              (r, some m) =
            rw e at h in
          let rest : drop total buf ≡ r = ap (λ p. p.0) q in
          let message : take total buf ≡ m = cc (ap (λ p. p.1) q) in
          let longer : ltb (length (buf ++ b)) total ≡ false =
            ground (arith, length-append buf b) in
          (
            rw (← message, ← rest) (sym (take-append-drop total buf)),
            rw
                (
                  take-append_le sep buf b (omega arith),
                  longer,
                  drop-append_le total buf b done,
                  take-append_le total buf b done,
                  message,
                  rest,
                )
                refl,
          )
    ]

cut-none : (buf r : List ℕ) (sep : ℕ) → cut buf sep ≡ (r, none) → r ≡ buf
unfolding cut
cut-none buf r sep h =
    let total = (sep + 4 + content_length (take sep buf)) % 2 ^ 64 in
    elim (Bool-cases (ltb (length buf) total)) [
      | inl e ↦ sym (ap (λ (p : List ℕ × Option (List ℕ)). p.0) (rw e at h))
      | inr e ↦ cc (ap (λ (p : List ℕ × Option (List ℕ)). p.1) (rw e at h))
    ]

-- With no message to give the framer only strips its buffer.
next_in-none : (buf r : List ℕ) → next_in buf ≡ (r, none) → r ≡ buf
unfolding next_in
next_in-none [] r h = sym (ap (λ (p : List ℕ × Option (List ℕ)). p.0) h)
next_in-none (x ∷ s) r h = elim (Option-cases (find_subslice (x ∷ s) blank_line)) [
  | inl f ↦ sym (ap (λ (p : List ℕ × Option (List ℕ)). p.0) (rw f at h))
  | inr (sep, f) ↦ cut-none (x ∷ s) r sep (rw f at h)
]

pub next_in_at :
    (s : List ℕ) (sep : ℕ)
    → 1 ≤ length s
    → find_subslice s blank_line ≡ some sep
    → next_in s ≡ cut s sep
unfolding next_in
next_in_at [] sep h f = absurd (omega arith)
next_in_at (x ∷ s) sep h f = rw f

-- A message that a buffer gives stays the next one when bytes arrive behind it, and with what is
-- left it is the buffer without the CRLFs before it.
pub next_message-append :
    (buf b r m : List ℕ)
    → next_message buf ≡ (r, some m)
    → (strip_crlf buf ≡ m ++ r) × (next_message (buf ++ b) ≡ (r ++ b, some m))
unfolding next_message
next_message-append buf b r m h =
    let (sep, f, c) = next_in-some (strip_crlf buf) r m h in
    let fits = find_subslice_fits (strip_crlf buf) sep f in
    let (split, again) = cut-some (strip_crlf buf) b sep r m fits c in
    (
      split,
      ap next_in (strip_crlf-append buf b (omega arith))
          ∙ next_in_at (strip_crlf buf ++ b) sep (omega (arith, length-append (strip_crlf buf) b))
              (find_subslice-append (strip_crlf buf) b sep f)
          ∙ again,
    )

-- Where a buffer gives no message, the next answer is the same as if the bytes that arrive later had
-- come at once.
pub next_message-append_none :
    (buf b r : List ℕ)
    → next_message buf ≡ (r, none)
    → next_message (r ++ b) ≡ next_message (buf ++ b)
unfolding next_message
next_message-append_none buf b r h =
    rw (next_in-none (strip_crlf buf) r h) (ap next_in (strip_crlf_again buf b))

-- The loop of the reader: messages are taken until there is none, which leaves the buffer `r`.
pub data Drains : List ℕ → List (List ℕ) → List ℕ → Type 0 where
  dry : (buf r : List ℕ) → next_message buf ≡ (r, none) → Drains buf [] r
  more :
      (buf r m : List ℕ) (ms : List (List ℕ)) (last : List ℕ)
      → next_message buf ≡ (r, some m)
      → Drains r ms last
      → Drains buf (m ∷ ms) last

Drains-same :
    (a b : List ℕ) (ms : List (List ℕ)) (r : List ℕ)
    → next_message a ≡ next_message b
    → Drains a ms r
    → Drains b ms r
Drains-same a b ms r e (dry a' r' h) = dry b r' (sym e ∙ h)
Drains-same a b ms r e (more a' s m ms' r' h d) = more b s m ms' r' (sym e ∙ h) d

-- If taking all messages from `a` gives `ms`, and taking all after `b` is read too gives `ns`, then
-- reading `a` and `b` at once gives `ms` and `ns`, and leaves the same bytes.
pub Drains-append :
    (a b : List ℕ) (ms ns : List (List ℕ)) (r s : List ℕ)
    → Drains a ms r
    → Drains (push r b) ns s
    → Drains (push a b) (ms ++ ns) s
unfolding push
Drains-append a b ms ns r s (dry a' r' h) d =
    Drains-same (r ++ b) (a ++ b) ns s (next_message-append_none a b r h) d
Drains-append a b ms ns r s (more a' q m ms' r' h rest) d =
    more (a ++ b) (q ++ b) m (ms' ++ ns) s (next_message-append a b q m h).1
      (Drains-append q b ms' ns r s rest d)
