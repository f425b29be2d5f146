-- ===== src/Framer/Delivery.antt =====
-- A whole message in the stream is delivered; a Content-Length that wraps the sum is a trap.
use mathlib.Core.List.{append_assoc}
use sipr.Common.{
  ℕ, ◌+◌, ◌%◌, ◌^◌, ◌≤◌, ◌<◌, false, List, [], ◌∷◌, ◌++◌, some, ◌≡◌, refl, sym, ap, ◌∙◌, ltb,
  length, take, arith, length-append, take-length, drop-length,
}
use sipr.Framer.{
  cr, lf, starts_with, position_of, find_subslice, strip_crlf, blank_line, cut, next_in,
  next_message, content_length,
}
use sipr.Framer.Chunks.{position_of-append, next_in_at, Drains, dry, more}

-- The bytes of a message: its headers, a blank line, its body.
abbrev pub message : List ℕ → List ℕ → List ℕ
message head body = head ++ (blank_line ++ body)

strip_crlf_clean : (s : List ℕ) → starts_with (cr ∷ lf ∷ []) s ≡ false → strip_crlf s ≡ s
unfolding strip_crlf starts_with
strip_crlf_clean [] h = refl
strip_crlf_clean (a ∷ []) h = refl
strip_crlf_clean (a ∷ b ∷ r) h = ground arith

starts_clean :
    (head behind : List ℕ)
    → 2 ≤ length head
    → starts_with (cr ∷ lf ∷ []) head ≡ false
    → starts_with (cr ∷ lf ∷ []) (head ++ behind) ≡ false
unfolding starts_with
starts_clean [] behind h e = absurd (omega arith)
starts_clean (a ∷ []) behind h e = absurd (omega arith)
starts_clean (a ∷ b ∷ r) behind h e = ground arith

find_separator :
    (head behind : List ℕ)
    → position_of blank_line (head ++ blank_line) ≡ some (length head)
    → find_subslice (head ++ (blank_line ++ behind)) blank_line ≡ some (length head)
unfolding find_subslice
find_separator head behind h =
    let at : position_of blank_line (head ++ (blank_line ++ behind)) ≡ some (length head) =
      rw append_assoc at
        (position_of-append blank_line (head ++ blank_line) behind (length head) h) in
    ground (arith, at, length-append head (blank_line ++ behind))

cut_at :
    (m rest : List ℕ) (sep : ℕ)
    → (sep + 4 + content_length (take sep (m ++ rest))) % 2 ^ 64 ≡ length m
    → cut (m ++ rest) sep ≡ (rest, some m)
unfolding cut
cut_at m rest sep total =
    let enough : ltb (length (m ++ rest)) (length m) ≡ false =
      ground (arith, length-append m rest) in
    rw (total, enough, drop-length m rest, take-length m rest) refl

-- A message whose headers hold no blank line, do not begin with CRLF, and name the length of the
-- body, and that is of two header bytes at least and less than 2 ^ 64 bytes, is the next message of every stream that begins with it, and what follows is left.
pub next_message_delivers :
    (head body rest : List ℕ)
    → 2 ≤ length head
    → starts_with (cr ∷ lf ∷ []) head ≡ false
    → position_of blank_line (head ++ blank_line) ≡ some (length head)
    → content_length head ≡ length body
    → length (message head body) < 2 ^ 64
    → next_message (message head body ++ rest) ≡ (rest, some (message head body))
unfolding next_message
next_message_delivers head body rest long clean only says fits =
    let stream = message head body ++ rest in
    let shape : stream ≡ head ++ (blank_line ++ (body ++ rest)) =
      append_assoc head (blank_line ++ body) rest in
    let found : find_subslice stream blank_line ≡ some (length head) =
      rw shape (find_separator head (body ++ rest) only) in
    let kept : strip_crlf stream ≡ stream =
      strip_crlf_clean stream
        (rw shape (starts_clean head (blank_line ++ (body ++ rest)) long clean)) in
    let headers : take (length head) stream ≡ head =
      rw shape (take-length head (blank_line ++ (body ++ rest))) in
    let size = length-append head (blank_line ++ body) in
    ap next_in kept
    ∙ next_in_at stream (length head) (omega (arith, length-append (message head body) rest, size))
        found
    ∙ cut_at (message head body) rest (length head) (rw (headers, says) (omega (arith, size)))

next_message_stays :
    (head rest : List ℕ)
    → 2 ≤ length head
    → starts_with (cr ∷ lf ∷ []) head ≡ false
    → position_of blank_line (head ++ blank_line) ≡ some (length head)
    → length head + 4 + content_length head ≡ 2 ^ 64
    → next_message (message head rest) ≡ (message head rest, some [])
unfolding next_message cut
next_message_stays head rest long clean only wraps =
    let stream = message head rest in
    let kept : strip_crlf stream ≡ stream =
      strip_crlf_clean stream (starts_clean head (blank_line ++ rest) long clean) in
    ap next_in kept
    ∙ next_in_at stream (length head) (omega (arith, length-append head (blank_line ++ rest)))
        (find_separator head rest only)
    ∙ rw (take-length head (blank_line ++ rest), wraps) (ground arith)

-- A buffer whose next message leaves it as it was is never drained.
stays-Drains :
    (buf a last : List ℕ) (ms : List (List ℕ))
    → next_message buf ≡ (buf, some [])
    → next_message a ≡ next_message buf
    → ¬ Drains a ms last
stays-Drains buf a last ms stays same (dry a' r h) = cc (sym h ∙ same ∙ stays)
stays-Drains buf a last ms stays same (more a' r m ms' last' h rest) =
    let left : r ≡ buf = ap (λ p. p.0) (sym h ∙ same ∙ stays) in
    stays-Drains buf r last' ms' stays (ap next_message left) rest

-- Take headers of two bytes at least that hold no blank line, do not begin with CRLF, and name a length
-- whose sum with theirs and the blank line's is 2 ^ 64. When a buffer begins with them and their blank
-- line, whatever follows, the loop that takes messages does not end: no list of messages drains it.
pub message-Drains :
    (head rest last : List ℕ) (ms : List (List ℕ))
    → 2 ≤ length head
    → starts_with (cr ∷ lf ∷ []) head ≡ false
    → position_of blank_line (head ++ blank_line) ≡ some (length head)
    → length head + 4 + content_length head ≡ 2 ^ 64
    → ¬ Drains (message head rest) ms last
message-Drains head rest last ms long clean only wraps =
    stays-Drains (message head rest) (message head rest) last ms
      (next_message_stays head rest long clean only wraps) refl
