-- ===== src/Ws/Splits.antt =====
-- How the framer sees a stream of frames that arrives in pieces.
use sipr.Common.{
  ℕ, zero, suc, ◌+◌, ◌%◌, ◌<◌, ◌≤◌, Bool, true, false, List, [], ◌∷◌, ◌++◌, Option, none, some, ◌≡◌,
  refl, sym, ◌≢◌, ap, ◌∙◌, inl, inr, ◌⊎◌, length, take, drop, get_or, ltb, arith, Bool-cases,
  Option-cases, length-append, length-drop, take-append_le, drop-append_le,
}
use sipr.Ws.Rounds.{next_event-answer, next_event-again, Goes, stays, steps, next_event_ends}
use sipr.Ws.{
  Opcode, continuation, text, binary, close, ping, pong, from_bits, WsEvent, FrameError, Result, ok,
  err, Header, WsFramer, Round, again, answer, push, payload_length, header_mask, header_opcode,
  header, deliver, unmasked, take_frame, round_with, round, next_event,
}

-- What more bytes do to a round that did not wait for them.
unfoldable pub grown : List ℕ → Round → Round
unfolding push
grown b (again g) = again (push g b)
grown b (answer g r) = answer (push g b) r

get_or-append : (xs ys : List ℕ) (i : ℕ) → i < length xs → get_or (xs ++ ys) i 0 ≡ get_or xs i 0
get_or-append [] ys i h = absurd (omega arith)
get_or-append (x ∷ xs) ys zero h = refl
get_or-append (x ∷ xs) ys (suc i) h = get_or-append xs ys i (omega arith)

payload_length-append :
    (n : ℕ) (s b : List ℕ) (p : ℕ × ℕ)
    → payload_length n s ≡ some p
    → (payload_length n (s ++ b) ≡ some p) × (p.1 ≤ 2 + length s)
unfolding payload_length
payload_length-append n s b p h = ground (
  arith,
  length-append s b,
  get_or-append s b 0,
  get_or-append s b 1,
  get_or-append s b 2,
  get_or-append s b 3,
  get_or-append s b 4,
  get_or-append s b 5,
  get_or-append s b 6,
  get_or-append s b 7,
)

header_mask-append :
    (buf b : List ℕ) (b0 b1 : ℕ) (opcode : Opcode) (p : ℕ × ℕ) (h : Header)
    → p.1 ≤ length buf
    → header_mask buf b0 b1 opcode (some p) ≡ ok (some h)
    → header_mask (buf ++ b) b0 b1 opcode (some p) ≡ ok (some h)
unfolding header_mask
header_mask-append buf b b0 b1 opcode (n, len) h small e = ground (
  arith,
  length-append buf b,
  drop-append_le len buf b,
  take-append_le 4 (drop len buf) b,
  length-drop len buf,
)

header_mask-err :
    (buf b : List ℕ) (b0 b1 : ℕ) (opcode : Opcode) (p : ℕ × ℕ) (x : FrameError)
    → header_mask buf b0 b1 opcode (some p) ≡ err x
    → header_mask (buf ++ b) b0 b1 opcode (some p) ≡ err x
unfolding header_mask
header_mask-err buf b b0 b1 opcode (n, len) x e = ground (arith, length-append buf b)

header_opcode-append :
    (s b : List ℕ) (b0 b1 : ℕ) (found : Option Opcode) (h : Header)
    → header_opcode (b0 ∷ b1 ∷ s) b0 b1 s found ≡ ok (some h)
    → header_opcode (b0 ∷ b1 ∷ (s ++ b)) b0 b1 (s ++ b) found ≡ ok (some h)
unfolding header_opcode
header_opcode-append s b b0 b1 none h e = cc
header_opcode-append s b b0 b1 (some opcode) h e =
    elim (Option-cases (payload_length (b1 % 128) s)) [
      | inl n ↦ cc (ap (header_mask (b0 ∷ b1 ∷ s) b0 b1 opcode) n)
      | inr (p, n) ↦
          let (same, there) = payload_length-append (b1 % 128) s b p n in
          rw same (header_mask-append (b0 ∷ b1 ∷ s) b b0 b1 opcode p h (omega arith) (rw n at e))
    ]

header_opcode-err :
    (s b : List ℕ) (b0 b1 : ℕ) (found : Option Opcode) (x : FrameError)
    → header_opcode (b0 ∷ b1 ∷ s) b0 b1 s found ≡ err x
    → header_opcode (b0 ∷ b1 ∷ (s ++ b)) b0 b1 (s ++ b) found ≡ err x
unfolding header_opcode
header_opcode-err s b b0 b1 none x e = e
header_opcode-err s b b0 b1 (some opcode) x e = elim (Option-cases (payload_length (b1 % 128) s)) [
  | inl n ↦ cc (ap (header_mask (b0 ∷ b1 ∷ s) b0 b1 opcode) n)
  | inr (p, n) ↦
      let (same, there) = payload_length-append (b1 % 128) s b p n in
      rw same (header_mask-err (b0 ∷ b1 ∷ s) b b0 b1 opcode p x (rw n at e))
]

header-append :
    (buf b : List ℕ) (h : Header) → header buf ≡ ok (some h) → header (buf ++ b) ≡ ok (some h)
unfolding header
header-append [] b h e = cc
header-append (b0 ∷ []) b h e = cc
header-append (b0 ∷ b1 ∷ s) b h e = header_opcode-append s b b0 b1 (from_bits (b0 % 16)) h e

header-err : (buf b : List ℕ) (x : FrameError) → header buf ≡ err x → header (buf ++ b) ≡ err x
unfolding header
header-err [] b x e = cc
header-err (b0 ∷ []) b x e = cc
header-err (b0 ∷ b1 ∷ s) b x e = header_opcode-err s b b0 b1 (from_bits (b0 % 16)) x e

-- Whatever a frame does, it does not look at the bytes behind it.
deliver-push :
    (f : WsFramer) (b : List ℕ) (opcode : Opcode) (fin : Bool) (payload : List ℕ)
    → deliver (push f b) opcode fin payload ≡ grown b (deliver f opcode fin payload)
unfolding deliver push grown
deliver-push f b continuation fin payload = ground arith
deliver-push f b text fin payload = ground arith
deliver-push f b binary fin payload = ground arith
deliver-push f b close fin payload = refl
deliver-push f b ping fin payload = refl
deliver-push f b pong fin payload = refl

waits :
    (f : WsFramer) (h : Header)
    → ltb (length f.buf) (h.len + h.payload_len) ≡ true
    → take_frame f h ≡ answer f (ok none)
unfolding take_frame
waits f h e = rw e

take_frame-push :
    (f : WsFramer) (b : List ℕ) (h : Header)
    → ltb (length f.buf) (h.len + h.payload_len) ≡ false
    → take_frame (push f b) h ≡ grown b (take_frame f h)
unfolding take_frame push
take_frame-push f b h e =
    let total = h.len + h.payload_len in
    let fits : total ≤ length f.buf = ground arith in
    let still : ltb (length (f.buf ++ b)) total ≡ false = ground (arith, length-append f.buf b) in
    rw
      (
        e,
        still,
        drop-append_le total f.buf b fits,
        drop-append_le h.len f.buf b (omega arith),
        take-append_le h.payload_len (drop h.len f.buf) b (omega (arith, length-drop h.len f.buf)),
      )
      (deliver-push (record f { buf = drop total f.buf }) b h.opcode h.fin
        (unmasked h.mask (take h.payload_len (drop h.len f.buf))))

-- A round waits for more bytes, or does the same when there are more behind.
pub round-push :
    (f : WsFramer) (b : List ℕ)
    → (round f ≡ answer f (ok none)) ⊎ (round (push f b) ≡ grown b (round f))
unfolding round round_with push grown
round-push f b = go (header f.buf) refl
  where
    go :
        (r : Result (Option Header))
        → header f.buf ≡ r
        → (round f ≡ answer f (ok none)) ⊎ (round (push f b) ≡ grown b (round f))
    go (err x) e = inr (rw (e, header-err f.buf b x e) refl)
    go (ok none) e = inl (rw e refl)
    go (ok (some h)) e = elim (Bool-cases (ltb (length f.buf) (h.len + h.payload_len))) [
      | inl w ↦ inl (rw e (waits f h w))
      | inr w ↦ inr (rw (e, header-append f.buf b h e) (take_frame-push f b h w))
    ]

-- Only a round that waits answers nothing, and it changes nothing.
deliver_answers :
    (f g : WsFramer) (opcode : Opcode) (fin : Bool) (payload : List ℕ)
    → deliver f opcode fin payload ≢ answer g (ok none)
unfolding deliver
deliver_answers f g continuation fin payload e = ground arith
deliver_answers f g text fin payload e = ground arith
deliver_answers f g binary fin payload e = ground arith
deliver_answers f g close fin payload e = ground arith
deliver_answers f g ping fin payload e = ground arith
deliver_answers f g pong fin payload e = cc

round-none : (f g : WsFramer) → round f ≡ answer g (ok none) → f ≡ g
unfolding round round_with take_frame
round-none f g e = go (header f.buf) refl
  where
    go : (r : Result (Option Header)) → header f.buf ≡ r → f ≡ g
    go (err x) q = cc (rw q at e)
    go (ok none) q = cc (rw q at e)
    go (ok (some h)) q = elim (Bool-cases (ltb (length f.buf) (h.len + h.payload_len))) [
      | inl w ↦ cc (rw (q, w) at e)
      | inr w ↦ absurd (
          deliver_answers (record f { buf = drop (h.len + h.payload_len) f.buf }) g h.opcode h.fin
            (unmasked h.mask (take h.payload_len (drop h.len f.buf))) (rw (q, w) at e))
    ]

Goes-push : (f h : WsFramer) (b : List ℕ) → Goes f h → next_event (push f b) ≡ next_event (push h b)
unfolding grown
Goes-push f f' b (stays f'') = refl
Goes-push f h b (steps f' g h' e goes) = elim (round-push f b) [
  | inl waits ↦ cc (sym waits ∙ e)
  | inr same ↦ next_event-again (push f b) (push g b) (same ∙ ap (grown b) e) ∙ Goes-push g h b goes
]

-- An event or an error that a buffer gives stays the next one when bytes arrive behind it, which
-- wait in the buffer that it leaves.
pub next_event-push :
    (f g : WsFramer) (b : List ℕ) (x : Result (Option WsEvent))
    → next_event f ≡ (g, x)
    → x ≢ ok none
    → next_event (push f b) ≡ (push g b, x)
unfolding grown
next_event-push f g b x e some_event =
    let (h, goes, done) = next_event_ends f in
    let there : round h ≡ answer g x = rw e at done in
    elim (round-push h b) [
      | inl waits ↦ absurd (some_event (cc (sym there ∙ waits)))
      | inr same ↦
          Goes-push f h b goes
          ∙ next_event-answer (push h b) (push g b) x (same ∙ ap (grown b) there)
    ]

-- Where a buffer gives no event, the next answer is the same as if the bytes that arrive later had
-- come at once.
pub next_event-push-none :
    (f g : WsFramer) (b : List ℕ)
    → next_event f ≡ (g, ok none)
    → next_event (push g b) ≡ next_event (push f b)
next_event-push-none f g b e =
    let (h, goes, done) = next_event_ends f in
    let there : round h ≡ answer g (ok none) = rw e at done in
    sym (Goes-push f h b goes ∙ ap (λ k. next_event (push k b)) (round-none h g there))
