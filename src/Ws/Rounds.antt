-- ===== src/Ws/Rounds.antt =====
-- The rounds of `next_event`: each that goes on takes a frame, and the state stays well formed.
use sipr.Common.{
  ℕ, zero, suc, ◌+◌, ◌%◌, ◌≤◌, Bool, List, [], ◌∷◌, Option, none, some, ◌≡◌, refl, sym, ap, ◌∙◌,
  inl, inr, ◌⊎◌, length, take, drop, ltb, arith, Bool-cases, Option-cases, length-drop,
}
use sipr.Ws.{
  max_message, Opcode, continuation, text, binary, close, ping, pong, from_bits, WsEvent, Result,
  ok, err, Header, WsFramer, Round, again, answer, payload_length, header_mask, header_opcode,
  header, deliver, unmasked, take_frame, round_with, round, after_round, event_loop, next_event,
}

payload_length-ge : (n : ℕ) (s : List ℕ) (p : ℕ × ℕ) → payload_length n s ≡ some p → 2 ≤ p.1
unfolding payload_length
payload_length-ge n s p e = ground arith

header_mask-ge :
    (buf : List ℕ) (b0 b1 : ℕ) (opcode : Opcode) (p : ℕ × ℕ) (h : Header)
    → header_mask buf b0 b1 opcode (some p) ≡ ok (some h)
    → (p.1 ≤ h.len) × (h.payload_len ≤ max_message)
unfolding header_mask
header_mask-ge buf b0 b1 opcode p h e = ground arith

header_opcode-ge :
    (s : List ℕ) (b0 b1 : ℕ) (found : Option Opcode) (h : Header)
    → header_opcode (b0 ∷ b1 ∷ s) b0 b1 s found ≡ ok (some h)
    → (2 ≤ h.len) × (h.payload_len ≤ max_message)
unfolding header_opcode
header_opcode-ge s b0 b1 none h e = cc
header_opcode-ge s b0 b1 (some opcode) h e = elim (Option-cases (payload_length (b1 % 128) s)) [
  | inl n ↦ cc (ap (header_mask (b0 ∷ b1 ∷ s) b0 b1 opcode) n)
  | inr (p, n) ↦
      let two = payload_length-ge (b1 % 128) s p n in
      let (more, small) = header_mask-ge (b0 ∷ b1 ∷ s) b0 b1 opcode p h (rw n at e) in
      (omega arith, small)
]

pub header-ge :
    (buf : List ℕ) (h : Header)
    → header buf ≡ ok (some h)
    → (2 ≤ h.len) × (h.payload_len ≤ max_message)
unfolding header
header-ge [] h e = cc
header-ge (b0 ∷ []) h e = cc
header-ge (b0 ∷ b1 ∷ s) h e = header_opcode-ge s b0 b1 (from_bits (b0 % 16)) h e

deliver-buf :
    (f g : WsFramer) (opcode : Opcode) (fin : Bool) (payload : List ℕ)
    → deliver f opcode fin payload ≡ again g
    → length g.buf ≡ length f.buf
unfolding deliver
deliver-buf f g continuation fin payload e = ground arith
deliver-buf f g text fin payload e = ground arith
deliver-buf f g binary fin payload e = ground arith
deliver-buf f g close fin payload e = cc
deliver-buf f g ping fin payload e = cc
deliver-buf f g pong fin payload e = ground arith

take_frame-shorter :
    (f g : WsFramer) (h : Header)
    → 2 ≤ h.len
    → take_frame f h ≡ again g
    → 2 + length g.buf ≤ length f.buf
unfolding take_frame
take_frame-shorter f g h two e =
    let total = h.len + h.payload_len in
    elim (Bool-cases (ltb (length f.buf) total)) [
      | inl w ↦ cc (rw w at e)
      | inr w ↦
          let enough : total ≤ length f.buf = ground arith in
          omega (
            arith,
            deliver-buf (record f { buf = drop total f.buf }) g h.opcode h.fin
                (unmasked h.mask (take h.payload_len (drop h.len f.buf))) (rw w at e),
            length-drop total f.buf,
          )
    ]

-- A round that goes on takes two bytes at least.
pub round-shorter : (f g : WsFramer) → round f ≡ again g → 2 + length g.buf ≤ length f.buf
unfolding round round_with
round-shorter f g e = go (header f.buf) refl
  where
    go : (r : Result (Option Header)) → header f.buf ≡ r → 2 + length g.buf ≤ length f.buf
    go (err x) q = cc (rw q at e)
    go (ok none) q = cc (rw q at e)
    go (ok (some h)) q = take_frame-shorter f g h (header-ge f.buf h q).0 (rw q at e)

pub Round-cases :
    (r : Round)
    → ((g : WsFramer) × (r ≡ again g))
      ⊎ ((g : WsFramer) × (x : Result (Option WsEvent)) × (r ≡ answer g x))
Round-cases (again g) = inl (g, refl)
Round-cases (answer g x) = inr (g, x, refl)

round_empty : (f : WsFramer) → length f.buf ≤ 0 → round f ≡ answer f (ok none)
unfolding round round_with header
round_empty f h = go f.buf refl
  where
    go : (s : List ℕ) → f.buf ≡ s → round f ≡ answer f (ok none)
    go [] e = rw e refl
    go (b ∷ s) e = absurd (omega (arith, ap length e))

loop_step :
    (n : ℕ) (f : WsFramer) (r : Round)
    → round f ≡ r
    → event_loop (suc n) f ≡ after_round (event_loop n) r
unfolding event_loop
loop_step n f r e = ap (after_round (event_loop n)) e

-- More rounds than bytes change nothing.
event_loop_enough :
    (n m : ℕ) (f : WsFramer) → length f.buf ≤ n → length f.buf ≤ m → event_loop n f ≡ event_loop m f
unfolding event_loop
event_loop_enough zero zero f h k = refl
event_loop_enough zero (suc m) f h k = sym (loop_step m f (answer f (ok none)) (round_empty f h))
event_loop_enough (suc n) zero f h k = loop_step n f (answer f (ok none)) (round_empty f k)
event_loop_enough (suc n) (suc m) f h k = elim (Round-cases (round f)) [
  | inl (g, e) ↦
      let less = round-shorter f g e in
      loop_step n f (again g) e
      ∙ event_loop_enough n m g (omega arith) (omega arith)
      ∙ sym (loop_step m f (again g) e)
  | inr (g, x, e) ↦ loop_step n f (answer g x) e ∙ sym (loop_step m f (answer g x) e)
]

unfoldable both : Round → WsFramer × Result (Option WsEvent)
both (again g) = (g, ok none)
both (answer g x) = (g, x)

-- A round that answers ends the loop.
pub next_event-answer :
    (f g : WsFramer) (x : Result (Option WsEvent)) → round f ≡ answer g x → next_event f ≡ (g, x)
unfolding next_event event_loop both
next_event-answer f g x e = go (length f.buf) (omega arith)
  where
    go : (n : ℕ) → length f.buf ≤ n → event_loop n f ≡ (g, x)
    go zero h = ap both (sym (round_empty f h) ∙ e)
    go (suc n) h = loop_step n f (answer g x) e

-- A round that goes on goes on for ever: the fuel is enough.
pub next_event-again : (f g : WsFramer) → round f ≡ again g → next_event f ≡ next_event g
unfolding next_event event_loop both
next_event-again f g e = go (length f.buf) (omega arith)
  where
    go : (n : ℕ) → length f.buf ≤ n → event_loop n f ≡ next_event g
    go zero h = absurd (omega (arith, round-shorter f g e))
    go (suc n) h =
        loop_step n f (again g) e
        ∙ (event_loop_enough n (length g.buf) g (omega (arith, round-shorter f g e)) (omega arith))

-- Rounds that go on, as the loop takes them.
pub data Goes : WsFramer → WsFramer → Type 0 where
  stays : (f : WsFramer) → Goes f f
  steps : (f g h : WsFramer) → round f ≡ again g → Goes g h → Goes f h

-- The loop of `next_event` ends: after finitely many rounds that go on, one answers, and its answer
-- is the answer of `next_event`.
pub next_event_ends :
    (f : WsFramer)
    → (h : WsFramer) × Goes f h × (round h ≡ answer (next_event f).0 (next_event f).1)
next_event_ends f = go (length f.buf) f (omega arith)
  where
    go :
        (n : ℕ) (f : WsFramer)
        → length f.buf ≤ n
        → (h : WsFramer) × Goes f h × (round h ≡ answer (next_event f).0 (next_event f).1)
    go zero f small = (
      f,
      stays f,
      rw (next_event-answer f f (ok none) (round_empty f small)) (round_empty f small),
    )
    go (suc n) f small = elim (Round-cases (round f)) [
      | inl (g, e) ↦
          let (h, goes, done) = go n g (omega (arith, round-shorter f g e)) in
          (h, steps f g h e goes, rw (next_event-again f g e) done)
      | inr (g, x, e) ↦ (f, stays f, rw (next_event-answer f g x e) e)
    ]
