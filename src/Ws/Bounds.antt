-- ===== src/Ws/Bounds.antt =====
-- The state of the framer, and the length of the messages that it gives.
use sipr.Common.{
  ℕ, ◌+◌, ◌≤◌, Bool, false, List, [], Option, none, some, ◌≡◌, refl, inl, inr, length, take, drop,
  ltb, subst, arith, Bool-cases, length-append, length-drop, length-take,
}
use sipr.Ws.Frames.{length-mask_from}
use sipr.Ws.Rounds.{Goes, stays, steps, next_event_ends, header-ge, round-shorter}
use sipr.Ws.{
  max_message, Opcode, continuation, text, binary, close, ping, pong, WsEvent, message, Result, ok,
  err, Header, WsFramer, Round, again, answer, new, header, deliver, unmasked, take_frame,
  round_with, round, next_event,
}

-- What holds of the framer between calls: no fragment waits unless a message is open, and what waits
-- is no longer than a message may be.
pub IsValid : WsFramer → Type 0
IsValid f = (f.is_open ≡ false → f.message ≡ []) × (length f.message ≤ max_message)

pub new-IsValid : IsValid new
unfolding IsValid new
new-IsValid = (λ e. refl, omega arith)

-- A round leaves a valid framer, and a message that it gives is no longer than `max_message`.
pub RoundFits : Round → Type 0
RoundFits (again g) = IsValid g
RoundFits (answer g x) =
    IsValid g × ((bytes : List ℕ) → x ≡ ok (some (message bytes)) → length bytes ≤ max_message)

deliver-RoundFits :
    (f : WsFramer) (opcode : Opcode) (fin : Bool) (payload : List ℕ)
    → length payload ≤ max_message
    → IsValid f
    → RoundFits (deliver f opcode fin payload)
unfolding deliver IsValid RoundFits
deliver-RoundFits f continuation fin payload small (closed, fits) =
    ground (arith, length-append f.message payload)
deliver-RoundFits f text fin payload small (closed, fits) = ground arith
deliver-RoundFits f binary fin payload small (closed, fits) = ground arith
deliver-RoundFits f close fin payload small v = (v, ground arith)
deliver-RoundFits f ping fin payload small v = (v, ground arith)
deliver-RoundFits f pong fin payload small v = v

length-unmasked :
    (mask : Option (List ℕ)) (bytes : List ℕ) → length (unmasked mask bytes) ≡ length bytes
unfolding unmasked
length-unmasked none bytes = refl
length-unmasked (some key) bytes = length-mask_from 0 key bytes

take_frame-RoundFits :
    (f : WsFramer) (h : Header)
    → h.payload_len ≤ max_message
    → IsValid f
    → RoundFits (take_frame f h)
unfolding take_frame RoundFits IsValid
take_frame-RoundFits f h small v = elim (Bool-cases (ltb (length f.buf) (h.len + h.payload_len))) [
  | inl w ↦ rw w (v, λ bytes e. cc)
  | inr w ↦ rw w (
      deliver-RoundFits (record f { buf = drop (h.len + h.payload_len) f.buf }) h.opcode h.fin
        (unmasked h.mask (take h.payload_len (drop h.len f.buf)))
        (omega (
          arith,
          length-unmasked h.mask (take h.payload_len (drop h.len f.buf)),
          length-take h.payload_len (drop h.len f.buf),
        ))
        v)
]

round-RoundFits : (f : WsFramer) → IsValid f → RoundFits (round f)
unfolding round round_with RoundFits
round-RoundFits f v = go (header f.buf) refl
  where
    go : (r : Result (Option Header)) → header f.buf ≡ r → RoundFits (round f)
    go (err x) q = rw q (v, λ bytes e. cc)
    go (ok none) q = rw q (v, λ bytes e. cc)
    go (ok (some h)) q = rw q (take_frame-RoundFits f h (header-ge f.buf h q).1 v)

-- From a valid framer `next_event` leaves a valid one, and a message that it gives is no longer than
-- `max_message`.
pub next_event-IsValid :
    (f : WsFramer)
    → IsValid f
    → IsValid (next_event f).0
      × ((bytes : List ℕ)
          → (next_event f).1 ≡ ok (some (message bytes))
          → length bytes ≤ max_message)
unfolding IsValid RoundFits
next_event-IsValid f v =
    let (h, goes, done) = next_event_ends f in
    subst RoundFits done (round-RoundFits h (keeps f h goes v))
  where
    keeps : (f h : WsFramer) → Goes f h → IsValid f → IsValid h
    keeps f f' (stays f'') v = v
    keeps f h (steps f' g h' e goes) v = keeps g h goes (subst RoundFits e (round-RoundFits f v))

-- An event takes two bytes at least.
deliver-answer :
    (f g : WsFramer) (opcode : Opcode) (fin : Bool) (payload : List ℕ) (x : Result (Option WsEvent))
    → deliver f opcode fin payload ≡ answer g x
    → length g.buf ≡ length f.buf
unfolding deliver
deliver-answer f g continuation fin payload x e = ground arith
deliver-answer f g text fin payload x e = ground arith
deliver-answer f g binary fin payload x e = ground arith
deliver-answer f g close fin payload x e = ground arith
deliver-answer f g ping fin payload x e = ground arith
deliver-answer f g pong fin payload x e = cc

round-answer_shorter :
    (f g : WsFramer) (event : WsEvent)
    → round f ≡ answer g (ok (some event))
    → 2 + length g.buf ≤ length f.buf
unfolding round round_with take_frame
round-answer_shorter f g event e = go (header f.buf) refl
  where
    go : (r : Result (Option Header)) → header f.buf ≡ r → 2 + length g.buf ≤ length f.buf
    go (err x) q = cc (rw q at e)
    go (ok none) q = cc (rw q at e)
    go (ok (some h)) q = elim (Bool-cases (ltb (length f.buf) (h.len + h.payload_len))) [
      | inl w ↦ cc (rw (q, w) at e)
      | inr w ↦
          let enough : h.len + h.payload_len ≤ length f.buf = ground arith in
          let rest = drop (h.len + h.payload_len) f.buf in
          omega (
            arith,
            (header-ge f.buf h q).0,
            deliver-answer (record f { buf = rest }) g h.opcode h.fin
                (unmasked h.mask (take h.payload_len (drop h.len f.buf))) (ok (some event))
                (rw (q, w) at e),
            length-drop (h.len + h.payload_len) f.buf,
          )
    ]

pub next_event-shorter :
    (f g : WsFramer) (event : WsEvent)
    → next_event f ≡ (g, ok (some event))
    → 2 + length g.buf ≤ length f.buf
next_event-shorter f g event e =
    let (h, goes, done) = next_event_ends f in
    let last = round-answer_shorter h g event (rw e at done) in omega (arith, shrinks f h goes)
  where
    shrinks : (f h : WsFramer) → Goes f h → length h.buf ≤ length f.buf
    shrinks f f' (stays f'') = omega arith
    shrinks f h (steps f' g h' e goes) = omega (arith, round-shorter f g e, shrinks g h goes)
