-- ===== src/Ws/Stream.antt =====
-- Sequences of frames through the framer: messages in order, and fragments put together.
use sipr.Common.{
  ℕ, ◌+◌, ◌≤◌, true, false, List, [], ◌∷◌, ◌++◌, Option, none, some, ◌≡◌, refl, sym, ap, ◌∙◌,
  length, ltb, arith, length-append, All,
}
use mathlib.Core.List.{append_assoc, append-nil}
use sipr.Ws.Frames.{MaskFits, fragment, frame_lem, round-fragment}
use sipr.Ws.Rounds.{next_event-answer, next_event-again}
use sipr.Ws.Splits.{next_event-push, next_event-push-none}
use sipr.Ws.{
  max_message, Opcode, continuation, text, binary, close, ping, pong, frame, WsEvent, message,
  ping_event, close_event, ok, WsFramer, answer, new, push, deliver, round, header, round_with,
  event_loop, next_event,
}

-- What a whole unfragmented frame is to the reader, a pong apart.
abbrev pub event_of : Opcode → List ℕ → Option WsEvent
event_of continuation payload = none
event_of text payload = some (message payload)
event_of binary payload = some (message payload)
event_of close payload = some (close_event payload)
event_of ping payload = some (ping_event payload)
event_of pong payload = none

deliver-event_of :
    (f : WsFramer) (opcode : Opcode) (payload : List ℕ) (e : WsEvent)
    → f.is_open ≡ false
    → event_of opcode payload ≡ some e
    → deliver f opcode true payload ≡ answer f (ok (some e))
unfolding deliver
deliver-event_of f continuation payload e closed said = cc
deliver-event_of f text payload e closed said = rw closed (cc)
deliver-event_of f binary payload e closed said = rw closed (cc)
deliver-event_of f close payload e closed said = cc
deliver-event_of f ping payload e closed said = cc
deliver-event_of f pong payload e closed said = cc

-- Reading what `frame` wrote, masked or not, gives its event, and leaves the bytes behind the frame.
pub next_event-frame :
    (opcode : Opcode) (payload rest : List ℕ) (mask : Option (List ℕ)) (e : WsEvent)
    → length payload ≤ max_message
    → MaskFits mask
    → event_of opcode payload ≡ some e
    → next_event (record new { buf = frame opcode payload mask ++ rest })
      ≡ (record new { buf = rest }, ok (some e))
unfolding new
next_event-frame opcode payload rest mask e small fits said =
    next_event-answer (record new { buf = frame opcode payload mask ++ rest })
      (record new { buf = rest }) (ok (some e))
      (ap (λ s. round (record new { buf = s ++ rest })) (frame_lem opcode payload mask)
        ∙ round-fragment new true opcode payload rest mask small fits
        ∙ deliver-event_of (record new { buf = rest }) opcode payload e refl said)

-- The fragments of a message after the first, none of them the last.
pub middle : List (List ℕ × Option (List ℕ)) → List ℕ
middle [] = []
middle ((payload, mask) ∷ parts) = fragment false continuation payload mask ++ middle parts

unfoldable pub joined : List (List ℕ × Option (List ℕ)) → List ℕ
joined [] = []
joined ((payload, mask) ∷ parts) = payload ++ joined parts

-- The framer with a message open.
pub opened : List ℕ → List ℕ → WsFramer
opened buf bytes = record { buf = buf; message = bytes; is_open = true }

next_event-last :
    (bytes last rest : List ℕ) (mask : Option (List ℕ))
    → MaskFits mask
    → length (bytes ++ last) ≤ max_message
    → next_event (opened (fragment true continuation last mask ++ rest) bytes)
      ≡ (record new { buf = rest }, ok (some (message (bytes ++ last))))
unfolding opened new deliver
next_event-last bytes last rest mask fits small =
    let sum = length-append bytes last in
    let under : ltb max_message (length bytes + length last) ≡ false = ground (arith, sum) in
    next_event-answer (opened (fragment true continuation last mask ++ rest) bytes)
      (record new { buf = rest }) (ok (some (message (bytes ++ last))))
      (round-fragment (opened rest bytes) true continuation last rest mask (omega (arith, sum)) fits
        ∙ rw under refl)

next_event-middle :
    (bytes part rest : List ℕ) (mask : Option (List ℕ))
    → MaskFits mask
    → length (bytes ++ part) ≤ max_message
    → next_event (opened (fragment false continuation part mask ++ rest) bytes)
      ≡ next_event (opened rest (bytes ++ part))
unfolding opened deliver
next_event-middle bytes part rest mask fits small =
    let sum = length-append bytes part in
    let under : ltb max_message (length bytes + length part) ≡ false = ground (arith, sum) in
    next_event-again (opened (fragment false continuation part mask ++ rest) bytes)
      (opened rest (bytes ++ part))
      (round-fragment (opened rest bytes) false continuation part rest mask (omega (arith, sum))
          fits
        ∙ rw under refl)

next_event-middles :
    (parts : List (List ℕ × Option (List ℕ))) (bytes rest : List ℕ)
    → All (λ p. MaskFits p.1) parts
    → length (bytes ++ joined parts) ≤ max_message
    → next_event (opened (middle parts ++ rest) bytes)
      ≡ next_event (opened rest (bytes ++ joined parts))
unfolding middle joined
next_event-middles [] bytes rest fits small =
    ap (λ s. next_event (opened rest s)) (sym (append-nil bytes))
next_event-middles ((payload, mask) ∷ parts) bytes rest (fit, fits) small =
    ap (λ s. next_event (opened s bytes))
      (append_assoc (fragment false continuation payload mask) (middle parts) rest)
    ∙ next_event-middle bytes payload (middle parts ++ rest) mask fit (
        omega (
          arith,
          ap length (append_assoc bytes payload (joined parts)),
          length-append (bytes ++ payload) (joined parts),
        ))
    ∙ next_event-middles parts (bytes ++ payload) rest fits
        (omega (arith, ap length (append_assoc bytes payload (joined parts))))
    ∙ ap (λ s. next_event (opened rest s)) (append_assoc bytes payload (joined parts))

-- A message that comes in fragments, each masked or not, is given whole and once, if it is no longer
-- than `max_message`, and the bytes behind its last fragment are left.
pub next_event-fragments :
    (first last rest : List ℕ) (mask mask' : Option (List ℕ))
    (parts : List (List ℕ × Option (List ℕ)))
    → MaskFits mask
    → All (λ p. MaskFits p.1) parts
    → MaskFits mask'
    → length ((first ++ joined parts) ++ last) ≤ max_message
    → next_event (record new {
      buf =
          fragment false text first mask
          ++ (middle parts ++ (fragment true continuation last mask' ++ rest));
    })
      ≡ (record new { buf = rest }, ok (some (message ((first ++ joined parts) ++ last))))
unfolding new opened deliver
next_event-fragments first last rest mask mask' parts fit fits fit' small =
    let later = middle parts ++ (fragment true continuation last mask' ++ rest) in
    let sum = length-append (first ++ joined parts) last in
    next_event-again (record new { buf = fragment false text first mask ++ later })
      (opened later first)
      (round-fragment new false text first later mask
        (omega (arith, sum, length-append first (joined parts))) fit)
    ∙ next_event-middles parts first (fragment true continuation last mask' ++ rest) fits
        (omega (arith, sum))
    ∙ next_event-last (first ++ joined parts) last rest mask' fit' small

-- The events that a framer gives one after the other until there is none, and what it is then.
pub data Gives : WsFramer → List WsEvent → WsFramer → Type 0 where
  dry : (f g : WsFramer) → next_event f ≡ (g, ok none) → Gives f [] g
  more :
      (f g : WsFramer) (e : WsEvent) (es : List WsEvent) (h : WsFramer)
      → next_event f ≡ (g, ok (some e))
      → Gives g es h
      → Gives f (e ∷ es) h

next_event-new : next_event new ≡ (new, ok none)
unfolding next_event event_loop round round_with header new
next_event-new = refl

-- A message to send, and the key it is masked with.
pub written : List (List ℕ × Option (List ℕ)) → List ℕ
written [] = []
written ((payload, mask) ∷ ms) = frame text payload mask ++ written ms

pub messages : List (List ℕ × Option (List ℕ)) → List WsEvent
messages [] = []
messages ((payload, mask) ∷ ms) = message payload ∷ messages ms

abbrev pub CanSend : List ℕ × Option (List ℕ) → Type 0
CanSend (payload, mask) = (length payload ≤ max_message) × MaskFits mask

-- Messages of at most `max_message` bytes each, written as text frames with a mask of four bytes or none,
-- are the events that the reader takes, in order, and it ends as it began.
pub Gives-written :
    (ms : List (List ℕ × Option (List ℕ)))
    → All CanSend ms
    → Gives (push new (written ms)) (messages ms) new
unfolding written messages push new
Gives-written [] can = dry (push new []) new next_event-new
Gives-written ((payload, mask) ∷ ms) ((small, fits), can) =
    more (push new (written ((payload, mask) ∷ ms))) (push new (written ms)) (message payload)
      (messages ms) new
      (next_event-frame text payload (written ms) mask (message payload) small fits refl)
      (Gives-written ms can)

Gives-same :
    (f g : WsFramer) (es : List WsEvent) (h : WsFramer)
    → next_event f ≡ next_event g
    → Gives f es h
    → Gives g es h
Gives-same f g es h e (dry f' h' d) = dry g h (sym e ∙ d)
Gives-same f g es h e (more f' k x xs h' d rest) = more g k x xs h (sym e ∙ d) rest

-- If taking all events gives `es`, and taking all after `b` is read too gives `xs`, then with `b` read
-- before them the reader takes `es` and `xs`, and ends the same.
pub Gives-push :
    (f g : WsFramer) (b : List ℕ) (es xs : List WsEvent) (h : WsFramer)
    → Gives f es g
    → Gives (push g b) xs h
    → Gives (push f b) (es ++ xs) h
Gives-push f g b es xs h (dry f' g' e) later =
    Gives-same (push g b) (push f b) xs h (next_event-push-none f g b e) later
Gives-push f g b es xs h (more f' k e es' g' d rest) later =
    more (push f b) (push k b) e (es' ++ xs) h (next_event-push f k b (ok (some e)) d (λ q. cc))
      (Gives-push k g b es' xs h rest later)
