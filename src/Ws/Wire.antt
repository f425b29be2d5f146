-- ===== src/Ws/Wire.antt =====
-- crates/sipr-net/src/ws.rs: what a connection carries, the two write paths and the two read loops.
pub mod Ends
use sipr.Common.{ℕ, zero, suc, Bool, true, false, List, [], ◌++◌, Option, none, some, length}
use sipr.Rng.{fill}
use sipr.Framer
use sipr.Ws
use sipr.Ws.{
  Opcode, text, close, pong, frame, WsEvent, message, ping_event, close_event, Result, ok, err,
  WsFramer, next_event,
}

pub data Framing : Type 0 where
  sip web_socket : Framing

pub data Wire : Type 0 where
  sip_wire : Wire
  ws_wire : Bool → Wire

abbrev pub dialed : Framing → Wire
dialed sip = sip_wire
dialed web_socket = ws_wire true

abbrev pub accepted : Framing → Wire
accepted sip = sip_wire
accepted web_socket = ws_wire false

abbrev pub framing : Wire → Framing
framing sip_wire = sip
framing (ws_wire mask) = web_socket

-- The state of the generator, and the four bytes.
unfoldable pub mask_key : ℕ → ℕ × List ℕ
unfolding fill
mask_key rng = fill rng 4

-- The key of a frame, if the wire masks: only then is the generator used.
unfoldable pub key_for : Bool → ℕ → ℕ × Option (List ℕ)
unfolding mask_key
key_for true rng = let (left, key) = mask_key rng in (left, some key)
key_for false rng = (rng, none)

-- A writer: what `write_all` and `flush` make of its state, and whether they succeed.
module _ {ℓ} {W : Type ℓ} (write_all : W → List ℕ → W × Bool) (flush : W → W × Bool) where
  unfoldable pub write_bytes : W → List ℕ → W × Bool
  write_bytes out bytes =
      let (after, done) = write_all out bytes in
      elim done [ true ↦ flush after | false ↦ (after, false) ]

  -- The generator and the writer after it, and whether it succeeded.
  unfoldable pub write : Wire → W → Opcode → List ℕ → ℕ → ℕ × (W × Bool)
  unfolding write_bytes key_for frame
  write sip_wire out opcode payload rng = (rng, write_bytes out payload)
  write (ws_wire mask) out opcode payload rng =
      let (left, key) = key_for mask rng in (left, write_bytes out (frame opcode payload key))

pub data Next : Type 0 where
  whole : List ℕ → Next
  need_more : Next
  closed : Bool → Next

pub data StreamFramer : Type 0 where
  sip_framer : List ℕ → StreamFramer
  ws_framer : WsFramer → StreamFramer

unfoldable pub push : StreamFramer → List ℕ → StreamFramer
unfolding Framer.push Ws.push
push (sip_framer f) input = sip_framer (Framer.push f input)
push (ws_framer f) input = ws_framer (Ws.push f input)

unfoldable pub new : Framing → List ℕ → StreamFramer
unfolding push Ws.new
new sip initial = push (sip_framer []) initial
new web_socket initial = push (ws_framer Ws.new) initial

unfoldable pub found : Option (List ℕ) → Next
found none = need_more
found (some raw) = whole raw

-- `reply` is the caller's, with its state.
module _ {ℓ} {S : Type ℓ} (reply : S → Opcode → List ℕ → S × Bool) where
  -- What the loop does with an event: `rest` is the loop again.
  unfoldable pub ws_step :
      (WsFramer → S → WsFramer × S × Next)
      → S
      → WsFramer
      → Result (Option WsEvent)
      → WsFramer × S × Next
  ws_step rest s f (ok (some (message raw))) = (f, s, whole raw)
  ws_step rest s f (ok (some (ping_event payload))) =
      let (t, sent) = reply s pong payload in
      elim sent [ true ↦ rest f t | false ↦ (f, t, closed false) ]
  ws_step rest s f (ok (some (close_event payload))) = (f, (reply s close payload).0, closed true)
  ws_step rest s f (ok none) = (f, s, need_more)
  ws_step rest s f (err e) = (f, s, closed false)

  -- Each ping takes bytes, so the length of the buffer is fuel enough.
  unfoldable pub ws_loop : ℕ → WsFramer → S → WsFramer × S × Next
  unfolding ws_step next_event
  ws_loop zero f s = let (g, x) = next_event f in ws_step (λ h t. (h, t, need_more)) s g x
  ws_loop (suc n) f s = let (g, x) = next_event f in ws_step (ws_loop n) s g x

  unfoldable pub next_message : StreamFramer → S → StreamFramer × S × Next
  unfolding Framer.next_message ws_loop found
  next_message (sip_framer f) s =
      let (g, raw) = Framer.next_message f in (sip_framer g, s, found raw)
  next_message (ws_framer f) s = let (g, t, x) = ws_loop (length f.buf) f s in (ws_framer g, t, x)
