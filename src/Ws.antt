-- ===== src/Ws.antt =====
-- crates/sipr-net/src/ws.rs: the frames of SIP over WebSocket. A byte is a number; `usize` has 64 bits.
pub mod Frames
pub mod Bounds
pub mod Rounds
pub mod Splits
pub mod Stream
pub mod Wire
pub mod Handshake
mod Runs
use Prim.Native.Nat.{bit_xor}
use sipr.Common.{
  ℕ, zero, suc, ◌+◌, ◌-◌, ◌*◌, ◌/◌, ◌%◌, ◌^◌, Bool, true, false, not, List, [], ◌∷◌, ◌++◌, Option,
  none, some, length, take, drop, get_or, ltb, leb, ◌==◌, if◌then◌else◌,
}
use sipr.Common.Words.{be64, of_be}

-- `16 * 1024 * 1024`
abbrev pub max_message : ℕ
max_message = 16777216

pub data Opcode : Type 0 where
  continuation text binary close ping pong : Opcode

-- `opcode as u8`
abbrev pub code : Opcode → ℕ
code continuation = 0
code text = 1
code binary = 2
code close = 8
code ping = 9
code pong = 10

unfoldable pub from_bits : ℕ → Option Opcode
from_bits bits =
    if bits == 0
    then some continuation
    else if bits == 1
    then some text
    else if bits == 2
    then some binary
    else if bits == 8
    then some close
    else if bits == 9
    then some ping
    else if bits == 10
    then some pong
    else none

-- `b ^ key[i % 4]`, for the bytes from place `i` on.
unfoldable pub mask_from : ℕ → List ℕ → List ℕ → List ℕ
mask_from i key [] = []
mask_from i key (b ∷ bytes) = bit_xor b (get_or key (i % 4) 0) ∷ mask_from (suc i) key bytes

abbrev pub is_some {ℓ} : {A : Type ℓ} → Option A → Bool
is_some none = false
is_some (some a) = true

-- What follows the first two bytes: the length, if it did not fit.
unfoldable pub extended : ℕ → List ℕ
unfolding be64
extended n = if ltb n 126 then [] else if leb n 65535 then n / 256 % 256 ∷ n % 256 ∷ [] else be64 n

unfoldable pub short_length : ℕ → ℕ
short_length n = if ltb n 126 then n else if leb n 65535 then 126 else 127

unfoldable pub masked : Option (List ℕ) → List ℕ → List ℕ
unfolding mask_from
masked none payload = payload
masked (some key) payload = key ++ mask_from 0 key payload

-- The masking key, if there is one, has four bytes. `0x80 | opcode` is a sum.
unfoldable pub frame : Opcode → List ℕ → Option (List ℕ) → List ℕ
unfolding extended short_length masked
frame opcode payload mask =
    (128 + code opcode)
    ∷ ((if is_some mask then 128 else 0) + short_length (length payload))
    ∷ (extended (length payload) ++ masked mask payload)

pub data WsEvent : Type 0 where
  message ping_event close_event : List ℕ → WsEvent

pub data FrameError : Type 0 where
  bad_opcode : ℕ → FrameError
  fragmentation too_large : FrameError

pub data Result {ℓ} (A : Type ℓ) : Type ℓ where
  ok : A → Result A
  err : FrameError → Result A

pub record Header : Type 0 where
  pub len : ℕ
  pub fin : Bool
  pub opcode : Opcode
  pub mask : Option (List ℕ)
  pub payload_len : ℕ

pub record WsFramer : Type 0 where
  pub buf : List ℕ
  pub message : List ℕ
  pub is_open : Bool

unfoldable pub new : WsFramer
new = record { buf = []; message = []; is_open = false }

unfoldable pub push : WsFramer → List ℕ → WsFramer
push f input = record f { buf = f.buf ++ input }

-- `buf.get(2..4)` and `buf.get(2..10)`: the length and the size of the header, if they are there.
unfoldable pub payload_length : ℕ → List ℕ → Option (ℕ × ℕ)
payload_length n s =
    if n == 126
    then (if ltb (length s) 2 then none else some (get_or s 0 0 * 256 + get_or s 1 0, 4))
    else if n == 127
    then (if ltb (length s) 8
        then none
        else some (
          of_be (get_or s 0 0) (get_or s 1 0) (get_or s 2 0) (get_or s 3 0) * 2 ^ 32
              + of_be (get_or s 4 0) (get_or s 5 0) (get_or s 6 0) (get_or s 7 0),
          10,
        ))
    else some (n, 2)

-- From the length on.
unfoldable pub header_mask : List ℕ → ℕ → ℕ → Opcode → Option (ℕ × ℕ) → Result (Option Header)
header_mask buf b0 b1 opcode none = ok none
header_mask buf b0 b1 opcode (some (payload_len, len)) =
    if ltb max_message payload_len
    then err too_large
    else if leb 128 b1
    then (if ltb (length buf) (len + 4)
        then ok none
        else ok (
            some (record {
              len = len + 4;
              fin = leb 128 b0;
              opcode = opcode;
              mask = some (take 4 (drop len buf));
              payload_len = payload_len;
            })))
    else ok (
        some (record {
          len = len;
          fin = leb 128 b0;
          opcode = opcode;
          mask = none;
          payload_len = payload_len;
        }))

unfoldable pub header_opcode : List ℕ → ℕ → ℕ → List ℕ → Option Opcode → Result (Option Header)
unfolding payload_length header_mask
header_opcode buf b0 b1 s none = err (bad_opcode (b0 % 16))
header_opcode buf b0 b1 s (some opcode) = header_mask buf b0 b1 opcode (payload_length (b1 % 128) s)

unfoldable pub header : List ℕ → Result (Option Header)
unfolding from_bits header_opcode
header [] = ok none
header (b0 ∷ []) = ok none
header (b0 ∷ b1 ∷ s) = header_opcode (b0 ∷ b1 ∷ s) b0 b1 s (from_bits (b0 % 16))

-- A round of the loop goes on with a new state, or answers.
pub data Round : Type 0 where
  again : WsFramer → Round
  answer : WsFramer → Result (Option WsEvent) → Round

-- What a whole frame does, once its bytes are out of the buffer.
unfoldable pub deliver : WsFramer → Opcode → Bool → List ℕ → Round
deliver f continuation fin payload =
    if not f.is_open
    then answer f (err fragmentation)
    else if ltb max_message (length f.message + length payload)
    then answer f (err too_large)
    else if fin
    then answer (record f { message = []; is_open = false })
        (ok (some (message (f.message ++ payload))))
    else again (record f { message = f.message ++ payload })
deliver f text fin payload =
    if f.is_open
    then answer f (err fragmentation)
    else if fin
    then answer f (ok (some (message payload)))
    else again (record f { message = payload; is_open = true })
deliver f binary fin payload =
    if f.is_open
    then answer f (err fragmentation)
    else if fin
    then answer f (ok (some (message payload)))
    else again (record f { message = payload; is_open = true })
deliver f close fin payload = answer f (ok (some (close_event payload)))
deliver f ping fin payload = answer f (ok (some (ping_event payload)))
deliver f pong fin payload = again f

unfoldable pub unmasked : Option (List ℕ) → List ℕ → List ℕ
unfolding mask_from
unmasked none payload = payload
unmasked (some key) payload = mask_from 0 key payload

unfoldable pub take_frame : WsFramer → Header → Round
unfolding deliver unmasked
take_frame f h =
    let total = h.len + h.payload_len in
    if ltb (length f.buf) total
    then answer f (ok none)
    else deliver (record f { buf = drop total f.buf }) h.opcode h.fin
        (unmasked h.mask (take h.payload_len (drop h.len f.buf)))

unfoldable pub round_with : WsFramer → Result (Option Header) → Round
unfolding take_frame
round_with f (err e) = answer f (err e)
round_with f (ok none) = answer f (ok none)
round_with f (ok (some h)) = take_frame f h

unfoldable pub round : WsFramer → Round
unfolding round_with header
round f = round_with f (header f.buf)

-- What the loop does with a round: `rest` is the loop again.
abbrev pub after_round :
    (WsFramer → WsFramer × Result (Option WsEvent)) → Round → WsFramer × Result (Option WsEvent)
after_round rest (again g) = rest g
after_round rest (answer g r) = (g, r)

-- The fuel is the length of the buffer: a round that goes on takes two bytes at least.
unfoldable pub event_loop : ℕ → WsFramer → WsFramer × Result (Option WsEvent)
unfolding round
event_loop zero f = (f, ok none)
event_loop (suc n) f = after_round (event_loop n) (round f)

unfoldable pub next_event : WsFramer → WsFramer × Result (Option WsEvent)
unfolding event_loop
next_event f = event_loop (length f.buf) f
