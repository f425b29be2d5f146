-- ===== src/Ws/Frames.antt =====
-- The header and the payload of a frame that `frame` writes, read back.
use sipr.Common.{
  ℕ, suc, ◌+◌, ◌*◌, ◌/◌, ◌%◌, ◌^◌, ◌≤◌, Bool, true, false, List, [], ◌∷◌, ◌++◌, Option, none, some,
  ◌≡◌, refl, sym, ap, ◌∙◌, inl, inr, length, take, drop, get_or, ltb, leb, if◌then◌else◌, arith,
  Bool-cases, length-append, take-length, drop-length, length-drop, take-append_le, take_all,
}
use mathlib.Core.List.{append_assoc}
use sipr.Common.Words.{be32, be64, of_be}
use sipr.Common.Bits.{bit_xor_cancel}
use sipr.Ws.{
  max_message, Opcode, continuation, text, binary, close, ping, pong, code, from_bits, mask_from,
  is_some, extended, short_length, masked, frame, ok, Header, WsFramer, payload_length, header_mask,
  header_opcode, header, deliver, unmasked, take_frame, round_with, round,
}

-- A masking key has four bytes.
abbrev pub MaskFits : Option (List ℕ) → Type 0
MaskFits none = Unit
MaskFits (some key) = length key ≡ 4

pub length-mask_from : (i : ℕ) (key bytes : List ℕ) → length (mask_from i key bytes) ≡ length bytes
unfolding mask_from
length-mask_from i key [] = refl
length-mask_from i key (b ∷ bytes) = ap suc (length-mask_from (suc i) key bytes)

-- Masking twice with the same key gives the payload back.
pub mask_from_twice : (i : ℕ) (key bytes : List ℕ) → mask_from i key (mask_from i key bytes) ≡ bytes
unfolding mask_from
mask_from_twice i key [] = refl
mask_from_twice i key (b ∷ bytes) =
    rw (bit_xor_cancel b (get_or key (i % 4) 0), mask_from_twice (suc i) key bytes) refl

from_bits-code :
    (fin : Bool) (opcode : Opcode)
    → from_bits (((if fin then 128 else 0) + code opcode) % 16) ≡ some opcode
unfolding from_bits
from_bits-code true continuation = refl
from_bits-code true text = refl
from_bits-code true binary = refl
from_bits-code true close = refl
from_bits-code true ping = refl
from_bits-code true pong = refl
from_bits-code false continuation = refl
from_bits-code false text = refl
from_bits-code false binary = refl
from_bits-code false close = refl
from_bits-code false ping = refl
from_bits-code false pong = refl

code-le : (opcode : Opcode) → code opcode ≤ 10
code-le continuation = omega arith
code-le text = omega arith
code-le binary = omega arith
code-le close = omega arith
code-le ping = omega arith
code-le pong = omega arith

short_length-le : (n : ℕ) → short_length n ≤ 127
unfolding short_length
short_length-le n = ground arith

read_two : (n : ℕ) → n ≤ 65535 → n / 256 % 256 * 256 + n % 256 ≡ n
read_two n h = omega arith

read_eight :
    (n : ℕ)
    → n ≤ max_message
    → of_be
            (n / 2 ^ 32 / 2 ^ 24 % 256)
            (n / 2 ^ 32 / 2 ^ 16 % 256)
            (n / 2 ^ 32 / 2 ^ 8 % 256)
            (n / 2 ^ 32 % 256)
          * 2 ^ 32
        + of_be (n / 2 ^ 24 % 256) (n / 2 ^ 16 % 256) (n / 2 ^ 8 % 256) (n % 256)
      ≡ n
read_eight n h = let upper : n / 2 ^ 32 ≡ 0 = omega arith in rw upper (omega arith)

-- The length is read back from the short field and what follows it.
payload_length-extended :
    (n : ℕ) (rest : List ℕ)
    → n ≤ max_message
    → payload_length (short_length n) (extended n ++ rest) ≡ some (n, 2 + length (extended n))
unfolding payload_length short_length extended be64 be32
payload_length-extended n rest h = elim (Bool-cases (ltb n 126)) [
  | inl e ↦ ground arith
  | inr e ↦ elim (Bool-cases (leb n 65535)) [
    | inl f ↦ ground (arith, e, f, read_two n)
    | inr f ↦ ground (arith, e, f, read_eight n)
  ]
]

-- The bytes before the payload.
unfoldable pub header_len : ℕ → Option (List ℕ) → ℕ
unfolding extended
header_len n none = 2 + length (extended n)
header_len n (some key) = 2 + length (extended n) + 4

length-masked :
    (mask : Option (List ℕ)) (payload : List ℕ)
    → MaskFits mask
    → length (masked mask payload) ≡ (if is_some mask then 4 else 0) + length payload
unfolding masked
length-masked none payload fits = omega arith
length-masked (some key) payload fits =
    omega (arith, length-append key (mask_from 0 key payload), length-mask_from 0 key payload, fits)

-- A frame as RFC 6455 has it, the last of its message or not.
unfoldable pub fragment : Bool → Opcode → List ℕ → Option (List ℕ) → List ℕ
unfolding extended short_length masked
fragment fin opcode payload mask =
    ((if fin then 128 else 0) + code opcode)
    ∷ ((if is_some mask then 128 else 0) + short_length (length payload))
    ∷ (extended (length payload) ++ masked mask payload)

pub frame_lem :
    (opcode : Opcode) (payload : List ℕ) (mask : Option (List ℕ))
    → frame opcode payload mask ≡ fragment true opcode payload mask
unfolding frame fragment
frame_lem opcode payload mask = refl

fin_bit : (fin : Bool) (opcode : Opcode) → leb 128 ((if fin then 128 else 0) + code opcode) ≡ fin
fin_bit true opcode = ground arith
fin_bit false opcode = ground (arith, code-le opcode)

pub read_header : Bool → Opcode → List ℕ → Option (List ℕ) → Header
read_header fin opcode payload mask = record {
  len = header_len (length payload) mask;
  fin = fin;
  opcode = opcode;
  mask = mask;
  payload_len = length payload;
}

take_first : (key xs ys : List ℕ) → length key ≡ 4 → take 4 ((key ++ xs) ++ ys) ≡ key
take_first key xs ys fits =
    rw
      (
        take-append_le 4 (key ++ xs) ys (omega (arith, length-append key xs, fits)),
        take-append_le 4 key xs (omega (arith, fits)),
      )
      (take_all 4 key (omega (arith, fits)))

header_mask-masked :
    (buf : List ℕ) (b0 b1 : ℕ) (opcode : Opcode) (payload rest : List ℕ) (mask : Option (List ℕ))
    → length payload ≤ max_message
    → MaskFits mask
    → leb 128 b1 ≡ is_some mask
    → drop (2 + length (extended (length payload))) buf ≡ masked mask payload ++ rest
    → header_mask buf b0 b1 opcode (some (length payload, 2 + length (extended (length payload))))
      ≡ ok (some (read_header (leb 128 b0) opcode payload mask))
unfolding header_mask read_header header_len masked
header_mask-masked buf b0 b1 opcode payload rest none small fits bit e =
    let under : ltb max_message (length payload) ≡ false = ground arith in rw (under, bit) refl
header_mask-masked buf b0 b1 opcode payload rest (some key) small fits bit e =
    let under : ltb max_message (length payload) ≡ false = ground arith in
    let there : ltb (length buf) (2 + length (extended (length payload)) + 4) ≡ false = ground (
      arith,
      length-drop (2 + length (extended (length payload))) buf,
      ap length e,
      length-append (key ++ mask_from 0 key payload) rest,
      length-append key (mask_from 0 key payload),
      fits,
    ) in
    let read : take 4 (drop (2 + length (extended (length payload))) buf) ≡ key =
      rw e (take_first key (mask_from 0 key payload) rest fits) in
    rw (under, bit, there, read) refl

drop-two : (x y : ℕ) (xs ys : List ℕ) → drop (2 + length xs) (x ∷ y ∷ (xs ++ ys)) ≡ ys
drop-two x y xs ys =
    let two : 2 + length xs ≡ length (x ∷ y ∷ xs) = omega arith in
    rw two (drop-length (x ∷ y ∷ xs) ys)

-- The bits of the second byte.
second_byte :
    (n : ℕ) (mask : Option (List ℕ))
    → (((if is_some mask then 128 else 0) + short_length n) % 128 ≡ short_length n)
      × (leb 128 ((if is_some mask then 128 else 0) + short_length n) ≡ is_some mask)
second_byte n none = (omega (arith, short_length-le n), ground (arith, short_length-le n))
second_byte n (some key) = (omega (arith, short_length-le n), ground arith)

pub header-fragment :
    (fin : Bool) (opcode : Opcode) (payload rest : List ℕ) (mask : Option (List ℕ))
    → length payload ≤ max_message
    → MaskFits mask
    → header (fragment fin opcode payload mask ++ rest)
      ≡ ok (some (read_header fin opcode payload mask))
unfolding header header_opcode fragment
header-fragment fin opcode payload rest mask small fits =
    let (low, high) = second_byte (length payload) mask in
    let b0 = (if fin then 128 else 0) + code opcode in
    let b1 = (if is_some mask then 128 else 0) + short_length (length payload) in
    rw
      (
        from_bits-code fin opcode,
        low,
        append_assoc (extended (length payload)) (masked mask payload) rest,
        payload_length-extended (length payload) (masked mask payload ++ rest) small,
      )
      (header_mask-masked (b0 ∷ b1 ∷ (extended (length payload) ++ (masked mask payload ++ rest)))
          b0 b1 opcode payload rest mask small fits high
          (drop-two b0 b1 (extended (length payload)) (masked mask payload ++ rest))
        ∙ ap (λ f. ok (some (read_header f opcode payload mask))) (fin_bit fin opcode))

-- A frame is its header and a body, which unmasks to the payload.
pub fragment_parts :
    (fin : Bool) (opcode : Opcode) (payload : List ℕ) (mask : Option (List ℕ))
    → MaskFits mask
    → (head body : List ℕ) × (fragment fin opcode payload mask ≡ head ++ body)
      × (length head ≡ header_len (length payload) mask)
      × (length body ≡ length payload)
      × (unmasked mask body ≡ payload)
unfolding fragment header_len masked unmasked
fragment_parts fin opcode payload none fits = (
  ((if fin then 128 else 0) + code opcode)
      ∷ short_length (length payload)
      ∷ extended (length payload),
  payload,
  (let none_added : 0 + short_length (length payload) ≡ short_length (length payload) =
        omega arith in
      rw none_added refl),
  omega arith,
  refl,
  refl,
)
fragment_parts fin opcode payload (some key) fits = (
  ((if fin then 128 else 0) + code opcode)
      ∷ (128 + short_length (length payload))
      ∷ (extended (length payload) ++ key),
  mask_from 0 key payload,
  ap (λ s. ((if fin then 128 else 0) + code opcode) ∷ (128 + short_length (length payload)) ∷ s)
      (sym (append_assoc (extended (length payload)) key (mask_from 0 key payload))),
  omega (arith, length-append (extended (length payload)) key, fits),
  length-mask_from 0 key payload,
  mask_from_twice 0 key payload,
)

parts_taken :
    (h n : ℕ) (head body rest : List ℕ)
    → length head ≡ h
    → length body ≡ n
    → (take n (drop h ((head ++ body) ++ rest)) ≡ body)
      × (drop (h + n) ((head ++ body) ++ rest) ≡ rest)
      × (ltb (length ((head ++ body) ++ rest)) (h + n) ≡ false)
parts_taken h n head body rest e f =
    let all : h + n ≡ length (head ++ body) = omega (arith, length-append head body, e, f) in
    (
      rw (append_assoc head body rest, ← e, drop-length head (body ++ rest), ← f)
          (take-length body rest),
      rw all (drop-length (head ++ body) rest),
      ground (arith, all, length-append (head ++ body) rest),
    )

-- A frame at the front of the buffer is taken out whole.
pub round-fragment :
    (f : WsFramer) (fin : Bool) (opcode : Opcode) (payload rest : List ℕ) (mask : Option (List ℕ))
    → length payload ≤ max_message
    → MaskFits mask
    → round (record f { buf = fragment fin opcode payload mask ++ rest })
      ≡ deliver (record f { buf = rest }) opcode fin payload
unfolding round round_with take_frame read_header
round-fragment f fin opcode payload rest mask small fits =
    let (head, body, e, at_head, at_body, back) = fragment_parts fin opcode payload mask fits in
    let (taken, left, enough) =
      parts_taken (header_len (length payload) mask) (length payload) head body rest at_head
        at_body in
    rw (header-fragment fin opcode payload rest mask small fits, e, enough, taken, left, back) refl
