-- ===== src/Ws/Handshake/Keys.antt =====
-- The accept key and the keys of crates/sipr-net/src/ws.rs are Base64, and so ASCII and without spaces.
use sipr.Common.{
  ℕ, ◌/◌, ◌%◌, ◌^◌, ◌≤◌, ◌<◌, true, false, not, List, [], ◌∷◌, ◌++◌, ◌≡◌, refl, ltb, length, arith,
  All, All-append, length-append,
}
use sipr.Common.Texts.{codes, utf8, trim}
use sipr.Common.Tables.{holds_below, holds_below-at}
use sipr.Hash.{sha1}
use sipr.Base64.{letter, joined, encode}
use sipr.Ws.Handshake.{splits, max_head, response, accept_key, guid}

letter_whole : (i : ℕ) → i < 64 → splits (letter i ∷ []) ≡ false
unfolding letter
letter_whole i small =
    let held : not (splits (letter i ∷ [])) ≡ true =
      holds_below-at (λ i. not (splits (letter i ∷ []))) {size = 64} i small
        (unfold holds_below in refl) in
    ground (arith, held)

splits-cons :
    (c : ℕ) (s : List ℕ) → splits (c ∷ []) ≡ false → splits s ≡ false → splits (c ∷ s) ≡ false
splits-cons c s h k = ground (arith, h, k)

splits-letter : (i : ℕ) (s : List ℕ) → i < 64 → splits s ≡ false → splits (letter i ∷ s) ≡ false
splits-letter i s small h = splits-cons (letter i) s (letter_whole i small) h

-- Base64 holds no spaces and no control characters.
pub encode_whole : (bytes : List ℕ) → splits (encode bytes) ≡ false
unfolding encode
encode_whole [] = refl
encode_whole (a ∷ []) =
    let n = joined a 0 0 in
    splits-letter (n / 2 ^ 18 % 64) (letter (n / 2 ^ 12 % 64) ∷ 61 ∷ 61 ∷ []) (omega arith)
      (splits-letter (n / 2 ^ 12 % 64) (61 ∷ 61 ∷ []) (omega arith) refl)
encode_whole (a ∷ b ∷ []) =
    let n = joined a b 0 in
    splits-letter (n / 2 ^ 18 % 64) (letter (n / 2 ^ 12 % 64) ∷ letter (n / 2 ^ 6 % 64) ∷ 61 ∷ [])
      (omega arith)
      (splits-letter (n / 2 ^ 12 % 64) (letter (n / 2 ^ 6 % 64) ∷ 61 ∷ []) (omega arith)
        (splits-letter (n / 2 ^ 6 % 64) (61 ∷ []) (omega arith) refl))
encode_whole (a ∷ b ∷ c ∷ rest) =
    let n = joined a b c in
    splits-letter (n / 2 ^ 18 % 64)
      (letter (n / 2 ^ 12 % 64) ∷ letter (n / 2 ^ 6 % 64) ∷ letter (n % 64) ∷ encode rest)
      (omega arith)
      (splits-letter (n / 2 ^ 12 % 64) (letter (n / 2 ^ 6 % 64) ∷ letter (n % 64) ∷ encode rest)
        (omega arith)
        (splits-letter (n / 2 ^ 6 % 64) (letter (n % 64) ∷ encode rest) (omega arith)
          (splits-letter (n % 64) (encode rest) (omega arith) (encode_whole rest))))

letter_ascii : (i : ℕ) → i < 64 → letter i < 128
unfolding letter
letter_ascii i small =
    let held : ltb (letter i) 128 ≡ true =
      holds_below-at (λ i. ltb (letter i) 128) {size = 64} i small (unfold holds_below in refl) in
    ground (arith, held)

pub encode_ascii : (bytes : List ℕ) → All (λ c. c < 128) (encode bytes)
unfolding encode
encode_ascii [] = tt
encode_ascii (a ∷ []) =
    let n = joined a 0 0 in
    (
      letter_ascii (n / 2 ^ 18 % 64) (omega arith),
      (letter_ascii (n / 2 ^ 12 % 64) (omega arith), (omega arith, (omega arith, tt))),
    )
encode_ascii (a ∷ b ∷ []) =
    let n = joined a b 0 in
    (
      letter_ascii (n / 2 ^ 18 % 64) (omega arith),
      (
        letter_ascii (n / 2 ^ 12 % 64) (omega arith),
        (letter_ascii (n / 2 ^ 6 % 64) (omega arith), (omega arith, tt)),
      ),
    )
encode_ascii (a ∷ b ∷ c ∷ rest) =
    let n = joined a b c in
    (
      letter_ascii (n / 2 ^ 18 % 64) (omega arith),
      (
        letter_ascii (n / 2 ^ 12 % 64) (omega arith),
        (
          letter_ascii (n / 2 ^ 6 % 64) (omega arith),
          (letter_ascii (n % 64) (omega arith), encode_ascii rest),
        ),
      ),
    )

pub accept_key_whole : (key : List ℕ) → splits (accept_key key) ≡ false
unfolding accept_key
accept_key_whole key = encode_whole (sha1 (utf8 (trim key) ++ guid))

accept_key_ascii : (key : List ℕ) → All (λ c. c < 128) (accept_key key)
unfolding accept_key
accept_key_ascii key = encode_ascii (sha1 (utf8 (trim key) ++ guid))

length-accept_key : (key : List ℕ) → length (accept_key key) ≡ 28
unfolding accept_key encode sha1
length-accept_key key = refl

pub response_ascii : (key : List ℕ) → All (λ c. c < 128) (response key true)
unfolding response
response_ascii key =
    All-append (λ c. c < 128)
      (codes
        "HTTP/1.1 101 Switching Protocols\r\nUpgrade: websocket\r\nConnection: Upgrade\r\nSec-WebSocket-Accept: ")
      (accept_key key ++ codes "\r\nSec-WebSocket-Protocol: sip\r\n\r\n") (omega arith)
      (All-append (λ c. c < 128) (accept_key key) (codes "\r\nSec-WebSocket-Protocol: sip\r\n\r\n")
        (accept_key_ascii key) (omega arith))

pub length-response : (key : List ℕ) → length (response key true) ≤ max_head
unfolding response
length-response key = omega (
  arith,
  length-accept_key key,
  length-append (accept_key key) (codes "\r\nSec-WebSocket-Protocol: sip\r\n\r\n"),
)
