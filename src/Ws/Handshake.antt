-- ===== src/Ws/Handshake.antt =====
-- The HTTP upgrade of crates/sipr-net/src/ws.rs. What a stream gives is the list of its reads, and a read
-- of nothing, or the end of the list, is the end of the stream; what is written is bytes. With its result
-- a side that succeeds gives the reads that it leaves in the stream; one that fails drops the stream.
pub mod Heads
pub mod Lines
pub mod Keys
pub mod Answers
pub mod Agree
mod Runs
use sipr.Common.{
  ℕ, zero, suc, ◌*◌, Bool, true, false, not, ◌&&◌, ◌||◌, List, [], ◌∷◌, ◌++◌, Option, none, some,
  ltb, leb, ◌==◌, if◌then◌else◌, length, drop, map, filter,
}
use sipr.Common.Texts.{
  codes, utf8, trim, is_whitespace, is_empty, equals, eq_ignore_ascii_case, starts_with, words_loop,
  split, before, from, has,
}
use sipr.Hash.{sha1}
use sipr.Base64.{encode}
use sipr.Rng.{fill}
use sipr.Message.{cut_at, lines, first_line}
use sipr.Message.Lines.{blank_line}

pub record WsRequest : Type 0 where
  pub path : List ℕ
  pub origin : Option (List ℕ)

pub data RequestError : Type 0 where
  bad_path path_token empty_origin origin_token : RequestError

-- `char::is_control`
abbrev pub is_control : ℕ → Bool
is_control c = ltb c 32 || (leb 127 c && ltb c 160)

-- `check_head_token`: does the value hold what ends or splits a line or a header?
abbrev pub splits : List ℕ → Bool
splits [] = false
splits (c ∷ s) = is_whitespace c || is_control c || splits s

pub data Result {ℓ κ} (E : Type κ) (A : Type ℓ) : Type (ℓ ⊔ κ) where
  ok : A → Result E A
  err : E → Result E A

abbrev with_origin : List ℕ → Option (List ℕ) → Result RequestError WsRequest
with_origin path none = ok record { path = path; origin = none }
with_origin path (some o) =
    if is_empty o
    then err empty_origin
    else if splits o
    then err origin_token
    else ok record { path = path; origin = some o }

unfoldable pub new : List ℕ → Option (List ℕ) → Result RequestError WsRequest
new path origin =
    if not (starts_with path (codes "/"))
    then err bad_path
    else if splits path
    then err path_token
    else with_origin path origin

abbrev pub guid : List ℕ
guid = codes "258EAFA5-E914-47DA-95CA-C5AB0DC85B11"

unfoldable pub accept_key : List ℕ → List ℕ
accept_key key = encode (sha1 (utf8 (trim key) ++ guid))

abbrev pub max_head : ℕ
max_head = 16 * 1024

pub data HandshakeError : Type 0 where
  head_too_long closed refused wrong_accept no_accept not_upgrade other_version : HandshakeError

-- The head with its blank line, what was read behind it, and the reads to come.
pub record Head : Type 0 where
  pub head : List ℕ
  pub rest : List ℕ
  pub reads : List (List ℕ)

unfoldable pub read_head : List ℕ → List (List ℕ) → Result HandshakeError Head
unfolding cut_at
read_head head [] = elim (cut_at blank_line head) [
  | some p ↦ ok record { head = p.0 ++ blank_line; rest = p.1; reads = [] }
  | none ↦ if ltb max_head (length head) then err head_too_long else err closed
]
read_head head (chunk ∷ reads) =
    let more = read_head (head ++ chunk) reads in
    elim (cut_at blank_line head) [
      | some p ↦ ok record { head = p.0 ++ blank_line; rest = p.1; reads = chunk ∷ reads }
      | none ↦
          if ltb max_head (length head)
          then err head_too_long
          else if is_empty chunk
          then err closed
          else more
    ]

abbrev pub is_named : List ℕ → List ℕ → Bool
is_named name line = has b':' line && eq_ignore_ascii_case (trim (before b':' line)) name

abbrev pub value_of : List ℕ → List ℕ
value_of line = trim (drop 1 (from b':' line))

-- `values.join(",")`
abbrev pub join : List (List ℕ) → List ℕ
join [] = []
join (value ∷ []) = value
join (value ∷ next ∷ values) = value ++ (codes "," ++ join (next ∷ values))

abbrev pub joined : List (List ℕ) → Option (List ℕ)
joined [] = none
joined (value ∷ values) = some (join (value ∷ values))

-- The value of a header in the lines of a head.
unfoldable pub header : List (List ℕ) → List ℕ → Option (List ℕ)
unfolding trim eq_ignore_ascii_case
header all name = joined (map value_of (filter (is_named name) (drop 1 all)))

abbrev pub origin_line : Option (List ℕ) → List ℕ
origin_line none = []
origin_line (some o) = codes "Origin: " ++ (o ++ codes "\r\n")

unfoldable pub client_request : List ℕ → WsRequest → List ℕ → List ℕ
client_request host request key =
    codes "GET "
    ++ (request.path
        ++ (codes " HTTP/1.1\r\nHost: "
            ++ (host
                ++ (codes "\r\n"
                    ++ (origin_line request.origin
                        ++ (codes "Upgrade: websocket\r\nConnection: Upgrade\r\nSec-WebSocket-Key: "
                            ++ (key
                                ++ codes
                                    "\r\nSec-WebSocket-Version: 13\r\nSec-WebSocket-Protocol: sip\r\n\r\n")))))))

abbrev pub any_offered : List ℕ → List (List ℕ) → Bool
any_offered name [] = false
any_offered name (p ∷ ps) = eq_ignore_ascii_case (trim p) name || any_offered name ps

abbrev pub offers : List ℕ → Option (List ℕ) → Bool
offers name none = false
offers name (some value) = any_offered name (split b',' value)

abbrev pub is_some_and : (List ℕ → Bool) → Option (List ℕ) → Bool
is_some_and test none = false
is_some_and test (some value) = test value

unfoldable pub is_upgrade : List (List ℕ) → Bool
unfolding header split
is_upgrade all =
    starts_with (first_line all) (codes "GET ")
    && is_some_and (λ v. eq_ignore_ascii_case v (codes "websocket")) (header all (codes "Upgrade"))
    && offers (codes "upgrade") (header all (codes "Connection"))

unfoldable pub response : List ℕ → Bool → List ℕ
unfolding accept_key
response key offers_sip =
    codes
      "HTTP/1.1 101 Switching Protocols\r\nUpgrade: websocket\r\nConnection: Upgrade\r\nSec-WebSocket-Accept: "
    ++ (accept_key key
        ++ (codes "\r\n"
            ++ ((if offers_sip then codes "Sec-WebSocket-Protocol: sip\r\n" else [])
                ++ codes "\r\n")))

abbrev pub refuse : List ℕ → List ℕ → List ℕ
refuse status extra =
    codes "HTTP/1.1 " ++ (status ++ (codes "\r\n" ++ (extra ++ codes "Content-Length: 0\r\n\r\n")))

pub record ServerUpgrade : Type 0 where
  pub path : List ℕ
  pub origin : Option (List ℕ)
  pub rest : List ℕ

abbrev pub second_word : List (List ℕ) → List ℕ
second_word (a ∷ b ∷ words) = b
second_word _ = codes "/"

-- What the server makes of the lines of a head: the bytes that it writes, and its result.
unfoldable pub answer :
    List (List ℕ)
    → List ℕ
    → List (List ℕ)
    → List ℕ × Result HandshakeError (ServerUpgrade × List (List ℕ))
unfolding is_upgrade response words_loop
answer all rest reads = elim (header all (codes "Sec-WebSocket-Key")) [
  | none ↦ (utf8 (refuse (codes "400 Bad Request") []), err not_upgrade)
  | some key ↦
      if not (is_upgrade all)
      then (utf8 (refuse (codes "400 Bad Request") []), err not_upgrade)
      else if is_some_and (λ v. equals (trim v) (codes "13"))
          (header all (codes "Sec-WebSocket-Version"))
      then (
        utf8 (response key (offers (codes "sip") (header all (codes "Sec-WebSocket-Protocol")))),
        ok (
          record {
            path = second_word (words_loop is_whitespace [] (first_line all));
            origin = header all (codes "Origin");
            rest = rest;
          },
          reads,
        ),
      )
      else (
        utf8 (refuse (codes "426 Upgrade Required") (codes "Sec-WebSocket-Version: 13\r\n")),
        err other_version,
      )
]

abbrev pub accepts :
    List ℕ
    → Option (List ℕ)
    → List ℕ
    → List (List ℕ)
    → Result HandshakeError (List ℕ × List (List ℕ))
accepts key (some accept) rest reads =
    if equals accept (accept_key key) then ok (rest, reads) else err wrong_accept
accepts key none rest reads = err no_accept

-- `String::from_utf8_lossy` is a parameter.
module _ (from_utf8_lossy : List ℕ → List ℕ) where
  unfoldable pub server_handshake :
      List (List ℕ) → List ℕ × Result HandshakeError (ServerUpgrade × List (List ℕ))
  unfolding read_head answer lines
  server_handshake reads = elim (read_head [] reads) [
    | err e ↦ ([], err e)
    | ok h ↦ answer (lines (from_utf8_lossy h.head)) h.rest h.reads
  ]

  -- What the client makes of the answer, under the key that it sent.
  unfoldable pub client_reads :
      List ℕ → List (List ℕ) → Result HandshakeError (List ℕ × List (List ℕ))
  unfolding read_head header accept_key lines
  client_reads key reads = elim (read_head [] reads) [
    | err e ↦ err e
    | ok h ↦
        let all = lines (from_utf8_lossy h.head) in
        if starts_with (first_line all) (codes "HTTP/1.1 101")
        then accepts key (header all (codes "Sec-WebSocket-Accept")) h.rest h.reads
        else err refused
  ]

  -- What a generator draws for the key, the bytes that the client writes, and its result.
  unfoldable pub client_handshake :
      List ℕ
      → WsRequest
      → ℕ
      → List (List ℕ)
      → ℕ × List ℕ × Result HandshakeError (List ℕ × List (List ℕ))
  unfolding client_request client_reads fill encode
  client_handshake host request rng reads =
      let (next, nonce) = fill rng 16 in
      let key = encode nonce in
      (next, utf8 (client_request host request key), client_reads key reads)
