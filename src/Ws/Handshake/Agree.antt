-- ===== src/Ws/Handshake/Agree.antt =====
-- The two sides of the upgrade in crates/sipr-net/src/ws.rs take each other's messages.
use mathlib.Core.List.{append_assoc}
use sipr.Common.{
  ℕ, ◌+◌, ◌≤◌, ◌<◌, true, false, List, [], ◌∷◌, ◌++◌, Option, some, ◌≡◌, refl, sym, ap, subst, ◌∙◌,
  length, arith, if◌then◌else◌, All, length-append,
}
use sipr.Common.Texts.{codes, utf8, utf8_ascii, is_empty, equals, Lacks}
use sipr.Base64.{encode}
use sipr.Rng.{fill}
use sipr.Message.{cut_at, lines}
use sipr.Message.Lines.{IsLine, tails, blank_line, cut_at-head, lines-tails_blank}
use sipr.Ws.Handshake.{
  WsRequest, ok, err, wrong_accept, Head, new, splits, max_head, read_head, client_request, header,
  response, accept_key, server_handshake, accepts, client_reads, client_handshake,
}
use sipr.Ws.Handshake.Heads.{concat, read_head-lem}
use sipr.Ws.Handshake.Lines.{IsOrigin, new-ok, get_line, asked_lines, client_request-lines}
use sipr.Ws.Handshake.Keys.{encode_whole, accept_key_whole, response_ascii, length-response}
use sipr.Ws.Handshake.Answers.{
  answer-request, get_line-IsLine, asked_lines-IsLine, switch_line, answer_lines,
  answer_lines-IsLine, response-lines, header-accept,
}

-- A head that comes in over any reads is read as its lines, the empty one included.
read_head-lines :
    (from_utf8_lossy : List ℕ → List ℕ) (text line : List ℕ) (more : List (List ℕ)) (rest : List ℕ)
    (reads : List (List ℕ))
    → ((s : List ℕ) → All (λ c. c < 128) s → from_utf8_lossy s ≡ s)
    → text ≡ (line ++ tails more) ++ blank_line
    → IsLine line
    → All IsLine more
    → All (λ c. c < 128) text
    → length text ≤ max_head
    → concat reads ≡ text ++ rest
    → All (λ chunk. is_empty chunk ≡ false) reads
    → (h : Head) × (read_head [] reads ≡ ok h)
      × (lines (from_utf8_lossy h.head) ≡ line ∷ (more ++ ([] ∷ [])))
      × (h.rest ++ concat h.reads ≡ rest)
read_head-lines from_utf8_lossy text line more rest reads lossy_ascii written h hs ascii fits came
      filled =
    let size : length text ≡ length (line ++ tails more) + 4 =
      ap length written ∙ length-append (line ++ tails more) blank_line in
    let found : cut_at blank_line (concat reads) ≡ some (line ++ tails more, rest) =
      ap (cut_at blank_line)
        (came ∙ ap (λ s. s ++ rest) written ∙ append_assoc (line ++ tails more) blank_line rest)
      ∙ cut_at-head line more rest h hs in
    let (got, read, front, back) =
      read_head-lem [] reads (line ++ tails more) rest found filled (omega (arith, fits, size)) in
    (
      got,
      read,
      ap (λ s. lines (from_utf8_lossy s)) (front ∙ sym written)
          ∙ ap lines (lossy_ascii text ascii ∙ written)
          ∙ lines-tails_blank line more h hs,
      back,
    )

equals_refl : (s : List ℕ) → equals s s ≡ true
equals_refl [] = refl
equals_refl (c ∷ s) = ground (arith, equals_refl s)

accepts-lines :
    (key rest : List ℕ) (reads : List (List ℕ))
    → accepts key
        (header
          (switch_line ∷ (answer_lines (accept_key key) ++ ([] ∷ [])))
          (codes "Sec-WebSocket-Accept"))
        rest
        reads
      ≡ ok (rest, reads)
accepts-lines key rest reads =
    ap (λ value. accepts key value rest reads)
      (header-accept (accept_key key) (accept_key_whole key))
    ∙ ap (λ b. if b then ok (rest, reads) else err wrong_accept) (equals_refl (accept_key key))

module _ (from_utf8_lossy : List ℕ → List ℕ)
    (lossy_ascii : (s : List ℕ) → All (λ c. c < 128) s → from_utf8_lossy s ≡ s) where
  server-answered :
      (host path key rest : List ℕ) (origin : Option (List ℕ)) (reads : List (List ℕ))
      → splits path ≡ false
      → is_empty path ≡ false
      → IsOrigin origin
      → Lacks 10 host
      → Lacks 13 host
      → splits key ≡ false
      → All (λ c. c < 128) (client_request host (record { path = path; origin = origin }) key)
      → length (client_request host (record { path = path; origin = origin }) key) ≤ max_head
      → concat reads ≡ client_request host (record { path = path; origin = origin }) key ++ rest
      → All (λ chunk. is_empty chunk ≡ false) reads
      → (early : List ℕ) × (late : List (List ℕ)) × (server_handshake from_utf8_lossy reads ≡ (
        utf8 (response key true),
        ok (record { path = path; origin = origin; rest = early }, late),
      ))
        × (early ++ concat late ≡ rest)
  unfolding server_handshake
  server-answered host path key rest origin reads clean filled known lf cr whole ascii fits came
        chunks =
      let (h, read, all, back) =
        read_head-lines from_utf8_lossy
          (client_request host (record { path = path; origin = origin }) key) (get_line path)
          (asked_lines host origin key) rest reads lossy_ascii
          (client_request-lines host path key origin) (get_line-IsLine path clean)
          (asked_lines-IsLine host key origin lf cr whole known) ascii fits came chunks in
      (
        h.rest,
        h.reads,
        rw (server_handshake, read, all)
            (answer-request path host key h.rest origin h.reads clean filled whole known),
        back,
      )

  client_reads-response :
      (key rest : List ℕ) (reads : List (List ℕ))
      → concat reads ≡ utf8 (response key true) ++ rest
      → All (λ chunk. is_empty chunk ≡ false) reads
      → (early : List ℕ) × (late : List (List ℕ)) × (client_reads from_utf8_lossy key reads
          ≡ ok (early, late))
        × (early ++ concat late ≡ rest)
  unfolding client_reads
  client_reads-response key rest reads came chunks =
      let (h, read, all, back) =
        read_head-lines from_utf8_lossy (response key true) switch_line
          (answer_lines (accept_key key)) rest reads lossy_ascii (response-lines key)
          (record { no_lf = omega arith; no_cr = omega arith; filled = refl })
          (answer_lines-IsLine (accept_key key) (accept_key_whole key)) (response_ascii key)
          (length-response key)
          (came ∙ ap (λ s. s ++ rest) (utf8_ascii (response key true) (response_ascii key)))
          chunks in
      (h.rest, h.reads, rw (client_reads, read, all) (accepts-lines key h.rest h.reads), back)

  -- Take a request that `WsRequest::new` accepts and a host without line ends, where the text that the
  -- client writes under the key that its generator draws is ASCII and no longer than the limit of a head.
  -- The server reads the bytes that the client writes and any others behind them, and the client reads
  -- those that the server writes and any others, over non-empty reads, however the two are cut. Then the
  -- server returns the path and the origin of the request, and the client takes the answer; what each
  -- hands on as early bytes and the reads it leaves are together the bytes behind the other's head. The
  -- decoder is any that keeps ASCII.
  pub client_handshake-server_handshake :
      (host path frames answers : List ℕ) (origin : Option (List ℕ)) (request : WsRequest) (rng : ℕ)
      (server_reads replies : List (List ℕ))
      → new path origin ≡ ok request
      → Lacks 10 host
      → Lacks 13 host
      → All (λ c. c < 128) (client_request host request (encode (fill rng 16).1))
      → length (client_request host request (encode (fill rng 16).1)) ≤ max_head
      → concat server_reads
        ≡ (client_handshake from_utf8_lossy host request rng replies).1 ++ frames
      → All (λ chunk. is_empty chunk ≡ false) server_reads
      → concat replies ≡ (server_handshake from_utf8_lossy server_reads).0 ++ answers
      → All (λ chunk. is_empty chunk ≡ false) replies
      → (early : List ℕ) × (late : List (List ℕ)) × (early' : List ℕ) × (late' : List (List ℕ))
        × ((server_handshake from_utf8_lossy server_reads).1
            ≡ ok (record { path = path; origin = origin; rest = early }, late))
        × (early ++ concat late ≡ frames)
        × ((client_handshake from_utf8_lossy host request rng replies).2 ≡ ok (early', late'))
        × (early' ++ concat late' ≡ answers)
  unfolding client_handshake
  client_handshake-server_handshake host path frames answers origin request rng server_reads replies
        made lf cr ascii fits came chunks back pieces =
      let key = encode (fill rng 16).1 in
      let (same, clean, filled, known) = new-ok path origin request made in
      let (early, late, served, front) =
        server-answered host path key frames origin server_reads clean filled known lf cr
          (encode_whole (fill rng 16).1)
          (subst (λ r. All (λ (c : ℕ). c < 128) (client_request host r key)) same ascii)
          (subst (λ r. length (client_request host r key) ≤ max_head) same fits)
          (came
            ∙ ap (λ s. s ++ frames) (utf8_ascii (client_request host request key) ascii)
            ∙ ap (λ r. client_request host r key ++ frames) same)
          chunks in
      let (early', late', taken, rest) =
        client_reads-response key answers replies (back ∙ ap (λ r. r.0 ++ answers) served) pieces in
      (early, late, early', late', ap (λ r. r.1) served, front, taken, rest)
