-- ===== src/Ws/Handshake/Lines.antt =====
-- The lines of the upgrade request and of its answer.
use mathlib.Core.List.{append_assoc, append-nil}
use sipr.Common.{
  ℕ, ◌<◌, false, List, [], ◌∷◌, ◌++◌, Option, none, some, ◌≡◌, refl, sym, ap, ◌∙◌, arith,
}
use sipr.Common.Texts.{
  codes, trim, trim_start, trim_end, is_whitespace, is_empty, Lacks, words_loop,
}
use sipr.Message.Lines.{tails, blank_line}
use sipr.Ws.Handshake.{WsRequest, ok, new, splits, is_control, client_request, second_word}

-- A text without spaces and control characters is its own trimming, and can stand on a line.
splits-head :
    (c : ℕ) (s : List ℕ)
    → splits (c ∷ s) ≡ false
    → (is_whitespace c ≡ false) × (is_control c ≡ false) × (splits s ≡ false)
splits-head c s h = ground arith

trim_end-whole : (s : List ℕ) → splits s ≡ false → trim_end s ≡ s
unfolding trim_end
trim_end-whole [] h = refl
trim_end-whole (c ∷ s) h =
    let (black, plain, rest) = splits-head c s h in rw (trim_end-whole s rest, black) (ground arith)

-- The value of a header is trimmed of the space behind the colon.
pub trim-whole : (s : List ℕ) → splits s ≡ false → trim (32 ∷ s) ≡ s
unfolding trim trim_start
trim-whole [] h = unfold trim_end in refl
trim-whole (c ∷ s) h =
    let (black, plain, rest) = splits-head c s h in rw black (trim_end-whole (c ∷ s) h)

pub splits-Lacks : (sep : ℕ) (s : List ℕ) → sep < 32 → splits s ≡ false → Lacks sep s
splits-Lacks sep [] low h = tt
splits-Lacks sep (c ∷ s) low h =
    let (black, plain, rest) = splits-head c s h in (ground arith, splits-Lacks sep s low rest)

abbrev pub IsOrigin : Option (List ℕ) → Type 0
IsOrigin none = Unit {0}
IsOrigin (some o) = splits o ≡ false

-- What `WsRequest::new` takes, it keeps as it is.
pub new-ok :
    (path : List ℕ) (origin : Option (List ℕ)) (r : WsRequest)
    → new path origin ≡ ok r
    → (r ≡ record { path = path; origin = origin })
      × (splits path ≡ false)
      × (is_empty path ≡ false)
      × IsOrigin origin
unfolding new
new-ok [] none r h = cc
new-ok [] (some o) r h = cc
new-ok (c ∷ path) none r h = ground (arith, h)
new-ok (c ∷ path) (some o) r h = ground (arith, h)

abbrev origin_lines : Option (List ℕ) → List (List ℕ)
origin_lines none = []
origin_lines (some o) = (codes "Origin: " ++ o) ∷ []

abbrev pub get_line : List ℕ → List ℕ
get_line path = codes "GET " ++ (path ++ codes " HTTP/1.1")

abbrev pub asked_lines : List ℕ → Option (List ℕ) → List ℕ → List (List ℕ)
asked_lines host origin key =
    (codes "Host: " ++ host)
    ∷ (origin_lines origin
        ++ (codes "Upgrade: websocket"
            ∷ codes "Connection: Upgrade"
            ∷ (codes "Sec-WebSocket-Key: " ++ key)
            ∷ codes "Sec-WebSocket-Version: 13"
            ∷ codes "Sec-WebSocket-Protocol: sip"
            ∷ []))

pub client_request-lines :
    (host path key : List ℕ) (origin : Option (List ℕ))
    → client_request host (record { path = path; origin = origin }) key
      ≡ (get_line path ++ tails (asked_lines host origin key)) ++ blank_line
unfolding client_request
client_request-lines host path key none = simp append_assoc
client_request-lines host path key (some o) = simp append_assoc

words-front :
    (path rest word : List ℕ)
    → splits path ≡ false
    → is_empty (word ++ path) ≡ false
    → words_loop is_whitespace word (path ++ (32 ∷ rest))
      ≡ (word ++ path) ∷ words_loop is_whitespace [] rest
unfolding words_loop
words-front [] rest word h filled =
    let filled' : is_empty word ≡ false = ap is_empty (sym (append-nil word)) ∙ filled in
    rw (append-nil word, filled') refl
words-front (c ∷ path) rest word h filled =
    let (black, plain, clean) = splits-head c path h in
    let joined = append_assoc word (c ∷ []) path in
    rw black (
      words-front path rest (word ++ (c ∷ [])) clean (ap is_empty joined ∙ filled)
      ∙ ap (λ w. w ∷ words_loop is_whitespace [] rest) joined)

-- The path is the second word of the request line.
pub second_word-get_line :
    (path : List ℕ)
    → splits path ≡ false
    → is_empty path ≡ false
    → second_word (words_loop is_whitespace [] (get_line path)) ≡ path
second_word-get_line path h filled = ap second_word (
    words-front (codes "GET") (path ++ codes " HTTP/1.1") [] refl refl
    ∙ ap (λ ws. codes "GET" ∷ ws) (words-front path (codes "HTTP/1.1") [] h filled))
