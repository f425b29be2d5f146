-- ===== src/Ws/Handshake/Answers.antt =====
-- What the server makes of the lines of a request, and the lines of its answer (crates/sipr-net/src/ws.rs).
use mathlib.Core.List.{append_assoc}
use sipr.Common.{
  ℕ, true, false, List, [], ◌∷◌, ◌++◌, Option, none, some, ◌≡◌, ◌≢◌, refl, ap, arith, All,
  All-append,
}
use sipr.Common.Texts.{
  codes, utf8, trim, trim_start, trim_end, is_empty, Lacks, eq_ignore_ascii_case, split,
}
use sipr.Message.Lines.{IsLine, tails, blank_line}
use sipr.Ws.Handshake.{ok, splits, header, is_upgrade, offers, response, accept_key, answer}
use sipr.Ws.Handshake.Lines.{
  trim-whole, splits-Lacks, IsOrigin, get_line, asked_lines, second_word-get_line,
}

-- The lines of a request, with the empty one at its end.
abbrev pub all_lines : List ℕ → List ℕ → Option (List ℕ) → List ℕ → List (List ℕ)
all_lines path host origin key = get_line path ∷ (asked_lines host origin key ++ ([] ∷ []))

header-key :
    (path host key : List ℕ) (origin : Option (List ℕ))
    → splits key ≡ false
    → header (all_lines path host origin key) (codes "Sec-WebSocket-Key") ≡ some key
unfolding header trim trim_start trim_end eq_ignore_ascii_case
header-key path host key none h = ap some (trim-whole key h)
header-key path host key (some o) h = ap some (trim-whole key h)

header-origin :
    (path host key : List ℕ) (origin : Option (List ℕ))
    → IsOrigin origin
    → header (all_lines path host origin key) (codes "Origin") ≡ origin
unfolding header trim trim_start trim_end eq_ignore_ascii_case
header-origin path host key none h = refl
header-origin path host key (some o) h = ap some (trim-whole o h)

is_upgrade-request :
    (path host key : List ℕ) (origin : Option (List ℕ))
    → is_upgrade (all_lines path host origin key) ≡ true
unfolding is_upgrade header split trim trim_start trim_end eq_ignore_ascii_case
is_upgrade-request path host key none = refl
is_upgrade-request path host key (some o) = refl

header-version :
    (path host key : List ℕ) (origin : Option (List ℕ))
    → header (all_lines path host origin key) (codes "Sec-WebSocket-Version") ≡ some (codes "13")
unfolding header trim trim_start trim_end eq_ignore_ascii_case
header-version path host key none = refl
header-version path host key (some o) = refl

offers-request :
    (path host key : List ℕ) (origin : Option (List ℕ))
    → offers
        (codes "sip")
        (header (all_lines path host origin key) (codes "Sec-WebSocket-Protocol"))
      ≡ true
unfolding header split trim trim_start trim_end eq_ignore_ascii_case
offers-request path host key none = refl
offers-request path host key (some o) = refl

trim-13 : trim (codes "13") ≡ codes "13"
unfolding trim trim_start trim_end
trim-13 = refl

pub answer-request :
    (path host key rest : List ℕ) (origin : Option (List ℕ)) (reads : List (List ℕ))
    → splits path ≡ false
    → is_empty path ≡ false
    → splits key ≡ false
    → IsOrigin origin
    → answer (all_lines path host origin key) rest reads
      ≡ (utf8 (response key true), ok (record { path = path; origin = origin; rest = rest }, reads))
unfolding answer
answer-request path host key rest origin reads clean filled whole known =
    rw
      (
        answer,
        header-key path host key origin whole,
        is_upgrade-request path host key origin,
        header-version path host key origin,
        offers-request path host key origin,
        trim-13,
        header-origin path host key origin known,
        second_word-get_line path clean filled,
      )
      refl

-- What the two sides can put on a line.
host-IsLine : (host : List ℕ) → Lacks 10 host → Lacks 13 host → IsLine (codes "Host: " ++ host)
host-IsLine host lf cr = record {
  no_lf = All-append (λ c. c ≢ 10) (codes "Host: ") host (omega arith) lf;
  no_cr = All-append (λ c. c ≢ 13) (codes "Host: ") host (omega arith) cr;
  filled = refl;
}

whole-IsLine :
    (c : ℕ) (s rest : List ℕ)
    → Lacks 10 (c ∷ s)
    → Lacks 13 (c ∷ s)
    → splits rest ≡ false
    → IsLine ((c ∷ s) ++ rest)
whole-IsLine c s rest lf cr h = record {
  no_lf = All-append (λ c. c ≢ 10) (c ∷ s) rest lf (splits-Lacks 10 rest (omega arith) h);
  no_cr = All-append (λ c. c ≢ 13) (c ∷ s) rest cr (splits-Lacks 13 rest (omega arith) h);
  filled = refl;
}

fixed-IsLine : (c : ℕ) (s : List ℕ) → Lacks 10 (c ∷ s) → Lacks 13 (c ∷ s) → IsLine (c ∷ s)
fixed-IsLine c s lf cr = record { no_lf = lf; no_cr = cr; filled = refl }

pub get_line-IsLine : (path : List ℕ) → splits path ≡ false → IsLine (get_line path)
get_line-IsLine path h = record {
  no_lf =
      All-append (λ c. c ≢ 10) (codes "GET ") (path ++ codes " HTTP/1.1") (omega arith)
        (All-append (λ c. c ≢ 10) path (codes " HTTP/1.1") (splits-Lacks 10 path (omega arith) h)
          (omega arith));
  no_cr =
      All-append (λ c. c ≢ 13) (codes "GET ") (path ++ codes " HTTP/1.1") (omega arith)
        (All-append (λ c. c ≢ 13) path (codes " HTTP/1.1") (splits-Lacks 13 path (omega arith) h)
          (omega arith));
  filled = refl;
}

abbrev fixed_lines : List ℕ → List (List ℕ)
fixed_lines key =
    codes "Upgrade: websocket"
    ∷ codes "Connection: Upgrade"
    ∷ (codes "Sec-WebSocket-Key: " ++ key)
    ∷ codes "Sec-WebSocket-Version: 13"
    ∷ codes "Sec-WebSocket-Protocol: sip"
    ∷ []

fixed_lines-IsLine : (key : List ℕ) → splits key ≡ false → All IsLine (fixed_lines key)
fixed_lines-IsLine key h = (
  fixed-IsLine b'U' (codes "pgrade: websocket") (omega arith) (omega arith),
  (
    fixed-IsLine b'C' (codes "onnection: Upgrade") (omega arith) (omega arith),
    (
      whole-IsLine b'S' (codes "ec-WebSocket-Key: ") key (omega arith) (omega arith) h,
      (
        fixed-IsLine b'S' (codes "ec-WebSocket-Version: 13") (omega arith) (omega arith),
        (fixed-IsLine b'S' (codes "ec-WebSocket-Protocol: sip") (omega arith) (omega arith), tt),
      ),
    ),
  ),
)

pub asked_lines-IsLine :
    (host key : List ℕ) (origin : Option (List ℕ))
    → Lacks 10 host
    → Lacks 13 host
    → splits key ≡ false
    → IsOrigin origin
    → All IsLine (asked_lines host origin key)
asked_lines-IsLine host key none lf cr h known = (host-IsLine host lf cr, fixed_lines-IsLine key h)
asked_lines-IsLine host key (some o) lf cr h known = (
  host-IsLine host lf cr,
  (
    whole-IsLine b'O' (codes "rigin: ") o (omega arith) (omega arith) known,
    fixed_lines-IsLine key h,
  ),
)

-- The answer's lines.
abbrev pub switch_line : List ℕ
switch_line = codes "HTTP/1.1 101 Switching Protocols"

abbrev pub answer_lines : List ℕ → List (List ℕ)
answer_lines accept =
    codes "Upgrade: websocket"
    ∷ codes "Connection: Upgrade"
    ∷ (codes "Sec-WebSocket-Accept: " ++ accept)
    ∷ codes "Sec-WebSocket-Protocol: sip"
    ∷ []

pub answer_lines-IsLine :
    (accept : List ℕ) → splits accept ≡ false → All IsLine (answer_lines accept)
answer_lines-IsLine accept h = (
  fixed-IsLine b'U' (codes "pgrade: websocket") (omega arith) (omega arith),
  (
    fixed-IsLine b'C' (codes "onnection: Upgrade") (omega arith) (omega arith),
    (
      whole-IsLine b'S' (codes "ec-WebSocket-Accept: ") accept (omega arith) (omega arith) h,
      (fixed-IsLine b'S' (codes "ec-WebSocket-Protocol: sip") (omega arith) (omega arith), tt),
    ),
  ),
)

pub response-lines :
    (key : List ℕ)
    → response key true ≡ (switch_line ++ tails (answer_lines (accept_key key))) ++ blank_line
unfolding response
response-lines key = simp append_assoc

pub header-accept :
    (accept : List ℕ)
    → splits accept ≡ false
    → header (switch_line ∷ (answer_lines accept ++ ([] ∷ []))) (codes "Sec-WebSocket-Accept")
      ≡ some accept
unfolding header trim trim_start trim_end eq_ignore_ascii_case
header-accept accept h = ap some (trim-whole accept h)
