-- ===== src/Ws/Handshake/Runs.antt =====
-- The example of RFC 6455, refusals, and the theorems at concrete inputs.
use sipr.Common.{ℕ, true, List, [], ◌∷◌, ◌++◌, none, some, ◌≡◌, refl, take, drop, arith}
use sipr.Common.Texts.{
  codes, utf8, utf8_char, trim, trim_start, trim_end, eq_ignore_ascii_case, words_loop, split,
}
use sipr.Hash.{sha1}
use sipr.Base64.{encode}
use sipr.Rng.{fill}
use sipr.Message.{cut_at, lines}
use sipr.Message.Lines.{blank_line}
use sipr.Ws.Handshake.{
  WsRequest, bad_path, path_token, empty_origin, ok, err, not_upgrade, wrong_accept, new,
  accept_key, read_head, header, client_request, is_upgrade, response, answer, accepts,
  server_handshake, client_handshake,
}
use sipr.Ws.Handshake.Heads.{concat}
use sipr.Ws.Handshake.Agree.{client_handshake-server_handshake}

accept_key_rfc :
    accept_key (codes "dGhlIHNhbXBsZSBub25jZQ==") ≡ codes "s3pPLMBiTxaQ9kYGzzhZRbK+xOo="
unfolding accept_key encode sha1 utf8 utf8_char trim trim_start trim_end
accept_key_rfc = refl

new_refused :
    (new (codes "ws") none ≡ err bad_path)
    × (new (codes "/a b") none ≡ err path_token)
    × (new (codes "/") (some []) ≡ err empty_origin)
unfolding new
new_refused = (refl, refl, refl)

wrong_accept_refused : accepts (codes "k") (some (codes "k")) [] [] ≡ err wrong_accept
unfolding accept_key encode sha1 utf8 utf8_char trim trim_start trim_end
wrong_accept_refused = refl

abbrev same : List ℕ → List ℕ
same s = s

not_upgrade_refused :
    (server_handshake same (codes "GET / HTTP/1.1\r\n\r" ∷ codes "\nx" ∷ [])).1 ≡ err not_upgrade
unfolding server_handshake read_head cut_at lines answer header eq_ignore_ascii_case trim trim_start
    trim_end
not_upgrade_refused = refl

read_head_pieces :
    read_head [] (codes "HTTP\r\n\r" ∷ codes "\nx" ∷ codes "y" ∷ [])
    ≡ ok record { head = codes "HTTP" ++ blank_line; rest = codes "x"; reads = codes "y" ∷ [] }
unfolding read_head cut_at
read_head_pieces = refl

abbrev ask : WsRequest
ask = record { path = codes "/ws"; origin = some (codes "http://x") }

abbrev key : List ℕ
unfolding fill encode
key = encode (fill 1 16).1

abbrev request_text : List ℕ
request_text = client_request (codes "host") ask key

abbrev response_text : List ℕ
response_text = response key true

abbrev requests : List (List ℕ)
unfolding client_request
requests = take 30 request_text ∷ (drop 30 request_text ++ (130 ∷ [])) ∷ []

abbrev replies : List (List ℕ)
replies = (utf8 response_text ++ (129 ∷ [])) ∷ []

new-ask : new (codes "/ws") (some (codes "http://x")) ≡ ok ask
unfolding new
new-ask = refl

concat-requests :
    concat requests ≡ (client_handshake same (codes "host") ask 1 replies).1 ++ (130 ∷ [])
unfolding client_handshake utf8 utf8_char client_request fill encode
concat-requests = refl

concat-replies : concat replies ≡ (server_handshake same requests).0 ++ (129 ∷ [])
unfolding server_handshake read_head cut_at lines answer header eq_ignore_ascii_case trim trim_start
    trim_end is_upgrade words_loop split response utf8 utf8_char client_request fill encode
    accept_key sha1
concat-replies = refl

client_handshake-server_handshake_example :
    (early : List ℕ) × (late : List (List ℕ)) × (early' : List ℕ) × (late' : List (List ℕ))
    × ((server_handshake same requests).1
        ≡ ok (record { path = codes "/ws"; origin = some (codes "http://x"); rest = early }, late))
    × (early ++ concat late ≡ 130 ∷ [])
    × ((client_handshake same (codes "host") ask 1 replies).2 ≡ ok (early', late'))
    × (early' ++ concat late' ≡ 129 ∷ [])
unfolding client_request fill encode utf8 response
client_handshake-server_handshake_example =
    client_handshake-server_handshake same (λ s h. refl) (codes "host") (codes "/ws") (130 ∷ [])
      (129 ∷ []) (some (codes "http://x")) ask 1 requests replies new-ask (omega arith)
      (omega arith) (omega arith) (omega arith) concat-requests (refl, (refl, tt)) concat-replies
      (refl, tt)
