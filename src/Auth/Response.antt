-- ===== src/Auth/Response.antt =====
-- The answer to a challenge in crates/sipr-auth/src/lib.rs: the digest and the header line.
use sipr.Common.{ℕ, Bool, List, [], ◌++◌, Option, none, some, if◌then◌else◌}
use sipr.Common.Texts.{codes, utf8}
use sipr.Common.Words.{be32}
use sipr.Hash.{hex}
use sipr.Base64.{encode}
use sipr.Auth.{
  md5_digest, sha256_digest, aka_v1_md5, hash, token, AkaKeys, aka_keys_missing, Challenge, Result,
  ok, ◌>>=◌, or_err,
}
use sipr.Auth.Aka.{AkaResult, aka_challenge_response}

pub record Credentials : Type 0 where
  pub username : List ℕ
  pub password : List ℕ
  pub method : List ℕ
  pub uri : List ℕ
  pub cnonce : List ℕ
  pub nc : ℕ
  pub aka : Option AkaKeys

-- `{:08x}` of a u32.
unfoldable pub hex8 : ℕ → List ℕ
unfolding be32 hex
hex8 n = hex (be32 n)

abbrev pub aka_password : AkaResult → List ℕ × Option (List ℕ)
aka_password result = elim result.auts [
  | some auts ↦ ([], some (encode auts))
  | none ↦ (result.vector.res, none)
]

-- The bytes of the password, and the AUTS to send.
unfoldable pub resolve_password : Challenge → Credentials → Result (List ℕ × Option (List ℕ))
unfolding aka_challenge_response
resolve_password ch cred = elim ch.algorithm [
  | aka_v1_md5 ↦ or_err cred.aka aka_keys_missing >>= λ keys.
      aka_challenge_response ch.nonce keys >>= λ result. ok (aka_password result)
  | md5_digest ↦ ok (utf8 cred.password, none)
  | sha256_digest ↦ ok (utf8 cred.password, none)
]

unfoldable pub response_for : Challenge → Credentials → List ℕ → List ℕ
unfolding hex8
response_for ch cred password =
    let a1 = utf8 (cred.username ++ (codes ":" ++ (ch.realm ++ codes ":"))) ++ password in
    let ha1 = hash ch.algorithm a1 in
    let ha2 = hash ch.algorithm (utf8 (cred.method ++ (codes ":" ++ cred.uri))) in
    if ch.qop_auth
    then hash ch.algorithm (
        utf8 (
          ha1
          ++ (codes ":"
              ++ (ch.nonce
                  ++ (codes ":"
                      ++ (hex8 cred.nc
                          ++ (codes ":" ++ (cred.cnonce ++ (codes ":auth:" ++ ha2)))))))))
    else hash ch.algorithm (utf8 (ha1 ++ (codes ":" ++ (ch.nonce ++ (codes ":" ++ ha2)))))

unfoldable pub digest_response : Challenge → Credentials → Result (List ℕ)
unfolding resolve_password response_for
digest_response ch cred =
    resolve_password ch cred >>= λ (password, auts). ok (response_for ch cred password)

unfoldable pub header_name : Bool → List ℕ
header_name proxy = if proxy then codes "Proxy-Authorization" else codes "Authorization"

-- The line up to the algorithm, behind the header's name.
unfoldable pub digest_text : Challenge → Credentials → List ℕ → List ℕ
unfolding token
digest_text ch cred response =
    codes "Digest username=\""
    ++ (cred.username
        ++ (codes "\", realm=\""
            ++ (ch.realm
                ++ (codes "\", nonce=\""
                    ++ (ch.nonce
                        ++ (codes "\", uri=\""
                            ++ (cred.uri
                                ++ (codes "\", response=\""
                                    ++ (response
                                        ++ (codes "\", algorithm=" ++ token ch.algorithm))))))))))

unfoldable pub qop_text : Challenge → Credentials → List ℕ
unfolding hex8
qop_text ch cred =
    if ch.qop_auth
    then codes ", qop=auth, cnonce=\"" ++ (cred.cnonce ++ (codes "\", nc=" ++ hex8 cred.nc))
    else []

unfoldable pub quoted_text : List ℕ → Option (List ℕ) → List ℕ
quoted_text key none = []
quoted_text key (some value) = codes ", " ++ (key ++ (codes "=\"" ++ (value ++ codes "\"")))

-- What stands behind the header's name and `: `.
unfoldable pub header_value : Challenge → Credentials → List ℕ → Option (List ℕ) → List ℕ
unfolding digest_text qop_text quoted_text
header_value ch cred response auts =
    digest_text ch cred response
    ++ (qop_text ch cred
        ++ (quoted_text (codes "opaque") ch.opaque ++ quoted_text (codes "auts") auts))

unfoldable pub authorization_header : Challenge → Credentials → Result (List ℕ)
unfolding resolve_password response_for header_name header_value
authorization_header ch cred = resolve_password ch cred >>= λ (password, auts). ok (
    header_name ch.proxy
    ++ (codes ": " ++ header_value ch cred (response_for ch cred password) auts))
