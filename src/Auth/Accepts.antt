-- ===== src/Auth/Accepts.antt =====
-- The verifier of crates/sipr-auth/src/lib.rs takes the header that the client writes.
use mathlib.Core.List.{append_assoc}
use sipr.Common.{
  ℕ, Bool, true, false, List, ◌∷◌, ◌++◌, Option, none, some, ◌≡◌, ◌≢◌, refl, sym, ap, ◌∙◌,
  if◌then◌else◌, map, arith,
}
use sipr.Common.Texts.{
  codes, utf8, utf8-append, trim, is_empty, Lacks, eq_ignore_ascii_case, eq_ignore_ascii_case_refl,
}
use sipr.Auth.{
  Algorithm, md5_digest, sha256_digest, aka_v1_md5, hash, token, not_digest, Challenge, Result, ok,
  err, parse_params,
}
use sipr.Auth.Params.{pair, write_params, parse_params-write_params}
use sipr.Auth.Response.{
  Credentials, resolve_password, response_for, header_value, header_name, authorization_header,
}
use sipr.Auth.Verify.{
  verify_authorization, verify_params, expected_response, param, strip_prefix_ignore_case,
  verified_algorithm, contains, starts_with_ignore_ascii_case,
}
use sipr.Auth.Digits.{hash-Lacks}
use sipr.Auth.Written.{
  first_param, other_params, IsQuotable, params-IsParam, written, trim-write_params,
}

abbrev header_params : Challenge → Credentials → List ℕ → List (List ℕ × List ℕ)
header_params ch cred response = map pair (first_param cred ∷ other_params ch cred response none)

either : (a : Algorithm) (b : Bool) (x y : List ℕ) → Lacks b'"' (if b then hash a x else hash a y)
either a true x y = hash-Lacks a x b'"' (omega arith)
either a false x y = hash-Lacks a y b'"' (omega arith)

pub response-Lacks :
    (ch : Challenge) (cred : Credentials) (password : List ℕ)
    → Lacks b'"' (response_for ch cred password)
unfolding response_for
response-Lacks ch cred password = either ch.algorithm ch.qop_auth _ _

parsed :
    (ch : Challenge) (cred : Credentials) (response : List ℕ)
    → IsQuotable ch cred
    → Lacks b'"' response
    → parse_params
        (codes " " ++ write_params (first_param cred ∷ other_params ch cred response none))
      ≡ header_params ch cred response
parsed ch cred response h clean =
    parse_params-write_params (codes " ") (first_param cred) (other_params ch cred response none)
      (refl, tt) (params-IsParam ch cred response none h clean tt)

verify-stripped :
    (header rest username password method body : List ℕ) (uri : Option (List ℕ))
    → trim header ≡ codes "Digest" ++ rest
    → verify_authorization header username password method body uri
      ≡ verify_params (parse_params rest) username password method body uri
unfolding verify_authorization strip_prefix_ignore_case eq_ignore_ascii_case
verify-stripped header rest username password method body uri e =
    ap
      (λ (text : List ℕ).
        elim (strip_prefix_ignore_case text (codes "Digest")) as (λ o. Result Bool) [
          | none ↦ err not_digest
          | some rest ↦ verify_params (parse_params rest) username password method body uri
        ])
      e

verify-header :
    (ch : Challenge) (cred : Credentials) (response username password method body : List ℕ)
    (uri : Option (List ℕ))
    → IsQuotable ch cred
    → Lacks b'"' response
    → verify_authorization (header_value ch cred response none) username password method body uri
      ≡ verify_params (header_params ch cred response) username password method body uri
verify-header ch cred response username password method body uri h clean =
    let p = first_param cred in
    let ps = other_params ch cred response none in
    let text =
      written ch.realm ch.nonce ch.opaque ch.algorithm ch.qop_auth ch.stale ch.proxy cred response
        none in
    verify-stripped (header_value ch cred response none) (codes " " ++ write_params (p ∷ ps))
      username password method body uri
      (ap trim text ∙ trim-write_params p ps (params-IsParam ch cred response none h clean tt))
    ∙ ap (λ params. verify_params params username password method body uri)
        (parsed ch cred response h clean)

expected :
    (realm nonce : List ℕ) (opaque : Option (List ℕ)) (algorithm : Algorithm)
    (qop_auth stale proxy : Bool) (cred : Credentials) (response body : List ℕ)
    → is_empty cred.cnonce ≡ false
    → let ch : Challenge = record {
      realm = realm;
      nonce = nonce;
      opaque = opaque;
      algorithm = algorithm;
      qop_auth = qop_auth;
      stale = stale;
      proxy = proxy;
    } in
      expected_response algorithm
        (header_params ch cred response)
        cred.username
        cred.password
        cred.method
        body
        none
      ≡ response_for ch cred (utf8 cred.password)
unfolding expected_response param contains response_for eq_ignore_ascii_case
expected realm nonce opaque algorithm true stale proxy cred response body filled =
    let a = cred.username ++ (codes ":" ++ (realm ++ codes ":")) in
    rw (filled, sym (utf8-append a cred.password)) (simp append_assoc)
expected realm nonce none algorithm false stale proxy cred response body filled =
    let a = cred.username ++ (codes ":" ++ (realm ++ codes ":")) in
    rw (sym (utf8-append a cred.password)) (simp append_assoc)
expected realm nonce (some o) algorithm false stale proxy cred response body filled =
    let a = cred.username ++ (codes ":" ++ (realm ++ codes ":")) in
    rw (sym (utf8-append a cred.password)) (simp append_assoc)

found :
    (ch : Challenge) (cred : Credentials) (response : List ℕ)
    → (param (header_params ch cred response) (codes "algorithm") ≡ token ch.algorithm)
      × (param (header_params ch cred response) (codes "response") ≡ response)
unfolding param eq_ignore_ascii_case
found ch cred response = (refl, refl)

verified-token : (a : Algorithm) → a ≢ aka_v1_md5 → verified_algorithm (token a) ≡ ok a
unfolding verified_algorithm token starts_with_ignore_ascii_case eq_ignore_ascii_case
verified-token md5_digest h = refl
verified-token sha256_digest h = refl
verified-token aka_v1_md5 h = absurd (h refl)

verify-params :
    (ch : Challenge) (cred : Credentials) (body : List ℕ)
    → is_empty cred.cnonce ≡ false
    → ch.algorithm ≢ aka_v1_md5
    → verify_params
        (header_params ch cred (response_for ch cred (utf8 cred.password)))
        cred.username
        cred.password
        cred.method
        body
        none
      ≡ ok true
verify-params ch cred body filled plain =
    let response = response_for ch cred (utf8 cred.password) in
    let (named, answered) = found ch cred response in
    rw
      (
        named,
        verified-token ch.algorithm plain,
        answered,
        expected ch.realm ch.nonce ch.opaque ch.algorithm ch.qop_auth ch.stale ch.proxy cred
            response body filled,
        eq_ignore_ascii_case_refl response,
      )
      refl

resolved :
    (ch : Challenge) (cred : Credentials)
    → ch.algorithm ≢ aka_v1_md5
    → resolve_password ch cred ≡ ok (utf8 cred.password, none)
unfolding resolve_password
resolved ch cred plain = by_algorithm ch.algorithm ch cred refl plain
  where
    by_algorithm :
        (a : Algorithm) (ch : Challenge) (cred : Credentials)
        → ch.algorithm ≡ a
        → a ≢ aka_v1_md5
        → resolve_password ch cred ≡ ok (utf8 cred.password, none)
    by_algorithm md5_digest ch cred e plain = rw e refl
    by_algorithm sha256_digest ch cred e plain = rw e refl
    by_algorithm aka_v1_md5 ch cred e plain = absurd (plain refl)

-- A client that answers an MD5 or SHA-256 challenge writes a header line whose value the verifier
-- takes for the same name, password and method, with any body: with `qop=auth` or without, if no text
-- that is put between quotes holds one, and the client nonce is not empty.
pub authorization_header-verified :
    (ch : Challenge) (cred : Credentials) (body : List ℕ)
    → IsQuotable ch cred
    → is_empty cred.cnonce ≡ false
    → ch.algorithm ≢ aka_v1_md5
    → (value : List ℕ) × (authorization_header ch cred
        ≡ ok (header_name ch.proxy ++ (codes ": " ++ value)))
      × (verify_authorization value cred.username cred.password cred.method body none ≡ ok true)
unfolding authorization_header
authorization_header-verified ch cred body clean filled plain =
    let response = response_for ch cred (utf8 cred.password) in
    (
      header_value ch cred response none,
      rw (resolved ch cred plain) refl,
      verify-header ch cred response cred.username cred.password cred.method body none clean
            (response-Lacks ch cred (utf8 cred.password))
          ∙ verify-params ch cred body filled plain,
    )
