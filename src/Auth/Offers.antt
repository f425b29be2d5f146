-- ===== src/Auth/Offers.antt =====
-- What `parse_challenge` of crates/sipr-auth/src/lib.rs reads of a challenge that is written out.
use sipr.Common.{
  ℕ, Bool, true, false, List, [], ◌∷◌, ◌++◌, Option, none, some, ◌≡◌, refl, ap, ◌∙◌, if◌then◌else◌,
  map, drop, arith, All, All-append,
}
use sipr.Common.Texts.{codes, trim, trim_start, trim_end, Lacks, eq_ignore_ascii_case, split}
use sipr.Auth.{
  Algorithm, md5_digest, sha256_digest, aka_v1_md5, token, Challenge, no_fields, fields_of,
  set_field, algorithm_of, offers_auth, complete, parse_params, parse_challenge,
}
use sipr.Auth.Params.{Param, quoted, bare, pair, write_params, IsParam, parse_params-write_params}
use sipr.Auth.Written.{
  IsKey-letters, IsParam-key, IsParam-token, LacksIf, quoted_params, quoted_params-IsParam,
  trim-write_params,
}

abbrev if_set : Bool → Param → List Param
if_set b p = if b then p ∷ [] else []

abbrev other_offers : Challenge → List Param
other_offers ch =
    quoted (codes "nonce") ch.nonce
    ∷ bare (codes "algorithm") (token ch.algorithm)
    ∷ (if_set ch.qop_auth (quoted (codes "qop") (codes "auth"))
        ++ (quoted_params (codes "opaque") ch.opaque
            ++ if_set ch.stale (bare (codes "stale") (codes "true"))))

abbrev offers : Challenge → List Param
offers ch = quoted (codes "realm") ch.realm ∷ other_offers ch

-- The value of a challenge's header, with what it offers in the order of RFC 7616.
abbrev pub challenge_text : Challenge → List ℕ
challenge_text ch = codes "Digest " ++ write_params (offers ch)

algorithm_of-token : (a : Algorithm) → algorithm_of (token a) ≡ a
unfolding algorithm_of token
algorithm_of-token md5_digest = refl
algorithm_of-token sha256_digest = refl
algorithm_of-token aka_v1_md5 = refl

if_set-IsParam : (b : Bool) (p : Param) → IsParam p → All IsParam (if_set b p)
if_set-IsParam true p h = (h, tt)
if_set-IsParam false p h = tt

offers-IsParam :
    (ch : Challenge)
    → Lacks b'"' ch.realm
    → Lacks b'"' ch.nonce
    → LacksIf ch.opaque
    → All IsParam (offers ch)
unfolding trim trim_start trim_end
offers-IsParam ch realm nonce opaque =
    let stale : IsParam (bare (codes "stale") (codes "true")) =
      (IsKey-letters b's' (codes "tale") (omega arith), omega arith, refl, refl, (refl, refl)) in
    let qop : IsParam (quoted (codes "qop") (codes "auth")) =
      IsParam-key b'q' (codes "op") (codes "auth") (omega arith) (omega arith) in
    (
      IsParam-key b'r' (codes "ealm") ch.realm (omega arith) realm,
      (
        IsParam-key b'n' (codes "once") ch.nonce (omega arith) nonce,
        (
          IsParam-token ch.algorithm,
          All-append IsParam (if_set ch.qop_auth (quoted (codes "qop") (codes "auth")))
              (quoted_params (codes "opaque") ch.opaque
                ++ if_set ch.stale (bare (codes "stale") (codes "true")))
              (if_set-IsParam ch.qop_auth (quoted (codes "qop") (codes "auth")) qop)
              (All-append IsParam (quoted_params (codes "opaque") ch.opaque)
                (if_set ch.stale (bare (codes "stale") (codes "true")))
                (quoted_params-IsParam b'o' (codes "paque") ch.opaque (omega arith) opaque)
                (if_set-IsParam ch.stale (bare (codes "stale") (codes "true")) stale)),
        ),
      ),
    )

collected :
    (realm nonce : List ℕ) (opaque : Option (List ℕ)) (algorithm : Algorithm)
    (qop_auth stale proxy : Bool)
    → let ch : Challenge = record {
      realm = realm;
      nonce = nonce;
      opaque = opaque;
      algorithm = algorithm;
      qop_auth = qop_auth;
      stale = stale;
      proxy = proxy;
    } in
      complete (fields_of no_fields (map pair (offers ch))) proxy ≡ some ch
unfolding complete fields_of set_field offers_auth split trim trim_start trim_end
    eq_ignore_ascii_case
collected realm nonce none algorithm true true proxy = rw (algorithm_of-token algorithm) refl
collected realm nonce none algorithm true false proxy = rw (algorithm_of-token algorithm) refl
collected realm nonce none algorithm false true proxy = rw (algorithm_of-token algorithm) refl
collected realm nonce none algorithm false false proxy = rw (algorithm_of-token algorithm) refl
collected realm nonce (some o) algorithm true true proxy = rw (algorithm_of-token algorithm) refl
collected realm nonce (some o) algorithm true false proxy = rw (algorithm_of-token algorithm) refl
collected realm nonce (some o) algorithm false true proxy = rw (algorithm_of-token algorithm) refl
collected realm nonce (some o) algorithm false false proxy = rw (algorithm_of-token algorithm) refl

parse_challenge-stripped :
    (value rest : List ℕ) (proxy : Bool)
    → trim value ≡ codes "Digest " ++ (b'r' ∷ rest)
    → parse_challenge value proxy
      ≡ complete (fields_of no_fields (parse_params (b'r' ∷ rest))) proxy
unfolding parse_challenge trim_start
parse_challenge-stripped value rest proxy e = rw e refl

-- A challenge for any realm and nonce, with or without an opaque text, a quality of protection and a
-- stale nonce, is read back whole from its header, if no text that is put between quotes holds one.
pub parse_challenge-challenge_text :
    (ch : Challenge)
    → Lacks b'"' ch.realm
    → Lacks b'"' ch.nonce
    → LacksIf ch.opaque
    → parse_challenge (challenge_text ch) ch.proxy ≡ some ch
parse_challenge-challenge_text ch realm nonce opaque =
    let clean = offers-IsParam ch realm nonce opaque in
    let p = quoted (codes "realm") ch.realm in
    parse_challenge-stripped (challenge_text ch) (drop 1 (write_params (offers ch))) ch.proxy
      (trim-write_params p (other_offers ch) clean)
    ∙ ap (λ params. complete (fields_of no_fields params) ch.proxy)
        (parse_params-write_params [] p (other_offers ch) tt clean)
    ∙ collected ch.realm ch.nonce ch.opaque ch.algorithm ch.qop_auth ch.stale ch.proxy
