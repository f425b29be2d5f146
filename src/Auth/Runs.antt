-- ===== src/Auth/Runs.antt =====
-- The example of RFC 2617, a test set of TS 35.208, and the theorems at concrete inputs.
use sipr.Common.{
  ℕ, true, false, List, [], ◌∷◌, ◌++◌, none, some, ◌≡◌, refl, sym, subst, ◌⊎◌, ◌≤◌, ◌<◌, take, drop,
  arith, All,
}
use sipr.Common.Texts.{codes, utf8, trim}
use sipr.Base64.{encode, decode, classify}
use sipr.Hash.Md5.{md5_hex}
use sipr.Milenage.{xor_into, f1, f2345, f1_star, f5_star}
use sipr.Auth.{
  hash, md5_digest, AkaKeys, Challenge, ok, err, not_digest, unsupported_algorithm,
  aka_nonce_malformed, parse_challenge, parse_params,
}
use sipr.Auth.Aka.{auts_of, aka_challenge_response, sqn_value}
use sipr.Auth.Response.{Credentials, authorization_header, header_name, digest_response}
use sipr.Auth.Verify.{verify_authorization, verified_algorithm, param}
use sipr.Auth.Accepts.{authorization_header-verified}
use sipr.Auth.Answers.{challenge_bytes, aka_challenge_response-challenge, auts_of-recovered}
use sipr.Auth.Offers.{challenge_text, parse_challenge-challenge_text}

abbrev offer : Challenge
offer = record {
  realm = codes "testrealm@host.com";
  nonce = codes "dcd98b7102dd2f0e8b11d0f600bfb0c093";
  opaque = some (codes "5ccc069c403ebaf9f0171e9517f40e41");
  algorithm = md5_digest;
  qop_auth = true;
  stale = false;
  proxy = false;
}

abbrev mufasa : Credentials
mufasa = record {
  username = codes "Mufasa";
  password = codes "Circle Of Life";
  method = codes "GET";
  uri = codes "/dir/index.html";
  cnonce = codes "0a4f113b";
  nc = 1;
  aka = none;
}

digest_response_run : digest_response offer mufasa ≡ ok (codes "6629fae49393a05397450978507c4ef1")
unfolding digest_response hash md5_hex utf8
digest_response_run = refl

parse_challenge-challenge_text_example : parse_challenge (challenge_text offer) false ≡ some offer
parse_challenge-challenge_text_example =
    parse_challenge-challenge_text offer (omega arith) (omega arith) (omega arith)

authorization_header-verified_example :
    (value : List ℕ) × (authorization_header offer mufasa
      ≡ ok (header_name false ++ (codes ": " ++ value)))
    × (verify_authorization value (codes "Mufasa") (codes "Circle Of Life") (codes "GET") [] none
        ≡ ok true)
authorization_header-verified_example =
    authorization_header-verified offer mufasa []
      record {
        username = omega arith;
        realm = omega arith;
        nonce = omega arith;
        uri = omega arith;
        cnonce = omega arith;
        opaque = omega arith;
      }
      refl (λ e. cc)

not_digest_run : verify_authorization (codes " Basic abc") [] [] [] [] none ≡ err not_digest
unfolding verify_authorization trim
not_digest_run = refl

unsupported_run :
    verify_authorization (codes "digest algorithm=AKAv1-MD5") [] [] [] [] none
    ≡ err (unsupported_algorithm (codes "AKAv1-MD5"))
unfolding verify_authorization trim parse_params verified_algorithm param
unsupported_run = refl

abbrev subscriber : AkaKeys
subscriber = record {
  k = 70 ∷ 91 ∷ 92 ∷ 232 ∷ 177 ∷ 153 ∷ 180 ∷ 159 ∷ 170 ∷ 95 ∷ 10 ∷ 46 ∷ 226 ∷ 56 ∷ 166 ∷ 188 ∷ [];
  opc = 205 ∷ 99 ∷ 203 ∷ 113 ∷ 149 ∷ 74 ∷ 159 ∷ 78 ∷ 72 ∷ 165 ∷ 153 ∷ 78 ∷ 55 ∷ 160 ∷ 43 ∷ 175 ∷ [];
  amf = none;
  sqn_ms = some (255 ∷ 155 ∷ 180 ∷ 208 ∷ 182 ∷ 7 ∷ []);
  force_resync = false;
}

abbrev rand : List ℕ
rand = 35 ∷ 85 ∷ 60 ∷ 190 ∷ 150 ∷ 55 ∷ 168 ∷ 157 ∷ 33 ∷ 138 ∷ 230 ∷ 77 ∷ 174 ∷ 71 ∷ 191 ∷ 53 ∷ []

abbrev sqn : List ℕ
sqn = 255 ∷ 155 ∷ 180 ∷ 208 ∷ 182 ∷ 7 ∷ []

abbrev autn : List ℕ
autn = 85 ∷ 243 ∷ 40 ∷ 180 ∷ 53 ∷ 119 ∷ 185 ∷ 185 ∷ 74 ∷ 159 ∷ 250 ∷ 195 ∷ 84 ∷ 223 ∷ 175 ∷ 179 ∷ []

challenge_bytes_run : challenge_bytes subscriber rand sqn (185 ∷ 185 ∷ []) ≡ rand ++ autn
unfolding f1 f2345 xor_into
challenge_bytes_run = refl

aka_challenge_response-challenge_example :
    aka_challenge_response
      (encode (challenge_bytes subscriber rand sqn (185 ∷ 185 ∷ [])))
      subscriber
    ≡ ok record {
      vector = f2345 subscriber.k subscriber.opc rand;
      sqn = sqn;
      amf = 185 ∷ 185 ∷ [];
      auts = auts_of subscriber rand sqn;
    }
aka_challenge_response-challenge_example =
    aka_challenge_response-challenge subscriber rand sqn (185 ∷ 185 ∷ []) refl refl refl
      (subst (All (λ (b : ℕ). b < 256)) (sym challenge_bytes_run) (omega arith))

auts_of-recovered_example :
    ((auts_of subscriber rand sqn ≡ none)
      × (subscriber.force_resync ≡ false)
      × (sqn_value sqn < sqn_value sqn))
    ⊎ ((auts : List ℕ) × (auts_of subscriber rand sqn ≡ some auts)
        × ((subscriber.force_resync ≡ true) ⊎ (sqn_value sqn ≤ sqn_value sqn))
        × (xor_into (take 6 auts) (f5_star subscriber.k subscriber.opc rand) ≡ sqn)
        × (drop 6 auts ≡ f1_star subscriber.k subscriber.opc rand sqn (0 ∷ 0 ∷ [])))
auts_of-recovered_example = auts_of-recovered subscriber rand sqn sqn refl refl

short_nonce_run : aka_challenge_response (codes "AAAA") subscriber ≡ err aka_nonce_malformed
unfolding aka_challenge_response utf8 decode classify
short_nonce_run = refl
