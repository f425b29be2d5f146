-- ===== src/Auth/Verify.antt =====
-- `verify_authorization` of crates/sipr-auth/src/lib.rs: the check of an `Authorization` value.
use sipr.Common.{
  ℕ, Bool, ◌||◌, List, [], ◌∷◌, ◌++◌, Option, none, some, if◌then◌else◌, length, map, take, drop,
}
use sipr.Common.Texts.{codes, utf8, trim, is_empty, lower, starts_with, eq_ignore_ascii_case}
use sipr.Auth.{
  Algorithm, md5_digest, sha256_digest, hash, not_digest, unsupported_algorithm, Result, ok, err,
  ◌>>=◌, parse_params,
}

-- A prefix of ASCII letters in any case: where it is one, the text is cut at the end of a character.
unfoldable pub starts_with_ignore_ascii_case : List ℕ → List ℕ → Bool
unfolding eq_ignore_ascii_case
starts_with_ignore_ascii_case s prefix = eq_ignore_ascii_case (take (length prefix) s) prefix

unfoldable pub strip_prefix_ignore_case : List ℕ → List ℕ → Option (List ℕ)
unfolding eq_ignore_ascii_case
strip_prefix_ignore_case s prefix =
    if eq_ignore_ascii_case (take (length prefix) s) prefix
    then some (drop (length prefix) s)
    else none

-- The first value under a name; the empty text, if there is none.
unfoldable pub param : List (List ℕ × List ℕ) → List ℕ → List ℕ
unfolding eq_ignore_ascii_case
param [] name = []
param ((key, value) ∷ params) name =
    if eq_ignore_ascii_case key name then value else param params name

unfoldable pub verified_algorithm : List ℕ → Result Algorithm
unfolding starts_with_ignore_ascii_case
verified_algorithm algo =
    if is_empty algo || starts_with_ignore_ascii_case algo (codes "MD5")
    then ok md5_digest
    else if starts_with_ignore_ascii_case algo (codes "SHA-256")
    then ok sha256_digest
    else err (unsupported_algorithm algo)

unfoldable pub contains : List ℕ → List ℕ → Bool
contains [] part = starts_with [] part
contains (c ∷ s) part = starts_with (c ∷ s) part || contains s part

abbrev pub verified_uri : Option (List ℕ) → List ℕ → List ℕ
verified_uri none uri = uri
verified_uri (some u) uri = codes "sip:" ++ u

-- The digest that the parameters of a header call for.
unfoldable pub expected_response :
    Algorithm
    → List (List ℕ × List ℕ)
    → List ℕ
    → List ℕ
    → List ℕ
    → List ℕ
    → Option (List ℕ)
    → List ℕ
unfolding param contains
expected_response algorithm params username password method body auth_uri =
    let uri = verified_uri auth_uri (param params (codes "uri")) in
    let qop = param params (codes "qop") in
    let cnonce = param params (codes "cnonce") in
    let nonce = param params (codes "nonce") in
    let ha1 = hash algorithm (
      utf8
        (username ++ (codes ":" ++ (param params (codes "realm") ++ (codes ":" ++ password))))) in
    let ha2 =
      if contains (map lower qop) (codes "auth-int")
      then hash algorithm
          (utf8 (method ++ (codes ":" ++ (uri ++ (codes ":" ++ hash algorithm body)))))
      else hash algorithm (utf8 (method ++ (codes ":" ++ uri))) in
    if is_empty cnonce
    then hash algorithm (utf8 (ha1 ++ (codes ":" ++ (nonce ++ (codes ":" ++ ha2)))))
    else hash algorithm (
        utf8 (
          ha1
          ++ (codes ":"
              ++ (nonce
                  ++ (codes ":"
                      ++ (param params (codes "nc")
                          ++ (codes ":"
                              ++ (cnonce ++ (codes ":" ++ (qop ++ (codes ":" ++ ha2)))))))))))

abbrev pub verify_params :
    List (List ℕ × List ℕ) → List ℕ → List ℕ → List ℕ → List ℕ → Option (List ℕ) → Result Bool
verify_params params username password method body auth_uri =
    verified_algorithm (param params (codes "algorithm")) >>= λ algorithm. ok (
      eq_ignore_ascii_case
        (expected_response algorithm params username password method body auth_uri)
        (param params (codes "response")))

unfoldable pub verify_authorization :
    List ℕ → List ℕ → List ℕ → List ℕ → List ℕ → Option (List ℕ) → Result Bool
unfolding strip_prefix_ignore_case
verify_authorization header username password method body auth_uri =
    elim (strip_prefix_ignore_case (trim header) (codes "Digest")) [
      | none ↦ err not_digest
      | some rest ↦ verify_params (parse_params rest) username password method body auth_uri
    ]
