-- ===== src/Auth.antt =====
-- crates/sipr-auth/src/lib.rs: the challenge of a digest authentication and its parameters. A text is
-- the list of its code points.
pub mod Params
pub mod Aka
pub mod Response
pub mod Verify
pub mod Digits
pub mod Written
pub mod Accepts
pub mod Answers
pub mod Offers
mod Runs
use sipr.Common.{
  ℕ, zero, suc, ◌+◌, Bool, true, false, ◌||◌, List, [], ◌∷◌, ◌++◌, Option, none, some, ◌==◌,
  if◌then◌else◌, length, map, drop,
}
use sipr.Common.Texts.{
  codes, trim, trim_start, trim_start_matches, is_empty, lower, upper, equals, eq_ignore_ascii_case,
  starts_with, split, before, from, has,
}
use sipr.Hash.Md5.{md5_hex}
use sipr.Hash.Sha256.{sha256_hex}

pub data Algorithm : Type 0 where
  md5_digest sha256_digest aka_v1_md5 : Algorithm

unfoldable pub hash : Algorithm → List ℕ → List ℕ
hash md5_digest bytes = md5_hex bytes
hash aka_v1_md5 bytes = md5_hex bytes
hash sha256_digest bytes = sha256_hex bytes

unfoldable pub token : Algorithm → List ℕ
token md5_digest = codes "MD5"
token sha256_digest = codes "SHA-256"
token aka_v1_md5 = codes "AKAv1-MD5"

-- `aka_K`, `aka_OPc`, `aka_AMF`: blocks of 16 bytes and 2, and a sequence number of 6.
pub record AkaKeys : Type 0 where
  pub k : List ℕ
  pub opc : List ℕ
  pub amf : Option (List ℕ)
  pub sqn_ms : Option (List ℕ)
  pub force_resync : Bool

pub data AuthError : Type 0 where
  not_digest : AuthError
  unsupported_algorithm : List ℕ → AuthError
  aka_keys_missing aka_nonce_malformed aka_mac_mismatch : AuthError

pub data Result {ℓ} (A : Type ℓ) : Type ℓ where
  ok : A → Result A
  err : AuthError → Result A

infixl 5 ◌>>=◌
abbrev pub ◌>>=◌ {ℓ κ} : {A : Type ℓ} {B : Type κ} → Result A → (A → Result B) → Result B
ok a >>= f = f a
err e >>= f = err e

-- `?` on an `Option`.
abbrev pub or_err {ℓ} : {A : Type ℓ} → Option A → AuthError → Result A
or_err none e = err e
or_err (some a) e = ok a

pub record Challenge : Type 0 where
  pub realm : List ℕ
  pub nonce : List ℕ
  pub opaque : Option (List ℕ)
  pub algorithm : Algorithm
  pub qop_auth : Bool
  pub stale : Bool
  pub proxy : Bool

abbrev pub is_separator : ℕ → Bool
is_separator c = c == b',' || c == b' ' || c == b'\t'

-- The value after `=`, and what is left of the text.
unfoldable pub param_value : List ℕ → List ℕ × List ℕ
param_value [] = (trim [], [])
param_value (c ∷ s) =
    if c == b'"'
    then (before b'"' s, drop 1 (from b'"' s))
    else (trim (before b',' (c ∷ s)), from b',' (c ∷ s))

-- Each round drops a `=`: the fuel is more than the text's length.
unfoldable pub params_loop : ℕ → List ℕ → List (List ℕ × List ℕ)
unfolding param_value
params_loop zero s = []
params_loop (suc fuel) s =
    let rest = trim_start_matches is_separator s in
    let key = trim (before b'=' rest) in
    let (value, later) = param_value (drop 1 (from b'=' rest)) in
    let more = params_loop fuel later in
    if has b'=' rest then (if is_empty key then more else (key, value) ∷ more) else []

unfoldable pub parse_params : List ℕ → List (List ℕ × List ℕ)
unfolding params_loop
parse_params s = params_loop (length s + 1) s

-- What the loop over the parameters has found so far.
pub record Fields : Type 0 where
  pub realm : Option (List ℕ)
  pub nonce : Option (List ℕ)
  pub opaque : Option (List ℕ)
  pub algorithm : Algorithm
  pub qop_auth : Bool
  pub stale : Bool

abbrev pub no_fields : Fields
no_fields = record {
  realm = none;
  nonce = none;
  opaque = none;
  algorithm = md5_digest;
  qop_auth = false;
  stale = false;
}

unfoldable pub algorithm_of : List ℕ → Algorithm
algorithm_of value =
    let u = map upper value in
    if starts_with u (codes "SHA-256")
    then sha256_digest
    else if starts_with u (codes "AKAV1-MD5")
    then aka_v1_md5
    else md5_digest

-- Is a part `auth`?
abbrev pub any_auth : List (List ℕ) → Bool
any_auth [] = false
any_auth (q ∷ qs) = eq_ignore_ascii_case (trim q) (codes "auth") || any_auth qs

unfoldable pub offers_auth : List ℕ → Bool
unfolding split
offers_auth value = any_auth (split b',' value)

unfoldable pub set_field : Fields → List ℕ → List ℕ → Fields
unfolding algorithm_of offers_auth
set_field f key value =
    let name = map lower key in
    if equals name (codes "realm")
    then record f { realm = some value }
    else if equals name (codes "nonce")
    then record f { nonce = some value }
    else if equals name (codes "opaque")
    then record f { opaque = some value }
    else if equals name (codes "algorithm")
    then record f { algorithm = algorithm_of value }
    else if equals name (codes "qop")
    then record f { qop_auth = offers_auth value }
    else if equals name (codes "stale")
    then record f { stale = eq_ignore_ascii_case value (codes "true") }
    else f

unfoldable pub fields_of : Fields → List (List ℕ × List ℕ) → Fields
unfolding set_field
fields_of f [] = f
fields_of f ((key, value) ∷ params) = fields_of (set_field f key value) params

-- `realm?` and `nonce?`
unfoldable pub complete : Fields → Bool → Option Challenge
complete f proxy = elim f.realm [
  | none ↦ none
  | some realm ↦ elim f.nonce [
    | none ↦ none
    | some nonce ↦ some record {
      realm = realm;
      nonce = nonce;
      opaque = f.opaque;
      algorithm = f.algorithm;
      qop_auth = f.qop_auth;
      stale = f.stale;
      proxy = proxy;
    }
  ]
]

unfoldable pub parse_challenge : List ℕ → Bool → Option Challenge
unfolding parse_params fields_of complete trim_start
parse_challenge value proxy =
    let text = trim value in
    if starts_with text (codes "Digest")
    then complete (fields_of no_fields (parse_params (trim_start (drop 6 text)))) proxy
    else none
