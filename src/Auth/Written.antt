-- ===== src/Auth/Written.antt =====
-- The header of crates/sipr-auth/src/lib.rs as a list of parameters.
use mathlib.Core.List.{append_assoc, append-nil}
use sipr.Common.{
  ℕ, ◌≤◌, Bool, true, false, List, [], ◌∷◌, ◌++◌, Option, none, some, ◌≡◌, refl, if◌then◌else◌,
  arith, All, All-mono, All-append, Bool-cases, inl, inr,
}
use sipr.Common.Texts.{codes, trim, trim_start, trim_end, Ends-append, is_whitespace, Lacks}
use sipr.Common.Words.{be32}
use sipr.Auth.{Algorithm, md5_digest, sha256_digest, aka_v1_md5, token, Challenge, is_separator}
use sipr.Auth.Params.{Param, quoted, bare, write_params, IsKey, IsParam, Ends-write_params}
use sipr.Auth.Response.{Credentials, hex8, digest_text, qop_text, quoted_text, header_value}
use sipr.Auth.Digits.{hex-Lacks, Lacks-has, Ends-hex8, trim-hex8}

abbrev pub qop_params : Challenge → Credentials → List Param
qop_params ch cred =
    if ch.qop_auth
    then bare (codes "qop") (codes "auth")
      ∷ quoted (codes "cnonce") cred.cnonce
      ∷ bare (codes "nc") (hex8 cred.nc)
      ∷ []
    else []

abbrev pub quoted_params : List ℕ → Option (List ℕ) → List Param
quoted_params key none = []
quoted_params key (some value) = quoted key value ∷ []

abbrev pub first_param : Credentials → Param
first_param cred = quoted (codes "username") cred.username

abbrev pub other_params : Challenge → Credentials → List ℕ → Option (List ℕ) → List Param
other_params ch cred response auts =
    quoted (codes "realm") ch.realm
    ∷ quoted (codes "nonce") ch.nonce
    ∷ quoted (codes "uri") cred.uri
    ∷ quoted (codes "response") response
    ∷ bare (codes "algorithm") (token ch.algorithm)
    ∷ (qop_params ch cred
        ++ (quoted_params (codes "opaque") ch.opaque ++ quoted_params (codes "auts") auts))

-- The header's value is its parameters, written out.
pub written :
    (realm nonce : List ℕ) (opaque : Option (List ℕ)) (algorithm : Algorithm)
    (qop_auth stale proxy : Bool) (cred : Credentials) (response : List ℕ) (auts : Option (List ℕ))
    → let ch : Challenge = record {
      realm = realm;
      nonce = nonce;
      opaque = opaque;
      algorithm = algorithm;
      qop_auth = qop_auth;
      stale = stale;
      proxy = proxy;
    } in
      header_value ch cred response auts
      ≡ codes "Digest " ++ write_params (first_param cred ∷ other_params ch cred response auts)
unfolding header_value digest_text qop_text quoted_text
written realm nonce none algorithm false stale proxy cred response none =
    simp (append_assoc, append-nil)
written realm nonce none algorithm true stale proxy cred response none =
    simp (append_assoc, append-nil)
written realm nonce (some o) algorithm false stale proxy cred response none =
    simp (append_assoc, append-nil)
written realm nonce (some o) algorithm true stale proxy cred response none =
    simp (append_assoc, append-nil)
written realm nonce none algorithm false stale proxy cred response (some a) = simp append_assoc
written realm nonce none algorithm true stale proxy cred response (some a) = simp append_assoc
written realm nonce (some o) algorithm false stale proxy cred response (some a) = simp append_assoc
written realm nonce (some o) algorithm true stale proxy cred response (some a) = simp append_assoc

abbrev pub IsLetter : ℕ → Type 0
IsLetter c = (97 ≤ c) × (c ≤ 122)

trim_end-letters : (s : List ℕ) → All IsLetter s → trim_end s ≡ s
unfolding trim_end
trim_end-letters [] h = refl
trim_end-letters (c ∷ s) ((low, high), h) =
    let black : is_whitespace c ≡ false = ground arith in
    rw (trim_end-letters s h, black) (ground arith)

pub IsKey-letters : (c : ℕ) (s : List ℕ) → All IsLetter (c ∷ s) → IsKey (c ∷ s)
unfolding trim trim_start
IsKey-letters c s ((low, high), h) =
    let black : is_whitespace c ≡ false = ground arith in
    let dense : is_separator c ≡ false = ground arith in
    record {
      apart = λ rest. rw dense refl;
      trimmed = rw black (trim_end-letters (c ∷ s) ((low, high), h));
      filled = refl;
      plain = (omega arith, All-mono (λ d ((l, u) : IsLetter d). omega arith) s h);
    }

pub IsParam-key :
    (c : ℕ) (s value : List ℕ)
    → All IsLetter (c ∷ s)
    → Lacks b'"' value
    → IsParam (quoted (c ∷ s) value)
IsParam-key c s value letters lacks = (IsKey-letters c s letters, lacks)

pub IsParam-token : (a : Algorithm) → IsParam (bare (codes "algorithm") (token a))
unfolding token trim trim_start trim_end
IsParam-token md5_digest =
    (IsKey-letters b'a' (codes "lgorithm") (omega arith), omega arith, refl, refl, (refl, refl))
IsParam-token sha256_digest =
    (IsKey-letters b'a' (codes "lgorithm") (omega arith), omega arith, refl, refl, (refl, refl))
IsParam-token aka_v1_md5 =
    (IsKey-letters b'a' (codes "lgorithm") (omega arith), omega arith, refl, refl, (refl, refl))

IsParam-auth : IsParam (bare (codes "qop") (codes "auth"))
unfolding trim trim_start trim_end
IsParam-auth =
    (IsKey-letters b'q' (codes "op") (omega arith), omega arith, refl, refl, (refl, refl))

IsParam-hex8 : (n : ℕ) → IsParam (bare (codes "nc") (hex8 n))
unfolding hex8
IsParam-hex8 n = (
  IsKey-letters b'n' (codes "c") (omega arith),
  hex-Lacks b',' (be32 n) (omega arith),
  trim-hex8 n,
  Lacks-has b'"' (hex8 n) (hex-Lacks b'"' (be32 n) (omega arith)),
  Ends-hex8 n,
)

abbrev pub LacksIf : Option (List ℕ) → Type 0
LacksIf none = Unit {0}
LacksIf (some value) = Lacks b'"' value

-- Credentials and a challenge that can be written between quotes.
pub record IsQuotable (ch : Challenge) (cred : Credentials) : Type 0 where
  pub username : Lacks b'"' cred.username
  pub realm : Lacks b'"' ch.realm
  pub nonce : Lacks b'"' ch.nonce
  pub uri : Lacks b'"' cred.uri
  pub cnonce : Lacks b'"' cred.cnonce
  pub opaque : LacksIf ch.opaque

qop_params-IsParam :
    (ch : Challenge) (cred : Credentials)
    → Lacks b'"' cred.cnonce
    → All IsParam (qop_params ch cred)
qop_params-IsParam ch cred clean = elim (Bool-cases ch.qop_auth) [
  | inl e ↦ rw e (
    IsParam-auth,
    (IsParam-key b'c' (codes "nonce") cred.cnonce (omega arith) clean, (IsParam-hex8 cred.nc, tt)),
  )
  | inr e ↦ rw e tt
]

pub quoted_params-IsParam :
    (c : ℕ) (key : List ℕ) (value : Option (List ℕ))
    → All IsLetter (c ∷ key)
    → LacksIf value
    → All IsParam (quoted_params (c ∷ key) value)
quoted_params-IsParam c key none letters clean = tt
quoted_params-IsParam c key (some value) letters clean = (IsParam-key c key value letters clean, tt)

pub params-IsParam :
    (ch : Challenge) (cred : Credentials) (response : List ℕ) (auts : Option (List ℕ))
    → IsQuotable ch cred
    → Lacks b'"' response
    → LacksIf auts
    → All IsParam (first_param cred ∷ other_params ch cred response auts)
params-IsParam ch cred response auts h clean clean' = (
  IsParam-key b'u' (codes "sername") cred.username (omega arith) h.username,
  (
    IsParam-key b'r' (codes "ealm") ch.realm (omega arith) h.realm,
    (
      IsParam-key b'n' (codes "once") ch.nonce (omega arith) h.nonce,
      (
        IsParam-key b'u' (codes "ri") cred.uri (omega arith) h.uri,
        (
          IsParam-key b'r' (codes "esponse") response (omega arith) clean,
          (
            IsParam-token ch.algorithm,
            All-append IsParam (qop_params ch cred)
                (quoted_params (codes "opaque") ch.opaque ++ quoted_params (codes "auts") auts)
                (qop_params-IsParam ch cred h.cnonce)
                (All-append IsParam (quoted_params (codes "opaque") ch.opaque)
                  (quoted_params (codes "auts") auts)
                  (quoted_params-IsParam b'o' (codes "paque") ch.opaque (omega arith) h.opaque)
                  (quoted_params-IsParam b'a' (codes "uts") auts (omega arith) clean')),
          ),
        ),
      ),
    ),
  ),
)

pub trim-write_params :
    (p : Param) (ps : List Param)
    → All IsParam (p ∷ ps)
    → trim (codes "Digest " ++ write_params (p ∷ ps)) ≡ codes "Digest " ++ write_params (p ∷ ps)
unfolding trim trim_start
trim-write_params p ps h =
    (Ends-append (codes "Digest ") (write_params (p ∷ ps)) (Ends-write_params p ps h)).0
