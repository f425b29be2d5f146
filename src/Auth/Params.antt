-- ===== src/Auth/Params.antt =====
-- What `parse_params` reads of parameters that are written out.
use sipr.Common.{
  ℕ, zero, suc, ◌+◌, ◌≤◌, ◌<◌, true, false, List, [], ◌∷◌, ◌++◌, ◌≡◌, refl, ap, ◌∙◌, ◌==◌, length,
  map, arith, length-append, All,
}
use mathlib.Core.List.{append-nil}
use sipr.Common.Texts.{
  codes, trim, trim_end, Ends, Ends-append, trim_start_matches, is_empty, before, from, has, Lacks,
  before-append, from-append, has-append, before_all, from_none,
}
use sipr.Auth.{is_separator, param_value, params_loop, parse_params}

-- A parameter, with its value in quotes or not.
pub data Param : Type 0 where
  quoted : List ℕ → List ℕ → Param
  bare : List ℕ → List ℕ → Param

abbrev pub pair : Param → List ℕ × List ℕ
pair (quoted key value) = (key, value)
pair (bare key value) = (key, value)

abbrev pub write_param : Param → List ℕ → List ℕ
write_param (quoted key value) rest = key ++ (b'=' ∷ (b'"' ∷ (value ++ (b'"' ∷ rest))))
write_param (bare key value) rest = key ++ (b'=' ∷ (value ++ rest))

-- Parameters with a comma and a space between them, before a text.
abbrev pub write_params : List Param → List ℕ
write_params [] = []
write_params (p ∷ []) = write_param p []
write_params (p ∷ q ∷ ps) = write_param p (codes ", " ++ write_params (q ∷ ps))

-- A name without separators in front, spaces around or a `=`.
pub record IsKey (key : List ℕ) : Type 0 where
  pub apart : (rest : List ℕ) → trim_start_matches is_separator (key ++ rest) ≡ key ++ rest
  pub trimmed : trim key ≡ key
  pub filled : is_empty key ≡ false
  pub plain : Lacks b'=' key

-- A value in quotes holds no quote; one without holds no comma, no quote in front, and no spaces around.
abbrev pub IsParam : Param → Type 0
IsParam (quoted key value) = IsKey key × Lacks b'"' value
IsParam (bare key value) =
    IsKey key × Lacks b',' value × (trim value ≡ value) × (has b'"' value ≡ false) × Ends value

-- The text behind the first parameter, as the loop leaves it.
abbrev later : List Param → List ℕ
later [] = []
later (q ∷ ps) = codes ", " ++ write_params (q ∷ ps)

write_params-later :
    (p : Param) (ps : List Param) → write_params (p ∷ ps) ≡ write_param p (later ps)
write_params-later p [] = refl
write_params-later p (q ∷ ps) = refl

before-later :
    (value : List ℕ) (ps : List Param) → Lacks b',' value → before b',' (value ++ later ps) ≡ value
before-later value [] lacks = rw append-nil (before_all b',' value lacks)
before-later value (q ∷ ps) lacks = before-append b',' value (b' ' ∷ write_params (q ∷ ps)) lacks

from-later :
    (value : List ℕ) (ps : List Param) → Lacks b',' value → from b',' (value ++ later ps) ≡ later ps
from-later value [] lacks = rw append-nil (from_none b',' value lacks)
from-later value (q ∷ ps) lacks = from-append b',' value (b' ' ∷ write_params (q ∷ ps)) lacks

param_value-bare :
    (value : List ℕ) (ps : List Param)
    → Lacks b',' value
    → trim value ≡ value
    → has b'"' value ≡ false
    → Ends value
    → param_value (value ++ later ps) ≡ (value, later ps)
unfolding param_value
param_value-bare [] ps lacks trimmed unquoted (ends, filled) = cc
param_value-bare (c ∷ value) ps lacks trimmed unquoted filled =
    let unquoted' : (c == b'"') ≡ false = ground arith in
    rw (unquoted', before-later (c ∷ value) ps lacks, from-later (c ∷ value) ps lacks, trimmed) refl

round-quoted :
    (fuel : ℕ) (s key value : List ℕ) (rest : List ℕ)
    → trim_start_matches is_separator s ≡ write_param (quoted key value) rest
    → IsParam (quoted key value)
    → params_loop (suc fuel) s ≡ (key, value) ∷ params_loop fuel rest
unfolding params_loop
round-quoted fuel s key value rest e (k, lacks) =
    let tail = b'"' ∷ (value ++ (b'"' ∷ rest)) in
    rw
      (
        e,
        before-append b'=' key tail k.plain,
        from-append b'=' key tail k.plain,
        has-append b'=' key tail,
        before-append b'"' value rest lacks,
        from-append b'"' value rest lacks,
        k.trimmed,
        k.filled,
      )
      refl

round-bare :
    (fuel : ℕ) (s key value : List ℕ) (ps : List Param)
    → trim_start_matches is_separator s ≡ write_param (bare key value) (later ps)
    → IsParam (bare key value)
    → params_loop (suc fuel) s ≡ (key, value) ∷ params_loop fuel (later ps)
unfolding params_loop
round-bare fuel s key value ps e (k, lacks, trimmed, unquoted, filled) =
    let tail = value ++ later ps in
    rw
      (
        e,
        before-append b'=' key tail k.plain,
        from-append b'=' key tail k.plain,
        has-append b'=' key tail,
        param_value-bare value ps lacks trimmed unquoted filled,
        k.trimmed,
        k.filled,
      )
      refl

round-param :
    (fuel : ℕ) (s : List ℕ) (p : Param) (ps : List Param)
    → trim_start_matches is_separator s ≡ write_param p (later ps)
    → IsParam p
    → params_loop (suc fuel) s ≡ pair p ∷ params_loop fuel (later ps)
round-param fuel s (quoted key value) ps e h = round-quoted fuel s key value (later ps) e h
round-param fuel s (bare key value) ps e h = round-bare fuel s key value ps e h

write_param-apart :
    (p : Param) (rest : List ℕ)
    → IsParam p
    → trim_start_matches is_separator (write_param p rest) ≡ write_param p rest
write_param-apart (quoted key value) rest (k, h) = k.apart _
write_param-apart (bare key value) rest (k, h, _, _, _) = k.apart _

later-apart :
    (p : Param) (ps : List Param)
    → IsParam p
    → trim_start_matches is_separator (later (p ∷ ps)) ≡ write_param p (later ps)
later-apart p ps h =
    ap (trim_start_matches is_separator) (write_params-later p ps)
    ∙ write_param-apart p (later ps) h

params_loop-later :
    (fuel : ℕ) (ps : List Param)
    → length ps < fuel
    → All IsParam ps
    → params_loop fuel (later ps) ≡ map pair ps
params_loop-later zero ps enough h = absurd (omega (arith, enough))
params_loop-later (suc fuel) [] enough h = unfold params_loop in refl
params_loop-later (suc fuel) (p ∷ ps) enough (hp, hps) =
    round-param fuel (later (p ∷ ps)) p ps (later-apart p ps hp) hp
    ∙ ap (λ more. pair p ∷ more) (params_loop-later fuel ps (omega arith) hps)

trim_start_matches-lead :
    (lead s : List ℕ)
    → All (λ c. is_separator c ≡ true) lead
    → trim_start_matches is_separator (lead ++ s) ≡ trim_start_matches is_separator s
trim_start_matches-lead [] s h = refl
trim_start_matches-lead (c ∷ lead) s (hc, h) = rw hc (trim_start_matches-lead lead s h)

length-write_param : (p : Param) (rest : List ℕ) → length rest < length (write_param p rest)
length-write_param (quoted key value) rest = omega (
  arith,
  length-append key (b'=' ∷ (b'"' ∷ (value ++ (b'"' ∷ rest)))),
  length-append value (b'"' ∷ rest),
)
length-write_param (bare key value) rest =
    omega (arith, length-append key (b'=' ∷ (value ++ rest)), length-append value rest)

length-write_params : (ps : List Param) → length ps ≤ length (write_params ps)
length-write_params [] = omega arith
length-write_params (p ∷ []) = omega (arith, length-write_param p [])
length-write_params (p ∷ q ∷ ps) = omega (
  arith,
  length-write_param p (codes ", " ++ write_params (q ∷ ps)),
  length-write_params (q ∷ ps),
)

-- What is written as parameters with `, ` between them, behind any separators, is read back in order,
-- if each name is a name, no quoted value holds a quote, and the others hold no comma or quote and are
-- trimmed.
pub parse_params-write_params :
    (lead : List ℕ) (p : Param) (ps : List Param)
    → All (λ c. is_separator c ≡ true) lead
    → All IsParam (p ∷ ps)
    → parse_params (lead ++ write_params (p ∷ ps)) ≡ map pair (p ∷ ps)
unfolding parse_params
parse_params-write_params lead p ps blank (hp, hps) =
    let s = lead ++ write_params (p ∷ ps) in
    let start : trim_start_matches is_separator s ≡ write_param p (later ps) =
      trim_start_matches-lead lead (write_params (p ∷ ps)) blank ∙ later-apart p ps hp in
    let size : length ps < length s =
      omega (arith, length-append lead (write_params (p ∷ ps)), length-write_params (p ∷ ps)) in
    let fuel : length s + 1 ≡ suc (length s) = omega arith in
    rw fuel (
      round-param (length s) s p ps start hp
      ∙ ap (λ more. pair p ∷ more) (params_loop-later (length s) ps size hps))

Ends-write_param : (p : Param) (rest : List ℕ) → IsParam p → Ends rest → Ends (write_param p rest)
Ends-write_param (quoted key value) rest h e =
    Ends-append key (b'=' ∷ (b'"' ∷ (value ++ (b'"' ∷ rest)))) (
      Ends-append (b'=' ∷ b'"' ∷ []) (value ++ (b'"' ∷ rest))
        (Ends-append value (b'"' ∷ rest) (Ends-append (b'"' ∷ []) rest e)))
Ends-write_param (bare key value) rest h e =
    Ends-append key (b'=' ∷ (value ++ rest))
      (Ends-append (b'=' ∷ []) (value ++ rest) (Ends-append value rest e))

Ends-last : (p : Param) → IsParam p → Ends (write_param p [])
unfolding trim_end
Ends-last (quoted key value) h = Ends-append key (b'=' ∷ (b'"' ∷ (value ++ (b'"' ∷ [])))) (
    Ends-append (b'=' ∷ b'"' ∷ []) (value ++ (b'"' ∷ []))
      (Ends-append value (b'"' ∷ []) (refl, refl)))
Ends-last (bare key value) (k, lacks, trimmed, unquoted, ends) =
    rw (append-nil value) (Ends-append key (b'=' ∷ value) (Ends-append (b'=' ∷ []) value ends))

pub Ends-write_params :
    (p : Param) (ps : List Param) → All IsParam (p ∷ ps) → Ends (write_params (p ∷ ps))
Ends-write_params p [] (h, hs) = Ends-last p h
Ends-write_params p (q ∷ ps) (h, hs) =
    Ends-write_param p (codes ", " ++ write_params (q ∷ ps)) h
      (Ends-append (codes ", ") (write_params (q ∷ ps)) (Ends-write_params q ps hs))
