-- ===== src/Message/Tags.antt =====
-- The parameters of a header's value in crates/sipr-net/src/message.rs.
use mathlib.Core.List.{append-nil}
use sipr.Common.{
  ℕ, false, List, [], ◌∷◌, ◌++◌, Option, none, some, ◌≡◌, ◌≢◌, refl, ap, ◌∙◌, ◌==◌, if◌then◌else◌,
  arith, All, All-append, map,
}
use sipr.Common.Texts.{
  trim, Lacks, split, eq_ignore_ascii_case, before-append, from-append, has-append,
}
use sipr.Message.Headers.{up_to_break, find_param, param_value}

abbrev pub part : List ℕ × List ℕ → List ℕ
part (key, value) = key ++ (b'=' ∷ value)

-- Parameters, with a semicolon before each.
abbrev pub semicolons : List (List ℕ × List ℕ) → List ℕ
semicolons [] = []
semicolons (p ∷ ps) = b';' ∷ (part p ++ semicolons ps)

-- A name and a value that are trimmed and hold no separator.
pub record IsParam (p : List ℕ × List ℕ) : Type 0 where
  pub name_whole : Lacks b';' p.0
  pub value_whole : Lacks b';' p.1
  pub plain : Lacks b'=' p.0
  pub name_trimmed : trim p.0 ≡ p.0
  pub trimmed : trim p.1 ≡ p.1
  pub no_comma : Lacks b',' p.1
  pub no_space : Lacks b' ' p.1

-- The value of the first parameter of a name, in any case.
unfoldable pub first_named : List ℕ → List (List ℕ × List ℕ) → Option (List ℕ)
first_named name [] = none
first_named name (p ∷ ps) =
    let later = first_named name ps in if eq_ignore_ascii_case p.0 name then some p.1 else later

split-whole : (s : List ℕ) → Lacks b';' s → split b';' s ≡ s ∷ []
unfolding split
split-whole [] h = refl
split-whole (c ∷ s) (hc, h) =
    let other : (c == b';') ≡ false = ground arith in rw (split, other, split-whole s h) refl

split-part :
    (s rest : List ℕ) → Lacks b';' s → split b';' (s ++ (b';' ∷ rest)) ≡ s ∷ split b';' rest
unfolding split
split-part [] rest h = refl
split-part (c ∷ s) rest (hc, h) =
    let other : (c == b';') ≡ false = ground arith in rw (split, other, split-part s rest h) refl

part-Lacks : (p : List ℕ × List ℕ) → IsParam p → Lacks b';' (part p)
part-Lacks p h =
    All-append (λ c. c ≢ b';') p.0 (b'=' ∷ p.1) h.name_whole (omega arith, h.value_whole)

split-semicolons :
    (s : List ℕ) (ps : List (List ℕ × List ℕ))
    → Lacks b';' s
    → All IsParam ps
    → split b';' (s ++ semicolons ps) ≡ s ∷ map part ps
split-semicolons s [] h hs = rw (append-nil s) (split-whole s h)
split-semicolons s (p ∷ ps) h (hp, hs) =
    split-part s (part p ++ semicolons ps) h
    ∙ ap (λ parts. s ∷ parts) (split-semicolons (part p) ps (part-Lacks p hp) hs)

up_to_break_all : (s : List ℕ) → Lacks b',' s → Lacks b' ' s → up_to_break s ≡ s
up_to_break_all [] h k = refl
up_to_break_all (c ∷ s) (hc, h) (kc, k) = rw (up_to_break_all s h k) (ground arith)

find_param-parts :
    (name : List ℕ) (ps : List (List ℕ × List ℕ))
    → All IsParam ps
    → find_param name (map part ps) ≡ first_named name ps
unfolding find_param first_named
find_param-parts name [] hs = refl
find_param-parts name (p ∷ ps) (h, hs) =
    rw
      (
        has-append b'=' p.0 p.1,
        before-append b'=' p.0 p.1 h.plain,
        from-append b'=' p.0 p.1 h.plain,
        h.name_trimmed,
        h.trimmed,
        up_to_break_all p.1 h.no_comma h.no_space,
        find_param-parts name ps hs,
      )
      refl

-- Behind an address that holds no semicolon, take parameters that are each written `;name=value`, with no
-- semicolon in either part, no equals sign in the name, no comma or space in the value, and no white space
-- at the ends of the two: the look-up of any name, in any case, gives the value of the first parameter
-- that has it, and nothing if none has.
pub param_value-semicolons :
    (address name : List ℕ) (ps : List (List ℕ × List ℕ))
    → Lacks b';' address
    → All IsParam ps
    → param_value (address ++ semicolons ps) name ≡ first_named name ps
unfolding param_value
param_value-semicolons address name ps h hs =
    rw (split-semicolons address ps h hs) (find_param-parts name ps hs)
