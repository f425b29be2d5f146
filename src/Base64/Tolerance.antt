-- ===== src/Base64/Tolerance.antt =====
-- What the decoder makes of texts that no encoder wrote.
use sipr.Common.{
  ℕ, Bool, true, false, not, List, [], ◌∷◌, ◌++◌, none, ◌≡◌, refl, ap, inl, inr, ◌⊎◌, All, filter,
}
use sipr.Base64.{Symbol, sextet, stop, skip, bad, classify, decode_loop, decode}

abbrev pub is_skip : Symbol → Bool
is_skip skip = true
is_skip (sextet v) = false
is_skip stop = false
is_skip bad = false

abbrev pub is_stop : Symbol → Bool
is_stop stop = true
is_stop (sextet v) = false
is_stop skip = false
is_stop bad = false

-- The text without its white space.
abbrev pub dense : List ℕ → List ℕ
dense = filter λ c. not (is_skip (classify c))

Symbol-cases : (k : Symbol) → ((v : ℕ) × (k ≡ sextet v)) ⊎ ((k ≡ stop) ⊎ ((k ≡ skip) ⊎ (k ≡ bad)))
Symbol-cases (sextet v) = inl (v, refl)
Symbol-cases stop = inr (inl refl)
Symbol-cases skip = inr (inr (inl refl))
Symbol-cases bad = inr (inr (inr refl))

decode_loop-dense :
    (s : List ℕ) (acc bits n : ℕ) (out : List ℕ)
    → decode_loop (dense s) acc bits n out ≡ decode_loop s acc bits n out
unfolding decode_loop
decode_loop-dense [] acc bits n out = refl
decode_loop-dense (c ∷ s) acc bits n out = elim (Symbol-cases (classify c)) [
  | inl (v, e) ↦ rw (e, decode_loop, e) (decode_loop-dense s _ _ _ _)
  | inr (inl e) ↦ rw (e, decode_loop, e) refl
  | inr (inr (inl e)) ↦ rw (e, decode_loop) (decode_loop-dense s acc bits n out)
  | inr (inr (inr e)) ↦ rw (e, decode_loop, e) refl
]

-- A text decodes as it does without its white space.
pub decode-dense : (s : List ℕ) → decode (dense s) ≡ decode s
unfolding decode
decode-dense s = decode_loop-dense s 0 0 0 []

decode_loop_bad :
    (xs ys : List ℕ) (c acc bits n : ℕ) (out : List ℕ)
    → All (λ x. is_stop (classify x) ≡ false) xs
    → classify c ≡ bad
    → decode_loop (xs ++ (c ∷ ys)) acc bits n out ≡ none
unfolding decode_loop
decode_loop_bad [] ys c acc bits n out h e = rw (e, decode_loop)
decode_loop_bad (x ∷ xs) ys c acc bits n out h e = elim (Symbol-cases (classify x)) [
  | inl (v, f) ↦ rw (f, decode_loop) (decode_loop_bad xs ys c _ _ _ _ h.1 e)
  | inr (inl f) ↦ cc (h.0, ap is_stop f)
  | inr (inr (inl f)) ↦ rw (f, decode_loop) (decode_loop_bad xs ys c acc bits n out h.1 e)
  | inr (inr (inr f)) ↦ rw (f, decode_loop) refl
]

-- A byte outside the alphabet before the padding makes the text an error.
pub decode_bad :
    (xs ys : List ℕ) (c : ℕ)
    → All (λ x. is_stop (classify x) ≡ false) xs
    → classify c ≡ bad
    → decode (xs ++ (c ∷ ys)) ≡ none
unfolding decode
decode_bad xs ys c h e = decode_loop_bad xs ys c 0 0 0 [] h e
