-- ===== src/Base64/RoundTrip.antt =====
-- Decoding what was encoded.
use mathlib.Core.List.{append_assoc, append-nil}
use sipr.Common.{
  ℕ, ◌+◌, ◌-◌, ◌*◌, ◌/◌, ◌%◌, ◌^◌, ◌<◌, Bool, true, List, [], ◌∷◌, ◌++◌, some, ◌≡◌, ◌≢◌, refl, sym,
  ap, ◌∙◌, arith, ◌==◌, ==_iff, All, leb, if◌then◌else◌,
}
use sipr.Common.Tables.{holds_below, holds_below-at}
use sipr.Base64.{
  Symbol, sextet, stop, skip, bad, classify, shift_in, finish, decode_loop, decode, letter, joined,
  encode,
}

abbrev is_sextet : Symbol → ℕ → Bool
is_sextet (sextet v) w = v == w
is_sextet stop w = 1 == 0
is_sextet skip w = 1 == 0
is_sextet bad w = 1 == 0

is_sextet→eq : (s : Symbol) (w : ℕ) → is_sextet s w ≡ true → s ≡ sextet w
is_sextet→eq (sextet v) w h = ap sextet ((==_iff v w).0 h)
is_sextet→eq stop w h = cc
is_sextet→eq skip w h = cc
is_sextet→eq bad w h = cc

letter_table : holds_below (λ v. is_sextet (classify (letter v)) v) 64 ≡ true
unfolding holds_below classify letter
letter_table = refl

-- Every letter of the alphabet means its own index.
pub classify-letter : (v : ℕ) → v < 64 → classify (letter v) ≡ sextet v
classify-letter v h = is_sextet→eq _ v (holds_below-at _ v h letter_table)

-- One letter takes the loop one round on.
pub letter_round :
    (v : ℕ) (s : List ℕ) (acc bits sextets : ℕ) (out : List ℕ)
    → v < 64
    → decode_loop (letter v ∷ s) acc bits sextets out
      ≡ decode_loop s
          (shift_in acc v)
          (if leb 8 (bits + 6) then bits + 6 - 8 else bits + 6)
          (sextets + 1)
          (if leb 8 (bits + 6)
            then out ++ (shift_in acc v / 2 ^ (bits + 6 - 8) % 256 ∷ [])
            else out)
unfolding decode_loop
letter_round v s acc bits sextets out h = rw (classify-letter v h, decode_loop) refl

-- Letters that start on a byte boundary: two give a byte, a third another, and a fourth the last.
two_letters :
    (p q : ℕ) (s : List ℕ) (acc sextets : ℕ) (out : List ℕ)
    → p < 64
    → q < 64
    → decode_loop (letter p ∷ letter q ∷ s) acc 0 sextets out
      ≡ decode_loop s
          (shift_in (shift_in acc p) q)
          4
          (sextets + 1 + 1)
          (out ++ ((p * 4 + q / 16) ∷ []))
two_letters p q s acc sextets out hp hq =
    let byte : shift_in (shift_in acc p) q / 2 ^ 4 % 256 ≡ p * 4 + q / 16 = omega arith in
    letter_round p (letter q ∷ s) acc 0 sextets out hp
    ∙ letter_round q s (shift_in acc p) 6 (sextets + 1) out hq
    ∙ ap (λ b. decode_loop s (shift_in (shift_in acc p) q) 4 (sextets + 1 + 1) (out ++ (b ∷ [])))
        byte

third_letter :
    (q r : ℕ) (s : List ℕ) (acc sextets : ℕ) (out : List ℕ)
    → q < 64
    → r < 64
    → decode_loop (letter r ∷ s) (shift_in acc q) 4 sextets out
      ≡ decode_loop s
          (shift_in (shift_in acc q) r)
          2
          (sextets + 1)
          (out ++ ((q % 16 * 16 + r / 4) ∷ []))
third_letter q r s acc sextets out hq hr =
    let byte : shift_in (shift_in acc q) r / 2 ^ 2 % 256 ≡ q % 16 * 16 + r / 4 = omega arith in
    letter_round r s (shift_in acc q) 4 sextets out hr
    ∙ ap (λ b. decode_loop s (shift_in (shift_in acc q) r) 2 (sextets + 1) (out ++ (b ∷ []))) byte

fourth_letter :
    (r t : ℕ) (s : List ℕ) (acc sextets : ℕ) (out : List ℕ)
    → r < 64
    → t < 64
    → decode_loop (letter t ∷ s) (shift_in acc r) 2 sextets out
      ≡ decode_loop s (shift_in (shift_in acc r) t) 0 (sextets + 1) (out ++ ((r % 4 * 64 + t) ∷ []))
fourth_letter r t s acc sextets out hr ht =
    let byte : shift_in (shift_in acc r) t / 2 ^ 0 % 256 ≡ r % 4 * 64 + t = omega arith in
    letter_round t s (shift_in acc r) 2 sextets out ht
    ∙ ap (λ b. decode_loop s (shift_in (shift_in acc r) t) 0 (sextets + 1) (out ++ (b ∷ []))) byte

-- Padding ends the loop.
padding_ends :
    (s : List ℕ) (acc bits sextets : ℕ) (out : List ℕ)
    → decode_loop (61 ∷ s) acc bits sextets out ≡ finish sextets out
unfolding decode_loop classify
padding_ends s acc bits sextets out = refl

finish-some : (n : ℕ) (out : List ℕ) → n % 4 ≢ 1 → finish n out ≡ some out
unfolding finish
finish-some n out h = ground arith

decode_loop-encode :
    (bytes : List ℕ) (acc sextets : ℕ) (out : List ℕ)
    → All (λ b. b < 256) bytes
    → sextets % 4 ≡ 0
    → decode_loop (encode bytes) acc 0 sextets out ≡ some (out ++ bytes)
unfolding encode
decode_loop-encode [] acc n out h k =
    unfold decode_loop in (finish-some n out (omega arith) ∙ ap some (sym (append-nil out)))
decode_loop-encode (a ∷ []) acc n out h k =
    let x = joined a 0 0 in
    let p = x / 2 ^ 18 % 64 in
    let q = x / 2 ^ 12 % 64 in
    let byte : p * 4 + q / 16 ≡ a = omega arith in
    two_letters p q (61 ∷ 61 ∷ []) acc n out (omega arith) (omega arith)
    ∙ padding_ends (61 ∷ []) _ 4 (n + 1 + 1) _
    ∙ finish-some (n + 1 + 1) _ (omega arith)
    ∙ ap (λ b. some (out ++ (b ∷ []))) byte
decode_loop-encode (a ∷ b ∷ []) acc n out h k =
    let x = joined a b 0 in
    let p = x / 2 ^ 18 % 64 in
    let q = x / 2 ^ 12 % 64 in
    let r = x / 2 ^ 6 % 64 in
    let first : p * 4 + q / 16 ≡ a = omega arith in
    let second : q % 16 * 16 + r / 4 ≡ b = omega arith in
    two_letters p q (letter r ∷ 61 ∷ []) acc n out (omega arith) (omega arith)
    ∙ third_letter q r (61 ∷ []) (shift_in acc p) (n + 1 + 1) _ (omega arith) (omega arith)
    ∙ padding_ends [] _ 2 (n + 1 + 1 + 1) _
    ∙ finish-some (n + 1 + 1 + 1) _ (omega arith)
    ∙ ap some (rw (first, second) (append_assoc out (a ∷ []) (b ∷ [])))
decode_loop-encode (a ∷ b ∷ c ∷ rest) acc n out h k =
    let x = joined a b c in
    let p = x / 2 ^ 18 % 64 in
    let q = x / 2 ^ 12 % 64 in
    let r = x / 2 ^ 6 % 64 in
    let t = x % 64 in
    let first : p * 4 + q / 16 ≡ a = omega arith in
    let second : q % 16 * 16 + r / 4 ≡ b = omega arith in
    let third : r % 4 * 64 + t ≡ c = omega arith in
    two_letters p q (letter r ∷ letter t ∷ encode rest) acc n out (omega arith) (omega arith)
    ∙ third_letter q r (letter t ∷ encode rest) (shift_in acc p) (n + 1 + 1) _ (omega arith)
        (omega arith)
    ∙ fourth_letter r t (encode rest) (shift_in (shift_in acc p) q) (n + 1 + 1 + 1) _ (omega arith)
        (omega arith)
    ∙ decode_loop-encode rest _ (n + 1 + 1 + 1 + 1) _ h.1.1.1 (omega arith)
    ∙ ap some (rw (first, second, third) (simp append_assoc))

-- Any list of bytes is what its encoding decodes to.
pub decode-encode : (bytes : List ℕ) → All (λ b. b < 256) bytes → decode (encode bytes) ≡ some bytes
unfolding decode
decode-encode bytes h = decode_loop-encode bytes 0 0 [] h refl
