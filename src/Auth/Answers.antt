-- ===== src/Auth/Answers.antt =====
-- What `aka_challenge_response` of crates/sipr-auth/src/lib.rs makes of the challenge of a home network
-- that has the same keys, and what that network makes of its AUTS.
use mathlib.Core.List.{append_assoc}
use sipr.Common.{
  ℕ, ◌/◌, ◌%◌, ◌^◌, ◌≤◌, ◌<◌, true, false, List, [], ◌∷◌, ◌++◌, none, some, ◌≡◌, refl, sym, ap,
  subst, ◌∙◌, leb→le, ◌⊎◌, inl, inr, Bool-cases, ltb, leb, length, take, drop, arith, All,
  All-get_or, length-append, length-take, take-length, drop-length, take_all,
}
use sipr.Common.Texts.{utf8, utf8_ascii, equals}
use sipr.Common.Bits.{xor_onto_cancel}
use sipr.Base64.{alphabet, joined, letter, encode}
use sipr.Base64.RoundTrip.{decode-encode}
use sipr.Milenage.{xor_into, out1, f1, f1_star, f2345, f5_star}
use sipr.Milenage.Blocks.{length-out1, length-xor_into}
use sipr.Auth.{AkaKeys, ok}
use sipr.Auth.Aka.{
  unwrap_or, out_of_range, auts_of, aka_response, aka_challenge_response, sqn_value,
}

letter_ascii : (i : ℕ) → letter i < 128
unfolding letter
letter_ascii i = All-get_or (λ c. c < 128) alphabet i 0 (omega arith) (omega arith)

encode_ascii : (bytes : List ℕ) → All (λ c. c < 128) (encode bytes)
unfolding encode
encode_ascii [] = tt
encode_ascii (a ∷ []) =
    let n = joined a 0 0 in
    (
      letter_ascii (n / 2 ^ 18 % 64),
      (letter_ascii (n / 2 ^ 12 % 64), (omega arith, (omega arith, tt))),
    )
encode_ascii (a ∷ b ∷ []) =
    let n = joined a b 0 in
    (
      letter_ascii (n / 2 ^ 18 % 64),
      (letter_ascii (n / 2 ^ 12 % 64), (letter_ascii (n / 2 ^ 6 % 64), (omega arith, tt))),
    )
encode_ascii (a ∷ b ∷ c ∷ rest) =
    let n = joined a b c in
    (
      letter_ascii (n / 2 ^ 18 % 64),
      (
        letter_ascii (n / 2 ^ 12 % 64),
        (letter_ascii (n / 2 ^ 6 % 64), (letter_ascii (n % 64), encode_ascii rest)),
      ),
    )

equals_refl : (s : List ℕ) → equals s s ≡ true
equals_refl [] = refl
equals_refl (c ∷ s) = ground (arith, equals_refl s)

xor_into_cancel : (a b : List ℕ) → xor_into (xor_into a b) b ≡ a
unfolding xor_into
xor_into_cancel a b = xor_onto_cancel a b

length-f1 : (k opc rand sqn amf : List ℕ) → length (f1 k opc rand sqn amf) ≡ 8
unfolding f1
length-f1 k opc rand sqn amf =
    omega (arith, length-take 8 (out1 k opc rand sqn amf), length-out1 k opc rand sqn amf)

-- The bytes of the nonce that a home network with these keys makes for a sequence number: RAND, SQN
-- under the anonymity key, AMF and the code of them.
abbrev pub challenge_bytes : AkaKeys → List ℕ → List ℕ → List ℕ → List ℕ
challenge_bytes keys rand sqn amf =
    rand
    ++ (xor_into sqn (f2345 keys.k keys.opc rand).ak
        ++ (amf ++ f1 keys.k keys.opc rand sqn (unwrap_or keys.amf amf)))

take_front : (n : ℕ) (xs ys : List ℕ) → length xs ≡ n → take n (xs ++ ys) ≡ xs
take_front n xs ys e = subst (λ m. take m (xs ++ ys) ≡ xs) e (take-length xs ys)

drop_front : (n : ℕ) (xs ys : List ℕ) → length xs ≡ n → drop n (xs ++ ys) ≡ ys
drop_front n xs ys e = subst (λ m. drop m (xs ++ ys) ≡ ys) e (drop-length xs ys)

pieces :
    (rand sqn amf mac : List ℕ)
    → length rand ≡ 16
    → length sqn ≡ 6
    → length amf ≡ 2
    → length mac ≡ 8
    → let bytes = rand ++ (sqn ++ (amf ++ mac)) in
      (take 16 bytes ≡ rand)
      × (take 6 (drop 16 bytes) ≡ sqn)
      × (take 2 (drop 22 bytes) ≡ amf)
      × (take 8 (drop 24 bytes) ≡ mac)
      × (ltb (length bytes) 32 ≡ false)
pieces rand sqn amf mac a b c d =
    let at_amf : drop 22 (rand ++ (sqn ++ (amf ++ mac))) ≡ amf ++ mac =
      ap (drop 22) (sym (append_assoc rand sqn (amf ++ mac)))
      ∙ drop_front 22 (rand ++ sqn) (amf ++ mac) (omega (arith, length-append rand sqn, a, b)) in
    let at_mac : drop 24 (rand ++ (sqn ++ (amf ++ mac))) ≡ mac =
      ap (λ s. drop 24 (rand ++ s)) (sym (append_assoc sqn amf mac))
      ∙ ap (drop 24) (sym (append_assoc rand (sqn ++ amf) mac))
      ∙ drop_front 24 (rand ++ (sqn ++ amf)) mac
          (omega (arith, length-append rand (sqn ++ amf), length-append sqn amf, a, b, c)) in
    let size : length (rand ++ (sqn ++ (amf ++ mac))) ≡ 32 = omega (
      arith,
      length-append rand (sqn ++ (amf ++ mac)),
      length-append sqn (amf ++ mac),
      length-append amf mac,
    ) in
    (
      take_front 16 rand (sqn ++ (amf ++ mac)) a,
      rw (drop_front 16 rand (sqn ++ (amf ++ mac)) a) (take_front 6 sqn (amf ++ mac) b),
      rw at_amf (take_front 2 amf mac c),
      rw at_mac (take_all 8 mac (omega arith)),
      ground (arith, size),
    )

aka_response-challenge :
    (keys : AkaKeys) (rand sqn amf : List ℕ)
    → length rand ≡ 16
    → length sqn ≡ 6
    → length amf ≡ 2
    → aka_response keys (challenge_bytes keys rand sqn amf)
      ≡ ok record {
        vector = f2345 keys.k keys.opc rand;
        sqn = sqn;
        amf = amf;
        auts = auts_of keys rand sqn;
      }
unfolding aka_response
aka_response-challenge keys rand sqn amf a b c =
    let hidden = xor_into sqn (f2345 keys.k keys.opc rand).ak in
    let mac = f1 keys.k keys.opc rand sqn (unwrap_or keys.amf amf) in
    let (p, q, r, s, t) =
      pieces rand hidden amf mac a (length-xor_into sqn (f2345 keys.k keys.opc rand).ak ∙ b) c
        (length-f1 keys.k keys.opc rand sqn (unwrap_or keys.amf amf)) in
    rw (p, q, r, s, t, xor_into_cancel sqn (f2345 keys.k keys.opc rand).ak, equals_refl mac) refl

-- A client takes the challenge that a home network with its keys and AMF makes for a sequence number:
-- it finds SQN and AMF in the nonce and the vector for RAND, and its AUTS is that for RAND and SQN.
pub aka_challenge_response-challenge :
    (keys : AkaKeys) (rand sqn amf : List ℕ)
    → length rand ≡ 16
    → length sqn ≡ 6
    → length amf ≡ 2
    → All (λ b. b < 256) (challenge_bytes keys rand sqn amf)
    → aka_challenge_response (encode (challenge_bytes keys rand sqn amf)) keys
      ≡ ok record {
        vector = f2345 keys.k keys.opc rand;
        sqn = sqn;
        amf = amf;
        auts = auts_of keys rand sqn;
      }
unfolding aka_challenge_response
aka_challenge_response-challenge keys rand sqn amf a b c bytes =
    let nonce = encode (challenge_bytes keys rand sqn amf) in
    let text : utf8 nonce ≡ nonce =
      utf8_ascii nonce (encode_ascii (challenge_bytes keys rand sqn amf)) in
    rw (text, decode-encode (challenge_bytes keys rand sqn amf) bytes)
      (aka_response-challenge keys rand sqn amf a b c)

-- With a highest accepted number of 6 bytes, the client sends no AUTS exactly when the new number is
-- higher and nothing is forced; from the AUTS that it sends the network gets back that highest number,
-- and the code of it.
pub auts_of-recovered :
    (keys : AkaKeys) (rand sqn ms : List ℕ)
    → keys.sqn_ms ≡ some ms
    → length ms ≡ 6
    → ((auts_of keys rand sqn ≡ none)
        × (keys.force_resync ≡ false)
        × (sqn_value ms < sqn_value sqn))
      ⊎ ((auts : List ℕ) × (auts_of keys rand sqn ≡ some auts)
          × ((keys.force_resync ≡ true) ⊎ (sqn_value sqn ≤ sqn_value ms))
          × (xor_into (take 6 auts) (f5_star keys.k keys.opc rand) ≡ ms)
          × (drop 6 auts ≡ f1_star keys.k keys.opc rand ms (0 ∷ 0 ∷ [])))
unfolding auts_of out_of_range
auts_of-recovered keys rand sqn ms held size =
    let star = f5_star keys.k keys.opc rand in
    let mac_s = f1_star keys.k keys.opc rand ms (0 ∷ 0 ∷ []) in
    let hidden = xor_into ms star in
    let long : length hidden ≡ 6 = length-xor_into ms star ∙ size in
    let recovered : xor_into (take 6 (hidden ++ mac_s)) star ≡ ms =
      rw (take_front 6 hidden mac_s long) (xor_into_cancel ms star) in
    let code = drop_front 6 hidden mac_s long in
    elim (Bool-cases keys.force_resync) [
      | inl e ↦ rw (held, e) (inr (hidden ++ mac_s, refl, inl refl, recovered, code))
      | inr e ↦ elim (Bool-cases (leb (sqn_value sqn) (sqn_value ms))) [
        | inl l ↦ rw (held, e, l) (inr (hidden ++ mac_s, refl, inr (leb→le _ _ l), recovered, code))
        | inr l ↦ rw (held, e, l) (inl (refl, refl, ground arith))
      ]
    ]
