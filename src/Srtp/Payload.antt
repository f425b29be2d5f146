-- ===== src/Srtp/Payload.antt =====
-- The parts of a packet: the header stays, the key stream on the payload cancels, the tag has its length.
use sipr.Common.Words.{be32}
use sipr.Common.{
  ℕ, zero, suc, ◌≤◌, ◌<◌, Bool, true, false, List, [], ◌∷◌, ◌++◌, ◌≡◌, refl, arith, if◌then◌else◌,
  length, take, drop, get_or, subst, length-append, length-take, length-drop, take-append-drop,
  take-length, drop-length,
}
use sipr.Common.Bits.{length-xor_onto, xor_onto_cancel}
use sipr.Srtp.Cipher.{Primitives, aes_cm_apply, packet_iv}
use sipr.Srtp.{
  SrtpContext, Suite, tag_len, seq_of, ssrc_of, bytes_eq, tag, apply_cipher, index_of,
  aes_cm128_hmac_sha1_80, aes_cm128_hmac_sha1_32, null_hmac_sha1_80, null_hmac_sha1_32,
}

-- The key stream depends on the length of the payload only, and cancels.
aes_cm_apply_cancel :
    (p : Primitives) (key iv input : List ℕ)
    → aes_cm_apply p key iv (aes_cm_apply p key iv input) ≡ input
unfolding aes_cm_apply
aes_cm_apply_cancel p key iv input = rw (length-xor_onto, xor_onto_cancel) refl

length-aes_cm_apply :
    (p : Primitives) (key iv input : List ℕ) → length (aes_cm_apply p key iv input) ≡ length input
unfolding aes_cm_apply
length-aes_cm_apply p key iv input = length-xor_onto input _

pub bytes_eq_same : (xs : List ℕ) → bytes_eq xs xs ≡ true
bytes_eq_same [] = refl
bytes_eq_same (x ∷ xs) = ground (arith, bytes_eq_same xs)

-- The header is read through the first twelve bytes.
get_or-take : (n i : ℕ) (xs : List ℕ) → i < n → get_or (take n xs) i 0 ≡ get_or xs i 0
get_or-take zero i xs h = absurd (omega arith)
get_or-take (suc n) i [] h = refl
get_or-take (suc n) zero (x ∷ xs) h = refl
get_or-take (suc n) (suc i) (x ∷ xs) h = get_or-take n i xs (omega arith)

same_at :
    (i : ℕ) (xs ys : List ℕ) → i < 12 → take 12 xs ≡ take 12 ys → get_or xs i 0 ≡ get_or ys i 0
same_at i xs ys h e = cc (get_or-take 12 i xs h, get_or-take 12 i ys h, e)

pub same_header :
    (xs ys : List ℕ) → take 12 xs ≡ take 12 ys → (seq_of xs ≡ seq_of ys) × (ssrc_of xs ≡ ssrc_of ys)
unfolding seq_of ssrc_of
same_header xs ys e =
    let at = λ (i : ℕ) (h : i < 12). same_at i xs ys h e in
    (
      cc (at 2 (omega arith), at 3 (omega arith)),
      cc (at 8 (omega arith), at 9 (omega arith), at 10 (omega arith), at 11 (omega arith)),
    )

-- A routine on the payload that keeps its length and undoes itself.
abbrev on_payload : Bool → (List ℕ → List ℕ) → List ℕ → List ℕ
on_payload b f rtp = if b then take 12 rtp ++ f (drop 12 rtp) else rtp

module _ (f : List ℕ → List ℕ) (rtp : List ℕ) (long : 12 ≤ length rtp) where
  size : length (take 12 rtp) ≡ 12
  size = omega (arith, length-take 12 rtp)

  take-on_payload : (b : Bool) → take 12 (on_payload b f rtp) ≡ take 12 rtp
  take-on_payload true =
      subst (λ n. take n (take 12 rtp ++ f (drop 12 rtp)) ≡ take 12 rtp) size
        (take-length (take 12 rtp) (f (drop 12 rtp)))
  take-on_payload false = refl

  drop-on_payload : drop 12 (on_payload true f rtp) ≡ f (drop 12 rtp)
  drop-on_payload =
      subst (λ n. drop n (take 12 rtp ++ f (drop 12 rtp)) ≡ f (drop 12 rtp)) size
        (drop-length (take 12 rtp) (f (drop 12 rtp)))

  length-on_payload :
      ((s : List ℕ) → length (f s) ≡ length s)
      → (b : Bool) → length (on_payload b f rtp) ≡ length rtp
  length-on_payload keeps true = omega (
    arith,
    length-append (take 12 rtp) (f (drop 12 rtp)),
    keeps (drop 12 rtp),
    length-drop 12 rtp,
    size,
  )
  length-on_payload keeps false = refl

  on_payload_twice :
      ((s : List ℕ) → f (f s) ≡ s) → (b : Bool) → on_payload b f (on_payload b f rtp) ≡ rtp
  on_payload_twice undoes true =
      rw (take-on_payload true, drop-on_payload, undoes) (take-append-drop 12 rtp)
  on_payload_twice undoes false = refl

module _ (p : Primitives) (c : SrtpContext) (v seq ssrc : ℕ) (rtp : List ℕ)
    (long : 12 ≤ length rtp) where
  stream : List ℕ → List ℕ
  stream = aes_cm_apply p c.keys.cipher_key (packet_iv c.keys.salt ssrc (index_of v seq))

  pub take-apply_cipher : take 12 (apply_cipher p c v seq ssrc rtp) ≡ take 12 rtp
  unfolding apply_cipher stream
  take-apply_cipher = take-on_payload stream rtp long c.encrypt

  pub length-apply_cipher : length (apply_cipher p c v seq ssrc rtp) ≡ length rtp
  unfolding apply_cipher stream
  length-apply_cipher = length-on_payload stream rtp long (length-aes_cm_apply p _ _) c.encrypt

  pub apply_cipher_twice : apply_cipher p c v seq ssrc (apply_cipher p c v seq ssrc rtp) ≡ rtp
  unfolding apply_cipher stream
  apply_cipher_twice = on_payload_twice stream rtp long (aes_cm_apply_cancel p _ _) c.encrypt

tag_len_le : (suite : Suite) → tag_len suite ≤ 20
unfolding tag_len
tag_len_le aes_cm128_hmac_sha1_80 = omega arith
tag_len_le aes_cm128_hmac_sha1_32 = omega arith
tag_len_le null_hmac_sha1_80 = omega arith
tag_len_le null_hmac_sha1_32 = omega arith

pub length-tag :
    (p : Primitives) (c : SrtpContext) (s : List ℕ) (v : ℕ) → length (tag p c s v) ≡ tag_len c.suite
unfolding tag
length-tag p c s v =
    let digest = p.hmac_sha1 c.keys.auth_key (s ++ be32 v) in
    omega (
      arith,
      length-take (tag_len c.suite) digest,
      p.length-hmac_sha1 c.keys.auth_key (s ++ be32 v),
      tag_len_le c.suite,
    )
