-- ===== src/Srtp/Session.antt =====
-- Two ends with the same keys: what one protects, the other accepts and restores.
use sipr.Common.{
  ℕ, ◌+◌, ◌-◌, ◌≤◌, false, not, Option, List, [], ◌∷◌, ◌++◌, ◌≡◌, refl, ◌∙◌, arith, ltb,
  if◌then◌else◌, length, All, map, length-append, take-length, drop-length,
}
use sipr.Srtp.Cipher.{Primitives}
use sipr.Srtp.{
  SrtpContext, Result, ok, err, auth_failed, tag_len, seq_of, ssrc_of, bytes_eq, tag, apply_cipher,
  protect, unprotect, estimate_roc, advance,
}
use sipr.Srtp.Payload.{
  bytes_eq_same, same_header, take-apply_cipher, length-apply_cipher, apply_cipher_twice,
  length-tag,
}

-- What `unprotect` does once the packet is split.
abbrev check : Primitives → SrtpContext → List ℕ → List ℕ → SrtpContext × Result (List ℕ)
check p c body received =
    if not (bytes_eq (tag p c body (estimate_roc c (seq_of body))) received)
    then (c, err auth_failed)
    else (
      advance c (estimate_roc c (seq_of body)) (seq_of body),
      ok (apply_cipher p c (estimate_roc c (seq_of body)) (seq_of body) (ssrc_of body) body),
    )

unprotect-append :
    (p : Primitives) (c : SrtpContext) (body received : List ℕ)
    → 12 ≤ length body
    → length received ≡ tag_len c.suite
    → unprotect p c (body ++ received) ≡ check p c body received
unfolding unprotect
unprotect-append p c body received long same =
    let size : length (body ++ received) ≡ length body + tag_len c.suite =
      omega (arith, length-append body received, same) in
    let enough : ltb (length (body ++ received)) (12 + tag_len c.suite) ≡ false =
      ground (arith, size) in
    let cut : length (body ++ received) - tag_len c.suite ≡ length body = omega (arith, size) in
    rw (enough, cut, take-length body received, drop-length body received) refl

-- A context with the keys of another, that has heard other packets.
abbrev pub heard : SrtpContext → ℕ → Option ℕ → SrtpContext
heard c roc s_l = record c { roc = roc; s_l = s_l }

tag-heard :
    (p : Primitives) (c : SrtpContext) (r : ℕ) (s : Option ℕ) (body : List ℕ) (v : ℕ)
    → tag p (heard c r s) body v ≡ tag p c body v
unfolding tag
tag-heard p c r s body v = refl

apply_cipher-heard :
    (p : Primitives) (c : SrtpContext) (r : ℕ) (s : Option ℕ) (v seq ssrc : ℕ) (body : List ℕ)
    → apply_cipher p (heard c r s) v seq ssrc body ≡ apply_cipher p c v seq ssrc body
unfolding apply_cipher
apply_cipher-heard p c r s v seq ssrc body = refl

check-tag :
    (p : Primitives) (tx : SrtpContext) (r v : ℕ) (s : Option ℕ) (seq ssrc : ℕ) (rtp : List ℕ)
    → 12 ≤ length rtp
    → seq_of rtp ≡ seq
    → ssrc_of rtp ≡ ssrc
    → estimate_roc (heard tx r s) seq ≡ v
    → check p
        (heard tx r s)
        (apply_cipher p tx v seq ssrc rtp)
        (tag p tx (apply_cipher p tx v seq ssrc rtp) v)
      ≡ (advance (heard tx r s) v seq, ok rtp)
check-tag p tx r v s seq ssrc rtp long same_seq same_ssrc agrees =
    let out = apply_cipher p tx v seq ssrc rtp in
    let (seq_out, ssrc_out) = same_header out rtp (take-apply_cipher p tx v seq ssrc rtp long) in
    rw
      (
        seq_out,
        ssrc_out,
        same_seq,
        same_ssrc,
        agrees,
        tag-heard,
        bytes_eq_same,
        apply_cipher-heard,
        apply_cipher_twice p tx v seq ssrc rtp long,
      )
      refl

-- Both ends of a session: every packet of a list in turn.
unfoldable pub send : Primitives → SrtpContext → List (List ℕ) → SrtpContext × List (List ℕ)
send p c [] = (c, [])
send p c (rtp ∷ packets) =
    let (c', wire) = protect p c rtp in
    let (final, wires) = send p c' packets in (final, wire ∷ wires)

unfoldable pub receive :
    Primitives → SrtpContext → List (List ℕ) → SrtpContext × List (Result (List ℕ))
receive p c [] = (c, [])
receive p c (wire ∷ wires) =
    let (c', result) = unprotect p c wire in
    let (final, results) = receive p c' wires in (final, result ∷ results)

-- A packet with a whole header, protected at one end, is accepted at an end with the same keys that
-- estimates the same rollover counter: the receiver has the packet as it was, and advances.
pub unprotect-protect :
    (p : Primitives) (tx : SrtpContext) (r : ℕ) (s : Option ℕ) (rtp : List ℕ)
    → 12 ≤ length rtp
    → estimate_roc (heard tx r s) (seq_of rtp) ≡ estimate_roc tx (seq_of rtp)
    → unprotect p (heard tx r s) (protect p tx rtp).1
      ≡ (advance (heard tx r s) (estimate_roc tx (seq_of rtp)) (seq_of rtp), ok rtp)
unfolding protect
unprotect-protect p tx r s rtp long agrees =
    let enough : ltb (length rtp) 12 ≡ false = ground arith in
    let v = estimate_roc tx (seq_of rtp) in
    let out = apply_cipher p tx v (seq_of rtp) (ssrc_of rtp) rtp in
    rw enough (
      unprotect-append p (heard tx r s) out (tag p tx out v)
        (omega (arith, length-apply_cipher p tx v (seq_of rtp) (ssrc_of rtp) rtp long))
        (length-tag p tx out v)
      ∙ check-tag p tx r v s (seq_of rtp) (ssrc_of rtp) rtp long refl refl agrees)

protect_long :
    (p : Primitives) (c : SrtpContext) (rtp : List ℕ)
    → 12 ≤ length rtp
    → (protect p c rtp).0 ≡ advance c (estimate_roc c (seq_of rtp)) (seq_of rtp)
unfolding protect
protect_long p c rtp long =
    let enough : ltb (length rtp) 12 ≡ false = ground arith in rw enough refl

step-send :
    (p : Primitives) (c : SrtpContext) (rtp : List ℕ)
    → 12 ≤ length rtp
    → unprotect p c (protect p c rtp).1 ≡ ((protect p c rtp).0, ok rtp)
step-send p c rtp long =
    unprotect-protect p c c.roc c.s_l rtp long refl ∙ rw (protect_long p c rtp long) refl

-- Two ends that start from one context, over a channel that keeps order and loses nothing, for
-- packets that all have a whole header: the receiver has all the packets as they were, and the ends finish in one context.
pub receive-send :
    (p : Primitives) (c : SrtpContext) (packets : List (List ℕ))
    → All (λ rtp. 12 ≤ length rtp) packets
    → receive p c (send p c packets).1 ≡ ((send p c packets).0, map ok packets)
unfolding send receive
receive-send p c [] h = refl
receive-send p c (rtp ∷ packets) h =
    rw (step-send p c rtp h.0, receive-send p (protect p c rtp).0 packets h.1) refl
