-- ===== src/Hash/Sha256.antt =====
-- crates/sipr-auth/src/hash.rs: SHA-256.
use Prim.Native.Nat.{bit_and, bit_xor}
use sipr.Common.{ℕ, zero, suc, ◌-◌, ◌/◌, ◌^◌, List, [], ◌∷◌, ◌++◌, length, drop, get_or}
use sipr.Common.Words.{be32, be64, be_words, wrapping_add, not32, rotate_right}
use sipr.Hash.{padded, bit_len, hex}

abbrev pub sha_k : List ℕ
sha_k =
    1116352408 ∷ 1899447441 ∷ 3049323471 ∷ 3921009573 ∷ 961987163 ∷ 1508970993 ∷ 2453635748
    ∷ 2870763221 ∷ 3624381080 ∷ 310598401 ∷ 607225278 ∷ 1426881987 ∷ 1925078388 ∷ 2162078206
    ∷ 2614888103 ∷ 3248222580 ∷ 3835390401 ∷ 4022224774 ∷ 264347078 ∷ 604807628 ∷ 770255983
    ∷ 1249150122 ∷ 1555081692 ∷ 1996064986 ∷ 2554220882 ∷ 2821834349 ∷ 2952996808 ∷ 3210313671
    ∷ 3336571891 ∷ 3584528711 ∷ 113926993 ∷ 338241895 ∷ 666307205 ∷ 773529912 ∷ 1294757372
    ∷ 1396182291 ∷ 1695183700 ∷ 1986661051 ∷ 2177026350 ∷ 2456956037 ∷ 2730485921 ∷ 2820302411
    ∷ 3259730800 ∷ 3345764771 ∷ 3516065817 ∷ 3600352804 ∷ 4094571909 ∷ 275423344 ∷ 430227734
    ∷ 506948616 ∷ 659060556 ∷ 883997877 ∷ 958139571 ∷ 1322822218 ∷ 1537002063 ∷ 1747873779
    ∷ 1955562222 ∷ 2024104815 ∷ 2227730452 ∷ 2361852424 ∷ 2428436474 ∷ 2756734187 ∷ 3204031479
    ∷ 3329325298 ∷ []

pub record Sha256State : Type 0 where
  pub a : ℕ
  pub b : ℕ
  pub c : ℕ
  pub d : ℕ
  pub e : ℕ
  pub f : ℕ
  pub g : ℕ
  pub h : ℕ

abbrev pub sha256_start : Sha256State
sha256_start = record {
  a = 1779033703;
  b = 3144134277;
  c = 1013904242;
  d = 2773480762;
  e = 1359893119;
  f = 2600822924;
  g = 528734635;
  h = 1541459225;
}

-- `w[i - 16] + s0 + w[i - 7] + s1`, wrapping.
unfoldable pub sha256_next : List ℕ → ℕ
sha256_next w =
    let i = length w in
    let x = get_or w (i - 15) 0 in
    let y = get_or w (i - 2) 0 in
    let s0 = bit_xor (bit_xor (rotate_right x 7) (rotate_right x 18)) (x / 2 ^ 3) in
    let s1 = bit_xor (bit_xor (rotate_right y 17) (rotate_right y 19)) (y / 2 ^ 10) in
    wrapping_add (wrapping_add (wrapping_add (get_or w (i - 16) 0) s0) (get_or w (i - 7) 0)) s1

unfoldable pub sha256_schedule : ℕ → List ℕ → List ℕ
unfolding sha256_next
sha256_schedule zero w = w
sha256_schedule (suc n) w = sha256_schedule n (w ++ (sha256_next w ∷ []))

unfoldable pub sha256_t1 : ℕ → ℕ → Sha256State → ℕ
sha256_t1 k w s =
    let s1 = bit_xor (bit_xor (rotate_right s.e 6) (rotate_right s.e 11)) (rotate_right s.e 25) in
    let ch = bit_xor (bit_and s.e s.f) (bit_and (not32 s.e) s.g) in
    wrapping_add (wrapping_add (wrapping_add (wrapping_add s.h s1) ch) k) w

unfoldable pub sha256_t2 : Sha256State → ℕ
sha256_t2 s =
    let s0 = bit_xor (bit_xor (rotate_right s.a 2) (rotate_right s.a 13)) (rotate_right s.a 22) in
    let maj = bit_xor (bit_xor (bit_and s.a s.b) (bit_and s.a s.c)) (bit_and s.b s.c) in
    wrapping_add s0 maj

unfoldable pub sha256_round : ℕ → ℕ → Sha256State → Sha256State
unfolding sha256_t1 sha256_t2
sha256_round k w s = record {
  a = wrapping_add (sha256_t1 k w s) (sha256_t2 s);
  b = s.a;
  c = s.b;
  d = s.c;
  e = wrapping_add s.d (sha256_t1 k w s);
  f = s.e;
  g = s.f;
  h = s.g;
}

-- The constants and the words in step: there are 64 of each.
unfoldable pub sha256_rounds : List ℕ → List ℕ → Sha256State → Sha256State
unfolding sha256_round
sha256_rounds [] ws s = s
sha256_rounds (k ∷ ks) [] s = s
sha256_rounds (k ∷ ks) (w ∷ ws) s = sha256_rounds ks ws (sha256_round k w s)

abbrev pub sha256_sum : Sha256State → Sha256State → Sha256State
sha256_sum h s = record {
  a = wrapping_add h.a s.a;
  b = wrapping_add h.b s.b;
  c = wrapping_add h.c s.c;
  d = wrapping_add h.d s.d;
  e = wrapping_add h.e s.e;
  f = wrapping_add h.f s.f;
  g = wrapping_add h.g s.g;
  h = wrapping_add h.h s.h;
}

unfoldable pub sha256_chunks : ℕ → List ℕ → Sha256State → Sha256State
unfolding sha256_schedule sha256_rounds be_words
sha256_chunks zero msg h = h
sha256_chunks (suc n) msg h =
    sha256_chunks n (drop 64 msg)
      (sha256_sum h (sha256_rounds sha_k (sha256_schedule 48 (be_words 16 msg)) h))

abbrev pub sha256_bytes : Sha256State → List ℕ
sha256_bytes s =
    be32 s.a
    ++ (be32 s.b ++ (be32 s.c ++ (be32 s.d ++ (be32 s.e ++ (be32 s.f ++ (be32 s.g ++ be32 s.h))))))

unfoldable pub sha256 : List ℕ → List ℕ
unfolding sha256_chunks padded be32 be64
sha256 input =
    let msg = padded input ++ be64 (bit_len input) in
    sha256_bytes (sha256_chunks (length msg / 64) msg sha256_start)

unfoldable pub sha256_hex : List ℕ → List ℕ
unfolding sha256 hex
sha256_hex input = hex (sha256 input)
