-- ===== src/Hash/Md5.antt =====
-- crates/sipr-auth/src/hash.rs: MD5.
use Prim.Native.Nat.{bit_and, bit_or, bit_xor}
use sipr.Common.{
  ℕ, zero, suc, ◌+◌, ◌*◌, ◌/◌, ◌%◌, List, [], ◌∷◌, ◌++◌, length, drop, get_or, ltb, if◌then◌else◌,
}
use sipr.Common.Words.{le32, le64, le_words, wrapping_add, not32, rotate_left}
use sipr.Hash.{padded, bit_len, hex}

abbrev pub md5_s : List ℕ
md5_s =
    7 ∷ 12 ∷ 17 ∷ 22 ∷ 7 ∷ 12 ∷ 17 ∷ 22 ∷ 7 ∷ 12 ∷ 17 ∷ 22 ∷ 7 ∷ 12 ∷ 17 ∷ 22 ∷ 5 ∷ 9 ∷ 14 ∷ 20 ∷ 5
    ∷ 9 ∷ 14 ∷ 20 ∷ 5 ∷ 9 ∷ 14 ∷ 20 ∷ 5 ∷ 9 ∷ 14 ∷ 20 ∷ 4 ∷ 11 ∷ 16 ∷ 23 ∷ 4 ∷ 11 ∷ 16 ∷ 23 ∷ 4 ∷ 11
    ∷ 16 ∷ 23 ∷ 4 ∷ 11 ∷ 16 ∷ 23 ∷ 6 ∷ 10 ∷ 15 ∷ 21 ∷ 6 ∷ 10 ∷ 15 ∷ 21 ∷ 6 ∷ 10 ∷ 15 ∷ 21 ∷ 6 ∷ 10
    ∷ 15 ∷ 21 ∷ []

abbrev pub md5_k : List ℕ
md5_k =
    3614090360 ∷ 3905402710 ∷ 606105819 ∷ 3250441966 ∷ 4118548399 ∷ 1200080426 ∷ 2821735955
    ∷ 4249261313 ∷ 1770035416 ∷ 2336552879 ∷ 4294925233 ∷ 2304563134 ∷ 1804603682 ∷ 4254626195
    ∷ 2792965006 ∷ 1236535329 ∷ 4129170786 ∷ 3225465664 ∷ 643717713 ∷ 3921069994 ∷ 3593408605
    ∷ 38016083 ∷ 3634488961 ∷ 3889429448 ∷ 568446438 ∷ 3275163606 ∷ 4107603335 ∷ 1163531501
    ∷ 2850285829 ∷ 4243563512 ∷ 1735328473 ∷ 2368359562 ∷ 4294588738 ∷ 2272392833 ∷ 1839030562
    ∷ 4259657740 ∷ 2763975236 ∷ 1272893353 ∷ 4139469664 ∷ 3200236656 ∷ 681279174 ∷ 3936430074
    ∷ 3572445317 ∷ 76029189 ∷ 3654602809 ∷ 3873151461 ∷ 530742520 ∷ 3299628645 ∷ 4096336452
    ∷ 1126891415 ∷ 2878612391 ∷ 4237533241 ∷ 1700485571 ∷ 2399980690 ∷ 4293915773 ∷ 2240044497
    ∷ 1873313359 ∷ 4264355552 ∷ 2734768916 ∷ 1309151649 ∷ 4149444226 ∷ 3174756917 ∷ 718787259
    ∷ 3951481745 ∷ []

pub record Md5State : Type 0 where
  pub a : ℕ
  pub b : ℕ
  pub c : ℕ
  pub d : ℕ

abbrev pub md5_start : Md5State
md5_start = record { a = 1732584193; b = 4023233417; c = 2562383102; d = 271733878 }

unfoldable pub md5_f : ℕ → Md5State → ℕ
md5_f i s =
    if ltb i 16
    then bit_or (bit_and s.b s.c) (bit_and (not32 s.b) s.d)
    else if ltb i 32
    then bit_or (bit_and s.d s.b) (bit_and (not32 s.d) s.c)
    else if ltb i 48
    then bit_xor (bit_xor s.b s.c) s.d
    else bit_xor s.c (bit_or s.b (not32 s.d))

unfoldable pub md5_g : ℕ → ℕ
md5_g i =
    if ltb i 16
    then i
    else if ltb i 32
    then (5 * i + 1) % 16
    else if ltb i 48
    then (3 * i + 5) % 16
    else 7 * i % 16

unfoldable pub md5_round : ℕ → List ℕ → Md5State → Md5State
unfolding md5_f md5_g
md5_round i m s =
    let f2 =
      wrapping_add (wrapping_add (wrapping_add (md5_f i s) s.a) (get_or md5_k i 0))
        (get_or m (md5_g i) 0) in
    record { a = s.d; b = wrapping_add s.b (rotate_left f2 (get_or md5_s i 0)); c = s.b; d = s.c }

-- The rounds from `i` on.
unfoldable pub md5_rounds : ℕ → ℕ → List ℕ → Md5State → Md5State
unfolding md5_round
md5_rounds zero i m s = s
md5_rounds (suc n) i m s = md5_rounds n (suc i) m (md5_round i m s)

abbrev pub md5_sum : Md5State → Md5State → Md5State
md5_sum h s = record {
  a = wrapping_add h.a s.a;
  b = wrapping_add h.b s.b;
  c = wrapping_add h.c s.c;
  d = wrapping_add h.d s.d;
}

unfoldable pub md5_chunks : ℕ → List ℕ → Md5State → Md5State
unfolding md5_rounds le_words
md5_chunks zero msg h = h
md5_chunks (suc n) msg h =
    md5_chunks n (drop 64 msg) (md5_sum h (md5_rounds 64 0 (le_words 16 msg) h))

abbrev pub md5_bytes : Md5State → List ℕ
md5_bytes h = le32 h.a ++ (le32 h.b ++ (le32 h.c ++ le32 h.d))

unfoldable pub md5 : List ℕ → List ℕ
unfolding md5_chunks padded le32 le64
md5 input =
    let msg = padded input ++ le64 (bit_len input) in
    md5_bytes (md5_chunks (length msg / 64) msg md5_start)

unfoldable pub md5_hex : List ℕ → List ℕ
unfolding md5 hex
md5_hex input = hex (md5 input)
