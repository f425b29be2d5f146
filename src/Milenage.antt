-- ===== src/Milenage.antt =====
-- crates/sipr-auth/src/milenage.rs: the functions f1 to f5, f1* and f5* of IMS AKA over AES-128. A
-- key, a block and a challenge are 16 bytes, SQN 6 and AMF 2.
mod Runs
pub mod Blocks
use Prim.Native.Nat.{bit_xor}
use sipr.Common.{ℕ, zero, suc, ◌+◌, ◌%◌, List, [], ◌∷◌, ◌++◌, take, drop, get_or, set, replicate}
use sipr.Common.Bits.{xor_onto}
use sipr.Aes.{encrypt_block}

pub record AkaVector : Type 0 where
  pub res : List ℕ
  pub ck : List ℕ
  pub ik : List ℕ
  pub ak : List ℕ

unfoldable pub xor_into : List ℕ → List ℕ → List ℕ
unfolding xor_onto
xor_into dst src = xor_onto dst src

unfoldable pub opc : List ℕ → List ℕ → List ℕ
unfolding xor_into encrypt_block
opc k op = xor_into (encrypt_block k op) op

unfoldable pub temp : List ℕ → List ℕ → List ℕ → List ℕ
unfolding xor_into encrypt_block
temp k opc rand = encrypt_block k (xor_into rand opc)

-- `input[(i + rotate) % 16] = x[i] ^ y[i]` for the `n` numbers from `i` on.
unfoldable pub rotate_loop : ℕ → ℕ → ℕ → List ℕ → List ℕ → List ℕ → List ℕ
rotate_loop zero i rotate x y input = input
rotate_loop (suc n) i rotate x y input =
    rotate_loop n (suc i) rotate x y
      (set input ((i + rotate) % 16) (bit_xor (get_or x i 0) (get_or y i 0)))

abbrev pub zero_block : List ℕ
zero_block = replicate 16 0

unfoldable pub output : List ℕ → List ℕ → List ℕ → ℕ → ℕ → List ℕ
unfolding rotate_loop xor_into encrypt_block
output k opc temp rotate c =
    let rotated = rotate_loop 16 0 rotate temp opc zero_block in
    let input = set rotated 15 (bit_xor (get_or rotated 15 0) c) in
    xor_into (encrypt_block k input) opc

unfoldable pub out1 : List ℕ → List ℕ → List ℕ → List ℕ → List ℕ → List ℕ
unfolding rotate_loop xor_into encrypt_block temp
out1 k opc rand sqn amf =
    let in1 = sqn ++ (amf ++ (sqn ++ amf)) in
    let input = xor_into (rotate_loop 16 0 8 in1 opc zero_block) (temp k opc rand) in
    xor_into (encrypt_block k input) opc

unfoldable pub f2345 : List ℕ → List ℕ → List ℕ → AkaVector
unfolding temp output
f2345 k opc rand =
    let t = temp k opc rand in
    let out2 = output k opc t 0 1 in
    record {
      res = take 8 (drop 8 out2);
      ck = output k opc t 12 2;
      ik = output k opc t 8 4;
      ak = take 6 out2;
    }

unfoldable pub f1 : List ℕ → List ℕ → List ℕ → List ℕ → List ℕ → List ℕ
unfolding out1
f1 k opc rand sqn amf = take 8 (out1 k opc rand sqn amf)

unfoldable pub f1_star : List ℕ → List ℕ → List ℕ → List ℕ → List ℕ → List ℕ
unfolding out1
f1_star k opc rand sqn amf = take 8 (drop 8 (out1 k opc rand sqn amf))

unfoldable pub f5_star : List ℕ → List ℕ → List ℕ → List ℕ
unfolding temp output
f5_star k opc rand = take 6 (output k opc (temp k opc rand) 4 8)
