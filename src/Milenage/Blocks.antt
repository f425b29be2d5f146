-- ===== src/Milenage/Blocks.antt =====
-- The rotation of a block, and the parts of an output.
use Prim.Native.Nat.{bit_xor}
use native.Mathlib.Decide.{ℕ_discrete}
use sipr.Common.{
  ℕ, zero, suc, ◌+◌, ◌%◌, ◌≤◌, ◌<◌, ◌≡◌, refl, ◌∙◌, List, ◌++◌, arith, length, get_or, take, drop,
  get_or-set_self, get_or-set_ne, length-set, length-drop, take-append-drop, take_all,
}
use sipr.Common.Bits.{length-xor_onto}
use sipr.Aes.{encrypt_block}
use sipr.Aes.Shape.{length-encrypt_block}
use sipr.Milenage.{rotate_loop, zero_block, f1, f1_star, out1, temp, xor_into}

rotate_loop_kept :
    (n i r : ℕ) (x y input : List ℕ) (m : ℕ)
    → m < i
    → n + i ≤ 16
    → get_or (rotate_loop n i r x y input) ((m + r) % 16) 0 ≡ get_or input ((m + r) % 16) 0
unfolding rotate_loop
rotate_loop_kept zero i r x y input m below fits = refl
rotate_loop_kept (suc n) i r x y input m below fits =
    rotate_loop_kept n (suc i) r x y _ m (omega arith) (omega arith)
    ∙ get_or-set_ne input ((i + r) % 16) ((m + r) % 16) _ 0 (λ e. omega (arith, e))

rotate_loop_at :
    (n i r : ℕ) (x y input : List ℕ) (m : ℕ)
    → i ≤ m
    → m < n + i
    → n + i ≤ 16
    → length input ≡ 16
    → get_or (rotate_loop n i r x y input) ((m + r) % 16) 0 ≡ bit_xor (get_or x m 0) (get_or y m 0)
unfolding rotate_loop
rotate_loop_at zero i r x y input m from below fits size = absurd (omega arith)
rotate_loop_at (suc n) i r x y input m from below fits size = elim (ℕ_discrete i m) [
  | yes here ↦ rw (← here) (
      rotate_loop_kept n (suc i) r x y _ i (omega arith) (omega arith)
      ∙ get_or-set_self input ((i + r) % 16) _ 0 (omega (arith, size)))
  | no later ↦
      rotate_loop_at n (suc i) r x y _ m (omega (arith, later)) (omega arith) (omega arith)
        (length-set input _ _ ∙ size)
]

-- The loop moves the sum of byte `m` of the two blocks to place `m + rotate`, around the end of the
-- block, for each of the 16 bytes and every rotation.
pub rotate_loop_lem :
    (rotate : ℕ) (x y : List ℕ) (m : ℕ)
    → m < 16
    → get_or (rotate_loop 16 0 rotate x y zero_block) ((m + rotate) % 16) 0
      ≡ bit_xor (get_or x m 0) (get_or y m 0)
rotate_loop_lem rotate x y m below =
    rotate_loop_at 16 0 rotate x y zero_block m (omega arith) (omega arith) (omega arith) refl

pub length-xor_into : (dst src : List ℕ) → length (xor_into dst src) ≡ length dst
unfolding xor_into
length-xor_into dst src = length-xor_onto dst src

pub length-out1 : (k opc rand sqn amf : List ℕ) → length (out1 k opc rand sqn amf) ≡ 16
unfolding out1
length-out1 k opc rand sqn amf =
    let in1 = sqn ++ (amf ++ (sqn ++ amf)) in
    let input = xor_into (rotate_loop 16 0 8 in1 opc zero_block) (temp k opc rand) in
    length-xor_into (encrypt_block k input) opc ∙ length-encrypt_block k input

halves : (block : List ℕ) → length block ≡ 16 → take 8 block ++ take 8 (drop 8 block) ≡ block
halves block size =
    let rest : take 8 (drop 8 block) ≡ drop 8 block =
      take_all 8 (drop 8 block) (omega (arith, length-drop 8 block, size)) in
    rw rest (take-append-drop 8 block)

-- The two authentication codes are the halves of one block.
pub f1-f1_star :
    (k opc rand sqn amf : List ℕ)
    → f1 k opc rand sqn amf ++ f1_star k opc rand sqn amf ≡ out1 k opc rand sqn amf
unfolding f1 f1_star
f1-f1_star k opc rand sqn amf = halves (out1 k opc rand sqn amf) (length-out1 k opc rand sqn amf)
