-- ===== src/Aes/Shape.antt =====
-- The shape of blocks and round keys.
use sipr.Common.{ℕ, List, ◌≡◌, ◌∙◌, refl, length}
use sipr.Common.Bits.{length-xor_onto}
use sipr.Aes.{
  add_round_key, shift_rows, sub_bytes, encrypt_block, expand_key, middle_rounds, rounds,
}
use sipr.Common.{get_or, take, drop, []}

length-add_round_key : (state rk : List ℕ) → length (add_round_key state rk) ≡ length state
unfolding add_round_key
length-add_round_key state rk = length-xor_onto state rk

length-shift_rows : (state : List ℕ) → length (shift_rows state) ≡ 16
unfolding shift_rows
length-shift_rows state = refl

pub length-encrypt_block : (key block : List ℕ) → length (encrypt_block key block) ≡ 16
unfolding encrypt_block
length-encrypt_block key block =
    let round_keys = expand_key key in
    let state =
      middle_rounds (drop 1 (take rounds round_keys))
        (add_round_key block (get_or round_keys 0 [])) in
    length-add_round_key (shift_rows (sub_bytes state)) (get_or round_keys rounds [])
    ∙ length-shift_rows (sub_bytes state)
