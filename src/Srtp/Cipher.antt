-- ===== src/Srtp/Cipher.antt =====
-- What SRTP takes from the ciphers, and crates/sipr-auth/src/srtp_kdf.rs over it: the AES-CM key
-- stream, the packet IV and the session keys. Bytes are numbers.
use Prim.Native.Nat.{bit_xor}
use mathlib.Core.List.{reverse}
use sipr.Common.Bits.{xor_onto}
use sipr.Common.Words.{be32}
use sipr.Common.{
  ℕ, zero, suc, ◌+◌, ◌-◌, ◌/◌, ◌%◌, ◌^◌, min, List, [], ◌∷◌, ◌++◌, ◌≡◌, ◌==◌, if◌then◌else◌, length,
  take, drop, get_or, set,
}

-- What the client takes: `encrypt_block` of aes.rs, and `hmac_sha1` of hash.rs with the length of its
-- result.
pub record Primitives : Type 0 where
  pub encrypt_block : List ℕ → List ℕ → List ℕ
  pub hmac_sha1 : List ℕ → List ℕ → List ℕ
  pub length-hmac_sha1 : (key text : List ℕ) → length (hmac_sha1 key text) ≡ 20

-- The big-endian increment, on the bytes from the lowest: it stops at the first that is not 0 then.
unfoldable pub increment_le : List ℕ → List ℕ
increment_le [] = []
increment_le (b ∷ rest) =
    let b' = (b + 1) % 256 in if b' == 0 then b' ∷ increment_le rest else b' ∷ rest

unfoldable pub increment : List ℕ → List ℕ
unfolding increment_le
increment counter = reverse (increment_le (reverse counter))

-- `xor_onto` from an offset on.
unfoldable pub xor_at : ℕ → List ℕ → List ℕ → List ℕ
unfolding xor_onto
xor_at at bytes ks = take at bytes ++ xor_onto (drop at bytes) ks

-- The low six bytes of `u64::to_be_bytes`.
unfoldable pub be48 : ℕ → List ℕ
unfolding be32
be48 n = n / 2 ^ 40 % 256 ∷ n / 2 ^ 32 % 256 ∷ be32 n

unfoldable pub packet_iv : List ℕ → ℕ → ℕ → List ℕ
unfolding xor_at be32 be48
packet_iv session_salt ssrc index =
    xor_at 8 (xor_at 4 (session_salt ++ (0 ∷ 0 ∷ [])) (be32 ssrc)) (be48 index)

pub record SessionKeys : Type 0 where
  pub cipher_key : List ℕ
  pub auth_key : List ℕ
  pub salt : List ℕ

module _ (p : Primitives) where
  open p use {encrypt_block}

  -- The chunks of 16 bytes that are left, and the bytes that are left.
  unfoldable pub keystream_loop : ℕ → List ℕ → List ℕ → ℕ → List ℕ
  unfolding increment
  keystream_loop zero key counter left = []
  keystream_loop (suc chunks) key counter left =
      take (min 16 left) (encrypt_block key counter)
      ++ keystream_loop chunks key (increment counter) (left - 16)

  -- `chunks_mut(16)` of a buffer of `n` bytes has (n + 15) / 16 chunks.
  unfoldable pub aes_cm_keystream : List ℕ → List ℕ → ℕ → List ℕ
  unfolding keystream_loop
  aes_cm_keystream key iv n = keystream_loop ((n + 15) / 16) key iv n

  unfoldable pub aes_cm_apply : List ℕ → List ℕ → List ℕ → List ℕ
  unfolding aes_cm_keystream xor_onto
  aes_cm_apply key iv input = xor_onto input (aes_cm_keystream key iv (length input))

  unfoldable pub prf : List ℕ → List ℕ → ℕ → ℕ → List ℕ
  unfolding aes_cm_keystream
  prf master_key master_salt label n =
      let x = set master_salt 7 (bit_xor (get_or master_salt 7 0) label) in
      aes_cm_keystream master_key (x ++ (0 ∷ 0 ∷ [])) n

  unfoldable pub derive_session_keys : List ℕ → List ℕ → SessionKeys
  unfolding prf
  derive_session_keys master_key master_salt = record {
    cipher_key = prf master_key master_salt 0 16;
    auth_key = prf master_key master_salt 1 20;
    salt = prf master_key master_salt 2 14;
  }
