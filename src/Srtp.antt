-- ===== src/Srtp.antt =====
-- crates/sipr-media/src/srtp.rs: one direction of an SRTP stream.
-- Bytes are numbers; the rollover counter is a u32 and a sequence number a u16.
pub mod Cipher
mod Payload
mod Session
mod Rollover
mod Sdes
mod Suites
mod Runs
use Prim.Native.String.{String}
use text.Mathlib.Text.{◌==◌ as str_eq}
use sipr.Base64
use Cipher.{Primitives, SessionKeys, packet_iv, aes_cm_apply, derive_session_keys}
use sipr.Common.Words.{be32}
use sipr.Common.{
  ℕ, zero, suc, ◌+◌, ◌-◌, ◌*◌, ◌/◌, ◌%◌, ◌^◌, Bool, true, false, not, ◌&&◌, List, [], ◌∷◌, ◌++◌,
  Option, none, some, ltb, leb, ◌==◌, if◌then◌else◌, length, take, drop, get_or,
}

abbrev pub header_len : ℕ
header_len = 12

pub data Suite : Type 0 where
  aes_cm128_hmac_sha1_80 aes_cm128_hmac_sha1_32 null_hmac_sha1_80 null_hmac_sha1_32 : Suite

unfoldable pub parse : String → Option Suite
parse name =
    if str_eq name "AES_CM_128_HMAC_SHA1_80"
    then some aes_cm128_hmac_sha1_80
    else if str_eq name "AES_CM_128_HMAC_SHA1_32"
    then some aes_cm128_hmac_sha1_32
    else if str_eq name "NULL_HMAC_SHA1_80"
    then some null_hmac_sha1_80
    else if str_eq name "NULL_HMAC_SHA1_32"
    then some null_hmac_sha1_32
    else none

unfoldable pub as_str : Suite → String
as_str aes_cm128_hmac_sha1_80 = "AES_CM_128_HMAC_SHA1_80"
as_str aes_cm128_hmac_sha1_32 = "AES_CM_128_HMAC_SHA1_32"
as_str null_hmac_sha1_80 = "NULL_HMAC_SHA1_80"
as_str null_hmac_sha1_32 = "NULL_HMAC_SHA1_32"

unfoldable pub tag_len : Suite → ℕ
tag_len aes_cm128_hmac_sha1_80 = 10
tag_len aes_cm128_hmac_sha1_32 = 4
tag_len null_hmac_sha1_80 = 10
tag_len null_hmac_sha1_32 = 4

unfoldable pub encrypts : Suite → Bool
encrypts aes_cm128_hmac_sha1_80 = true
encrypts aes_cm128_hmac_sha1_32 = true
encrypts null_hmac_sha1_80 = false
encrypts null_hmac_sha1_32 = false

pub record MasterKey : Type 0 where
  pub key : List ℕ
  pub salt : List ℕ

-- From 30 bytes.
unfoldable pub from_bytes : List ℕ → MasterKey
from_bytes bytes = record { key = take 16 bytes; salt = drop 16 bytes }

abbrev pub is_nil : List ℕ → Bool
is_nil [] = true
is_nil (c ∷ s) = false

-- `trim_end_matches('=')`
unfoldable pub trim_end : List ℕ → List ℕ
trim_end [] = []
trim_end (c ∷ s) = let rest = trim_end s in if is_nil rest && c == 61 then [] else c ∷ rest

-- `value.split('|').next()`
unfoldable pub before_bar : List ℕ → List ℕ
before_bar [] = []
before_bar (c ∷ s) = if c == 124 then [] else c ∷ before_bar s

unfoldable pub to_sdes : MasterKey → List ℕ
unfolding trim_end
to_sdes m = trim_end (Base64.encode (m.key ++ m.salt))

unfoldable pub first_30 : Option (List ℕ) → Option MasterKey
unfolding from_bytes
first_30 none = none
first_30 (some bytes) = if ltb (length bytes) 30 then none else some (from_bytes (take 30 bytes))

unfoldable pub from_sdes : List ℕ → Option MasterKey
unfolding before_bar first_30
from_sdes value = first_30 (Base64.decode (before_bar value))

pub data SrtpError : Type 0 where
  too_short auth_failed : SrtpError

pub data Result {ℓ} (A : Type ℓ) : Type ℓ where
  ok : A → Result A
  err : SrtpError → Result A

pub record SrtpContext : Type 0 where
  pub suite : Suite
  pub keys : SessionKeys
  pub encrypt : Bool
  pub roc : ℕ
  pub s_l : Option ℕ

unfoldable pub new : Primitives → Suite → MasterKey → Bool → SrtpContext
unfolding encrypts derive_session_keys
new p suite master unencrypted = record {
  suite = suite;
  keys = derive_session_keys p master.key master.salt;
  encrypt = encrypts suite && not unencrypted;
  roc = 0;
  s_l = none;
}

-- `diff > 32_768` is `s_l + 32768 < seq`, and `diff < -32_768` is `seq + 32768 < s_l`.
unfoldable pub estimate_roc : SrtpContext → ℕ → ℕ
estimate_roc c seq = elim c.s_l [
  | none ↦ c.roc
  | some s_l ↦
      if ltb s_l 32768
      then (if ltb (s_l + 32768) seq then (c.roc + 2 ^ 32 - 1) % 2 ^ 32 else c.roc)
      else (if ltb (seq + 32768) s_l then (c.roc + 1) % 2 ^ 32 else c.roc)
]

-- `u64::from(v) << 16 | u64::from(seq)`
abbrev pub index_of : ℕ → ℕ → ℕ
index_of v seq = v * 2 ^ 16 + seq

unfoldable pub is_newer : SrtpContext → ℕ → ℕ → Bool
is_newer c v seq = elim c.s_l [ none ↦ true | some s_l ↦ ltb (index_of c.roc s_l) (index_of v seq) ]

unfoldable pub advance : SrtpContext → ℕ → ℕ → SrtpContext
unfolding is_newer
advance c v seq = if is_newer c v seq then record c { roc = v; s_l = some seq } else c

-- The sequence number and the SSRC of a packet.
unfoldable pub seq_of : List ℕ → ℕ
seq_of packet = get_or packet 2 0 * 256 + get_or packet 3 0

unfoldable pub ssrc_of : List ℕ → ℕ
ssrc_of packet =
    get_or packet 8 0 * 2 ^ 24
    + get_or packet 9 0 * 2 ^ 16
    + get_or packet 10 0 * 2 ^ 8
    + get_or packet 11 0

abbrev pub bytes_eq : List ℕ → List ℕ → Bool
bytes_eq [] [] = true
bytes_eq [] (y ∷ ys) = false
bytes_eq (x ∷ xs) [] = false
bytes_eq (x ∷ xs) (y ∷ ys) = x == y && bytes_eq xs ys

module _ (p : Primitives) where
  unfoldable pub tag : SrtpContext → List ℕ → ℕ → List ℕ
  unfolding tag_len be32
  tag c authenticated roc =
      take (tag_len c.suite) (p.hmac_sha1 c.keys.auth_key (authenticated ++ be32 roc))

  -- The payload under the key stream of the packet's index, or as it is.
  unfoldable pub apply_cipher : SrtpContext → ℕ → ℕ → ℕ → List ℕ → List ℕ
  unfolding packet_iv aes_cm_apply
  apply_cipher c v seq ssrc packet =
      if c.encrypt
      then take header_len packet
        ++ aes_cm_apply p c.keys.cipher_key (packet_iv c.keys.salt ssrc (index_of v seq))
            (drop header_len packet)
      else packet

  unfoldable pub protect : SrtpContext → List ℕ → SrtpContext × List ℕ
  protect c rtp =
      if ltb (length rtp) header_len
      then (c, rtp)
      else let seq = seq_of rtp in
        let v = estimate_roc c seq in
        let out = apply_cipher c v seq (ssrc_of rtp) rtp in (advance c v seq, out ++ tag c out v)

  unfoldable pub unprotect : SrtpContext → List ℕ → SrtpContext × Result (List ℕ)
  unprotect c srtp =
      let n = tag_len c.suite in
      if ltb (length srtp) (header_len + n)
      then (c, err too_short)
      else let body = take (length srtp - n) srtp in
        let received = drop (length srtp - n) srtp in
        let seq = seq_of body in
        let v = estimate_roc c seq in
        if not (bytes_eq (tag c body v) received)
        then (c, err auth_failed)
        else (advance c v seq, ok (apply_cipher c v seq (ssrc_of body) body))
