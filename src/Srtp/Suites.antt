-- ===== src/Srtp/Suites.antt =====
-- The ciphers of the program, as SRTP takes them.
use sipr.Aes.{encrypt_block}
use sipr.Hash.{hmac_sha1}
use sipr.Hash.Digests.{length-hmac_sha1}
use sipr.Srtp.Cipher.{Primitives}

-- AES-128 and HMAC-SHA1.
abbrev pub aes_and_sha1 : Primitives
aes_and_sha1 = record {
  encrypt_block = encrypt_block;
  hmac_sha1 = hmac_sha1;
  length-hmac_sha1 = length-hmac_sha1;
}
