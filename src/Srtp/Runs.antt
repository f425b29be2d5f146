-- ===== src/Srtp/Runs.antt =====
-- The theorems on SRTP at concrete packets, with AES and HMAC-SHA1.
use sipr.Common.{
  ℕ, ◌-◌, ◌%◌, ◌/◌, ◌^◌, false, some, List, [], ◌∷◌, ◌++◌, ◌≡◌, refl, map, arith, replicate,
}
use sipr.Srtp.Suites.{aes_and_sha1}
use sipr.Srtp.{
  SrtpContext, ok, MasterKey, new, estimate_roc, advance, aes_cm128_hmac_sha1_32, from_sdes,
  to_sdes,
}
use sipr.Srtp.Session.{heard, send, receive, receive-send}
use sipr.Srtp.Sdes.{from_sdes-to_sdes}
use sipr.Srtp.Rollover.{at_index, estimate_roc_lem, advance_wraps}

abbrev start : SrtpContext
start =
    new aes_and_sha1 aes_cm128_hmac_sha1_32 (record { key = replicate 16 1; salt = replicate 14 2 })
      false

abbrev packet : List ℕ
packet = 128 ∷ 8 ∷ 1 ∷ 2 ∷ 0 ∷ 0 ∷ 0 ∷ 0 ∷ 222 ∷ 173 ∷ 190 ∷ 239 ∷ 5 ∷ 6 ∷ 7 ∷ []

receive-send_example :
    receive aes_and_sha1 start (send aes_and_sha1 start (packet ∷ packet ∷ [])).1
    ≡ ((send aes_and_sha1 start (packet ∷ packet ∷ [])).0, map ok (packet ∷ packet ∷ []))
receive-send_example =
    receive-send aes_and_sha1 start (packet ∷ packet ∷ []) (omega arith, (omega arith, tt))

estimate_roc_lem_example : estimate_roc (at_index start 65530) (65540 % 2 ^ 16) ≡ 65540 / 2 ^ 16
estimate_roc_lem_example =
    estimate_roc_lem start 65530 65540 (omega arith) (omega arith) (omega arith) (omega arith)

advance_wraps_example :
    advance (heard start 0 (some 10)) (estimate_roc (heard start 0 (some 10)) 65530) 65530
    ≡ record (heard start 0 (some 10)) { roc = 2 ^ 32 - 1; s_l = some 65530 }
advance_wraps_example =
    advance_wraps (heard start 0 (some 10)) 10 65530 refl refl (omega arith) (omega arith)

abbrev master : MasterKey
master = record { key = replicate 16 200; salt = replicate 14 3 }

from_sdes-to_sdes_example :
    (from_sdes (to_sdes master) ≡ some master)
    × (from_sdes (to_sdes master ++ (124 ∷ 50 ∷ [])) ≡ some master)
from_sdes-to_sdes_example = from_sdes-to_sdes master (50 ∷ []) refl refl (omega arith)
