-- ===== src/Framer/Runs.antt =====
-- Runs of the framer, and its theorems at concrete inputs.
use Prim.Native.Char.{code}
use Prim.Native.String.{String}
use sipr.Common.{ℕ, List, [], ◌∷◌, ◌++◌, some, ◌≡◌, refl, arith}
use sipr.Framer.{
  content_length, find_subslice, strip_crlf, cut, next_in, next_message, push, starts_with,
  position_of, blank_line,
}
use sipr.Framer.Chunks.{Drains, dry, more, Drains-append}
use sipr.Framer.Delivery.{message, next_message_delivers, message-Drains}

abbrev ascii : String → List ℕ
ascii String.[] = []
ascii (String.◌∷◌ first rest) = code first ∷ ascii rest

-- The headers `l: 1` with the body `A`.
abbrev head : List ℕ
head = ascii "l: 1"

abbrev whole : List ℕ
whole = message head (ascii "A")

reads_length : content_length (ascii "Via: x") ≡ 0
unfolding content_length
reads_length = refl

next_message_delivers_example : next_message (whole ++ ascii "BYE") ≡ (ascii "BYE", some whole)
unfolding starts_with position_of content_length
next_message_delivers_example =
    next_message_delivers head (ascii "A") (ascii "BYE") (omega arith) refl refl refl (omega arith)

no_message : Drains (ascii "l: ") [] (ascii "l: ")
unfolding next_message next_in strip_crlf find_subslice cut content_length
no_message = dry (ascii "l: ") (ascii "l: ") refl

one_message : Drains whole (whole ∷ []) []
unfolding next_message next_in strip_crlf find_subslice cut content_length
one_message = more whole [] whole [] [] refl (dry [] [] refl)

Drains-append_example :
    Drains
      (push (ascii "l: ") (blank_line ++ ascii "x"))
      ((ascii "l: " ++ blank_line) ∷ [])
      (ascii "x")
unfolding next_message next_in strip_crlf find_subslice cut content_length push
Drains-append_example =
    Drains-append (ascii "l: ") (blank_line ++ ascii "x") [] ((ascii "l: " ++ blank_line) ∷ [])
      (ascii "l: ") (ascii "x") no_message
      (more _ (ascii "x") _ [] (ascii "x") refl (dry (ascii "x") (ascii "x") refl))

-- 22 bytes of headers, a blank line of 4, and a length of 2 ^ 64 - 26.
abbrev trap : List ℕ
trap = ascii "l:18446744073709551590"

message-Drains_example : ¬ Drains (message trap (ascii "BYE")) ([] ∷ []) []
unfolding starts_with position_of content_length
message-Drains_example = message-Drains trap (ascii "BYE") [] ([] ∷ []) (omega arith) refl refl refl
