-- ===== src/Regex/Parse/Class.antt =====
-- crates/sipr-scenario/src/regex.rs: the parser of a character class.
use sipr.Common.{
  ℕ, zero, suc, ◌+◌, Bool, true, false, not, ◌&&◌, List, [], ◌∷◌, ◌++◌, Option, none, some, ltb,
  ◌==◌, if◌then◌else◌, length, drop,
}
use sipr.Regex.{
  Node, class, ClassItem, byte, range, posix, Posix, alnum, alpha, digit, lower, upper, space,
  punct, xdigit, blank, cntrl, graph, print,
}
use sipr.Regex.Parse.{
  Parser, unterminated_class, backslash_in_class, unterminated_range, reversed_range,
  malformed_class, out_of_fuel, unknown_class, Parsed, ok, err, bind, peek, skip, bump_or, expect,
  or_error, next_is,
}

unfoldable pub same_bytes : List ℕ → List ℕ → Bool
same_bytes [] [] = true
same_bytes [] (y ∷ ys) = false
same_bytes (x ∷ xs) [] = false
same_bytes (x ∷ xs) (y ∷ ys) = x == y && same_bytes xs ys

abbrev pub posix_names : List (List ℕ × Posix)
posix_names =
    (97 ∷ 108 ∷ 110 ∷ 117 ∷ 109 ∷ [], alnum)
    ∷ (97 ∷ 108 ∷ 112 ∷ 104 ∷ 97 ∷ [], alpha)
    ∷ (100 ∷ 105 ∷ 103 ∷ 105 ∷ 116 ∷ [], digit)
    ∷ (108 ∷ 111 ∷ 119 ∷ 101 ∷ 114 ∷ [], lower)
    ∷ (117 ∷ 112 ∷ 112 ∷ 101 ∷ 114 ∷ [], upper)
    ∷ (115 ∷ 112 ∷ 97 ∷ 99 ∷ 101 ∷ [], space)
    ∷ (112 ∷ 117 ∷ 110 ∷ 99 ∷ 116 ∷ [], punct)
    ∷ (120 ∷ 100 ∷ 105 ∷ 103 ∷ 105 ∷ 116 ∷ [], xdigit)
    ∷ (98 ∷ 108 ∷ 97 ∷ 110 ∷ 107 ∷ [], blank)
    ∷ (99 ∷ 110 ∷ 116 ∷ 114 ∷ 108 ∷ [], cntrl)
    ∷ (103 ∷ 114 ∷ 97 ∷ 112 ∷ 104 ∷ [], graph)
    ∷ (112 ∷ 114 ∷ 105 ∷ 110 ∷ 116 ∷ [], print)
    ∷ []

unfoldable pub posix_named : List ℕ → List (List ℕ × Posix) → Option Posix
unfolding same_bytes
posix_named name [] = none
posix_named name ((n, p) ∷ names) =
    let later = posix_named name names in if same_bytes name n then some p else later

-- The bytes before a colon.
unfoldable pub until_colon : List ℕ → List ℕ
until_colon [] = []
until_colon (b ∷ s) = if b == 58 then [] else b ∷ until_colon s

unfoldable pub parse_posix_class : Parser → Parsed ClassItem
unfolding bind expect skip posix_named until_colon
parse_posix_class p =
    let name = until_colon (drop 2 p.rest) in
    bind (expect 58 malformed_class (skip (2 + length name) p)) λ _ q.
      bind (expect 93 malformed_class q) λ _ r.
        bind (or_error (posix_named name posix_names) (unknown_class name) r)
          λ class u. ok (posix class) u

-- Two bytes at the front.
unfoldable pub begins : ℕ → ℕ → List ℕ → Bool
begins a b [] = false
begins a b (x ∷ []) = false
begins a b (x ∷ y ∷ s) = x == a && y == b

-- `-` is next, and what follows it is not `]`.
unfoldable pub is_range : List ℕ → Bool
is_range [] = false
is_range (x ∷ []) = x == 45
is_range (x ∷ y ∷ s) = x == 45 && not (y == 93)

-- One item that is no class by name: `c` is its first byte.
unfoldable pub parse_item : Parser → Parsed ClassItem
unfolding bind bump_or is_range skip
parse_item p = bind (bump_or unterminated_class p) λ b q.
    bind (if b == 92 then bump_or backslash_in_class q else ok b q) λ c r.
      if is_range r.rest
      then (bind (bump_or unterminated_range (skip 1 r))
          λ d u. if ltb d c then err reversed_range else ok (range c d) u)
      else ok (byte c) r

-- The loop of `parse_class`: each round takes a byte at least.
unfoldable pub class_items : ℕ → Parser → Parsed (List ClassItem)
unfolding bind peek skip begins parse_posix_class parse_item
class_items zero p = err out_of_fuel
class_items (suc fuel) p = elim (peek p) [
  | none ↦ err unterminated_class
  | some c ↦ elim (c == 93) [
    | true ↦ ok [] (skip 1 p)
    | false ↦
        bind (if begins 91 58 p.rest then parse_posix_class p else parse_item p)
          λ item q. bind (class_items fuel q) λ items r. ok (item ∷ items) r
  ]
]

-- The bracket that stands first is a literal.
unfoldable pub first_item : Parser → Parsed (List ClassItem)
unfolding next_is skip
first_item p = if next_is 93 p then ok (byte 93 ∷ []) (skip 1 p) else ok [] p

unfoldable pub parse_class : Parser → Parsed Node
unfolding next_is skip bind first_item class_items
parse_class p =
    let negated = next_is 94 p in
    bind (first_item (if negated then skip 1 p else p)) λ first q.
      bind (class_items (suc (length q.rest)) q) λ items r. ok (class negated (first ++ items)) r
