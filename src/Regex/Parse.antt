-- ===== src/Regex/Parse.antt =====
-- crates/sipr-scenario/src/regex.rs: the parser of a pattern.
pub mod Class
pub mod Pattern
pub mod Total
pub mod Pieces
pub mod Classes
pub mod Enough
use sipr.Common.{
  ℕ, zero, suc, ◌+◌, ◌-◌, ◌*◌, ◌^◌, Bool, true, false, not, ◌&&◌, ◌||◌, List, [], ◌∷◌, ◌++◌, Option,
  none, some, ltb, leb, ◌==◌, if◌then◌else◌, length, drop,
}
use sipr.Regex.{
  Node, Nodes, literal, any_byte, class, start, end, group, seq, alt, repeat, done, next, ClassItem,
  byte, range, posix, Posix, alnum, alpha, digit, lower, upper, space, punct, xdigit, blank, cntrl,
  graph, print, is_digit, Regex,
}

-- The bytes from `pos` on are `rest`.
pub record Parser : Type 0 where
  pub rest : List ℕ
  pub pos : ℕ
  pub ngroups : ℕ

-- `out_of_fuel` is the model's own.
pub data RegexError : Type 0 where
  unexpected : ℕ → ℕ → RegexError
  bad_bound unterminated_bound reversed_bound unbalanced trailing_backslash nothing_to_repeat :
      RegexError
  end_of_pattern unterminated_class backslash_in_class unterminated_range : RegexError
  reversed_range malformed_class out_of_fuel : RegexError
  unknown_class : List ℕ → RegexError

pub data Parsed {ℓ} (A : Type ℓ) : Type ℓ where
  ok : A → Parser → Parsed A
  err : RegexError → Parsed A

unfoldable pub bind {ℓ κ} :
    {A : Type ℓ} {B : Type κ} → Parsed A → (A → Parser → Parsed B) → Parsed B
bind (ok a p) f = f a p
bind (err e) f = err e

abbrev pub first_of : List ℕ → Option ℕ
first_of [] = none
first_of (b ∷ s) = some b

unfoldable pub peek : Parser → Option ℕ
peek p = first_of p.rest

-- The parser behind `n` bytes that are there.
unfoldable pub skip : ℕ → Parser → Parser
skip n p = record p { rest = drop n p.rest; pos = p.pos + n }

-- `bump` where a byte is needed.
unfoldable pub bump_or : RegexError → Parser → Parsed ℕ
unfolding skip
bump_or e p = elim p.rest [ [] ↦ err e | b ∷ s ↦ ok b (skip 1 p) ]

-- `self.bump() != Some(c)`
unfoldable pub expect : ℕ → RegexError → Parser → Parsed (Unit {0})
unfolding bump_or
expect c e p = bind (bump_or e p) (λ b q. if b == c then ok tt q else err e)

-- The digits that come first.
unfoldable pub digits_of : List ℕ → List ℕ
unfolding is_digit
digits_of [] = []
digits_of (b ∷ s) = if is_digit b then b ∷ digits_of s else []

unfoldable pub number_from : ℕ → List ℕ → ℕ
number_from n [] = n
number_from n (b ∷ s) = number_from (n * 10 + (b - 48)) s

-- `parse::<u32>` of a text of digits.
unfoldable pub parse_u32 : List ℕ → Option ℕ
unfolding number_from
parse_u32 [] = none
parse_u32 (b ∷ s) = let n = number_from 0 (b ∷ s) in if ltb n (2 ^ 32) then some n else none

abbrev pub or_error {ℓ} : {A : Type ℓ} → Option A → RegexError → Parser → Parsed A
or_error none e p = err e
or_error (some a) e p = ok a p

unfoldable pub take_digits : Parser → Parsed (List ℕ)
unfolding digits_of skip
take_digits p = ok (digits_of p.rest) (skip (length (digits_of p.rest)) p)

-- The upper bound behind the comma; no digits, no bound.
unfoldable pub parse_max : Parser → Parsed (Option ℕ)
unfolding bind take_digits expect parse_u32
parse_max p = bind (take_digits p) λ digits q. bind (expect 125 unterminated_bound q) λ _ r.
    elim digits [
      | [] ↦ ok none r
      | d ∷ ds ↦ bind (or_error (parse_u32 (d ∷ ds)) bad_bound r) λ max u. ok (some max) u
    ]

-- What follows the lower bound.
unfoldable pub parse_upper : ℕ → ℕ → Parser → Parsed (Option ℕ)
unfolding parse_max
parse_upper min b p =
    if b == 125 then ok (some min) p else if b == 44 then parse_max p else err unterminated_bound

abbrev pub is_reversed : ℕ → Option ℕ → Bool
is_reversed min none = false
is_reversed min (some max) = ltb max min

unfoldable pub parse_bound : Node → Parser → Parsed Node
unfolding bind take_digits parse_u32 bump_or parse_upper
parse_bound atom p = bind (take_digits p) λ digits q.
    bind (or_error (parse_u32 digits) bad_bound q) λ min r.
      bind (bump_or unterminated_bound r) λ b u.
        bind (parse_upper min b u)
          λ max v. if is_reversed min max then err reversed_bound else ok (repeat atom min max) v

unfoldable pub parse_postfix : Node → Parser → Parsed Node
unfolding peek skip parse_bound
parse_postfix atom p = elim (peek p) [
  | none ↦ ok atom p
  | some c ↦
      if c == 42
      then ok (repeat atom 0 none) (skip 1 p)
      else if c == 43
      then ok (repeat atom 1 none) (skip 1 p)
      else if c == 63
      then ok (repeat atom 0 (some 1)) (skip 1 p)
      else if c == 123
      then parse_bound atom (skip 1 p)
      else ok atom p
]

unfoldable pub next_is : ℕ → Parser → Bool
next_is c p = elim p.rest [ [] ↦ false | b ∷ s ↦ b == c ]
