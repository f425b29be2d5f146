-- ===== src/Regex/Runs.antt =====
-- Patterns compiled and looked for, and the theorems at concrete inputs.
use Prim.Native.Char.{code}
use Prim.Native.String.{String}
use sipr.Common.{ℕ, ◌≢◌, List, [], ◌∷◌, Option, none, some, ◌≡◌, refl, arith}
use sipr.Regex.{literal, any_byte, group, repeat, Captures, Regex, find, expand, match_node}
use sipr.Regex.Fuel.{expand-match_node}
use sipr.Regex.Sound.{Matches}
use sipr.Regex.Found.{Found, find-Found}
use sipr.Regex.Atomic.{then_literal, find-then_literal}
use sipr.Regex.Parse.{Parsed, ok, err, Parser, out_of_fuel, unbalanced, reversed_bound}
use sipr.Regex.Parse.Total.{GroupsBelow}
use sipr.Regex.Parse.Enough.{compile-GroupsBelow}
use sipr.Regex.Parse.Pattern.{compile}

abbrev ascii : String → List ℕ
ascii String.[] = []
ascii (String.◌∷◌ first rest) = code first ∷ ascii rest

-- What a pattern finds in a text.
abbrev found_by : Parsed Regex → String → Option Captures
found_by (ok r p) text = find r (ascii text)
found_by (err e) text = none

digits_found : found_by (compile (ascii "[0-9]+")) "abc4711def" ≡ some (some (3, 7) ∷ [])
unfolding compile find
digits_found = refl

posix_found : found_by (compile (ascii "[[:alnum:]]+")) "!!x9y!!" ≡ some (some (2, 5) ∷ [])
unfolding compile find
posix_found = refl

groups_found :
    found_by (compile (ascii "(INVITE|BYE) sip:([a-z]+)")) "xx BYE sip:carol yy"
    ≡ some (some (3, 16) ∷ some (3, 6) ∷ some (11, 16) ∷ [])
unfolding compile find
groups_found = refl

gives_back : found_by (compile (ascii ".*b")) "aababc" ≡ some (some (0, 5) ∷ [])
unfolding compile find
gives_back = refl

bounds_found : found_by (compile (ascii "a{2,3}")) "aaaa" ≡ some (some (0, 3) ∷ [])
unfolding compile find
bounds_found = refl

anchored : found_by (compile (ascii "^abc")) "xabc" ≡ none
unfolding compile find
anchored = refl

empty_width : found_by (compile (ascii "(a?){2}")) "b" ≡ none
unfolding compile find
empty_width = refl

unbalanced_group : compile (ascii "(a") ≡ err unbalanced
unfolding compile
unbalanced_group = refl

reversed : compile (ascii "a{3,2}") ≡ err reversed_bound
unfolding compile
reversed = refl

-- `b+` with a group.
abbrev many_b : Regex
many_b = record { root = group 1 (repeat (literal 98) 1 none); ngroups = 1 }

find-Found_example : Found many_b (ascii "abb") (some (1, 3) ∷ some (1, 3) ∷ [])
unfolding find
find-Found_example = find-Found many_b (ascii "abb") (some (1, 3) ∷ some (1, 3) ∷ []) refl

find-then_literal_example :
    (find (record { root = then_literal 64; ngroups = 1 }) (ascii "a@b") ≡ none)
    × (find (record { root = then_literal 64; ngroups = 1 }) (64 ∷ ascii "a@b") ≡ none)
    × Matches (64 ∷ ascii "a@b") (then_literal 64) 0 1
find-then_literal_example = find-then_literal (ascii "a@b") 64 (λ e. omega (arith, e)) (omega arith)

-- A group in a group.
abbrev nested : List ℕ
nested = ascii "((a))"

compile-GroupsBelow_example :
    (compile nested ≢ err out_of_fuel)
    × ((r : Regex) (p : Parser) → compile nested ≡ ok r p → GroupsBelow r.ngroups r.root)
compile-GroupsBelow_example = compile-GroupsBelow nested

expand-match_node_example :
    expand (match_node any_byte (ascii "ab")) 3 0 9 1 (0 ∷ []) 0 (record { caps = []; budget = 50 })
    ≡ expand
        (match_node any_byte (ascii "ab"))
        40
        0
        9
        1
        (0 ∷ [])
        0
        (record { caps = []; budget = 50 })
expand-match_node_example =
    expand-match_node any_byte (ascii "ab") 3 40 0 9 1 0 (0 ∷ [])
      (record { caps = []; budget = 50 }) (omega arith) (omega arith) (omega arith)
