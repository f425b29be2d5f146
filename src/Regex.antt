-- ===== src/Regex.antt =====
-- crates/sipr-scenario/src/regex.rs: the expressions, and the matcher. A byte is a number.
pub mod Sound
pub mod Repeats
pub mod Bounds
pub mod Slots
pub mod Found
pub mod Atomic
pub mod Fuel
pub mod Parse
mod Runs
use sipr.Common.{
  ℕ, zero, suc, ◌+◌, ◌-◌, ◌*◌, ◌%◌, ◌^◌, Bool, true, false, not, ◌&&◌, ◌||◌, List, [], ◌∷◌, ◌++◌,
  Option, none, some, ltb, leb, ◌==◌, if◌then◌else◌, length, get_elem?, get_or, set, take, drop,
  replicate,
}
use mathlib.Core.Option

abbrev pub step_budget : ℕ
step_budget = 1000000

pub data Posix : Type 0 where
  alnum alpha digit lower upper space punct xdigit blank cntrl graph print : Posix

unfoldable pub is_lower : ℕ → Bool
is_lower b = leb 97 b && leb b 122

unfoldable pub is_upper : ℕ → Bool
is_upper b = leb 65 b && leb b 90

unfoldable pub is_digit : ℕ → Bool
is_digit b = leb 48 b && leb b 57

-- `u8::is_ascii_graphic`
unfoldable pub is_graphic : ℕ → Bool
is_graphic b = leb 33 b && leb b 126

unfoldable pub posix_matches : Posix → ℕ → Bool
unfolding is_lower is_upper is_digit is_graphic
posix_matches alnum b = is_lower b || is_upper b || is_digit b
posix_matches alpha b = is_lower b || is_upper b
posix_matches digit b = is_digit b
posix_matches lower b = is_lower b
posix_matches upper b = is_upper b
posix_matches space b = b == 32 || b == 9 || b == 10 || b == 12 || b == 13
posix_matches punct b = is_graphic b && not (is_lower b || is_upper b || is_digit b)
posix_matches xdigit b = is_digit b || leb 65 b && leb b 70 || leb 97 b && leb b 102
posix_matches blank b = b == 32 || b == 9
posix_matches cntrl b = ltb b 32 || b == 127
posix_matches graph b = is_graphic b
posix_matches print b = is_graphic b || b == 32

pub data ClassItem : Type 0 where
  byte : ℕ → ClassItem
  range : ℕ → ℕ → ClassItem
  posix : Posix → ClassItem

mutual
  pub data Node : Type 0 where
    literal : ℕ → Node
    any_byte : Node
    class : Bool → List ClassItem → Node
    start end : Node
    group : ℕ → Node → Node
    seq alt : Nodes → Node
    repeat : Node → ℕ → Option ℕ → Node

  pub data Nodes : Type 0 where
    done : Nodes
    next : Node → Nodes → Nodes

-- The whole match and the groups, each where it begins and ends.
abbrev pub Captures : Type 0
Captures = List (Option (ℕ × ℕ))

-- What the calls change: the captures and the budget.
pub record Search : Type 0 where
  pub caps : Captures
  pub budget : ℕ

-- No match, or where the match ends.
pub data Outcome : Type 0 where
  miss : Search → Outcome
  hit : ℕ → Search → Outcome

-- A try to match from a place.
abbrev pub Try : Type 0
Try = ℕ → Search → Outcome

unfoldable pub item_matches : ℕ → ClassItem → Bool
unfolding posix_matches
item_matches b (byte c) = b == c
item_matches b (range a z) = leb a b && leb b z
item_matches b (posix p) = posix_matches p b

unfoldable pub any_item : ℕ → List ClassItem → Bool
unfolding item_matches
any_item b [] = false
any_item b (i ∷ items) = item_matches b i || any_item b items

-- One byte that passes a test.
abbrev pub one_byte : (ℕ → Bool) → List ℕ → ℕ → Option ℕ
one_byte test text pos = elim (get_elem? text pos) [
  | none ↦ none
  | some b ↦ if test b then some (pos + 1) else none
]

abbrev pub equals : ℕ → ℕ → Bool
equals c b = b == c

abbrev pub not_newline : ℕ → Bool
not_newline b = not (b == 10)

unfoldable pub in_class : Bool → List ClassItem → ℕ → Bool
unfolding any_item
in_class negated items b = if negated then not (any_item b items) else any_item b items

-- The loop that collects the ends, the last one first, after `count` of them. The fuel is one
-- more than the length of the text: each end but the first is greater than the one before.
unfoldable pub expand : Try → ℕ → ℕ → ℕ → ℕ → List ℕ → ℕ → Search → Search × List ℕ
expand try zero min limit count ends cur s = (s, ends)
expand try (suc fuel) min limit count ends cur s = elim (leb count limit) [
  | false ↦ (s, ends)
  | true ↦ elim (try cur s) [
    | miss t ↦ (t, ends)
    | hit found t ↦ elim ((ltb cur found || leb count min) && not (found == cur)) [
      | true ↦ expand try fuel min limit (suc count) (found ∷ ends) found t
      | false ↦ (t, ends)
    ]
  ]
]

-- The longest first: `*caps = saved` after each that fails.
unfoldable pub retry : Try → List ℕ → Search → Outcome
retry cont [] s = miss s
retry cont (from ∷ ends) s = elim (cont from s) [
  | hit to t ↦ hit to t
  | miss t ↦ elim (t.budget == 0) [
    | true ↦ miss (record t { caps = s.caps })
    | false ↦ retry cont ends (record t { caps = s.caps })
  ]
]

unfoldable pub limit_of : Option ℕ → ℕ
limit_of none = 2 ^ 32 - 1
limit_of (some max) = max

unfoldable pub match_repeat_then : Try → Try → ℕ → Option ℕ → List ℕ → Try
unfolding expand retry limit_of
match_repeat_then try cont min max text pos s =
    let (t, ends) = expand try (suc (length text)) min (limit_of max) 1 (pos ∷ []) pos s in
    if leb (length ends) min then miss t else retry cont (take (length ends - min) ends) t

-- The group's slot is set after its match, and put back after a failure.
unfoldable pub match_group : Try → ℕ → Try
match_group try idx pos s =
    let saved = get_or s.caps idx none in
    elim (try pos s) [
      | hit to t ↦ hit to (record t { caps = set t.caps idx (some (pos, to)) })
      | miss t ↦ miss (record t { caps = set t.caps idx saved })
    ]

-- The outcome, with the captures put back if it is a miss.
unfoldable pub restored : Captures → Outcome → Outcome
restored saved (hit to t) = hit to t
restored saved (miss t) = miss (record t { caps = saved })

unfoldable pub and_then : Outcome → Try → Outcome
and_then (hit mid t) cont = cont mid t
and_then (miss t) cont = miss t

-- `match_seq` on a first node that is no repetition.
unfoldable pub match_then : Try → Try → Try
unfolding restored and_then
match_then try cont pos s = restored s.caps (and_then (try pos s) cont)

unfoldable pub or_else : Try → Try → Try
or_else try others pos s = elim (try pos s) [
  | hit to t ↦ hit to t
  | miss t ↦ others pos (record t { caps = s.caps })
]

abbrev pub stay : Try
stay pos s = hit pos s

abbrev pub fail : Try
fail pos s = miss s

abbrev pub outcome : Search → Option ℕ → Outcome
outcome s none = miss s
outcome s (some to) = hit to s

abbrev pub test_only : (ℕ → Option ℕ) → Try
test_only f pos s = outcome s (f pos)

-- Each call of `match_node` takes one step of the budget.
unfoldable pub with_budget : Try → Try
with_budget try pos s = elim s.budget [
  | zero ↦ miss s
  | suc left ↦ try pos (record s { budget = left })
]

unfoldable mutual
  unfolding in_class match_repeat_then match_group match_then or_else with_budget

  pub match_node : Node → List ℕ → Try
  match_node (literal c) text = with_budget (test_only (one_byte (equals c) text))
  match_node any_byte text = with_budget (test_only (one_byte not_newline text))
  match_node (class negated items) text =
      with_budget (test_only (one_byte (in_class negated items) text))
  match_node start text = with_budget (test_only (λ pos. if pos == 0 then some pos else none))
  match_node end text =
      with_budget (test_only (λ pos. if pos == length text then some pos else none))
  match_node (group idx inner) text = with_budget (match_group (match_node inner text) idx)
  match_node (seq nodes) text = with_budget (match_seq nodes text)
  match_node (alt branches) text = with_budget (match_alt branches text)
  match_node (repeat node min max) text =
      with_budget (match_repeat_then (match_node node text) stay min max text)

  pub match_alt : Nodes → List ℕ → Try
  match_alt done text = fail
  match_alt (next branch branches) text = or_else (match_node branch text) (match_alt branches text)

  pub match_seq : Nodes → List ℕ → Try
  match_seq done text = stay
  match_seq (next (repeat node min max) rest) text =
      match_repeat_then (match_node node text) (match_seq rest text) min max text
  match_seq (next first rest) text = match_then (match_node first text) (match_seq rest text)

unfoldable mutual
  pub starts_with_anchor : Node → Bool
  starts_with_anchor start = true
  starts_with_anchor (seq nodes) = first_anchored nodes
  starts_with_anchor (group idx inner) = starts_with_anchor inner
  starts_with_anchor (alt branches) = all_anchored branches
  starts_with_anchor node = false

  pub first_anchored : Nodes → Bool
  first_anchored done = false
  first_anchored (next node nodes) = starts_with_anchor node

  pub all_anchored : Nodes → Bool
  all_anchored done = true
  all_anchored (next node nodes) = starts_with_anchor node && all_anchored nodes

pub record Regex : Type 0 where
  pub root : Node
  pub ngroups : ℕ

-- The starts from `from` on, `left` of them.
unfoldable pub find_from : Regex → List ℕ → ℕ → ℕ → ℕ → Option Captures
unfolding match_node starts_with_anchor
find_from r text zero from budget = none
find_from r text (suc left) from budget =
    elim (match_node r.root text from
      (record { caps = replicate (r.ngroups + 1) none; budget = budget })) [
        | hit to t ↦ some (set t.caps 0 (some (from, to)))
        | miss t ↦ elim (t.budget == 0 || starts_with_anchor r.root) [
          | true ↦ none
          | false ↦ find_from r text left (suc from) t.budget
        ]
      ]

unfoldable pub find : Regex → List ℕ → Option Captures
unfolding find_from
find r text = find_from r text (length text + 1) 0 step_budget

-- `None` where a slice does not lie in the text, which panics.
unfoldable pub slice : List ℕ → ℕ × ℕ → Option (List ℕ)
slice text (from, to) =
    if leb from to && leb to (length text) then some (take (to - from) (drop from text)) else none
