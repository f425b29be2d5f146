-- ===== src/Regex/Sound.antt =====
-- What a match is, apart from the order in which the matcher tries, and that the matcher finds one.
use sipr.Common.{
  ℕ, zero, suc, ◌+◌, ◌≤◌, Bool, true, List, Option, none, some, ◌≡◌, ◌≢◌, refl, ap, ◌∙◌, inl, inr,
  ◌⊎◌, ◌==◌, if◌then◌else◌, length, get_elem?, arith, Bool-cases, Option-cases,
}
use sipr.Regex.{
  Node, Nodes, literal, any_byte, class, start, end, group, seq, alt, repeat, done, next, ClassItem,
  Search, Outcome, hit, miss, Try, one_byte, equals, not_newline, in_class, match_group, restored,
  and_then, match_then, or_else, test_only, with_budget,
}

-- No more repetitions than the bound allows.
abbrev pub AtMost : ℕ → Option ℕ → Type 0
AtMost k none = Unit
AtMost k (some max) = k ≤ max

-- `Matches text node i j`: the bytes from i to before j are a text of the expression.
mutual
  pub data Matches : List ℕ → Node → ℕ → ℕ → Type 0 where
    m_literal :
        (text : List ℕ) (c i : ℕ) → get_elem? text i ≡ some c → Matches text (literal c) i (i + 1)
    m_any :
        (text : List ℕ) (b i : ℕ)
        → get_elem? text i ≡ some b
        → b ≢ 10
        → Matches text any_byte i (i + 1)
    m_class :
        (text : List ℕ) (negated : Bool) (items : List ClassItem) (b i : ℕ)
        → get_elem? text i ≡ some b
        → in_class negated items b ≡ true
        → Matches text (class negated items) i (i + 1)
    m_start : (text : List ℕ) → Matches text start 0 0
    m_end : (text : List ℕ) → Matches text end (length text) (length text)
    m_group :
        (text : List ℕ) (idx : ℕ) (inner : Node) (i j : ℕ)
        → Matches text inner i j
        → Matches text (group idx inner) i j
    m_seq :
        (text : List ℕ) (nodes : Nodes) (i j : ℕ)
        → MatchesAll text nodes i j
        → Matches text (seq nodes) i j
    m_alt :
        (text : List ℕ) (nodes : Nodes) (i j : ℕ)
        → MatchesOne text nodes i j
        → Matches text (alt nodes) i j
    m_repeat :
        (text : List ℕ) (node : Node) (min : ℕ) (max : Option ℕ) (k i j : ℕ)
        → min ≤ k
        → AtMost k max
        → Times text node k i j
        → Matches text (repeat node min max) i j

  -- One after the other.
  pub data MatchesAll : List ℕ → Nodes → ℕ → ℕ → Type 0 where
    all_done : (text : List ℕ) (i : ℕ) → MatchesAll text done i i
    all_next :
        (text : List ℕ) (node : Node) (nodes : Nodes) (i j k : ℕ)
        → Matches text node i j
        → MatchesAll text nodes j k
        → MatchesAll text (next node nodes) i k

  -- One of them.
  pub data MatchesOne : List ℕ → Nodes → ℕ → ℕ → Type 0 where
    this_one :
        (text : List ℕ) (node : Node) (nodes : Nodes) (i j : ℕ)
        → Matches text node i j
        → MatchesOne text (next node nodes) i j
    other_one :
        (text : List ℕ) (node : Node) (nodes : Nodes) (i j : ℕ)
        → MatchesOne text nodes i j
        → MatchesOne text (next node nodes) i j

  -- So many times.
  pub data Times : List ℕ → Node → ℕ → ℕ → ℕ → Type 0 where
    never : (text : List ℕ) (node : Node) (i : ℕ) → Times text node zero i i
    once_more :
        (text : List ℕ) (node : Node) (k i j l : ℕ)
        → Times text node k i j
        → Matches text node j l
        → Times text node (suc k) i l

-- Where a try ends is related to where it begins.
abbrev pub Sound : (ℕ → ℕ → Type 0) → Try → Type 0
Sound P try = (pos : ℕ) (s : Search) (to : ℕ) (t : Search) → try pos s ≡ hit to t → P pos to

pub Outcome-cases :
    (o : Outcome) → ((t : Search) × (o ≡ miss t)) ⊎ ((to : ℕ) × (t : Search) × (o ≡ hit to t))
Outcome-cases (miss t) = inl (t, refl)
Outcome-cases (hit to t) = inr (to, t, refl)

-- The end that a hit has.
abbrev pub to_of : Outcome → ℕ
to_of (miss t) = 0
to_of (hit to t) = to

pub hit_to : {i j : ℕ} {s t : Search} → hit i s ≡ hit j t → i ≡ j
hit_to e = ap to_of e

module _ (P : ℕ → ℕ → Type 0) where
  pub with_budget-Sound : (try : Try) → Sound P try → Sound P (with_budget try)
  unfolding with_budget
  with_budget-Sound try sound pos s to t e = go s.budget refl
    where
      go : (n : ℕ) → s.budget ≡ n → P pos to
      go zero q = cc (rw q at e)
      go (suc n) q = sound pos (record s { budget = n }) to t (rw q at e)

  pub or_else-Sound :
      (try others : Try) → Sound P try → Sound P others → Sound P (or_else try others)
  unfolding or_else
  or_else-Sound try others first second pos s to t e = elim (Outcome-cases (try pos s)) [
    | inl (u, q) ↦ second pos (record u { caps = s.caps }) to t (rw (or_else, q) at e)
    | inr (i, u, q) ↦ first pos s to t (q ∙ (rw (or_else, q) at e))
  ]

  pub match_group-Sound : (try : Try) (idx : ℕ) → Sound P try → Sound P (match_group try idx)
  unfolding match_group
  match_group-Sound try idx sound pos s to t e = elim (Outcome-cases (try pos s)) [
    | inl (u, q) ↦ cc (rw (match_group, q) at e)
    | inr (i, u, q) ↦ rw (← hit_to (rw (match_group, q) at e)) (sound pos s i u q)
  ]

module _ (P Q R : ℕ → ℕ → Type 0) where
  pub match_then-Sound :
      (try cont : Try)
      → ((i j k : ℕ) → P i j → Q j k → R i k)
      → Sound P try
      → Sound Q cont
      → Sound R (match_then try cont)
  unfolding match_then restored and_then
  match_then-Sound try cont join first second pos s to t e = elim (Outcome-cases (try pos s)) [
    | inl (u, q) ↦ cc (rw (match_then, q) at e)
    | inr (i, u, q) ↦ elim (Outcome-cases (cont i u)) [
      | inl (v, r) ↦ cc (rw (match_then, q, r) at e)
      | inr (j, v, r) ↦
          join pos i to (first pos s i u q)
            (rw (← hit_to (rw (match_then, q, r) at e)) (second i u j v r))
    ]
  ]

test_only-hit :
    (f : ℕ → Option ℕ) (pos : ℕ) (s : Search) (to : ℕ) (t : Search)
    → test_only f pos s ≡ hit to t
    → f pos ≡ some to
test_only-hit f pos s to t e = elim (Option-cases (f pos)) [
  | inl q ↦ cc (rw q at e)
  | inr (i, q) ↦ q ∙ ap some (hit_to (rw q at e))
]

one_byte-some :
    (test : ℕ → Bool) (text : List ℕ) (pos to : ℕ)
    → one_byte test text pos ≡ some to
    → (b : ℕ) × (get_elem? text pos ≡ some b) × (test b ≡ true) × (to ≡ pos + 1)
one_byte-some test text pos to e = elim (Option-cases (get_elem? text pos)) [
  | inl q ↦ cc (rw (one_byte, q) at e)
  | inr (b, q) ↦ elim (Bool-cases (test b)) [
    | inl r ↦ (b, q, r, cc (rw (one_byte, q, r) at e))
    | inr r ↦ cc (rw (one_byte, q, r) at e)
  ]
]

pub literal-Sound :
    (text : List ℕ) (c : ℕ)
    → Sound (Matches text (literal c)) (test_only (one_byte (equals c) text))
literal-Sound text c pos s to t e =
    let (b, at_pos, same, one_on) =
      one_byte-some (equals c) text pos to
        (test_only-hit (one_byte (equals c) text) pos s to t e) in
    let is_c : b ≡ c = ground arith in rw one_on (m_literal text c pos (at_pos ∙ ap some is_c))

pub any-Sound :
    (text : List ℕ) → Sound (Matches text any_byte) (test_only (one_byte not_newline text))
any-Sound text pos s to t e =
    let (b, at_pos, same, one_on) =
      one_byte-some not_newline text pos to
        (test_only-hit (one_byte not_newline text) pos s to t e) in
    rw one_on (m_any text b pos at_pos (λ q. ground arith))

pub class-Sound :
    (text : List ℕ) (negated : Bool) (items : List ClassItem)
    → Sound
        (Matches text (class negated items))
        (test_only (one_byte (in_class negated items) text))
class-Sound text negated items pos s to t e =
    let (b, at_pos, same, one_on) =
      one_byte-some (in_class negated items) text pos to
        (test_only-hit (one_byte (in_class negated items) text) pos s to t e) in
    rw one_on (m_class text negated items b pos at_pos same)

pub start-Sound :
    (text : List ℕ)
    → Sound (Matches text start) (test_only (λ pos. if pos == 0 then some pos else none))
start-Sound text pos s to t e =
    let e' = test_only-hit (λ pos. if pos == 0 then some pos else none) pos s to t e in
    let zero_pos : pos ≡ 0 = ground arith in
    let zero_to : to ≡ 0 = ground arith in rw (zero_pos, zero_to) (m_start text)

pub end-Sound :
    (text : List ℕ)
    → Sound (Matches text end) (test_only (λ pos. if pos == length text then some pos else none))
end-Sound text pos s to t e =
    let e' = test_only-hit (λ pos. if pos == length text then some pos else none) pos s to t e in
    let here : pos ≡ length text = ground arith in
    let there : to ≡ length text = ground arith in rw (here, there) (m_end text)
