-- ===== src/Regex/Atomic.antt =====
-- A group gives no character back: `(.*)c` matches nothing.
use sipr.Common.{
  ℕ, zero, suc, ◌+◌, ◌-◌, ◌≤◌, ◌<◌, ◌^◌, Bool, true, false, not, ◌&&◌, ◌||◌, List, [], ◌∷◌, none,
  some, ◌≡◌, ◌≢◌, refl, ap, inl, inr, ◌⊎◌, ltb, leb, ◌==◌, length, get_elem?, arith, Bool-cases,
  Option-cases, set, get_or,
}
use sipr.Regex.{
  Node, literal, any_byte, group, seq, repeat, done, next, Search, Outcome, hit, miss, Try,
  one_byte, not_newline, expand, retry, limit_of, match_repeat_then, match_group, restored,
  and_then, match_then, stay, with_budget, test_only, match_node, match_seq, find, find_from,
}
use sipr.Regex.Sound.{Matches, m_seq, m_group, m_repeat, m_literal, all_next, all_done, never}
use sipr.Regex.Bounds.{get_elem?-lt}

-- Nothing more can be matched here by `.`: no budget, no byte, or a new line.
Stuck : List ℕ → ℕ → Search → Type 0
Stuck text e s = (s.budget ≡ 0) ⊎ (one_byte not_newline text e ≡ none)

num-cases : (n : ℕ) → (n ≡ 0) ⊎ ((k : ℕ) × (n ≡ suc k))
num-cases zero = inl refl
num-cases (suc k) = inr (k, refl)

one_byte-lt :
    (test : ℕ → Bool) (text : List ℕ) (pos to : ℕ)
    → one_byte test text pos ≡ some to
    → (to ≡ pos + 1) × (pos < length text)
one_byte-lt test text pos to e = elim (Option-cases (get_elem? text pos)) [
  | inl q ↦ cc (rw (one_byte, q) at e)
  | inr (b, q) ↦
      let inside = get_elem?-lt text pos b q in
      elim (Bool-cases (test b)) [
        | inl r ↦ (cc (rw (one_byte, q, r) at e), inside)
        | inr r ↦ cc (rw (one_byte, q, r) at e)
      ]
]

any-expand :
    (text : List ℕ) (fuel count cur : ℕ) (ends : List ℕ) (s : Search)
    → length text < 2 ^ 32 - 1
    → count ≤ cur + 1
    → cur ≤ length text
    → length text < fuel + cur
    → (t : Search) × (e : ℕ) × (more : List ℕ) × (expand
          (match_node any_byte text)
          fuel
          0
          (2 ^ 32 - 1)
          count
          (cur ∷ ends)
          cur
          s
        ≡ (t, e ∷ more))
      × Stuck text e t
unfolding expand match_node with_budget Stuck
any-expand text zero count cur ends s short few inside enough = absurd (omega arith)
any-expand text (suc fuel) count cur ends s short few inside enough =
    let room : leb count (2 ^ 32 - 1) ≡ true = ground arith in
    elim (num-cases s.budget) [
      | inl q ↦ (
        record s { budget = 0 },
        cur,
        ends,
        rw (expand, room, q) (ap (λ b. (record s { budget = b }, cur ∷ ends)) q),
        inl refl,
      )
      | inr (left, q) ↦ elim (Option-cases (one_byte not_newline text cur)) [
        | inl r ↦ (record s { budget = left }, cur, ends, rw (expand, room, q, r) refl, inr r)
        | inr (found, r) ↦
            let (step, below) = one_byte-lt not_newline text cur found r in
            let on : (ltb cur found || leb count 0) && not (found == cur) ≡ true = ground arith in
            let (t, e, more, run, stuck) =
              any-expand text fuel (suc count) found (cur ∷ ends) (record s { budget = left }) short
                (omega arith) (omega arith) (omega arith) in
            (t, e, more, rw (expand, room, q, r, on) run, stuck)
      ]
    ]

-- With nothing to follow, the last end is taken.
repeat_all :
    (text : List ℕ) (pos e : ℕ) (more : List ℕ) (s t : Search)
    → expand (match_node any_byte text) (suc (length text)) 0 (2 ^ 32 - 1) 1 (pos ∷ []) pos s
      ≡ (t, e ∷ more)
    → match_repeat_then (match_node any_byte text) stay 0 none text pos s ≡ hit e t
unfolding match_repeat_then limit_of retry
repeat_all text pos e more s t run =
    let kept : suc (length more) - 0 ≡ suc (length more) = omega arith in
    let some_end : leb (suc (length more)) 0 ≡ false = ground arith in
    rw (match_repeat_then, run, kept, some_end) refl

-- `.*` goes as far as it can, and nothing after it makes it go back.
any_star-hit :
    (text : List ℕ) (pos : ℕ) (s : Search)
    → length text < 2 ^ 32 - 1
    → pos ≤ length text
    → ((t : Search) × (match_node (repeat any_byte 0 none) text pos s ≡ miss t))
      ⊎ ((e : ℕ) × (t : Search) × (match_node (repeat any_byte 0 none) text pos s ≡ hit e t)
          × Stuck text e t)
unfolding match_node with_budget match_repeat_then limit_of retry
any_star-hit text pos s short inside = elim (num-cases s.budget) [
  | inl q ↦ inl (s, rw q refl)
  | inr (left, q) ↦
      let (t, e, more, run, stuck) =
        any-expand text (suc (length text)) 1 pos [] (record s { budget = left }) short
          (omega arith) inside (omega arith) in
      inr (
        e,
        t,
        rw (with_budget, q) (repeat_all text pos e more (record s { budget = left }) t run),
        stuck,
      )
]

-- A literal other than a new line does not match where `.` is stuck.
literal-miss :
    (text : List ℕ) (c e : ℕ) (s : Search)
    → c ≢ 10
    → Stuck text e s
    → (t : Search) × (match_node (literal c) text e s ≡ miss t)
unfolding match_node with_budget Stuck
literal-miss text c e s other (inl q) = (s, rw q refl)
literal-miss text c e s other (inr q) = elim (num-cases s.budget) [
  | inl z ↦ (s, rw z refl)
  | inr (left, z) ↦ elim (Option-cases (get_elem? text e)) [
    | inl g ↦ (record s { budget = left }, rw (with_budget, z, test_only, one_byte, g) refl)
    | inr (b, g) ↦ elim (Bool-cases (b == 10)) [
      | inl line ↦
          let differs : (b == c) ≡ false = ground arith in
          (record s { budget = left }, rw (with_budget, z, test_only, one_byte, g, differs) refl)
      | inr other_byte ↦ cc (rw (one_byte, g, other_byte) at q)
    ]
  ]
]

-- A miss, or a hit where `.` is stuck.
Ended : List ℕ → Outcome → Type 0
Ended text o =
    ((t : Search) × (o ≡ miss t)) ⊎ ((e : ℕ) × (t : Search) × (o ≡ hit e t) × Stuck text e t)

with_budget-Ended :
    (text : List ℕ) (try : Try) (pos : ℕ) (s : Search)
    → ((u : Search) → Ended text (try pos u))
    → Ended text (with_budget try pos s)
unfolding with_budget Ended
with_budget-Ended text try pos s ends = elim (num-cases s.budget) [
  | inl q ↦
      inl
        (record s { budget = 0 }, rw (with_budget, q) (ap (λ b. miss (record s { budget = b })) q))
  | inr (left, q) ↦ rw (with_budget, q) (ends (record s { budget = left }))
]

match_group-Ended :
    (text : List ℕ) (try : Try) (idx pos : ℕ) (s : Search)
    → Ended text (try pos s)
    → Ended text (match_group try idx pos s)
unfolding match_group Ended Stuck
match_group-Ended text try idx pos s (inl (t, q)) =
    inl (record t { caps = set t.caps idx (get_or s.caps idx none) }, rw (match_group, q) refl)
match_group-Ended text try idx pos s (inr (e, t, q, stuck)) =
    inr (e, record t { caps = set t.caps idx (some (pos, e)) }, rw (match_group, q) refl, stuck)

first_misses :
    (try cont : Try) (pos : ℕ) (s t : Search)
    → try pos s ≡ miss t
    → match_then try cont pos s ≡ miss (record t { caps = s.caps })
unfolding match_then restored and_then
first_misses try cont pos s t q = rw (match_then, q) refl

-- What follows a group that is stuck misses, and so do both.
match_then-miss :
    (text : List ℕ) (try cont : Try) (pos : ℕ) (s : Search)
    → Ended text (try pos s)
    → ((e : ℕ) (u : Search) → Stuck text e u → (t : Search) × (cont e u ≡ miss t))
    → (t : Search) × (match_then try cont pos s ≡ miss t)
unfolding match_then restored and_then Ended
match_then-miss text try cont pos s (inl (t, q)) after =
    (record t { caps = s.caps }, first_misses try cont pos s t q)
match_then-miss text try cont pos s (inr (e, u, q, stuck)) after =
    let (t, r) = after e u stuck in (record t { caps = s.caps }, rw (match_then, q, r) refl)

abbrev pub then_literal : ℕ → Node
then_literal c = seq (next (group 1 (repeat any_byte 0 none)) (next (literal c) done))

-- Whatever the group takes, the literal behind it misses.
then_literal-miss :
    (text : List ℕ) (c pos : ℕ) (s : Search)
    → c ≢ 10
    → length text < 2 ^ 32 - 1
    → pos ≤ length text
    → (t : Search) × (match_node (then_literal c) text pos s ≡ miss t)
unfolding match_node with_budget Ended
then_literal-miss text c pos s other short inside =
    let both : (u : Search)
        → (t : Search) × (match_seq
              (next (group 1 (repeat any_byte 0 none)) (next (literal c) done)) text pos u
            ≡ miss t) =
      λ u.
        match_then-miss text (match_node (group 1 (repeat any_byte 0 none)) text)
          (match_seq (next (literal c) done) text) pos u
          (with_budget-Ended text (match_group (match_node (repeat any_byte 0 none) text) 1) pos u
            (λ v.
              match_group-Ended text (match_node (repeat any_byte 0 none) text) 1 pos v
                (any_star-hit text pos v short inside)))
          (λ e v stuck.
            let (t, q) = literal-miss text c e v other stuck in
            (
              record t { caps = v.caps },
              first_misses (match_node (literal c) text) stay e v t q,
            )) in
    elim (num-cases s.budget) [
      | inl q ↦ (
        record s { budget = 0 },
        rw (with_budget, q) (ap (λ b. miss (record s { budget = b })) q),
      )
      | inr (left, q) ↦ rw (with_budget, q) (both (record s { budget = left }))
    ]

find_from-none :
    (text : List ℕ) (c left from budget : ℕ)
    → c ≢ 10
    → length text < 2 ^ 32 - 1
    → left + from ≤ length text + 1
    → find_from (record { root = then_literal c; ngroups = 1 }) text left from budget ≡ none
unfolding find_from
find_from-none text c zero from budget other short inside = refl
find_from-none text c (suc left) from budget other short inside =
    let (t, q) =
      then_literal-miss text c from (record { caps = none ∷ none ∷ []; budget = budget }) other
        short (omega arith) in
    elim (Bool-cases (t.budget == 0 || false)) [
      | inl over ↦ rw (find_from, q, over) refl
      | inr on ↦
          rw (find_from, q, on)
            (find_from-none text c left (suc from) t.budget other short (omega arith))
    ]

-- The expression `(.*)c` is found in no text of fewer than 2 ^ 32 - 2 bytes, nor in one with c put before
-- it, for every character c other than a new line, though it matches at 0 in every text that starts with c.
pub find-then_literal :
    (text : List ℕ) (c : ℕ)
    → c ≢ 10
    → length text + 1 < 2 ^ 32 - 1
    → (find (record { root = then_literal c; ngroups = 1 }) text ≡ none)
      × (find (record { root = then_literal c; ngroups = 1 }) (c ∷ text) ≡ none)
      × Matches (c ∷ text) (then_literal c) 0 1
unfolding find
find-then_literal text c other short = (
  find_from-none text c (length text + 1) 0 1000000 other (omega arith) (omega arith),
  find_from-none (c ∷ text) c (length (c ∷ text) + 1) 0 1000000 other (omega arith) (omega arith),
  m_seq (c ∷ text) (next (group 1 (repeat any_byte 0 none)) (next (literal c) done)) 0 1 (
      all_next (c ∷ text) (group 1 (repeat any_byte 0 none)) (next (literal c) done) 0 0 1
        (m_group (c ∷ text) 1 (repeat any_byte 0 none) 0 0 (
          m_repeat (c ∷ text) any_byte 0 none 0 0 0 (omega arith) tt (never (c ∷ text) any_byte 0)))
        (all_next (c ∷ text) (literal c) done 0 1 1 (m_literal (c ∷ text) c 0 refl)
          (all_done (c ∷ text) 1))),
)
