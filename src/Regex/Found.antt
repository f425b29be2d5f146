-- ===== src/Regex/Found.antt =====
-- What `find` gives: a match of the expression, and captures that can be cut out of the text.
use sipr.Common.{
  ℕ, zero, suc, ◌+◌, ◌-◌, ◌≤◌, true, ◌&&◌, ◌||◌, List, [], ◌∷◌, none, some, ◌≡◌, refl, ◌∙◌, inl,
  inr, leb, ◌==◌, if◌then◌else◌, length, take, drop, set, get_or, get_elem?, replicate, All, arith,
  subst, Bool-cases, get_or-set_self, length-take, length-drop, All-set, All-replicate, length-set,
  length-replicate,
}
use sipr.Regex.{
  Node, Nodes, literal, any_byte, class, start, end, group, seq, alt, repeat, done, next,
  match_node, match_seq, match_alt, stay, one_byte, equals, not_newline, in_class, Search, hit,
  Captures, Regex, find, find_from, slice, starts_with_anchor,
}
use sipr.Regex.Sound.{Outcome-cases, Matches}
use sipr.Regex.Repeats.{match_node-Sound}
use sipr.Regex.Bounds.{Matches-le}
use sipr.Regex.Slots.{
  Slot, Fits, state, Keeps, Stays, with_budget-Keeps, test_only-Keeps, or_else-Keeps,
  match_group-Keeps, match_then-Keeps, match_repeat_then-Keeps, stay-Keeps, fail-Keeps,
}

pub match_node-Stays : (node : Node) (text : List ℕ) (n : ℕ) → Stays text n (match_node node text)
unfolding Stays
match_node-Stays node text n pos s to t h e =
    Matches-le text node pos to (match_node-Sound node text pos s to t e) h

mutual
  unfolding match_node

  match_node-Keeps : (node : Node) (text : List ℕ) (n : ℕ) → Keeps text n (match_node node text)
  match_node-Keeps (literal c) text n =
      with_budget-Keeps text n _ (test_only-Keeps text n (one_byte (equals c) text))
  match_node-Keeps any_byte text n =
      with_budget-Keeps text n _ (test_only-Keeps text n (one_byte not_newline text))
  match_node-Keeps (class negated items) text n =
      with_budget-Keeps text n _ (test_only-Keeps text n (one_byte (in_class negated items) text))
  match_node-Keeps start text n =
      with_budget-Keeps text n _
        (test_only-Keeps text n (λ pos. if pos == 0 then some pos else none))
  match_node-Keeps end text n =
      with_budget-Keeps text n _
        (test_only-Keeps text n (λ pos. if pos == length text then some pos else none))
  match_node-Keeps (group idx inner) text n = with_budget-Keeps text n _ (
      match_group-Keeps text n _ idx (match_node-Stays inner text n)
        (match_node-Keeps inner text n))
  match_node-Keeps (seq nodes) text n = with_budget-Keeps text n _ (match_seq-Keeps nodes text n)
  match_node-Keeps (alt branches) text n =
      with_budget-Keeps text n _ (match_alt-Keeps branches text n)
  match_node-Keeps (repeat node min max) text n = with_budget-Keeps text n _ (
      match_repeat_then-Keeps text n _ stay min max (match_node-Stays node text n)
        (match_node-Keeps node text n) (stay-Keeps text n))

  match_alt-Keeps : (nodes : Nodes) (text : List ℕ) (n : ℕ) → Keeps text n (match_alt nodes text)
  match_alt-Keeps done text n = fail-Keeps text n
  match_alt-Keeps (next branch branches) text n =
      or_else-Keeps text n _ _ (match_node-Keeps branch text n) (match_alt-Keeps branches text n)

  match_seq-Keeps : (nodes : Nodes) (text : List ℕ) (n : ℕ) → Keeps text n (match_seq nodes text)
  match_seq-Keeps done text n = stay-Keeps text n
  match_seq-Keeps (next (repeat node min max) rest) text n =
      match_repeat_then-Keeps text n _ _ min max (match_node-Stays node text n)
        (match_node-Keeps node text n) (match_seq-Keeps rest text n)
  match_seq-Keeps (next (literal c) rest) text n =
      match_then-Keeps text n _ _ (match_node-Stays (literal c) text n)
        (match_node-Keeps (literal c) text n) (match_seq-Keeps rest text n)
  match_seq-Keeps (next any_byte rest) text n =
      match_then-Keeps text n _ _ (match_node-Stays any_byte text n)
        (match_node-Keeps any_byte text n) (match_seq-Keeps rest text n)
  match_seq-Keeps (next (class negated items) rest) text n =
      match_then-Keeps text n _ _ (match_node-Stays (class negated items) text n)
        (match_node-Keeps (class negated items) text n) (match_seq-Keeps rest text n)
  match_seq-Keeps (next start rest) text n =
      match_then-Keeps text n _ _ (match_node-Stays start text n) (match_node-Keeps start text n)
        (match_seq-Keeps rest text n)
  match_seq-Keeps (next end rest) text n =
      match_then-Keeps text n _ _ (match_node-Stays end text n) (match_node-Keeps end text n)
        (match_seq-Keeps rest text n)
  match_seq-Keeps (next (group idx inner) rest) text n =
      match_then-Keeps text n _ _ (match_node-Stays (group idx inner) text n)
        (match_node-Keeps (group idx inner) text n) (match_seq-Keeps rest text n)
  match_seq-Keeps (next (seq nodes) rest) text n =
      match_then-Keeps text n _ _ (match_node-Stays (seq nodes) text n)
        (match_node-Keeps (seq nodes) text n) (match_seq-Keeps rest text n)
  match_seq-Keeps (next (alt branches) rest) text n =
      match_then-Keeps text n _ _ (match_node-Stays (alt branches) text n)
        (match_node-Keeps (alt branches) text n) (match_seq-Keeps rest text n)

-- What a result of `find` says: the first capture is where the expression matches, and all lie in the
-- text.
pub Found : Regex → List ℕ → Captures → Type 0
Found r text caps =
    (from to : ℕ) × (get_or caps 0 none ≡ some (from, to))
    × Matches text r.root from to
    × Fits text (r.ngroups + 1) caps

abbrev fresh : Regex → ℕ → Search
fresh r budget = record { caps = replicate (r.ngroups + 1) none; budget = budget }

fresh-Fits :
    (r : Regex) (text : List ℕ) (budget : ℕ) → Fits text (r.ngroups + 1) (fresh r budget).caps
fresh-Fits r text budget =
    (length-replicate (r.ngroups + 1) none, All-replicate (Slot text) (r.ngroups + 1) none tt)

-- A hit at `from`, with the whole match in its place.
hit-Found :
    (r : Regex) (text : List ℕ) (from budget to : ℕ) (t : Search)
    → from ≤ length text
    → match_node r.root text from (fresh r budget) ≡ hit to t
    → Found r text (set t.caps 0 (some (from, to)))
unfolding Found Keeps
hit-Found r text from budget to t h e =
    let (same, inside) =
      subst (λ o. Fits text (r.ngroups + 1) (state o).caps) e
        (match_node-Keeps r.root text (r.ngroups + 1) from (fresh r budget) h
          (fresh-Fits r text budget)) in
    let m = match_node-Sound r.root text from (fresh r budget) to t e in
    (
      from,
      to,
      get_or-set_self t.caps 0 (some (from, to)) none (omega (arith, same)),
      m,
      (
        length-set t.caps 0 (some (from, to)) ∙ same,
        All-set (Slot text) t.caps 0 (some (from, to)) (Matches-le text r.root from to m h) inside,
      ),
    )

find_from-Found :
    (r : Regex) (text : List ℕ) (left from budget : ℕ) (caps : Captures)
    → left + from ≤ length text + 1
    → find_from r text left from budget ≡ some caps
    → Found r text caps
unfolding find_from
find_from-Found r text zero from budget caps h e = cc
find_from-Found r text (suc left) from budget caps h e =
    elim (Outcome-cases (match_node r.root text from (fresh r budget))) [
      | inr (to, t, q) ↦
          subst (Found r text) (cc (rw (find_from, q) at e))
            (hit-Found r text from budget to t (omega arith) q)
      | inl (t, q) ↦ elim (Bool-cases (t.budget == 0 || starts_with_anchor r.root)) [
        | inl over ↦ cc (rw (find_from, q, over) at e)
        | inr on ↦
            find_from-Found r text left (suc from) t.budget caps (omega arith)
              (rw (find_from, q, on) at e)
      ]
    ]

-- What `find` gives is a match of the expression at the place of the first capture, and every capture
-- lies in the text.
pub find-Found :
    (r : Regex) (text : List ℕ) (caps : Captures) → find r text ≡ some caps → Found r text caps
unfolding find
find-Found r text caps e = find_from-Found r text (length text + 1) 0 1000000 caps (omega arith) e

-- Every capture of a match can be cut out of the text: no slice that `find_strings` takes panics.
pub find_slices :
    (r : Regex) (text : List ℕ) (caps : Captures) (i : ℕ) (p : ℕ × ℕ)
    → find r text ≡ some caps
    → get_elem? caps i ≡ some (some p)
    → (bytes : List ℕ) × (slice text p ≡ some bytes) × (length bytes + p.0 ≡ p.1)
unfolding slice Found
find_slices r text caps i p e at_i =
    let (from, to, whole, m, (same, inside)) = find-Found r text caps e in
    let (up, low) = slot_at caps i p inside at_i in
    let cut : leb p.0 p.1 && leb p.1 (length text) ≡ true = ground arith in
    (
      take (p.1 - p.0) (drop p.0 text),
      rw cut refl,
      omega (arith, length-take (p.1 - p.0) (drop p.0 text), length-drop p.0 text),
    )
  where
    slot_at :
        (caps : Captures) (i : ℕ) (p : ℕ × ℕ)
        → All (Slot text) caps
        → get_elem? caps i ≡ some (some p)
        → (p.0 ≤ p.1) × (p.1 ≤ length text)
    slot_at [] i p h q = cc
    slot_at (c ∷ caps) zero p h q = let same : c ≡ some p = cc q in subst (Slot text) same h.0
    slot_at (c ∷ caps) (suc i) p h q = slot_at caps i p h.1 q
