-- ===== src/Regex/Repeats.antt =====
-- Soundness of a repetition: the ends that are collected, and those that are tried.
use sipr.Common.{
  ℕ, zero, suc, ◌+◌, ◌≤◌, not, ◌&&◌, ◌||◌, List, [], ◌∷◌, Option, none, some, ◌≡◌, refl, ap, inl,
  inr, ltb, leb, ◌==◌, length, take, arith, Bool-cases,
}
use sipr.Regex.{
  Node, Nodes, literal, any_byte, class, start, end, group, seq, alt, repeat, done, next,
  match_node, match_seq, match_alt, stay, match_then, Search, hit, Try, expand, retry, limit_of,
  match_repeat_then,
}
use sipr.Regex.Sound.{
  AtMost, Sound, Outcome-cases, hit_to, Matches, MatchesAll, MatchesOne, Times, never, once_more,
  m_repeat, m_seq, m_group, m_alt, all_done, all_next, this_one, other_one, with_budget-Sound,
  or_else-Sound, match_group-Sound, match_then-Sound, literal-Sound, any-Sound, class-Sound,
  start-Sound, end-Sound,
}

-- `T k i` says that k repetitions end at i, and `R i j` that what follows them matches.
module _ (T : ℕ → ℕ → Type 0) (P R : ℕ → ℕ → Type 0)
    (more : (k i j : ℕ) → T k i → P i j → T (suc k) j) where
  -- The ends collected, the last first, and their number no more than the limit allows.
  Ends : ℕ → List ℕ → Type 0
  Ends limit [] = Unit
  Ends limit (e ∷ ends) = T (length ends) e × (length ends ≤ limit) × Ends limit ends

  expand-Ends :
      (try : Try) (fuel min limit count cur : ℕ) (ends : List ℕ) (s : Search)
      → Sound P try
      → count ≡ suc (length ends)
      → Ends limit (cur ∷ ends)
      → Ends limit (expand try fuel min limit count (cur ∷ ends) cur s).1
  unfolding expand Ends
  expand-Ends try zero min limit count cur ends s sound counted good = good
  expand-Ends try (suc fuel) min limit count cur ends s sound counted good =
      elim (Bool-cases (leb count limit)) [
        | inr full ↦ rw (expand, full) good
        | inl room ↦ elim (Outcome-cases (try cur s)) [
          | inl (t, e) ↦ rw (expand, room, e) good
          | inr (found, t, e) ↦
              elim (Bool-cases ((ltb cur found || leb count min) && not (found == cur))) [
                | inr stuck ↦ rw (expand, room, e, stuck) good
                | inl on ↦
                    rw (expand, room, e, on)
                      (expand-Ends try fuel min limit (suc count) found (cur ∷ ends) t sound
                        (ap suc counted)
                        (
                          more (length ends) cur found good.0 (sound cur s found t e),
                          ground (arith, counted),
                          good,
                        ))
              ]
        ]
      ]

  -- An end that is tried has a number of repetitions between the bounds.
  retry-Sound :
      (cont : Try) (min limit n : ℕ) (ends : List ℕ) (s : Search) (to : ℕ) (t : Search)
      → Sound R cont
      → n + min ≤ length ends
      → Ends limit ends
      → retry cont (take n ends) s ≡ hit to t
      → (k from : ℕ) × (min ≤ k) × (k ≤ limit) × T k from × R from to
  unfolding retry Ends
  retry-Sound cont min limit zero ends s to t sound fits good e = cc
  retry-Sound cont min limit (suc n) [] s to t sound fits good e = absurd (omega arith)
  retry-Sound cont min limit (suc n) (last ∷ ends) s to t sound fits good e =
      elim (Outcome-cases (cont last s)) [
        | inr (i, u, q) ↦ (
          length ends,
          last,
          omega arith,
          good.1,
          good.0,
          rw (← hit_to (rw (retry, q) at e)) (sound last s i u q),
        )
        | inl (u, q) ↦ elim (Bool-cases (u.budget == 0)) [
          | inl over ↦ cc (rw (retry, q, over) at e)
          | inr left ↦
              retry-Sound cont min limit n ends (record u { caps = s.caps }) to t sound
                (omega arith) good.2 (rw (retry, q, left) at e)
        ]
      ]

  match_repeat_then-Sound :
      (try cont : Try) (min : ℕ) (max : Option ℕ) (text : List ℕ) (pos : ℕ) (s : Search) (to : ℕ)
      (t : Search)
      → Sound P try
      → Sound R cont
      → T zero pos
      → match_repeat_then try cont min max text pos s ≡ hit to t
      → (k from : ℕ) × (min ≤ k) × (k ≤ limit_of max) × T k from × R from to
  unfolding match_repeat_then Ends
  match_repeat_then-Sound try cont min max text pos s to t sound after none_yet e =
      let good =
        expand-Ends try (suc (length text)) min (limit_of max) 1 pos [] s sound refl
          (none_yet, omega arith, tt) in
      elim (Bool-cases (
        leb (length (expand try (suc (length text)) min (limit_of max) 1 (pos ∷ []) pos s).1)
          min)) [
            | inl few ↦ cc (rw (match_repeat_then, few) at e)
            | inr enough ↦
                retry-Sound cont min (limit_of max) _ _ _ to t after (ground arith) good
                  (rw (match_repeat_then, enough) at e)
          ]

limit_of-AtMost : (max : Option ℕ) (k : ℕ) → k ≤ limit_of max → AtMost k max
unfolding limit_of
limit_of-AtMost none k h = tt
limit_of-AtMost (some max) k h = h

-- A repetition and what follows it.
pub repeat_then-Sound :
    (text : List ℕ) (node : Node) (R : ℕ → ℕ → Type 0) (try cont : Try) (min : ℕ) (max : Option ℕ)
    (pos : ℕ) (s : Search) (to : ℕ) (t : Search)
    → Sound (Matches text node) try
    → Sound R cont
    → match_repeat_then try cont min max text pos s ≡ hit to t
    → (mid : ℕ) × Matches text (repeat node min max) pos mid × R mid to
repeat_then-Sound text node R try cont min max pos s to t sound after e =
    let (k, mid, low, high, times, rest) =
      match_repeat_then-Sound (λ k i. Times text node k pos i) (Matches text node) R
        (λ k i j. once_more text node k pos i j) try cont min max text pos s to t sound after
        (never text node pos) e in
    (mid, m_repeat text node min max k pos mid low (limit_of-AtMost max k high) times, rest)

-- The first node and the others, each tried after the other.
then_all :
    (text : List ℕ) (node : Node) (nodes : Nodes) (try cont : Try)
    → Sound (Matches text node) try
    → Sound (MatchesAll text nodes) cont
    → Sound (MatchesAll text (next node nodes)) (match_then try cont)
then_all text node nodes try cont first second =
    match_then-Sound (Matches text node) (MatchesAll text nodes) (MatchesAll text (next node nodes))
      try cont (all_next text node nodes) first second

-- The matcher finds nothing but matches: where it says that a match ends, one ends.
mutual
  unfolding match_node

  pub match_node-Sound :
      (node : Node) (text : List ℕ) → Sound (Matches text node) (match_node node text)
  match_node-Sound (literal c) text =
      with_budget-Sound (Matches text (literal c)) _ (literal-Sound text c)
  match_node-Sound any_byte text = with_budget-Sound (Matches text any_byte) _ (any-Sound text)
  match_node-Sound (class negated items) text =
      with_budget-Sound (Matches text (class negated items)) _ (class-Sound text negated items)
  match_node-Sound start text = with_budget-Sound (Matches text start) _ (start-Sound text)
  match_node-Sound end text = with_budget-Sound (Matches text end) _ (end-Sound text)
  match_node-Sound (group idx inner) text =
      with_budget-Sound (Matches text (group idx inner)) _ (λ pos s to t e.
        m_group text idx inner pos to
          (match_group-Sound (Matches text inner) _ idx (match_node-Sound inner text) pos s to t e))
  match_node-Sound (seq nodes) text =
      with_budget-Sound (Matches text (seq nodes)) _
        (λ pos s to t e. m_seq text nodes pos to (match_seq-Sound nodes text pos s to t e))
  match_node-Sound (alt branches) text =
      with_budget-Sound (Matches text (alt branches)) _
        (λ pos s to t e. m_alt text branches pos to (match_alt-Sound branches text pos s to t e))
  match_node-Sound (repeat node min max) text =
      with_budget-Sound (Matches text (repeat node min max)) _ (λ pos s to t e.
        let (mid, here, same) =
          repeat_then-Sound text node (λ i j. i ≡ j) _ stay min max pos s to t
            (match_node-Sound node text) (λ i u j v q. hit_to q) e in
        rw (← same) here)

  match_alt-Sound :
      (nodes : Nodes) (text : List ℕ) → Sound (MatchesOne text nodes) (match_alt nodes text)
  match_alt-Sound done text = λ pos s to t e. cc
  match_alt-Sound (next branch branches) text =
      or_else-Sound (MatchesOne text (next branch branches)) _ _
        (λ pos s to t e.
          this_one text branch branches pos to (match_node-Sound branch text pos s to t e))
        (λ pos s to t e.
          other_one text branch branches pos to (match_alt-Sound branches text pos s to t e))

  match_seq-Sound :
      (nodes : Nodes) (text : List ℕ) → Sound (MatchesAll text nodes) (match_seq nodes text)
  match_seq-Sound done text = λ pos s to t e. rw (← hit_to e) (all_done text pos)
  match_seq-Sound (next (repeat node min max) rest) text = λ pos s to t e.
      let (mid, here, after) =
        repeat_then-Sound text node (MatchesAll text rest) _ _ min max pos s to t
          (match_node-Sound node text) (match_seq-Sound rest text) e in
      all_next text (repeat node min max) rest pos mid to here after
  match_seq-Sound (next (literal c) rest) text =
      then_all text (literal c) rest _ _ (match_node-Sound (literal c) text)
        (match_seq-Sound rest text)
  match_seq-Sound (next any_byte rest) text =
      then_all text any_byte rest _ _ (match_node-Sound any_byte text) (match_seq-Sound rest text)
  match_seq-Sound (next (class negated items) rest) text =
      then_all text (class negated items) rest _ _ (match_node-Sound (class negated items) text)
        (match_seq-Sound rest text)
  match_seq-Sound (next start rest) text =
      then_all text start rest _ _ (match_node-Sound start text) (match_seq-Sound rest text)
  match_seq-Sound (next end rest) text =
      then_all text end rest _ _ (match_node-Sound end text) (match_seq-Sound rest text)
  match_seq-Sound (next (group idx inner) rest) text =
      then_all text (group idx inner) rest _ _ (match_node-Sound (group idx inner) text)
        (match_seq-Sound rest text)
  match_seq-Sound (next (seq nodes) rest) text =
      then_all text (seq nodes) rest _ _ (match_node-Sound (seq nodes) text)
        (match_seq-Sound rest text)
  match_seq-Sound (next (alt branches) rest) text =
      then_all text (alt branches) rest _ _ (match_node-Sound (alt branches) text)
        (match_seq-Sound rest text)
