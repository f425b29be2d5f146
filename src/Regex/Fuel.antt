-- ===== src/Regex/Fuel.antt =====
-- The loop that collects the ends of a repetition has fuel enough.
use sipr.Common.{
  ℕ, zero, suc, ◌+◌, ◌≤◌, ◌<◌, not, ◌&&◌, ◌||◌, List, ◌∷◌, ◌≡◌, refl, inl, inr, ltb, leb, ◌==◌,
  length, arith, Bool-cases,
}
use sipr.Regex.{Node, Search, Try, expand, match_node}
use sipr.Regex.Sound.{Outcome-cases}
use sipr.Regex.Slots.{Stays}
use sipr.Regex.Found.{match_node-Stays}

expand_enough :
    (text : List ℕ) (try : Try) (fuel fuel' min limit count cur : ℕ) (ends : List ℕ) (s : Search)
    → Stays text 0 try
    → cur ≤ length text
    → length text < fuel + cur
    → length text < fuel' + cur
    → expand try fuel min limit count ends cur s ≡ expand try fuel' min limit count ends cur s
unfolding expand Stays
expand_enough text try zero fuel' min limit count cur ends s stays inside h k = absurd (omega arith)
expand_enough text try (suc n) zero min limit count cur ends s stays inside h k =
    absurd (omega arith)
expand_enough text try (suc n) (suc m) min limit count cur ends s stays inside h k =
    elim (Bool-cases (leb count limit)) [
      | inr full ↦ rw (expand, full) refl
      | inl room ↦ elim (Outcome-cases (try cur s)) [
        | inl (t, e) ↦ rw (expand, room, e) refl
        | inr (found, t, e) ↦
            let (up, low) = stays cur s found t inside e in
            elim (Bool-cases ((ltb cur found || leb count min) && not (found == cur))) [
              | inr stuck ↦ rw (expand, room, e, stuck) refl
              | inl on ↦
                  let further : cur < found = ground arith in
                  rw (expand, room, e, on)
                    (expand_enough text try n m min limit (suc count) found (found ∷ ends) t stays
                      low (omega arith) (omega arith))
            ]
      ]
    ]

-- A repetition of any node from a place in the text: every fuel greater than the number of the bytes
-- behind that place collects the same ends, so the loop ends by itself.
pub expand-match_node :
    (node : Node) (text : List ℕ) (fuel fuel' min limit count cur : ℕ) (ends : List ℕ) (s : Search)
    → cur ≤ length text
    → length text < fuel + cur
    → length text < fuel' + cur
    → expand (match_node node text) fuel min limit count ends cur s
      ≡ expand (match_node node text) fuel' min limit count ends cur s
expand-match_node node text fuel fuel' min limit count cur ends s inside h k =
    expand_enough text (match_node node text) fuel fuel' min limit count cur ends s
      (match_node-Stays node text 0) inside h k
