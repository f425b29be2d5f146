-- ===== src/Regex/Slots.antt =====
-- The captures of a match are texts of the input.
use sipr.Common.{
  ℕ, zero, suc, ◌≤◌, not, ◌&&◌, ◌||◌, List, [], ◌∷◌, Option, none, some, ◌≡◌, refl, ◌∙◌, inl, inr,
  ltb, leb, ◌==◌, length, take, get_or, All, subst, Bool-cases, Option-cases, All-set, All-get_or,
  length-set,
}
use sipr.Regex.{
  stay, fail, match_then, or_else, match_group, with_budget, restored, and_then, Search, Outcome,
  hit, miss, Try, expand, retry, limit_of, match_repeat_then, Captures, test_only,
}
use sipr.Regex.Sound.{Outcome-cases}

-- Where a capture may lie.
abbrev pub Slot : List ℕ → Option (ℕ × ℕ) → Type 0
Slot text none = Unit
Slot text (some (from, to)) = (from ≤ to) × (to ≤ length text)

-- So many captures, all in the text.
abbrev pub Fits : List ℕ → ℕ → Captures → Type 0
Fits text n caps = (length caps ≡ n) × All (Slot text) caps

abbrev pub state : Outcome → Search
state (miss t) = t
state (hit to t) = t

take-All : {A : Type 0} (P : A → Type 0) (n : ℕ) (xs : List A) → All P xs → All P (take n xs)
take-All P zero xs h = tt
take-All P (suc n) [] h = tt
take-All P (suc n) (x ∷ xs) (p, h) = (p, take-All P n xs h)

module _ (text : List ℕ) (n : ℕ) where
  -- A try from inside the text keeps the captures good.
  unfoldable pub Keeps : Try → Type 0
  Keeps try =
      (pos : ℕ) (s : Search)
      → pos ≤ length text
      → Fits text n s.caps
      → Fits text n (state (try pos s)).caps

  -- A try ends inside the text, and no sooner than it begins.
  unfoldable pub Stays : Try → Type 0
  Stays try =
      (pos : ℕ) (s : Search) (to : ℕ) (t : Search)
      → pos ≤ length text
      → try pos s ≡ hit to t
      → (pos ≤ to) × (to ≤ length text)

  pub with_budget-Keeps : (try : Try) → Keeps try → Keeps (with_budget try)
  unfolding Keeps with_budget
  with_budget-Keeps try keeps pos s h good = go s.budget refl
    where
      go : (left : ℕ) → s.budget ≡ left → Fits text n (state (with_budget try pos s)).caps
      go zero q = rw (with_budget, q) good
      go (suc left) q = rw (with_budget, q) (keeps pos (record s { budget = left }) h good)

  pub test_only-Keeps : (f : ℕ → Option ℕ) → Keeps (test_only f)
  unfolding Keeps
  test_only-Keeps f pos s h good = elim (Option-cases (f pos)) [
    | inl q ↦ rw q good
    | inr (to, q) ↦ rw q good
  ]

  pub or_else-Keeps : (try others : Try) → Keeps try → Keeps others → Keeps (or_else try others)
  unfolding Keeps or_else
  or_else-Keeps try others first second pos s h good = elim (Outcome-cases (try pos s)) [
    | inl (u, q) ↦ rw (or_else, q) (second pos (record u { caps = s.caps }) h good)
    | inr (i, u, q) ↦
        rw (or_else, q) (subst (λ o. Fits text n (state o).caps) q (first pos s h good))
  ]

  pub match_group-Keeps :
      (try : Try) (idx : ℕ) → Stays try → Keeps try → Keeps (match_group try idx)
  unfolding Keeps Stays match_group
  match_group-Keeps try idx stays keeps pos s h good = elim (Outcome-cases (try pos s)) [
    | inl (u, q) ↦
        let (same, all) = subst (λ o. Fits text n (state o).caps) q (keeps pos s h good) in
        rw (match_group, q)
          (
            length-set u.caps idx (get_or s.caps idx none) ∙ same,
            All-set (Slot text) u.caps idx (get_or s.caps idx none)
                (All-get_or (Slot text) s.caps idx none tt good.1) all,
          )
    | inr (i, u, q) ↦
        let (same, all) = subst (λ o. Fits text n (state o).caps) q (keeps pos s h good) in
        rw (match_group, q)
          (
            length-set u.caps idx (some (pos, i)) ∙ same,
            All-set (Slot text) u.caps idx (some (pos, i)) (stays pos s i u h q) all,
          )
  ]

  pub match_then-Keeps :
      (try cont : Try) → Stays try → Keeps try → Keeps cont → Keeps (match_then try cont)
  unfolding Keeps Stays match_then restored and_then
  match_then-Keeps try cont stays first second pos s h good = elim (Outcome-cases (try pos s)) [
    | inl (u, q) ↦ rw (match_then, q) good
    | inr (i, u, q) ↦
        let mid = subst (λ o. Fits text n (state o).caps) q (first pos s h good) in
        let last = second i u (stays pos s i u h q).1 mid in
        elim (Outcome-cases (cont i u)) [
          | inl (v, r) ↦ rw (match_then, q, r) good
          | inr (j, v, r) ↦ rw (match_then, q, r) (subst (λ o. Fits text n (state o).caps) r last)
        ]
  ]

  pub stay-Keeps : Keeps stay
  unfolding Keeps
  stay-Keeps pos s h good = good

  pub fail-Keeps : Keeps fail
  unfolding Keeps
  fail-Keeps pos s h good = good

  -- The ends that a repetition collects lie in the text.
  Collected : Search × List ℕ → Type 0
  Collected (t, ends) = Fits text n t.caps × All (λ e. e ≤ length text) ends

  expand-Keeps :
      (try : Try) (fuel min limit count cur : ℕ) (ends : List ℕ) (s : Search)
      → Stays try
      → Keeps try
      → Fits text n s.caps
      → All (λ e. e ≤ length text) (cur ∷ ends)
      → Collected (expand try fuel min limit count (cur ∷ ends) cur s)
  unfolding expand Keeps Stays Collected
  expand-Keeps try zero min limit count cur ends s stays keeps good inside = (good, inside)
  expand-Keeps try (suc fuel) min limit count cur ends s stays keeps good inside =
      elim (Bool-cases (leb count limit)) [
        | inr full ↦ rw (expand, full) (good, inside)
        | inl room ↦
            let after = keeps cur s inside.0 good in
            elim (Outcome-cases (try cur s)) [
              | inl (t, e) ↦
                  rw (expand, room, e) (subst (λ o. Fits text n (state o).caps) e after, inside)
              | inr (found, t, e) ↦
                  let still = subst (λ o. Fits text n (state o).caps) e after in
                  elim (Bool-cases ((ltb cur found || leb count min) && not (found == cur))) [
                    | inr stuck ↦ rw (expand, room, e, stuck) (still, inside)
                    | inl on ↦
                        rw (expand, room, e, on)
                          (expand-Keeps try fuel min limit (suc count) found (cur ∷ ends) t stays
                            keeps still ((stays cur s found t inside.0 e).1, inside))
                  ]
            ]
      ]

  retry-Keeps :
      (cont : Try) (ends : List ℕ) (s : Search)
      → Keeps cont
      → Fits text n s.caps
      → All (λ e. e ≤ length text) ends
      → Fits text n (state (retry cont ends s)).caps
  unfolding retry Keeps
  retry-Keeps cont [] s keeps good inside = good
  retry-Keeps cont (last ∷ ends) s keeps good (h, inside) = elim (Outcome-cases (cont last s)) [
    | inr (i, u, q) ↦
        rw (retry, q) (subst (λ o. Fits text n (state o).caps) q (keeps last s h good))
    | inl (u, q) ↦ elim (Bool-cases (u.budget == 0)) [
      | inl over ↦ rw (retry, q, over) good
      | inr left ↦
          rw (retry, q, left) (retry-Keeps cont ends (record u { caps = s.caps }) keeps good inside)
    ]
  ]

  pub match_repeat_then-Keeps :
      (try cont : Try) (min : ℕ) (max : Option ℕ)
      → Stays try
      → Keeps try
      → Keeps cont
      → Keeps (match_repeat_then try cont min max text)
  unfolding match_repeat_then Keeps Collected
  match_repeat_then-Keeps try cont min max stays keeps after pos s h good =
      let r = expand try (suc (length text)) min (limit_of max) 1 (pos ∷ []) pos s in
      let (still, inside) =
        expand-Keeps try (suc (length text)) min (limit_of max) 1 pos [] s stays keeps good
          (h, tt) in
      elim (Bool-cases (
        leb (length (expand try (suc (length text)) min (limit_of max) 1 (pos ∷ []) pos s).1)
          min)) [
            | inl few ↦ rw (match_repeat_then, few) still
            | inr enough ↦
                rw (match_repeat_then, enough)
                  (retry-Keeps cont _ _ after still (take-All (λ e. e ≤ length text) _ _ inside))
          ]
