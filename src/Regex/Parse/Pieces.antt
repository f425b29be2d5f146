-- ===== src/Regex/Parse/Pieces.antt =====
-- The calls that take a bound or a class: what they leave.
use sipr.Common.{
  ℕ, ◌≤◌, List, [], ◌∷◌, none, some, inl, inr, ◌==◌, length, arith, length-drop, Option-cases,
}
use sipr.Regex.{Node, repeat}
use sipr.Regex.Parse.{
  Parser, bad_bound, unterminated_bound, reversed_bound, ok, err, bind, peek, skip, bump_or, expect,
  or_error, parse_postfix, parse_bound, parse_upper, parse_max, take_digits, parse_u32, is_reversed,
  first_of,
}
use sipr.Regex.Parse.Total.{
  GroupsBelow, GroupsBelow-mono, Post, Anything, if_Post, bind-Post, bump_or-Post, expect-Post,
  or_error-Post, take_digits-Post,
}

module _ (len g : ℕ) where
  parse_max-Post :
      (p : Parser) → length p.rest ≤ len → g ≤ p.ngroups → Post Anything len g (parse_max p)
  unfolding parse_max
  parse_max-Post p short counted =
      bind-Post Anything Anything len g len g (take_digits p) _
        (take_digits-Post len g p short counted)
        (λ digits q small more _.
          bind-Post Anything Anything len g len g (expect 125 unterminated_bound q) _
            (expect-Post len g 125 unterminated_bound q (λ e. cc) (omega arith) more)
            (λ _ r less still _. bound digits r less still))
    where
      bound :
          (digits : List ℕ) (r : Parser)
          → length r.rest ≤ len
          → g ≤ r.ngroups
          → Post Anything len g (elim digits [
            | [] ↦ ok none r
            | d ∷ ds ↦ bind (or_error (parse_u32 (d ∷ ds)) bad_bound r) λ max u. ok (some max) u
          ])
      bound [] r less still = (less, still, tt)
      bound (d ∷ ds) r less still =
          bind-Post Anything Anything len g len g (or_error (parse_u32 (d ∷ ds)) bad_bound r) _
            (or_error-Post len g (parse_u32 (d ∷ ds)) bad_bound r (λ e. cc) less still)
            (λ max u fewer yet _. (fewer, yet, tt))

  parse_upper-Post :
      (min b : ℕ) (p : Parser)
      → length p.rest ≤ len
      → g ≤ p.ngroups
      → Post Anything len g (parse_upper min b p)
  unfolding parse_upper
  parse_upper-Post min b p short counted =
      if_Post Anything len g (b == 125) _ _ (short, counted, tt)
        (if_Post Anything len g (b == 44) _ _ (parse_max-Post p short counted) (λ q. cc))

  -- A bound on a good atom is good.
  parse_bound-Post :
      (atom : Node) (p : Parser)
      → length p.rest ≤ len
      → g ≤ p.ngroups
      → GroupsBelow g atom
      → Post GroupsBelow len g (parse_bound atom p)
  unfolding parse_bound GroupsBelow
  parse_bound-Post atom p short counted good =
      bind-Post Anything GroupsBelow len g len g (take_digits p) _
        (take_digits-Post len g p short counted)
        λ digits q s1 c1 _.
          bind-Post Anything GroupsBelow len g len g (or_error (parse_u32 digits) bad_bound q) _
            (or_error-Post len g (parse_u32 digits) bad_bound q (λ e. cc) s1 c1)
            λ min r s2 c2 _.
              bind-Post Anything GroupsBelow len g len g (bump_or unterminated_bound r) _
                (bump_or-Post len g unterminated_bound r (λ e. cc) (omega arith) c2)
                λ b u s3 c3 _.
                  bind-Post Anything GroupsBelow len g len g (parse_upper min b u) _
                    (parse_upper-Post min b u s3 c3)
                    λ max v s4 c4 _.
                      if_Post GroupsBelow len g (is_reversed min max) (err reversed_bound)
                        (ok (repeat atom min max) v) (λ q. cc)
                        (s4, c4, GroupsBelow-mono g v.ngroups atom c4 good)

  pub skipped : (n : ℕ) (p : Parser) → length p.rest ≤ len → length (skip n p).rest ≤ len
  unfolding skip
  skipped n p short = omega (arith, length-drop n p.rest)

  pub parse_postfix-Post :
      (atom : Node) (p : Parser)
      → length p.rest ≤ len
      → g ≤ p.ngroups
      → GroupsBelow g atom
      → Post GroupsBelow len g (parse_postfix atom p)
  unfolding parse_postfix peek GroupsBelow skip
  parse_postfix-Post atom p short counted good = elim (Option-cases (first_of p.rest)) [
    | inl e ↦ rw (parse_postfix, e) (short, counted, GroupsBelow-mono g p.ngroups atom counted good)
    | inr (c, e) ↦
        let next_short = skipped 1 p short in
        let kept = GroupsBelow-mono g p.ngroups atom counted good in
        rw (parse_postfix, e)
          (if_Post GroupsBelow len g (c == 42) _ _ (next_short, counted, kept)
            (if_Post GroupsBelow len g (c == 43) _ _ (next_short, counted, kept)
              (if_Post GroupsBelow len g (c == 63) _ _ (next_short, counted, kept)
                (if_Post GroupsBelow len g (c == 123) _ _
                  (parse_bound-Post atom (skip 1 p) next_short counted good)
                  (short, counted, kept)))))
  ]
