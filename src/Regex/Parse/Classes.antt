-- ===== src/Regex/Parse/Classes.antt =====
-- The parser of a class: what it leaves, and that its loop has fuel enough.
use sipr.Common.{
  ℕ, zero, suc, ◌+◌, ◌≤◌, ◌<◌, Bool, true, false, List, [], ◌∷◌, ◌++◌, none, ◌≡◌, refl, inl, inr,
  ltb, ◌==◌, if◌then◌else◌, length, drop, arith, Bool-cases, Option-cases,
}
use sipr.Regex.{class, ClassItem}
use sipr.Regex.Parse.{
  Parser, unterminated_class, backslash_in_class, unterminated_range, reversed_range,
  malformed_class, unknown_class, ok, err, bind, peek, skip, bump_or, expect, or_error, next_is,
  first_of,
}
use sipr.Regex.Parse.Class.{
  parse_class, class_items, first_item, parse_item, parse_posix_class, is_range, posix_named,
  posix_names, until_colon, begins,
}
use sipr.Regex.Parse.Total.{
  GroupsBelow, Post, Anything, if_Post, bind-Post, bump_or-Post, expect-Post, or_error-Post,
}
use sipr.Regex.Parse.Pieces.{skipped}

module _ (len g : ℕ) where
  parse_posix_class-Post :
      (p : Parser)
      → length p.rest ≤ suc len
      → g ≤ p.ngroups
      → Post Anything len g (parse_posix_class p)
  unfolding parse_posix_class skip
  parse_posix_class-Post p short counted =
      let name = until_colon (drop 2 p.rest) in
      bind-Post Anything Anything len g len g
        (expect 58 malformed_class (skip (2 + length (until_colon (drop 2 p.rest))) p)) _
        (expect-Post len g 58 malformed_class (skip (2 + length (until_colon (drop 2 p.rest))) p)
          (λ e. cc) (skipped (suc len) g (2 + length (until_colon (drop 2 p.rest))) p short)
          counted)
        λ _ q s1 c1 _.
          bind-Post Anything Anything len g len g (expect 93 malformed_class q) _
            (expect-Post len g 93 malformed_class q (λ e. cc) (omega arith) c1)
            λ _ r s2 c2 _.
              bind-Post Anything Anything len g len g
                (or_error (posix_named (until_colon (drop 2 p.rest)) posix_names)
                  (unknown_class (until_colon (drop 2 p.rest))) r)
                (λ class u. ok (ClassItem.posix class) u)
                (or_error-Post len g (posix_named (until_colon (drop 2 p.rest)) posix_names)
                  (unknown_class (until_colon (drop 2 p.rest))) r (λ e. cc) s2 c2)
                (λ class u s3 c3 _. (s3, c3, tt))

  skip_groups : (p : Parser) → g ≤ p.ngroups → g ≤ (skip 1 p).ngroups
  unfolding skip
  skip_groups p counted = counted

  parse_item-Post :
      (p : Parser) → length p.rest ≤ suc len → g ≤ p.ngroups → Post Anything len g (parse_item p)
  unfolding parse_item
  parse_item-Post p short counted =
      bind-Post Anything Anything len g len g (bump_or unterminated_class p) _
        (bump_or-Post len g unterminated_class p (λ e. cc) short counted)
        λ b q s1 c1 _.
          bind-Post Anything Anything len g len g
            (if b == 92 then bump_or backslash_in_class q else ok b q) _
            (if_Post Anything len g (b == 92) (bump_or backslash_in_class q) (ok b q)
              (bump_or-Post len g backslash_in_class q (λ e. cc) (omega arith) c1) (s1, c1, tt))
            λ c r s2 c2 _.
              if_Post Anything len g (is_range r.rest)
                (bind (bump_or unterminated_range (skip 1 r))
                  λ d u. if ltb d c then err reversed_range else ok (ClassItem.range c d) u)
                (ok (ClassItem.byte c) r)
                (bind-Post Anything Anything len g len g (bump_or unterminated_range (skip 1 r)) _
                  (bump_or-Post len g unterminated_range (skip 1 r) (λ e. cc)
                    (omega (arith, skipped len g 1 r s2)) (skip_groups r c2))
                  λ d u s3 c3 _.
                    if_Post Anything len g (ltb d c) (err reversed_range)
                      (ok (ClassItem.range c d) u) (λ q. cc) (s3, c3, tt))
                (s2, c2, tt)

pub no_bytes : (s : List ℕ) → length s ≤ 0 → first_of s ≡ none
no_bytes [] h = refl
no_bytes (b ∷ s) h = absurd (omega arith)

-- With more fuel than bytes the loop ends.
class_items-Post :
    (fuel len g : ℕ) (p : Parser)
    → len < fuel
    → length p.rest ≤ len
    → g ≤ p.ngroups
    → Post Anything len g (class_items fuel p)
unfolding class_items peek skip
class_items-Post zero len g p more short counted = absurd (omega arith)
class_items-Post (suc fuel) zero g p more short counted =
    rw (class_items, no_bytes p.rest short) (λ q. cc)
class_items-Post (suc fuel) (suc len) g p more short counted =
    elim (Option-cases (first_of p.rest)) [
      | inl e ↦ rw (class_items, e) (λ q. cc)
      | inr (c, e) ↦ elim (Bool-cases (c == 93)) [
        | inl close ↦ rw (class_items, e, close) (skipped (suc len) g 1 p short, counted, tt)
        | inr open_yet ↦
            rw (class_items, e, open_yet)
              (bind-Post Anything Anything len g (suc len) g
                (if begins 91 58 p.rest then parse_posix_class p else parse_item p)
                (λ item q. bind (class_items fuel q) λ items r. ok (item ∷ items) r)
                (if_Post Anything len g (begins 91 58 p.rest) (parse_posix_class p) (parse_item p)
                  (parse_posix_class-Post len g p short counted)
                  (parse_item-Post len g p short counted))
                λ item q s1 c1 _.
                  bind-Post Anything Anything len g (suc len) g (class_items fuel q)
                    (λ items r. ok (item ∷ items) r)
                    (class_items-Post fuel len g q (omega arith) s1 c1)
                    (λ items r s2 c2 _. (omega arith, c2, tt)))
      ]
    ]

-- A class leaves no more bytes than there were, and counts no group.
pub parse_class-Post :
    (len g : ℕ) (p : Parser)
    → length p.rest ≤ len
    → g ≤ p.ngroups
    → Post GroupsBelow len g (parse_class p)
unfolding parse_class GroupsBelow skip first_item
parse_class-Post len g p short counted =
    bind-Post Anything GroupsBelow len g len g (first_item (if next_is 94 p then skip 1 p else p))
      (λ first q.
        bind (class_items (suc (length q.rest)) q)
          λ items r. ok (class (next_is 94 p) (first ++ items)) r)
      (first_item-Post (if next_is 94 p then skip 1 p else p) (maybe (next_is 94 p)).0
        (maybe (next_is 94 p)).1)
      λ first q s1 c1 _.
        bind-Post Anything GroupsBelow (length q.rest) g len g (class_items (suc (length q.rest)) q)
          (λ items r. ok (class (next_is 94 p) (first ++ items)) r)
          (class_items-Post (suc (length q.rest)) (length q.rest) g q (omega arith) (omega arith)
            c1)
          (λ items r s2 c2 _. (omega arith, c2, tt))
  where
    maybe :
        (b : Bool)
        → (length (if b then skip 1 p else p).rest ≤ len)
          × (g ≤ (if b then skip 1 p else p).ngroups)
    maybe true = (skipped len g 1 p short, counted)
    maybe false = (short, counted)

    first_item-Post :
        (q : Parser) → length q.rest ≤ len → g ≤ q.ngroups → Post Anything len g (first_item q)
    first_item-Post q s c =
        if_Post Anything len g (next_is 93 q) _ _ (skipped len g 1 q s, c, tt) (s, c, tt)
