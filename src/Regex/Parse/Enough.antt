-- ===== src/Regex/Parse/Enough.antt =====
-- The parser of a pattern has fuel enough, and the indices of the groups are those it counts.
use sipr.Common.{
  ℕ, zero, suc, ◌+◌, ◌*◌, ◌≤◌, true, false, ◌||◌, List, [], ◌∷◌, ◌≡◌, ◌≢◌, refl, ap, inl, inr, ◌==◌,
  length, arith, subst, length-drop, Bool-cases, Option-cases,
}
use sipr.Regex.{Node, Nodes, group, done, next, Regex}
use sipr.Regex.Parse.{
  Parser, unbalanced, trailing_backslash, end_of_pattern, out_of_fuel, Parsed, ok, err, bind, skip,
  bump_or, expect, next_is, parse_postfix, first_of,
}
use sipr.Regex.Parse.Total.{
  GroupsBelow, GroupsBelow-mono, Post, Anything, if_Post, bind-Post, bump_or-Post, expect-Post,
}
use sipr.Regex.Parse.Pieces.{parse_postfix-Post}
use sipr.Regex.Parse.Classes.{no_bytes, parse_class-Post}
use sipr.Regex.Parse.Total.{AllBelow}
use sipr.Regex.Parse.Pattern.{
  simple_atom, enter, one_or_alt, one_or_seq, ends_seq, parse_alt, alt_loop, parse_seq, seq_loop,
  parse_atom, begin, at_end, compile,
}

simple_atom-Post :
    (c len g : ℕ) (p : Parser)
    → length p.rest ≤ len
    → g ≤ p.ngroups
    → Post GroupsBelow len g (simple_atom c p)
unfolding simple_atom GroupsBelow
simple_atom-Post c len g p short counted =
    if_Post GroupsBelow len g (c == 91) _ _ (parse_class-Post len g p short counted) (
      if_Post GroupsBelow len g (c == 46) _ _ (short, counted, tt)
        (if_Post GroupsBelow len g (c == 94) _ _ (short, counted, tt)
          (if_Post GroupsBelow len g (c == 36) _ _ (short, counted, tt)
            (if_Post GroupsBelow len g (c == 92) _ _
              (bind-Post Anything GroupsBelow len g len g (bump_or trailing_backslash p) _
                (bump_or-Post len g trailing_backslash p (λ e. cc) (omega arith) counted)
                (λ d q s1 c1 _. (s1, c1, tt)))
              (if_Post GroupsBelow len g (c == 42 || c == 43 || c == 63) _ _ (λ q. cc)
                (short, counted, tt))))))

one_or_alt-Below :
    (n : ℕ) (node : Node) (nodes : Nodes)
    → GroupsBelow n node
    → AllBelow n nodes
    → GroupsBelow n (one_or_alt node nodes)
unfolding GroupsBelow
one_or_alt-Below n node done first others = first
one_or_alt-Below n node (next other nodes) first others = (first, others)

one_or_seq-Below : (n : ℕ) (nodes : Nodes) → AllBelow n nodes → GroupsBelow n (one_or_seq nodes)
unfolding GroupsBelow
one_or_seq-Below n done below = tt
one_or_seq-Below n (next node done) below = below.0
one_or_seq-Below n (next node (next other nodes)) below = below

not_next : (c : ℕ) (p : Parser) → length p.rest ≤ 0 → next_is c p ≡ false
unfolding next_is
not_next c p short = go p.rest refl
  where
    go : (s : List ℕ) → p.rest ≡ s → next_is c p ≡ false
    go [] e = rw (next_is, e) refl
    go (b ∷ s) e = absurd (omega (arith, ap length e))

mutual
  unfolding parse_alt skip GroupsBelow enter

  parse_alt-Post :
      (fuel len g : ℕ) (p : Parser)
      → 4 * len + 4 ≤ fuel
      → length p.rest ≤ len
      → g ≤ p.ngroups
      → Post GroupsBelow len g (parse_alt fuel p)
  parse_alt-Post zero len g p more short counted = absurd (omega arith)
  parse_alt-Post (suc fuel) len g p more short counted =
      bind-Post GroupsBelow GroupsBelow len g len g (parse_seq fuel p)
        (λ node q. bind (alt_loop fuel q) λ nodes r. ok (one_or_alt node nodes) r)
        (parse_seq-Post fuel len g p (omega arith) short counted)
        λ node q s1 c1 below.
          bind-Post AllBelow GroupsBelow len q.ngroups len g (alt_loop fuel q)
            (λ nodes r. ok (one_or_alt node nodes) r)
            (alt_loop-Post fuel len q.ngroups q (omega arith) s1 (omega arith))
            λ nodes r s2 c2 others. (
              s2,
              omega arith,
              one_or_alt-Below r.ngroups node nodes
                  (GroupsBelow-mono q.ngroups r.ngroups node c2 below) others,
            )

  alt_loop-Post :
      (fuel len g : ℕ) (p : Parser)
      → 4 * len + 3 ≤ fuel
      → length p.rest ≤ len
      → g ≤ p.ngroups
      → Post AllBelow len g (alt_loop fuel p)
  alt_loop-Post zero len g p more short counted = absurd (omega arith)
  alt_loop-Post (suc fuel) zero g p more short counted =
      rw (alt_loop, not_next 124 p short) (short, counted, tt)
  alt_loop-Post (suc fuel) (suc len) g p more short counted = elim (Bool-cases (next_is 124 p)) [
    | inr e ↦ rw (alt_loop, e) (short, counted, tt)
    | inl e ↦
        rw (alt_loop, e)
          (bind-Post GroupsBelow AllBelow len g (suc len) g (parse_seq fuel (skip 1 p))
            (λ node q. bind (alt_loop fuel q) λ nodes r. ok (next node nodes) r)
            (parse_seq-Post fuel len g (skip 1 p) (omega arith)
              (omega (arith, length-drop 1 p.rest)) counted)
            λ node q s1 c1 below.
              bind-Post AllBelow AllBelow len q.ngroups (suc len) g (alt_loop fuel q)
                (λ nodes r. ok (next node nodes) r)
                (alt_loop-Post fuel len q.ngroups q (omega arith) s1 (omega arith))
                λ nodes r s2 c2 others. (
                  omega arith,
                  omega arith,
                  (GroupsBelow-mono q.ngroups r.ngroups node c2 below, others),
                ))
  ]

  parse_seq-Post :
      (fuel len g : ℕ) (p : Parser)
      → 4 * len + 3 ≤ fuel
      → length p.rest ≤ len
      → g ≤ p.ngroups
      → Post GroupsBelow len g (parse_seq fuel p)
  parse_seq-Post zero len g p more short counted = absurd (omega arith)
  parse_seq-Post (suc fuel) len g p more short counted =
      bind-Post AllBelow GroupsBelow len g len g (seq_loop fuel p)
        (λ nodes q. ok (one_or_seq nodes) q)
        (seq_loop-Post fuel len g p (omega arith) short counted)
        λ nodes q s1 c1 below. (s1, c1, one_or_seq-Below q.ngroups nodes below)

  seq_loop-Post :
      (fuel len g : ℕ) (p : Parser)
      → 4 * len + 2 ≤ fuel
      → length p.rest ≤ len
      → g ≤ p.ngroups
      → Post AllBelow len g (seq_loop fuel p)
  seq_loop-Post zero len g p more short counted = absurd (omega arith)
  seq_loop-Post (suc fuel) zero g p more short counted =
      rw (seq_loop, no_bytes p.rest short) (short, counted, tt)
  seq_loop-Post (suc fuel) (suc len) g p more short counted =
      elim (Option-cases (first_of p.rest)) [
        | inl e ↦ rw (seq_loop, e) (short, counted, tt)
        | inr (c, e) ↦ elim (Bool-cases (ends_seq c)) [
          | inl close ↦ rw (seq_loop, e, close) (short, counted, tt)
          | inr on ↦
              rw (seq_loop, e, on)
                (bind-Post GroupsBelow AllBelow len g (suc len) g (parse_atom fuel p)
                  (λ atom q.
                    bind (parse_postfix atom q)
                      λ node r. bind (seq_loop fuel r) λ nodes u. ok (next node nodes) u)
                  (parse_atom-Post fuel len g p (omega arith) short counted)
                  λ atom q s1 c1 below.
                    bind-Post GroupsBelow AllBelow len q.ngroups (suc len) g (parse_postfix atom q)
                      (λ node r. bind (seq_loop fuel r) λ nodes u. ok (next node nodes) u)
                      (parse_postfix-Post len q.ngroups atom q s1 (omega arith) below)
                      λ node r s2 c2 fine.
                        bind-Post AllBelow AllBelow len r.ngroups (suc len) g (seq_loop fuel r)
                          (λ nodes u. ok (next node nodes) u)
                          (seq_loop-Post fuel len r.ngroups r (omega arith) s2 (omega arith))
                          λ nodes u s3 c3 others. (
                            omega arith,
                            omega arith,
                            (GroupsBelow-mono r.ngroups u.ngroups node c3 fine, others),
                          ))
        ]
      ]

  parse_atom-Post :
      (fuel len g : ℕ) (p : Parser)
      → 4 * len + 5 ≤ fuel
      → length p.rest ≤ suc len
      → g ≤ p.ngroups
      → Post GroupsBelow len g (parse_atom fuel p)
  parse_atom-Post zero len g p more short counted = absurd (omega arith)
  parse_atom-Post (suc fuel) len g p more short counted =
      bind-Post Anything GroupsBelow len g len g (bump_or end_of_pattern p)
        (λ c q. elim (c == 40) [
          | false ↦ simple_atom c q
          | true ↦
              bind (parse_alt fuel (enter q))
                λ inner r. bind (expect 41 unbalanced r) λ _ u. ok (group (q.ngroups + 1) inner) u
        ])
        (bump_or-Post len g end_of_pattern p (λ e. cc) short counted)
        λ c q s1 c1 _. elim (Bool-cases (c == 40)) [
          | inr e ↦ rw e (simple_atom-Post c len g q s1 c1)
          | inl e ↦ rw e (
              bind-Post GroupsBelow GroupsBelow len (q.ngroups + 1) len g (parse_alt fuel (enter q))
                (λ inner r. bind (expect 41 unbalanced r) λ _ u. ok (group (q.ngroups + 1) inner) u)
                (parse_alt-Post fuel len (q.ngroups + 1) (enter q) (omega arith) s1 (omega arith))
                λ inner r s2 c2 below.
                  bind-Post Anything GroupsBelow len r.ngroups len g (expect 41 unbalanced r)
                    (λ _ u. ok (group (q.ngroups + 1) inner) u)
                    (expect-Post len r.ngroups 41 unbalanced r (λ f. cc) (omega arith)
                      (omega arith))
                    λ _ u s3 c3 _. (
                      s3,
                      omega arith,
                      (
                        omega arith,
                        omega arith,
                        GroupsBelow-mono r.ngroups u.ngroups inner c3 below,
                      ),
                    ))
        ]

Compiled : Parsed Regex → Type 0
Compiled r =
    (r ≢ err out_of_fuel) × ((x : Regex) (p : Parser) → r ≡ ok x p → GroupsBelow x.ngroups x.root)

-- The regex of a result.
abbrev regex_of : Regex → Parsed Regex → Regex
regex_of x (ok y p) = y
regex_of x (err e) = x

at_end-Compiled : (root : Node) (q : Parser) → GroupsBelow q.ngroups root → Compiled (at_end root q)
unfolding Compiled
at_end-Compiled root q below = go q.rest refl
  where
    go : (s : List ℕ) → q.rest ≡ s → Compiled (at_end root q)
    go [] e =
        rw (at_end, e)
          (
            λ f. cc,
            λ x p f.
                let same : record { root = root; ngroups = q.ngroups } ≡ x = ap (regex_of x) f in
                subst (λ y. GroupsBelow y.ngroups y.root) same below,
          )
    go (b ∷ s) e = rw (at_end, e) (λ f. cc, λ x p f. cc)

bind-Compiled : (r : Parsed Node) (len : ℕ) → Post GroupsBelow len 0 r → Compiled (bind r at_end)
unfolding bind Compiled
bind-Compiled (ok root q) len (short, counted, below) = at_end-Compiled root q below
bind-Compiled (err e) len other = (λ f. other (cc f), λ x p f. cc)

-- The parser of a pattern ends before its fuel, and in what it makes every group has an index from 1 to
-- the number of groups: a slot of the captures, so that none of them is out of bounds.
pub compile-GroupsBelow :
    (pattern : List ℕ)
    → (compile pattern ≢ err out_of_fuel)
      × ((r : Regex) (p : Parser) → compile pattern ≡ ok r p → GroupsBelow r.ngroups r.root)
unfolding compile Compiled
compile-GroupsBelow pattern =
    bind-Compiled (parse_alt (4 * length pattern + 4) (begin pattern)) (length pattern) (
      parse_alt-Post (4 * length pattern + 4) (length pattern) 0 (begin pattern) (omega arith)
        (omega arith) (omega arith))
