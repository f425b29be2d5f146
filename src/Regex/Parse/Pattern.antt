-- ===== src/Regex/Parse/Pattern.antt =====
-- crates/sipr-scenario/src/regex.rs: the parser of a pattern, by recursive descent.
use sipr.Common.{
  ℕ, zero, suc, ◌+◌, ◌*◌, Bool, true, false, ◌||◌, List, [], ◌∷◌, none, some, ◌==◌, if◌then◌else◌,
  length,
}
use sipr.Regex.{Node, Nodes, literal, any_byte, start, end, group, seq, alt, done, next, Regex}
use sipr.Regex.Parse.{
  Parser, unexpected, unbalanced, trailing_backslash, nothing_to_repeat, end_of_pattern,
  out_of_fuel, Parsed, ok, err, bind, peek, skip, bump_or, expect, next_is, parse_postfix,
}
use sipr.Regex.Parse.Class.{parse_class}

-- A byte behind a backslash.
unfoldable pub escaped : ℕ → ℕ
escaped c = if c == 110 then 10 else if c == 114 then 13 else if c == 116 then 9 else c

-- An atom that is no group: `c` is taken already.
unfoldable pub simple_atom : ℕ → Parser → Parsed Node
unfolding bind bump_or escaped parse_class
simple_atom c p =
    if c == 91
    then parse_class p
    else if c == 46
    then ok any_byte p
    else if c == 94
    then ok start p
    else if c == 36
    then ok end p
    else if c == 92
    then bind (bump_or trailing_backslash p) (λ d q. ok (literal (escaped d)) q)
    else if c == 42 || c == 43 || c == 63
    then err nothing_to_repeat
    else ok (literal c) p

abbrev pub one_or_alt : Node → Nodes → Node
one_or_alt node done = node
one_or_alt node (next other nodes) = alt (next node (next other nodes))

abbrev pub one_or_seq : Nodes → Node
one_or_seq done = seq done
one_or_seq (next node done) = node
one_or_seq (next node (next other nodes)) = seq (next node (next other nodes))

-- The index of a group is taken before what is inside it.
unfoldable pub enter : Parser → Parser
enter p = record p { ngroups = p.ngroups + 1 }

abbrev pub ends_seq : ℕ → Bool
ends_seq c = c == 124 || c == 41

-- Four calls for each byte at most.
unfoldable mutual
  unfolding bind peek bump_or skip expect next_is parse_postfix simple_atom enter

  pub parse_alt : ℕ → Parser → Parsed Node
  parse_alt zero p = err out_of_fuel
  parse_alt (suc fuel) p =
      bind (parse_seq fuel p)
        λ node q. bind (alt_loop fuel q) λ nodes r. ok (one_or_alt node nodes) r

  pub alt_loop : ℕ → Parser → Parsed Nodes
  alt_loop zero p = err out_of_fuel
  alt_loop (suc fuel) p = elim (next_is 124 p) [
    | false ↦ ok done p
    | true ↦
        bind (parse_seq fuel (skip 1 p))
          λ node q. bind (alt_loop fuel q) λ nodes r. ok (next node nodes) r
  ]

  pub parse_seq : ℕ → Parser → Parsed Node
  parse_seq zero p = err out_of_fuel
  parse_seq (suc fuel) p = bind (seq_loop fuel p) λ nodes q. ok (one_or_seq nodes) q

  pub seq_loop : ℕ → Parser → Parsed Nodes
  seq_loop zero p = err out_of_fuel
  seq_loop (suc fuel) p = elim (peek p) [
    | none ↦ ok done p
    | some c ↦ elim (ends_seq c) [
      | true ↦ ok done p
      | false ↦ bind (parse_atom fuel p) λ atom q.
          bind (parse_postfix atom q)
            λ node r. bind (seq_loop fuel r) λ nodes u. ok (next node nodes) u
    ]
  ]

  pub parse_atom : ℕ → Parser → Parsed Node
  parse_atom zero p = err out_of_fuel
  parse_atom (suc fuel) p = bind (bump_or end_of_pattern p) λ c q. elim (c == 40) [
    | false ↦ simple_atom c q
    | true ↦
        bind (parse_alt fuel (enter q))
          λ inner r. bind (expect 41 unbalanced r) λ _ u. ok (group (q.ngroups + 1) inner) u
  ]

abbrev pub begin : List ℕ → Parser
begin pattern = record { rest = pattern; pos = 0; ngroups = 0 }

abbrev pub at_end : Node → Parser → Parsed Regex
at_end root p = elim p.rest [
  | [] ↦ ok (record { root = root; ngroups = p.ngroups }) p
  | b ∷ s ↦ err (unexpected b p.pos)
]

unfoldable pub compile : List ℕ → Parsed Regex
unfolding bind parse_alt
compile pattern = bind (parse_alt (4 * length pattern + 4) (begin pattern)) at_end
