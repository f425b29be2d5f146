-- ===== src/Srtp/Rollover.antt =====
-- The estimate of the rollover counter, against the index of 48 bits that it stands for.
use sipr.Common.{
  ℕ, ◌+◌, ◌-◌, ◌/◌, ◌%◌, ◌^◌, ◌<◌, max, some, ◌≡◌, refl, arith, inl, inr, Bool-cases, ltb, ltb→lt,
  lt→ltb,
}
use sipr.Srtp.{SrtpContext, estimate_roc, advance, is_newer, index_of}

-- The context that has the packet of index `i` as its highest.
abbrev pub at_index : SrtpContext → ℕ → SrtpContext
at_index c i = record c { roc = i / 2 ^ 16; s_l = some (i % 2 ^ 16) }

-- Below 2 ^ 48, a packet whose index is less than 2 ^ 15 from the highest one heard, either way, is counted in its
-- own rollover.
pub estimate_roc_lem :
    (c : SrtpContext) (i j : ℕ)
    → i < 2 ^ 48
    → j < 2 ^ 48
    → i < j + 2 ^ 15
    → j < i + 2 ^ 15
    → estimate_roc (at_index c i) (j % 2 ^ 16) ≡ j / 2 ^ 16
unfolding estimate_roc
estimate_roc_lem c i j hi hj below above = ground arith

index_of_parts : (i : ℕ) → index_of (i / 2 ^ 16) (i % 2 ^ 16) ≡ i
index_of_parts i = omega arith

-- Whatever the index, the context keeps the higher of the two.
pub advance_lem :
    (c : SrtpContext) (i j : ℕ)
    → advance (at_index c i) (j / 2 ^ 16) (j % 2 ^ 16) ≡ at_index c (max i j)
unfolding advance is_newer
advance_lem c i j = elim (Bool-cases (ltb i j)) [
  | inl e ↦
      let later : max i j ≡ j = omega (arith, ltb→lt i j e) in
      rw (later, index_of_parts i, index_of_parts j, e) refl
  | inr e ↦
      let earlier : max i j ≡ i = ground (arith, e) in
      rw (earlier, index_of_parts i, index_of_parts j, e) refl
]

estimate_roc_wraps :
    (c : SrtpContext) (s_l seq : ℕ)
    → c.roc ≡ 0
    → c.s_l ≡ some s_l
    → s_l < 2 ^ 15
    → s_l + 2 ^ 15 < seq
    → estimate_roc c seq ≡ 2 ^ 32 - 1
unfolding estimate_roc
estimate_roc_wraps c s_l seq zero_roc last low high =
    rw (last, zero_roc, lt→ltb s_l (2 ^ 15) low, lt→ltb (s_l + 2 ^ 15) seq high) refl

advance_newer :
    (c : SrtpContext) (s_l v seq : ℕ)
    → c.s_l ≡ some s_l
    → index_of c.roc s_l < index_of v seq
    → advance c v seq ≡ record c { roc = v; s_l = some seq }
unfolding advance is_newer
advance_newer c s_l v seq last newer =
    rw (last, lt→ltb (index_of c.roc s_l) (index_of v seq) newer) refl

-- With the counter at 0, a highest sequence number below 2 ^ 15 and then one more than 2 ^ 15 above
-- it, the estimate is 2 ^ 32 - 1, and the context takes that packet for the highest.
pub advance_wraps :
    (c : SrtpContext) (s_l seq : ℕ)
    → c.roc ≡ 0
    → c.s_l ≡ some s_l
    → s_l < 2 ^ 15
    → s_l + 2 ^ 15 < seq
    → advance c (estimate_roc c seq) seq ≡ record c { roc = 2 ^ 32 - 1; s_l = some seq }
advance_wraps c s_l seq zero_roc last low high =
    rw (estimate_roc_wraps c s_l seq zero_roc last low high)
      (advance_newer c s_l (2 ^ 32 - 1) seq last (omega (arith, zero_roc)))
