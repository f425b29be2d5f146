-- ===== src/Retrans/Waits.antt =====
-- Which attempts are sent, and how long each waits.
use native.Mathlib.Nat.{pow-suc, mul-le-mul_left}
use sipr.Common.{
  ℕ, zero, suc, ◌-◌, ◌*◌, ◌^◌, ◌≤◌, min, max, Bool, true, false, not, ◌&&◌, ◌||◌, Option, none,
  some, ◌≡◌, refl, inl, inr, arith, ltb, leb, if◌then◌else◌, Bool-cases,
}
use sipr.Retrans.{
  RetransSchedule, RetransCaps, max_duration, t2, new, allows, wait, interval, max_attempts,
  not_some_zero, unwrap_or, base_of,
}

interval_sent :
    (s : RetransSchedule) (a : ℕ)
    → interval s a ≡ (if leb 1 a && leb a (max_attempts s) then wait s a else none)
unfolding interval allows max_attempts wait
interval_sent s a = ground arith

-- The cap that `new` sets: that of the kind of message, under the global ceiling, or none at all.
pub max_attempts-new :
    (ms : Option ℕ) (invite : Bool) (caps : RetransCaps) (no_retrans : Bool)
    → max_attempts (new ms invite caps no_retrans) ≡ (
        if no_retrans || not (not_some_zero ms)
        then 0
        else min
            (if invite then caps.invite else caps.non_invite)
            (unwrap_or caps.global (2 ^ 32 - 1)))
unfolding max_attempts new
max_attempts-new ms invite caps no_retrans = ground arith

-- The exponent of the wait before attempt `suc a`.
abbrev doublings : ℕ → ℕ
doublings a = min a 16

-- What an enabled schedule waits, in closed form, when its base is a duration: the base doubled for each attempt after the first, at most
-- sixteen times; an INVITE up to the longest duration, any other message up to T2 or the base.
pub wait_lem :
    (s : RetransSchedule) (a : ℕ)
    → s.enabled ≡ true
    → s.base ≤ max_duration
    → wait s (suc a)
      ≡ some (min (s.base * 2 ^ min a 16) (if s.invite then max_duration else max t2 s.base))
unfolding wait
wait_lem s a e h = let f : suc a - 1 ≡ a = omega arith in rw f (ground arith)

-- The wait of RFC 3261 after `n` doublings: twice the last one, up to a limit.
abbrev pub doubled : ℕ → ℕ → ℕ → ℕ
doubled limit base zero = min base limit
doubled limit base (suc n) = min (2 * doubled limit base n) limit

doubled_lem : (limit base n : ℕ) → doubled limit base n ≡ min (base * 2 ^ n) limit
doubled_lem limit base zero = omega arith
doubled_lem limit base (suc n) = rw (doubled_lem limit base n, pow-suc) (omega arith)

-- The longest wait of a message: of an INVITE the longest duration, and else T2 or the base.
abbrev pub longest : Bool → ℕ → ℕ
longest true base = max_duration
longest false base = max t2 base

wait-doubled :
    (s : RetransSchedule) (a : ℕ)
    → s.enabled ≡ true
    → s.base ≤ max_duration
    → wait s (suc a) ≡ some (doubled (longest s.invite s.base) s.base (min a 16))
wait-doubled s a e h = elim (Bool-cases s.invite) [
  | inl k ↦ rw (doubled_lem (longest s.invite s.base) s.base (min a 16), wait_lem s a e h, k) refl
  | inr k ↦ rw (doubled_lem (longest s.invite s.base) s.base (min a 16), wait_lem s a e h, k) refl
]

-- The plan that `new` makes sends attempt `suc a` exactly if neither the caller nor a base of zero turns
-- it off and the attempt is no later than the cap of its kind and the global one allow; it then waits as
-- RFC 3261 says: the base, doubled for each attempt before, sixteen times at most, an INVITE without a
-- limit but that of a duration, any other message up to T2, or the base where that is longer. Attempt 0
-- is never sent. The base is supposed to be no longer than a duration can be.
pub interval-new :
    (ms : Option ℕ) (invite : Bool) (caps : RetransCaps) (no_retrans : Bool) (a : ℕ)
    → base_of ms ≤ max_duration
    → (interval (new ms invite caps no_retrans) (suc a) ≡ (
        if no_retrans || not (not_some_zero ms)
        then none
        else if leb (suc a) (if invite then caps.invite else caps.non_invite)
            && leb (suc a) (unwrap_or caps.global (2 ^ 32 - 1))
        then some (doubled (longest invite (base_of ms)) (base_of ms) (min a 16))
        else none))
      × (interval (new ms invite caps no_retrans) 0 ≡ none)
unfolding new
interval-new ms invite caps no_retrans a fits =
    let s = new ms invite caps no_retrans in
    let cap = max_attempts-new ms invite caps no_retrans in
    (
      elim (Bool-cases (no_retrans || not (not_some_zero ms))) [
        | inl off ↦ ground (arith, off, interval_sent s (suc a), cap)
        | inr on ↦
            let waits = wait-doubled s a (ground arith) fits in
            rw (on, interval_sent s (suc a), cap, on, waits) (ground arith)
      ],
      interval_sent s 0,
    )

pow_pos : (k : ℕ) → 1 ≤ 2 ^ k
pow_pos zero = omega arith
pow_pos (suc k) = rw pow-suc (omega (arith, pow_pos k))

pow_step : (a : ℕ) → (2 ^ min a 16 ≤ 2 ^ min (suc a) 16) × (2 ^ min (suc a) 16 ≤ 2 * 2 ^ min a 16)
pow_step a = elim (Bool-cases (ltb a 16)) [
  | inl h ↦
      let f : min (suc a) 16 ≡ suc (min a 16) = ground arith in
      rw (f, pow-suc) (omega arith, omega arith)
  | inr h ↦ let f : min (suc a) 16 ≡ min a 16 = ground arith in rw f (omega arith, omega arith)
]

scaled :
    (b p q : ℕ) → 1 ≤ p → p ≤ q → q ≤ 2 * p → (b ≤ b * p) × (b * p ≤ b * q) × (b * q ≤ 2 * (b * p))
scaled b p q h k l =
    (omega (arith, mul-le-mul_left b h), mul-le-mul_left b k, omega (arith, mul-le-mul_left b l))

wait_off : (s : RetransSchedule) (a : ℕ) → s.enabled ≡ false → wait s a ≡ none
unfolding wait
wait_off s a e = ground arith

-- Where a schedule with a base that is a duration waits, the waits never fall from one attempt to the
-- next and at most double, and each is at least the base: the cap at T2 does not shrink a longer base.
pub wait_mono :
    (s : RetransSchedule) (a d e : ℕ)
    → s.base ≤ max_duration
    → wait s (suc a) ≡ some d
    → wait s (suc (suc a)) ≡ some e
    → (s.base ≤ d) × (d ≤ e) × (e ≤ 2 * d)
wait_mono s a d e h p q = elim (Bool-cases s.enabled) [
  | inl on ↦
      let x = s.base * 2 ^ min a 16 in
      let y = s.base * 2 ^ min (suc a) 16 in
      let (lo, hi) = pow_step a in
      let (bx, xy, yx) = scaled s.base _ _ (pow_pos (min a 16)) lo hi in
      ground (arith, wait_lem s a on h, wait_lem s (suc a) on h, xy, yx, bx)
  | inr off ↦ cc (wait_off s (suc a) off)
]
