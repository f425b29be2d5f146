-- ===== src/Retrans.antt =====
-- crates/sipr-net/src/retrans.rs: the plan of retransmissions of one sent message.
-- A `Duration` is its number of nanoseconds, at most `max_duration`; u32 and u64 values are numbers
-- in their range.
pub mod Waits
mod Runs
use sipr.Common.{
  ℕ, ◌+◌, ◌-◌, ◌*◌, ◌^◌, min, max, Bool, true, false, not, ◌&&◌, ◌||◌, Option, none, some, ltb, leb,
  ◌==◌, if◌then◌else◌,
}

-- `Duration::MAX`: u64::MAX seconds and 999_999_999 nanoseconds.
abbrev pub max_duration : ℕ
max_duration = (2 ^ 64 - 1) * 1000000000 + 999999999

-- `Duration::from_millis`.
abbrev pub from_millis : ℕ → ℕ
from_millis ms = ms * 1000000

-- `Duration::saturating_mul`.
abbrev pub saturating_mul : ℕ → ℕ → ℕ
saturating_mul d k = if leb (d * k) max_duration then d * k else max_duration

abbrev pub t1 : ℕ
t1 = from_millis 500

abbrev pub t2 : ℕ
t2 = from_millis 4000

abbrev pub default_max_invite_retrans : ℕ
default_max_invite_retrans = 5

abbrev pub default_max_non_invite_retrans : ℕ
default_max_non_invite_retrans = 9

pub record RetransCaps : Type 0 where
  pub invite : ℕ
  pub non_invite : ℕ
  pub global : Option ℕ

abbrev pub default_caps : RetransCaps
default_caps = record {
  invite = default_max_invite_retrans;
  non_invite = default_max_non_invite_retrans;
  global = none;
}

pub record RetransSchedule : Type 0 where
  pub base : ℕ
  pub max_retrans : ℕ
  pub enabled : Bool
  pub invite : Bool

-- `base_override_ms.map_or(T1, Duration::from_millis)`
abbrev pub base_of : Option ℕ → ℕ
base_of none = t1
base_of (some ms) = from_millis ms

-- `base_override_ms != Some(0)`
abbrev pub not_some_zero : Option ℕ → Bool
not_some_zero none = true
not_some_zero (some ms) = not (ms == 0)

-- `caps.global.unwrap_or(u32::MAX)`
abbrev pub unwrap_or : Option ℕ → ℕ → ℕ
unwrap_or none d = d
unwrap_or (some n) d = n

unfoldable pub new : Option ℕ → Bool → RetransCaps → Bool → RetransSchedule
new base_override_ms invite caps no_retrans =
    let kind_cap = if invite then caps.invite else caps.non_invite in
    record {
      base = base_of base_override_ms;
      max_retrans = min kind_cap (unwrap_or caps.global (2 ^ 32 - 1));
      enabled = not no_retrans && not_some_zero base_override_ms;
      invite = invite;
    }

unfoldable pub disabled : RetransSchedule
disabled = record { base = t1; max_retrans = 0; enabled = false; invite = false }

unfoldable pub allows : RetransSchedule → ℕ → Bool
allows s attempt = s.enabled && (leb 1 attempt && leb attempt s.max_retrans)

-- `1u32 << k` for `k` at most 16 is `2 ^ k`.
unfoldable pub wait : RetransSchedule → ℕ → Option ℕ
wait s attempt =
    if not s.enabled || attempt == 0
    then none
    else let factor = 2 ^ min (attempt - 1) 16 in
      let interval = saturating_mul s.base factor in
      if s.invite then some interval else some (min interval (max t2 s.base))

-- `self.wait(attempt).filter(|_| self.allows(attempt))`
abbrev pub filter_some : Option ℕ → Bool → Option ℕ
filter_some none keep = none
filter_some (some d) keep = if keep then some d else none

unfoldable pub interval : RetransSchedule → ℕ → Option ℕ
interval s attempt = filter_some (wait s attempt) (allows s attempt)

unfoldable pub max_attempts : RetransSchedule → ℕ
max_attempts s = if s.enabled then s.max_retrans else 0
