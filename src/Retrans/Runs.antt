-- ===== src/Retrans/Runs.antt =====
-- The theorems of the retransmission plan at concrete inputs.
use sipr.Common.{true, false, none, some, ◌≡◌, refl, arith}
use sipr.Retrans.{RetransSchedule, default_caps, from_millis, new, allows, wait, interval}
use sipr.Retrans.Waits.{interval-new}

abbrev plan : RetransSchedule
plan = record { base = from_millis 500; max_retrans = 9; enabled = true; invite = false }

new-plan : new (some 500) false default_caps false ≡ plan
unfolding new
new-plan = refl

fourth_is_t2 : wait plan 4 ≡ some (from_millis 4000)
unfolding wait
fourth_is_t2 = refl

-- The third wait of a request that is no INVITE, half a second doubled twice.
interval-new_example :
    (interval (new (some 500) false default_caps false) 3 ≡ some (from_millis 2000))
    × (interval (new (some 500) false default_caps false) 0 ≡ none)
interval-new_example = interval-new (some 500) false default_caps false 2 (omega arith)

past_the_cap : interval plan 10 ≡ none
unfolding interval allows wait
past_the_cap = refl
