-- ===== src/Common/Tables.antt =====
-- Facts about small numbers, checked value by value.
use Prim.Native.Nat.{ℕ, zero, suc, ◌<◌}
use mathlib.Core.Bool.{Bool, true, false}
use mathlib.Core.Path.{◌≡◌}
use native.Mathlib.Omega.{arith}
use sipr.Common.Tests.{if◌then◌else◌}

unfoldable pub holds_below : (ℕ → Bool) → ℕ → Bool
holds_below test zero = true
holds_below test (suc last) = if test last then holds_below test last else false

-- A test that every number below `size` passes, at one of them.
pub holds_below-at :
    (test : ℕ → Bool) {size : ℕ} (i : ℕ) → i < size → holds_below test size ≡ true → test i ≡ true
unfolding holds_below
holds_below-at test {size = zero} i small passed = absurd (omega arith)
holds_below-at test {size = suc last} i small passed =
    ground (arith, holds_below-at test {size = last} i)
