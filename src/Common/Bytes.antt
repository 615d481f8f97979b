-- ===== src/Common/Bytes.antt =====
-- Facts about the 256 values of an `unsigned char`, by evaluation at each.
use Prim.Native.Nat.{ℕ, zero, suc, ◌<◌}
use mathlib.Core.Path.{◌≡◌}
use mathlib.Core.Bool.{Bool, true, ◌&&◌}
use native.Mathlib.Omega.{arith}

unfoldable pub holds_below : ℕ → (ℕ → Bool) → Bool
holds_below zero test = true
holds_below (suc n) test = holds_below n test && test n

pub holds_below-at :
    (n : ℕ) (test : ℕ → Bool) (x : ℕ) → holds_below n test ≡ true → x < n → test x ≡ true
unfolding holds_below
holds_below-at zero test x h lt = absurd (omega arith)
holds_below-at (suc n) test x h lt = ground (arith, holds_below-at n test x)
