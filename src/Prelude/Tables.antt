-- ===== src/Prelude/Tables.antt =====
-- Two functions that agree on a small range, checked value by value.
use Prim.Native.Nat.{ℕ, zero, suc, ◌<◌}
use mathlib.Core.Path.{◌≡◌}
use mathlib.Core.Bool.{Bool, true, ◌&&◌}
use native.Mathlib.Omega.{arith}
use mumble_web_demo.Prelude.Tests.{◌==◌}

-- Do `f` and `g` agree at all numbers below `n`?
unfoldable pub agree : (ℕ → ℕ) → (ℕ → ℕ) → ℕ → Bool
agree f g zero = true
agree f g (suc n) = (f n == g n) && agree f g n

pub agree-eq : (f g : ℕ → ℕ) (n : ℕ) → agree f g n ≡ true → (i : ℕ) → i < n → f i ≡ g i
unfolding agree
agree-eq f g zero h i lt = absurd (omega arith)
agree-eq f g (suc n) h i lt = ground (arith, agree-eq f g n (ground arith) i)
