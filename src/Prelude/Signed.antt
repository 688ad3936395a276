-- ===== src/Prelude/Signed.antt =====
-- Conversions of `int`, and the asserts on what a call returns.
use Prim.Native.Nat.{ℕ, zero, suc, ◌+◌, ◌-◌, ◌*◌, ◌%◌, ◌^◌, ◌<◌}
use mathlib.Core.Path.{◌≡◌, refl}
use native.Mathlib.Omega.{arith}
use mathlib.Core.Option.{Option, none, some}
use mumble_web_demo.Prelude.Int.{ℤ, pos, negsuc, pos_part, ◌-ℤ◌}
use mumble_web_demo.Prelude.Results.{Outcome, done, abort}

-- an `int` as a uint64_t
abbrev pub of_int : ℤ → ℕ
of_int (pos n) = n
of_int (negsuc n) = 2 ^ 64 - suc n

-- an `int` as an `unsigned char`
abbrev pub uchar : ℤ → ℕ
uchar (pos n) = n % 256
uchar (negsuc n) = 255 - n % 256

-- `sizeof(opus_int16) * n` as an `int`
abbrev pub twice : ℤ → ℤ
twice (pos n) = pos (2 * n)
twice (negsuc n) = negsuc (2 * n + 1)

-- `assert(n > 0)`, and the value
abbrev pub positive : ℤ → Outcome ℕ
positive (pos zero) = abort
positive (pos (suc n)) = done (suc n)
positive (negsuc n) = abort

-- `assert(p != NULL)`, and what it points to
abbrev pub or_abort {ℓ} : {A : Type ℓ} → Option A → Outcome A
or_abort none = abort
or_abort (some a) = done a

pub positive_lem : (z : ℤ) → 0 < pos_part z → positive z ≡ done (pos_part z)
positive_lem (pos zero) h = absurd (omega arith)
positive_lem (pos (suc n)) h = refl
positive_lem (negsuc n) h = absurd (omega arith)

pub positive-abort : (z : ℤ) → pos_part z ≡ 0 → positive z ≡ abort
positive-abort (pos zero) h = refl
positive-abort (pos (suc n)) h = absurd (omega arith)
positive-abort (negsuc n) h = refl

-- What is left of a length behind a front.
pub remaining : (m k n : ℕ) → n ≡ m + k → (pos n -ℤ pos m) ≡ pos k
unfolding ◌-ℤ◌
remaining m k n h = ground (arith, h)
