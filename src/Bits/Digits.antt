-- ===== src/Bits/Digits.antt =====
-- The bit operations, one binary digit at a time.
use Prim.Native.Nat.{max, differ, digits, bitwise, bit_and-bitwise, bit_or-bitwise, bit_xor-bitwise}
use mumble_web_demo.Prelude.{
  ℕ, zero, suc, ◌+◌, ◌*◌, ◌/◌, ◌%◌, ◌≤◌, ◌<◌, min, bit_and, bit_or, bit_xor, ◌≡◌, refl, ap, arith,
}

-- Induction that goes from half a number to the number.
module _ {ℓ} (P : ℕ → Type ℓ) (base : P 0) (double : (n : ℕ) → P (suc n / 2) → P (suc n)) where
  halving_below : (bound n : ℕ) → n ≤ bound → P n
  halving_below bound zero h = base
  halving_below zero (suc n) h = absurd (omega arith)
  halving_below (suc bound) (suc n) h = double n (halving_below bound (suc n / 2) (omega arith))

  pub halving : (n : ℕ) → P n
  halving n = halving_below n n (omega arith)

module _ (spare : ℕ → ℕ) (op : ℕ → ℕ → ℕ) where
  -- Fuel beyond the first number changes nothing.
  digits_spare : (n m x y : ℕ) → x ≤ n → n ≤ m → digits spare op m x y ≡ digits spare op n x y
  digits_spare zero zero zero y h le = refl
  digits_spare zero (suc m) zero y h le = refl
  digits_spare zero m (suc x) y h le = absurd (omega arith)
  digits_spare (suc n) zero x y h le = absurd (omega arith)
  digits_spare (suc n) (suc m) zero y h le = refl
  digits_spare (suc n) (suc m) (suc x) y h le =
      ap (λ (t : ℕ). t * 2 + op (suc x % 2) (y % 2))
        (digits_spare n m (suc x / 2) (y / 2) (omega arith) (omega arith))

  bitwise-digit :
      (x y : ℕ)
      → bitwise spare op (suc x) y
        ≡ bitwise spare op (suc x / 2) (y / 2) * 2 + op (suc x % 2) (y % 2)
  bitwise-digit x y =
      ap (λ (t : ℕ). t * 2 + op (suc x % 2) (y % 2))
        (digits_spare (suc x / 2) x (suc x / 2) (y / 2) (omega arith) (omega arith))

pub bit_and_step : (x y : ℕ) → bit_and x y ≡ bit_and (x / 2) (y / 2) * 2 + min (x % 2) (y % 2)
bit_and_step zero y = rw (bit_and-bitwise 0 y, bit_and-bitwise 0 (y / 2)) (omega arith)
bit_and_step (suc x) y =
    rw (bit_and-bitwise (suc x) y, bit_and-bitwise (suc x / 2) (y / 2))
      (bitwise-digit (λ _. 0) min x y)

pub bit_or_step : (x y : ℕ) → bit_or x y ≡ bit_or (x / 2) (y / 2) * 2 + max (x % 2) (y % 2)
bit_or_step zero y = rw (bit_or-bitwise 0 y, bit_or-bitwise 0 (y / 2)) (omega arith)
bit_or_step (suc x) y =
    rw (bit_or-bitwise (suc x) y, bit_or-bitwise (suc x / 2) (y / 2))
      (bitwise-digit (λ k. k) max x y)

differ_parity : (x y : ℕ) → x < 2 → y < 2 → differ x y ≡ (x + y) % 2
differ_parity zero y hx hy = omega arith
differ_parity (suc zero) zero hx hy = omega arith
differ_parity (suc zero) (suc zero) hx hy = omega arith
differ_parity (suc zero) (suc (suc y)) hx hy = absurd (omega arith)
differ_parity (suc (suc x)) y hx hy = absurd (omega arith)

pub bit_xor_step : (x y : ℕ) → bit_xor x y ≡ bit_xor (x / 2) (y / 2) * 2 + (x % 2 + y % 2) % 2
bit_xor_step zero y = rw (bit_xor-bitwise 0 y, bit_xor-bitwise 0 (y / 2)) (omega arith)
bit_xor_step (suc x) y =
    rw (bit_xor-bitwise (suc x) y, bit_xor-bitwise (suc x / 2) (y / 2))
      (rw (← differ_parity (suc x % 2) (y % 2) (omega arith) (omega arith))
        (bitwise-digit (λ k. k) differ x y))
