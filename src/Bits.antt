-- ===== src/Bits.antt =====
-- Laws of the bit operations at variables: fields that do not overlap, low masks, and exclusive or.
pub mod Digits
pub mod Masks
use Digits.{halving, bit_and_step, bit_or_step, bit_xor_step}
use Prim.Native.Nat.{bit_or-bitwise, bit_xor-bitwise}
use native.Mathlib.Nat.{pow-suc, one-le-pow, div-add-mod, div-div-eq-div-mul}
use mumble_web_demo.Prelude.{
  ℕ, zero, suc, ◌+◌, ◌-◌, ◌*◌, ◌/◌, ◌%◌, ◌^◌, ◌≤◌, ◌<◌, bit_and, bit_or, bit_xor, ◌≡◌, refl, sym,
  ◌∙◌, ap, arith,
}

pub bit_or-zero : (a : ℕ) → bit_or a 0 ≡ a
bit_or-zero = halving (λ n. bit_or n 0 ≡ n) refl (λ n ih. omega (arith, bit_or_step (suc n) 0, ih))

pub bit_and-zero : (a : ℕ) → bit_and a 0 ≡ 0
bit_and-zero =
    halving (λ n. bit_and n 0 ≡ 0) refl (λ n ih. omega (arith, bit_and_step (suc n) 0, ih))

pub bit_xor-zero : (a : ℕ) → bit_xor a 0 ≡ a
bit_xor-zero =
    halving (λ n. bit_xor n 0 ≡ n) refl (λ n ih. omega (arith, bit_xor_step (suc n) 0, ih))

pub zero-bit_xor : (b : ℕ) → bit_xor 0 b ≡ b
zero-bit_xor b = bit_xor-bitwise 0 b

pub bit_xor_comm : (a b : ℕ) → bit_xor a b ≡ bit_xor b a
bit_xor_comm a =
    halving (λ a. (b : ℕ) → bit_xor a b ≡ bit_xor b a) (λ b. zero-bit_xor b ∙ sym (bit_xor-zero b))
      (λ n ih b. omega (arith, bit_xor_step (suc n) b, bit_xor_step b (suc n), ih (b / 2))) a

pub bit_xor_self : (a : ℕ) → bit_xor a a ≡ 0
bit_xor_self =
    halving (λ n. bit_xor n n ≡ 0) refl (λ n ih. omega (arith, bit_xor_step (suc n) (suc n), ih))

half-bit_xor : (a b : ℕ) → bit_xor a b / 2 ≡ bit_xor (a / 2) (b / 2)
half-bit_xor a b = omega (arith, bit_xor_step a b)

parity-bit_xor : (a b : ℕ) → bit_xor a b % 2 ≡ (a % 2 + b % 2) % 2
parity-bit_xor a b = omega (arith, bit_xor_step a b)

pub bit_xor_assoc : (a b c : ℕ) → bit_xor (bit_xor a b) c ≡ bit_xor a (bit_xor b c)
bit_xor_assoc a =
    halving (λ a. (b c : ℕ) → bit_xor (bit_xor a b) c ≡ bit_xor a (bit_xor b c))
      (λ b c. rw (zero-bit_xor b, zero-bit_xor (bit_xor b c)))
      (λ n ih b c.
        rw
          (
            bit_xor_step (bit_xor (suc n) b) c,
            bit_xor_step (suc n) (bit_xor b c),
            half-bit_xor,
            half-bit_xor b c,
            ih (b / 2) (c / 2),
          )
          (omega (arith, parity-bit_xor (suc n) b, parity-bit_xor b c)))
      a

-- Exclusive or undoes itself.
pub bit_xor_cancel : (a b : ℕ) → bit_xor (bit_xor a b) b ≡ a
bit_xor_cancel a b = rw (bit_xor_assoc a b b, bit_xor_self b) (bit_xor-zero a)

pub bit_xor_cancel_left : (a b : ℕ) → bit_xor a (bit_xor a b) ≡ b
bit_xor_cancel_left a b = rw (← bit_xor_assoc a a b, bit_xor_self a) (zero-bit_xor b)

pub zero-bit_or : (b : ℕ) → bit_or 0 b ≡ b
zero-bit_or b = bit_or-bitwise 0 b

pub bit_or_comm : (a b : ℕ) → bit_or a b ≡ bit_or b a
bit_or_comm a =
    halving (λ a. (b : ℕ) → bit_or a b ≡ bit_or b a) (λ b. zero-bit_or b ∙ sym (bit_or-zero b))
      (λ n ih b. omega (arith, bit_or_step (suc n) b, bit_or_step b (suc n), ih (b / 2))) a

pub two-pow-suc : (k : ℕ) → 2 ^ suc k ≡ 2 * 2 ^ k
two-pow-suc k = omega (arith, pow-suc 2 k)

pub bit_xor-lt : (k a b : ℕ) → a < 2 ^ k → b < 2 ^ k → bit_xor a b < 2 ^ k
bit_xor-lt zero a b ha hb =
    let ea : a ≡ 0 = omega arith in let eb : b ≡ 0 = omega arith in rw (ea, eb) (omega arith)
bit_xor-lt (suc k) a b ha hb = omega (
  arith,
  bit_xor_step a b,
  two-pow-suc k,
  bit_xor-lt k (a / 2) (b / 2) (omega (arith, two-pow-suc k)) (omega (arith, two-pow-suc k)),
)

pub bit_or-lt : (k a b : ℕ) → a < 2 ^ k → b < 2 ^ k → bit_or a b < 2 ^ k
bit_or-lt zero a b ha hb =
    let ea : a ≡ 0 = omega arith in let eb : b ≡ 0 = omega arith in rw (ea, eb) (omega arith)
bit_or-lt (suc k) a b ha hb = omega (
  arith,
  bit_or_step a b,
  two-pow-suc k,
  bit_or-lt k (a / 2) (b / 2) (omega (arith, two-pow-suc k)) (omega (arith, two-pow-suc k)),
)

pub bit_and-lt : (k a b : ℕ) → a < 2 ^ k → bit_and a b < 2 ^ k
bit_and-lt zero a b ha = let ea : a ≡ 0 = omega arith in rw ea (omega (arith, zero_and b))
  where
    zero_and : (b : ℕ) → bit_and 0 b ≡ 0
    zero_and =
        halving (λ n. bit_and 0 n ≡ 0) refl (λ n ih. omega (arith, bit_and_step 0 (suc n), ih))
bit_and-lt (suc k) a b ha = omega (
  arith,
  bit_and_step a b,
  two-pow-suc k,
  bit_and-lt k (a / 2) (b / 2) (omega (arith, two-pow-suc k)),
)

-- Blocks above bit `k` are joined apart from what one of the numbers has below it.
pub bit_or_blocks :
    (k a b r : ℕ) → r < 2 ^ k → bit_or (a * 2 ^ k) (b * 2 ^ k + r) ≡ bit_or a b * 2 ^ k + r
bit_or_blocks zero a b r h =
    let ea : a * 2 ^ zero ≡ a = omega arith in
    let eb : b * 2 ^ zero + r ≡ b = omega arith in rw (ea, eb) (omega arith)
bit_or_blocks (suc k) a b r h =
    let ha : a * 2 ^ suc k / 2 ≡ a * 2 ^ k = omega (arith, scaled a) in
    let hb : (b * 2 ^ suc k + r) / 2 ≡ b * 2 ^ k + r / 2 = omega (arith, scaled b) in
    rw (bit_or_step (a * 2 ^ suc k) (b * 2 ^ suc k + r), ha, hb)
      (omega (
        arith,
        scaled a,
        scaled b,
        scaled (bit_or a b),
        bit_or_blocks k a b (r / 2) (omega (arith, two-pow-suc k)),
      ))
  where
    scaled : (q : ℕ) → q * 2 ^ suc k ≡ q * 2 ^ k * 2
    scaled q = omega (arith, ap (λ (t : ℕ). q * t) (two-pow-suc k))

-- A field shifted past `r` joins it as a sum.
pub bit_or_fields : (k q r : ℕ) → r < 2 ^ k → bit_or (q * 2 ^ k) r ≡ q * 2 ^ k + r
bit_or_fields k q r h =
    let e : 0 * 2 ^ k + r ≡ r = omega arith in rw (e, bit_or-zero q) at (bit_or_blocks k q 0 r h)

-- A number joined to ones is all ones.
pub bit_or_ones : (k a : ℕ) → a < 2 ^ k → bit_or a (2 ^ k - 1) ≡ 2 ^ k - 1
bit_or_ones zero a h = let e : a ≡ 0 = omega arith in rw e
bit_or_ones (suc k) a h =
    let half : (2 ^ suc k - 1) / 2 ≡ 2 ^ k - 1 = omega (arith, two-pow-suc k, pos) in
    rw (bit_or_step a (2 ^ suc k - 1), half)
      (omega (arith, two-pow-suc k, pos, bit_or_ones k (a / 2) (omega (arith, two-pow-suc k))))
  where
    pos : 1 ≤ 2 ^ k
    pos = one-le-pow k 2 (omega arith)

pub bit_or_fields_right : (k q r : ℕ) → r < 2 ^ k → bit_or r (q * 2 ^ k) ≡ q * 2 ^ k + r
bit_or_fields_right k q r h = bit_or_comm r (q * 2 ^ k) ∙ bit_or_fields k q r h

mod-double : (a p : ℕ) → 0 < p → a % (2 * p) ≡ a / 2 % p * 2 + a % 2
mod-double a p h = grind (arith, div-add-mod (a / 2) p)

-- A mask of the `k` lowest bits is the remainder by `2 ^ k`.
pub bit_and_mask : (k a : ℕ) → bit_and a (2 ^ k - 1) ≡ a % 2 ^ k
bit_and_mask zero a = bit_and-zero a ∙ omega arith
bit_and_mask (suc k) a =
    let half : (2 ^ suc k - 1) / 2 ≡ 2 ^ k - 1 =
      omega (arith, two-pow-suc k, one-le-pow k 2 (omega arith)) in
    rw (bit_and_step a (2 ^ suc k - 1), half, bit_and_mask k (a / 2))
      (rw (two-pow-suc k, mod-double a (2 ^ k) (one-le-pow k 2 (omega arith)))
        (omega (arith, two-pow-suc k, one-le-pow k 2 (omega arith))))

-- A mask of one bit.
pub bit_and_bit : (k a : ℕ) → bit_and a (2 ^ k) ≡ a / 2 ^ k % 2 * 2 ^ k
bit_and_bit zero a = bit_and_mask 1 a ∙ omega arith
bit_and_bit (suc k) a =
    let half : 2 ^ suc k / 2 ≡ 2 ^ k = omega (arith, two-pow-suc k) in
    let quotient : a / 2 ^ suc k ≡ a / 2 / 2 ^ k =
      rw (two-pow-suc k) (sym (div-div-eq-div-mul a 2 (2 ^ k))) in
    rw (bit_and_step a (2 ^ suc k), half, bit_and_bit k (a / 2), quotient)
      (rw (two-pow-suc k) (ground arith))
