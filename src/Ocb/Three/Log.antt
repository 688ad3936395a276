-- ===== src/Ocb/Three/Log.antt =====
-- `ntz` of ocb_aes.c is the logarithm of base 2, rounded down.
use mumble_web_demo.Prelude.{
  ℕ, zero, suc, ◌+◌, ◌-◌, ◌*◌, ◌/◌, ◌%◌, ◌^◌, ◌≤◌, ◌<◌, ◌≡◌, ◌≢◌, refl, sym, ap, ◌∙◌, bit_and,
  bit_or, ◌==◌, false, arith, dec_lt,
}
use native.Mathlib.Nat.{
  div-div-eq-div-mul, one-le-pow, div-mul-le_self, lt-div-mul-add, div-eq_of_lt, le-div_iff_mul-le,
  div-lt_iff_lt-mul, mod-eq_of_lt, mul-pos,
}
use mumble_web_demo.Bits.{bit_and_mask, bit_or_fields, two-pow-suc}
use mumble_web_demo.Bits.Digits.{bit_and_step}
use mumble_web_demo.Ocb.Three.{ntz, ntz_round}

pow_add : (a b : ℕ) → 2 ^ (a + b) ≡ 2 ^ a * 2 ^ b
pow_add zero b = let e : zero + b ≡ b = omega arith in rw e (omega arith)
pow_add (suc a) b =
    let e : suc a + b ≡ suc (a + b) = omega arith in
    rw (e, two-pow-suc (a + b), pow_add a b, two-pow-suc a) (grind arith)

nonzero : (x : ℕ) → x ≢ 0 → (x == 0) ≡ false
nonzero x h = ground (arith, h)

-- A mask of `m` bits from bit `k` on.
bit_and_field : (k m a : ℕ) → bit_and a ((2 ^ m - 1) * 2 ^ k) ≡ a / 2 ^ k % 2 ^ m * 2 ^ k
bit_and_field zero m a =
    let e : (2 ^ m - 1) * 2 ^ 0 ≡ 2 ^ m - 1 = omega arith in
    let whole : a / 2 ^ 0 ≡ a = omega arith in rw (e, whole) (bit_and_mask m a ∙ omega arith)
bit_and_field (suc k) m a =
    let p = two-pow-suc k in
    let mask = (2 ^ m - 1) * 2 ^ suc k in
    let half : mask / 2 ≡ (2 ^ m - 1) * 2 ^ k = rw p (grind arith) in
    let even : mask % 2 ≡ 0 = rw p (grind arith) in
    let quotient : a / 2 ^ suc k ≡ a / 2 / 2 ^ k = rw p (sym (div-div-eq-div-mul a 2 (2 ^ k))) in
    rw (bit_and_step a mask, half, even, bit_and_field k m (a / 2), quotient, p) (grind arith)

-- The mask of a round of `ntz`: it meets the numbers from 2 ^ 2 ^ k on.
record IsMask (k mask : ℕ) : Type 0 where
  misses : (i : ℕ) → i < 2 ^ (2 ^ k) → bit_and i mask ≡ 0
  meets : (i : ℕ) → 2 ^ (2 ^ k) ≤ i → i < 2 ^ (2 ^ suc k) → bit_and i mask ≢ 0
  halves : (i : ℕ) → i < 2 ^ (2 ^ suc k) → i / 2 ^ (2 ^ k) < 2 ^ (2 ^ k)
  starts : (i : ℕ) → 2 ^ (2 ^ k) ≤ i → 0 < i / 2 ^ (2 ^ k)

-- `i` is what is left of `n` behind `out` binary digits, and is less than 2 ^ 2 ^ k.
record Left (n k : ℕ) (x : ℕ × ℕ) : Type 0 where
  quotient : x.0 ≡ n / 2 ^ x.1
  positive : 0 < x.0
  small : x.0 < 2 ^ (2 ^ k)
  count : ℕ
  aligned : x.1 ≡ count * 2 ^ k

round_lem :
    (n k mask i out : ℕ)
    → IsMask k mask
    → Left n (suc k) (i, out)
    → Left n k (ntz_round mask (2 ^ k) (i, out))
unfolding ntz_round
round_lem n k mask i out m l = elim (dec_lt i (2 ^ (2 ^ k))) [
  | yes low ↦ rw (m.misses i low) (record {
    quotient = l.quotient;
    positive = l.positive;
    small = low;
    count = 2 * l.count;
    aligned = rw (two-pow-suc k) at l.aligned ∙ grind arith;
  })
  | no high ↦
      let width = 2 ^ k in
      let twice = two-pow-suc k in
      let joined : bit_or out width ≡ out + width = rw (l.aligned) (
        bit_or_fields (suc k) l.count width (omega (arith, twice, one-le-pow k 2 (omega arith)))) in
      let e : ntz_round mask width (i, out) ≡ (i / 2 ^ width, out + width) =
        rw (nonzero (bit_and i mask) (m.meets i (omega (arith, high)) l.small), joined) refl in
      rw e (record {
        quotient =
            ap (λ (t : ℕ). t / 2 ^ width) l.quotient
            ∙ div-div-eq-div-mul n (2 ^ out) (2 ^ width)
            ∙ ap (λ (t : ℕ). n / t) (sym (pow_add out width));
        positive = m.starts i (omega (arith, high));
        small = m.halves i l.small;
        count = 2 * l.count + 1;
        aligned = let a = rw twice at l.aligned in grind (arith, a);
      })
]

mask_lem : (k mask : ℕ) → mask ≡ (2 ^ (2 ^ k) - 1) * 2 ^ (2 ^ k) → IsMask k mask
mask_lem k mask e = record {
  misses = λ i h. field i ∙ rw (div-eq_of_lt h, mod-eq_of_lt pos) (omega arith);
  meets = λ i h b z. absurd (not_zero i h b z);
  halves = halves';
  starts = starts';
}
  where
    p : ℕ
    p = 2 ^ (2 ^ k)

    pos : 0 < p
    pos = one-le-pow (2 ^ k) 2 (omega arith)

    square : 2 ^ (2 ^ suc k) ≡ p * p
    square =
        let d : 2 ^ suc k ≡ 2 ^ k + 2 ^ k = omega (arith, two-pow-suc k) in
        rw d (pow_add (2 ^ k) (2 ^ k))

    field : (i : ℕ) → bit_and i mask ≡ i / p % p * p
    field i = rw e (bit_and_field (2 ^ k) (2 ^ k) i)

    starts' : (i : ℕ) → p ≤ i → 0 < i / p
    starts' i h = (le-div_iff_mul-le pos).1 (omega (arith, h))

    halves' : (i : ℕ) → i < 2 ^ (2 ^ suc k) → i / p < p
    halves' i h = (div-lt_iff_lt-mul pos).1 (rw square at h)

    not_zero : (i : ℕ) → p ≤ i → i < 2 ^ (2 ^ suc k) → bit_and i mask ≢ 0
    not_zero i h b z =
        let q : i / p % p ≡ i / p = mod-eq_of_lt (halves' i b) in
        let product : i / p * p ≡ 0 = rw (← q) (sym (field i) ∙ z) in
        omega (arith, product, mul-pos (starts' i h) pos)

bounds : (i out q : ℕ) → q ≡ i / 2 ^ out → q ≡ 1 → (2 ^ out ≤ i) × (i < 2 ^ suc out)
bounds i out q e one =
    let p = 2 ^ out in
    let pos : 0 < p = one-le-pow out 2 (omega arith) in
    let unit : i / p ≡ 1 = sym e ∙ one in
    (
      grind (arith, div-mul-le_self i p, unit),
      rw (two-pow-suc out) (grind (arith, lt-div-mul-add {a = i} {b = p} pos, unit)),
    )

-- For an `int` above 0, `ntz` is its logarithm of base 2, rounded down: the number of its
-- highest bit, not of its lowest.
pub ntz-bounds : (i : ℕ) → 0 < i → i < 2 ^ 31 → (2 ^ ntz i ≤ i) × (i < 2 ^ suc (ntz i))
unfolding ntz
ntz-bounds i some small =
    let l5 : Left i 5 (i, 0) = record {
      quotient = omega arith;
      positive = some;
      small = omega arith;
      count = 0;
      aligned = refl;
    } in
    let l4 = round_lem i 4 0xFFFF0000 _ _ (mask_lem 4 0xFFFF0000 refl) l5 in
    let l3 = round_lem i 3 0xFF00 _ _ (mask_lem 3 0xFF00 refl) l4 in
    let l2 = round_lem i 2 0xF0 _ _ (mask_lem 2 0xF0 refl) l3 in
    let l1 = round_lem i 1 0xC _ _ (mask_lem 1 0xC refl) l2 in
    let l0 = round_lem i 0 0x2 _ _ (mask_lem 0 0x2 refl) l1 in
    bounds i _ _ l0.quotient (omega (arith, l0.positive, l0.small))
