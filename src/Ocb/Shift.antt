-- ===== src/Ocb/Shift.antt =====
-- `left_shift` by one bit, as `double_block` calls it.
use native.Mathlib.Nat.{pow-suc, mul-le-mul_right, mod-eq_of_lt, mod-eq-sub-mod, mod-lt, one-le-pow}
use mumble_web_demo.Prelude.{
  ℕ, zero, suc, ◌+◌, ◌-◌, ◌*◌, ◌/◌, ◌%◌, ◌^◌, ◌≤◌, ◌<◌, ◌≡◌, refl, sym, ap, ◌∙◌, bit_or, List, [],
  ◌∷◌, get_or, length, drop, All, IsByte, u8, ◌<<<◌, ◌>>>◌, arith, dec_lt,
}
use mumble_web_demo.Bits.{bit_or_fields}
use mumble_web_demo.Ocb.{shift_byte, shift_loop, left_shift}

-- The number that the bytes stand for, the highest first.
abbrev pub be_value : List ℕ → ℕ
be_value [] = 0
be_value (b ∷ bs) = b * 256 ^ length bs + be_value bs

below_byte : (b : ℕ) → b < 256 → b ≤ 255
below_byte b h = omega arith

be_value-lt : (bs : List ℕ) → All IsByte bs → be_value bs < 256 ^ length bs
be_value-lt [] h = omega arith
be_value-lt (b ∷ bs) h = omega (
  arith,
  be_value-lt bs h.1,
  mul-le-mul_right (256 ^ length bs) (below_byte b h.0),
  pow-suc 256 (length bs),
)

-- A byte `r` without its top bit and the number `v` of the bytes behind it, which are below `p`, doubled;
-- `c` is the carry from behind.
low_digit :
    (r c w p : ℕ)
    → r < 128
    → c < 2
    → w < p
    → (2 * (r * p) + (c * p + w)) % (256 * p) ≡ (r * 2 + c) * p + w
low_digit r c w p hr hc hw =
    let fits : r * 2 + c ≤ 255 = omega arith in
    let bound : (r * 2 + c) * p ≤ 255 * p = mul-le-mul_right p fits in
    let e : 2 * (r * p) + (c * p + w) ≡ (r * 2 + c) * p + w = omega arith in
    rw e (mod-eq_of_lt (omega (arith, bound)))

-- The same with the top bit, which goes out.
high_digit :
    (r c w p : ℕ)
    → r < 128
    → c < 2
    → w < p
    → (2 * ((128 + r) * p) + (c * p + w)) % (256 * p) ≡ (r * 2 + c) * p + w
high_digit r c w p hr hc hw =
    let le : 256 * p ≤ 2 * ((128 + r) * p) + (c * p + w) = omega arith in
    let e : 2 * ((128 + r) * p) + (c * p + w) - 256 * p ≡ 2 * (r * p) + (c * p + w) = omega arith in
    mod-eq-sub-mod le ∙ ap (λ (t : ℕ). t % (256 * p)) e ∙ low_digit r c w p hr hc hw

digit :
    (y c w p : ℕ)
    → y < 256
    → c < 2
    → w < p
    → (2 * (y * p) + (c * p + w)) % (256 * p) ≡ (y % 128 * 2 + c) * p + w
digit y c w p hy hc hw = elim (dec_lt y 128) [
  | yes low ↦
      let e : y % 128 ≡ y = omega arith in
      low_digit y c w p low hc hw ∙ ap (λ (t : ℕ). (t * 2 + c) * p + w) (sym e)
  | no high ↦
      let r : ℕ = y % 128 in
      let e : 128 + r ≡ y = omega arith in
      ap (λ (t : ℕ). (2 * (t * p) + (c * p + w)) % (256 * p)) (sym e)
      ∙ high_digit r c w p (omega arith) hc hw
]

-- What goes out of a byte `z` and the number `v` behind it is the top bit of `z`.
carry :
    (z v p : ℕ)
    → z < 256
    → v < p
    → 2 * (z * p + v) ≡ z / 128 * (256 * p) + (2 * (z * p + v)) % (256 * p)
carry z v p hz hv = elim (dec_lt z 128) [
  | yes low ↦
      let le : z ≤ 127 = omega arith in
      let bound : z * p ≤ 127 * p = mul-le-mul_right p le in
      let none_out : z / 128 ≡ 0 = omega arith in
      rw (none_out, mod-eq_of_lt {n = 2 * (z * p + v)} {m = 256 * p} (omega (arith, bound)))
        (omega arith)
  | no high ↦
      let le : 128 ≤ z = omega arith in
      let below : z ≤ 255 = omega arith in
      let lower : 128 * p ≤ z * p = mul-le-mul_right p le in
      let upper : z * p ≤ 255 * p = mul-le-mul_right p below in
      let one_out : z / 128 ≡ 1 = omega arith in
      let rest : (2 * (z * p + v)) % (256 * p) ≡ 2 * (z * p + v) - 256 * p =
        mod-eq-sub-mod {n = 2 * (z * p + v)} {m = 256 * p} (omega (arith, lower))
        ∙ mod-eq_of_lt (omega (arith, upper)) in
      rw (one_out, rest) (omega (arith, lower))
]

byte_lem : (y z : ℕ) → z < 256 → bit_or (u8 (y <<< 1)) (z >>> 7) ≡ y % 128 * 2 + z / 128
byte_lem y z h =
    let e : u8 (y <<< 1) ≡ y % 128 * 2 ^ 1 = omega arith in
    rw e (omega (arith, bit_or_fields 1 (y % 128) (z / 128) (omega (arith, h))))

get_or-drop : (xs : List ℕ) (i k : ℕ) → get_or xs (i + k) 0 ≡ get_or (drop i xs) k 0
get_or-drop xs zero k = ap (λ (t : ℕ). get_or xs t 0) (omega arith)
get_or-drop [] (suc i) k = refl
get_or-drop (x ∷ xs) (suc i) k =
    let e : suc i + k ≡ suc (i + k) = omega arith in rw e (get_or-drop xs i k)

drop-drop : (xs : List ℕ) (i : ℕ) → drop (i + 1) xs ≡ drop 1 (drop i xs)
drop-drop xs zero = refl
drop-drop [] (suc i) = let e : suc i + 1 ≡ suc (i + 1) = omega arith in rw e
drop-drop (x ∷ xs) (suc i) = let e : suc i + 1 ≡ suc (i + 1) = omega arith in rw e (drop-drop xs i)

length-shift_loop : (xs : List ℕ) (inl left i : ℕ) → length (shift_loop xs inl 1 left i) ≡ left
unfolding shift_loop
length-shift_loop xs inl zero i = refl
length-shift_loop xs inl (suc left) i = ap suc (length-shift_loop xs inl left (i + 1))

shift_byte_lem :
    (xs : List ℕ) (y z inl i : ℕ)
    → get_or xs (i + 0) 0 ≡ y
    → get_or xs (i + 0 + 1) 0 ≡ z
    → i + 1 < inl
    → z < 256
    → shift_byte xs inl 1 i ≡ y % 128 * 2 + z / 128
unfolding shift_byte
shift_byte_lem xs y z inl i here behind end h = ground (arith, here, behind, byte_lem y z h)

last_byte :
    (xs : List ℕ) (y inl i : ℕ)
    → get_or xs (i + 0) 0 ≡ y
    → i + 1 ≡ inl
    → shift_byte xs inl 1 i ≡ y % 128 * 2
unfolding shift_byte
last_byte xs y inl i here end = ground (arith, here)

-- The rounds of the loop from `i` on.
shift_loop_lem :
    (xs ys : List ℕ) (inl i : ℕ)
    → drop i xs ≡ ys
    → i + length ys ≡ inl
    → All IsByte ys
    → be_value (shift_loop xs inl 1 (length ys) i) ≡ (2 * be_value ys) % 256 ^ length ys
unfolding shift_loop
shift_loop_lem xs [] inl i at end h = omega arith
shift_loop_lem xs (y ∷ []) inl i at end h =
    let here : get_or xs (i + 0) 0 ≡ y = get_or-drop xs i 0 ∙ ap (λ t. get_or t 0 0) at in
    rw (last_byte xs y inl i here end) (omega arith)
shift_loop_lem xs (y ∷ z ∷ zs) inl i at end h =
    let here : get_or xs (i + 0) 0 ≡ y = get_or-drop xs i 0 ∙ ap (λ t. get_or t 0 0) at in
    let e : i + 0 + 1 ≡ i + 1 = omega arith in
    let behind : get_or xs (i + 0 + 1) 0 ≡ z =
      ap (λ (t : ℕ). get_or xs t 0) e ∙ get_or-drop xs i 1 ∙ ap (λ t. get_or t 1 0) at in
    let n = length zs in
    let p = 256 ^ suc n in
    let v = be_value (z ∷ zs) in
    let q : p ≡ 256 * 256 ^ n = omega (arith, pow-suc 256 n) in
    let q' : 256 ^ suc (suc n) ≡ 256 * p = omega (arith, pow-suc 256 (suc n)) in
    let w = (2 * v) % p in
    let small : w < p = mod-lt (2 * v) (omega (arith, q, one-le-pow n 256 (omega arith))) in
    let split : 2 * v ≡ z / 128 * p + w =
      rw q (carry z (be_value zs) (256 ^ n) h.1.0 (be_value-lt zs h.1.1)) in
    let ih : be_value (shift_loop xs inl 1 (suc n) (i + 1)) ≡ w =
      shift_loop_lem xs (z ∷ zs) inl (i + 1) (drop-drop xs i ∙ ap (drop 1) at) (omega (arith, end))
        h.1 in
    let total : 2 * (y * p + v) ≡ 2 * (y * p) + (z / 128 * p + w) = omega (arith, split) in
    let out : z / 128 < 2 = omega (arith, h.1.0) in
    let byte = shift_byte_lem xs y z inl i here behind (omega (arith, end)) h.1.0 in
    let many = length-shift_loop xs inl (suc n) (i + 1) in
    ap
      (λ (t : ℕ).
        t * 256 ^ length (shift_loop xs inl 1 (suc n) (i + 1))
        + be_value (shift_loop xs inl 1 (suc n) (i + 1)))
      byte
    ∙ ap
        (λ (t : ℕ).
          (y % 128 * 2 + z / 128) * 256 ^ t + be_value (shift_loop xs inl 1 (suc n) (i + 1)))
        many
    ∙ ap (λ (t : ℕ). (y % 128 * 2 + z / 128) * p + t) ih
    ∙ sym (digit y (z / 128) w p h.0 out small)
    ∙ ap (λ (t : ℕ). t % (256 * p)) (sym total)
    ∙ ap (λ (t : ℕ). (2 * (y * p + v)) % t) (sym q')

-- `left_shift` of an array of bytes by one bit doubles the number that the bytes stand for, the highest
-- first; what does not fit the array is lost.
pub be_value-left_shift :
    (xs : List ℕ)
    → All IsByte xs
    → be_value (left_shift xs (length xs) 1) ≡ (2 * be_value xs) % 256 ^ length xs
unfolding left_shift
be_value-left_shift xs h = shift_loop_lem xs xs (length xs) 0 refl (omega arith) h
