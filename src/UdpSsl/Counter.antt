-- ===== src/UdpSsl/Counter.antt =====
-- `increment_iv` as a counter in little-endian order.
use native.Mathlib.Nat.{pow-suc}
use mumble_web_demo.Prelude.{
  ℕ, zero, suc, ◌+◌, ◌*◌, ◌^◌, ◌<◌, ◌≡◌, ◌⊎◌, refl, List, [], ◌∷◌, length, All, IsByte, arith,
}
use mumble_web_demo.Ocb.{IsBlock}
use mumble_web_demo.UdpSsl.{increment_iv}

-- The number that the bytes stand for, the lowest first.
abbrev pub value : List ℕ → ℕ
value [] = 0
value (b ∷ bs) = b + 256 * value bs

pub increment-IsByte :
    (iv : List ℕ) (len : ℕ)
    → All IsByte iv
    → All IsByte (increment_iv iv len) × (length (increment_iv iv len) ≡ length iv)
unfolding increment_iv
increment-IsByte iv zero h = (h, refl)
increment-IsByte [] (suc len) h = (tt, refl)
increment-IsByte (b ∷ iv) (suc len) h =
    let rest = increment-IsByte iv len h.1 in ground (arith, rest, h)

pub increment-IsBlock : (iv : List ℕ) (len : ℕ) → IsBlock iv → IsBlock (increment_iv iv len)
increment-IsBlock iv len h =
    let r = increment-IsByte iv len h.bytes in
    record { size = omega (arith, r.1, h.size); bytes = r.0 }

value-lt : (iv : List ℕ) → All IsByte iv → value iv < 256 ^ length iv
value-lt [] h = omega arith
value-lt (b ∷ iv) h = omega (arith, value-lt iv h.1, h.0, pow-suc 256 (length iv))

-- As a number in little-endian order, the bytes of a counter grow by one in `increment_iv`, and
-- start again from 0 behind the greatest.
pub value-increment_iv :
    (iv : List ℕ)
    → All IsByte iv
    → ((value iv + 1 < 256 ^ length iv) × (value (increment_iv iv (length iv)) ≡ value iv + 1))
      ⊎ ((value iv + 1 ≡ 256 ^ length iv) × (value (increment_iv iv (length iv)) ≡ 0))
unfolding increment_iv
value-increment_iv [] h = ground arith
value-increment_iv (b ∷ iv) h =
    let p : 256 ^ suc (length iv) ≡ 256 * 256 ^ length iv =
      omega (arith, pow-suc 256 (length iv)) in
    ground (arith, p, h.0, value-lt iv h.1, value-increment_iv iv h.1)
