-- ===== src/Varint/Words.antt =====
-- The words of four and of eight bytes that `varint_decode` reads, in lib/mumble/util.c.
use mumble_web_demo.Prelude.{
  ℕ, ◌+◌, ◌-◌, ◌*◌, ◌^◌, ◌<◌, ◌≡◌, refl, List, [], ◌∷◌, done, IsByte, sign_extend32, ltb, u32, All,
  bit_or, if◌then◌else◌, arith, ◌<<<◌,
}
use mumble_web_demo.Prelude.Int.{pos}
use mumble_web_demo.Bits.{bit_or_fields, bit_or_blocks, bit_or_ones}
use mumble_web_demo.Varint.{decode32, decode64}

-- Three bytes, the highest first.
abbrev pub from_be24 : ℕ → ℕ → ℕ → ℕ
from_be24 a b c = a * 2 ^ 16 + b * 2 ^ 8 + c

-- The four bytes are read as an `int`.
pub decode32_lem :
    (b b1 b2 b3 b4 : ℕ) (rest : List ℕ)
    → IsByte b1
    → IsByte b2
    → IsByte b3
    → IsByte b4
    → decode32 (b ∷ b1 ∷ b2 ∷ b3 ∷ b4 ∷ rest)
      ≡ done (record { ret = pos 5; result = sign_extend32 (b1 * 2 ^ 24 + from_be24 b2 b3 b4) })
unfolding decode32
decode32_lem b b1 b2 b3 b4 rest h1 h2 h3 h4 = ground (
  arith,
  bit_or_fields 24 b1 (b2 * 2 ^ 16),
  bit_or_fields 16 (b1 * 2 ^ 8 + b2) (b3 * 2 ^ 8),
  bit_or_fields 8 ((b1 * 2 ^ 8 + b2) * 2 ^ 8 + b3) b4,
)

-- Eight bytes are read as two 32-bit halves; the low half is joined as an `int`, so if its top bit is
-- set it puts ones into the high half.
unfoldable pub join_halves : ℕ → ℕ → ℕ
join_halves high low = if ltb low (2 ^ 31) then high * 2 ^ 32 + low else sign_extend32 low

-- The operands of `|` up to the fifth byte.
join_fifth :
    (high b5 : ℕ)
    → high < 2 ^ 32
    → IsByte b5
    → bit_or (high * 2 ^ 32) (sign_extend32 (u32 (b5 * 2 ^ 24))) ≡ join_halves high (b5 * 2 ^ 24)
unfolding join_halves
join_fifth high b5 hh h5 = ground (
  arith,
  bit_or_fields 32 high (b5 * 2 ^ 24),
  bit_or_blocks 32 high (2 ^ 32 - 1) (b5 * 2 ^ 24),
  bit_or_ones 32 high,
)

or_bytes :
    (x a b c : ℕ)
    → IsByte a
    → IsByte b
    → IsByte c
    → bit_or (bit_or (bit_or (x * 2 ^ 24) (a <<< 16)) (b <<< 8)) c ≡ x * 2 ^ 24 + from_be24 a b c
or_bytes x a b c ha hb hc = ground (
  arith,
  bit_or_fields 24 x (a * 2 ^ 16),
  bit_or_fields 16 (x * 2 ^ 8 + a) (b * 2 ^ 8),
  bit_or_fields 8 ((x * 2 ^ 8 + a) * 2 ^ 8 + b) c,
)

high_word :
    (b1 b2 b3 b4 : ℕ)
    → IsByte b2
    → IsByte b3
    → IsByte b4
    → bit_or (bit_or (bit_or (b1 <<< 56) (b2 <<< 48)) (b3 <<< 40)) (b4 <<< 32)
      ≡ (b1 * 2 ^ 24 + from_be24 b2 b3 b4) * 2 ^ 32
high_word b1 b2 b3 b4 h2 h3 h4 = ground (
  arith,
  bit_or_fields 56 b1 (b2 * 2 ^ 48),
  bit_or_fields 48 (b1 * 2 ^ 8 + b2) (b3 * 2 ^ 40),
  bit_or_fields 40 ((b1 * 2 ^ 8 + b2) * 2 ^ 8 + b3) (b4 * 2 ^ 32),
)

low_word :
    (high b5 b6 b7 b8 : ℕ)
    → high < 2 ^ 32
    → IsByte b5
    → IsByte b6
    → IsByte b7
    → IsByte b8
    → bit_or (bit_or (bit_or (join_halves high (b5 * 2 ^ 24)) (b6 <<< 16)) (b7 <<< 8)) b8
      ≡ join_halves high (b5 * 2 ^ 24 + from_be24 b6 b7 b8)
unfolding join_halves
low_word high b5 b6 b7 b8 hh h5 h6 h7 h8 =
    ground
      (arith, or_bytes (high * 2 ^ 8 + b5) b6 b7 b8, or_bytes ((2 ^ 32 - 1) * 2 ^ 8 + b5) b6 b7 b8)

pub decode64_lem :
    (b b1 b2 b3 b4 b5 b6 b7 b8 : ℕ) (rest : List ℕ)
    → All IsByte (b1 ∷ b2 ∷ b3 ∷ b4 ∷ b5 ∷ b6 ∷ b7 ∷ b8 ∷ [])
    → decode64 (b ∷ b1 ∷ b2 ∷ b3 ∷ b4 ∷ b5 ∷ b6 ∷ b7 ∷ b8 ∷ rest)
      ≡ done (record {
        ret = pos 9;
        result = join_halves (b1 * 2 ^ 24 + from_be24 b2 b3 b4) (b5 * 2 ^ 24 + from_be24 b6 b7 b8);
      })
unfolding decode64
decode64_lem b b1 b2 b3 b4 b5 b6 b7 b8 rest h =
    let high : ℕ = b1 * 2 ^ 24 + from_be24 b2 b3 b4 in
    rw
      (
        high_word b1 b2 b3 b4 (omega arith) (omega arith) (omega arith),
        join_fifth high b5 (omega arith) (omega arith),
        low_word high b5 b6 b7 b8 (omega arith) (omega arith) (omega arith) (omega arith)
            (omega arith),
      )
      refl
