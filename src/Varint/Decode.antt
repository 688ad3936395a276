-- ===== src/Varint/Decode.antt =====
-- `varint_decode` on each form of the first byte.
use mumble_web_demo.Prelude.{
  ℕ, ◌+◌, ◌-◌, ◌*◌, ◌/◌, ◌%◌, ◌^◌, ◌≤◌, ◌<◌, bit_and, ◌≡◌, ◌≢◌, ◌⊎◌, no_fuel, List, ◌∷◌, Outcome,
  done, IsByte, arith, ◌>>=◌,
}
use mumble_web_demo.Prelude.Int.{ℤ, pos, negsuc}
use mumble_web_demo.Bits.{bit_or_fields, bit_and_mask}
use mumble_web_demo.Bits.Masks.{
  bit_and_0x80, bit_and_0xc0, bit_and_0xe0, bit_and_0xf0, bit_and_0xfc,
}
use mumble_web_demo.Varint.{Decoded, decode_first, decode32, decode64, negate}
use mumble_web_demo.Varint.Words.{from_be24}

record Masks (b : ℕ) : Type 0 where
  m80 : bit_and b 0x80 ≡ b / 128 * 128
  mc0 : bit_and b 0xc0 ≡ b / 64 * 64
  me0 : bit_and b 0xe0 ≡ b / 32 * 32
  mf0 : bit_and b 0xf0 ≡ b / 16 * 16
  mfc : bit_and b 0xfc ≡ b / 4 * 4

masks : (b : ℕ) → IsByte b → Masks b
masks b h = record {
  m80 = bit_and_0x80 b h;
  mc0 = bit_and_0xc0 b h;
  me0 = bit_and_0xe0 b h;
  mf0 = bit_and_0xf0 b h;
  mfc = bit_and_0xfc b h;
}

module _ (again : Outcome Decoded) where
  pub first_one :
      (b : ℕ) (buf : List ℕ) (size : ℤ)
      → b < 0x80
      → decode_first again buf size b ≡ done (record { ret = pos 1; result = b })
  unfolding decode_first
  first_one b buf size h = ground (arith, masks b, bit_and_mask 7 b)

  pub first_two :
      (b b1 n : ℕ) (rest : List ℕ)
      → 0x80 ≤ b
      → b < 0xc0
      → IsByte b1
      → 2 ≤ n
      → decode_first again (b ∷ b1 ∷ rest) (pos n) b
        ≡ done (record { ret = pos 2; result = (b - 0x80) * 2 ^ 8 + b1 })
  unfolding decode_first
  first_two b b1 n rest lo hi h1 hn =
      ground (arith, masks b, bit_and_mask 6 b, bit_or_fields 8 (b % 64) b1)

  pub first_three :
      (b b1 b2 : ℕ) (size : ℤ) (rest : List ℕ)
      → 0xc0 ≤ b
      → b < 0xe0
      → IsByte b1
      → IsByte b2
      → decode_first again (b ∷ b1 ∷ b2 ∷ rest) size b
        ≡ done (record { ret = pos 3; result = (b - 0xc0) * 2 ^ 16 + b1 * 2 ^ 8 + b2 })
  unfolding decode_first
  first_three b b1 b2 size rest lo hi h1 h2 = ground (
    arith,
    masks b,
    bit_and_mask 5 b,
    bit_or_fields 16 (b % 32) (b1 * 2 ^ 8),
    bit_or_fields 8 (b % 32 * 2 ^ 8 + b1) b2,
  )

  pub first_four :
      (b b1 b2 b3 : ℕ) (size : ℤ) (rest : List ℕ)
      → 0xe0 ≤ b
      → b < 0xf0
      → IsByte b1
      → IsByte b2
      → IsByte b3
      → decode_first again (b ∷ b1 ∷ b2 ∷ b3 ∷ rest) size b
        ≡ done (record { ret = pos 4; result = (b - 0xe0) * 2 ^ 24 + from_be24 b1 b2 b3 })
  unfolding decode_first
  first_four b b1 b2 b3 size rest lo hi h1 h2 h3 = ground (
    arith,
    masks b,
    bit_and_mask 4 b,
    bit_or_fields 24 (b % 16) (b1 * 2 ^ 16),
    bit_or_fields 16 (b % 16 * 2 ^ 8 + b1) (b2 * 2 ^ 8),
    bit_or_fields 8 ((b % 16 * 2 ^ 8 + b1) * 2 ^ 8 + b2) b3,
  )

  -- The recursive call and what follows it.
  pub first_marker :
      (b : ℕ) (buf : List ℕ) (size : ℤ)
      → 0xf8 ≤ b
      → b < 0xfc
      → decode_first again buf size b ≡ (again >>= λ d. done (negate d))
  unfolding decode_first
  first_marker b buf size lo hi = ground (arith, masks b)

  pub first_small :
      (b : ℕ) (buf : List ℕ) (size : ℤ)
      → 0xfc ≤ b
      → b < 0x100
      → decode_first again buf size b
        ≡ done (record { ret = pos 1; result = 2 ^ 64 - 1 - (b - 0xfc) })
  unfolding decode_first
  first_small b buf size lo hi = ground (arith, masks b, bit_and_mask 2 b)

  pub first_word :
      (b : ℕ) (buf : List ℕ) (size : ℤ)
      → 0xf0 ≤ b
      → b < 0xf4
      → decode_first again buf size b ≡ decode32 buf
  unfolding decode_first
  first_word b buf size lo hi = ground (arith, masks b)

  pub first_long :
      (b : ℕ) (buf : List ℕ) (size : ℤ)
      → 0xf4 ≤ b
      → b < 0xf8
      → decode_first again buf size b ≡ decode64 buf
  unfolding decode_first
  first_long b buf size lo hi = ground (arith, masks b)

-- Which results the reads of four and of eight bytes can have.
record Plain (m : Outcome Decoded) : Type 0 where
  returns : m ≢ no_fuel
  not_default : (d : Decoded) → m ≡ done d → d.ret ≢ negsuc 1

decode32-Plain : (buf : List ℕ) → Plain (decode32 buf)
unfolding decode32
decode32-Plain buf = record { returns = ground arith; not_default = λ d e. ground arith }

decode64-Plain : (buf : List ℕ) → Plain (decode64 buf)
unfolding decode64
decode64-Plain buf = record { returns = ground arith; not_default = λ d e. ground arith }

-- On a first byte that is no marker the recursive call is not made, the branches return or fault, and
-- the default of the switch is not reached.
pub decode_first-Plain :
    (again : Outcome Decoded) (buf : List ℕ) (size : ℤ) (b : ℕ)
    → IsByte b
    → (b < 0xf8) ⊎ (0xfc ≤ b)
    → (decode_first again buf size b ≡ decode_first no_fuel buf size b)
      × (decode_first no_fuel buf size b ≢ no_fuel)
      × ((d : Decoded) → decode_first no_fuel buf size b ≡ done d → d.ret ≢ negsuc 1)
unfolding decode_first
decode_first-Plain again buf size b hb h = (
  ground (arith, masks b),
  ground (arith, masks b, decode32-Plain buf, decode64-Plain buf),
  λ d e. ground (arith, masks b, decode32-Plain buf, decode64-Plain buf),
)
