-- ===== src/Varint/Encoding.antt =====
-- The format that util.c writes, in plain arithmetic: what `varint_encode` writes for each value.
use mathlib.Core.List.{append_assoc}
use mumble_web_demo.Prelude.{
  ℕ, zero, suc, ◌+◌, ◌/◌, ◌%◌, ◌^◌, ◌≤◌, ◌<◌, bit_and, bit_or, ◌≡◌, refl, ap, List, [], ◌∷◌, ◌++◌,
  map, ltb, if◌then◌else◌, length, length-append, set, u8, arith, done,
}
use mumble_web_demo.Bits.{bit_or_fields_right, bit_and_mask}
use mumble_web_demo.Varint.{encode_size, encode_bytes, write_bufs}

-- The low `n` bytes of a value, the highest first.
abbrev pub low_bytes : ℕ → ℕ → List ℕ
low_bytes zero v = []
low_bytes (suc n) v = v / 256 ^ n % 256 ∷ low_bytes n v

unfoldable pub encoding : ℕ → List ℕ
encoding v =
    if ltb v 0x80
    then v ∷ []
    else if ltb v 0x4000
    then (0x80 + v / 256) ∷ low_bytes 1 v
    else if ltb v 0x200000
    then (0xc0 + v / 256 ^ 2) ∷ low_bytes 2 v
    else if ltb v 0x10000000
    then (0xe0 + v / 256 ^ 3) ∷ low_bytes 3 v
    else if ltb v 0x100000000
    then 0xf0 ∷ low_bytes 4 v
    else 0xf4 ∷ low_bytes 8 v

byte_of : (a : ℕ) → u8 (bit_and a 0xff) ≡ a % 256
byte_of a = omega (arith, bit_and_mask 8 a)

marked :
    (a : ℕ)
    → (a < 64 → u8 (bit_or a 0x80) ≡ 0x80 + a)
      × (a < 32 → u8 (bit_or a 0xc0) ≡ 0xc0 + a)
      × (a < 16 → u8 (bit_or a 0xe0) ≡ 0xe0 + a)
marked a = (
  λ h. omega (arith, bit_or_fields_right 6 2 a h),
  λ h. omega (arith, bit_or_fields_right 5 6 a h),
  λ h. omega (arith, bit_or_fields_right 4 14 a h),
)

-- What `varint_encode` hands to `write_buf` is the format.
pub encode_bytes-encoding : (v : ℕ) → map u8 (encode_bytes v) ≡ encoding v
unfolding encode_bytes encoding
encode_bytes-encoding v = ground (
  arith,
  marked (v / 2 ^ 8),
  marked (v / 2 ^ 16),
  marked (v / 2 ^ 24),
  byte_of v,
  byte_of (v / 2 ^ 8),
  byte_of (v / 2 ^ 16),
  byte_of (v / 2 ^ 24),
  byte_of (v / 2 ^ 32),
  byte_of (v / 2 ^ 40),
  byte_of (v / 2 ^ 48),
  byte_of (v / 2 ^ 56),
)

-- `varint_encode_size` is the length of the format.
pub length-encoding : (v : ℕ) → length (encoding v) ≡ encode_size v
unfolding encoding encode_size
length-encoding v = ground arith

pub length-encode_bytes : (v : ℕ) → length (encode_bytes v) ≡ encode_size v
unfolding encode_bytes encode_size
length-encode_bytes v = ground arith

pub encode_size_bounds : (v : ℕ) → (1 ≤ encode_size v) × (encode_size v ≤ 9)
unfolding encode_size
encode_size_bounds v = ground arith

set-append :
    (front : List ℕ) (p o v : ℕ) (back : List ℕ)
    → p ≡ length front
    → set (front ++ (o ∷ back)) p v ≡ front ++ (v ∷ back)
set-append [] zero o v back h = refl
set-append [] (suc p) o v back h = absurd (omega arith)
set-append (x ∷ front) zero o v back h = absurd (omega arith)
set-append (x ∷ front) (suc p) o v back h =
    ap (λ t. x ∷ t) (set-append front p o v back (omega arith))

-- A run of `write_buf` replaces as many bytes as there are values, from the cursor on.
pub write_bufs_lem :
    (vs front old back : List ℕ) (p w : ℕ)
    → p ≡ length front
    → length old ≡ length vs
    → write_bufs vs (record { buf = front ++ (old ++ back); pos = p; written = w })
      ≡ done (record {
        buf = front ++ (map u8 vs ++ back);
        pos = p + length vs;
        written = w + length vs;
      })
unfolding write_bufs
write_bufs_lem [] front [] back p w hp hl =
    ap (λ (n : ℕ × ℕ). done (record { buf = front ++ back; pos = n.0; written = n.1 }))
      (ground arith)
write_bufs_lem [] front (o ∷ old) back p w hp hl = absurd (omega arith)
write_bufs_lem (v ∷ vs) front [] back p w hp hl = absurd (omega arith)
write_bufs_lem (v ∷ vs) front (o ∷ old) back p w hp hl = ground (
  arith,
  set-append front p o (u8 v) (old ++ back),
  length-append front (o ∷ (old ++ back)),
  length-append front (u8 v ∷ []),
  append_assoc front (u8 v ∷ []) (old ++ back),
  append_assoc front (u8 v ∷ []) (map u8 vs ++ back),
  write_bufs_lem vs (front ++ (u8 v ∷ [])) old back (p + 1) (w + 1),
)
