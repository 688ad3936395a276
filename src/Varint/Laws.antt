-- ===== src/Varint/Laws.antt =====
-- The contract of the variable-length integers of util.c.
use mumble_web_demo.Prelude.{
  ℕ, zero, suc, ◌-◌, ◌%◌, ◌^◌, ◌≤◌, ◌<◌, ◌≡◌, ◌≢◌, ◌↔◌, ◌⊎◌, inl, refl, List, ◌∷◌, ◌++◌, false,
  IsByte, drop, length, done, no_fuel, arith,
}
use mumble_web_demo.Prelude.Int.{ℤ, pos, ◌==ℤ◌, ◌-ℤ◌}
use mumble_web_demo.Varint.{Encoded, decode, encode, encode_size}
use mumble_web_demo.Varint.Encoding.{encoding, encode_size_bounds}
use mumble_web_demo.Varint.Encode.{encode_lem}
use mumble_web_demo.Varint.Decode.{first_marker, decode_first-Plain}
use mumble_web_demo.Varint.RoundTrip.{received, decode-encoding}

-- With room for the format of a uint64_t in memory and in `size`, `varint_encode` returns 0, and
-- one call of `varint_decode` on the buffer, with any `size` that covers the format, returns the
-- number of bytes written. The result is the value, with bit 31, if it is set, copied into the 32
-- bits above it, unless the value fits 28 bits.
pub decode-encode :
    (fuel v size size' written r : ℕ) (buf : List ℕ)
    → v < 2 ^ 64
    → encode_size v ≤ length buf
    → encode_size v ≤ size
    → encode_size v ≤ size'
    → (e : Encoded) × (encode v buf (pos size) written ≡ done e)
      × (e.ret ≡ 0)
      × (decode (suc fuel) e.buf (pos size') r
          ≡ done (record { ret = pos e.written; result = received v }))
decode-encode fuel v size zero written r buf hv room fits covers =
    absurd (omega (arith, encode_size_bounds v))
decode-encode fuel v size (suc n) written r buf hv room fits covers = (
  record { ret = 0; buf = encoding v ++ drop (encode_size v) buf; written = encode_size v },
  ground (arith, encode_lem v buf (pos size) written),
  refl,
  decode-encoding fuel v n r (drop (encode_size v) buf) covers hv,
)

-- A uint64_t comes back unchanged exactly when its bit 31 is clear or its high half is all ones.
pub received-eq_iff :
    (v : ℕ) → v < 2 ^ 64 → (received v ≡ v) ↔ ((v % 2 ^ 32 < 2 ^ 31) ⊎ (2 ^ 64 - 2 ^ 32 ≤ v))
unfolding received
received-eq_iff v h = ground arith

-- With room for the format in memory and in `size`, `varint_encode` returns 0, and one call of
-- `varint_decode` on the buffer, with any `size` that covers the format, returns the number of bytes
-- written and the value itself, for each uint64_t with a bit 31 that is clear.
pub decode-encode_exact :
    (fuel v size size' written r : ℕ) (buf : List ℕ)
    → v < 2 ^ 64
    → v % 2 ^ 32 < 2 ^ 31
    → encode_size v ≤ length buf
    → encode_size v ≤ size
    → encode_size v ≤ size'
    → (e : Encoded) × (encode v buf (pos size) written ≡ done e)
      × (e.ret ≡ 0)
      × (decode (suc fuel) e.buf (pos size') r ≡ done (record { ret = pos e.written; result = v }))
decode-encode_exact fuel v size size' written r buf hv clear room fits covers =
    let (e, run, ret, back) = decode-encode fuel v size size' written r buf hv room fits covers in
    (e, run, ret, rw ((received-eq_iff v hv).1 (inl clear)) at back)

-- On a first byte from 0xf8 on and below 0xfc, with a `size` that is not 0, `varint_decode` does
-- not return: it calls itself on the same bytes, and no number of calls is enough.
pub decode_marker-no_fuel :
    (fuel b : ℕ) (size : ℤ) (r : ℕ) (rest : List ℕ)
    → 0xf8 ≤ b
    → b < 0xfc
    → (size ==ℤ pos 0) ≡ false
    → decode fuel (b ∷ rest) size r ≡ no_fuel
unfolding decode ◌-ℤ◌
decode_marker-no_fuel zero b size r rest lo hi h = refl
decode_marker-no_fuel (suc fuel) b size r rest lo hi h = ground (
  arith,
  first_marker (decode fuel (b ∷ rest) (size -ℤ pos 0) 0) b (b ∷ rest) size lo hi,
  decode_marker-no_fuel fuel b (size -ℤ pos 0) 0 rest lo hi,
)

-- On a first byte below 0xf8, or from 0xfc on, more fuel than for one call makes no difference to
-- `varint_decode`, and one call is enough.
pub decode_one_call :
    (fuel b : ℕ) (size : ℤ) (r : ℕ) (rest : List ℕ)
    → IsByte b
    → (b < 0xf8) ⊎ (0xfc ≤ b)
    → (decode (suc fuel) (b ∷ rest) size r ≡ decode 1 (b ∷ rest) size r)
      × (decode 1 (b ∷ rest) size r ≢ no_fuel)
unfolding decode
decode_one_call fuel b size r rest hb h =
    let plain =
      decode_first-Plain (decode fuel (b ∷ rest) (size -ℤ pos 0) 0) (b ∷ rest) size b hb h in
    (ground (arith, plain.0), ground (arith, plain.1))
