-- ===== src/Varint/RoundTrip.antt =====
-- `varint_decode` on what `varint_encode` writes, and on every first byte.
use mumble_web_demo.Prelude.{
  ℕ, suc, ◌+◌, ◌*◌, ◌/◌, ◌%◌, ◌^◌, ◌≤◌, ◌<◌, ◌≡◌, List, [], ◌∷◌, ◌++◌, Outcome, done, arith,
}
use mumble_web_demo.Prelude.Int.{pos, ◌-ℤ◌}
use mumble_web_demo.Varint.{Decoded, decode, decode_first, encode_size}
use mumble_web_demo.Varint.Encoding.{encoding, low_bytes}
use mumble_web_demo.Varint.Decode.{
  first_one, first_two, first_three, first_four, first_word, first_long,
}
use mumble_web_demo.Varint.Words.{decode32_lem, decode64_lem, join_halves}

-- What a uint64_t comes back as: bit 31, if it is set, is copied into the 32 bits above it, unless the
-- value fits 28 bits.
unfoldable pub received : ℕ → ℕ
unfolding join_halves
received v = join_halves (v / 2 ^ 32) (v % 2 ^ 32)

-- One call of `varint_decode` on a first byte that is there.
decode-suc :
    (fuel n b r : ℕ) (rest : List ℕ)
    → decode (suc fuel) (b ∷ rest) (pos (suc n)) r
      ≡ decode_first (decode fuel (b ∷ rest) (pos (suc n) -ℤ pos 0) 0) (b ∷ rest) (pos (suc n)) b
unfolding decode
decode-suc fuel n b r rest = ground arith

-- The recursive call that the first call would make.
abbrev again : ℕ → ℕ → List ℕ → Outcome Decoded
again fuel n buf = decode fuel buf (pos (suc n) -ℤ pos 0) 0

module _ (fuel v n r : ℕ) (rest : List ℕ) (size : encode_size v ≤ suc n) where
  abbrev Reads : List ℕ → Type 0
  Reads bytes =
      decode (suc fuel) (bytes ++ rest) (pos (suc n)) r
      ≡ done (record { ret = pos (encode_size v); result = received v })

  Reads-one : v < 0x80 → Reads (v ∷ [])
  unfolding encode_size received join_halves
  Reads-one h = ground (
    arith,
    decode-suc fuel n v r rest,
    first_one (again fuel n (v ∷ rest)) v (v ∷ rest) (pos (suc n)),
  )

  Reads-two : 0x80 ≤ v → v < 0x4000 → Reads ((0x80 + v / 256) ∷ low_bytes 1 v)
  unfolding encode_size received join_halves
  Reads-two lo hi =
      let b = 0x80 + v / 256 in
      let tail = v % 256 ∷ rest in
      ground (
        arith,
        decode-suc fuel n b r tail,
        first_two (again fuel n (b ∷ tail)) b (v % 256) (suc n) rest,
      )

  Reads-three : 0x4000 ≤ v → v < 0x200000 → Reads ((0xc0 + v / 256 ^ 2) ∷ low_bytes 2 v)
  unfolding encode_size received join_halves
  Reads-three lo hi =
      let b = 0xc0 + v / 256 ^ 2 in
      let tail = v / 256 % 256 ∷ v % 256 ∷ rest in
      ground (
        arith,
        decode-suc fuel n b r tail,
        first_three (again fuel n (b ∷ tail)) b (v / 256 % 256) (v % 256) (pos (suc n)) rest,
      )

  Reads-four : 0x200000 ≤ v → v < 0x10000000 → Reads ((0xe0 + v / 256 ^ 3) ∷ low_bytes 3 v)
  unfolding encode_size received join_halves
  Reads-four lo hi =
      let b = 0xe0 + v / 256 ^ 3 in
      let b1 = v / 256 ^ 2 % 256 in
      let tail = b1 ∷ v / 256 % 256 ∷ v % 256 ∷ rest in
      ground (
        arith,
        decode-suc fuel n b r tail,
        first_four (again fuel n (b ∷ tail)) b b1 (v / 256 % 256) (v % 256) (pos (suc n)) rest,
      )

  Reads-word : 0x10000000 ≤ v → v < 0x100000000 → Reads (0xf0 ∷ low_bytes 4 v)
  unfolding encode_size received join_halves
  Reads-word lo hi =
      let tail = low_bytes 4 v ++ rest in
      ground (
        arith,
        decode-suc fuel n 0xf0 r tail,
        first_word (again fuel n (0xf0 ∷ tail)) 0xf0 (0xf0 ∷ tail) (pos (suc n)),
        decode32_lem 0xf0 (v / 256 ^ 3 % 256) (v / 256 ^ 2 % 256) (v / 256 % 256) (v % 256) rest,
      )

  Reads-long : 0x100000000 ≤ v → v < 2 ^ 64 → Reads (0xf4 ∷ low_bytes 8 v)
  unfolding encode_size received
  Reads-long lo hi =
      let tail = low_bytes 8 v ++ rest in
      ground (
        arith,
        decode-suc fuel n 0xf4 r tail,
        first_long (again fuel n (0xf4 ∷ tail)) 0xf4 (0xf4 ∷ tail) (pos (suc n)),
        decode64_lem 0xf4 (v / 256 ^ 7 % 256) (v / 256 ^ 6 % 256) (v / 256 ^ 5 % 256)
            (v / 256 ^ 4 % 256) (v / 256 ^ 3 % 256) (v / 256 ^ 2 % 256) (v / 256 % 256) (v % 256)
            rest,
        halves,
      )
    where
      halves :
          (v / 256 ^ 7 % 256 * 2 ^ 24
              + (v / 256 ^ 6 % 256 * 2 ^ 16 + v / 256 ^ 5 % 256 * 2 ^ 8 + v / 256 ^ 4 % 256)
            ≡ v / 2 ^ 32)
          × (v / 256 ^ 3 % 256 * 2 ^ 24
                + (v / 256 ^ 2 % 256 * 2 ^ 16 + v / 256 % 256 * 2 ^ 8 + v % 256)
              ≡ v % 2 ^ 32)
      halves = omega arith

  -- The format is read back by one call, with `size` at least the length of the format.
  pub decode-encoding : v < 2 ^ 64 → Reads (encoding v)
  unfolding encoding
  decode-encoding h =
      ground (arith, Reads-one, Reads-two, Reads-three, Reads-four, Reads-word, Reads-long)
