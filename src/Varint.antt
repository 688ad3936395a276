-- ===== src/Varint.antt =====
-- The variable-length integers of lib/mumble/util.c.
-- Memory is a list of bytes from the pointer on; an access past its end is a `fault`. `int size` is an
-- integer. The operands of `|` that advance `position` are taken from left to right, and `int` shifts
-- into the sign bit keep the bit pattern, as in gcc.
pub mod Encoding
pub mod Encode
pub mod Words
pub mod Decode
pub mod RoundTrip
pub mod Laws
mod Tests
use mumble_web_demo.Prelude.{
  ℕ, zero, suc, ◌+◌, ◌-◌, ◌^◌, bit_and, bit_or, Bool, List, [], ◌∷◌, ltb, ◌==◌, if◌then◌else◌,
  length, set, drop, u8, u32, u64, ◌<<<◌, ◌>>>◌, sign_extend32, Outcome, done, no_fuel, ◌>>=◌, ◌>>◌,
  in_range, read,
}
use mumble_web_demo.Prelude.Int.{ℤ, pos, negsuc, ◌-ℤ◌, ltb_ℤ, ◌==ℤ◌}

-- `~x` on uint64_t
abbrev pub complement64 : ℕ → ℕ
complement64 x = 2 ^ 64 - 1 - x

-- The return value and what `*result` holds at the return.
pub record Decoded : Type 0 where
  pub ret : ℤ
  pub result : ℕ

-- `buf[1] << 24 | buf[2] << 16 | buf[3] << 8 | buf[4]`, an `int` that goes into a uint64_t.
pub decode32 : List ℕ → Outcome Decoded
decode32 buf = do
  b1 ← read buf 1
  b2 ← read buf 2
  b3 ← read buf 3
  b4 ← read buf 4
  let word = bit_or (bit_or (bit_or (u32 (b1 <<< 24)) (b2 <<< 16)) (b3 <<< 8)) b4
  done (record { ret = pos 5; result = sign_extend32 word })

-- The first four operands are uint64_t; each of the others is an `int` that is converted by itself.
pub decode64 : List ℕ → Outcome Decoded
decode64 buf = do
  b1 ← read buf 1
  b2 ← read buf 2
  b3 ← read buf 3
  b4 ← read buf 4
  b5 ← read buf 5
  b6 ← read buf 6
  b7 ← read buf 7
  b8 ← read buf 8
  let high = bit_or (bit_or (bit_or (b1 <<< 56) (b2 <<< 48)) (b3 <<< 40)) (b4 <<< 32)
  let low5 = bit_or high (sign_extend32 (u32 (b5 <<< 24)))
  done (record { ret = pos 9; result = bit_or (bit_or (bit_or low5 (b6 <<< 16)) (b7 <<< 8)) b8 })

-- What follows the recursive call of the case 0xF8.
pub negate : Decoded → Decoded
negate d = if d.ret ==ℤ pos 0 then record { ret = pos 1; result = complement64 d.result } else d

-- The switch on a first byte of the form 1111 xxxx. `again` is the recursive call.
pub decode_wide : Outcome Decoded → List ℕ → ℕ → Outcome Decoded
unfolding decode32 decode64 negate
decode_wide again buf b =
    if bit_and b 0xfc == 0xf0
    then decode32 buf
    else if bit_and b 0xfc == 0xf4
    then decode64 buf
    else if bit_and b 0xfc == 0xf8
    then (do d ← again; done (negate d))
    else if bit_and b 0xfc == 0xfc
    then done (record { ret = pos 1; result = complement64 (bit_and b 0x03) })
    else done (record { ret = negsuc 1; result = 0 })

pub decode_two : List ℕ → ℤ → ℕ → Outcome Decoded
decode_two buf size b =
    if ltb_ℤ size (pos 2) then done (record { ret = negsuc 0; result = 0 }) else (do
      b1 ← read buf 1
      done (record { ret = pos 2; result = bit_or (bit_and b 0x3f <<< 8) b1 }))

pub decode_four : List ℕ → ℕ → Outcome Decoded
decode_four buf b = do
  b1 ← read buf 1
  b2 ← read buf 2
  b3 ← read buf 3
  let word = bit_or (bit_or (bit_or (bit_and b 0x0f <<< 24) (b1 <<< 16)) (b2 <<< 8)) b3
  done (record { ret = pos 4; result = word })

pub decode_three : List ℕ → ℕ → Outcome Decoded
decode_three buf b = do
  b1 ← read buf 1
  b2 ← read buf 2
  let word = bit_or (bit_or (bit_and b 0x1f <<< 16) (b1 <<< 8)) b2
  done (record { ret = pos 3; result = word })

-- The branches of `varint_decode` on the first byte. `position` is 0 where it calls itself.
pub decode_first : Outcome Decoded → List ℕ → ℤ → ℕ → Outcome Decoded
unfolding decode_wide decode_two decode_three decode_four
decode_first again buf size b =
    if bit_and b 0x80 == 0x00
    then done (record { ret = pos 1; result = bit_and b 0x7f })
    else if bit_and b 0xc0 == 0x80
    then decode_two buf size b
    else if bit_and b 0xf0 == 0xf0
    then decode_wide again buf b
    else if bit_and b 0xf0 == 0xe0
    then decode_four buf b
    else if bit_and b 0xe0 == 0xc0
    then decode_three buf b
    else done (record { ret = pos 1; result = 0 })

-- `varint_decode`, with fuel for its recursive calls.
unfoldable pub decode : ℕ → List ℕ → ℤ → ℕ → Outcome Decoded
unfolding decode_first
decode zero buf size result = no_fuel
decode (suc fuel) buf size result =
    let again = decode fuel (drop 0 buf) (size -ℤ pos 0) 0 in
    if size ==ℤ pos 0
    then done (record { ret = pos 0; result = result })
    else (read buf 0 >>= decode_first again buf size)

-- The sizes of `varint_encode_size` for a value that is not negative.
pub size_class : ℕ → ℕ → ℕ
size_class source size =
    if ltb source 0x80
    then size + 1
    else if ltb source 0x4000
    then size + 2
    else if ltb source 0x200000
    then size + 3
    else if ltb source 0x10000000
    then size + 4
    else if ltb source 0x100000000
    then size + 5
    else size + 9

-- `varint_encode_size`. `source < 0` compares a uint64_t.
unfoldable pub encode_size : ℕ → ℕ
unfolding size_class
encode_size source =
    if ltb source 0
    then (if ltb (complement64 source) 0x4 then 1 else size_class (complement64 source) 1)
    else size_class source 0

-- The buffer with `pos` and `*written`.
pub record Cursor : Type 0 where
  pub buf : List ℕ
  pub pos : ℕ
  pub written : ℕ

-- `write_buf`: the cast to `char` keeps the low byte.
pub write_buf : ℕ → Cursor → Outcome Cursor
write_buf value c = do
  in_range (ltb c.pos (length c.buf))
  done (record { buf = set c.buf c.pos (u8 value); pos = c.pos + 1; written = c.written + 1 })

-- Calls of `write_buf`, one after the other.
pub write_bufs : List ℕ → Cursor → Outcome Cursor
unfolding write_buf
write_bufs [] c = done c
write_bufs (v ∷ vs) c = write_buf v c >>= write_bufs vs

-- The values that `varint_encode` hands to `write_buf` for a value that is not negative.
pub encode_bytes : ℕ → List ℕ
encode_bytes source =
    if ltb source 0x80
    then source ∷ []
    else if ltb source 0x4000
    then bit_or (source >>> 8) 0x80 ∷ bit_and source 0xff ∷ []
    else if ltb source 0x200000
    then bit_or (source >>> 16) 0xc0 ∷ bit_and (source >>> 8) 0xff ∷ bit_and source 0xff ∷ []
    else if ltb source 0x10000000
    then bit_or (source >>> 24) 0xe0
      ∷ bit_and (source >>> 16) 0xff
      ∷ bit_and (source >>> 8) 0xff
      ∷ bit_and source 0xff
      ∷ []
    else if ltb source 0x100000000
    then 0xf0
      ∷ bit_and (source >>> 24) 0xff
      ∷ bit_and (source >>> 16) 0xff
      ∷ bit_and (source >>> 8) 0xff
      ∷ bit_and source 0xff
      ∷ []
    else 0xf4
      ∷ bit_and (source >>> 56) 0xff
      ∷ bit_and (source >>> 48) 0xff
      ∷ bit_and (source >>> 40) 0xff
      ∷ bit_and (source >>> 32) 0xff
      ∷ bit_and (source >>> 24) 0xff
      ∷ bit_and (source >>> 16) 0xff
      ∷ bit_and (source >>> 8) 0xff
      ∷ bit_and source 0xff
      ∷ []

-- The return value, the buffer and `*written` at the return.
pub record Encoded : Type 0 where
  pub ret : ℕ
  pub buf : List ℕ
  pub written : ℕ

pub encoded : Outcome Cursor → Outcome Encoded
encoded m = do c ← m; done (record { ret = 0; buf = c.buf; written = c.written })

-- The body of `varint_encode` once the size is known to do.
pub encode_source : ℕ → Cursor → Outcome Cursor
unfolding write_bufs encode_bytes
encode_source source c =
    if ltb source 0
    then (if ltb (complement64 source) 0x4
        then write_bufs (bit_or 0xfc (complement64 source) ∷ []) c
        else write_bufs (0xf8 ∷ encode_bytes (complement64 source)) c)
    else write_bufs (encode_bytes source) c

-- `varint_encode`
unfoldable pub encode : ℕ → List ℕ → ℤ → ℕ → Outcome Encoded
unfolding encode_size encoded encode_source
encode source buf size written =
    if ltb_ℤ size (pos (encode_size source))
    then done (record { ret = 1; buf = buf; written = written })
    else encoded (encode_source source (record { buf = buf; pos = 0; written = 0 }))
