-- ===== src/Frame/Decoder.antt =====
-- lib/mumble/frame_decoder.c. An `int` is its bit pattern, so -1 is 2^32 - 1, unless it is a result
-- that only its sign matters of; a pattern is converted to size_t by extending the sign.
pub mod Header
pub mod Laws
pub mod Valid
use mumble_web_demo.Prelude.{
  ℕ, zero, suc, ◌+◌, ◌-◌, ◌^◌, Bool, true, false, not, Option, none, some, List, [], ◌∷◌,
  if◌then◌else◌, ltb, leb, ◌==◌, length, u32, from_be16, from_be32, sign_extend32, Outcome, done,
  ◌>>=◌, ◌>>◌, in_range, read,
}
use mumble_web_demo.Prelude.Int.{ℤ, pos, negsuc}
use mumble_web_demo.Prelude.Memory.{read_at, write_at}
use mumble_web_demo.Frame.{Protobuf, FrameBuffer, descriptor, type_udptunnel}

-- MUMBLE_FRAME_HEADER_SIZE
abbrev pub header_size : ℕ
header_size = 6

abbrev pub minus_one : ℕ
minus_one = 2 ^ 32 - 1

-- `mumble_frame_free`
unfoldable pub free : FrameBuffer → FrameBuffer
free ctx = elim ctx.buffer [
  | [] ↦ ctx
  | _ ∷ _ ↦ record { buffer = []; buffer_allocated = 0; buffer_size = 0 }
]

-- `mumble_frame_size`
unfoldable pub frame_size : FrameBuffer → Outcome ℕ
frame_size ctx = if ltb ctx.buffer_size 6 then done minus_one else (do
  a ← read ctx.buffer 2
  b ← read ctx.buffer 3
  c ← read ctx.buffer 4
  d ← read ctx.buffer 5
  done (from_be32 a b c d))

-- `mumble_frame_type`
unfoldable pub frame_type : FrameBuffer → Outcome ℕ
frame_type ctx =
    if ltb ctx.buffer_size 2
    then done minus_one
    else (do a ← read ctx.buffer 0; b ← read ctx.buffer 1; done (from_be16 a b))

-- `mumble_frame_ready`: the sum is an `int`, and is compared as an `unsigned`.
unfoldable pub ready : FrameBuffer → Outcome Bool
ready ctx = do size ← frame_size ctx; done (leb (u32 (size + header_size)) ctx.buffer_size)

-- `mumble_frame_is_audio`
unfoldable pub is_audio : FrameBuffer → Outcome Bool
is_audio ctx = do type ← frame_type ctx; done (type == type_udptunnel)

-- `mumble_frame_append`: `size` bytes are copied behind the ones that are there.
unfoldable pub append : FrameBuffer → List ℕ → Outcome (FrameBuffer × Bool)
append ctx buf = do
  block ← write_at ctx.buffer ctx.buffer_size buf
  let ctx' = record ctx { buffer = block; buffer_size = u32 (ctx.buffer_size + length buf) }
  r ← ready ctx'
  done (ctx', r)

unfoldable pub bool_int : Bool → ℤ
bool_int true = pos 1
bool_int false = pos 0

-- `mumble_frame_pop` where a frame is ready.
pop_ready : FrameBuffer → Outcome (FrameBuffer × ℤ)
unfolding bool_int
pop_ready ctx = do
  declared ← frame_size ctx
  let size = u32 (declared + header_size)
  let new_size = u32 (ctx.buffer_size + 2 ^ 32 - size)
  rest ← read_at ctx.buffer size new_size
  block ← write_at ctx.buffer 0 rest
  let ctx' = record ctx { buffer = block; buffer_size = new_size }
  r ← ready ctx'
  done (ctx', bool_int r)

-- `mumble_frame_pop`
unfoldable pub pop : FrameBuffer → Outcome (FrameBuffer × ℤ)
unfolding pop_ready
pop ctx = do r ← ready ctx; if r then pop_ready ctx else done (ctx, negsuc 0)

module _ (pb : Protobuf) where
  open pb use {Message, unpack}

  -- What `mumble_frame_decode` returns, with the decoder and `*message` behind it.
  pub record Decoded : Type 0 where
    pub ctx : FrameBuffer
    pub ret : ℤ
    pub message : Option Message

  -- `mumble_frame_decode` where a frame is ready that is not audio. `message_null` says whether the
  -- argument `message` is NULL; `*message` is `none` if the unpacking fails.
  decode_ready : FrameBuffer → Bool → Outcome Decoded
  decode_ready ctx message_null = do
    type ← frame_type ctx
    d ← descriptor type
    size ← frame_size ctx
    payload ← read_at ctx.buffer header_size (sign_extend32 size)
    in_range (not message_null)
    let message = unpack d payload
    if message_null
        then done (record { ctx = ctx; ret = negsuc 2; message = message })
        else (pop ctx >>= λ (ctx', _).
            done (record { ctx = ctx'; ret = pos type; message = message }))

  -- `mumble_frame_decode` where a frame is ready; `before` is what `*message` holds at the call.
  decode_any : FrameBuffer → Bool → Option Message → Outcome Decoded
  unfolding decode_ready
  decode_any ctx message_null before = do
    audio ← is_audio ctx
    if audio
        then done (record { ctx = ctx; ret = negsuc 1; message = before })
        else decode_ready ctx message_null

  -- `mumble_frame_decode`
  unfoldable pub decode : FrameBuffer → Bool → Option Message → Outcome Decoded
  unfolding decode_any
  decode ctx message_null before = do
    r ← ready ctx
    if r
        then decode_any ctx message_null before
        else done (record { ctx = ctx; ret = negsuc 0; message = before })
