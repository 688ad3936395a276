-- ===== src/Frame/Decoder/Valid.antt =====
-- The validity of a decoder of frames, call by call, whatever it holds.
use mumble_web_demo.Prelude.{
  ℕ, ◌+◌, ◌-◌, ◌^◌, inl, inr, Bool, not, Option, List, u32, in_range, Ensures, bind-Ensures,
  bind_known, if-Ensures, sign_extend32, arith,
}
use mumble_web_demo.Prelude.Int.{ℤ}
use mumble_web_demo.Frame.Decoder.Header.{append_lem}
use mumble_web_demo.Prelude.Memory.{read_at, write_at, read_at-length, write_at-length}
use mumble_web_demo.Frame.{Protobuf, FrameBuffer, IsValid, same_block, descriptor}
use mumble_web_demo.Frame.Decoder.{
  ready, frame_size, frame_type, is_audio, append, pop_ready, pop, Decoded, decode_ready,
  decode_any, decode, header_size,
}

module _ (ctx : FrameBuffer) (v : IsValid ctx) where
  pop_ready-IsValid : Ensures (λ (r : FrameBuffer × ℤ). IsValid r.0) (pop_ready ctx)
  unfolding pop_ready
  pop_ready-IsValid = bind-Ensures _ (frame_size ctx) _ λ declared e.
      let size = u32 (declared + header_size) in
      let left = u32 (ctx.buffer_size + 2 ^ 32 - size) in
      bind_known _ _ (read_at ctx.buffer size left) _ (read_at-length ctx.buffer size left)
        λ rest h.
          bind_known _ _ (write_at ctx.buffer 0 rest) _ (write_at-length ctx.buffer 0 rest)
            λ block same.
              bind-Ensures _ (ready (record ctx { buffer = block; buffer_size = left })) _
                λ r e'. same_block ctx block left v same (omega (arith, h, v.whole))

  pub pop-IsValid : Ensures (λ (r : FrameBuffer × ℤ). IsValid r.0) (pop ctx)
  unfolding pop
  pop-IsValid =
      bind-Ensures _ (ready ctx) _ λ r e. if-Ensures _ r _ _ (λ is. pop_ready-IsValid) (λ is. v)

  pub append-IsValid :
      (buf : List ℕ) → Ensures (λ (r : FrameBuffer × Bool). IsValid r.0) (append ctx buf)
  append-IsValid buf = elim (append_lem ctx v buf) [
    | inl over ↦ rw over.1 tt
    | inr fits ↦ rw fits.1.1 (bind-Ensures _ (ready fits.1.0) _ (λ r e. fits.1.4))
  ]

  module _ (pb : Protobuf) where
    decode_ready-IsValid :
        (before : Bool) → Ensures (λ (d : Decoded pb). IsValid d.ctx) (decode_ready pb ctx before)
    unfolding decode_ready
    decode_ready-IsValid before = bind-Ensures _ (frame_type ctx) _ λ type e.
        bind-Ensures _ (descriptor type) _ λ d e. bind-Ensures _ (frame_size ctx) _ λ size e.
          bind-Ensures _ (read_at ctx.buffer header_size (sign_extend32 size)) _ λ payload e.
            bind-Ensures _ (in_range (not before)) _ λ u e.
              if-Ensures _ before _ _ (λ e. v)
                (λ e. bind_known _ _ (pop ctx) _ pop-IsValid (λ r h. h))

    pub decode-IsValid :
        (message_null : Bool) (before : Option pb.Message)
        → Ensures (λ (d : Decoded pb). IsValid d.ctx) (decode pb ctx message_null before)
    unfolding decode decode_any
    decode-IsValid message_null before = bind-Ensures _ (ready ctx) _ λ r e.
        if-Ensures _ r _ _
          (λ e.
            bind-Ensures _ (is_audio ctx) _
              λ audio e. if-Ensures _ audio _ _ (λ e. v) (λ e. decode_ready-IsValid message_null))
          (λ e. v)
