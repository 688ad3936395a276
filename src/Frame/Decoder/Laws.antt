-- ===== src/Frame/Decoder/Laws.antt =====
-- `mumble_frame_pop` and `mumble_frame_decode` on a decoder that holds a whole frame.
use mumble_web_demo.Prelude.{
  ℕ, ◌+◌, ◌-◌, ◌/◌, ◌%◌, ◌^◌, ◌<◌, ◌≡◌, ◌≢◌, refl, sym, ap, ◌∙◌, true, false, Option, some, List,
  ◌∷◌, ◌++◌, ◌==◌, length, length-append, take, drop, take-append, drop-append, drop-take,
  take-take, be16, be32, u32, sign_extend32, done, ◌>>=◌, arith, append-nil, ℕ_discrete, get_elem?,
}
use mumble_web_demo.Prelude.Int.{pos}
use mumble_web_demo.Prelude.Memory.{read_at, write_at, overwrite, length-overwrite, take-overwrite}
use mumble_web_demo.Frame.{
  Descriptor, udptunnel, Protobuf, IsProtobuf, FrameBuffer, descriptors, type_udptunnel, frame,
  IsValid, contents,
}
use mumble_web_demo.Frame.Types.{
  type_number, type_number-lt, get_elem?-type_number, descriptor-type_number,
}
use mumble_web_demo.Frame.Decoder.{
  frame_size, frame_type, ready, is_audio, bool_int, pop_ready, pop, decode_ready, decode_any,
  decode,
}
use mumble_web_demo.Frame.Decoder.Header.{
  ready_total, size-header, frame_size-header, frame_type-header,
}

module _ (ctx : FrameBuffer) (v : IsValid ctx) (type : ℕ) (payload rest : List ℕ)
    (holds : contents ctx ≡ frame type payload ++ rest) where
  header_holds :
      contents ctx
      ≡ (type / 2 ^ 8) % 2 ^ 8
        ∷ type % 2 ^ 8
        ∷ (length payload / 2 ^ 24) % 2 ^ 8
        ∷ (length payload / 2 ^ 16) % 2 ^ 8
        ∷ (length payload / 2 ^ 8) % 2 ^ 8
        ∷ length payload % 2 ^ 8
        ∷ (payload ++ rest)
  header_holds = holds

  size_parts : ctx.buffer_size ≡ 6 + length payload + length rest
  size_parts = omega (
    arith,
    size-header ctx v _ _ _ _ _ _ (payload ++ rest) header_holds,
    length-append payload rest,
  )

  small : length payload < 2 ^ 32
  small = omega (arith, size_parts, v.fits, v.within)

  frame_size-holds : frame_size ctx ≡ done (length payload)
  frame_size-holds =
      frame_size-header ctx v _ _ _ _ _ _ (payload ++ rest) header_holds
      ∙ ap (λ (t : ℕ). done t) (omega (arith, small))

  pub frame_type-holds : type < 2 ^ 16 → frame_type ctx ≡ done type
  frame_type-holds h =
      frame_type-header ctx v _ _ _ _ _ _ (payload ++ rest) header_holds
      ∙ ap (λ (t : ℕ). done t) (omega (arith, h))

  pub ready-holds : ready ctx ≡ done true
  unfolding ready
  ready-holds = ground (arith, frame_size-holds, size_parts, v.fits, v.within)

  -- The bytes behind the frame, where they stand in the block.
  behind : take (length rest) (drop (length payload + 6) ctx.buffer) ≡ rest
  behind =
      ap (λ (t : ℕ). take t (drop (length payload + 6) ctx.buffer)) (omega (arith, size_parts))
      ∙ sym (drop-take (length payload + 6) ctx.buffer_size ctx.buffer)
      ∙ ap (drop (length payload + 6)) holds
      ∙ drop-append (length payload + 6) (length payload) (be16 type ++ be32 (length payload))
          (payload ++ rest) (omega arith)
      ∙ drop-append (length payload) 0 payload rest (omega arith)

  within_payload : take (length payload) (drop 6 ctx.buffer) ≡ payload
  within_payload =
      sym (
        take-take (length payload) (ctx.buffer_size - 6) (drop 6 ctx.buffer)
          (omega (arith, size_parts)))
      ∙ ap (take (length payload))
          (sym (drop-take 6 ctx.buffer_size ctx.buffer) ∙ ap (drop 6) holds)
      ∙ take-append (length payload) 0 payload rest (omega arith)
      ∙ append-nil payload

  abbrev popped : FrameBuffer
  popped = record ctx { buffer = overwrite ctx.buffer 0 rest; buffer_size = length rest }

  contents-popped : contents popped ≡ rest
  contents-popped =
      take-overwrite ctx.buffer 0 (length rest) rest (omega arith)
        (omega (arith, size_parts, v.within, v.whole))

  popped-IsValid : IsValid popped
  popped-IsValid = record {
    whole =
        length-overwrite ctx.buffer 0 rest (omega (arith, size_parts, v.within, v.whole)) ∙ v.whole;
    fits = v.fits;
    within = omega (arith, size_parts, v.within);
  }

  pop_ready-holds : pop_ready ctx ≡ (ready popped >>= λ r. done (popped, bool_int r))
  unfolding pop_ready
  pop_ready-holds =
      let e : u32 (length payload + 6) ≡ length payload + 6 =
        omega (arith, size_parts, v.fits, v.within) in
      let n : u32 (ctx.buffer_size + 2 ^ 32 - (length payload + 6)) ≡ length rest =
        omega (arith, size_parts, v.fits, v.within) in
      let r : read_at ctx.buffer (length payload + 6) (length rest) ≡ done rest =
        ground (arith, behind, size_parts, v.within, v.whole) in
      let w : write_at ctx.buffer 0 rest ≡ done (overwrite ctx.buffer 0 rest) =
        ground (arith, size_parts, v.within, v.whole) in
      ground (arith, frame_size-holds, e, n, r, w)

  -- A valid decoder holds a frame, followed by anything. Then the frame is dropped, what followed
  -- is what the decoder then holds, the call reports whether that is ready, and the decoder is
  -- valid.
  pub pop_lem :
      (ctx' : FrameBuffer) × (pop ctx ≡ (ready ctx' >>= λ r. done (ctx', bool_int r)))
      × (contents ctx' ≡ rest)
      × IsValid ctx'
  unfolding pop
  pop_lem = (popped, ground (arith, ready-holds, pop_ready-holds), contents-popped, popped-IsValid)

  payload_read : read_at ctx.buffer 6 (sign_extend32 (length payload)) ≡ done payload
  payload_read =
      let e : sign_extend32 (length payload) ≡ length payload =
        ground (arith, size_parts, v.fits, v.within) in
      ground (arith, e, within_payload, size_parts, v.within, v.whole)

  pub type-udptunnel :
      (d : Descriptor) → type ≡ type_number d → d ≢ udptunnel → (type == type_udptunnel) ≡ false
  unfolding type_number
  type-udptunnel d e other = elim (ℕ_discrete type 1) [
    | yes same ↦
        absurd (other (cc (get_elem?-type_number d, ap (get_elem? descriptors) (sym e ∙ same))))
    | no differ ↦ ground (arith, differ)
  ]

module _ (pb : Protobuf) (laws : IsProtobuf pb) where
  open pb use {Message, name, message_name, pack, unpack}

  -- A valid decoder holds the frame of a message, followed by anything, and the type is not
  -- UDPTUNNEL. Then the call returns the type's number, `*message` is the message, what followed
  -- is what the decoder then holds, and the decoder is valid.
  pub decode_lem :
      (ctx : FrameBuffer) (d : Descriptor) (m : Message) (rest : List ℕ) (before : Option Message)
      → IsValid ctx
      → d ≢ udptunnel
      → message_name m ≡ name d
      → contents ctx ≡ frame (type_number d) (pack m) ++ rest
      → (ctx' : FrameBuffer) × (decode pb ctx false before
          ≡ done (record { ctx = ctx'; ret = pos (type_number d); message = some m }))
        × (contents ctx' ≡ rest)
        × IsValid ctx'
  unfolding decode decode_any decode_ready is_audio
  decode_lem ctx d m rest before v other e holds =
      let type = type_number d in
      let p = pop_lem ctx v type (pack m) rest holds in
      let r = ready_total p.0 p.3 in
      let popped : pop ctx ≡ done (p.0, bool_int r.0) =
        p.1 ∙ ap (λ t. t >>= λ b. done (p.0, bool_int b)) r.1 in
      (
        p.0,
        ground (
          arith,
          ready-holds ctx v type (pack m) rest holds,
          frame_type-holds ctx v type (pack m) rest holds (omega (arith, type_number-lt d)),
          type-udptunnel ctx v type (pack m) rest holds d refl other,
          descriptor-type_number d,
          frame_size-holds ctx v type (pack m) rest holds,
          payload_read ctx v type (pack m) rest holds,
          laws.unpack-pack d m e,
          popped,
        ),
        p.2,
        p.3,
      )
