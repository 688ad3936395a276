-- ===== src/Frame/Encoder.antt =====
-- lib/mumble/frame_encoder.c
pub mod Laws
pub mod Valid
use mumble_web_demo.Prelude.{
  ℕ, zero, suc, ◌+◌, Bool, Option, none, some, List, if◌then◌else◌, leb, be16, be32, u16, u32, u64,
  Outcome, done, abort, ◌>>=◌, ◌>>◌, check,
}
use mumble_web_demo.Prelude.Memory.{write_at}
use mumble_web_demo.Frame.{Descriptor, Protobuf, FrameBuffer, descriptor, type_count}

module _ (pb : Protobuf) where
  open pb use {
    Message, strcmp_eq, name, mumble_proto, message_name, message_package, packed_size, pack,
  }

  -- The loop of `get_message_type` from type `i`, with `left` types to try; `none` is -1.
  type_loop : ℕ → ℕ → Message → Outcome (Option ℕ)
  type_loop zero i m = done none
  type_loop (suc left) i m =
      let rest = type_loop left (i + 1) m in
      descriptor i >>= λ d. if strcmp_eq (message_name m) (name d) then done (some i) else rest

  pub get_message_type : Message → Outcome (Option ℕ)
  unfolding type_loop
  get_message_type m =
      check (strcmp_eq (message_package m) mumble_proto) >> type_loop type_count 0 m

  -- The assertion on the type.
  pub known : Option ℕ → Outcome ℕ
  known none = abort
  known (some type) = done type

  -- `mumble_frame_encode`
  unfoldable pub encode : FrameBuffer → Message → Outcome FrameBuffer
  unfolding known
  encode ctx m = do
    found ← get_message_type m
    type ← known found
    let size = packed_size m
    let total_size = u64 (2 + 4 + size)
    check (leb total_size ctx.buffer_allocated)
    with_type ← write_at ctx.buffer 0 (be16 type)
    with_size ← write_at with_type 2 (be32 size)
    block ← write_at with_size 6 (pack m)
    done (record ctx { buffer = block; buffer_size = u32 total_size })
