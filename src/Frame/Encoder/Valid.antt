-- ===== src/Frame/Encoder/Valid.antt =====
-- The validity of an encoder of frames, call by call.
use mumble_web_demo.Prelude.{
  ℕ, ◌+◌, ◌≤◌, leb, u32, u64, be16, be32, check, Ensures, bind-Ensures, bind_known, arith,
}
use mumble_web_demo.Prelude.Memory.{write_at, write_at-length}
use mumble_web_demo.Frame.{Protobuf, FrameBuffer, IsValid, same_block}
use mumble_web_demo.Frame.Encoder.{encode, get_message_type, known}

fits_lem : (n m : ℕ) → Ensures (λ (u : Unit {0}). n ≤ m) (check (leb n m))
fits_lem n m = ground arith

module _ (pb : Protobuf) where
  pub encode-IsValid :
      (ctx : FrameBuffer) (m : pb.Message) → IsValid ctx → Ensures IsValid (encode pb ctx m)
  unfolding encode
  encode-IsValid ctx m v = bind-Ensures _ (get_message_type pb m) _ λ found e.
      bind-Ensures _ (known pb found) _ λ type e.
        let size = pb.packed_size m in
        let total = u64 (2 + 4 + size) in
        bind_known _ _ (check (leb total ctx.buffer_allocated)) _
          (fits_lem total ctx.buffer_allocated)
          λ u fits.
            bind_known _ _ (write_at ctx.buffer 0 (be16 type)) _
              (write_at-length ctx.buffer 0 (be16 type))
              λ b1 e1.
                bind_known _ _ (write_at b1 2 (be32 size)) _ (write_at-length b1 2 (be32 size))
                  λ b2 e2.
                    bind_known _ _ (write_at b2 6 (pb.pack m)) _ (write_at-length b2 6 (pb.pack m))
                      λ b3 e3.
                        same_block ctx b3 (u32 total) v (omega (arith, e1, e2, e3))
                          (omega (arith, fits, v.fits))
