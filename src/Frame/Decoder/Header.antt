-- ===== src/Frame/Decoder/Header.antt =====
-- The header of the bytes that a decoder holds, and when a frame counts as ready.
use mumble_web_demo.Prelude.{
  ℕ, ◌+◌, ◌≤◌, ◌<◌, ◌≡◌, ◌⊎◌, inl, inr, refl, sym, ap, ◌∙◌, Bool, List, ◌∷◌, ◌++◌, leb, get_elem?,
  get_or, get_elem?-eq-get_or, length, length-take, from_be16, from_be32, u32, done, fault, ◌>>=◌,
  arith, dec_lt,
}
use mumble_web_demo.Prelude.Counts.{get_elem?-take}
use mumble_web_demo.Prelude.Memory.{overwrite, length-overwrite, take-overwrite}
use mumble_web_demo.Frame.{FrameBuffer, IsValid, contents}
use mumble_web_demo.Frame.Decoder.{frame_size, frame_type, ready, append}

module _ (ctx : FrameBuffer) (v : IsValid ctx) where
  pub length-contents : length (contents ctx) ≡ ctx.buffer_size
  length-contents = omega (arith, length-take ctx.buffer_size ctx.buffer, v.whole, v.within)

  -- A read below `buffer_size` is a read of the contents.
  read_contents :
      (i : ℕ) → i < ctx.buffer_size → get_elem? ctx.buffer i ≡ get_elem? (contents ctx) i
  read_contents i h = sym (get_elem?-take ctx.buffer_size i ctx.buffer h)

  -- To a valid decoder, the bytes are copied behind the contents if the block has room for them,
  -- the decoder stays valid, and the call reports whether it is ready. If the block has not, they
  -- are copied all the same, past its end.
  pub append_lem :
      (bs : List ℕ)
      → ((ctx.buffer_allocated < ctx.buffer_size + length bs) × (append ctx bs ≡ fault))
        ⊎ ((ctx.buffer_size + length bs ≤ ctx.buffer_allocated)
            × ((ctx' : FrameBuffer) × (append ctx bs ≡ (ready ctx' >>= λ r. done (ctx', r)))
                × (contents ctx' ≡ contents ctx ++ bs)
                × (ctx'.buffer_allocated ≡ ctx.buffer_allocated)
                × IsValid ctx'))
  unfolding append
  append_lem bs = elim (dec_lt ctx.buffer_allocated (ctx.buffer_size + length bs)) [
    | yes over ↦ inl (over, ground (arith, v.whole))
    | no room ↦
        let n = ctx.buffer_size + length bs in
        let e : u32 n ≡ n = omega (arith, v.fits) in
        let fit : n ≤ length ctx.buffer = omega (arith, v.whole) in
        inr (
          omega arith,
          (
            record ctx { buffer = overwrite ctx.buffer ctx.buffer_size bs; buffer_size = u32 n },
            ground (arith, fit),
            take-overwrite ctx.buffer ctx.buffer_size (u32 n) bs e (omega (arith, e, fit)),
            refl,
            record {
              whole = length-overwrite ctx.buffer ctx.buffer_size bs fit ∙ v.whole;
              fits = v.fits;
              within = omega (arith, e);
            },
          ),
        )
  ]

  -- With fewer than six bytes in it, a valid decoder is ready if there are five, and not ready if
  -- there are fewer.
  pub ready_short : ctx.buffer_size < 6 → ready ctx ≡ done (leb 5 ctx.buffer_size)
  unfolding ready frame_size
  ready_short h = ground arith

  -- No read of `mumble_frame_ready` is out of range.
  pub ready_total : (r : Bool) × (ready ctx ≡ done r)
  unfolding ready frame_size
  ready_total = elim (dec_lt ctx.buffer_size 6) [
    | yes short ↦ (leb 5 ctx.buffer_size, ready_short short)
    | no long ↦
        let byte = λ (i : ℕ). get_or ctx.buffer i 0 in
        let size = from_be32 (byte 2) (byte 3) (byte 4) (byte 5) in
        let at = λ (i : ℕ) (h : i < 6).
          get_elem?-eq-get_or ctx.buffer i 0 (omega (arith, v.whole, v.within)) in
        (
          leb (u32 (size + 6)) ctx.buffer_size,
          ground (
            arith,
            at 2 (omega arith),
            at 3 (omega arith),
            at 4 (omega arith),
            at 5 (omega arith),
          ),
        )
  ]

  module _ (a b c d e f : ℕ) (rest : List ℕ)
      (header : contents ctx ≡ a ∷ b ∷ c ∷ d ∷ e ∷ f ∷ rest) where
    pub size-header : ctx.buffer_size ≡ 6 + length rest
    size-header = omega (arith, length-contents, ap length header)

    at : (i : ℕ) → i < 6 → get_elem? ctx.buffer i ≡ get_elem? (a ∷ b ∷ c ∷ d ∷ e ∷ f ∷ rest) i
    at i h = read_contents i (omega (arith, size-header)) ∙ ap (λ l. get_elem? l i) header

    pub frame_size-header : frame_size ctx ≡ done (from_be32 c d e f)
    unfolding frame_size
    frame_size-header = ground (
      arith,
      size-header,
      at 2 (omega arith),
      at 3 (omega arith),
      at 4 (omega arith),
      at 5 (omega arith),
    )

    pub frame_type-header : frame_type ctx ≡ done (from_be16 a b)
    unfolding frame_type
    frame_type-header = ground (arith, size-header, at 0 (omega arith), at 1 (omega arith))

    pub ready-header : ready ctx ≡ done (leb (u32 (from_be32 c d e f + 6)) ctx.buffer_size)
    unfolding ready
    ready-header = ground (arith, frame_size-header)
