-- ===== src/Client/Partial.antt =====
-- When the bytes at the end of what a decoder of frames holds wait for more.
use mumble_web_demo.Prelude.{
  ℕ, ◌+◌, ◌/◌, ◌%◌, ◌^◌, ◌≤◌, ◌<◌, ◌≡◌, ◌≢◌, sym, ap, ◌∙◌, false, List, ◌∷◌, ◌++◌, length, get_or,
  from_be32, done, arith, dec_lt,
}
use mumble_web_demo.Frame.{FrameBuffer, IsValid, contents, frame}
use mumble_web_demo.Frame.Decoder.{ready}
use mumble_web_demo.Frame.Decoder.Header.{length-contents, ready_short, ready-header, size-header}

-- The bytes are the front of a frame, but not of five bytes, and the frame is not all there.
pub record IsPartial (bytes : List ℕ) : Type 0 where
  pub type : ℕ
  pub payload : List ℕ
  pub more : List ℕ
  pub split : bytes ++ more ≡ frame type payload
  pub short : length bytes < length payload + 6
  pub not_five : length bytes ≢ 5
  pub small : length payload + 6 < 2 ^ 32

-- The word of four bytes.
word_lem :
    (n a b c d : ℕ)
    → n < 2 ^ 32
    → a ≡ n / 2 ^ 24 % 2 ^ 8
    → b ≡ n / 2 ^ 16 % 2 ^ 8
    → c ≡ n / 2 ^ 8 % 2 ^ 8
    → d ≡ n % 2 ^ 8
    → from_be32 a b c d ≡ n
word_lem n a b c d h ea eb ec ed = rw (ea, eb, ec, ed) (omega arith)

module _ (ctx : FrameBuffer) (v : IsValid ctx) where
  short_not_ready : ctx.buffer_size < 5 → ready ctx ≡ done false
  short_not_ready h = rw (ready_short ctx v (omega arith)) (ground arith)

  long_not_ready :
      (bytes : List ℕ) (p : IsPartial bytes)
      → contents ctx ≡ bytes
      → 6 ≤ length bytes
      → ready ctx ≡ done false
  long_not_ready (a ∷ b ∷ c ∷ d ∷ e ∷ f ∷ rest) p holds h =
      let word =
        word_lem (length p.payload) c d e f (omega (arith, p.small))
          (ap (λ l. get_or l 2 0) p.split) (ap (λ l. get_or l 3 0) p.split)
          (ap (λ l. get_or l 4 0) p.split) (ap (λ l. get_or l 5 0) p.split) in
      let size = size-header ctx v a b c d e f rest holds in
      rw (ready-header ctx v a b c d e f rest holds, word) (ground (arith, size, p.short, p.small))
  long_not_ready bytes p holds h = absurd (omega arith)

  -- A decoder is not ready while it holds the front of a frame, other than its first five bytes.
  pub ready-IsPartial :
      (bytes : List ℕ) → IsPartial bytes → contents ctx ≡ bytes → ready ctx ≡ done false
  ready-IsPartial bytes p holds =
      let size : ctx.buffer_size ≡ length bytes = sym (length-contents ctx v) ∙ ap length holds in
      elim (dec_lt (length bytes) 6) [
        | yes few ↦ short_not_ready (omega (arith, size, p.not_five))
        | no many ↦ long_not_ready bytes p holds (omega arith)
      ]
