-- ===== src/Opus/Valid.antt =====
-- The framing buffer and the state of the callback of the encoder of opus.c, call by call.
use mumble_web_demo.Prelude.{
  ℕ, zero, suc, ◌+◌, ◌/◌, ◌^◌, ◌<◌, ◌≡◌, refl, ◌∙◌, false, List, [], ◌∷◌, ◌==◌, ltb, length,
  Outcome, check, Ensures, bind-Ensures, bind_known, Ensures-map, subst, sym, arith,
}
use mumble_web_demo.Prelude.Int.{pos}
use mumble_web_demo.Prelude.Signed.{positive}
use mumble_web_demo.Prelude.Memory.{read_at, write_at}
use mumble_web_demo.Varint
use mumble_web_demo.Buffer
use mumble_web_demo.Buffer.{Buffer, Call}
use mumble_web_demo.Buffer.Write.{IsValid}
use mumble_web_demo.Buffer.Laws.{write-Written}
use mumble_web_demo.Opus.{LibOpus, Codec, Blocks, on_encoder_frame, on_encoder_frames, encode}

pub write-IsValid :
    (calls_left : ℕ) (b : Buffer) (pcm : List ℕ)
    → IsValid b
    → length pcm < 2 ^ 32
    → Ensures
        (λ (r : Buffer × List Call). IsValid r.0)
        (Buffer.write calls_left (length pcm) false b pcm)
unfolding Buffer.write
write-IsValid zero b pcm v small = tt
write-IsValid (suc calls_left) b pcm v small =
    let (b', calls, run, w) = write-Written calls_left (length pcm) b pcm v (omega arith) small in
    rw run w.valid

module _ (lib : LibOpus) (malloc : Blocks) {S : Type 0} (P : S → Type 0) (cb : S → Call → Outcome S)
    (keeps : (s : S) (c : Call) → P s → Ensures P (cb s c)) where
  frame_kept :
      (s : S) (codec : Codec lib) (frame : Call)
      → P s
      → Ensures
          (λ (r : S × Codec lib). P r.0 × (r.1.buffer ≡ codec.buffer))
          (on_encoder_frame lib malloc cb s codec frame)
  unfolding on_encoder_frame
  frame_kept s codec frame p =
      let (encoder', ret, stored) =
        lib.encode codec.encoder frame.bytes (length frame.bytes / 2) (length codec.codec_out) in
      bind-Ensures _ (write_at codec.codec_out 0 stored) _ λ out _.
        bind-Ensures _ (positive ret) _ λ n _.
          bind-Ensures _ (Varint.encode n codec.framed_out (pos (length codec.framed_out)) 0) _
            λ e _. bind-Ensures _ (check (e.ret == 0)) _ λ u _.
              bind-Ensures _ (check (ltb (n + e.written) (length codec.framed_out))) _ λ u' _.
                bind-Ensures _ (read_at out 0 n) _ λ payload _.
                  bind-Ensures _ (write_at e.buf e.written payload) _ λ framed _.
                    bind-Ensures _ (read_at framed 0 (e.written + n)) _ λ bytes _.
                      bind_known _ _ (cb s (record { bytes = bytes; final = frame.final })) _
                        (keeps s (record { bytes = bytes; final = frame.final }) p)
                        λ s' p'. (p', refl)

  frames_kept :
      (s : S) (codec : Codec lib) (frames : List Call)
      → P s
      → Ensures
          (λ (r : S × Codec lib). P r.0 × (r.1.buffer ≡ codec.buffer))
          (on_encoder_frames lib malloc cb s codec frames)
  unfolding on_encoder_frames
  frames_kept s codec [] p = (p, refl)
  frames_kept s codec (frame ∷ frames) p =
      bind_known _ _ (on_encoder_frame lib malloc cb s codec frame) _ (frame_kept s codec frame p)
        λ (s', codec') (p', same).
          Ensures-map _ (on_encoder_frames lib malloc cb s' codec' frames)
            (frames_kept s' codec' frames p') (λ r h. (h.0, h.1 ∙ same))

  pub encode-IsValid :
      (calls_left : ℕ) (s : S) (codec : Codec lib) (pcm : List ℕ)
      → P s
      → IsValid codec.buffer
      → length pcm < 2 ^ 32
      → Ensures
          (λ (r : S × Codec lib). P r.0 × IsValid r.1.buffer)
          (encode lib malloc cb calls_left s codec pcm false)
  unfolding encode
  encode-IsValid calls_left s codec pcm p v small =
      bind_known _ _ (Buffer.write calls_left (length pcm) false codec.buffer pcm) _
        (write-IsValid calls_left codec.buffer pcm v small)
        λ (b', calls) v'.
          Ensures-map _ (on_encoder_frames lib malloc cb s (record codec { buffer = b' }) calls)
            (frames_kept s (record codec { buffer = b' }) calls p)
            (λ r h. (h.0, subst IsValid (sym h.1) v'))
