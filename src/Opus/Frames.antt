-- ===== src/Opus/Frames.antt =====
-- What `on_encoder_frame` of opus.c does with one frame.
use mumble_web_demo.Prelude.{
  ℕ, ◌+◌, ◌-◌, ◌/◌, ◌≤◌, ◌<◌, ◌≡◌, ◌⊎◌, inl, inr, refl, sym, List, [], ◌++◌, lt→ltb, length, drop,
  length-drop, Outcome, done, ◌>>=◌, abort, arith, dec_lt,
}
use mumble_web_demo.Prelude.Int.{ℤ, pos, pos_part}
use mumble_web_demo.Prelude.Memory.{read_at, write_at, read_at_front, write_at_back, read_at_two}
use mumble_web_demo.Prelude.Signed.{positive_lem, positive-abort}
use mumble_web_demo.Buffer.{Call}
use mumble_web_demo.Varint
use mumble_web_demo.Varint.{encode_size}
use mumble_web_demo.Varint.Encode.{encode_lem}
use mumble_web_demo.Varint.Encoding.{encoding, length-encoding}
use mumble_web_demo.Opus.{LibOpus, IsOpus, Codec, Blocks, on_encoder_frame}

accepted :
    (n : ℕ) (buf : List ℕ)
    → encode_size n ≤ length buf
    → Varint.encode n buf (pos (length buf)) 0
      ≡ done (record {
        ret = 0;
        buf = encoding n ++ drop (encode_size n) buf;
        written = encode_size n;
      })
accepted n buf h = ground (arith, encode_lem n buf (pos (length buf)) 0)

refused :
    (n : ℕ) (buf : List ℕ)
    → length buf < encode_size n
    → Varint.encode n buf (pos (length buf)) 0 ≡ done (record { ret = 1; buf = buf; written = 0 })
unfolding Varint.encode
refused n buf h = ground arith

-- What libopus makes of the frame.
module _ (lib : LibOpus) (malloc : Blocks) (codec : Codec lib) (frame : Call) where
  abbrev pub compressed : lib.Encoder × ℤ × List ℕ
  compressed =
      lib.encode codec.encoder frame.bytes (length frame.bytes / 2) (length codec.codec_out)

  -- The codec behind a frame that is compressed to `stored`.
  abbrev pub framed_codec : List ℕ → Codec lib
  framed_codec stored =
      let n = length stored in
      record codec {
        encoder = compressed.0;
        codec_out = stored ++ drop n codec.codec_out;
        framed_out = encoding n ++ (stored ++ drop n (drop (encode_size n) codec.framed_out));
      }

  -- The frame as the callback has it: its length goes in front.
  abbrev pub framed : List ℕ → Call
  framed stored = record { bytes = encoding (length stored) ++ stored; final = frame.final }

  module _ (opus : IsOpus lib) (stored : List ℕ) (same : compressed.2 ≡ stored) where
    abbrev n : ℕ
    n = length stored

    returned : pos_part compressed.1 ≡ n
    returned = rw (← same) (
        sym (
          opus.data_length codec.encoder frame.bytes (length frame.bytes / 2)
            (length codec.codec_out)))

    room : n ≤ length codec.codec_out
    room =
        rw (← same) (
          opus.data_fits codec.encoder frame.bytes (length frame.bytes / 2)
            (length codec.codec_out))

    out_lem : write_at codec.codec_out 0 compressed.2 ≡ done (stored ++ drop n codec.codec_out)
    out_lem = rw same (write_at_back [] codec.codec_out 0 refl stored room)

  -- A frame that libopus compresses to data that fits is handed over behind its length.
  pub on_encoder_frame_fits :
      {S : Type 0} (cb : S → Call → Outcome S) (s : S)
      → IsOpus lib
      → (stored : List ℕ) → compressed.2 ≡ stored
      → 0 < length stored
      → encode_size (length stored) + length stored < length codec.framed_out
      → on_encoder_frame lib malloc cb s codec frame
        ≡ (cb s (framed stored) >>= λ s'. done (s', framed_codec stored))
  unfolding on_encoder_frame
  on_encoder_frame_fits cb s opus stored e ne fits =
      let n = length stored in
      let rest = drop (encode_size n) codec.framed_out in
      let behind : List ℕ = stored ++ drop n rest in
      let left : length rest ≡ length codec.framed_out - encode_size n =
        length-drop (encode_size n) codec.framed_out in
      let handed : read_at (encoding n ++ behind) 0 (encode_size n + n)
          ≡ done (encoding n ++ stored) =
        read_at_two (encoding n) stored (drop n rest) (encode_size n + n)
          (omega (arith, length-encoding n)) in
      rw
        (
          out_lem opus stored e,
          positive_lem compressed.1 (omega (arith, returned opus stored e)),
          returned opus stored e,
          accepted n codec.framed_out (omega arith),
          lt→ltb (n + encode_size n) (length codec.framed_out) (omega arith),
          read_at_front stored (drop n codec.codec_out) n refl,
          write_at_back (encoding n) rest (encode_size n) (sym (length-encoding n)) stored
              (omega arith),
          handed,
        )
        refl

  -- Without data, or without room for it behind its length, the frame is a failed `assert`.
  pub on_encoder_frame-abort :
      {S : Type 0} (cb : S → Call → Outcome S) (s : S)
      → IsOpus lib
      → (stored : List ℕ) → compressed.2 ≡ stored
      → (length stored ≡ 0)
        ⊎ ((0 < length stored)
            × (length codec.framed_out ≤ encode_size (length stored) + length stored))
      → on_encoder_frame lib malloc cb s codec frame ≡ abort
  unfolding on_encoder_frame
  on_encoder_frame-abort cb s opus stored e (inl h) =
      rw
        (out_lem opus stored e, positive-abort compressed.1 (omega (arith, returned opus stored e)))
  on_encoder_frame-abort cb s opus stored e (inr (ne, full)) =
      let n = length stored in
      rw
        (
          out_lem opus stored e,
          positive_lem compressed.1 (omega (arith, returned opus stored e)),
          returned opus stored e,
        )
        (elim (dec_lt (length codec.framed_out) (encode_size n)) [
          | yes short ↦ rw (refused n codec.framed_out short)
          | no long ↦ rw (accepted n codec.framed_out (omega arith)) (ground arith)
        ])
