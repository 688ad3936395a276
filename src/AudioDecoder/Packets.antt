-- ===== src/AudioDecoder/Packets.antt =====
-- What audio_decoder.c makes of the packets of audio_encoder.c, once a source stands behind their first byte.
use mumble_web_demo.Prelude.{
  ℕ, suc, ◌+◌, ◌^◌, ◌%◌, ◌≤◌, ◌<◌, ◌≡◌, ◌≢◌, inl, refl, ◌∙◌, false, none, some, List, ◌∷◌, ◌++◌,
  length, drop, replicate, length-append, u32, done, abort, arith,
}
use mumble_web_demo.Prelude.Int.{pos, ◌-ℤ◌}
use mumble_web_demo.Varint.{encode_size}
use mumble_web_demo.Varint.Encoding.{encoding, length-encoding, encode_size_bounds}
use mumble_web_demo.Varint.RoundTrip.{received}
use mumble_web_demo.Varint.Laws.{received-eq_iff}
use mumble_web_demo.Opus.{LibOpus, Blocks, Heard, decode_payload}
use mumble_web_demo.Opus.Laws.{decode_framed}
use mumble_web_demo.AudioEncoder.{header_byte, encoder_codec_packet, encoded_size}
use mumble_web_demo.AudioEncoder.Packets.{encoder_codec_packet_lem}
use mumble_web_demo.AudioDecoder.{AudioDecoder, AudioPacket, decode_samples, decode_body, decode}
use mumble_web_demo.AudioDecoder.Fields.{
  no_position, bad_position, not_late, framed_length, decode_header,
}

module _ (lib : LibOpus) (malloc : Blocks) where
  module _ (fuel unset : ℕ) (d : AudioDecoder lib) (payload : List ℕ) (audio : AudioPacket)
      (opus' : lib.Decoder) (heard : Heard) (opus : audio.codec ≡ 4)
      (in_order : d.sequence ≤ audio.sequence) (ne : 0 < length payload)
      (small : length payload < 0x2000)
      (run : decode_payload lib malloc d.opus payload false ≡ done (opus', heard)) where
    abbrev n : ℕ
    n = length payload

    abbrev body : List ℕ
    body = encoding n ++ payload

    length-body : length body ≡ encode_size n + n
    length-body = framed_length payload

    samples_lem :
        decode_samples lib malloc (suc fuel) unset d.opus body (pos (length body)) audio
        ≡ done (
          opus',
          record audio { pcm = some heard.pcm; samples = heard.ret; hz = 48000 },
          drop heard.ret body,
          pos (length body) -ℤ pos heard.ret,
        )
    unfolding decode_samples
    samples_lem =
        rw (opus, length-body, decode_framed lib malloc fuel unset d.opus payload ne small, run)

    -- A frame that has at least as many samples as bytes is accepted.
    pub decode_body-accepts :
        encode_size (length payload) + length payload ≤ heard.ret
        → decode_body lib malloc
            (suc fuel)
            unset
            d
            (encoding (length payload) ++ payload)
            (pos (length (encoding (length payload) ++ payload)))
            audio
          ≡ done (
            record d { sequence = u32 audio.sequence; opus = opus' },
            record {
              ret = 0;
              audio = record audio { pcm = some heard.pcm; samples = heard.ret; hz = 48000 };
              called = d.cb;
            },
          )
    unfolding decode_body
    decode_body-accepts many =
        rw (not_late audio.sequence d.sequence in_order, samples_lem)
          (rw
            (no_position (drop heard.ret body) (length body) heard.ret
              (record audio { pcm = some heard.pcm; samples = heard.ret; hz = 48000 })
              (omega (arith, length-body)))
            refl)

    -- With fewer samples than bytes, the decoder takes what it did not count for a position: unless twelve
    -- bytes are left over, it is a failed `assert`.
    pub decode_body-abort :
        heard.ret < encode_size (length payload) + length payload
        → heard.ret + 12 ≢ encode_size (length payload) + length payload
        → decode_body lib malloc
            (suc fuel)
            unset
            d
            (encoding (length payload) ++ payload)
            (pos (length (encoding (length payload) ++ payload)))
            audio
          ≡ abort
    unfolding decode_body
    decode_body-abort few twelve =
        rw (not_late audio.sequence d.sequence in_order, samples_lem)
          (rw
            (bad_position (drop heard.ret body) (length body) heard.ret
              (record audio { pcm = some heard.pcm; samples = heard.ret; hz = 48000 })
              (omega (arith, length-body)) (λ e. twelve (omega (arith, length-body, e))))
            refl)

  -- `encoder_codec_cb` with a block of the size asked for, on an Opus frame behind its length, gives the callback a packet; with the source put in behind
  -- its first byte, as in the packets that a client receives, `mumble_audio_decoder_decode` reads it back:
  -- it calls back with the target's low five bits, the source, the sequence number, and the samples of the frame. This is for numbers below
  -- 2 ^ 31, a sequence number that is not late, more than eight bytes in all, and a frame that libopus decodes to
  -- at least as many samples as the body has bytes.
  pub decode-encoder_codec_packet :
      (fuel unset source sequence : ℕ) (target : ℕ) (position payload block : List ℕ)
      (d : AudioDecoder lib) (opus' : lib.Decoder) (heard : Heard)
      → malloc (encoded_size (length (encoding (length payload) ++ payload))) ≡ some block
      → length block ≡ encoded_size (length (encoding (length payload) ++ payload))
      → length position ≡ 12
      → 0 < length payload
      → length payload < 0x2000
      → source < 2 ^ 31
      → sequence < 2 ^ 31
      → d.sequence ≤ sequence
      → 8
        < 1
          + encode_size source
          + encode_size sequence
          + (encode_size (length payload) + length payload)
      → decode_payload lib malloc d.opus payload false ≡ done (opus', heard)
      → encode_size (length payload) + length payload ≤ heard.ret
      → (first : ℕ) × (rest : List ℕ) × (encoder_codec_packet malloc
            (record { codec = 4; target = target; position = position })
            sequence
            (encoding (length payload) ++ payload)
          ≡ done (first ∷ rest))
        × (decode lib malloc
              (suc fuel)
              unset
              d
              (first ∷ (encoding source ++ rest))
              (pos (length (first ∷ (encoding source ++ rest))))
            ≡ done (
              record d { sequence = sequence; opus = opus'; packets = u32 (d.packets + 1) },
              record {
                ret = 0;
                audio = record {
                  codec = 4;
                  samples = heard.ret;
                  hz = 48000;
                  pcm = some heard.pcm;
                  position = replicate 12 0;
                  sequence = sequence;
                  source = source;
                  target = target % 32;
                };
                called = d.cb;
              },
            ))
  decode-encoder_codec_packet fuel unset source sequence target position payload block d opus' heard
        e whole twelve ne small hs hq order long run many =
      let body : List ℕ = encoding (length payload) ++ payload in
      let size = framed_length payload in
      let d' : AudioDecoder lib = record d { packets = u32 (d.packets + 1) } in
      let total : length (encoding source ++ (encoding sequence ++ body))
          ≡ encode_size source + encode_size sequence + length body =
        omega (
          arith,
          length-append (encoding source) (encoding sequence ++ body),
          length-append (encoding sequence) body,
          length-encoding source,
          length-encoding sequence,
        ) in
      let same : (n : ℕ) → n < 2 ^ 31 → received n ≡ n =
        λ n h. (received-eq_iff n (omega (arith, h))).1 (inl (omega (arith, h))) in
      let body_run =
        decode_body-accepts fuel unset d' payload
          (record {
            codec = 4;
            samples = 0;
            hz = 0;
            pcm = none;
            position = replicate 12 0;
            sequence = sequence;
            source = source;
            target = target % 32;
          })
          opus' heard refl order ne small run many in
      let head =
        decode_header lib malloc fuel unset 4 target source sequence d body (omega arith)
          (λ h. absurd (omega (arith, h))) (omega arith) (omega arith) (omega (arith, size)) in
      let head = rw (same sequence hq, same source hs) at head in
      let narrow : u32 sequence ≡ sequence = omega arith in
      let body_run = rw narrow at body_run in
      let counted : suc (length (encoding source ++ (encoding sequence ++ body)))
          ≡ 1 + encode_size source + encode_size sequence + length body =
        omega (arith, total) in
      (
        header_byte 4 target,
        encoding sequence ++ body,
        encoder_codec_packet_lem malloc (record { codec = 4; target = target; position = position })
            sequence body block e whole twelve
            (omega (arith, size, encode_size_bounds (length payload))),
        rw counted (head ∙ body_run),
      )
