-- ===== src/Client/Tunnel.antt =====
-- What becomes of voice that comes through the TLS stream: `mumble_message_cb_adapter` hands the audio
-- decoder the frame from its header on.
use mumble_web_demo.Prelude.{
  ℕ, suc, ◌+◌, ◌-◌, ◌/◌, ◌%◌, ◌^◌, ◌≤◌, ◌<◌, ◌≡◌, ◌≢◌, refl, sym, ap, ◌∙◌, false, none, List, [],
  ◌∷◌, ◌++◌, take, drop, take-append-drop, length, replicate, u32, lt→ltb, done, abort, arith,
  dec_lt,
}
use mumble_web_demo.Prelude.Int.{pos}
use mumble_web_demo.Prelude.Signed.{remaining}
use mumble_web_demo.Varint.{encode_size}
use mumble_web_demo.Varint.Encoding.{encoding}
use mumble_web_demo.Varint.RoundTrip.{received}
use mumble_web_demo.Opus.{LibOpus, Blocks}
use mumble_web_demo.Frame.{Protobuf, FrameBuffer, IsValid, contents, frame, type_udptunnel}
use mumble_web_demo.Frame.Decoder.Laws.{pop_lem}
use mumble_web_demo.AudioDecoder.{
  AudioDecoder, AudioPacket, decode, decode_body, decode_samples, read_position, take_varint,
}
use mumble_web_demo.AudioDecoder.Fields.{take_encoding, below}
use mumble_web_demo.Client.{Client, Messages, handle_audio, on_audio_given}
use mumble_web_demo.Audio.{deliver}
use mumble_web_demo.Frame.Decoder.Header.{ready_total}

-- The front of a block is that of the bytes it holds.
front_of :
    (n a b c : ℕ) (xs rest : List ℕ)
    → take n xs ≡ a ∷ b ∷ c ∷ rest
    → (tail : List ℕ) × (xs ≡ a ∷ b ∷ c ∷ tail)
front_of n a b c xs rest h =
    (rest ++ drop n xs, sym (take-append-drop n xs) ∙ ap (λ t. t ++ drop n xs) h)

one_byte : (v : ℕ) → v < 0x80 → (encoding v ≡ v ∷ []) × (encode_size v ≡ 1) × (received v ≡ v)
unfolding encoding encode_size received
one_byte v h = (ground arith, ground arith, ground arith)

read_one :
    (fuel unset v k n : ℕ) (rest : List ℕ)
    → v < 0x80
    → n ≡ 1 + k
    → take_varint (suc fuel) unset (v ∷ rest) (pos n) ≡ done (v, rest, pos k)
read_one fuel unset v k n rest h e =
    let (bytes, size, same) = one_byte v h in
    let run = take_encoding fuel unset v k n rest (omega (arith, h)) (omega (arith, size, e)) in
    rw (bytes, same) at run

position_assert :
    (buf : List ℕ) (n : ℕ) (audio : AudioPacket)
    → 0 < n
    → n ≢ 12
    → read_position buf (pos n) audio ≡ abort
unfolding read_position
position_assert buf n audio h ne = ground (arith, ne)

module _ (lib : LibOpus) (malloc : Blocks) (fuel unset : ℕ) (d : AudioDecoder lib) where
  -- The packet that the header of a tunnelled frame reads as.
  abbrev pub misread : AudioPacket
  misread = record {
    codec = 0;
    samples = 0;
    hz = 0;
    pcm = none;
    position = replicate 12 0;
    sequence = 0;
    source = 1;
    target = 0;
  }

  decode_header_bytes :
      (tail : List ℕ) (size : ℕ)
      → 8 < size
      → decode lib malloc (suc fuel) unset d (0 ∷ 1 ∷ 0 ∷ tail) (pos size)
        ≡ decode_body lib malloc
            (suc fuel)
            unset
            (record d { packets = u32 (d.packets + 1) })
            tail
            (pos (size - 3))
            misread
  unfolding decode
  decode_header_bytes tail size long =
      rw
        (
          below 8 size long,
          remaining 1 (size - 1) size (omega arith),
          read_one fuel unset 1 (size - 2) (size - 1) (0 ∷ tail) (omega arith) (omega arith),
          read_one fuel unset 0 (size - 3) (size - 2) tail (omega arith) (omega arith),
        )
        refl

  too_short :
      (buf : List ℕ) (size : ℕ)
      → size ≤ 8
      → decode lib malloc (suc fuel) unset d buf (pos size) ≡ abort
  unfolding decode
  too_short buf size h = ground arith

  -- Without a sequence number so far, the rest of the frame is taken for a position.
  misread-abort :
      (tail : List ℕ) (size : ℕ)
      → d.sequence ≡ 0
      → size ≢ 15
      → decode lib malloc (suc fuel) unset d (0 ∷ 1 ∷ 0 ∷ tail) (pos size) ≡ abort
  unfolding decode_body decode_samples read_position
  misread-abort tail size first fifteen = elim (dec_lt 8 size) [
    | yes long ↦
        decode_header_bytes tail size long
        ∙ rw first rw
            (position_assert tail (size - 3) misread (omega arith)
              (λ e. fifteen (omega (arith, e))))
            refl
    | no few ↦ too_short (0 ∷ 1 ∷ 0 ∷ tail) size (omega arith)
  ]

  misread-dropped :
      (tail : List ℕ) (size : ℕ)
      → 0 < d.sequence
      → 8 < size
      → decode lib malloc (suc fuel) unset d (0 ∷ 1 ∷ 0 ∷ tail) (pos size)
        ≡ done (
          record d {
            packets = u32 (d.packets + 1);
            dropped_sequence = u32 (d.dropped_sequence + 1);
          },
          record { ret = 1; audio = misread; called = false },
        )
  unfolding decode_body
  misread-dropped tail size later long =
      decode_header_bytes tail size long ∙ rw (lt→ltb 0 d.sequence later) refl

module _ {lib : LibOpus} {Address : Type 0} (pb : Protobuf) (messages : Messages pb)
    (malloc : Blocks) (fuel unset : ℕ) (client : Client lib Address) (payload rest : List ℕ)
    (v : IsValid client.decoder)
    (holds : contents client.decoder ≡ frame type_udptunnel payload ++ rest)
    (small : length payload < 2 ^ 24) where
  buffer_front : (tail : List ℕ) × (client.decoder.buffer ≡ 0 ∷ 1 ∷ 0 ∷ tail)
  buffer_front =
      let (tail, e) =
        front_of client.decoder.buffer_size 0 1 (length payload / 2 ^ 24 % 2 ^ 8)
          client.decoder.buffer _ holds in
      (tail, e ∙ ap (λ (c : ℕ). 0 ∷ 1 ∷ c ∷ tail) (omega (arith, small)))

  -- The frame decoder is valid and holds a frame of type UDPTUNNEL with a payload of less than 2 ^ 24 bytes, then anything. While the audio decoder
  -- has had no sequence number above 0, the handling of the frame aborts, unless 15 bytes are held in all.
  pub handle_audio-abort :
      client.audio.decoder.sequence ≡ 0
      → client.decoder.buffer_size ≢ 15
      → handle_audio pb messages malloc (suc fuel) unset client ≡ abort
  unfolding handle_audio
  handle_audio-abort first fifteen =
      rw
        (
          buffer_front.1,
          misread-abort lib malloc fuel unset client.audio.decoder buffer_front.0
              client.decoder.buffer_size first fifteen,
        )
        refl

  -- The same, and the audio decoder has had a sequence number above 0, and more than eight bytes are held. Then the frame is dropped as one that is late, whatever voice it
  -- carries: no callback is called, the drop is counted, and the frame decoder goes on behind the frame.
  pub handle_audio-drops :
      0 < client.audio.decoder.sequence
      → 8 < client.decoder.buffer_size
      → (dec' : FrameBuffer) × (contents dec' ≡ rest)
        × (handle_audio pb messages malloc (suc fuel) unset client
            ≡ done (
              record client {
                audio = record client.audio {
                  decoder = record client.audio.decoder {
                    packets = u32 (client.audio.decoder.packets + 1);
                    dropped_sequence = u32 (client.audio.decoder.dropped_sequence + 1);
                  };
                };
                decoder = dec';
              },
              [],
            ))
  unfolding handle_audio deliver on_audio_given
  handle_audio-drops later long =
      let (dec', popped, left, v') = pop_lem client.decoder v type_udptunnel payload rest holds in
      let d = client.audio.decoder in
      let run : decode lib malloc (suc fuel) unset d client.decoder.buffer
            (pos client.decoder.buffer_size)
          ≡ done (
            record d {
              packets = u32 (d.packets + 1);
              dropped_sequence = u32 (d.dropped_sequence + 1);
            },
            record { ret = 1; audio = misread lib malloc fuel unset d; called = false },
          ) =
        rw (buffer_front.1) (
          misread-dropped lib malloc fuel unset d buffer_front.0 client.decoder.buffer_size later
            long) in
      (dec', left, rw (run, popped, (ready_total dec' v').1) refl)
