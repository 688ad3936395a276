-- ===== src/Opus.antt =====
-- The Opus codec of lib/mumble/codec/opus.c, over the framing buffer and the variable-length integers.
-- libopus and `malloc` are parameters. PCM is the list of the bytes that hold the samples.
-- The 48000 Hz of `opus_decoder_create` and the sizes of the structs are those of the source on x86-64.
pub mod Frames
pub mod Laws
pub mod Valid
mod Tests
use mumble_web_demo.Prelude.{
  ℕ, suc, ◌+◌, ◌-◌, ◌*◌, ◌/◌, ◌≤◌, ◌<◌, ◌≡◌, bit_and, Bool, true, false, not, Option, none, some,
  List, [], ◌∷◌, ltb, ◌==◌, if◌then◌else◌, length, Outcome, done, ◌>>=◌, ◌>>◌, check,
}
use mumble_web_demo.Prelude.Int.{ℤ, pos, pos_part, ◌-ℤ◌}
use mumble_web_demo.Prelude.Signed.{of_int, twice, positive, or_abort}
use mumble_web_demo.Prelude.Memory.{read_at, write_at}
use mumble_web_demo.Varint
use mumble_web_demo.Buffer
use mumble_web_demo.Buffer.{Buffer, Call}

-- What the program calls of libopus. The creations return whether `*error` is OPUS_OK, with the pointer.
-- `encode` is given the PCM, the samples of a frame and the room for the data; it returns the state of the
-- encoder, the return value and the bytes that it stores. `decode` is given the data and the room for
-- samples, and returns the same.
pub record LibOpus : Type 1 where
  pub Encoder : Type 0
  pub Decoder : Type 0
  pub application_voip : ℕ
  pub encoder_create : ℕ → ℕ → ℕ → Bool × Option Encoder
  pub decoder_create : ℕ → ℕ → Bool × Option Decoder
  pub encode : Encoder → List ℕ → ℕ → ℕ → Encoder × ℤ × List ℕ
  pub nb_samples : Decoder → List ℕ → ℤ
  pub decode : Decoder → List ℕ → ℤ → Decoder × ℤ × List ℕ

-- What libopus documents: the return value of `opus_encode` is the length of the data, which keeps to its
-- room; that of `opus_decode` is the number of samples, which keeps to the room that it is told of.
pub record IsOpus (lib : LibOpus) : Type 0 where
  pub data_length :
      (e : lib.Encoder) (pcm : List ℕ) (samples room : ℕ)
      → length (lib.encode e pcm samples room).2 ≡ pos_part (lib.encode e pcm samples room).1
  pub data_fits :
      (e : lib.Encoder) (pcm : List ℕ) (samples room : ℕ)
      → length (lib.encode e pcm samples room).2 ≤ room
  pub pcm_length :
      (d : lib.Decoder) (bytes : List ℕ) (room : ℤ)
      → length (lib.decode d bytes room).2 ≡ 2 * pos_part (lib.decode d bytes room).1
  pub pcm_room :
      (d : lib.Decoder) (bytes : List ℕ) (room : ℤ)
      → pos_part (lib.decode d bytes room).1 ≤ pos_part room

-- A block of the size asked for, or NULL.
abbrev pub Blocks : Type 0
Blocks = ℕ → Option (List ℕ)

-- `codec_opus_encoder_t`, less the callback; a `_codec_buf` is its block.
pub record Codec (lib : LibOpus) : Type 0 where
  pub encoder : lib.Encoder
  pub buffer : Buffer
  pub buffer_ms : ℕ
  pub codec_out : List ℕ
  pub framed_out : List ℕ

-- The return value of `mumble_codec_opus_decode`, the block of `*pcm`, and `*termination`.
pub record Heard : Type 0 where
  pub ret : ℕ
  pub pcm : List ℕ
  pub termination : Bool

-- `codec_buf_init`
unfoldable pub codec_buf_init : Blocks → ℕ → Outcome (List ℕ)
codec_buf_init malloc size = or_abort (malloc size)

-- The bit of the length that marks the end of a transmission.
pub split_length : ℕ → ℕ × Bool
split_length varlen =
    if bit_and varlen 0x2000 == 0 then (varlen, false) else (bit_and varlen 0x1FFF, true)

module _ (lib : LibOpus) (malloc : Blocks) where
  -- `mumble_codec_opus_create_decoder`
  unfoldable pub create_decoder : Outcome lib.Decoder
  create_decoder = do
    codec ← or_abort (malloc 8)
    let (ok, decoder) = lib.decoder_create 48000 1
    check ok
    or_abort decoder

  -- `mumble_codec_opus_decode` once the payload is known.
  unfoldable pub decode_payload : lib.Decoder → List ℕ → Bool → Outcome (lib.Decoder × Heard)
  decode_payload codec payload termination = do
    let pcm_len = twice (lib.nb_samples codec payload)
    block ← or_abort (malloc (of_int pcm_len))
    let (codec', ret, samples) = lib.decode codec payload pcm_len
    pcm ← write_at block 0 samples
    n ← positive ret
    done (codec', record { ret = n; pcm = pcm; termination = termination })

  -- `mumble_codec_opus_decode`, with fuel for `varint_decode`; `varlen` is not initialised.
  unfoldable pub decode : ℕ → ℕ → lib.Decoder → List ℕ → ℤ → Outcome (lib.Decoder × Heard)
  unfolding split_length decode_payload
  decode fuel varlen codec buf len = do
    d ← Varint.decode fuel buf len varlen
    let (size, termination) = split_length d.result
    n ← positive d.ret
    check (ltb 0 size)
    check (ltb size (of_int len))
    check (size == of_int (len -ℤ pos n))
    payload ← read_at buf n size
    decode_payload codec payload termination

  -- `on_encoder_frame`, with the callback of the codec, which acts on a state of its own.
  unfoldable pub on_encoder_frame :
      {S : Type 0} → (S → Call → Outcome S) → S → Codec lib → Call → Outcome (S × Codec lib)
  on_encoder_frame cb s codec frame = do
    let (encoder', ret, stored) =
        lib.encode codec.encoder frame.bytes (length frame.bytes / 2) (length codec.codec_out)
    out ← write_at codec.codec_out 0 stored
    n ← positive ret
    e ← Varint.encode n codec.framed_out (pos (length codec.framed_out)) 0
    check (e.ret == 0)
    check (ltb (n + e.written) (length codec.framed_out))
    payload ← read_at out 0 n
    framed ← write_at e.buf e.written payload
    bytes ← read_at framed 0 (e.written + n)
    s' ← cb s (record { bytes = bytes; final = frame.final })
    done (s', record codec { encoder = encoder'; codec_out = out; framed_out = framed })

  -- The calls of the framing buffer, one after the other.
  unfoldable pub on_encoder_frames :
      {S : Type 0} → (S → Call → Outcome S) → S → Codec lib → List Call → Outcome (S × Codec lib)
  unfolding on_encoder_frame
  on_encoder_frames cb s codec [] = done (s, codec)
  on_encoder_frames cb s codec (frame ∷ frames) =
      on_encoder_frame cb s codec frame >>= λ (s', codec'). on_encoder_frames cb s' codec' frames

  -- `mumble_codec_opus_create_encoder`, with the allocations of `mumble_buffer_create`;
  -- `audio_buffer_size` is a product of floats.
  unfoldable pub create_encoder : (ℕ → ℕ → ℕ) → ℕ → ℕ → ℕ → Outcome (Codec lib)
  unfolding codec_buf_init
  create_encoder audio_buffer_size sample_rate buffer_ms app = do
    codec ← or_abort (malloc 72)
    let (ok, created) =
        lib.encoder_create sample_rate 1 (if app == 0 then lib.application_voip else app)
    check ok
    encoder ← or_abort created
    let size = audio_buffer_size sample_rate buffer_ms
    buffer ← or_abort (malloc 32)
    block ← or_abort (malloc size)
    codec_out ← codec_buf_init malloc size
    framed_out ← codec_buf_init malloc size
    done (record {
      encoder = encoder;
      buffer = Buffer.create block;
      buffer_ms = buffer_ms;
      codec_out = codec_out;
      framed_out = framed_out;
    })

  -- `mumble_codec_opus_encode`, with fuel for the flushes of the framing buffer.
  unfoldable pub encode :
      {S : Type 0}
      → (S → Call → Outcome S)
      → ℕ
      → S
      → Codec lib
      → List ℕ
      → Bool
      → Outcome (S × Codec lib)
  unfolding on_encoder_frames
  encode cb calls_left s codec pcm termination = do
    (buffer', calls) ← Buffer.write calls_left (length pcm) termination codec.buffer pcm
    on_encoder_frames cb s (record codec { buffer = buffer' }) calls
