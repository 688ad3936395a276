-- ===== src/AudioEncoder.antt =====
-- The audio packets that lib/mumble/audio_encoder.c writes, over the Opus codec.
-- A `position_t` is the list of its twelve bytes. The callback acts on a state of its own.
pub mod Packets
use mumble_web_demo.Prelude.{
  ℕ, ◌+◌, ◌-◌, ◌*◌, ◌^◌, bit_and, bit_or, Bool, true, false, Option, none, some, List, [], ◌∷◌, ltb,
  leb, ◌==◌, length, drop, u8, u32, ◌<<<◌, Outcome, done, ◌>>=◌, ◌>>◌, check, in_range,
}
use mumble_web_demo.Prelude.Int.{pos, sub_ℕ}
use mumble_web_demo.Prelude.Signed.{of_int, or_abort}
use mumble_web_demo.Prelude.Memory.{read_at, write_at}
use mumble_web_demo.Varint
use mumble_web_demo.Buffer.{Call}
use mumble_web_demo.Opus.{LibOpus, Codec, Blocks, create_encoder}
use mumble_web_demo.Opus

-- `mumble_audio_encoder_t`; the callback is there or not.
pub record AudioEncoder (lib : LibOpus) : Type 0 where
  pub cb : Bool
  pub opus : Codec lib
  pub sequence : ℕ

-- The fields of `audio_packet_t` that the encoder sets.
pub record Outgoing : Type 0 where
  pub codec : ℕ
  pub target : ℕ
  pub position : List ℕ

-- The first byte of a packet, the product of two shifts stored into a `char`.
abbrev pub header_byte : ℕ → ℕ → ℕ
header_byte codec target = u8 (bit_or (codec <<< 5) (bit_and target 0x1F))

-- The room of the buffer of a packet.
abbrev pub encoded_size : ℕ → ℕ
encoded_size size = size + 8 * 3 + 12 + 1

-- The packet that `encoder_codec_cb` gives to the callback; `block` is the memory it allocates.
unfoldable pub encoder_codec_packet : Blocks → Outgoing → ℕ → List ℕ → Outcome (List ℕ)
encoder_codec_packet malloc packet sequence buf = do
  let size = length buf
  block ← or_abort (malloc (encoded_size size))
  in_range (ltb 0 (length block))
  e ← Varint.encode sequence (drop 1 block) (pos (encoded_size size)) 0
  check (e.ret == 0)
  let position = 1 + e.written
  check (ltb size (u32 (encoded_size size + 2 ^ 32 - position)))
  data' ← write_at (header_byte packet.codec packet.target ∷ e.buf) position buf
  check (ltb 12 (of_int (sub_ℕ (encoded_size size) (position + size))))
  data'' ← write_at data' (position + size) packet.position
  read_at data'' 0 (position + size)

module _ (lib : LibOpus) (malloc : Blocks) where
  -- `encoder_codec_cb`, on the sequence number of the encoder and the state of its callback.
  unfoldable pub encoder_codec_cb :
      {S : Type 0} → (S → List ℕ → Outcome S) → Bool → Outgoing → ℕ × S → Call → Outcome (ℕ × S)
  unfolding encoder_codec_packet
  encoder_codec_cb cb there packet (sequence, s) frame = do
    data' ← encoder_codec_packet malloc packet sequence frame.bytes
    in_range there
    s' ← cb s data'
    done (u32 (sequence + 1), s')

  -- `mumble_audio_encoder_init`
  unfoldable pub init : (ℕ → ℕ → ℕ) → ℕ → ℕ → ℕ → Outcome (AudioEncoder lib)
  init audio_buffer_size sample_rate buffer_ms app = do
    opus ← create_encoder lib malloc audio_buffer_size sample_rate buffer_ms app
    done (record { cb = false; opus = opus; sequence = 0 })

  -- `mumble_audio_encoder_encode`, with fuel for the framing buffer; `unset` is what the position of the packet
  -- holds where none is given.
  unfoldable pub encode :
      {S : Type 0}
      → (S → List ℕ → Outcome S)
      → ℕ
      → List ℕ
      → S
      → AudioEncoder lib
      → ℕ
      → List ℕ
      → Option (List ℕ)
      → Outcome (S × AudioEncoder lib)
  unfolding encoder_codec_cb
  encode cb calls_left unset s encoder target pcm position = do
    let packet : Outgoing = record { codec = 4; target = target; position = given position }
    ((sequence', s'), opus') ←
        Opus.encode lib malloc (encoder_codec_cb cb encoder.cb packet) calls_left
          (encoder.sequence, s) encoder.opus pcm false
    done (s', record encoder { opus = opus'; sequence = sequence' })
    where
      given : Option (List ℕ) → List ℕ
      given none = unset
      given (some p) = p

-- `mumble_audio_encoder_set_cb`
unfoldable pub set_cb : {lib : LibOpus} → AudioEncoder lib → Bool → AudioEncoder lib
set_cb encoder cb = record encoder { cb = cb }
