-- ===== src/AudioDecoder.antt =====
-- The audio packets that lib/mumble/audio_decoder.c reads, over the Opus codec and the variable-length
-- integers. A `position_t` is the list of its twelve bytes.
pub mod Sequence
pub mod Fields
pub mod Packets
mod Tests
use mumble_web_demo.Prelude.{
  ℕ, zero, ◌+◌, ◌-◌, ◌^◌, bit_and, Bool, true, false, not, Option, none, some, List, [], ◌∷◌, ltb,
  leb, ◌==◌, if◌then◌else◌, length, drop, replicate, u32, ◌>>>◌, Outcome, done, ◌>>=◌, ◌>>◌, check,
  read,
}
use mumble_web_demo.Prelude.Int.{ℤ, pos, ◌-ℤ◌, ltb_ℤ}
use mumble_web_demo.Prelude.Signed.{of_int, positive}
use mumble_web_demo.Prelude.Memory.{read_at}
use mumble_web_demo.Varint
use mumble_web_demo.Opus
use mumble_web_demo.Opus.{LibOpus, Blocks, create_decoder}

-- `mumble_audio_decoder_t`; the callback is there or not.
pub record AudioDecoder (lib : LibOpus) : Type 0 where
  pub cb : Bool
  pub opus : lib.Decoder
  pub sequence : ℕ
  pub packets : ℕ
  pub dropped_sequence : ℕ

-- `audio_packet_t`; `data` is the block of samples, if there is one.
pub record AudioPacket : Type 0 where
  pub codec : ℕ
  pub samples : ℕ
  pub hz : ℕ
  pub pcm : Option (List ℕ)
  pub position : List ℕ
  pub sequence : ℕ
  pub source : ℕ
  pub target : ℕ

-- The return value, `*audio`, and whether the callback was called with it.
pub record Read : Type 0 where
  pub ret : ℕ
  pub audio : AudioPacket
  pub called : Bool

-- `MUMBLE_AUDIO_TYPE` and `MUMBLE_AUDIO_TARGET`
abbrev pub audio_type : ℕ → ℕ
audio_type b = bit_and b 0xE0 >>> 5

abbrev pub audio_target : ℕ → ℕ
audio_target b = bit_and b 0x1F

-- A varint read off the front, as each `varint_decode` of the file: the value, and the rest with its length.
unfoldable pub take_varint : ℕ → ℕ → List ℕ → ℤ → Outcome (ℕ × List ℕ × ℤ)
take_varint fuel unset buf len = do
  d ← Varint.decode fuel buf len unset
  n ← positive d.ret
  done (d.result, drop n buf, len -ℤ pos n)

-- The positional part, where something is left.
unfoldable pub read_position : List ℕ → ℤ → AudioPacket → Outcome AudioPacket
read_position buf len audio =
    if ltb_ℤ (pos 0) len
    then (do
      check (of_int len == 12)
      position ← read_at buf 0 12
      done (record audio { position = position }))
    else done audio

module _ (lib : LibOpus) (malloc : Blocks) where
  -- `mumble_audio_decoder_init`
  unfoldable pub init : Outcome (AudioDecoder lib)
  init = do
    opus ← create_decoder lib malloc
    done (record { cb = false; opus = opus; sequence = 0; packets = 0; dropped_sequence = 0 })

  -- The Opus part: the codec, the packet, and what is left: `buf += ret; len -= ret` by the number of samples.
  unfoldable pub decode_samples :
      ℕ
      → ℕ
      → lib.Decoder
      → List ℕ
      → ℤ
      → AudioPacket
      → Outcome (lib.Decoder × AudioPacket × List ℕ × ℤ)
  decode_samples fuel unset opus buf len audio =
      if audio.codec == 4
      then (do
        (opus', heard) ← Opus.decode lib malloc fuel unset opus buf len
        done (
          opus',
          record audio { pcm = some heard.pcm; samples = heard.ret; hz = 48000 },
          drop heard.ret buf,
          len -ℤ pos heard.ret,
        ))
      else done (opus, audio, buf, len)

  -- What follows the sequence number.
  unfoldable pub decode_body :
      ℕ → ℕ → AudioDecoder lib → List ℕ → ℤ → AudioPacket → Outcome (AudioDecoder lib × Read)
  unfolding decode_samples read_position
  decode_body fuel unset decoder buf len audio =
      if ltb audio.sequence decoder.sequence
      then done (
        record decoder { dropped_sequence = u32 (decoder.dropped_sequence + 1) },
        record { ret = 1; audio = audio; called = false },
      )
      else (do
        (opus', audio', buf', len') ← decode_samples fuel unset decoder.opus buf len audio
        audio'' ← read_position buf' len' audio'
        done (
          record decoder { sequence = u32 audio.sequence; opus = opus' },
          record { ret = 0; audio = audio''; called = decoder.cb },
        ))

  -- `mumble_audio_decoder_decode`, with fuel for `varint_decode`; `unset` is what its variables hold
  -- before they are set.
  unfoldable pub decode : ℕ → ℕ → AudioDecoder lib → List ℕ → ℤ → Outcome (AudioDecoder lib × Read)
  unfolding take_varint decode_body
  decode fuel unset decoder buf len = do
    check (ltb_ℤ (pos 8) len)
    b ← read buf 0
    check (not (audio_type b == 1))
    (source, buf', len') ← take_varint fuel unset (drop 1 buf) (len -ℤ pos 1)
    (sequence, buf'', len'') ← take_varint fuel unset buf' len'
    decode_body fuel unset (record decoder { packets = u32 (decoder.packets + 1) }) buf'' len''
        (record {
          codec = audio_type b;
          samples = 0;
          hz = 0;
          pcm = none;
          position = replicate 12 0;
          sequence = sequence;
          source = source;
          target = audio_target b;
        })

-- `mumble_audio_decoder_set_cb`
unfoldable pub set_cb : {lib : LibOpus} → AudioDecoder lib → Bool → AudioDecoder lib
set_cb decoder cb = record decoder { cb = cb }
