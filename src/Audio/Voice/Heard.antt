-- ===== src/Audio/Voice/Heard.antt =====
-- Voice of audio.c on its way in: what `udp_cb` makes of a packet of voice that a server passes on.
use mumble_web_demo.Prelude.{
  ℕ, suc, ◌+◌, ◌%◌, ◌^◌, ◌≤◌, ◌<◌, ◌≡◌, refl, bit_and, true, false, some, List, [], ◌∷◌, ◌++◌, All,
  All-append, IsByte, length, length-append, replicate, u32, ◌==◌, done, arith,
}
use mumble_web_demo.Bits.{bit_and_mask, bit_or_fields}
use mumble_web_demo.Varint.{encode_size}
use mumble_web_demo.Varint.Encoding.{encoding, length-encoding, encode_size_bounds}
use mumble_web_demo.Opus.{LibOpus, Blocks, Heard, decode_payload}
use mumble_web_demo.AudioEncoder.{header_byte, encoded_size}
use mumble_web_demo.AudioEncoder.Packets.{encoder_codec_packet_lem}
use mumble_web_demo.AudioDecoder.{AudioDecoder, AudioPacket}
use mumble_web_demo.AudioDecoder.Packets.{decode-encoder_codec_packet}
use mumble_web_demo.Audio.{Audio, udp_cb}

header_byte_bounds : (target : ℕ) → (header_byte 4 target < 256) × (128 ≤ header_byte 4 target)
header_byte_bounds target =
    let low : bit_and target 0x1F ≡ target % 32 = bit_and_mask 5 target in
    rw (low, bit_or_fields 5 4 (target % 32) (omega arith)) (omega arith, omega arith)

encoding-bytes : (v : ℕ) → All IsByte (encoding v)
unfolding encoding
encoding-bytes v = ground arith

-- What the callback is given of a packet that carries these numbers and samples.
abbrev pub voice_packet : ℕ → ℕ → ℕ → Heard → AudioPacket
voice_packet source sequence target heard = record {
  codec = 4;
  samples = heard.ret;
  hz = 48000;
  pcm = some heard.pcm;
  position = replicate 12 0;
  sequence = sequence;
  source = source;
  target = target % 32;
}

-- The bytes of a packet of audio_encoder.c, and with the source behind the first of them.
abbrev pub voice_bytes : ℕ → ℕ → List ℕ → List ℕ
voice_bytes target sequence payload =
    header_byte 4 target ∷ (encoding sequence ++ (encoding (length payload) ++ payload))

abbrev pub relayed : ℕ → List ℕ → List ℕ
relayed source [] = []
relayed source (first ∷ rest) = first ∷ (encoding source ++ rest)

pub voice-bytes :
    (target sequence : ℕ) (payload : List ℕ)
    → All IsByte payload
    → All IsByte (voice_bytes target sequence payload)
voice-bytes target sequence payload h = (
  (header_byte_bounds target).0,
  All-append IsByte (encoding sequence) (encoding (length payload) ++ payload)
      (encoding-bytes sequence)
      (All-append IsByte (encoding (length payload)) payload (encoding-bytes (length payload)) h),
)

pub relayed-bytes :
    (source target sequence : ℕ) (payload : List ℕ)
    → All IsByte payload
    → All IsByte (relayed source (voice_bytes target sequence payload))
relayed-bytes source target sequence payload h =
    let sound = voice-bytes target sequence payload h in
    (
      sound.0,
      All-append IsByte (encoding source)
          (encoding sequence ++ (encoding (length payload) ++ payload)) (encoding-bytes source)
          sound.1,
    )

-- What `decode-encoder_codec_packet` asks of a frame of voice for a decoder.
pub record IsHeard (lib : LibOpus) (malloc : Blocks) (d : AudioDecoder lib) (source sequence : ℕ)
    (payload : List ℕ) (opus' : lib.Decoder) (heard : Heard) : Type 0 where
  pub some_data : 0 < length payload
  pub little : length payload < 0x2000
  pub source_small : source < 2 ^ 31
  pub sequence_small : sequence < 2 ^ 31
  pub in_order : d.sequence ≤ sequence
  pub long :
      8
      < 1
        + encode_size source
        + encode_size sequence
        + (encode_size (length payload) + length payload)
  pub decodes : decode_payload lib malloc d.opus payload false ≡ done (opus', heard)
  pub many : encode_size (length payload) + length payload ≤ heard.ret

pub framed_bound :
    (payload : List ℕ) → length (encoding (length payload) ++ payload) ≤ 9 + length payload
framed_bound payload = omega (
  arith,
  length-append (encoding (length payload)) payload,
  length-encoding (length payload),
  encode_size_bounds (length payload),
)

module _ {lib : LibOpus} {Address : Type 0} (malloc : Blocks) where
  -- `udp_cb` on a relayed packet of voice.
  pub udp_cb_hears :
      (fuel unset source sequence target : ℕ) (payload block : List ℕ) (audio : Audio lib Address)
      (opus' : lib.Decoder) (heard : Heard)
      → malloc (encoded_size (length (encoding (length payload) ++ payload))) ≡ some block
      → length block ≡ encoded_size (length (encoding (length payload) ++ payload))
      → IsHeard lib malloc audio.decoder source sequence payload opus' heard
      → audio.cb ≡ true
      → audio.decoder.cb ≡ true
      → udp_cb malloc (suc fuel) unset audio (relayed source (voice_bytes target sequence payload))
        ≡ done (
          record audio {
            decoder = record audio.decoder {
              sequence = sequence;
              opus = opus';
              packets = u32 (audio.decoder.packets + 1);
            };
          },
          some (voice_packet source sequence target heard),
          [],
        )
  unfolding udp_cb
  udp_cb_hears fuel unset source sequence target payload block audio opus' heard e whole h cb_there
        decoder_cb =
      let body : List ℕ = encoding (length payload) ++ payload in
      let twelve : List ℕ = replicate 12 0 in
      let (first, rest, packed, read_back) =
        decode-encoder_codec_packet lib malloc fuel unset source sequence target twelve payload
          block audio.decoder opus' heard e whole refl h.some_data h.little h.source_small
          h.sequence_small h.in_order h.long h.decodes h.many in
      let out =
        encoder_codec_packet_lem malloc (record { codec = 4; target = target; position = twelve })
          sequence body block e whole refl (omega (arith, framed_bound payload, h.little)) in
      let head : first ≡ header_byte 4 target = cc (packed, out) in
      let tail : rest ≡ encoding sequence ++ body = cc (packed, out) in
      let read = rw (head, tail) at read_back in
      let other : (header_byte 4 target == 0x20) ≡ false =
        ground (arith, header_byte_bounds target) in
      rw (other, read, cb_there, decoder_cb) refl
