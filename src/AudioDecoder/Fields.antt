-- ===== src/AudioDecoder/Fields.antt =====
-- The fields of a packet as audio_decoder.c reads back what audio_encoder.c wrote.
use mumble_web_demo.Prelude.{
  ℕ, zero, suc, ◌+◌, ◌*◌, ◌^◌, ◌%◌, ◌≤◌, ◌<◌, ◌≡◌, ◌≢◌, refl, bit_and, false, none, List, ◌∷◌, ◌++◌,
  ltb, ◌==◌, length, replicate, length-append, drop-append, u32, done, abort, check, not, arith,
}
use mumble_web_demo.Prelude.Int.{pos, ◌-ℤ◌, ltb_ℤ}
use mumble_web_demo.Prelude.Signed.{positive_lem, remaining}
use mumble_web_demo.Bits.{bit_and_mask, bit_or_fields}
use mumble_web_demo.Bits.Masks.{bit_and_0xe0}
use mumble_web_demo.Varint.{encode_size}
use mumble_web_demo.Varint.Encoding.{encoding, length-encoding, encode_size_bounds}
use mumble_web_demo.Varint.RoundTrip.{received, decode-encoding}
use mumble_web_demo.Opus.{LibOpus, Blocks}
use mumble_web_demo.AudioEncoder.{header_byte}
use mumble_web_demo.AudioDecoder.{
  AudioDecoder, AudioPacket, audio_type, audio_target, take_varint, read_position, decode_body,
  decode,
}

-- The first byte carries the codec and the low five bits of the target.
header_lem :
    (codec target : ℕ)
    → codec < 8
    → (audio_type (header_byte codec target) ≡ codec)
      × (audio_target (header_byte codec target) ≡ target % 32)
header_lem codec target h =
    let low : bit_and target 0x1F ≡ target % 32 = bit_and_mask 5 target in
    let b : header_byte codec target ≡ codec * 32 + target % 32 =
      rw (low, bit_or_fields 5 codec (target % 32) (omega arith)) (omega arith) in
    (
      rw (b, bit_and_0xe0 (codec * 32 + target % 32) (omega arith)) (omega arith),
      rw (b, bit_and_mask 5 (codec * 32 + target % 32)) (omega arith),
    )

pub below : (n m : ℕ) → n < m → check (ltb_ℤ (pos n) (pos m)) ≡ done tt
below n m h = ground arith

pub no_position :
    (buf : List ℕ) (n k : ℕ) (audio : AudioPacket)
    → n ≤ k
    → read_position buf (pos n -ℤ pos k) audio ≡ done audio
unfolding read_position ◌-ℤ◌
no_position buf n k audio h = ground arith

pub bad_position :
    (buf : List ℕ) (n k : ℕ) (audio : AudioPacket)
    → k < n
    → k + 12 ≢ n
    → read_position buf (pos n -ℤ pos k) audio ≡ abort
unfolding read_position ◌-ℤ◌
bad_position buf n k audio h ne = ground (arith, ne)

pub not_late : (n m : ℕ) → m ≤ n → ltb n m ≡ false
not_late n m h = ground arith

not_ping : (codec : ℕ) → codec ≢ 1 → check (not (codec == 1)) ≡ done tt
not_ping codec h = ground (arith, h)

-- A varint on the front of what is left.
pub take_encoding :
    (fuel unset v k n : ℕ) (rest : List ℕ)
    → v < 2 ^ 64
    → n ≡ encode_size v + k
    → take_varint (suc fuel) unset (encoding v ++ rest) (pos n) ≡ done (received v, rest, pos k)
unfolding take_varint
take_encoding fuel unset v k zero rest h e = absurd (omega (arith, encode_size_bounds v))
take_encoding fuel unset v k (suc n) rest h e = rw (
  decode-encoding fuel v n unset rest (omega arith) h,
  positive_lem (pos (encode_size v)) (omega (arith, encode_size_bounds v)),
  remaining (encode_size v) k (suc n) e,
  drop-append (encode_size v) 0 (encoding v) rest (omega (arith, length-encoding v)),
)

pub framed_length :
    (payload : List ℕ)
    → length (encoding (length payload) ++ payload) ≡ encode_size (length payload) + length payload
framed_length payload =
    omega
      (arith, length-append (encoding (length payload)) payload, length-encoding (length payload))

module _ (lib : LibOpus) (malloc : Blocks) where
  -- What the decoder reads in front of the body of a packet.
  pub decode_header :
      (fuel unset codec target source sequence : ℕ) (d : AudioDecoder lib) (body : List ℕ)
      → codec < 8
      → codec ≢ 1
      → source < 2 ^ 64
      → sequence < 2 ^ 64
      → 8 < 1 + encode_size source + encode_size sequence + length body
      → decode lib malloc
          (suc fuel)
          unset
          d
          (header_byte codec target ∷ (encoding source ++ (encoding sequence ++ body)))
          (pos (1 + encode_size source + encode_size sequence + length body))
        ≡ decode_body lib malloc
            (suc fuel)
            unset
            (record d { packets = u32 (d.packets + 1) })
            body
            (pos (length body))
            (record {
              codec = codec;
              samples = 0;
              hz = 0;
              pcm = none;
              position = replicate 12 0;
              sequence = received sequence;
              source = received source;
              target = target % 32;
            })
  unfolding decode
  decode_header fuel unset codec target source sequence d body small ping hs hq long =
      let m = encode_size source in
      let k = encode_size sequence in
      let tail : List ℕ = encoding sequence ++ body in
      let tail_length : length tail ≡ k + length body =
        omega (arith, length-append (encoding sequence) body, length-encoding sequence) in
      rw
        (
          below 8 (1 + m + k + length body) long,
          (header_lem codec target small).0,
          (header_lem codec target small).1,
          not_ping codec ping,
          remaining 1 (m + length tail) (1 + m + k + length body) (omega arith),
          take_encoding fuel unset source (length tail) (m + length tail) tail hs refl,
        )
        (rw (take_encoding fuel unset sequence (length body) (length tail) body hq tail_length)
          refl)
