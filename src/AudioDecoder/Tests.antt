-- ===== src/AudioDecoder/Tests.antt =====
-- Runs of the encoder and the decoder of audio packets.
use mumble_web_demo.Prelude.{
  ℕ, suc, ◌+◌, ◌%◌, ◌≡◌, refl, true, false, none, some, List, [], ◌∷◌, ◌++◌, length, replicate, u32,
  done, arith,
}
use mumble_web_demo.Prelude.Int.{pos, ◌-ℤ◌}
use mumble_web_demo.Varint
use mumble_web_demo.Varint.{encode_size}
use mumble_web_demo.Varint.Encoding.{encoding}
use mumble_web_demo.Fixtures.{toy_opus, blocks, sample_decoder}
use mumble_web_demo.Opus.{Heard, decode_payload}
use mumble_web_demo.AudioEncoder.{encoder_codec_packet}
use mumble_web_demo.AudioDecoder.{
  AudioDecoder, AudioPacket, Read, take_varint, decode_body, decode_samples, read_position, decode,
}
use mumble_web_demo.AudioDecoder.Sequence.{
  accepted_sequences, Ascends, decode_all, decode_all-Ascends,
}
use mumble_web_demo.AudioDecoder.Packets.{decode-encoder_codec_packet}

abbrev sample_payload : List ℕ
sample_payload = 1 ∷ 2 ∷ 3 ∷ 4 ∷ 5 ∷ 6 ∷ 7 ∷ []

abbrev sample_heard : Heard
sample_heard = record { ret = 28; pcm = replicate 56 9; termination = false }

-- A packet of codec 0 with a source, a sequence number and a position.
abbrev positioned : ℕ → List ℕ
positioned sequence = 0 ∷ 1 ∷ sequence ∷ replicate 12 7

abbrev packet_read : ℕ → List ℕ → AudioPacket
packet_read sequence position = record {
  codec = 0;
  samples = 0;
  hz = 0;
  pcm = none;
  position = position;
  sequence = sequence;
  source = 1;
  target = 0;
}

abbrev first_read : Read
first_read = record { ret = 0; audio = packet_read 5 (replicate 12 7); called = true }

abbrev late_read : Read
late_read = record { ret = 1; audio = packet_read 3 (replicate 12 0); called = false }

abbrev after_first : AudioDecoder toy_opus
after_first = record sample_decoder { sequence = 5; packets = 1 }

first_run :
    decode toy_opus blocks 1 9 sample_decoder (positioned 5) (pos 15)
    ≡ done (after_first, first_read)
unfolding decode take_varint decode_body decode_samples read_position Varint.decode ◌-ℤ◌
first_run = refl

both_run :
    decode_all toy_opus blocks 1 9 sample_decoder (positioned 5 ∷ positioned 3 ∷ [])
    ≡ done (record after_first { packets = 2; dropped_sequence = 1 }, first_read ∷ late_read ∷ [])
unfolding decode_all decode take_varint decode_body decode_samples read_position Varint.decode ◌-ℤ◌
both_run = refl

decode-encoder_codec_packet_example :
    let lib = toy_opus in
    let malloc = blocks in
    let fuel : ℕ = 0 in
    let unset : ℕ = 9 in
    let source : ℕ = 2 in
    let sequence : ℕ = 5 in
    let target : ℕ = 31 in
    let position : List ℕ = replicate 12 0 in
    let payload = sample_payload in
    let d = sample_decoder in
    let opus' : Unit {0} = tt in
    let heard = sample_heard in
    (first : ℕ) × (rest : List ℕ) × (encoder_codec_packet malloc
        (record { codec = 4; target = target; position = position })
        sequence
        (encoding (length payload) ++ payload)
      ≡ done (first ∷ rest))
    × (decode lib malloc
          (suc fuel)
          unset
          d
          (first ∷ (encoding source ++ rest))
          (pos (length (first ∷ (encoding source ++ rest))))
        ≡ done (
          record d { sequence = sequence; opus = opus'; packets = u32 (d.packets + 1) },
          record {
            ret = 0;
            audio = record {
              codec = 4;
              samples = heard.ret;
              hz = 48000;
              pcm = some heard.pcm;
              position = replicate 12 0;
              sequence = sequence;
              source = source;
              target = target % 32;
            };
            called = d.cb;
          },
        ))
unfolding encoding encode_size decode_payload
decode-encoder_codec_packet_example =
    decode-encoder_codec_packet toy_opus blocks 0 9 2 5 31 (replicate 12 0) sample_payload
      (replicate 45 0) sample_decoder tt sample_heard refl refl refl (omega arith) (omega arith)
      (omega arith) (omega arith) (omega arith) (omega arith) refl (omega arith)

decode_all-Ascends_example :
    let d = sample_decoder in
    let reads = first_read ∷ late_read ∷ [] in Ascends d.sequence (accepted_sequences reads)
decode_all-Ascends_example =
    decode_all-Ascends toy_opus blocks 1 9 sample_decoder (positioned 5 ∷ positioned 3 ∷ [])
      (record after_first { packets = 2; dropped_sequence = 1 }) (first_read ∷ late_read ∷ [])
      both_run (omega arith, (omega arith, tt))
