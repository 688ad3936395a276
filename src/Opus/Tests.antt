-- ===== src/Opus/Tests.antt =====
-- Runs of the Opus codec, over a codec that keeps three bytes of a frame.
use mumble_web_demo.Prelude.{
  ℕ, suc, ◌≡◌, ◌⊎◌, ◌*◌, ◌<◌, ◌≤◌, ◌++◌, drop, abort, length-replicate, refl, true, false, List, [],
  ◌∷◌, length, replicate, Outcome, done, fault, ◌>>=◌, arith,
}
use mumble_web_demo.Prelude.Int.{ℤ, pos, pos_part, ◌-ℤ◌}
use mumble_web_demo.Buffer.{Call}
use mumble_web_demo.Varint.{encode_size}
use mumble_web_demo.Fixtures.{toy_opus, toy_opus-IsOpus, blocks, sample_codec}
use mumble_web_demo.Opus.{LibOpus, IsOpus, Codec, decode, decode_payload, on_encoder_frame}
use mumble_web_demo.Opus.Laws.{decode-on_encoder_frame, decode_payload_cases}
use mumble_web_demo.Varint

abbrev sample_frame : Call
sample_frame = record { bytes = 1 ∷ 2 ∷ 3 ∷ 4 ∷ []; final = false }

abbrev sample_stored : List ℕ
sample_stored = 1 ∷ 2 ∷ 3 ∷ []

abbrev collect : List Call → Call → Outcome (List Call)
collect s c = done (c ∷ s)

frame_run :
    on_encoder_frame toy_opus blocks collect [] sample_codec sample_frame
    ≡ done (
      record { bytes = 3 ∷ 1 ∷ 2 ∷ 3 ∷ []; final = false } ∷ [],
      record sample_codec {
        codec_out = 1 ∷ 2 ∷ 3 ∷ replicate 5 0;
        framed_out = 3 ∷ 1 ∷ 2 ∷ 3 ∷ replicate 4 0;
      },
    )
unfolding on_encoder_frame Varint.encode
frame_run = refl

-- The bit 0x2000 of the length is a termination.
termination_run :
    decode toy_opus blocks 1 9 tt (0xa0 ∷ 1 ∷ 7 ∷ []) (pos 3)
    ≡ done (tt, record { ret = 4; pcm = replicate 8 9; termination = true })
unfolding decode decode_payload Varint.decode ◌-ℤ◌
termination_run = refl

decode-on_encoder_frame_example :
    let lib = toy_opus in
    let malloc = blocks in
    let cb = collect in
    let s : List Call = [] in
    let codec = sample_codec in
    let frame = sample_frame in
    let stored = sample_stored in
    let fuel : ℕ = 0 in
    let varlen : ℕ = 9 in
    let decoder : Unit {0} = tt in
    (call : Call) × (codec' : Codec lib) × (on_encoder_frame lib malloc cb s codec frame
      ≡ (cb s call >>= λ s'. done (s', codec')))
    × (call.final ≡ frame.final)
    × (decode lib malloc (suc fuel) varlen decoder call.bytes (pos (length call.bytes))
        ≡ decode_payload lib malloc decoder stored false)
unfolding encode_size
decode-on_encoder_frame_example =
    decode-on_encoder_frame toy_opus blocks collect [] sample_codec sample_frame sample_stored 0 9
      tt toy_opus-IsOpus refl (omega arith) (omega arith) (omega arith)

-- A libopus that fills the room that it is told of.
abbrev filling : LibOpus
filling = record toy_opus {
  nb_samples = λ d bytes. pos 4;
  decode = λ d bytes room. (tt, room, replicate (2 * pos_part room) 9);
}

filling-IsOpus : IsOpus filling
filling-IsOpus = record {
  data_length = toy_opus-IsOpus.data_length;
  data_fits = toy_opus-IsOpus.data_fits;
  pcm_length = λ d bytes room. length-replicate (2 * pos_part room) 9;
  pcm_room = λ d bytes room. omega arith;
}

filling_faults : decode_payload filling blocks tt sample_stored false ≡ fault
unfolding decode_payload
filling_faults = refl

decode_payload_cases_example :
    let n : ℕ = 4 in
    let block : List ℕ = replicate 8 0 in
    (decoder' : Unit {0}) × (ret : ℤ) × (samples : List ℕ) × (filling.decode tt sample_stored
        (pos (2 * n))
      ≡ (decoder', ret, samples))
    × (((pos_part ret ≡ 0) × (decode_payload filling blocks tt sample_stored false ≡ abort))
        ⊎ ((0 < pos_part ret)
            × (pos_part ret ≤ n)
            × (decode_payload filling blocks tt sample_stored false
                ≡ done (
                  decoder',
                  record {
                    ret = pos_part ret;
                    pcm = samples ++ drop (2 * pos_part ret) block;
                    termination = false;
                  },
                )))
        ⊎ ((n < pos_part ret)
            × (pos_part ret ≤ 2 * n)
            × (decode_payload filling blocks tt sample_stored false ≡ fault)))
decode_payload_cases_example =
    decode_payload_cases filling blocks tt sample_stored (replicate 8 0) false 4 filling-IsOpus refl
      refl refl
