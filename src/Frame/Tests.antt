-- ===== src/Frame/Tests.antt =====
-- Runs of the encoder and the decoder of frames, with a protobuf of pairs of a type and bytes.
use mumble_web_demo.Prelude.{
  ℕ, ◌+◌, ◌≤◌, ◌<◌, ◌≡◌, ◌≢◌, ◌⊎◌, refl, ap, true, false, Option, none, some, List, [], ◌∷◌, ◌++◌,
  length, replicate, arith, done, abort, fault, ◌>>=◌,
}
use mumble_web_demo.Prelude.Int.{pos}
use mumble_web_demo.Frame.{
  Descriptor, udptunnel, ping, FrameBuffer, descriptor, type_count, sizeof_descriptors, frame,
  IsValid, contents,
}
use mumble_web_demo.Frame.Types.{type_number, descriptor_cases}
use mumble_web_demo.Frame.Encoder.{encode}
use mumble_web_demo.Frame.Decoder.{ready, frame_size, frame_type, is_audio, append, pop, decode}
use mumble_web_demo.Frame.Decoder.Header.{append_lem}
use mumble_web_demo.Fixtures.{sample_pb, sample_laws}
use mumble_web_demo.Frame.Stream.{Entry, wire, Represents, encode_enqueues, decode_dequeues}

-- A decoder with this in its block.
abbrev holding : List ℕ → ℕ → FrameBuffer
holding bytes size = record {
  buffer = bytes ++ replicate 20 0;
  buffer_allocated = length bytes + 20;
  buffer_size = size;
}

abbrev empty : FrameBuffer
empty = holding [] 0

abbrev full : FrameBuffer
full = holding (0 ∷ 3 ∷ 0 ∷ 0 ∷ 0 ∷ 2 ∷ 7 ∷ 8 ∷ []) 8

empty-IsValid : IsValid empty
empty-IsValid = record { whole = refl; fits = omega arith; within = omega arith }

full-IsValid : IsValid full
full-IsValid = record { whole = refl; fits = omega arith; within = omega arith }

ping-no_audio : ping ≢ udptunnel
unfolding type_number
ping-no_audio e = let n : 3 ≡ 1 = ap type_number e in absurd (omega (arith, n))

abbrev sample_entry : Entry sample_pb
unfolding type_number
sample_entry = record {
  kind = ping;
  message = (ping, 7 ∷ 8 ∷ []);
  is_kind = refl;
  no_audio = ping-no_audio;
}

empty-Represents : Represents sample_pb empty []
unfolding wire
empty-Represents = record { valid = empty-IsValid; bytes = refl }

full-Represents : Represents sample_pb full (sample_entry ∷ [])
unfolding wire type_number
full-Represents = record { valid = full-IsValid; bytes = refl }

full-holds : contents full ≡ frame (type_number ping) (7 ∷ 8 ∷ []) ++ []
unfolding type_number
full-holds = refl

-- Five bytes are ready.
five_ready : ready (holding (0 ∷ 3 ∷ 0 ∷ 0 ∷ 0 ∷ []) 5) ≡ done true
unfolding ready frame_size
five_ready = refl

decode_full :
    decode sample_pb full false none
    ≡ done (record {
      ctx = record full { buffer_size = 0 };
      ret = pos 3;
      message = some (ping, 7 ∷ 8 ∷ []);
    })
unfolding decode descriptor ready frame_size frame_type is_audio pop
decode_full = refl

encode_enqueues_example :
    let pb = sample_pb in
    let enc = empty in
    let dec = empty in
    let queue : List (Entry sample_pb) = [] in
    let e = sample_entry in
    (enc' dec' : FrameBuffer) × (encode pb enc e.message ≡ done enc')
    × (append dec (contents enc') ≡ done (dec', true))
    × Represents pb dec' (queue ++ (e ∷ []))
unfolding sample_entry
encode_enqueues_example =
    encode_enqueues sample_pb sample_laws empty empty [] sample_entry empty-IsValid empty-Represents
      refl (omega arith) (omega arith)

decode_dequeues_example :
    let pb = sample_pb in
    let dec = full in
    let queue : List (Entry sample_pb) = [] in
    let e = sample_entry in
    let before : Option (Descriptor × List ℕ) = none in
    (dec' : FrameBuffer) × (decode pb dec false before
      ≡ done (record { ctx = dec'; ret = pos (type_number e.kind); message = some e.message }))
    × Represents pb dec' queue
decode_dequeues_example =
    decode_dequeues sample_pb sample_laws full sample_entry [] none full-Represents

append_lem_example :
    let ctx = full in
    let bs : List ℕ = 1 ∷ 2 ∷ [] in
    ((ctx.buffer_allocated < ctx.buffer_size + length bs) × (append ctx bs ≡ fault))
    ⊎ ((ctx.buffer_size + length bs ≤ ctx.buffer_allocated)
        × ((ctx' : FrameBuffer) × (append ctx bs ≡ (ready ctx' >>= λ r. done (ctx', r)))
            × (contents ctx' ≡ contents ctx ++ bs)
            × (ctx'.buffer_allocated ≡ ctx.buffer_allocated)
            × IsValid ctx'))
append_lem_example = append_lem full full-IsValid (1 ∷ 2 ∷ [])

descriptor_cases_example :
    let i : ℕ = 300 in
    ((d : Descriptor) × (type_number d ≡ i) × (descriptor i ≡ done d))
    ⊎ (((type_count ≤ i) × (i < sizeof_descriptors) × (descriptor i ≡ fault))
        ⊎ ((sizeof_descriptors ≤ i) × (descriptor i ≡ abort)))
descriptor_cases_example = descriptor_cases 300
