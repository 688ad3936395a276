-- ===== src/Frame/Stream.antt =====
-- An encoder's frames in a decoder: the decoder is a queue of messages.
use mumble_web_demo.Prelude.{
  ℕ, ◌+◌, ◌≤◌, ◌≡◌, ◌≢◌, inl, inr, refl, sym, ap, ◌∙◌, true, false, Option, some, List, [], ◌∷◌,
  ◌++◌, length, append-nil, append_assoc, done, ◌>>=◌, arith,
}
use mumble_web_demo.Prelude.Int.{pos}
use mumble_web_demo.Frame.{
  Descriptor, udptunnel, Protobuf, IsProtobuf, FrameBuffer, frame, IsValid, contents,
}
use mumble_web_demo.Frame.Types.{type_number}
use mumble_web_demo.Frame.Encoder.{encode}
use mumble_web_demo.Frame.Encoder.Laws.{encode_cases}
use mumble_web_demo.Frame.Decoder.{ready, append, decode}
use mumble_web_demo.Frame.Decoder.Header.{append_lem}
use mumble_web_demo.Frame.Decoder.Laws.{ready-holds, decode_lem}

module _ (pb : Protobuf) where
  open pb use {Message, name, message_name, pack}

  -- A message that goes out with the type `kind`.
  pub record Entry : Type 0 where
    pub kind : Descriptor
    pub message : Message
    pub is_kind : message_name message ≡ name kind
    pub no_audio : kind ≢ udptunnel

  -- The bytes of the frames of a queue.
  unfoldable pub wire : List Entry → List ℕ
  wire [] = []
  wire (e ∷ es) = frame (type_number e.kind) (pack e.message) ++ wire es

  -- The decoder holds the frames of the queue, and nothing else.
  pub record Represents (ctx : FrameBuffer) (queue : List Entry) : Type 0 where
    pub valid : IsValid ctx
    pub bytes : contents ctx ≡ wire queue

module _ (pb : Protobuf) (laws : IsProtobuf pb) where
  open pb use {Message, mumble_proto, message_name, message_package, packed_size, pack}

  wire-append :
      (es : List (Entry pb)) (e : Entry pb)
      → wire pb (es ++ (e ∷ [])) ≡ wire pb es ++ (wire pb (e ∷ []))
  unfolding wire
  wire-append [] e = refl
  wire-append (x ∷ es) e =
      ap (λ t. frame (type_number x.kind) (pack x.message) ++ t) (wire-append es e)
      ∙ sym (
          append_assoc (frame (type_number x.kind) (pack x.message)) (wire pb es)
            (wire pb (e ∷ [])))

  -- A decoder with a message in its queue is ready.
  Represents-ready :
      (ctx : FrameBuffer) (es : List (Entry pb)) (e : Entry pb)
      → Represents pb ctx (es ++ (e ∷ []))
      → ready ctx ≡ done true
  unfolding wire
  Represents-ready ctx [] e r = ready-holds ctx r.valid _ _ [] r.bytes
  Represents-ready ctx (x ∷ es) e r = ready-holds ctx r.valid _ _ (wire pb (es ++ (e ∷ []))) r.bytes

  -- The encoder is valid, the decoder represents a queue, the message is one of MumbleProto and
  -- not UDPTUNNEL, and both blocks have room for its frame. Then to encode the message and to
  -- append what the encoder then holds to the decoder puts the message at the end of the queue and
  -- reports a frame as ready.
  pub encode_enqueues :
      (enc dec : FrameBuffer) (queue : List (Entry pb)) (e : Entry pb)
      → IsValid enc
      → Represents pb dec queue
      → message_package e.message ≡ mumble_proto
      → 6 + packed_size e.message ≤ enc.buffer_allocated
      → dec.buffer_size + 6 + packed_size e.message ≤ dec.buffer_allocated
      → (enc' dec' : FrameBuffer) × (encode pb enc e.message ≡ done enc')
        × (append dec (contents enc') ≡ done (dec', true))
        × Represents pb dec' (queue ++ (e ∷ []))
  unfolding wire
  encode_enqueues enc dec queue e v r proto room_enc room_dec =
      elim (encode_cases pb laws enc e.message e.kind v proto e.is_kind
        (omega (arith, room_enc, v.fits))) [
          | inl full ↦ absurd (omega (arith, full.0, room_enc))
          | inr sent ↦
              let enc' = sent.1.0 in
              let size : length (contents enc') ≡ 6 + packed_size e.message =
                omega (arith, ap length sent.1.2, laws.length-pack e.message) in
              elim (append_lem dec r.valid (contents enc')) [
                | inl full ↦ absurd (omega (arith, full.0, size, room_dec))
                | inr got ↦
                    let dec' = got.1.0 in
                    let queued : Represents pb dec' (queue ++ (e ∷ [])) = record {
                      valid = got.1.4;
                      bytes =
                          got.1.2
                          ∙ ap (λ t. contents dec ++ t) (sent.1.2 ∙ sym (append-nil _))
                          ∙ ap (λ t. t ++ wire pb (e ∷ [])) r.bytes
                          ∙ sym (wire-append queue e);
                    } in
                    (
                      enc',
                      dec',
                      sent.1.1,
                      got.1.1
                          ∙ ap (λ t. t >>= λ b. done (dec', b))
                              (Represents-ready dec' queue e queued),
                      queued,
                    )
              ]
        ]

  -- To decode, with a place for the message, takes the message at the head of the queue that the
  -- decoder represents: the call returns its type and the message, and the decoder represents the
  -- rest.
  pub decode_dequeues :
      (dec : FrameBuffer) (e : Entry pb) (queue : List (Entry pb)) (before : Option Message)
      → Represents pb dec (e ∷ queue)
      → (dec' : FrameBuffer) × (decode pb dec false before
          ≡ done (record { ctx = dec'; ret = pos (type_number e.kind); message = some e.message }))
        × Represents pb dec' queue
  unfolding wire
  decode_dequeues dec e queue before r =
      let got =
        decode_lem pb laws dec e.kind e.message (wire pb queue) before r.valid e.no_audio e.is_kind
          r.bytes in
      (got.0, got.1, record { valid = got.3; bytes = got.2 })
