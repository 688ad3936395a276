-- ===== src/Client/Pump.antt =====
-- The loop of `mumble_message_cb_adapter` as a queue of messages.
use mumble_web_demo.Prelude.{
  ℕ, suc, ◌+◌, ◌≤◌, ◌≡◌, inl, inr, refl, ap, ◌∙◌, Option, none, some, List, [], ◌∷◌, ◌++◌,
  append_assoc, length, Outcome, done, or_fault, check, Bool-cases, bind_through, bind_assoc, ◌>>=◌,
  ◌==◌, if◌then◌else◌, arith,
}
use mumble_web_demo.Prelude.Int.{ℤ, pos, negsuc}
use mumble_web_demo.Opus.{LibOpus, Blocks}
use mumble_web_demo.Frame.{
  Protobuf, IsProtobuf, FrameBuffer, IsValid, contents, frame, type_crypt_setup,
}
use mumble_web_demo.Frame.Types.{type_number, type_number-lt}
use mumble_web_demo.Frame.Stream.{Entry, wire}
use mumble_web_demo.Frame.Decoder.{is_audio}
use mumble_web_demo.Frame.Decoder.Header.{append_lem, ready_total}
use mumble_web_demo.Frame.Decoder.Laws.{ready-holds, frame_type-holds, type-udptunnel, decode_lem}
use mumble_web_demo.Audio
use mumble_web_demo.Client.{
  Client, CryptSetup, message, Messages, Told, told, message_internal, encrypt, handle_message,
  handle_frame, handle_frames, pump, message_cb_adapter,
}
use mumble_web_demo.Client.Partial.{IsPartial, ready-IsPartial}

module _ (lib : LibOpus) (Address : Type 0) (pb : Protobuf) (laws : IsProtobuf pb)
    (messages : Messages pb) (malloc : Blocks) (varint_fuel unset : ℕ) where
  -- What a client does with the messages of a queue, in order.
  unfoldable pub tell_all : Client lib Address → List (Entry pb) → Outcome (Told lib Address pb)
  tell_all client [] = done (client, [])
  tell_all client (e ∷ es) = do
    (client', events) ← told pb messages client (pos (type_number e.kind)) (some e.message)
    (client'', more) ← tell_all client' es
    done (client'', events ++ more)

  abbrev pub with_decoder : FrameBuffer → Told lib Address pb → Outcome (Told lib Address pb)
  with_decoder d (client, events) = done (record client { decoder = d }, events)

  -- What is done with a message does not depend on the frames that wait.
  module _ (d : FrameBuffer) (client : Client lib Address) where
    encrypt_lem :
        (msg : CryptSetup)
        → encrypt pb messages (record client { decoder = d }) msg
          ≡ (encrypt pb messages client msg >>= with_decoder d)
    unfolding encrypt
    encrypt_lem msg = bind_through (check msg.has_key) _ _ _ (λ u.
        bind_through (check msg.has_client_nonce) _ _ _ (λ u'.
          bind_through (check msg.has_server_nonce) _ _ _ (λ u''.
            bind_through
              (Audio.encryption client.audio msg.key msg.client_nonce msg.server_nonce
                (length msg.client_nonce))
              _ _ _ (λ out. refl))))

    internal_lem :
        (type : ℕ) (m : Option pb.Message)
        → message_internal pb messages (record client { decoder = d }) type m
          ≡ (message_internal pb messages client type m >>= with_decoder d)
    unfolding message_internal
    internal_lem type m = elim (Bool-cases (type == type_crypt_setup)) [
      | inl e ↦
          rw e (bind_through (or_fault m) _ _ _ (λ msg. encrypt_lem (messages.crypt_setup msg)))
      | inr e ↦ rw e refl
    ]

    told_lem :
        (ret : ℤ) (m : Option pb.Message)
        → told pb messages (record client { decoder = d }) ret m
          ≡ (told pb messages client ret m >>= with_decoder d)
    unfolding told
    told_lem (negsuc n) m = refl
    told_lem (pos type) m =
        ap (λ t. t >>= finish) (internal_lem type m)
        ∙ bind_assoc m' (with_decoder d) finish
        ∙ bind_through m' _ _ _ (λ out. refl)
      where
        m' : Outcome (Told lib Address pb)
        m' = message_internal pb messages client type m

        finish : Told lib Address pb → Outcome (Told lib Address pb)
        finish (client', events) =
            done (client', events ++ (if client'.on_message then message type m ∷ [] else []))

  -- A round of the loop on the frame of a message.
  round_lem :
      (dec : FrameBuffer) (v : IsValid dec) (e : Entry pb) (rest : List ℕ)
      → contents dec ≡ frame (type_number e.kind) (pb.pack e.message) ++ rest
      → (dec' : FrameBuffer) × (contents dec' ≡ rest)
        × IsValid dec'
        × ((again : Client lib Address → Outcome (Told lib Address pb))
              (client : Client lib Address)
            → handle_frames pb messages malloc varint_fuel unset again
                (record client { decoder = dec })
              ≡ (told pb messages
                    (record client { decoder = dec' })
                    (pos (type_number e.kind))
                    (some e.message)
                  >>= λ (client', events).
                      again client' >>= λ (client'', more). done (client'', events ++ more)))
  unfolding handle_frames handle_frame handle_message is_audio
  round_lem dec v e rest holds =
      let got = decode_lem pb laws dec e.kind e.message rest none v e.no_audio e.is_kind holds in
      (
        got.0,
        got.2,
        got.3,
        λ again client.
            rw
              (
                frame_type-holds dec v (type_number e.kind) (pb.pack e.message) rest holds
                    (omega (arith, type_number-lt e.kind)),
                type-udptunnel dec v (type_number e.kind) (pb.pack e.message) rest holds e.kind refl
                    e.no_audio,
                got.1,
              )
              refl,
      )

  abbrev Drains : FrameBuffer → List (Entry pb) → FrameBuffer → Type 0
  Drains dec queue dec' =
      (client : Client lib Address)
      → pump pb messages malloc varint_fuel unset (suc (length queue))
          (record client { decoder = dec })
        ≡ (tell_all client queue >>= with_decoder dec')

  drain :
      (rest : List ℕ) (queue : List (Entry pb)) (dec : FrameBuffer)
      → IsPartial rest
      → IsValid dec
      → contents dec ≡ wire pb queue ++ rest
      → (dec' : FrameBuffer) × (contents dec' ≡ rest) × IsValid dec' × Drains dec queue dec'
  unfolding wire pump tell_all
  drain rest [] dec p v holds =
      (dec, holds, v, λ client. rw (ready-IsPartial dec v rest p holds) refl)
  drain rest (e ∷ queue) dec p v holds =
      let type = type_number e.kind in
      let payload = pb.pack e.message in
      let holds' : contents dec ≡ frame type payload ++ (wire pb queue ++ rest) =
        holds ∙ append_assoc (frame type payload) (wire pb queue) rest in
      let (next, next_holds, next_v, round) = round_lem dec v e (wire pb queue ++ rest) holds' in
      let (dec', holds'', v'', drains) = drain rest queue next p next_v next_holds in
      (
        dec',
        holds'',
        v'',
        λ client.
            rw
              (
                ready-holds dec v type payload (wire pb queue ++ rest) holds',
                round again client,
                told_lem next client (pos type) (some e.message),
              )
              (bind_assoc (told pb messages client (pos type) (some e.message)) (with_decoder next)
                  (follow again)
                ∙ bind_through (told pb messages client (pos type) (some e.message)) _ _ _ (λ out.
                  ap (λ t. t >>= λ more. done (more.0, out.1 ++ more.1)) (drains out.0)
                  ∙ bind_assoc (tell_all out.0 queue) (with_decoder dec')
                      (λ more. done (more.0, out.1 ++ more.1))
                  ∙ bind_through (tell_all out.0 queue) _ _ _ (λ more. refl))),
      )
    where
      again : Client lib Address → Outcome (Told lib Address pb)
      again = pump pb messages malloc varint_fuel unset (suc (length queue))

      follow :
          (Client lib Address → Outcome (Told lib Address pb))
          → Told lib Address pb
          → Outcome (Told lib Address pb)
      follow next_round (client', events) =
          next_round client' >>= λ (client'', more). done (client'', events ++ more)

  -- The decoder of the client is valid, and what it holds, then the bytes that come in, are the frames of a queue of messages and a part of a
  -- frame, which is not its first five bytes; both fit the decoder. Then, with a round of the loop for each message
  -- and one more, `mumble_message_cb_adapter` does what the client does with each message, in the order
  -- of the queue, CryptSetup and failed asserts included, and afterwards the decoder is valid and holds that part.
  pub message_cb_adapter-tells :
      (client : Client lib Address) (buf rest : List ℕ) (queue : List (Entry pb))
      → IsValid client.decoder
      → contents client.decoder ++ buf ≡ wire pb queue ++ rest
      → IsPartial rest
      → client.decoder.buffer_size + length buf ≤ client.decoder.buffer_allocated
      → (dec' : FrameBuffer) × (contents dec' ≡ rest)
        × IsValid dec'
        × (message_cb_adapter pb messages malloc varint_fuel unset (suc (length queue)) client buf
            ≡ (tell_all client queue >>= with_decoder dec'))
  unfolding message_cb_adapter
  message_cb_adapter-tells client buf rest queue v holds p room =
      elim (append_lem client.decoder v buf) [
        | inl full ↦ absurd (omega (arith, full.0, room))
        | inr got ↦
            let (dec', holds', v', drains) = drain rest queue got.1.0 p got.1.4 (got.1.2 ∙ holds) in
            (dec', holds', v', rw (got.1.1, (ready_total got.1.0 got.1.4).1) (drains client))
      ]
