-- ===== src/Audio/Voice.antt =====
-- Voice of audio.c on its way out: one frame of samples, up to the call of `encoder_cb`.
pub mod Heard
pub mod Relay
mod Tests
use mumble_web_demo.Prelude.{
  ℕ, zero, suc, ◌+◌, ◌-◌, ◌*◌, ◌/◌, ◌^◌, ◌≤◌, ◌<◌, ◌≡◌, refl, sym, ap, ◌∙◌, true, false, none, some,
  List, [], ◌∷◌, ◌++◌, All, append-nil, length, length-append, length-take, take, u32, Outcome,
  done, ◌>>=◌, in_range, bind_assoc, arith,
}
use mumble_web_demo.Varint.{encode_size}
use mumble_web_demo.Varint.Encoding.{encoding}
use mumble_web_demo.Buffer
use mumble_web_demo.Buffer.{Buffer, Call, pending}
use mumble_web_demo.Buffer.Write.{IsValid, Written, delivered, Finals}
use mumble_web_demo.Buffer.Laws.{write-Written}
use mumble_web_demo.Opus
use mumble_web_demo.Opus.{LibOpus, IsOpus, Codec, Blocks}
use mumble_web_demo.Opus.Frames.{compressed, framed, framed_codec, on_encoder_frame_fits}
use mumble_web_demo.AudioEncoder
use mumble_web_demo.AudioEncoder.{AudioEncoder, Outgoing, encoder_codec_packet, encoder_codec_cb}
use mumble_web_demo.Audio.{Audio, Network, Sent, encoder_cb, send}
use mumble_web_demo.Ocb.{Aes}
use mumble_web_demo.UdpSsl.{Conn}

-- Calls of one size, which make up one of that size with less than it left over.
one_call :
    (size : ℕ) (calls : List Call) (last : List ℕ) (whole : List ℕ)
    → All (λ (c : Call). length c.bytes ≡ size) calls
    → Finals false calls
    → delivered calls ++ last ≡ whole
    → length last < size
    → length whole ≡ size
    → calls ≡ record { bytes = whole; final = false } ∷ []
one_call size [] last whole sized finals all few full = absurd (omega (arith, ap length all))
one_call size (c ∷ []) last whole sized finals all few full =
    let nothing : last ≡ [] = none_left last (
      omega (
        arith,
        ap length all,
        sized.0,
        length-append c.bytes [],
        length-append (c.bytes ++ []) last,
      )) in
    let same : c.bytes ≡ whole =
      sym (append-nil c.bytes) ∙ sym (append-nil (c.bytes ++ [])) ∙ (rw nothing at all) in
    ground (arith, same, finals)
  where
    none_left : (xs : List ℕ) → length xs ≡ 0 → xs ≡ []
    none_left [] h = refl
    none_left (x ∷ xs) h = absurd (omega arith)
one_call size (c ∷ d ∷ calls) last whole sized finals all few full = absurd (
    omega (
      arith,
      ap length all,
      sized.0,
      sized.1.0,
      length-append c.bytes (d.bytes ++ delivered calls),
      length-append d.bytes (delivered calls),
      length-append (c.bytes ++ (d.bytes ++ delivered calls)) last,
    ))

-- Samples that fill the framing buffer up come out as one frame, and the buffer is empty.
one_frame :
    (calls_left : ℕ) (b : Buffer) (pcm : List ℕ)
    → IsValid b
    → b.buf_used + length pcm ≡ b.buf_allocated
    → (b' : Buffer) × (Buffer.write (suc calls_left) (length pcm) false b pcm
        ≡ done (b', record { bytes = pending b ++ pcm; final = false } ∷ []))
      × IsValid b'
      × (b'.buf_allocated ≡ b.buf_allocated)
one_frame calls_left b pcm v full =
    let (b', calls, run, w) =
      write-Written calls_left (length pcm) b pcm v (omega arith) (omega (arith, v.fits)) in
    let waiting : length (pending b') < b.buf_allocated =
      omega (arith, length-take b'.buf_used b'.buf, w.valid.room, w.same_size) in
    let sized : length (pending b ++ pcm) ≡ b.buf_allocated =
      omega (arith, length-append (pending b) pcm, length-take b.buf_used b.buf, v.whole, v.room) in
    let one =
      one_call b.buf_allocated calls (pending b') (pending b ++ pcm) w.sized w.finals w.conserved
        waiting sized in
    (b', run ∙ ap (λ c. done (b', c)) one, w.valid, w.same_size)

-- One frame through `mumble_codec_opus_encode`.
encode_frame :
    (lib : LibOpus) (malloc : Blocks) {S : Type 0} (cb : S → Call → Outcome S) (calls_left : ℕ)
    (s : S) (codec : Codec lib) (pcm stored : List ℕ)
    → IsOpus lib
    → IsValid codec.buffer
    → codec.buffer.buf_used + length pcm ≡ codec.buffer.buf_allocated
    → (compressed lib malloc codec
        (record { bytes = pending codec.buffer ++ pcm; final = false })).2
      ≡ stored
    → 0 < length stored
    → encode_size (length stored) + length stored < length codec.framed_out
    → (codec' : Codec lib) × (Opus.encode lib malloc cb (suc calls_left) s codec pcm false ≡ (
        cb s (record { bytes = encoding (length stored) ++ stored; final = false }) >>= λ s'.
        done (s', codec')))
      × IsValid codec'.buffer
unfolding Opus.encode Opus.on_encoder_frames
encode_frame lib malloc cb calls_left s codec pcm stored opus v full data_eq ne fits =
    let (b', wrote, v', same) = one_frame calls_left codec.buffer pcm v full in
    let codec1 : Codec lib = record codec { buffer = b' } in
    let frame : Call = record { bytes = pending codec.buffer ++ pcm; final = false } in
    let out = on_encoder_frame_fits lib malloc codec1 frame cb s opus stored data_eq ne fits in
    (
      framed_codec lib malloc codec1 frame stored,
      rw (wrote, out)
          (bind_assoc (cb s (framed lib malloc codec1 frame stored))
            (λ s'. done (s', framed_codec lib malloc codec1 frame stored))
            (λ (s', codec'). done (s', codec'))),
      v',
    )

module _ {lib : LibOpus} {Address : Type 0} (malloc : Blocks) where
  -- The frame that `opus_encode` is given, and the data that it stores.
  abbrev pub voice_frame : Audio lib Address → List ℕ → Call
  voice_frame audio pcm = record { bytes = pending audio.encoder.opus.buffer ++ pcm; final = false }

  abbrev pub voice_data : Audio lib Address → List ℕ → List ℕ
  voice_data audio pcm = (compressed lib malloc audio.encoder.opus (voice_frame audio pcm)).2

module _ {lib : LibOpus} {Address : Type 0} (aes : Aes) (malloc : Blocks) (network : Network) where
  -- The encoder of audio packets has a callback; the samples fill its framing buffer; libopus makes
  -- of them data that fits behind its length, and there is a packet around it. Then
  -- `mumble_audio_send` gives that packet to `encoder_cb`, once.
  pub send_lem :
      (calls_left : ℕ) (unset : List ℕ) (audio : Audio lib Address) (target : ℕ)
      (pcm stored packet : List ℕ)
      → IsOpus lib
      → audio.encoder.cb ≡ true
      → IsValid audio.encoder.opus.buffer
      → audio.encoder.opus.buffer.buf_used + length pcm ≡ audio.encoder.opus.buffer.buf_allocated
      → voice_data malloc audio pcm ≡ stored
      → 0 < length stored
      → encode_size (length stored) + length stored < length audio.encoder.opus.framed_out
      → encoder_codec_packet malloc
          (record { codec = 4; target = target; position = unset })
          audio.encoder.sequence
          (encoding (length stored) ++ stored)
        ≡ done packet
      → (encoder' : AudioEncoder lib) × (send aes malloc network
            (suc calls_left)
            unset
            audio
            target
            pcm
          ≡ (encoder_cb aes malloc network audio.pinger.connected (audio.udp, []) packet
              >>= λ (udp', sent). done (record audio { udp = udp'; encoder = encoder' }, sent)))
        × (encoder'.sequence ≡ u32 (audio.encoder.sequence + 1))
        × IsValid encoder'.opus.buffer
  unfolding send AudioEncoder.encode encoder_codec_cb
  send_lem calls_left unset audio target pcm stored packet opus there v full data_eq ne fits run =
      let cb = encoder_cb aes malloc network audio.pinger.connected in
      let q = audio.encoder.sequence in
      let to : Outgoing = record { codec = 4; target = target; position = unset } in
      let (codec', encoded, v') =
        encode_frame lib malloc (encoder_codec_cb lib malloc cb audio.encoder.cb to) calls_left
          (q, (audio.udp, [])) audio.encoder.opus pcm stored opus v full data_eq ne fits in
      (
        record audio.encoder { opus = codec'; sequence = u32 (q + 1) },
        rw (encoded, run, there) (simp bind_assoc),
        refl,
        v',
      )
