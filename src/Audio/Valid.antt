-- ===== src/Audio/Valid.antt =====
-- The well-formedness of the audio part of a client, call by call.
use mumble_web_demo.Prelude.{
  ℕ, ◌^◌, ◌<◌, ◌≡◌, inl, inr, refl, Bool, false, Option, none, some, List, [], ◌==◌, length, drop,
  replicate, read, in_range, check, Ensures, bind-Ensures, bind_known, if-Ensures, Option-cases,
  arith,
}
use mumble_web_demo.Prelude.Int.{pos, ◌-ℤ◌}
use mumble_web_demo.Prelude.Signed.{positive, or_abort}
use mumble_web_demo.BufferPool as BufferPool
use mumble_web_demo.BufferPool.{Malloc}
use mumble_web_demo.BufferPool.Holders.{NeverTwice, init-IsValid}
use mumble_web_demo.Varint
use mumble_web_demo.Buffer.{Call, create}
use mumble_web_demo.Buffer.Write as Buffer
use mumble_web_demo.Ocb.{Aes}
use mumble_web_demo.Opus
use mumble_web_demo.Opus.{LibOpus, Blocks, Codec}
use mumble_web_demo.Opus.Valid.{encode-IsValid}
use mumble_web_demo.UdpPing
use mumble_web_demo.UdpPing.{Ping}
use mumble_web_demo.UdpPing.Attempt.{IsReady}
use mumble_web_demo.UdpSsl
use mumble_web_demo.UdpSsl.{Conn}
use mumble_web_demo.UdpSsl.Valid as Conn
use mumble_web_demo.AudioEncoder
use mumble_web_demo.AudioEncoder.{AudioEncoder, Outgoing, encoder_codec_packet, encoder_codec_cb}
use mumble_web_demo.AudioDecoder
use mumble_web_demo.AudioDecoder.{AudioPacket}
use mumble_web_demo.Audio.{Audio, Network, Sent, tunnel, encoder_cb, udp_cb, encryption, init, send}

-- The connection is well formed, the framing buffer of the encoder is valid, and the buffer of the
-- probe has its header and its room.
pub record IsValid {lib : LibOpus} {Address : Type 0} (audio : Audio lib Address) : Type 0 where
  pub udp : Conn.IsValid audio.udp
  pub voice : Buffer.IsValid audio.encoder.opus.buffer
  pub ping : IsReady audio.pinger

module _ (aes : Aes) (malloc : Blocks) (network : Network) (connected : Bool) where
  encoder_cb-IsValid :
      (s : Conn × List Sent) (buf : List ℕ)
      → Conn.IsValid s.0
      → Ensures
          (λ (r : Conn × List Sent). Conn.IsValid r.0)
          (encoder_cb aes malloc network connected s buf)
  unfolding encoder_cb
  encoder_cb-IsValid (conn, sent) buf v =
      if-Ensures _ connected _ _
        (λ e.
          bind_known _ _ (UdpSsl.write aes network.try_send conn buf) _
            (Conn.write-IsValid aes network.try_send conn buf v) λ r h. h)
        (λ e. bind-Ensures _ (tunnel malloc network.ssl_write buf) _ λ r h. v)

  encoder_codec_cb-IsValid :
      (lib : LibOpus) (there : Bool) (packet : Outgoing) (s : ℕ × (Conn × List Sent)) (frame : Call)
      → Conn.IsValid s.1.0
      → Ensures
          (λ (r : ℕ × (Conn × List Sent)). Conn.IsValid r.1.0)
          (encoder_codec_cb lib malloc
            (encoder_cb aes malloc network connected)
            there
            packet
            s
            frame)
  unfolding encoder_codec_cb
  encoder_codec_cb-IsValid lib there packet (sequence, s) frame v =
      bind-Ensures _ (encoder_codec_packet malloc packet sequence frame.bytes) _ λ data' e.
        bind-Ensures _ (in_range there) _ λ u e'.
          bind_known _ _ (encoder_cb aes malloc network connected s data') _
            (encoder_cb-IsValid s data' v) λ s' h. h

module _ {lib : LibOpus} {Address : Type 0} (audio : Audio lib Address) (v : IsValid audio) where
  voice-IsValid :
      (aes : Aes) (malloc : Blocks) (network : Network) (calls_left : ℕ) (unset : List ℕ)
      (target : ℕ) (pcm : List ℕ)
      → length pcm < 2 ^ 32
      → Ensures
          (λ (r : (Conn × List Sent) × AudioEncoder lib).
            Conn.IsValid r.0.0 × Buffer.IsValid r.1.opus.buffer)
          (AudioEncoder.encode lib malloc
            (encoder_cb aes malloc network audio.pinger.connected)
            calls_left
            unset
            (audio.udp, [])
            audio.encoder
            target
            pcm
            none)
  unfolding AudioEncoder.encode
  voice-IsValid aes malloc network calls_left unset target pcm small =
      let connected = audio.pinger.connected in
      let packet : Outgoing = record { codec = 4; target = target; position = unset } in
      let P : ℕ × (Conn × List Sent) → Type 0 = λ s. Conn.IsValid s.1.0 in
      let cb =
        encoder_codec_cb lib malloc (encoder_cb aes malloc network connected) audio.encoder.cb
          packet in
      let start : ℕ × (Conn × List Sent) = (audio.encoder.sequence, (audio.udp, [])) in
      bind_known _ _ (Opus.encode lib malloc cb calls_left start audio.encoder.opus pcm false) _
        (encode-IsValid lib malloc P cb
          (encoder_codec_cb-IsValid aes malloc network connected lib audio.encoder.cb packet)
          calls_left start audio.encoder.opus pcm v.udp v.voice small)
        λ r h. h

  pub send-IsValid :
      (aes : Aes) (malloc : Blocks) (network : Network) (calls_left : ℕ) (unset : List ℕ)
      (target : ℕ) (pcm : List ℕ)
      → length pcm < 2 ^ 32
      → Ensures
          (λ (r : Audio lib Address × List Sent). IsValid r.0)
          (send aes malloc network calls_left unset audio target pcm)
  unfolding send
  send-IsValid aes malloc network calls_left unset target pcm small =
      bind_known _ _
        (AudioEncoder.encode lib malloc (encoder_cb aes malloc network audio.pinger.connected)
          calls_left unset (audio.udp, []) audio.encoder target pcm none)
        _ (voice-IsValid aes malloc network calls_left unset target pcm small)
        λ r h. record { udp = h.0; voice = h.1; ping = v.ping }

  -- The buffer of a probe is the same behind a reply.
  recv-IsReady : (t : ℕ) → IsReady (UdpPing.recv audio.pinger t).0
  unfolding UdpPing.recv
  recv-IsReady t = record {
    tail = v.ping.tail;
    buf = ground (arith, v.ping.buf);
    room = v.ping.room;
  }

  pub udp_cb-IsValid :
      (malloc : Blocks) (fuel unset : ℕ) (buf : List ℕ)
      → Ensures
          (λ (r : Audio lib Address × Option AudioPacket × List UdpPing.Call). IsValid r.0)
          (udp_cb malloc fuel unset audio buf)
  unfolding udp_cb
  udp_cb-IsValid malloc fuel unset buf = bind-Ensures _ (read buf 0) _ λ first e.
      if-Ensures _ (first == 0x20) _ _
        (λ e'.
          bind-Ensures _ (Varint.decode fuel (drop 1 buf) (pos (length buf) -ℤ pos 1) unset) _
            λ d e.
              bind-Ensures _ (positive d.ret) _
                λ n e. record { udp = v.udp; voice = v.voice; ping = recv-IsReady d.result })
        (λ e'.
          bind-Ensures _
            (AudioDecoder.decode lib malloc fuel unset audio.decoder buf (pos (length buf))) _
            λ r e. record { udp = v.udp; voice = v.voice; ping = v.ping })

  pub encryption-IsValid :
      (key enc_iv dec_iv : List ℕ) (ivlen : ℕ)
      → Ensures
          (λ (r : Audio lib Address × List UdpPing.Call). IsValid r.0)
          (encryption audio key enc_iv dec_iv ivlen)
  unfolding encryption UdpPing.start
  encryption-IsValid key enc_iv dec_iv ivlen =
      bind_known _ _ (UdpSsl.set_encryption audio.udp key enc_iv dec_iv ivlen) _
        (Conn.set_encryption-IsValid audio.udp key enc_iv dec_iv ivlen v.udp)
        λ udp h. record { udp = h; voice = v.voice; ping = v.ping }

-- What is asked of `malloc`, and of the size of the frames, for the set-up.
pub record IsFit (pool_malloc : Malloc) (malloc : Blocks) (audio_buffer_size : ℕ → ℕ → ℕ)
    : Type 0 where
  pub never : NeverTwice pool_malloc
  pub sized : (size : ℕ) (block : List ℕ) → malloc size ≡ some block → length block ≡ size
  pub some_bytes : 0 < audio_buffer_size 48000 20
  pub fits : audio_buffer_size 48000 20 < 2 ^ 32

module _ (pool_malloc : Malloc) (malloc : Blocks) (audio_buffer_size : ℕ → ℕ → ℕ)
    (fit : IsFit pool_malloc malloc audio_buffer_size) where
  init_conn-IsValid : Ensures Conn.IsValid (UdpSsl.init_conn pool_malloc)
  unfolding UdpSsl.init_conn
  init_conn-IsValid = bind-Ensures _ (BufferPool.init pool_malloc 2 1024) _ λ pool e. record {
    arrays = record { key = refl; enc_iv = refl; dec_iv = refl };
    pool = (init-IsValid pool_malloc 2 1024 pool fit.never e).0;
  }

  asked_for :
      (size : ℕ) → Ensures (λ (block : List ℕ). length block ≡ size) (or_abort (malloc size))
  asked_for size = elim (Option-cases (malloc size)) [
    | inl e ↦ rw e tt
    | inr (block, e) ↦ rw e (fit.sized size block e)
  ]

  module _ (lib : LibOpus) where
    encoder-IsValid :
        Ensures
          (λ (encoder : AudioEncoder lib). Buffer.IsValid encoder.opus.buffer)
          (AudioEncoder.init lib malloc audio_buffer_size 48000 20 0)
    unfolding AudioEncoder.init Opus.create_encoder create
    encoder-IsValid =
        let size = audio_buffer_size 48000 20 in
        let made = lib.encoder_create 48000 1 lib.application_voip in
        bind_known _ (λ (codec : Codec lib). Buffer.IsValid codec.buffer)
          (Opus.create_encoder lib malloc audio_buffer_size 48000 20 0) _
          (bind-Ensures _ (or_abort (malloc 72)) _ λ codec e. bind-Ensures _ (check made.0) _ λ u e.
            bind-Ensures _ (or_abort made.1) _ λ encoder e.
              bind-Ensures _ (or_abort (malloc 32)) _ λ buffer e.
                bind_known _ _ (or_abort (malloc size)) _ (asked_for size) λ block same.
                  bind-Ensures _ (Opus.codec_buf_init malloc size) _ λ codec_out e.
                    bind-Ensures _ (Opus.codec_buf_init malloc size) _ λ framed_out e. record {
                      whole = refl;
                      fits = omega (arith, same, fit.fits);
                      room = omega (arith, same, fit.some_bytes);
                    })
          λ codec h. h

    pub init-Valid :
        (Address : Type 0)
        → Ensures
            (λ (audio : Audio lib Address). IsValid audio)
            (init {lib = lib} {Address = Address} pool_malloc malloc audio_buffer_size)
    unfolding init UdpPing.init UdpPing.init_ex UdpSsl.set_cb AudioEncoder.set_cb
    init-Valid Address = bind_known _ _ (UdpSsl.init_conn pool_malloc) _ init_conn-IsValid λ udp h.
        bind_known _ _ (AudioEncoder.init lib malloc audio_buffer_size 48000 20 0) _ encoder-IsValid
          λ encoder h'. bind-Ensures _ (AudioDecoder.init lib malloc) _ λ decoder e. record {
            udp = record { arrays = h.arrays; pool = h.pool };
            voice = h';
            ping = record { tail = replicate 7 0; buf = refl; room = refl };
          }
