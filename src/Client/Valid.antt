-- ===== src/Client/Valid.antt =====
-- The well-formedness of a client, call by call, where a call returns.
use mumble_web_demo.Prelude.{
  true, ℕ, zero, suc, ◌^◌, ◌<◌, ◌≡◌, false, Option, none, some, List, ◌==◌, length, or_fault, check,
  Ensures, bind-Ensures, bind_known, if-Ensures, Option-cases, inl, inr, arith,
}
use mumble_web_demo.Prelude.Int.{ℤ, pos, negsuc}
use mumble_web_demo.Prelude.Memory.{read_at}
use mumble_web_demo.Opus.{LibOpus, Blocks}
use mumble_web_demo.Frame as Frame
use mumble_web_demo.Frame.{Protobuf, FrameBuffer}
use mumble_web_demo.Frame.Encoder as Encoder
use mumble_web_demo.Frame.Encoder.Valid.{encode-IsValid}
use mumble_web_demo.Frame.Decoder as Decoder
use mumble_web_demo.Frame.Decoder.{ready, is_audio, append, pop}
use mumble_web_demo.Frame.Decoder.Valid.{append-IsValid, pop-IsValid, decode-IsValid}
use mumble_web_demo.TcpSsl as TcpSsl
use mumble_web_demo.AudioDecoder as AudioDecoder
use mumble_web_demo.Audio as Audio
use mumble_web_demo.Audio.{Network, Sent}
use mumble_web_demo.Audio.Valid as AudioValid
use mumble_web_demo.Audio.Valid.{IsFit}
use mumble_web_demo.BufferPool.{Malloc}
use mumble_web_demo.Ocb.{Aes}
use mumble_web_demo.UdpPing as UdpPing
use mumble_web_demo.TcpSsl.Setup
use mumble_web_demo.TcpSsl.Setup.{Made}
use mumble_web_demo.Client.{
  Client, Messages, Told, encrypt, message_internal, told, handle_audio, handle_message,
  handle_frame, handle_frames, pump, message_cb_adapter, write, connect_cb_adapter, dupstr, Asked,
  version_init, authenticate_init, timed_ping, version_1_2_5, init, write_audio,
}

-- Both buffers of frames are valid, and the audio part is.
pub record IsValid {lib : LibOpus} {Address : Type 0} (client : Client lib Address) : Type 0 where
  pub decoder : Frame.IsValid client.decoder
  pub encoder : Frame.IsValid client.encoder
  pub audio : AudioValid.IsValid client.audio

module _ {lib : LibOpus} {Address : Type 0} (pb : Protobuf) (messages : Messages pb) where
  abbrev pub ToldValid : Told lib Address pb → Type 0
  ToldValid r = IsValid r.0

  internal-IsValid :
      (client : Client lib Address) (type : ℕ) (m : Option pb.Message)
      → IsValid client
      → Ensures ToldValid (message_internal pb messages client type m)
  unfolding message_internal encrypt
  internal-IsValid client type m v =
      if-Ensures _ (type == Frame.type_crypt_setup) _ _
        (λ e. bind-Ensures _ (or_fault m) _ λ msg e.
          let setup = messages.crypt_setup msg in
          bind-Ensures _ (check setup.has_key) _ λ u e.
            bind-Ensures _ (check setup.has_client_nonce) _ λ u e.
              bind-Ensures _ (check setup.has_server_nonce) _ λ u e.
                bind_known _ _
                  (Audio.encryption client.audio setup.key setup.client_nonce setup.server_nonce
                    (length setup.client_nonce))
                  _
                  (AudioValid.encryption-IsValid client.audio v.audio setup.key setup.client_nonce
                    setup.server_nonce (length setup.client_nonce))
                  λ r h. record { decoder = v.decoder; encoder = v.encoder; audio = h })
        (λ e. v)

  told-IsValid :
      (client : Client lib Address) (ret : ℤ) (m : Option pb.Message)
      → IsValid client
      → Ensures ToldValid (told pb messages client ret m)
  unfolding told
  told-IsValid client (negsuc n) m v = v
  told-IsValid client (pos type) m v =
      bind_known _ _ (message_internal pb messages client type m) _
        (internal-IsValid client type m v) λ r h. h

  module _ (malloc : Blocks) (varint_fuel unset : ℕ) where
    audio-IsValid :
        (client : Client lib Address)
        → IsValid client
        → Ensures ToldValid (handle_audio pb messages malloc varint_fuel unset client)
    unfolding handle_audio
    audio-IsValid client v =
        let held = client.decoder in
        bind-Ensures _
          (AudioDecoder.decode lib malloc varint_fuel unset client.audio.decoder held.buffer
            (pos held.buffer_size))
          _
          λ r e. bind_known _ _ (pop held) _ (pop-IsValid held v.decoder) λ r' h. record {
            decoder = h;
            encoder = v.encoder;
            audio = record { udp = v.audio.udp; voice = v.audio.voice; ping = v.audio.ping };
          }

    frame-IsValid :
        (client : Client lib Address)
        → IsValid client
        → Ensures ToldValid (handle_frame pb messages malloc varint_fuel unset client)
    unfolding handle_frame handle_message
    frame-IsValid client v = bind-Ensures _ (is_audio client.decoder) _ λ audio e.
        if-Ensures _ audio _ _ (λ e. audio-IsValid client v)
          (λ e.
            bind_known _ _ (Decoder.decode pb client.decoder false none) _
              (decode-IsValid client.decoder v.decoder pb false none)
              λ d h.
                told-IsValid (record client { decoder = d.ctx }) d.ret d.message
                  (record { decoder = h; encoder = v.encoder; audio = v.audio }))

    pump-IsValid :
        (fuel : ℕ) (client : Client lib Address)
        → IsValid client
        → Ensures ToldValid (pump pb messages malloc varint_fuel unset fuel client)
    unfolding pump handle_frames
    pump-IsValid zero client v = tt
    pump-IsValid (suc fuel) client v = bind-Ensures _ (ready client.decoder) _ λ r e.
        if-Ensures _ r _ _
          (λ e.
            bind_known _ _ (handle_frame pb messages malloc varint_fuel unset client) _
              (frame-IsValid client v)
              λ (client', events) v'.
                bind_known _ _ (pump pb messages malloc varint_fuel unset fuel client') _
                  (pump-IsValid fuel client' v') λ r h. h)
          (λ e. v)

    pub message_cb_adapter-IsValid :
        (fuel : ℕ) (client : Client lib Address) (buf : List ℕ)
        → IsValid client
        → Ensures ToldValid
            (message_cb_adapter pb messages malloc varint_fuel unset fuel client buf)
    unfolding message_cb_adapter
    message_cb_adapter-IsValid fuel client buf v =
        bind_known _ _ (append client.decoder buf) _ (append-IsValid client.decoder v.decoder buf)
          λ (decoder', r) h.
            pump-IsValid fuel (record client { decoder = decoder' })
              (record { decoder = h; encoder = v.encoder; audio = v.audio })

  pub write-IsValid :
      (ssl_write : List ℕ → ℤ) (client : Client lib Address) (m : pb.Message)
      → IsValid client
      → Ensures
          (λ (r : Client lib Address × List ℕ). IsValid r.0)
          (write pb messages ssl_write client m)
  unfolding write
  write-IsValid ssl_write client m v =
      bind_known _ _ (Encoder.encode pb client.encoder m) _
        (encode-IsValid pb client.encoder m v.encoder)
        λ encoder h. bind-Ensures _ (read_at encoder.buffer 0 encoder.buffer_size) _ λ bytes e.
          bind-Ensures _ (TcpSsl.write ssl_write bytes) _
            λ u e. record { decoder = v.decoder; encoder = h; audio = v.audio }

  pub connect_cb_adapter-IsValid :
      (malloc : Blocks) (ssl_write : List ℕ → ℤ) (client : Client lib Address) (peer : ℤ × Address)
      (now : ℤ)
      → IsValid client
      → Ensures
          (λ (r : Client lib Address × List Asked). IsValid r.0)
          (connect_cb_adapter pb messages malloc ssl_write client peer now)
  unfolding connect_cb_adapter Audio.start UdpPing.address
  connect_cb_adapter-IsValid malloc ssl_write client peer now v =
      bind_known _ AudioValid.IsValid (Audio.start client.audio peer) _
        (bind-Ensures _ (TcpSsl.peername peer) _ λ addr e. record {
          udp = v.audio.udp;
          voice = v.audio.voice;
          ping = record {
            tail = v.audio.ping.tail;
            buf = v.audio.ping.buf;
            room = v.audio.ping.room;
          };
        })
        λ audio h.
          let client0 = record client { audio = audio } in
          let version = record version_init { version = version_1_2_5 } in
          bind_known _ _ (write pb messages ssl_write client0 (messages.version version)) _
            (write-IsValid ssl_write client0 (messages.version version)
              (record { decoder = v.decoder; encoder = v.encoder; audio = h }))
            λ (client1, b1) v1. bind-Ensures _ (dupstr malloc client.nick) _ λ username e.
              let login =
                messages.authenticate (record authenticate_init {
                  username = username;
                  opus = true;
                  has_opus = true;
                }) in
              bind_known _ _ (write pb messages ssl_write client1 login) _
                (write-IsValid ssl_write client1 login v1)
                λ (client2, b2) v2.
                  bind_known _ _
                    (write pb messages ssl_write client2 (messages.ping (timed_ping now))) _
                    (write-IsValid ssl_write client2 (messages.ping (timed_ping now)) v2) λ r h. h

sized_frames :
    (malloc : Blocks)
    → ((size : ℕ) (block : List ℕ) → malloc size ≡ some block → length block ≡ size)
    → Ensures Frame.IsValid (Frame.init (malloc Frame.max_size))
unfolding Frame.init
sized_frames malloc sized = elim (Option-cases (malloc Frame.max_size)) [
  | inl e ↦ rw e tt
  | inr (block, e) ↦
      rw e
        (record { whole = sized Frame.max_size block e; fits = omega arith; within = omega arith })
]

module _ {lib : LibOpus} {Address : Type 0} where
  pub write_audio-IsValid :
      (aes : Aes) (malloc : Blocks) (network : Network) (calls_left : ℕ) (unset : List ℕ)
      (client : Client lib Address) (target : ℕ) (pcm : List ℕ)
      → length pcm < 2 ^ 32
      → IsValid client
      → Ensures
          (λ (r : Client lib Address × List Sent). IsValid r.0)
          (write_audio aes malloc network calls_left unset client target pcm)
  unfolding write_audio
  write_audio-IsValid aes malloc network calls_left unset client target pcm small v =
      bind_known _ _ (Audio.send aes malloc network calls_left unset client.audio target pcm) _
        (AudioValid.send-IsValid client.audio v.audio aes malloc network calls_left unset target pcm
          small)
        λ r h. record { decoder = v.decoder; encoder = v.encoder; audio = h }

module _ (lib : LibOpus) (Address : Type 0) where
  -- A client that `mumble_client_init` sets up is well formed.
  pub init-IsValid :
      (made : Made) (pool_malloc : Malloc) (malloc : Blocks) (audio_buffer_size : ℕ → ℕ → ℕ)
      (hostname : List ℕ) (port : ℕ) (nick : List ℕ)
      → IsFit pool_malloc malloc audio_buffer_size
      → Ensures
          (λ (client : Client lib Address). IsValid client)
          (init {lib = lib} {Address = Address} made pool_malloc malloc audio_buffer_size hostname
            port nick)
  unfolding init Audio.set_cb
  init-IsValid made pool_malloc malloc audio_buffer_size hostname port nick fit =
      bind-Ensures _ (Setup.init made pool_malloc) _ λ pool e.
        bind_known _ _
          (Audio.init {lib = lib} {Address = Address} pool_malloc malloc audio_buffer_size) _
          (AudioValid.init-Valid pool_malloc malloc audio_buffer_size fit lib Address)
          λ audio h.
            bind_known _ _ (Frame.init (malloc Frame.max_size)) _ (sized_frames malloc fit.sized)
              λ decoder h1.
                bind_known _ _ (Frame.init (malloc Frame.max_size)) _
                  (sized_frames malloc fit.sized)
                  λ encoder h2. record {
                    decoder = h1;
                    encoder = h2;
                    audio = record { udp = h.udp; voice = h.voice; ping = h.ping };
                  }
