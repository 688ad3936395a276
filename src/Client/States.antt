-- ===== src/Client/States.antt =====
-- The states that a client can be in, under every order of what libuv and the program do with it.
mod Tests
use mumble_web_demo.Prelude.{
  ℕ, zero, suc, ◌+◌, ◌^◌, ◌≤◌, ◌<◌, ◌≡◌, ◌⊎◌, inl, inr, refl, Bool, true, false, Option, none, some,
  List, [], ◌∷◌, length, if◌then◌else◌, check, Outcome, done, abort, ◌>>=◌, ◌>>◌, Ensures,
  bind-Ensures, bind_known, Ensures-done, arith,
}
use mumble_web_demo.Prelude.Int.{ℤ, pos, ltb_ℤ}
use mumble_web_demo.Prelude.Memory.{read_at}
use mumble_web_demo.BufferPool.{Malloc}
use mumble_web_demo.Ocb.{Aes}
use mumble_web_demo.Opus.{LibOpus, Blocks}
use mumble_web_demo.Frame as Frame
use mumble_web_demo.Frame.{Protobuf, IsProtobuf, Descriptor, FrameBuffer, contents, frame}
use mumble_web_demo.Frame.Types.{type_number}
use mumble_web_demo.Frame.Encoder.Laws.{encode_cases}
use mumble_web_demo.UdpPing as UdpPing
use mumble_web_demo.UdpPing.{reply_timer_cb, period_timer_cb}
use mumble_web_demo.UdpPing.Attempt.{IsReady, period_cases}
use mumble_web_demo.UdpSsl as UdpSsl
use mumble_web_demo.UdpSsl.{Conn}
use mumble_web_demo.UdpSsl.Valid as Conn
use mumble_web_demo.TcpSsl as TcpSsl
use mumble_web_demo.AudioDecoder.{AudioPacket}
use mumble_web_demo.Audio as Audio
use mumble_web_demo.Audio.{Network, Sent, udp_cb}
use mumble_web_demo.Audio.Valid as AudioValid
use mumble_web_demo.Audio.Valid.{IsFit}
use mumble_web_demo.TcpSsl.Setup.{Made}
use mumble_web_demo.Client.{
  Client, Event, Asked, Messages, message_cb_adapter, write, connect_cb_adapter, init, set_on_audio,
  set_on_message, write_audio,
}
use mumble_web_demo.Client.Valid.{
  IsValid, message_cb_adapter-IsValid, write-IsValid, connect_cb_adapter-IsValid,
  write_audio-IsValid, init-IsValid,
}

period-IsReady :
    {Address : Type 0} (now later written : ℕ) (p : UdpPing.Ping (Unit {0}) Address)
    → IsReady p
    → Ensures
        (λ (r : UdpPing.Ping (Unit {0}) Address × List UdpPing.Call). IsReady r.0)
        (period_timer_cb now later written p)
period-IsReady now later written p r = elim (period_cases now later written p r) [
  | inl over ↦ rw over.1 tt
  | inr sent ↦ rw sent.1.1 sent.1.5
]

read_all :
    (enc : FrameBuffer)
    → Frame.IsValid enc
    → read_at enc.buffer 0 enc.buffer_size ≡ done (contents enc)
read_all enc v = ground (arith, v.within, v.whole)

check_then {ℓ} :
    {A : Type ℓ} (b : Bool) (x : A) → (check b >> done x) ≡ (if b then done x else abort)
check_then true x = refl
check_then false x = refl

module _ {lib : LibOpus} {Address : Type 0} (pb : Protobuf) (messages : Messages pb) (aes : Aes)
    (malloc : Blocks) where
  -- What can happen to a client, where the call returns. The fuel, what a variable holds before it is set, and
  -- the results of libuv and of OpenSSL are any.
  pub data Step (client : Client lib Address) : Client lib Address → Type 0 where
    -- bytes come over the stream
    came :
        {client' : Client lib Address} (varint_fuel unset fuel : ℕ) (buf : List ℕ)
        (events : List (Event pb.Message))
        → message_cb_adapter pb messages malloc varint_fuel unset fuel client buf
          ≡ done (client', events)
        → Step client client'
    -- a datagram comes that is not handed on, and one that is
    ignored :
        (conn : Conn) (buf : List ℕ)
        → (UdpSsl.alloc_cb aes client.audio.udp >>= λ (conn', base).
            UdpSsl.recv_cb aes conn' base buf)
          ≡ done (conn, none)
        → Step client (record client { audio = record client.audio { udp = conn } })
    opened :
        (conn : Conn) (audio : Audio.Audio lib Address) (fuel unset : ℕ) (buf inside : List ℕ)
        (given : Option AudioPacket) (calls : List UdpPing.Call)
        → (UdpSsl.alloc_cb aes client.audio.udp >>= λ (conn', base).
            UdpSsl.recv_cb aes conn' base buf)
          ≡ done (conn, some inside)
        → udp_cb malloc fuel unset (record client.audio { udp = conn }) inside
          ≡ done (audio, given, calls)
        → Step client (record client { audio = audio })
    -- the program speaks, writes a message, as the timer of the ping does, too, and sets its callbacks
    spoke :
        {client' : Client lib Address} (network : Network) (calls_left : ℕ) (unset : List ℕ)
        (target : ℕ) (pcm : List ℕ) (sent : List Sent)
        → length pcm < 2 ^ 32
        → write_audio aes malloc network calls_left unset client target pcm ≡ done (client', sent)
        → Step client client'
    wrote :
        {client' : Client lib Address} (ssl_write : List ℕ → ℤ) (m : pb.Message) (bytes : List ℕ)
        → write pb messages ssl_write client m ≡ done (client', bytes)
        → Step client client'
    hears : (cb : Bool) → Step client (set_on_audio client cb)
    listens : (cb : Bool) → Step client (set_on_message client cb)
    -- the stream is connected
    linked :
        {client' : Client lib Address} (ssl_write : List ℕ → ℤ) (peer : ℤ × Address) (now : ℤ)
        (asked : List Asked)
        → connect_cb_adapter pb messages malloc ssl_write client peer now ≡ done (client', asked)
        → Step client client'
    -- the timers of the probe call back
    period_fires :
        (p : UdpPing.Ping (Unit {0}) Address) (now later written : ℕ) (calls : List UdpPing.Call)
        → period_timer_cb now later written client.audio.pinger ≡ done (p, calls)
        → Step client (record client { audio = record client.audio { pinger = p } })
    reply_fires : Step client (record client {
      audio = record client.audio { pinger = reply_timer_cb client.audio.pinger };
    })

  pub data Reach (client0 : Client lib Address) : Client lib Address → Type 0 where
    created : Reach client0 client0
    next :
        {client client' : Client lib Address}
        → Reach client0 client
        → Step client client'
        → Reach client0 client'

  Step-IsValid :
      {client client' : Client lib Address} → Step client client' → IsValid client → IsValid client'
  unfolding write_audio set_on_audio set_on_message reply_timer_cb
  Step-IsValid {client} (came varint_fuel unset fuel buf events e) v =
      Ensures-done _ _ e
        (message_cb_adapter-IsValid pb messages malloc varint_fuel unset fuel client buf v)
  Step-IsValid {client} (ignored conn buf e) v = record {
    decoder = v.decoder;
    encoder = v.encoder;
    audio = record {
      udp = Ensures-done _ _ e (Conn.recv_cb-IsValid aes client.audio.udp buf v.audio.udp);
      voice = v.audio.voice;
      ping = v.audio.ping;
    };
  }
  Step-IsValid {client} (opened conn audio fuel unset buf inside given calls e called) v =
      let udp = Ensures-done _ _ e (Conn.recv_cb-IsValid aes client.audio.udp buf v.audio.udp) in
      let audio0 = record client.audio { udp = conn } in
      record {
        decoder = v.decoder;
        encoder = v.encoder;
        audio = Ensures-done _ _ called (
            AudioValid.udp_cb-IsValid audio0
              (record { udp = udp; voice = v.audio.voice; ping = v.audio.ping }) malloc fuel unset
              inside);
      }
  Step-IsValid {client} (spoke network calls_left unset target pcm sent small e) v =
      Ensures-done _ _ e
        (write_audio-IsValid aes malloc network calls_left unset client target pcm small v)
  Step-IsValid {client} (wrote ssl_write m bytes e) v =
      Ensures-done _ _ e (write-IsValid pb messages ssl_write client m v)
  Step-IsValid (hears cb) v = record { decoder = v.decoder; encoder = v.encoder; audio = v.audio }
  Step-IsValid (listens cb) v = record { decoder = v.decoder; encoder = v.encoder; audio = v.audio }
  Step-IsValid {client} (linked ssl_write peer now asked e) v =
      Ensures-done _ _ e (connect_cb_adapter-IsValid pb messages malloc ssl_write client peer now v)
  Step-IsValid {client} (period_fires p now later written calls e) v = record {
    decoder = v.decoder;
    encoder = v.encoder;
    audio = record {
      udp = v.audio.udp;
      voice = v.audio.voice;
      ping = Ensures-done _ _ e (period-IsReady now later written client.audio.pinger v.audio.ping);
    };
  }
  Step-IsValid reply_fires v = record {
    decoder = v.decoder;
    encoder = v.encoder;
    audio = record {
      udp = v.audio.udp;
      voice = v.audio.voice;
      ping = record { tail = v.audio.ping.tail; buf = v.audio.ping.buf; room = v.audio.ping.room };
    };
  }

  pub Reach-IsValid :
      {client0 client : Client lib Address}
      → Reach client0 client
      → IsValid client0
      → IsValid client
  Reach-IsValid created v = v
  Reach-IsValid (next reach step) v = Step-IsValid step (Reach-IsValid reach v)

  module _ (set_up : Made) (pool_malloc : Malloc) (audio_buffer_size : ℕ → ℕ → ℕ)
      (hostname : List ℕ) (port : ℕ) (nick : List ℕ)
      (fit : IsFit pool_malloc malloc audio_buffer_size) (client0 : Client lib Address)
      (made : init set_up pool_malloc malloc audio_buffer_size hostname port nick ≡ done client0)
      {client : Client lib Address} (reach : Reach client0 client) where
    -- A client is set up, with blocks of the size asked for, an allocator that returns no live block twice, and
    -- frames of voice of at least one byte and less than 2 ^ 32. Whatever comes over the stream or as a
    -- datagram, CryptSetup included, whatever the program says and writes, and whenever the timers of the probe call back, in
    -- any order, as long as each call returns: both buffers of frames stay valid, and so do the pool of the
    -- datagrams, the arrays of their cipher, the framing buffer of the voice and the buffer of the probe.
    pub Reach-init : IsValid client
    Reach-init = Reach-IsValid reach (
        Ensures-done _ _ made (
          init-IsValid lib Address set_up pool_malloc malloc audio_buffer_size hostname port nick
            fit))

    -- In such a state, `mumble_client_write` of a message of MumbleProto whose packed size does not wrap aborts if
    -- the message does not fit the encoder. If it fits, what goes to the stream is the frame of the message and nothing
    -- else, and the call aborts if `SSL_write` does not return more than 1.
    pub write-Reach :
        (laws : IsProtobuf pb) (ssl_write : List ℕ → ℤ) (m : pb.Message) (d : Descriptor)
        → pb.message_package m ≡ pb.mumble_proto
        → pb.message_name m ≡ pb.name d
        → 6 + pb.packed_size m < 2 ^ 64
        → ((client.encoder.buffer_allocated < 6 + pb.packed_size m)
            × (write pb messages ssl_write client m ≡ abort))
          ⊎ ((6 + pb.packed_size m ≤ client.encoder.buffer_allocated)
              × ((client' : Client lib Address) × (write pb messages ssl_write client m ≡ (
                    if ltb_ℤ (pos 1) (ssl_write (frame (type_number d) (pb.pack m)))
                    then done (client', frame (type_number d) (pb.pack m))
                    else abort))))
    unfolding write TcpSsl.write
    write-Reach laws ssl_write m d of_mumble named small =
        elim (encode_cases pb laws client.encoder m d Reach-init.encoder of_mumble named small) [
          | inl over ↦ inl (over.0, rw over.1 refl)
          | inr (fits, (enc, run, holds, v)) ↦ inr (
            fits,
            (
              record client { encoder = enc },
              rw (run, read_all enc v, holds)
                  (check_then (ltb_ℤ (pos 1) (ssl_write (frame (type_number d) (pb.pack m)))) _),
            ),
          )
        ]
