-- ===== src/Client/States/Tests.antt =====
-- A client that is set up, given its callbacks, and sends a first probe, which is not answered.
use mumble_web_demo.Prelude.{
  ℕ, ◌+◌, ◌*◌, ◌≤◌, ◌<◌, ◌≡◌, ◌⊎◌, refl, sym, ap, ◌∙◌, true, false, none, some, List, [], ◌∷◌,
  if◌then◌else◌, length, replicate, length-replicate, done, abort, arith,
}
use mumble_web_demo.Prelude.Int.{ℤ, pos, ltb_ℤ}
use mumble_web_demo.BufferPool.{Malloc, Pool}
use mumble_web_demo.BufferPool as BufferPool
use mumble_web_demo.BufferPool.Holders.{NeverTwice}
use mumble_web_demo.Ocb.{Aes}
use mumble_web_demo.Opus as Opus
use mumble_web_demo.Opus.{Blocks}
use mumble_web_demo.Buffer as Buffer
use mumble_web_demo.Frame as Frame
use mumble_web_demo.Frame.{Descriptor, version, frame}
use mumble_web_demo.Frame.Types.{type_number}
use mumble_web_demo.Varint as Varint
use mumble_web_demo.UdpPing as UdpPing
use mumble_web_demo.UdpSsl as UdpSsl
use mumble_web_demo.TcpSsl as TcpSsl
use mumble_web_demo.AudioEncoder as AudioEncoder
use mumble_web_demo.AudioDecoder as AudioDecoder
use mumble_web_demo.Audio as Audio
use mumble_web_demo.Audio.Valid.{IsFit}
use mumble_web_demo.TcpSsl.Setup
use mumble_web_demo.TcpSsl.Setup.{Made}
use mumble_web_demo.Client.{Client, init, set_on_audio, write}
use mumble_web_demo.Client.Valid.{IsValid}
use mumble_web_demo.Client.States.{
  hears, period_fires, reply_fires, Reach, created, next, Reach-init, write-Reach,
}
use mumble_web_demo.Fixtures.{toy_opus, sample_pb, sample_laws, sample_messages}

abbrev plain_aes : Aes
plain_aes = record { encrypt = λ key b. b; decrypt = λ key b. b }

-- A pointer is the number of the call.
abbrev counted : Malloc
counted call size = some call

counted-NeverTwice : NeverTwice counted
counted-NeverTwice i j a b p h k = cc (h, k)

zeros : ℕ → List ℕ
zeros n = replicate n 0

abbrev given : Blocks
given size = some (zeros size)

given-sized : (size : ℕ) (block : List ℕ) → given size ≡ some block → length block ≡ size
unfolding zeros
given-sized size block h =
    let e : zeros size ≡ block = cc h in sym (ap length e) ∙ length-replicate size 0

abbrev four : ℕ → ℕ → ℕ
four sample_rate buffer_ms = 4

four-IsFit : IsFit counted given four
four-IsFit = record {
  never = counted-NeverTwice;
  sized = given-sized;
  some_bytes = omega arith;
  fits = omega arith;
}

abbrev no_frames : Frame.FrameBuffer
no_frames = record {
  buffer = zeros Frame.max_size;
  buffer_allocated = Frame.max_size;
  buffer_size = 0;
}

abbrev new_client : Client toy_opus ℕ
new_client = record {
  hostname = 104 ∷ [];
  port = 64738;
  nick = 110 ∷ [];
  socket = record { buffers = 1 ∷ 2 ∷ 3 ∷ 4 ∷ []; in_use = 0; size = 16 * 1024; buffer_count = 4 };
  audio = record {
    udp = record {
      cipher = record {
        key = replicate 16 0;
        enc_iv = replicate 16 0;
        dec_iv = replicate 16 0;
        ivlen = 0;
        taglen = 0;
      };
      cb = true;
      buffer_pool = record { buffers = 1 ∷ 2 ∷ []; in_use = 0; size = 1024; buffer_count = 2 };
    };
    cb = true;
    decoder = record { cb = true; opus = tt; sequence = 0; packets = 0; dropped_sequence = 0 };
    encoder = record {
      cb = true;
      opus = record {
        encoder = tt;
        buffer = record { buf = zeros 4; buf_allocated = length (zeros 4); buf_used = 0 };
        buffer_ms = 20;
        codec_out = zeros 4;
        framed_out = zeros 4;
      };
      sequence = 0;
    };
    addr = none;
    pinger = record {
      socket = tt;
      sockaddr = none;
      connected = false;
      ping_period = pos 5000;
      timeout = pos 1000;
      timestamp = 0;
      waiting = false;
      ping_buf = 0x20 ∷ replicate 7 0;
    };
  };
  on_message = false;
  on_audio = false;
  decoder = no_frames;
  encoder = no_frames;
}

abbrev all_made : Made
all_made = record { tcp = pos 0; ssl_ctx = true; verify_paths = pos 1; ssl = true }

new_client-made : init all_made counted given four (104 ∷ []) 64738 (110 ∷ []) ≡ done new_client
unfolding init Setup.init TcpSsl.init_pool BufferPool.init Audio.init UdpSsl.init_conn UdpSsl.set_cb
    AudioEncoder.init AudioEncoder.set_cb AudioDecoder.init AudioDecoder.set_cb Opus.create_encoder
    Opus.create_decoder Opus.codec_buf_init Buffer.create UdpPing.init UdpPing.init_ex Audio.set_cb
    Frame.init
new_client-made = refl

abbrev pinged : UdpPing.Ping (Unit {0}) ℕ
pinged = record new_client.audio.pinger {
  timestamp = 300;
  waiting = true;
  ping_buf = 0x20 ∷ 0x81 ∷ 0x2c ∷ replicate 5 0;
}

abbrev hearing : Client toy_opus ℕ
hearing = record new_client { on_audio = true }

probe_sent :
    UdpPing.period_timer_cb 300 300 5 hearing.audio.pinger
    ≡ done (pinged, UdpPing.send (0x20 ∷ 0x81 ∷ 0x2c ∷ []) ∷ UdpPing.start_reply (pos 1000) ∷ [])
unfolding UdpPing.period_timer_cb UdpPing.attempt_init Varint.encode
probe_sent = refl

abbrev waits : Client toy_opus ℕ
waits = record hearing { audio = record hearing.audio { pinger = pinged } }

abbrev unanswered : Client toy_opus ℕ
unanswered = record waits { audio = record waits.audio { pinger = UdpPing.reply_timer_cb pinged } }

lived : Reach sample_pb sample_messages plain_aes given new_client unanswered
unfolding set_on_audio
lived =
    next (next (next created (hears true)) (period_fires pinged 300 300 5 _ probe_sent)) reply_fires

Reach-init_example : let client = unanswered in IsValid client
Reach-init_example =
    Reach-init sample_pb sample_messages plain_aes given all_made counted four (104 ∷ []) 64738
      (110 ∷ []) four-IsFit new_client new_client-made lived

write-Reach_example :
    let lib = toy_opus in
    let Address : Type 0 = ℕ in
    let pb = sample_pb in
    let messages = sample_messages in
    let client = unanswered in
    let ssl_write : List ℕ → ℤ = λ bytes. pos 20 in
    let m : Descriptor × List ℕ = (version, 1 ∷ []) in
    let d = version in
    ((client.encoder.buffer_allocated < 6 + pb.packed_size m)
      × (write pb messages ssl_write client m ≡ abort))
    ⊎ ((6 + pb.packed_size m ≤ client.encoder.buffer_allocated)
        × ((client' : Client lib Address) × (write pb messages ssl_write client m ≡ (
              if ltb_ℤ (pos 1) (ssl_write (frame (type_number d) (pb.pack m)))
              then done (client', frame (type_number d) (pb.pack m))
              else abort))))
write-Reach_example =
    write-Reach sample_pb sample_messages plain_aes given all_made counted four (104 ∷ []) 64738
      (110 ∷ []) four-IsFit new_client new_client-made lived sample_laws (λ bytes. pos 20)
      (version, 1 ∷ []) version refl refl (omega arith)
