-- ===== src/Audio.antt =====
-- Voice, as lib/mumble/audio.c puts it together: the encoder and the decoder of audio packets, the encrypted
-- datagrams, the liveness probe, and the tunnel through the TLS stream. The socket of the probe is the
-- connection of the same struct. OpenSSL's `SSL_write` and libuv's `uv_udp_try_send` are given by what
-- they return on the bytes.
pub mod Laws
pub mod Voice
pub mod Valid
mod Tests
use mumble_web_demo.Prelude.{
  ℕ, ◌+◌, Bool, true, false, Option, none, some, List, [], ◌∷◌, ◌++◌, ◌==◌, if◌then◌else◌, length,
  drop, replicate, read, be16, be32, or_fault, Outcome, done, ◌>>=◌, ◌>>◌,
}
use mumble_web_demo.Prelude.Int.{ℤ, pos, ◌-ℤ◌}
use mumble_web_demo.Prelude.Signed.{positive}
use mumble_web_demo.Prelude.Memory.{read_at, write_at}
use mumble_web_demo.BufferPool.{Malloc}
use mumble_web_demo.Varint
use mumble_web_demo.Ocb.{Aes}
use mumble_web_demo.Opus.{LibOpus, Blocks}
use mumble_web_demo.Frame.{type_udptunnel}
use mumble_web_demo.UdpPing
use mumble_web_demo.UdpPing.{Ping}
use mumble_web_demo.UdpSsl
use mumble_web_demo.UdpSsl.{Conn}
use mumble_web_demo.TcpSsl
use mumble_web_demo.AudioEncoder
use mumble_web_demo.AudioEncoder.{AudioEncoder}
use mumble_web_demo.AudioDecoder
use mumble_web_demo.AudioDecoder.{AudioDecoder, AudioPacket, Read}

-- `mumble_audio_t`, less the pointer to the TLS stream; the callback is there or not.
pub record Audio (lib : LibOpus) (Address : Type 0) : Type 0 where
  pub udp : Conn
  pub cb : Bool
  pub decoder : AudioDecoder lib
  pub encoder : AudioEncoder lib
  pub addr : Option Address
  pub pinger : Ping (Unit {0}) Address

-- What goes out: a datagram, or bytes on the TLS stream.
pub data Sent : Type 0 where
  datagram : List ℕ → Sent
  tunnelled : List ℕ → Sent

-- The results of the calls that send.
pub record Network : Type 0 where
  pub try_send : List ℕ → ℤ
  pub ssl_write : List ℕ → ℤ

-- The part of `encoder_cb` that goes through the stream; the block is cleared before it is checked.
unfoldable pub tunnel : Blocks → (List ℕ → ℤ) → List ℕ → Outcome (List ℕ)
unfolding TcpSsl.write
tunnel malloc ssl_write buf = do
  let size = length buf
  block ← or_fault (malloc (size + 6))
  cleared ← write_at block 0 (replicate (size + 6) 0)
  typed ← write_at cleared 0 (be16 type_udptunnel)
  sized ← write_at typed 2 (be32 size)
  filled ← write_at sized 6 buf
  tcp_buf ← read_at filled 0 (size + 6)
  TcpSsl.write ssl_write tcp_buf
  done tcp_buf

-- `encoder_cb`, on the connection and what has been sent.
unfoldable pub encoder_cb :
    Aes → Blocks → Network → Bool → Conn × List Sent → List ℕ → Outcome (Conn × List Sent)
unfolding tunnel
encoder_cb aes malloc network connected (udp, sent) buf =
    if connected
    then (do
      (udp', packet) ← UdpSsl.write aes network.try_send udp buf
      done (udp', sent ++ (datagram packet ∷ [])))
    else (do
      tcp_buf ← tunnel malloc network.ssl_write buf
      done (udp, sent ++ (tunnelled tcp_buf ∷ [])))

module _ {lib : LibOpus} {Address : Type 0} where
  -- `decoder_cb`: what the callback is given.
  unfoldable pub decoder_cb : Audio lib Address → AudioPacket → Option AudioPacket
  decoder_cb audio decoded = if audio.cb then some decoded else none

  -- A packet that was read, by way of the callback of the decoder.
  unfoldable pub deliver : Audio lib Address → Read → Option AudioPacket
  unfolding decoder_cb
  deliver audio r = if r.called then decoder_cb audio r.audio else none

  -- `udp_cb`, with what the callback is given and the calls of the probe.
  unfoldable pub udp_cb :
      Blocks
      → ℕ
      → ℕ
      → Audio lib Address
      → List ℕ
      → Outcome (Audio lib Address × Option AudioPacket × List UdpPing.Call)
  unfolding deliver
  udp_cb malloc fuel unset audio buf = do
    first ← read buf 0
    if first == 0x20
        then (do
          d ← Varint.decode fuel (drop 1 buf) (pos (length buf) -ℤ pos 1) unset
          n ← positive d.ret
          let (pinger', calls) = UdpPing.recv audio.pinger d.result
          done (record audio { pinger = pinger' }, none, calls))
        else (do
          (decoder', r) ←
              AudioDecoder.decode lib malloc fuel unset audio.decoder buf (pos (length buf))
          done (record audio { decoder = decoder' }, deliver audio r, []))

  -- `mumble_audio_encryption`
  unfoldable pub encryption :
      Audio lib Address
      → List ℕ
      → List ℕ
      → List ℕ
      → ℕ
      → Outcome (Audio lib Address × List UdpPing.Call)
  encryption audio key enc_iv dec_iv ivlen = do
    udp ← UdpSsl.set_encryption audio.udp key enc_iv dec_iv ivlen
    let (pinger', calls) = UdpPing.start audio.pinger
    done (record audio { udp = udp; pinger = pinger' }, calls)

  -- `mumble_audio_init`
  unfoldable pub init : Malloc → Blocks → (ℕ → ℕ → ℕ) → Outcome (Audio lib Address)
  init pool_malloc malloc audio_buffer_size = do
    udp ← UdpSsl.init_conn pool_malloc
    encoder ← AudioEncoder.init lib malloc audio_buffer_size 48000 20 0
    decoder ← AudioDecoder.init lib malloc
    pinger ← UdpPing.init (some tt)
    done (record {
      udp = UdpSsl.set_cb udp true;
      cb = false;
      decoder = AudioDecoder.set_cb decoder true;
      encoder = AudioEncoder.set_cb encoder true;
      addr = none;
      pinger = pinger;
    })

  -- `mumble_audio_is_udp`
  unfoldable pub is_udp : Audio lib Address → Bool
  is_udp audio = audio.pinger.connected

  -- `mumble_audio_send`, with fuel for the framing buffer: what is sent, in order.
  unfoldable pub send :
      Aes
      → Blocks
      → Network
      → ℕ
      → List ℕ
      → Audio lib Address
      → ℕ
      → List ℕ
      → Outcome (Audio lib Address × List Sent)
  unfolding encoder_cb
  send aes malloc network calls_left unset audio target pcm = do
    ((udp', sent), encoder') ←
        AudioEncoder.encode lib malloc (encoder_cb aes malloc network audio.pinger.connected)
          calls_left unset (audio.udp, []) audio.encoder target pcm none
    done (record audio { udp = udp'; encoder = encoder' }, sent)

  -- `mumble_audio_set_cb`
  unfoldable pub set_cb : Audio lib Address → Bool → Audio lib Address
  set_cb audio cb = record audio { cb = cb }

  -- `mumble_audio_start`, with what `uv_tcp_getpeername` returns and stores.
  unfoldable pub start : Audio lib Address → ℤ × Address → Outcome (Audio lib Address)
  start audio peer = do
    addr ← TcpSsl.peername peer
    done (record audio { addr = some addr; pinger = UdpPing.address audio.pinger addr })

  -- `mumble_audio_stop`
  unfoldable pub stop : Audio lib Address → Audio lib Address × List UdpPing.Call
  stop audio =
      let (pinger', calls) = UdpPing.stop audio.pinger in (record audio { pinger = pinger' }, calls)
