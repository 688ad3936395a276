-- ===== src/Client.antt =====
-- The client of lib/mumble/mumble_client.c: control frames that come over the TLS stream, and voice.
-- What the client's callbacks are given, and what is asked of the timers, is returned as a list of events. The names
-- of the host and of the user, and the port, are kept; libuv's timer and OpenSSL's stream are not part of the state.
pub mod Partial
pub mod Pump
pub mod Tunnel
pub mod Writes
pub mod Connect
pub mod Valid
pub mod States
mod Tests
use mumble_web_demo.Prelude.{
  ℕ, zero, suc, ◌+◌, bit_or, ◌<<<◌, Bool, true, false, Option, none, some, List, [], ◌∷◌, ◌++◌, map,
  ◌==◌, if◌then◌else◌, length, or_fault, Outcome, done, no_fuel, ◌>>=◌, ◌>>◌, check,
}
use mumble_web_demo.Prelude.Int.{ℤ, pos, negsuc}
use mumble_web_demo.Prelude.Signed.{of_int, or_abort}
use mumble_web_demo.Prelude.Memory.{read_at, write_at}
use mumble_web_demo.BufferPool.{Malloc, Pool}
use mumble_web_demo.Ocb.{Aes}
use mumble_web_demo.Opus.{LibOpus, Blocks}
use mumble_web_demo.Frame
use mumble_web_demo.Frame.{Protobuf, FrameBuffer, type_crypt_setup}
use mumble_web_demo.Frame.Encoder
use mumble_web_demo.Frame.Decoder
use mumble_web_demo.Frame.Decoder.{ready, is_audio, append, pop}
use mumble_web_demo.UdpPing
use mumble_web_demo.TcpSsl
use mumble_web_demo.TcpSsl.Setup
use mumble_web_demo.TcpSsl.Setup.{Made}
use mumble_web_demo.AudioDecoder
use mumble_web_demo.AudioDecoder.{AudioPacket}
use mumble_web_demo.Audio
use mumble_web_demo.Audio.{Audio, Network, Sent}

-- The fields of a CryptSetup message.
pub record CryptSetup : Type 0 where
  pub has_key : Bool
  pub has_client_nonce : Bool
  pub has_server_nonce : Bool
  pub key : List ℕ
  pub client_nonce : List ℕ
  pub server_nonce : List ℕ

-- The fields that the client sets of the structs that it makes, and the flags that say which of the optional
-- numbers are there. A user name is a C string or NULL.
pub record VersionMessage : Type 0 where
  pub has_version : Bool
  pub version : ℕ

pub record AuthenticateMessage : Type 0 where
  pub username : Option (List ℕ)
  pub has_opus : Bool
  pub opus : Bool

pub record PingMessage : Type 0 where
  pub has_timestamp : Bool
  pub timestamp : ℕ

-- The generated MUMBLE_PROTO__VERSION__INIT, MUMBLE_PROTO__AUTHENTICATE__INIT and MUMBLE_PROTO__PING__INIT: the
-- fields are optional, so none of them is there.
abbrev pub version_init : VersionMessage
version_init = record { has_version = false; version = 0 }

abbrev pub authenticate_init : AuthenticateMessage
authenticate_init = record { username = none; has_opus = false; opus = false }

abbrev pub ping_init : PingMessage
ping_init = record { has_timestamp = false; timestamp = 0 }

-- A Ping at the time `now`, cut off to an `int`.
abbrev pub timed_ping : ℤ → PingMessage
timed_ping now = record ping_init { timestamp = of_int now }

-- The messages of the protocol that the client looks into, or makes; all other fields are those of INIT.
pub record Messages (pb : Protobuf) : Type 0 where
  pub crypt_setup : pb.Message → CryptSetup
  pub version : VersionMessage → pb.Message
  pub authenticate : AuthenticateMessage → pb.Message
  pub ping : PingMessage → pb.Message

-- What the connection asks for: the timer of the ping, with its timeout and its period, and writes.
pub data Asked : Type 0 where
  start_timer : ℕ → ℕ → Asked
  wrote : List ℕ → Asked

-- `dupstr` of lib/mumble/util.c, on the bytes of a C string before its end.
unfoldable pub dupstr : Blocks → List ℕ → Outcome (Option (List ℕ))
dupstr malloc source = copy (malloc (length source + 1))
  where
    copy : Option (List ℕ) → Outcome (Option (List ℕ))
    copy none = done none
    copy (some dest) = do block ← write_at dest 0 (source ++ (0 ∷ [])); done (some block)

-- `(1 << 16) | (2 << 8) | 5`
abbrev pub version_1_2_5 : ℕ
version_1_2_5 = bit_or (bit_or (1 <<< 16) (2 <<< 8)) 5

-- `mumble_client_t`; each callback is there or not.
pub record Client (lib : LibOpus) (Address : Type 0) : Type 0 where
  pub hostname : List ℕ
  pub port : ℕ
  pub nick : List ℕ
  pub socket : Pool
  pub audio : Audio lib Address
  pub on_message : Bool
  pub on_audio : Bool
  pub decoder : FrameBuffer
  pub encoder : FrameBuffer

-- What a client tells: a packet to the audio callback, a message with its type to the message callback, and
-- a call of the probe.
pub data Event (Message : Type 0) : Type 0 where
  heard : AudioPacket → Event Message
  message : ℕ → Option Message → Event Message
  probe : UdpPing.Call → Event Message

abbrev pub Told : LibOpus → Type 0 → Protobuf → Type 0
Told lib Address pb = Client lib Address × List (Event pb.Message)

module _ {lib : LibOpus} {Address : Type 0} (pb : Protobuf) (messages : Messages pb) where
  -- The case MUMBLE_TYPE_CRYPT_SETUP of `mumble_message_internal`.
  unfoldable pub encrypt : Client lib Address → CryptSetup → Outcome (Told lib Address pb)
  encrypt client msg = do
    check msg.has_key
    check msg.has_client_nonce
    check msg.has_server_nonce
    (audio', calls) ←
        Audio.encryption client.audio msg.key msg.client_nonce msg.server_nonce
          (length msg.client_nonce)
    done (record client { audio = audio' }, map (λ (c : UdpPing.Call). probe c) calls)

  -- `mumble_message_internal`; `none` is NULL.
  unfoldable pub message_internal :
      Client lib Address → ℕ → Option pb.Message → Outcome (Told lib Address pb)
  unfolding encrypt
  message_internal client type m =
      if type == type_crypt_setup
      then (or_fault m >>= λ msg. encrypt client (messages.crypt_setup msg))
      else done (client, [])

  -- A message that has been decoded, with what `mumble_frame_decode` returned.
  unfoldable pub told : Client lib Address → ℤ → Option pb.Message → Outcome (Told lib Address pb)
  unfolding message_internal
  told client (negsuc n) m = done (client, [])
  told client (pos type) m = do
    (client', events) ← message_internal client type m
    done (client', events ++ (if client'.on_message then message type m ∷ [] else []))

  -- `mumble_on_audio`, on what the callback of the audio part is given.
  unfoldable pub on_audio_given : Client lib Address → Option AudioPacket → List (Event pb.Message)
  on_audio_given client none = []
  on_audio_given client (some decoded) = if client.on_audio then heard decoded ∷ [] else []

  module _ (malloc : Blocks) (varint_fuel unset : ℕ) where
    -- A frame of audio: the whole of what the decoder holds goes to the audio decoder.
    unfoldable pub handle_audio : Client lib Address → Outcome (Told lib Address pb)
    unfolding on_audio_given
    handle_audio client = do
      let held = client.decoder
      (audio_decoder, r) ←
          AudioDecoder.decode lib malloc varint_fuel unset client.audio.decoder held.buffer
            (pos held.buffer_size)
      (decoder', popped) ← pop held
      done (
        record client {
          audio = record client.audio { decoder = audio_decoder };
          decoder = decoder';
        },
        on_audio_given client (Audio.deliver client.audio r),
      )

    -- Any other frame; the pointer to the message is not initialised.
    unfoldable pub handle_message : Client lib Address → Outcome (Told lib Address pb)
    unfolding told
    handle_message client = do
      d ← Frame.Decoder.decode pb client.decoder false none
      told (record client { decoder = d.ctx }) d.ret d.message

    -- The body of the loop of `mumble_message_cb_adapter`.
    unfoldable pub handle_frame : Client lib Address → Outcome (Told lib Address pb)
    unfolding handle_audio handle_message
    handle_frame client = do
      audio ← is_audio client.decoder
      if audio then handle_audio client else handle_message client

    -- A frame, and what follows it.
    unfoldable pub handle_frames :
        (Client lib Address → Outcome (Told lib Address pb))
        → Client lib Address
        → Outcome (Told lib Address pb)
    unfolding handle_frame
    handle_frames again client = do
      (client', events) ← handle_frame client
      (client'', more) ← again client'
      done (client'', events ++ more)

    -- The loop, with fuel for its rounds.
    unfoldable pub pump : ℕ → Client lib Address → Outcome (Told lib Address pb)
    unfolding handle_frames
    pump zero client = no_fuel
    pump (suc fuel) client = do
      r ← ready client.decoder
      if r then handle_frames (pump fuel) client else done (client, [])

    -- `mumble_message_cb_adapter` on the bytes that came in.
    unfoldable pub message_cb_adapter :
        ℕ → Client lib Address → List ℕ → Outcome (Told lib Address pb)
    unfolding pump
    message_cb_adapter fuel client buf = do
      (decoder', r) ← append client.decoder buf
      pump fuel (record client { decoder = decoder' })

  -- `mumble_client_write`, with the bytes that go to the TLS stream.
  unfoldable pub write :
      (List ℕ → ℤ) → Client lib Address → pb.Message → Outcome (Client lib Address × List ℕ)
  write ssl_write client m = do
    encoder' ← Frame.Encoder.encode pb client.encoder m
    bytes ← read_at encoder'.buffer 0 encoder'.buffer_size
    TcpSsl.write ssl_write bytes
    done (record client { encoder = encoder' }, bytes)

  -- `mumble_client_on_ping`
  unfoldable pub on_ping :
      (List ℕ → ℤ) → Client lib Address → ℤ → Outcome (Client lib Address × List ℕ)
  unfolding write
  on_ping ssl_write client now = write ssl_write client (messages.ping (timed_ping now))

  -- `mumble_connect_cb_adapter`, with what it asks for, in order.
  unfoldable pub connect_cb_adapter :
      Blocks
      → (List ℕ → ℤ)
      → Client lib Address
      → ℤ × Address
      → ℤ
      → Outcome (Client lib Address × List Asked)
  unfolding write dupstr
  connect_cb_adapter malloc ssl_write client peer now = do
    audio ← Audio.start client.audio peer
    let version = record version_init { version = version_1_2_5 }
    (client1, b1) ← write ssl_write (record client { audio = audio }) (messages.version version)
    username ← dupstr malloc client.nick
    let authenticate = record authenticate_init {
      username = username;
      opus = true;
      has_opus = true;
    }
    (client2, b2) ← write ssl_write client1 (messages.authenticate authenticate)
    (client3, b3) ← write ssl_write client2 (messages.ping (timed_ping now))
    done (client3, start_timer 15000 30000 ∷ wrote b1 ∷ wrote b2 ∷ wrote b3 ∷ [])

module _ {lib : LibOpus} {Address : Type 0} where
  -- `mumble_client_init`; the two blocks are for the frame decoder and the frame encoder.
  unfoldable pub init :
      Made → Malloc → Blocks → (ℕ → ℕ → ℕ) → List ℕ → ℕ → List ℕ → Outcome (Client lib Address)
  init made pool_malloc malloc audio_buffer_size hostname port nick = do
    pool ← Setup.init made pool_malloc
    audio ← Audio.init pool_malloc malloc audio_buffer_size
    decoder ← Frame.init (malloc Frame.max_size)
    encoder ← Frame.init (malloc Frame.max_size)
    done (record {
      hostname = hostname;
      port = port;
      nick = nick;
      socket = pool;
      audio = Audio.set_cb audio true;
      on_message = false;
      on_audio = false;
      decoder = decoder;
      encoder = encoder;
    })

  -- `mumble_client_set_on_audio` and `mumble_client_set_on_message`
  unfoldable pub set_on_audio : Client lib Address → Bool → Client lib Address
  set_on_audio client cb = record client { on_audio = cb }

  unfoldable pub set_on_message : Client lib Address → Bool → Client lib Address
  set_on_message client cb = record client { on_message = cb }

  -- `mumble_client_write_audio`
  unfoldable pub write_audio :
      Aes
      → Blocks
      → Network
      → ℕ
      → List ℕ
      → Client lib Address
      → ℕ
      → List ℕ
      → Outcome (Client lib Address × List Sent)
  write_audio aes malloc network calls_left unset client target pcm = do
    (audio', sent) ← Audio.send aes malloc network calls_left unset client.audio target pcm
    done (record client { audio = audio' }, sent)
