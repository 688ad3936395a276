-- ===== src/Client/Writes.antt =====
-- What the client writes to the TLS stream.
use mumble_web_demo.Prelude.{
  ℕ, ◌+◌, ◌≤◌, ◌≡◌, inl, inr, refl, sym, ap, ◌∙◌, false, true, some, List, [], ◌∷◌, ◌++◌,
  append-nil, length, length-append, drop_all, done, check, Ensures, bind-Ensures, Ensures-done,
  arith, leb, u64, be16, be32,
}
use mumble_web_demo.Prelude.Int.{ℤ, pos, ltb_ℤ}
use mumble_web_demo.Prelude.Signed.{of_int}
use mumble_web_demo.Prelude.Memory.{read_at, write_at}
use mumble_web_demo.Opus.{LibOpus, Blocks}
use mumble_web_demo.Frame.{Protobuf, IsProtobuf, FrameBuffer, IsValid, contents, frame}
use mumble_web_demo.Frame.Types.{type_number}
use mumble_web_demo.Frame.Stream.{Entry, wire}
use mumble_web_demo.Frame.Encoder.{encode, get_message_type, known}
use mumble_web_demo.Frame.Encoder.Laws.{encode_cases}
use mumble_web_demo.TcpSsl
use mumble_web_demo.Audio
use mumble_web_demo.UdpPing
use mumble_web_demo.Client.{
  Client, Messages, VersionMessage, PingMessage, version_init, ping_init, timed_ping, version_1_2_5,
  start_timer, wrote, write, connect_cb_adapter, dupstr,
}

-- The bytes of a string with its end, in a block with room for them.
pub dupstr_lem :
    (malloc : Blocks) (source block : List ℕ)
    → malloc (length source + 1) ≡ some block
    → length block ≡ length source + 1
    → dupstr malloc source ≡ done (some (source ++ (0 ∷ [])))
unfolding dupstr
dupstr_lem malloc source block e whole = rw e (
    ground (
      arith,
      whole,
      length-append source (0 ∷ []),
      drop_all (length source + 1) block,
      append-nil (source ++ (0 ∷ [])),
    ))

-- What protobuf-c documents of the messages: a struct has the name and the package of its type, and of an optional
-- number that is not there nothing is packed.
pub record IsMessages {pb : Protobuf} (messages : Messages pb) : Type 0 where
  pub same_version_name :
      (v w : VersionMessage)
      → pb.message_name (messages.version v) ≡ pb.message_name (messages.version w)
  pub same_version_package :
      (v w : VersionMessage)
      → pb.message_package (messages.version v) ≡ pb.message_package (messages.version w)
  pub same_ping_name :
      (v w : PingMessage) → pb.message_name (messages.ping v) ≡ pb.message_name (messages.ping w)
  pub same_ping_package :
      (v w : PingMessage)
      → pb.message_package (messages.ping v) ≡ pb.message_package (messages.ping w)
  pub absent_version :
      (n : ℕ)
      → pb.pack (messages.version (record { has_version = false; version = n }))
        ≡ pb.pack (messages.version version_init)
  pub absent_timestamp :
      (n : ℕ)
      → pb.pack (messages.ping (record { has_timestamp = false; timestamp = n }))
        ≡ pb.pack (messages.ping ping_init)

module _ (pb : Protobuf) (laws : IsProtobuf pb) where
  -- The encoder keeps the size of its block.
  encode_allocated :
      (ctx : FrameBuffer) (m : pb.Message)
      → Ensures
          (λ (ctx' : FrameBuffer). ctx'.buffer_allocated ≡ ctx.buffer_allocated)
          (encode pb ctx m)
  unfolding encode
  encode_allocated ctx m = bind-Ensures _ (get_message_type pb m) _ (λ found e.
      bind-Ensures _ (known pb found) _ (λ type e.
        bind-Ensures _ (check (leb (u64 (2 + 4 + pb.packed_size m)) ctx.buffer_allocated)) _ (λ u e.
          bind-Ensures _ (write_at ctx.buffer 0 (be16 type)) _ (λ b1 e.
            bind-Ensures _ (write_at b1 2 (be32 (pb.packed_size m))) _
              (λ b2 e. bind-Ensures _ (write_at b2 6 (pb.pack m)) _ (λ b3 e. refl))))))

  -- A message that fits the encoder and that `SSL_write` takes.
  pub record Goes (size : ℕ) (ssl_write : List ℕ → ℤ) (e : Entry pb) : Type 0 where
    pub proto : pb.message_package e.message ≡ pb.mumble_proto
    pub fits : 6 + pb.packed_size e.message ≤ size
    pub taken : ltb_ℤ (pos 1) (ssl_write (frame (type_number e.kind) (pb.pack e.message))) ≡ true

  abbrev bytes_of : Entry pb → List ℕ
  bytes_of e = frame (type_number e.kind) (pb.pack e.message)

  module _ {lib : LibOpus} {Address : Type 0} (messages : Messages pb)
      (ssl_write : List ℕ → ℤ) where
    -- The frame of the entry is written for the message.
    abbrev Written : Client lib Address → Entry pb → pb.Message → Type 0
    Written client e m =
        (enc : FrameBuffer) × (write pb messages ssl_write client m
          ≡ done (record client { encoder = enc }, bytes_of e))
        × IsValid enc
        × (enc.buffer_allocated ≡ client.encoder.buffer_allocated)

    write_lem :
        (client : Client lib Address) (e : Entry pb)
        → IsValid client.encoder
        → Goes client.encoder.buffer_allocated ssl_write e
        → (enc : FrameBuffer) × (write pb messages ssl_write client e.message
            ≡ done
                (record client { encoder = enc }, frame (type_number e.kind) (pb.pack e.message)))
          × IsValid enc
          × (enc.buffer_allocated ≡ client.encoder.buffer_allocated)
    unfolding write TcpSsl.write
    write_lem client e v goes =
        elim (encode_cases pb laws client.encoder e.message e.kind v goes.proto e.is_kind
          (omega (arith, goes.fits, v.fits))) [
            | inl full ↦ absurd (omega (arith, full.0, goes.fits))
            | inr (fits, (enc, run, holds, v')) ↦ (
              enc,
              rw (run, read_all enc v', holds, goes.taken) refl,
              v',
              Ensures-done _ _ run (encode_allocated client.encoder e.message),
            )
          ]
      where
        read_all :
            (enc : FrameBuffer)
            → IsValid enc
            → read_at enc.buffer 0 enc.buffer_size ≡ done (contents enc)
        read_all enc v' = ground (arith, v'.within, v'.whole)

    -- The same for another message with the same name and the same bytes.
    write_same :
        (client : Client lib Address) (e : Entry pb) (m : pb.Message)
        → pb.message_name m ≡ pb.message_name e.message
        → pb.message_package m ≡ pb.message_package e.message
        → pb.pack m ≡ pb.pack e.message
        → IsValid client.encoder
        → Goes client.encoder.buffer_allocated ssl_write e
        → Written client e m
    write_same client e m named of_package packed v goes =
        let e' : Entry pb = record {
          kind = e.kind;
          message = m;
          is_kind = named ∙ e.is_kind;
          no_audio = e.no_audio;
        } in
        let goes' : Goes client.encoder.buffer_allocated ssl_write e' = record {
          proto = of_package ∙ goes.proto;
          fits =
              omega (
                arith,
                goes.fits,
                laws.length-pack m,
                laws.length-pack e.message,
                ap length packed,
              );
          taken = rw packed goes.taken;
        } in
        rw packed at (write_lem client e' v goes')

    -- The stream is connected, the encoder is valid, and there is a block for the name. Of an
    -- optional number that is not there, protobuf-c packs nothing. A Version without any field, an
    -- Authenticate with the name and with Opus, and a Ping without any field fit the encoder, and
    -- `SSL_write` takes them. Then `mumble_connect_cb_adapter` keeps the address, starts the timer of the ping, and
    -- writes the frames of these three, in this order: the number of the version and the time, which it stores in the
    -- structs, are not sent, since it does not set `has_version` and `has_timestamp`.
    pub connect_cb_adapter-wire :
        (malloc : Blocks) (client : Client lib Address) (addr : Address) (now : ℤ) (block : List ℕ)
        (hello login ping : Entry pb)
        → IsMessages messages
        → malloc (length client.nick + 1) ≡ some block
        → length block ≡ length client.nick + 1
        → IsValid client.encoder
        → hello.message ≡ messages.version version_init
        → login.message
          ≡ messages.authenticate
              (record { username = some (client.nick ++ (0 ∷ [])); has_opus = true; opus = true })
        → ping.message ≡ messages.ping ping_init
        → Goes client.encoder.buffer_allocated ssl_write hello
        → Goes client.encoder.buffer_allocated ssl_write login
        → Goes client.encoder.buffer_allocated ssl_write ping
        → (client' : Client lib Address) × (b1 b2 b3 : List ℕ) × (connect_cb_adapter pb messages
              malloc ssl_write client
              (pos 0, addr)
              now
            ≡ done (client', start_timer 15000 30000 ∷ wrote b1 ∷ wrote b2 ∷ wrote b3 ∷ []))
          × (b1 ++ (b2 ++ b3) ≡ wire pb (hello ∷ login ∷ ping ∷ []))
          × (client'.audio.addr ≡ some addr)
          × IsValid client'.encoder
    unfolding connect_cb_adapter Audio.start TcpSsl.peername wire
    connect_cb_adapter-wire malloc client addr now block hello login ping made e whole v h1 h2 h3 g1
          g2 g3 =
        let version = record version_init { version = version_1_2_5 } in
        let client0 = record client {
          audio = record client.audio {
            addr = some addr;
            pinger = UdpPing.address client.audio.pinger addr;
          };
        } in
        let (enc1, run1, v1, s1) =
          write_same client0 hello (messages.version version)
            (made.same_version_name version version_init ∙ sym (ap pb.message_name h1))
            (made.same_version_package version version_init ∙ sym (ap pb.message_package h1))
            (made.absent_version version_1_2_5 ∙ sym (ap pb.pack h1)) v g1 in
        let client1 = record client0 { encoder = enc1 } in
        let (enc2, run2, v2, s2) = write_lem client1 login v1 (rw s1 g2) in
        let client2 = record client1 { encoder = enc2 } in
        let (enc3, run3, v3, s3) =
          write_same client2 ping (messages.ping (timed_ping now))
            (made.same_ping_name (timed_ping now) ping_init ∙ sym (ap pb.message_name h3))
            (made.same_ping_package (timed_ping now) ping_init ∙ sym (ap pb.message_package h3))
            (made.absent_timestamp (of_int now) ∙ sym (ap pb.pack h3)) v2 (rw (s2, s1) g3) in
        (
          record client2 { encoder = enc3 },
          bytes_of hello,
          bytes_of login,
          bytes_of ping,
          rw (run1, dupstr_lem malloc client.nick block e whole, ← h2, run2, run3) refl,
          ap
              (λ t.
                frame (type_number hello.kind) (pb.pack hello.message)
                ++ (frame (type_number login.kind) (pb.pack login.message) ++ t))
              (sym (append-nil _)),
          refl,
          v3,
        )
