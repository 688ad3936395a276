-- ===== src/Audio/Voice/Relay.antt =====
-- Voice from one client to another, over UDP. The server between them is no part of the repository: it opens a
-- packet, puts the number of the source behind the first byte, as the protocol says, and seals it for
-- the receiver.
use mumble_web_demo.Prelude.{
  ℕ, suc, ◌+◌, ◌≤◌, ◌<◌, ◌≡◌, refl, ◌∙◌, Bool, true, some, List, [], ◌∷◌, ◌++◌, All, IsByte, length,
  length-append, u32, done, arith,
}
use mumble_web_demo.Varint.{encode_size}
use mumble_web_demo.Varint.Encoding.{encoding, length-encoding, encode_size_bounds}
use mumble_web_demo.Opus.{LibOpus, IsOpus, Blocks, Heard}
use mumble_web_demo.AudioEncoder.{encoded_size}
use mumble_web_demo.AudioEncoder.Packets.{encoder_codec_packet_lem}
use mumble_web_demo.Prelude.Int.{pos, ltb_ℤ}
use mumble_web_demo.Prelude.Counts.{count}
use mumble_web_demo.BufferPool.{held}
use mumble_web_demo.BufferPool.Ownership.{IsValid}
use mumble_web_demo.Buffer.Write as Buffer
use mumble_web_demo.Ocb.{Aes, IsAes}
use mumble_web_demo.UdpSsl.{Conn, write, recv_cb}
use mumble_web_demo.UdpSsl.Laws.{Paired, write_recv}
use mumble_web_demo.Audio.Voice.{voice_data, send_lem}
use mumble_web_demo.Audio.{Audio, Network, datagram, encoder_cb, send, udp_cb}
use mumble_web_demo.Audio.Voice.Heard.{
  voice_packet, voice_bytes, relayed, voice-bytes, relayed-bytes, framed_bound, IsHeard,
  udp_cb_hears,
}

-- A connection that is ready to send to another, which reads into the buffer `base`.
pub record Linked (sender receiver : Conn) (base : ℕ) : Type 0 where
  pub paired : Paired sender.cipher receiver.cipher
  pub sender_pool : IsValid sender.buffer_pool
  pub free : sender.buffer_pool.in_use < sender.buffer_pool.buffer_count
  pub receiver_pool : IsValid receiver.buffer_pool
  pub reads : 1 ≤ count base (held receiver.buffer_pool)
  pub called : receiver.cb ≡ true

voice_length :
    (source sequence target : ℕ) (payload : List ℕ)
    → length payload ≤ 992
    → (length (voice_bytes target sequence payload) ≤ 1020)
      × (length (relayed source (voice_bytes target sequence payload)) ≤ 1020)
voice_length source sequence target payload h =
    let body : List ℕ = encoding (length payload) ++ payload in
    let inner : length (encoding sequence ++ body) ≤ 18 + length payload = omega (
      arith,
      framed_bound payload,
      length-append (encoding sequence) body,
      length-encoding sequence,
      encode_size_bounds sequence,
    ) in
    (
      omega (arith, inner),
      omega (
        arith,
        inner,
        length-append (encoding source) (encoding sequence ++ body),
        length-encoding source,
        encode_size_bounds source,
      ),
    )

-- Samples that fill the framing buffer of a client up, and the bytes to which libopus compresses the
-- frame, which fit behind their length and into a datagram.
pub record IsSpoken {lib : LibOpus} {Address : Type 0} (malloc : Blocks) (audio : Audio lib Address)
    (pcm payload : List ℕ) : Type 0 where
  pub there : audio.encoder.cb ≡ true
  pub valid : Buffer.IsValid audio.encoder.opus.buffer
  pub full :
      audio.encoder.opus.buffer.buf_used + length pcm ≡ audio.encoder.opus.buffer.buf_allocated
  pub compresses : voice_data malloc audio pcm ≡ payload
  pub bytes : All IsByte payload
  pub little : length payload ≤ 992
  pub fits : encode_size (length payload) + length payload < length audio.encoder.opus.framed_out

-- While the probe is connected, a packet goes out as a datagram.
encoder_cb-datagram :
    (aes : Aes) (malloc : Blocks) (network : Network) (connected : Bool) (conn conn' : Conn)
    (buf packet : List ℕ)
    → connected ≡ true
    → write aes network.try_send conn buf ≡ done (conn', packet)
    → encoder_cb aes malloc network connected (conn, []) buf ≡ done (conn', datagram packet ∷ [])
unfolding encoder_cb
encoder_cb-datagram aes malloc network connected conn conn' buf packet e wrote = rw (e, wrote) refl

module _ {lib : LibOpus} {Address : Type 0} (aes : Aes) (laws : IsAes aes) (opus : IsOpus lib)
    (malloc : Blocks) (network : Network)
    (sends : (packet : List ℕ) → ltb_ℤ (pos 0) (network.try_send packet) ≡ true) where
  -- libuv sends what it is given. A client whose probe is connected speaks one frame; its connection is
  -- linked to the server's, and another of the server's is linked to that of a client that has heard
  -- no later packet. Then `mumble_audio_send` sends one datagram; what the server opens of it, passes on with the source
  -- and seals, the other client's `recv_cb` opens and its `udp_cb` hands to the callback: the samples are those to
  -- which libopus decodes the very bytes to which it compressed the frame, with the source, the sequence number and
  -- the target's low five bits. The ends on both sides are paired again.
  pub udp_cb-send :
      (calls_left fuel unset source target base base' : ℕ) (position : List ℕ)
      (from to : Audio lib Address) (up down : Conn) (pcm payload block : List ℕ)
      (opus' : lib.Decoder) (heard : Heard)
      → length position ≡ 12
      → IsSpoken malloc from pcm payload
      → malloc (encoded_size (length (encoding (length payload) ++ payload))) ≡ some block
      → length block ≡ encoded_size (length (encoding (length payload) ++ payload))
      → from.pinger.connected ≡ true
      → Linked from.udp up base
      → Linked down to.udp base'
      → to.cb ≡ true
      → to.decoder.cb ≡ true
      → IsHeard lib malloc to.decoder source from.encoder.sequence payload opus' heard
      → (from' : Audio lib Address) × (to' : Audio lib Address) × (up' : Conn) × (down' : Conn)
        × (first : List ℕ) × (second : List ℕ) × (opened : List ℕ) × (inside : List ℕ)
        × (conn : Conn) × (send aes malloc network (suc calls_left) position from target pcm
            ≡ done (from', datagram first ∷ []))
        × (recv_cb aes up base first ≡ done (up', some opened))
        × (write aes network.try_send down (relayed source opened) ≡ done (down', second))
        × (recv_cb aes to.udp base' second ≡ done (conn, some inside))
        × (udp_cb malloc (suc fuel) unset (record to { udp = conn }) inside
            ≡ done (to', some (voice_packet source from.encoder.sequence target heard), []))
        × Paired from'.udp.cipher up'.cipher
        × Paired down'.cipher to'.udp.cipher
  udp_cb-send calls_left fuel unset source target base base' position from to up down pcm payload
        block opus' heard twelve said e whole connected here further to_cb decoder_cb h =
      let sequence = from.encoder.sequence in
      let body : List ℕ = encoding (length payload) ++ payload in
      let packed =
        encoder_codec_packet_lem malloc (record { codec = 4; target = target; position = position })
          sequence body block e whole twelve (omega (arith, framed_bound payload)) in
      let (encoder', sent, _, _) =
        send_lem aes malloc network calls_left position from target pcm payload
          (voice_bytes target sequence payload) opus said.there said.valid said.full said.compresses
          h.some_data said.fits packed in
      let short = voice_length source sequence target payload said.little in
      let (udp', first, up', wrote, received, again, _) =
        write_recv aes laws network.try_send from.udp up base (voice_bytes target sequence payload)
          sends here.paired here.sender_pool here.free here.receiver_pool here.reads here.called
          (voice-bytes target sequence payload said.bytes) short.0 in
      let over_udp =
        encoder_cb-datagram aes malloc network from.pinger.connected from.udp udp'
          (voice_bytes target sequence payload) first connected wrote in
      let (down', second, conn, wrote', received', again', _) =
        write_recv aes laws network.try_send down to.udp base'
          (relayed source (voice_bytes target sequence payload)) sends further.paired
          further.sender_pool further.free further.receiver_pool further.reads further.called
          (relayed-bytes source target sequence payload said.bytes) short.1 in
      let heard_run =
        udp_cb_hears malloc fuel unset source sequence target payload block
          (record to { udp = conn }) opus' heard e whole h to_cb decoder_cb in
      (
        record from { udp = udp'; encoder = encoder' },
        record to {
          udp = conn;
          decoder = record to.decoder {
            sequence = sequence;
            opus = opus';
            packets = u32 (to.decoder.packets + 1);
          };
        },
        up',
        down',
        first,
        second,
        voice_bytes target sequence payload,
        relayed source (voice_bytes target sequence payload),
        conn,
        sent ∙ (rw over_udp refl),
        received,
        wrote',
        received',
        heard_run,
        again,
        again',
      )
