-- ===== src/Audio/Voice/Tests.antt =====
-- A run of voice from one client over a server to another.
use mumble_web_demo.Prelude.{
  ℕ, suc, ◌≡◌, refl, true, false, some, List, [], ◌∷◌, replicate, done, arith,
}
use mumble_web_demo.Prelude.Int.{pos}
use mumble_web_demo.BufferPool.{Pool}
use mumble_web_demo.BufferPool.Ownership.{IsValid}
use mumble_web_demo.Varint.{encode_size}
use mumble_web_demo.Varint.Encoding.{encoding}
use mumble_web_demo.Ocb.{Aes, IsAes}
use mumble_web_demo.Opus.{Heard, decode_payload}
use mumble_web_demo.UdpSsl.{Conn, write, recv_cb}
use mumble_web_demo.UdpSsl.Laws.{Paired}
use mumble_web_demo.Audio.{Audio, Network, datagram, send, udp_cb}
use mumble_web_demo.Audio.Voice.Heard.{voice_packet, relayed, IsHeard}
use mumble_web_demo.Audio.Voice.Relay.{Linked, IsSpoken, udp_cb-send}
use mumble_web_demo.Fixtures.{toy_opus, toy_opus-IsOpus, blocks, sample_audio}

-- A cipher that leaves blocks as they are.
abbrev plain_aes : Aes
plain_aes = record { encrypt = λ key b. b; decrypt = λ key b. b }

plain_laws : IsAes plain_aes
plain_laws = record { encrypt-IsBlock = λ key b h. h; decrypt-encrypt = λ key b h. refl }

abbrev all_sent : Network
all_sent = record { try_send = λ bytes. pos 1; ssl_write = λ bytes. pos 2 }

abbrev one_held : Pool
one_held = record { buffers = 10 ∷ 20 ∷ []; in_use = 1; size = 1024; buffer_count = 2 }

one_held-IsValid : IsValid one_held
one_held-IsValid = record { full = refl; within = omega arith; distinct = λ a. ground arith }

-- A connection of the server that counts from the first block, and expects the second.
abbrev server : List ℕ → List ℕ → Conn
server enc_iv dec_iv = record {
  cipher = record {
    key = replicate 16 1;
    enc_iv = enc_iv;
    dec_iv = dec_iv;
    ivlen = 16;
    taglen = 96;
  };
  cb = true;
  buffer_pool = one_held;
}

abbrev speaker : Audio toy_opus ℕ
speaker = record sample_audio {
  udp = record sample_audio.udp { buffer_pool = one_held };
  encoder = record sample_audio.encoder { sequence = 200 };
  pinger = record sample_audio.pinger { connected = true };
}

abbrev listener : Audio toy_opus ℕ
listener = record sample_audio { udp = record sample_audio.udp { buffer_pool = one_held } }

up-Linked : Linked speaker.udp (server (replicate 16 9) (replicate 16 2)) 10
up-Linked = record {
  paired = record {
    same_key = refl;
    same_iv = refl;
    same_len = refl;
    iv = record { size = refl; bytes = ground arith };
  };
  sender_pool = one_held-IsValid;
  free = omega arith;
  receiver_pool = one_held-IsValid;
  reads = omega arith;
  called = refl;
}

down-Linked : Linked (server (replicate 16 3) (replicate 16 8)) listener.udp 10
down-Linked = record {
  paired = record {
    same_key = refl;
    same_iv = refl;
    same_len = refl;
    iv = record { size = refl; bytes = ground arith };
  };
  sender_pool = one_held-IsValid;
  free = omega arith;
  receiver_pool = one_held-IsValid;
  reads = omega arith;
  called = refl;
}

abbrev samples : List ℕ
samples = 5 ∷ 6 ∷ 7 ∷ 8 ∷ []

abbrev spoken : List ℕ
spoken = 5 ∷ 6 ∷ 7 ∷ []

samples-IsSpoken : IsSpoken blocks speaker samples spoken
unfolding encode_size
samples-IsSpoken = record {
  there = refl;
  valid = record { whole = refl; fits = omega arith; room = omega arith };
  full = refl;
  compresses = refl;
  bytes = omega arith;
  little = omega arith;
  fits = omega arith;
}

abbrev played : Heard
played = record { ret = 12; pcm = replicate 24 9; termination = false }

spoken-IsHeard : IsHeard toy_opus blocks listener.decoder 300 200 spoken tt played
unfolding encode_size decode_payload
spoken-IsHeard = record {
  some_data = omega arith;
  little = omega arith;
  source_small = omega arith;
  sequence_small = omega arith;
  in_order = omega arith;
  long = omega arith;
  decodes = refl;
  many = omega arith;
}

udp_cb-send_example :
    let lib = toy_opus in
    let Address : Type 0 = ℕ in
    let aes = plain_aes in
    let malloc = blocks in
    let network = all_sent in
    let calls_left : ℕ = 0 in
    let fuel : ℕ = 0 in
    let unset : ℕ = 9 in
    let source : ℕ = 300 in
    let target : ℕ = 33 in
    let base : ℕ = 10 in
    let base' : ℕ = 10 in
    let position : List ℕ = replicate 12 0 in
    let from = speaker in
    let to = listener in
    let up = server (replicate 16 9) (replicate 16 2) in
    let down = server (replicate 16 3) (replicate 16 8) in
    let pcm = samples in
    let heard = played in
    (from' : Audio lib Address) × (to' : Audio lib Address) × (up' : Conn) × (down' : Conn)
    × (first : List ℕ) × (second : List ℕ) × (opened : List ℕ) × (inside : List ℕ) × (conn : Conn)
    × (send aes malloc network (suc calls_left) position from target pcm
        ≡ done (from', datagram first ∷ []))
    × (recv_cb aes up base first ≡ done (up', some opened))
    × (write aes network.try_send down (relayed source opened) ≡ done (down', second))
    × (recv_cb aes to.udp base' second ≡ done (conn, some inside))
    × (udp_cb malloc (suc fuel) unset (record to { udp = conn }) inside
        ≡ done (to', some (voice_packet source from.encoder.sequence target heard), []))
    × Paired from'.udp.cipher up'.cipher
    × Paired down'.cipher to'.udp.cipher
unfolding encoding
udp_cb-send_example =
    udp_cb-send plain_aes plain_laws toy_opus-IsOpus blocks all_sent (λ packet. refl) 0 0 9 300 33
      10 10 (replicate 12 0) speaker listener (server (replicate 16 9) (replicate 16 2))
      (server (replicate 16 3) (replicate 16 8)) samples spoken (replicate 41 0) tt played refl
      samples-IsSpoken refl refl refl up-Linked down-Linked refl refl spoken-IsHeard
