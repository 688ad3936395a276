-- ===== src/Fixtures.antt =====
-- Concrete libraries for the runs: a protobuf of pairs of a type and bytes, blocks of zeros, an Opus that keeps three bytes of
-- a frame, and a client over them.
use mumble_web_demo.Prelude.{
  ℕ, suc, ◌+◌, ◌*◌, ◌%◌, ◌≡◌, refl, sym, ◌∙◌, ap, true, false, Option, none, some, List, [], ◌∷◌,
  ◌++◌, ◌==◌, if◌then◌else◌, length, min, take, replicate, get_elem?, arith, length-take,
  length-replicate,
}
use mumble_web_demo.Prelude.Int.{pos, pos_part}
use mumble_web_demo.BufferPool.{Pool}
use mumble_web_demo.Frame.{
  Descriptor, version, authenticate, ping, Protobuf, IsProtobuf, FrameBuffer, descriptors,
}
use mumble_web_demo.Frame.Types.{type_number, get_elem?-type_number}
use mumble_web_demo.Opus.{LibOpus, IsOpus, Blocks, Codec}
use mumble_web_demo.AudioDecoder.{AudioDecoder}
use mumble_web_demo.Audio.{Audio}
use mumble_web_demo.Client.{Client, Messages}

abbrev pub sample_pb : Protobuf
sample_pb = record {
  Message = Descriptor × List ℕ;
  Name = ℕ;
  strcmp_eq = λ a b. a == b;
  name = λ d. suc (type_number d);
  mumble_proto = 0;
  message_name = λ m. suc (type_number m.0);
  message_package = λ m. 0;
  packed_size = λ m. length m.1;
  pack = λ m. m.1;
  unpack = λ d bytes. some (d, bytes);
}

pub same_number : (d e : Descriptor) → suc (type_number d) ≡ suc (type_number e) → d ≡ e
same_number d e h =
    let n : type_number d ≡ type_number e = omega (arith, h) in
    cc (get_elem?-type_number d, get_elem?-type_number e, ap (get_elem? descriptors) n)

pub sample_laws : IsProtobuf sample_pb
sample_laws = record {
  strcmp_iff = λ a b. ground arith;
  names_differ = same_number;
  length-pack = λ m. refl;
  unpack-pack = λ d m e. cc (same_number m.0 d e);
}

-- Each payload decodes to four samples for a byte.
abbrev pub toy_opus : LibOpus
toy_opus = record {
  Encoder = Unit {0};
  Decoder = Unit {0};
  application_voip = 2048;
  encoder_create = λ rate channels app. (true, some tt);
  decoder_create = λ rate channels. (true, some tt);
  encode =
      λ e pcm samples room. (tt, pos (length (take room (take 3 pcm))), take room (take 3 pcm));
  nb_samples = λ d bytes. pos (4 * length bytes);
  decode = λ d bytes room. (
    tt,
    pos (min (4 * length bytes) (pos_part room)),
    replicate (2 * min (4 * length bytes) (pos_part room)) 9,
  );
}

pub toy_opus-IsOpus : IsOpus toy_opus
toy_opus-IsOpus = record {
  data_length = λ e pcm samples room. refl;
  data_fits = λ e pcm samples room. omega (arith, length-take room (take 3 pcm));
  pcm_length = λ d bytes room. length-replicate (2 * min (4 * length bytes) (pos_part room)) 9;
  pcm_room = λ d bytes room. omega arith;
}

abbrev pub blocks : Blocks
blocks size = some (replicate size 0)

pub blocks-sized : (size : ℕ) (block : List ℕ) → blocks size ≡ some block → length block ≡ size
blocks-sized size block h =
    let e : replicate size 0 ≡ block = cc h in sym (ap length e) ∙ length-replicate size 0

abbrev pub sample_codec : Codec toy_opus
sample_codec = record {
  encoder = tt;
  buffer = record { buf = replicate 4 0; buf_allocated = 4; buf_used = 0 };
  buffer_ms = 20;
  codec_out = replicate 8 0;
  framed_out = replicate 8 0;
}

abbrev pub sample_decoder : AudioDecoder toy_opus
sample_decoder = record { cb = true; opus = tt; sequence = 0; packets = 0; dropped_sequence = 0 }

abbrev pub sample_pool : Pool
sample_pool = record { buffers = 10 ∷ 20 ∷ []; in_use = 0; size = 1024; buffer_count = 2 }

abbrev pub sample_audio : Audio toy_opus ℕ
sample_audio = record {
  udp = record {
    cipher = record {
      key = replicate 16 1;
      enc_iv = replicate 16 2;
      dec_iv = replicate 16 3;
      ivlen = 16;
      taglen = 96;
    };
    cb = true;
    buffer_pool = sample_pool;
  };
  cb = true;
  decoder = sample_decoder;
  encoder = record { cb = true; opus = sample_codec; sequence = 0 };
  addr = none;
  pinger = record {
    socket = tt;
    sockaddr = none;
    connected = false;
    ping_period = pos 5000;
    timeout = pos 1000;
    timestamp = 0;
    waiting = false;
    ping_buf = 0x20 ∷ replicate 7 0;
  };
}

-- A decoder or an encoder of frames with 40 bytes of room behind those that it holds.
abbrev pub holding : List ℕ → FrameBuffer
holding bytes = record {
  buffer = bytes ++ replicate 40 0;
  buffer_allocated = length bytes + 40;
  buffer_size = length bytes;
}

abbrev pub sample_client : List ℕ → Client toy_opus ℕ
sample_client bytes = record {
  hostname = 104 ∷ [];
  port = 64738;
  nick = 110 ∷ 105 ∷ [];
  socket = sample_pool;
  audio = sample_audio;
  on_message = true;
  on_audio = true;
  decoder = holding bytes;
  encoder = holding [];
}

abbrev pub sample_messages : Messages sample_pb
sample_messages = record {
  crypt_setup = λ m. record {
    has_key = true;
    has_client_nonce = true;
    has_server_nonce = true;
    key = replicate 16 4;
    client_nonce = replicate 16 5;
    server_nonce = replicate 16 6;
  };
  version = λ m. (version, if m.has_version then m.version % 256 ∷ [] else []);
  authenticate = λ m. (authenticate, name_bytes m.username ++ (if m.has_opus then 1 ∷ [] else []));
  ping = λ m. (ping, if m.has_timestamp then m.timestamp % 256 ∷ [] else []);
}
  where
    name_bytes : Option (List ℕ) → List ℕ
    name_bytes none = []
    name_bytes (some bytes) = bytes
