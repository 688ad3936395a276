-- ===== src/Frame.antt =====
-- Control frames: the message types of lib/mumble/common.h and the struct that
-- lib/mumble/frame_encoder.c and lib/mumble/frame_decoder.c share in all but the name.
pub mod Types
pub mod Encoder
pub mod Decoder
pub mod Stream
mod Tests
use mumble_web_demo.Prelude.{
  ℕ, ◌*◌, ◌^◌, ◌≤◌, ◌<◌, take, ◌≡◌, ◌↔◌, Bool, true, Option, none, some, List, [], ◌∷◌, ◌++◌,
  length, ltb, if◌then◌else◌, be16, be32, Outcome, done, abort, ◌>>=◌, ◌>>◌, check, read, arith,
}

-- The descriptors that both files list, in their order.
pub data Descriptor : Type 0 where
  version udptunnel authenticate ping reject server_sync channel_remove : Descriptor
  channel_state user_remove user_state ban_list text_message permission_denied : Descriptor
  acl query_users crypt_setup context_action_modify context_action user_list : Descriptor
  voice_target permission_query codec_version user_stats request_blob : Descriptor
  server_config suggest_config : Descriptor

-- The table of `descriptor`; the index is the type number of common.h.
abbrev pub descriptors : List Descriptor
descriptors =
    version ∷ udptunnel ∷ authenticate ∷ ping ∷ reject ∷ server_sync ∷ channel_remove
    ∷ channel_state ∷ user_remove ∷ user_state ∷ ban_list ∷ text_message ∷ permission_denied ∷ acl
    ∷ query_users ∷ crypt_setup ∷ context_action_modify ∷ context_action ∷ user_list ∷ voice_target
    ∷ permission_query ∷ codec_version ∷ user_stats ∷ request_blob ∷ server_config ∷ suggest_config
    ∷ []

-- MUMBLE_TYPE_UDPTUNNEL, MUMBLE_TYPE_CRYPT_SETUP and MUMBLE_TYPE_COUNT
abbrev pub type_udptunnel : ℕ
type_udptunnel = 1

abbrev pub type_crypt_setup : ℕ
type_crypt_setup = 15

abbrev pub type_count : ℕ
type_count = 26

-- `sizeof(descriptors)`: the struct of protobuf-c 1.1.1 takes 120 bytes where pointers take 8.
abbrev pub sizeof_descriptors : ℕ
sizeof_descriptors = type_count * 120

-- `descriptor`: the assertion compares the index with a size in bytes.
unfoldable pub descriptor : ℕ → Outcome Descriptor
descriptor type = check (ltb type sizeof_descriptors) >> read descriptors type

-- What the two files use of protobuf-c and of the code that it generates from Mumble.proto, and
-- `strcmp`.
pub record Protobuf : Type 1 where
  pub Message : Type 0
  pub Name : Type 0
  pub strcmp_eq : Name → Name → Bool
  pub name : Descriptor → Name
  pub mumble_proto : Name
  pub message_name : Message → Name
  pub message_package : Message → Name
  pub packed_size : Message → ℕ
  pub pack : Message → List ℕ
  pub unpack : Descriptor → List ℕ → Option Message

-- What the code relies on: strings are compared, the generated names differ, the announced size is
-- the size written, and what is written can be read under the message's own descriptor.
pub record IsProtobuf (pb : Protobuf) : Type 0 where
  pub strcmp_iff : (a b : pb.Name) → (pb.strcmp_eq a b ≡ true) ↔ (a ≡ b)
  pub names_differ : (d e : Descriptor) → pb.name d ≡ pb.name e → d ≡ e
  pub length-pack : (m : pb.Message) → length (pb.pack m) ≡ pb.packed_size m
  pub unpack-pack :
      (d : Descriptor) (m : pb.Message)
      → pb.message_name m ≡ pb.name d
      → pb.unpack d (pb.pack m) ≡ some m

-- `mumble_frame_encoder_t` and `mumble_frame_decoder_t`. A NULL buffer is an empty block.
pub record FrameBuffer : Type 0 where
  pub buffer : List ℕ
  pub buffer_allocated : ℕ
  pub buffer_size : ℕ

-- MUMBLE_FRAME_MAX_SIZE
abbrev pub max_size : ℕ
max_size = 2 ^ 20

-- `mumble_frame_init` and `mumble_frame_encoder_init`, given what `malloc` returns.
unfoldable pub init : Option (List ℕ) → Outcome FrameBuffer
init none = abort
init (some block) = done (record { buffer = block; buffer_allocated = max_size; buffer_size = 0 })

-- `mumble_frame_encoder_free`
unfoldable pub free : FrameBuffer → FrameBuffer
free ctx = elim ctx.buffer [
  | [] ↦ ctx
  | _ ∷ _ ↦ record { buffer = []; buffer_allocated = 0; buffer_size = 0 }
]

-- A frame as it goes over the wire.
abbrev pub frame : ℕ → List ℕ → List ℕ
frame type payload = be16 type ++ (be32 (length payload) ++ payload)

-- The block holds what is announced, less than an `int` can count.
pub record IsValid (ctx : FrameBuffer) : Type 0 where
  pub whole : length ctx.buffer ≡ ctx.buffer_allocated
  pub fits : ctx.buffer_allocated < 2 ^ 31
  pub within : ctx.buffer_size ≤ ctx.buffer_allocated

-- A valid buffer with other bytes in its block, and fewer of them in use than there are.
pub same_block :
    (ctx : FrameBuffer) (block : List ℕ) (n : ℕ)
    → IsValid ctx
    → length block ≡ length ctx.buffer
    → n ≤ ctx.buffer_allocated
    → IsValid (record ctx { buffer = block; buffer_size = n })
same_block ctx block n v e h = record {
  whole = omega (arith, e, v.whole);
  fits = v.fits;
  within = h;
}

-- The bytes that the struct holds.
abbrev pub contents : FrameBuffer → List ℕ
contents ctx = take ctx.buffer_size ctx.buffer
