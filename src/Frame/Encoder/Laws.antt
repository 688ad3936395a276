-- ===== src/Frame/Encoder/Laws.antt =====
-- `mumble_frame_encode` on every message that is one of the protocol's.
use mumble_web_demo.Prelude.{
  ℕ, zero, suc, ◌+◌, ◌^◌, ◌≤◌, ◌<◌, ◌≡◌, ◌≢◌, ◌⊎◌, inl, inr, refl, sym, ap, ◌∙◌, true, false, some,
  List, ◌++◌, get_elem?, get_or, get_elem?-eq-get_or, length, take, be16, be32, u32, u64, done,
  abort, Bool-cases, arith, dec_lt,
}
use mumble_web_demo.Prelude.Memory.{write_at, overwrite, length-overwrite, take-overwrite}
use mumble_web_demo.Frame.{
  Descriptor, version, Protobuf, IsProtobuf, FrameBuffer, descriptors, descriptor, type_count,
  frame, IsValid, contents,
}
use mumble_web_demo.Frame.Types.{
  type_number, get_elem?-type_number, type_number-get_elem?, type_number-lt, descriptor-type_number,
}
use mumble_web_demo.Frame.Encoder.{type_loop, get_message_type, encode}

-- The block behind the three stores of `mumble_frame_encode`.
module _ (block : List ℕ) (type size : ℕ) (payload : List ℕ)
    (room : 6 + length payload ≤ length block) where
  abbrev block1 : List ℕ
  block1 = overwrite block 0 (be16 type)

  abbrev block2 : List ℕ
  block2 = overwrite block1 2 (be32 size)

  abbrev block3 : List ℕ
  block3 = overwrite block2 6 payload

  length-block1 : length block1 ≡ length block
  length-block1 = length-overwrite block 0 (be16 type) (omega arith)

  length-block2 : length block2 ≡ length block
  length-block2 =
      length-overwrite block1 2 (be32 size) (omega (arith, length-block1)) ∙ length-block1

  length-block3 : length block3 ≡ length block
  length-block3 = length-overwrite block2 6 payload (omega (arith, length-block2)) ∙ length-block2

  stored :
      (write_at block 0 (be16 type) ≡ done block1)
      × (write_at block1 2 (be32 size) ≡ done block2)
      × (write_at block2 6 payload ≡ done block3)
  stored = (ground arith, ground (arith, length-block1), ground (arith, length-block2))

  take-block3 : take (6 + length payload) block3 ≡ be16 type ++ (be32 size ++ payload)
  take-block3 =
      take-overwrite block2 6 (6 + length payload) payload refl (omega (arith, length-block2))
      ∙ ap (λ t. t ++ payload)
          (take-overwrite block1 2 6 (be32 size) refl (omega (arith, length-block1))
            ∙ ap (λ t. t ++ be32 size) (take-overwrite block 0 2 (be16 type) refl (omega arith)))

module _ (pb : Protobuf) (laws : IsProtobuf pb) where
  open pb use {
    Message, strcmp_eq, name, mumble_proto, message_name, message_package, packed_size, pack,
  }

  strcmp_self : (a b : pb.Name) → a ≡ b → strcmp_eq a b ≡ true
  strcmp_self a b e = (laws.strcmp_iff a b).1 e

  -- The loop stops at the number of the message's own descriptor.
  type_loop_finds :
      (left i : ℕ) (m : Message) (d : Descriptor)
      → message_name m ≡ name d
      → i ≤ type_number d
      → i + left ≡ type_count
      → type_loop pb left i m ≡ done (some (type_number d))
  unfolding type_loop
  type_loop_finds zero i m d e le sum = absurd (omega (arith, type_number-lt d))
  type_loop_finds (suc left) i m d e le sum =
      elim (Bool-cases (strcmp_eq (message_name m) (name at))) [
        | inl same ↦
            let is_d : d ≡ at =
              laws.names_differ d at
                (sym e ∙ (laws.strcmp_iff (message_name m) (name at)).0 same) in
            ground (arith, found, same, number, ap type_number is_d)
        | inr other ↦ ground (
          arith,
          found,
          other,
          type_loop_finds left (i + 1) m d e (omega (arith, later other)) (omega arith),
        )
      ]
    where
      at : Descriptor
      at = get_or descriptors i version

      number : type_number at ≡ i
      number = type_number-get_elem? i at (get_elem?-eq-get_or descriptors i version (omega arith))

      found : descriptor i ≡ done at
      found = ap descriptor (sym number) ∙ descriptor-type_number at

      later : strcmp_eq (message_name m) (name at) ≡ false → i ≢ type_number d
      later other is_i =
          let here : get_elem? descriptors i ≡ some d = rw is_i (get_elem?-type_number d) in
          let is_d : at ≡ d = cc (here, get_elem?-eq-get_or descriptors i version (omega arith)) in
          cc (other, strcmp_self (message_name m) (name at) (e ∙ ap name (sym is_d)))

  get_message_type_lem :
      (m : Message) (d : Descriptor)
      → message_package m ≡ mumble_proto
      → message_name m ≡ name d
      → get_message_type pb m ≡ done (some (type_number d))
  unfolding get_message_type
  get_message_type_lem m d p e = ground (
    arith,
    strcmp_self (message_package m) mumble_proto p,
    type_loop_finds 26 0 m d e (omega arith) (omega arith),
  )

  -- On a valid encoder, a message of the protocol, whose packed size does not wrap, is encoded if
  -- it fits the buffer: the struct then holds exactly its frame, with the type's number, the size
  -- and the packed bytes, and stays valid. If it does not fit, the call aborts.
  pub encode_cases :
      (ctx : FrameBuffer) (m : Message) (d : Descriptor)
      → IsValid ctx
      → message_package m ≡ mumble_proto
      → message_name m ≡ name d
      → 6 + packed_size m < 2 ^ 64
      → ((ctx.buffer_allocated < 6 + packed_size m) × (encode pb ctx m ≡ abort))
        ⊎ ((6 + packed_size m ≤ ctx.buffer_allocated)
            × ((ctx' : FrameBuffer) × (encode pb ctx m ≡ done ctx')
                × (contents ctx' ≡ frame (type_number d) (pack m))
                × IsValid ctx'))
  unfolding encode
  encode_cases ctx m d v p e small = elim (dec_lt ctx.buffer_allocated (6 + packed_size m)) [
    | yes over ↦ inl (over, ground (arith, get_message_type_lem m d p e))
    | no room ↦
        let fit : 6 + length (pack m) ≤ length ctx.buffer =
          omega (arith, laws.length-pack m, v.whole) in
        let out = block3 ctx.buffer (type_number d) (packed_size m) (pack m) fit in
        let bytes = stored ctx.buffer (type_number d) (packed_size m) (pack m) fit in
        let total : u32 (u64 (6 + packed_size m)) ≡ 6 + length (pack m) =
          omega (arith, laws.length-pack m, v.fits) in
        inr (
          omega arith,
          (
            record ctx { buffer = out; buffer_size = u32 (u64 (6 + packed_size m)) },
            ground (arith, get_message_type_lem m d p e, bytes),
            ap (λ (t : ℕ). take t out) total
                ∙ take-block3 ctx.buffer (type_number d) (packed_size m) (pack m) fit
                ∙ ap (λ (t : ℕ). be16 (type_number d) ++ (be32 t ++ pack m))
                    (sym (laws.length-pack m)),
            record {
              whole =
                  length-block3 ctx.buffer (type_number d) (packed_size m) (pack m) fit ∙ v.whole;
              fits = v.fits;
              within = omega (arith, v.fits);
            },
          ),
        )
  ]
