-- ===== src/Opus/Laws.antt =====
-- What opus.c frames is what it reads back, and the memory of a decoded frame.
use mumble_web_demo.Prelude.{
  ℕ, zero, suc, ◌+◌, ◌/◌, ◌^◌, ◌≤◌, ◌<◌, ◌≡◌, inl, inr, refl, sym, Bool, false, some, List, ◌++◌,
  ◌*◌, ◌⊎◌, drop, abort, lt→ltb, ◌==◌, length, length-append, Outcome, done, ◌>>=◌, fault, check,
  arith, dec_lt,
}
use mumble_web_demo.Prelude.Int.{ℤ, pos, pos_part, ◌-ℤ◌}
use mumble_web_demo.Prelude.Memory.{read_at_back}
use mumble_web_demo.Prelude.Signed.{of_int, positive_lem, positive-abort, remaining}
use mumble_web_demo.Bits.{bit_and_bit}
use mumble_web_demo.Buffer.{Call}
use mumble_web_demo.Varint
use mumble_web_demo.Varint.{encode_size}
use mumble_web_demo.Varint.Encoding.{encoding, length-encoding, encode_size_bounds}
use mumble_web_demo.Varint.RoundTrip.{decode-encoding}
use mumble_web_demo.Varint.Laws.{received-eq_iff}
use mumble_web_demo.Opus.{
  LibOpus, IsOpus, Codec, Blocks, split_length, decode_payload, decode, on_encoder_frame,
}
use mumble_web_demo.Opus.Frames.{framed, framed_codec, on_encoder_frame_fits}

split_length_lem : (n : ℕ) → n < 0x2000 → split_length n ≡ (n, false)
unfolding split_length
split_length_lem n h = ground (arith, bit_and_bit 13 n)

-- One call of `varint_decode` on a length that fits 28 bits.
pub length_read :
    (fuel n varlen : ℕ) (rest : List ℕ) (len : ℕ)
    → n < 2 ^ 28
    → encode_size n ≤ len
    → Varint.decode (suc fuel) (encoding n ++ rest) (pos len) varlen
      ≡ done (record { ret = pos (encode_size n); result = n })
length_read fuel n varlen rest zero h covers = absurd (omega (arith, encode_size_bounds n))
length_read fuel n varlen rest (suc m) h covers = rw (
  decode-encoding fuel n m varlen rest covers (omega arith),
  (received-eq_iff n (omega arith)).1 (inl (omega arith)),
)

rest_length : (n m : ℕ) → check (n == of_int (pos (m + n) -ℤ pos m)) ≡ done tt
rest_length n m = rw (remaining m n (m + n) refl) (ground arith)

module _ (lib : LibOpus) (malloc : Blocks) where
  -- A payload behind its length is the payload that `opus_decode` is given.
  pub decode_framed :
      (fuel varlen : ℕ) (codec : lib.Decoder) (payload : List ℕ)
      → 0 < length payload
      → length payload < 0x2000
      → decode lib malloc
          (suc fuel)
          varlen
          codec
          (encoding (length payload) ++ payload)
          (pos (encode_size (length payload) + length payload))
        ≡ decode_payload lib malloc codec payload false
  unfolding decode
  decode_framed fuel varlen codec payload ne small =
      let n = length payload in
      let m = encode_size n in
      rw
        (
          length_read fuel n varlen payload (m + n) (omega arith) (omega arith),
          split_length_lem n small,
          positive_lem (pos m) (omega (arith, encode_size_bounds n)),
        )
        (rw (
          lt→ltb 0 n ne,
          lt→ltb n (m + n) (omega (arith, encode_size_bounds n)),
          rest_length n m,
          read_at_back (encoding n) payload m (sym (length-encoding n)),
        ))

  -- A payload announces `n` samples, and there is a block for them; `opus_decode` stores what it counts, and
  -- keeps to its room. Then the decoding fails its assertion if
  -- `opus_decode` returns no sample; it stores the samples at the start of the block if there are at most `n`;
  -- and if there are more, it writes past the end of the block. The room that `opus_decode` is told of keeps it
  -- only from more than twice `n`.
  pub decode_payload_cases :
      (codec : lib.Decoder) (payload block : List ℕ) (termination : Bool) (n : ℕ)
      → IsOpus lib
      → lib.nb_samples codec payload ≡ pos n
      → malloc (2 * n) ≡ some block
      → length block ≡ 2 * n
      → (decoder' : lib.Decoder) × (ret : ℤ) × (samples : List ℕ) × (lib.decode codec payload
            (pos (2 * n))
          ≡ (decoder', ret, samples))
        × (((pos_part ret ≡ 0) × (decode_payload lib malloc codec payload termination ≡ abort))
            ⊎ ((0 < pos_part ret)
                × (pos_part ret ≤ n)
                × (decode_payload lib malloc codec payload termination
                    ≡ done (
                      decoder',
                      record {
                        ret = pos_part ret;
                        pcm = samples ++ drop (2 * pos_part ret) block;
                        termination = termination;
                      },
                    )))
            ⊎ ((n < pos_part ret)
                × (pos_part ret ≤ 2 * n)
                × (decode_payload lib malloc codec payload termination ≡ fault)))
  unfolding decode_payload
  decode_payload_cases codec payload block termination n opus announced e whole =
      let r = lib.decode codec payload (pos (2 * n)) in
      let size = opus.pcm_length codec payload (pos (2 * n)) in
      let room = opus.pcm_room codec payload (pos (2 * n)) in
      (
        r.0,
        r.1,
        r.2,
        refl,
        elim (dec_lt 0 (pos_part r.1)) [
          | no h ↦ inl (
            omega (arith, h),
            rw (announced, e, positive-abort r.1 (omega (arith, h))) (ground (arith, h, size)),
          )
          | yes h ↦ elim (dec_lt n (pos_part r.1)) [
            | no little ↦ inr (
                inl (
                  h,
                  omega (arith, little),
                  rw (announced, e, positive_lem r.1 h) (ground (arith, size, whole, little)),
                ))
            | yes many ↦ inr (
                inr (
                  many,
                  room,
                  rw (announced, e, positive_lem r.1 h) (ground (arith, size, whole, many)),
                ))
          ]
        ],
      )

  -- A frame that `opus_encode` compresses to at least one byte, to fewer than 0x2000 and to less than
  -- `framed_out` has room for behind the length, is handed to the callback once; and what the callback is given,
  -- `mumble_codec_opus_decode` opens with one call of `varint_decode`: it hands `opus_decode`
  -- the very bytes that `opus_encode` stored, and reports no termination.
  pub decode-on_encoder_frame :
      {S : Type 0} (cb : S → Call → Outcome S) (s : S) (codec : Codec lib) (frame : Call)
      (stored : List ℕ) (fuel varlen : ℕ) (decoder : lib.Decoder)
      → IsOpus lib
      → (lib.encode codec.encoder frame.bytes (length frame.bytes / 2) (length codec.codec_out)).2
        ≡ stored
      → 0 < length stored
      → length stored < 0x2000
      → encode_size (length stored) + length stored < length codec.framed_out
      → (call : Call) × (codec' : Codec lib) × (on_encoder_frame lib malloc cb s codec frame
          ≡ (cb s call >>= λ s'. done (s', codec')))
        × (call.final ≡ frame.final)
        × (decode lib malloc (suc fuel) varlen decoder call.bytes (pos (length call.bytes))
            ≡ decode_payload lib malloc decoder stored false)
  decode-on_encoder_frame cb s codec frame stored fuel varlen decoder opus e ne small fits =
      let n = length stored in
      let size : length (encoding n ++ stored) ≡ encode_size n + n =
        omega (arith, length-append (encoding n) stored, length-encoding n) in
      (
        framed lib malloc codec frame stored,
        framed_codec lib malloc codec frame stored,
        on_encoder_frame_fits lib malloc codec frame cb s opus stored e ne fits,
        refl,
        rw size (decode_framed fuel varlen decoder stored ne small),
      )
