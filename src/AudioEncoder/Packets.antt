-- ===== src/AudioEncoder/Packets.antt =====
-- The bytes of a packet of audio_encoder.c.
use mumble_web_demo.Prelude.{
  ℕ, ◌+◌, ◌-◌, ◌^◌, ◌≤◌, ◌<◌, ◌≡◌, some, List, ◌∷◌, ◌++◌, ltb, lt→ltb, length, drop, length-drop,
  u32, done, check, arith,
}
use mumble_web_demo.Prelude.Int.{pos, sub_ℕ}
use mumble_web_demo.Prelude.Signed.{of_int}
use mumble_web_demo.Prelude.Memory.{write_at_back, write_at_two, read_at_two}
use mumble_web_demo.Varint
use mumble_web_demo.Varint.{encode_size}
use mumble_web_demo.Varint.Encode.{encode_lem}
use mumble_web_demo.Varint.Encoding.{encoding, length-encoding, encode_size_bounds}
use mumble_web_demo.Opus.{Blocks}
use mumble_web_demo.AudioEncoder.{Outgoing, header_byte, encoded_size, encoder_codec_packet}

sequence_written :
    (sequence size : ℕ) (block : List ℕ)
    → length block ≡ encoded_size size
    → Varint.encode sequence (drop 1 block) (pos (encoded_size size)) 0
      ≡ done (record {
        ret = 0;
        buf = encoding sequence ++ drop (encode_size sequence) (drop 1 block);
        written = encode_size sequence;
      })
sequence_written sequence size block h = ground (
  arith,
  length-drop 1 block,
  encode_size_bounds sequence,
  encode_lem sequence (drop 1 block) (pos (encoded_size size)) 0,
)

-- The two asserts on the room.
room_asserts :
    (size m : ℕ)
    → m ≤ 9
    → size < 2 ^ 31
    → (check (ltb size (u32 (encoded_size size + 2 ^ 32 - (1 + m)))) ≡ done tt)
      × (check (ltb 12 (of_int (sub_ℕ (encoded_size size) (1 + m + size)))) ≡ done tt)
room_asserts size m h small = (ground arith, ground arith)

-- With a block of the size asked for, `encoder_codec_cb` gives the callback the byte of codec and
-- target, the sequence number in the format of the varints and the payload. The position is
-- stored behind them, and is not counted.
pub encoder_codec_packet_lem :
    (malloc : Blocks) (packet : Outgoing) (sequence : ℕ) (buf block : List ℕ)
    → malloc (encoded_size (length buf)) ≡ some block
    → length block ≡ encoded_size (length buf)
    → length packet.position ≡ 12
    → length buf < 2 ^ 31
    → encoder_codec_packet malloc packet sequence buf
      ≡ done (header_byte packet.codec packet.target ∷ (encoding sequence ++ buf))
unfolding encoder_codec_packet
encoder_codec_packet_lem malloc packet sequence buf block e whole twelve small =
    let size = length buf in
    let m = encode_size sequence in
    let h = header_byte packet.codec packet.target in
    let back = drop m (drop 1 block) in
    let front : List ℕ = h ∷ encoding sequence in
    let back_length : length back ≡ size + 36 - m =
      omega (arith, length-drop m (drop 1 block), length-drop 1 block) in
    let asserts = room_asserts size m (encode_size_bounds sequence).1 small in
    let after : List ℕ = drop size back in
    rw
      (
        e,
        lt→ltb 0 (length block) (omega arith),
        sequence_written sequence size block whole,
        asserts.0,
        write_at_back front back (1 + m) (omega (arith, length-encoding sequence)) buf
            (omega (arith, encode_size_bounds sequence)),
        asserts.1,
        write_at_two front buf after (1 + m + size) (omega (arith, length-encoding sequence))
            packet.position (omega (arith, length-drop size back, encode_size_bounds sequence)),
      )
      (read_at_two front buf (packet.position ++ drop (length packet.position) after) (1 + m + size)
        (omega (arith, length-encoding sequence)))
