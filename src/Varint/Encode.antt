-- ===== src/Varint/Encode.antt =====
-- `varint_encode` on both of its branches.
use mumble_web_demo.Prelude.{
  ℕ, ◌≤◌, ◌≡◌, List, [], ◌++◌, length, length-take, take, drop, take-append-drop, if◌then◌else◌,
  arith, done,
}
use mumble_web_demo.Prelude.Int.{ℤ, pos, ltb_ℤ}
use mumble_web_demo.Varint.{encode, encode_size, encode_bytes, encode_source, encoded}
use mumble_web_demo.Varint.Encoding.{
  encoding, encode_bytes-encoding, length-encode_bytes, write_bufs_lem,
}

-- On a uint64_t only the branch for values that are not negative is taken.
encode_source_lem :
    (v : ℕ) (buf : List ℕ)
    → encode_size v ≤ length buf
    → encode_source v (record { buf = buf; pos = 0; written = 0 })
      ≡ done (record {
        buf = encoding v ++ drop (encode_size v) buf;
        pos = encode_size v;
        written = encode_size v;
      })
unfolding encode_source
encode_source_lem v buf fits = ground (
  arith,
  take-append-drop n buf,
  length-take n buf,
  length-encode_bytes v,
  encode_bytes-encoding v,
  write_bufs_lem (encode_bytes v) [] (take n buf) (drop n buf) 0 0,
)
  where
    n : ℕ
    n = encode_size v

-- With room in memory for the format, `varint_encode` writes nothing and returns 1 if `size` is less
-- than `varint_encode_size`; otherwise it returns 0, overwrites the front of the buffer by the
-- format, leaves the bytes behind it alone, and `*written` is the length of the format.
pub encode_lem :
    (v : ℕ) (buf : List ℕ) (size : ℤ) (written : ℕ)
    → encode_size v ≤ length buf
    → encode v buf size written ≡ (
        if ltb_ℤ size (pos (encode_size v))
        then done (record { ret = 1; buf = buf; written = written })
        else done (record {
          ret = 0;
          buf = encoding v ++ drop (encode_size v) buf;
          written = encode_size v;
        }))
unfolding encode encoded
encode_lem v buf size written fits = ground (arith, encode_source_lem v buf fits)
