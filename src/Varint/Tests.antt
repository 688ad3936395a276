-- ===== src/Varint/Tests.antt =====
-- Runs of util.c.
use mumble_web_demo.Prelude.{ℕ, suc, ◌≤◌, ◌≡◌, refl, List, [], ◌∷◌, done, no_fuel, fault, arith}
use mumble_web_demo.Prelude.Int.{pos, negsuc, ◌-ℤ◌}
use mumble_web_demo.Varint.{Encoded, encode_size, decode, encode}
use mumble_web_demo.Varint.Laws.{decode-encode_exact, decode_marker-no_fuel}

abbrev room : List ℕ
room = 0 ∷ 0 ∷ 0 ∷ 0 ∷ 0 ∷ 0 ∷ 0 ∷ 0 ∷ 0 ∷ 7 ∷ []

encode_300 :
    encode 300 room (pos 10) 5
    ≡ done (record { ret = 0; buf = 0x81 ∷ 0x2c ∷ 0 ∷ 0 ∷ 0 ∷ 0 ∷ 0 ∷ 0 ∷ 0 ∷ 7 ∷ []; written = 2 })
unfolding encode
encode_300 = refl

encode_no_room : encode 300 room (pos 1) 5 ≡ done (record { ret = 1; buf = room; written = 5 })
unfolding encode
encode_no_room = refl

decode_300 : decode 1 (0x81 ∷ 0x2c ∷ []) (pos 2) 9 ≡ done (record { ret = pos 2; result = 300 })
unfolding decode ◌-ℤ◌
decode_300 = refl

-- The top bit of a 32-bit value is copied into the upper half.
decode_sign :
    decode 1 (0xf0 ∷ 0x80 ∷ 0 ∷ 0 ∷ 1 ∷ []) (pos 5) 9
    ≡ done (record { ret = pos 5; result = 0xffff_ffff_8000_0001 })
unfolding decode ◌-ℤ◌
decode_sign = refl

-- Four bytes are read although the size is 1.
decode_short : decode 1 (0xf0 ∷ 0x80 ∷ []) (pos 1) 9 ≡ fault
unfolding decode ◌-ℤ◌
decode_short = refl

decode_marker : decode 50 (0xf8 ∷ 1 ∷ []) (pos 2) 9 ≡ no_fuel
unfolding decode ◌-ℤ◌
decode_marker = refl

decode_truncated : decode 1 (0x81 ∷ []) (pos 1) 9 ≡ done (record { ret = negsuc 0; result = 0 })
unfolding decode ◌-ℤ◌
decode_truncated = refl

size_300 : encode_size 300 ≤ 10
unfolding encode_size
size_300 = omega arith

decode_marker-no_fuel_example :
    let fuel : ℕ = 50 in
    let b : ℕ = 0xf8 in
    let size = pos 2 in
    let r : ℕ = 9 in let rest : List ℕ = 1 ∷ [] in decode fuel (b ∷ rest) size r ≡ no_fuel
decode_marker-no_fuel_example =
    decode_marker-no_fuel 50 0xf8 (pos 2) 9 (1 ∷ []) (omega arith) (omega arith) refl

decode-encode_exact_example :
    let fuel : ℕ = 0 in
    let v : ℕ = 300 in
    let size : ℕ = 10 in
    let size' : ℕ = 10 in
    let written : ℕ = 5 in
    let r : ℕ = 9 in
    let buf = room in
    (e : Encoded) × (encode v buf (pos size) written ≡ done e)
    × (e.ret ≡ 0)
    × (decode (suc fuel) e.buf (pos size') r ≡ done (record { ret = pos e.written; result = v }))
decode-encode_exact_example =
    decode-encode_exact 0 300 10 10 5 9 room (omega arith) (omega arith) size_300 size_300 size_300
