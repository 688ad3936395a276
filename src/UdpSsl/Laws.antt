-- ===== src/UdpSsl/Laws.antt =====
-- From `uv_udp_ssl_write` of one end to `recv_cb` of the other.
use mumble_web_demo.Prelude.{
  ℕ, ◌-◌, drop, replicate, ◌≤◌, ◌<◌, ◌≡◌, true, some, List, ◌∷◌, length, get_or, All, IsByte, done,
  fault, arith,
}
use mumble_web_demo.Prelude.Int.{ℤ, pos, negsuc, ltb_ℤ, ◌-ℤ◌}
use mumble_web_demo.Prelude.Signed.{remaining}
use mumble_web_demo.Prelude.Counts.{count}
use mumble_web_demo.BufferPool.{held}
use mumble_web_demo.BufferPool.Ownership.{IsValid}
use mumble_web_demo.BufferPool.Release.{release-held}
use mumble_web_demo.BufferPool.Borrow.{Kept, borrow}
use mumble_web_demo.Ocb.{Aes, IsAes, IsBlock, OcbAes}
use mumble_web_demo.Ocb.Two.{encrypt, decrypt}
use mumble_web_demo.Ocb.Two.Laws.{decrypt-encrypt}
use mumble_web_demo.Ocb.Two.Memory.{decrypt_bytes_lem, decrypt_bytes-overrun}
use mumble_web_demo.UdpSsl.{
  Conn, increment_iv, encrypt_ocb, write, decrypt_packet, recv_bytes, recv_cb,
}
use mumble_web_demo.UdpSsl.Counter.{increment-IsBlock}

-- The receiver counts the sender's packets.
pub record Paired (sender receiver : OcbAes) : Type 0 where
  pub same_key : receiver.key ≡ sender.key
  pub same_iv : receiver.dec_iv ≡ sender.enc_iv
  pub same_len : receiver.ivlen ≡ sender.ivlen
  pub iv : IsBlock sender.enc_iv

below_header : (n : ℕ) → n < 4 → (pos n -ℤ pos 4) ≡ negsuc (3 - n)
unfolding ◌-ℤ◌
below_header n h = ground arith

module _ (aes : Aes) (laws : IsAes aes) where
  -- The ends are paired, both pools are valid, the sender has a free buffer, the receiver holds
  -- the buffer that it reads into and has a callback, and libuv sends what it is given. Then up to
  -- 1020 bytes are written as a packet from which the receiver's callback is given the same bytes,
  -- the ends are paired again, and the sender's pool holds what it held.
  pub write_recv :
      (try_send : List ℕ → ℤ) (s r : Conn) (base : ℕ) (payload : List ℕ)
      → ((packet : List ℕ) → ltb_ℤ (pos 0) (try_send packet) ≡ true)
      → Paired s.cipher r.cipher
      → IsValid s.buffer_pool
      → s.buffer_pool.in_use < s.buffer_pool.buffer_count
      → IsValid r.buffer_pool
      → 1 ≤ count base (held r.buffer_pool)
      → r.cb ≡ true
      → All IsByte payload
      → length payload ≤ 1020
      → (s' : Conn) × (packet : List ℕ) × (r' : Conn) × (write aes try_send s payload
          ≡ done (s', packet))
        × (recv_cb aes r base packet ≡ done (r', some payload))
        × Paired s'.cipher r'.cipher
        × Kept s.buffer_pool s'.buffer_pool
  unfolding write encrypt_ocb recv_cb recv_bytes decrypt_packet
  write_recv try_send s r base payload sends pair vs free vr held_base cb bytes small =
      let (b, q, pool, got, back, kept) = borrow s.buffer_pool vs free in
      let (pool', back', _) = release-held r.buffer_pool base vr held_base in
      let iv = increment_iv s.cipher.enc_iv s.cipher.ivlen in
      let cs : OcbAes = record s.cipher { enc_iv = iv } in
      let cr : OcbAes = record r.cipher { dec_iv = increment_iv r.cipher.dec_iv r.cipher.ivlen } in
      let block = increment-IsBlock s.cipher.enc_iv s.cipher.ivlen pair.iv in
      let next : cr.dec_iv ≡ iv = cc (pair.same_iv, pair.same_len) in
      let sent = encrypt aes cs payload in
      let packet =
        get_or iv 0 0
        ∷ get_or sent.tag 0 0
        ∷ get_or sent.tag 1 0
        ∷ get_or sent.tag 2 0
        ∷ sent.out in
      let opened : (decrypt aes cr sent.out).out ≡ payload =
        (decrypt-encrypt aes laws cs cr payload pair.same_key next block bytes) in
      let all = decrypt_bytes_lem aes laws cr (replicate 16 0) (rw next block) sent.out in
      let counted = remaining 4 (length sent.out) (length packet) (omega arith) in
      (
        record s { cipher = cs; buffer_pool = pool },
        packet,
        record r { cipher = cr; buffer_pool = pool' },
        ground (arith, got, back, sends packet),
        rw (counted, all) (ground (arith, opened, cb, back')),
        record { same_key = pair.same_key; same_iv = next; same_len = pair.same_len; iv = block },
        kept,
      )

module _ (aes : Aes) where
  -- Whatever stands in the first four bytes of a packet, what the callback is given is the same: neither
  -- the counter nor the tag that was sent is looked at.
  pub header_ignored :
      (conn : Conn) (base a b c d a' b' c' d' : ℕ) (rest : List ℕ)
      → recv_cb aes conn base (a ∷ b ∷ c ∷ d ∷ rest)
        ≡ recv_cb aes conn base (a' ∷ b' ∷ c' ∷ d' ∷ rest)
  unfolding recv_cb recv_bytes decrypt_packet
  header_ignored conn base a b c d a' b' c' d' rest = ground arith

module _ (aes : Aes) (laws : IsAes aes) where
  -- AES is a cipher on blocks, and the counter of the receiver is a block. Then for a packet of one, two or three
  -- bytes, whatever memory of at least four they stand in, `recv_cb` goes past the end of the pad of `ocb2_encrypt_block_final`.
  pub recv_short :
      (unset : List ℕ) (conn : Conn) (base : ℕ) (buf : List ℕ) (nread : ℕ)
      → length unset ≡ 16
      → IsBlock conn.cipher.dec_iv
      → 4 ≤ length buf
      → 1 ≤ nread
      → nread < 4
      → recv_bytes aes unset conn base buf nread ≡ fault
  unfolding recv_bytes decrypt_packet
  recv_short unset conn base buf nread upper iv whole some_bytes short =
      let cipher' : OcbAes = record conn.cipher {
        dec_iv = increment_iv conn.cipher.dec_iv conn.cipher.ivlen;
      } in
      let block = increment-IsBlock conn.cipher.dec_iv conn.cipher.ivlen iv in
      let over =
        decrypt_bytes-overrun aes laws cipher' unset block (drop 4 buf) (3 - nread) upper
          (omega arith) in
      let left : (pos nread -ℤ pos 4) ≡ negsuc (3 - nread) = below_header nread short in
      rw (left, over) (ground (arith, some_bytes, whole))
