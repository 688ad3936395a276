-- ===== src/UdpSsl.antt =====
-- The encrypted datagrams of lib/mumble/uv_udp_ssl.c, over the pool of buffers and OCB2. What libuv
-- does with a packet is a parameter.
pub mod Counter
pub mod Laws
pub mod Keys
pub mod Valid
mod Tests
use mumble_web_demo.Prelude.{
  ℕ, zero, suc, ◌+◌, ◌-◌, ◌≡◌, Bool, true, false, Option, none, some, List, [], ◌∷◌, ◌++◌,
  if◌then◌else◌, ltb, leb, ◌==◌, length, drop, get_or, replicate, u8, Outcome, done, abort, ◌>>=◌,
  ◌>>◌, check, in_range,
}
use mumble_web_demo.Prelude.Int.{ℤ, pos, ltb_ℤ, ◌-ℤ◌}
use mumble_web_demo.Prelude.Memory.{read_at}
use mumble_web_demo.BufferPool.{Pool, Malloc, init, acquire, release}
use mumble_web_demo.BufferPool.Borrow.{acquire_or_abort}
use mumble_web_demo.Ocb.{Aes, OcbAes, set_keys}
use mumble_web_demo.Ocb.Two.{encrypt, decrypt_bytes}

-- `uv_udp_ssl_t`, less the socket; the callback is there or not.
pub record Conn : Type 0 where
  pub cipher : OcbAes
  pub cb : Bool
  pub buffer_pool : Pool

-- `increment_iv` on the bytes from one index on, `len` of them to go.
unfoldable pub increment_iv : List ℕ → ℕ → List ℕ
increment_iv iv zero = iv
increment_iv [] (suc len) = []
increment_iv (b ∷ iv) (suc len) =
    let rest = increment_iv iv len in if u8 (b + 1) == 0 then u8 (b + 1) ∷ rest else u8 (b + 1) ∷ iv

-- `uv_udp_ssl_init`; the memory is cleared first.
unfoldable pub init_conn : Malloc → Outcome Conn
init_conn malloc = do
  pool ← init malloc 2 1024
  done (record {
    cipher = record {
      key = replicate 16 0;
      enc_iv = replicate 16 0;
      dec_iv = replicate 16 0;
      ivlen = 0;
      taglen = 0;
    };
    cb = false;
    buffer_pool = pool;
  })

-- `uv_udp_ssl_set_cb`
unfoldable pub set_cb : Conn → Bool → Conn
set_cb conn cb = record conn { cb = cb }

-- `uv_udp_ssl_set_encryption`
unfoldable pub set_encryption : Conn → List ℕ → List ℕ → List ℕ → ℕ → Outcome Conn
set_encryption conn key enc_iv dec_iv ivlen = do
  cipher ← set_keys conn.cipher key enc_iv dec_iv ivlen
  done (record conn { cipher = cipher })

module _ (aes : Aes) where
  -- `encrypt_ocb`: the bytes for `dest`, and `tag`.
  unfoldable pub encrypt_ocb : OcbAes → List ℕ → OcbAes × List ℕ × List ℕ
  unfolding increment_iv
  encrypt_ocb cipher source =
      let cipher' = record cipher { enc_iv = increment_iv cipher.enc_iv cipher.ivlen } in
      let r = encrypt aes cipher' source in (cipher', r.out, r.tag)

  -- `uv_udp_ssl_write`; `try_send` is the result of `uv_udp_try_send` on a packet. The packet is returned
  -- with the connection.
  unfoldable pub write : (List ℕ → ℤ) → Conn → List ℕ → Outcome (Conn × List ℕ)
  unfolding acquire_or_abort encrypt_ocb
  write try_send conn buf = if ltb 1020 (length buf) then abort else (do
    (base, pool) ← acquire_or_abort conn.buffer_pool
    let (cipher', out, tag) = encrypt_ocb conn.cipher buf
    let packet = get_or cipher'.enc_iv 0 0 ∷ get_or tag 0 0 ∷ get_or tag 1 0 ∷ get_or tag 2 0 ∷ out
    check (ltb_ℤ (pos 0) (try_send packet))
    pool' ← release pool base
    done (record conn { cipher = cipher'; buffer_pool = pool' }, packet))

  -- `uv_udp_ssl_decrypt` on the memory from `buf` on, of which `len` bytes are the packet: the connection, and
  -- what the callback is given, if there is one. The first four bytes are read, and not looked at. `unset` is
  -- what `ocb2_encrypt_block_final` finds in the second half of its pad.
  unfoldable pub decrypt_packet : List ℕ → Conn → List ℕ → ℕ → Outcome (Conn × Option (List ℕ))
  unfolding increment_iv
  decrypt_packet unset conn buf len = do
    let cipher' = record conn.cipher { dec_iv = increment_iv conn.cipher.dec_iv conn.cipher.ivlen }
    header ← read_at buf 0 4
    r ← decrypt_bytes aes cipher' unset (drop 4 buf) (pos len -ℤ pos 4)
    in_range (leb (length r.out) 10240)
    done (record conn { cipher = cipher' }, if conn.cb then some r.out else none)

  -- `recv_cb` on the buffer `base`, which holds the memory `buf`; the first `nread` bytes are those that came.
  -- If `nread` is not positive, it is 0.
  unfoldable pub recv_bytes : List ℕ → Conn → ℕ → List ℕ → ℕ → Outcome (Conn × Option (List ℕ))
  unfolding decrypt_packet
  recv_bytes unset conn base buf nread = do
    (conn', given) ← if ltb 0 nread then decrypt_packet unset conn buf nread else done (conn, none)
    pool ← release conn'.buffer_pool base
    done (record conn' { buffer_pool = pool }, given)

  -- `recv_cb` on a buffer of which no more is known than the packet: a shorter one than the header ends there.
  unfoldable pub recv_cb : Conn → ℕ → List ℕ → Outcome (Conn × Option (List ℕ))
  unfolding recv_bytes
  recv_cb conn base buf = recv_bytes (replicate 16 0) conn base buf (length buf)

  -- `alloc_cb`
  unfoldable pub alloc_cb : Conn → Outcome (Conn × ℕ)
  unfolding acquire_or_abort
  alloc_cb conn = do
    (base, pool) ← acquire_or_abort conn.buffer_pool
    done (record conn { buffer_pool = pool }, base)
