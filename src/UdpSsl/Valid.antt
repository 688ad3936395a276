-- ===== src/UdpSsl/Valid.antt =====
-- The well-formedness of a connection, call by call.
use mumble_web_demo.Prelude.{
  ℕ, zero, suc, ◌≡◌, inl, inr, refl, sym, subst, ◌∙◌, Option, none, List, [], ◌∷◌, length, drop,
  ltb, leb, get_or, replicate, if◌then◌else◌, done, ◌>>=◌, check, in_range, Ensures, bind-Ensures,
  bind_known, if-Ensures, arith,
}
use mumble_web_demo.Prelude.Int.{ltb_ℤ, pos, ℤ, ◌-ℤ◌}
use mumble_web_demo.Prelude.Memory.{read_at, write_at, write_at-length}
use mumble_web_demo.BufferPool.{Pool, release}
use mumble_web_demo.BufferPool.Ownership as Pool
use mumble_web_demo.BufferPool.Ownership.{Taken, acquire_lem}
use mumble_web_demo.BufferPool.Borrow.{acquire_or_abort, Kept-refl, gives_back}
use mumble_web_demo.Ocb.{Aes, OcbAes, set_keys}
use mumble_web_demo.Ocb.Two.{decrypt_bytes}
use mumble_web_demo.UdpSsl.{
  Conn, increment_iv, encrypt_ocb, set_encryption, write, decrypt_packet, alloc_cb, recv_bytes,
  recv_cb,
}
use mumble_web_demo.UdpSsl.Keys.{HasArrays}

-- The arrays have their sizes, and the pool is valid.
pub record IsValid (conn : Conn) : Type 0 where
  pub arrays : HasArrays conn.cipher
  pub pool : Pool.IsValid conn.buffer_pool

length-increment_iv : (iv : List ℕ) (n : ℕ) → length (increment_iv iv n) ≡ length iv
unfolding increment_iv
length-increment_iv iv zero = refl
length-increment_iv [] (suc n) = refl
length-increment_iv (b ∷ iv) (suc n) = ground (arith, length-increment_iv iv n)

set_keys-HasArrays :
    (ctx : OcbAes) (key enc_iv dec_iv : List ℕ) (ivlen : ℕ)
    → HasArrays ctx
    → Ensures HasArrays (set_keys ctx key enc_iv dec_iv ivlen)
unfolding set_keys
set_keys-HasArrays ctx key enc_iv dec_iv ivlen h = bind-Ensures _ (read_at key 0 16) _ λ k e.
    bind_known _ _ (write_at ctx.key 0 k) _ (write_at-length ctx.key 0 k) λ key' e1.
      bind-Ensures _ (read_at enc_iv 0 ivlen) _ λ iv e.
        bind_known _ _ (write_at ctx.enc_iv 0 iv) _ (write_at-length ctx.enc_iv 0 iv) λ iv' e2.
          bind-Ensures _ (read_at dec_iv 0 ivlen) _ λ d e.
            bind_known _ _ (write_at ctx.dec_iv 0 d) _ (write_at-length ctx.dec_iv 0 d)
              λ d' e3. record { key = e1 ∙ h.key; enc_iv = e2 ∙ h.enc_iv; dec_iv = e3 ∙ h.dec_iv }

pub set_encryption-IsValid :
    (conn : Conn) (key enc_iv dec_iv : List ℕ) (ivlen : ℕ)
    → IsValid conn
    → Ensures IsValid (set_encryption conn key enc_iv dec_iv ivlen)
unfolding set_encryption
set_encryption-IsValid conn key enc_iv dec_iv ivlen v =
    bind_known _ _ (set_keys conn.cipher key enc_iv dec_iv ivlen) _
      (set_keys-HasArrays conn.cipher key enc_iv dec_iv ivlen v.arrays)
      λ cipher h. record { arrays = h; pool = v.pool }

-- A buffer that is taken, and one that is given back.
takes :
    (p : Pool) → Pool.IsValid p → Ensures (λ (r : ℕ × Pool). Taken p r.0 r.1) (acquire_or_abort p)
unfolding acquire_or_abort
takes p v = elim (acquire_lem p v) [ inl (full, out) ↦ rw out tt | inr (b, q, got, t) ↦ rw got t ]

returns :
    (p : Pool) (b : ℕ) (q : Pool)
    → Taken p b q
    → Ensures (λ (p' : Pool). Pool.IsValid p') (release q b)
returns p b q t = let (p', back, k) = gives_back p b q q t (Kept-refl q t.valid) in rw back k.valid

module _ (aes : Aes) where
  pub write-IsValid :
      (try_send : List ℕ → ℤ) (conn : Conn) (buf : List ℕ)
      → IsValid conn
      → Ensures (λ (r : Conn × List ℕ). IsValid r.0) (write aes try_send conn buf)
  unfolding write encrypt_ocb
  write-IsValid try_send conn buf v =
      let r = encrypt_ocb aes conn.cipher buf in
      let iv = increment_iv conn.cipher.enc_iv conn.cipher.ivlen in
      let packet = get_or iv 0 0 ∷ get_or r.2 0 0 ∷ get_or r.2 1 0 ∷ get_or r.2 2 0 ∷ r.1 in
      if-Ensures _ (ltb 1020 (length buf)) _ _ (λ e. tt)
        (λ e.
          bind_known _ _ (acquire_or_abort conn.buffer_pool) _ (takes conn.buffer_pool v.pool)
            λ taken t. bind-Ensures _ (check (ltb_ℤ (pos 0) (try_send packet))) _ λ u e.
              bind_known _ _ (release taken.1 taken.0) _
                (returns conn.buffer_pool taken.0 taken.1 t)
                λ p h. record {
                  arrays = record {
                    key = v.arrays.key;
                    enc_iv =
                        length-increment_iv conn.cipher.enc_iv conn.cipher.ivlen ∙ v.arrays.enc_iv;
                    dec_iv = v.arrays.dec_iv;
                  };
                  pool = h;
                })

  decrypt_packet-HasArrays :
      (unset : List ℕ) (conn : Conn) (buf : List ℕ) (len : ℕ)
      → HasArrays conn.cipher
      → Ensures
          (λ (r : Conn × Option (List ℕ)).
            HasArrays r.0.cipher × (r.0.buffer_pool ≡ conn.buffer_pool))
          (decrypt_packet aes unset conn buf len)
  unfolding decrypt_packet
  decrypt_packet-HasArrays unset conn buf len h =
      let iv = increment_iv conn.cipher.dec_iv conn.cipher.ivlen in
      let cipher' = record conn.cipher { dec_iv = iv } in
      bind-Ensures _ (read_at buf 0 4) _ λ header e.
        bind-Ensures _ (decrypt_bytes aes cipher' unset (drop 4 buf) (pos len -ℤ pos 4)) _ λ r e'.
          bind-Ensures _ (in_range (leb (length r.out) 10240)) _ λ u e''. (
            record {
              key = h.key;
              enc_iv = h.enc_iv;
              dec_iv = length-increment_iv conn.cipher.dec_iv conn.cipher.ivlen ∙ h.dec_iv;
            },
            refl,
          )

  alloc_cb-Taken :
      (conn : Conn)
      → IsValid conn
      → Ensures
          (λ (r : Conn × ℕ). HasArrays r.0.cipher × Taken conn.buffer_pool r.1 r.0.buffer_pool)
          (alloc_cb aes conn)
  unfolding alloc_cb
  alloc_cb-Taken conn v =
      bind_known _ _ (acquire_or_abort conn.buffer_pool) _ (takes conn.buffer_pool v.pool)
        λ taken t. (v.arrays, t)

  received :
      (conn : Conn) (buf : List ℕ)
      → HasArrays conn.cipher
      → Ensures
          (λ (r : Conn × Option (List ℕ)).
            HasArrays r.0.cipher × (r.0.buffer_pool ≡ conn.buffer_pool))
          (if ltb 0 (length buf)
            then decrypt_packet aes (replicate 16 0) conn buf (length buf)
            else done (conn, none))
  received conn buf h =
      if-Ensures _ (ltb 0 (length buf)) _ _
        (λ e. decrypt_packet-HasArrays (replicate 16 0) conn buf (length buf) h) (λ e. (h, refl))

  -- A datagram that libuv reads: it asks for a buffer and calls back.
  pub recv_cb-IsValid :
      (conn : Conn) (buf : List ℕ)
      → IsValid conn
      → Ensures
          (λ (r : Conn × Option (List ℕ)). IsValid r.0)
          (alloc_cb aes conn >>= λ (conn', base). recv_cb aes conn' base buf)
  unfolding recv_cb recv_bytes
  recv_cb-IsValid conn buf v =
      bind_known _ _ (alloc_cb aes conn) _ (alloc_cb-Taken conn v) λ (conn', base) (arrays, taken).
        bind_known _ _
          (if ltb 0 (length buf)
            then decrypt_packet aes (replicate 16 0) conn' buf (length buf)
            else done (conn', none))
          _ (received conn' buf arrays)
          λ (conn'', given) (arrays', same).
            bind_known _ _ (release conn''.buffer_pool base) _
              (returns conn.buffer_pool base conn''.buffer_pool
                (subst (Taken conn.buffer_pool base) (sym same) taken))
              λ pool h. record { arrays = arrays'; pool = h }
