-- ===== src/UdpSsl/Keys.antt =====
-- `uv_udp_ssl_set_encryption`, with what the server sends in its CryptSetup.
use mumble_web_demo.Prelude.{
  ℕ, ◌+◌, ◌≤◌, ◌<◌, ◌≡◌, ◌⊎◌, inl, inr, refl, ap, ◌∙◌, List, ◌++◌, length, take, drop, drop_all,
  take_all, append-nil, u8, done, fault, ◌>>=◌, arith, dec_lt,
}
use mumble_web_demo.Prelude.Memory.{read_at, write_at, overwrite}
use mumble_web_demo.Ocb.{IsBlock, OcbAes, set_keys}
use mumble_web_demo.UdpSsl.{Conn, set_encryption}
use mumble_web_demo.UdpSsl.Laws.{Paired}

-- The arrays of the struct.
pub record HasArrays (c : OcbAes) : Type 0 where
  pub key : length c.key ≡ 16
  pub enc_iv : length c.enc_iv ≡ 16
  pub dec_iv : length c.dec_iv ≡ 16

-- A copy of `n` bytes to the front of an array, if there is room.
copy_in :
    (mem bytes : List ℕ) (n : ℕ)
    → length bytes ≡ n
    → n ≤ length mem
    → (read_at bytes 0 n ≡ done bytes) × (write_at mem 0 bytes ≡ done (overwrite mem 0 bytes))
copy_in mem bytes n e h =
    let whole : take n bytes ≡ bytes = take_all n bytes (omega (arith, e)) in
    (ground (arith, whole, e), ground (arith, e, h))

overwrite_whole : (mem bytes : List ℕ) → length bytes ≡ length mem → overwrite mem 0 bytes ≡ bytes
overwrite_whole mem bytes e =
    ap (λ t. bytes ++ t) (drop_all (0 + length bytes) mem (omega (arith, e))) ∙ append-nil bytes

-- The three arrays have their sizes, the key has 16 bytes, and the two counters have `ivlen`. Then
-- they are stored if `ivlen` is at most 16; if it is more, `ocb_aes_set_keys` writes past the end of an
-- array.
pub set_keys_cases :
    (ctx : OcbAes) (key enc_iv dec_iv : List ℕ) (ivlen : ℕ)
    → HasArrays ctx
    → length key ≡ 16
    → length enc_iv ≡ ivlen
    → length dec_iv ≡ ivlen
    → ((ivlen ≤ 16)
        × (set_keys ctx key enc_iv dec_iv ivlen
            ≡ done (record {
              key = key;
              enc_iv = enc_iv ++ drop ivlen ctx.enc_iv;
              dec_iv = dec_iv ++ drop ivlen ctx.dec_iv;
              ivlen = ivlen;
              taglen = 96;
            })))
      ⊎ ((16 < ivlen) × (set_keys ctx key enc_iv dec_iv ivlen ≡ fault))
unfolding set_keys
set_keys_cases ctx key enc_iv dec_iv ivlen arrays k e d =
    let keys = copy_in ctx.key key 16 k (omega (arith, arrays.key)) in
    let whole = overwrite_whole ctx.key key (omega (arith, k, arrays.key)) in
    elim (dec_lt 16 ivlen) [
      | yes over ↦
          let bytes : take ivlen enc_iv ≡ enc_iv = take_all ivlen enc_iv (omega (arith, e)) in
          inr (over, ground (arith, keys, bytes, e, arrays.enc_iv))
      | no fits ↦
          let small : u8 ivlen ≡ ivlen = omega arith in
          let encs = copy_in ctx.enc_iv enc_iv ivlen e (omega (arith, arrays.enc_iv)) in
          let decs = copy_in ctx.dec_iv dec_iv ivlen d (omega (arith, arrays.dec_iv)) in
          inl (omega arith, ground (arith, keys, whole, encs, decs, small, e, d))
    ]

-- Both ends, whose arrays have their sizes, are given the same key of 16 bytes, and two blocks as
-- counters, each the other way round. Then each end is paired with the other.
pub set_encryption-Paired :
    (s r : Conn) (key ours theirs : List ℕ)
    → HasArrays s.cipher
    → HasArrays r.cipher
    → length key ≡ 16
    → IsBlock ours
    → IsBlock theirs
    → (s' : Conn) × (r' : Conn) × (set_encryption s key ours theirs 16 ≡ done s')
      × (set_encryption r key theirs ours 16 ≡ done r')
      × Paired s'.cipher r'.cipher
      × Paired r'.cipher s'.cipher
unfolding set_encryption
set_encryption-Paired s r key ours theirs hs hr k o t =
    let cs : OcbAes = record {
      key = key;
      enc_iv = ours;
      dec_iv = theirs;
      ivlen = 16;
      taglen = 96;
    } in
    let cr : OcbAes = record {
      key = key;
      enc_iv = theirs;
      dec_iv = ours;
      ivlen = 16;
      taglen = 96;
    } in
    (
      record s { cipher = cs },
      record r { cipher = cr },
      ap (λ m. m >>= λ c. done (record s { cipher = c })) (stores s.cipher ours theirs hs o t),
      ap (λ m. m >>= λ c. done (record r { cipher = c })) (stores r.cipher theirs ours hr t o),
      record { same_key = refl; same_iv = refl; same_len = refl; iv = o },
      record { same_key = refl; same_iv = refl; same_len = refl; iv = t },
    )
  where
    stores :
        (c : OcbAes) (e d : List ℕ)
        → HasArrays c
        → IsBlock e
        → IsBlock d
        → set_keys c key e d 16
          ≡ done (record { key = key; enc_iv = e; dec_iv = d; ivlen = 16; taglen = 96 })
    stores c e d h be bd = elim (set_keys_cases c key e d 16 h k be.size bd.size) [
      | inr (over, _) ↦ absurd (omega (arith, over))
      | inl (_, run) ↦
          let no_enc : e ++ drop 16 c.enc_iv ≡ e =
            ap (λ t. e ++ t) (drop_all 16 c.enc_iv (omega (arith, h.enc_iv))) ∙ append-nil e in
          let no_dec : d ++ drop 16 c.dec_iv ≡ d =
            ap (λ t. d ++ t) (drop_all 16 c.dec_iv (omega (arith, h.dec_iv))) ∙ append-nil d in
          rw (no_enc, no_dec) at run
    ]
