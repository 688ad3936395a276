-- ===== src/UdpSsl/Tests.antt =====
-- Runs of the encrypted datagrams, with a cipher that leaves blocks as they are.
use mumble_web_demo.Prelude.{
  ℕ, ◌+◌, ◌≤◌, ◌<◌, ◌^◌, ◌≡◌, ◌⊎◌, refl, true, some, List, [], ◌∷◌, ◌++◌, drop, replicate, length,
  arith, done, fault,
}
use mumble_web_demo.Prelude.Int.{ℤ, pos}
use mumble_web_demo.BufferPool.{Pool}
use mumble_web_demo.BufferPool.Ownership.{IsValid}
use mumble_web_demo.Ocb.{Aes, IsAes, IsBlock, set_keys}
use mumble_web_demo.UdpSsl.{Conn, increment_iv, write, recv_bytes, recv_cb, set_encryption}
use mumble_web_demo.UdpSsl.Counter.{value, value-increment_iv}
use mumble_web_demo.BufferPool.Borrow.{Kept}
use mumble_web_demo.UdpSsl.Keys.{HasArrays, set_keys_cases, set_encryption-Paired}
use mumble_web_demo.UdpSsl.Laws.{Paired, write_recv, recv_short}

abbrev plain_aes : Aes
plain_aes = record { encrypt = λ key b. b; decrypt = λ key b. b }

plain_laws : IsAes plain_aes
plain_laws = record { encrypt-IsBlock = λ key b h. h; decrypt-encrypt = λ key b h. refl }

abbrev one_held : Pool
one_held = record { buffers = 10 ∷ 20 ∷ []; in_use = 1; size = 1024; buffer_count = 2 }

one_held-IsValid : IsValid one_held
one_held-IsValid = record { full = refl; within = omega arith; distinct = λ a. ground arith }

abbrev end : List ℕ → List ℕ → Conn
end enc_iv dec_iv = record {
  cipher = record { key = []; enc_iv = enc_iv; dec_iv = dec_iv; ivlen = 16; taglen = 96 };
  cb = true;
  buffer_pool = one_held;
}

abbrev client : Conn
client = end (replicate 16 255) (replicate 16 7)

abbrev server : Conn
server = end (replicate 16 7) (replicate 16 255)

ends-Paired : Paired client.cipher server.cipher
ends-Paired = record {
  same_key = refl;
  same_iv = refl;
  same_len = refl;
  iv = record { size = refl; bytes = ground arith };
}

abbrev cleared : Conn
cleared = record {
  cipher = record {
    key = replicate 16 0;
    enc_iv = replicate 16 0;
    dec_iv = replicate 16 0;
    ivlen = 0;
    taglen = 0;
  };
  cb = true;
  buffer_pool = one_held;
}

cleared-HasArrays : HasArrays cleared.cipher
cleared-HasArrays = record { key = refl; enc_iv = refl; dec_iv = refl }

ours-IsBlock : IsBlock (replicate 16 1)
ours-IsBlock = record { size = refl; bytes = ground arith }

theirs-IsBlock : IsBlock (replicate 16 2)
theirs-IsBlock = record { size = refl; bytes = ground arith }

value-increment_iv_example :
    let iv : List ℕ = 255 ∷ 1 ∷ [] in
    ((value iv + 1 < 256 ^ length iv) × (value (increment_iv iv (length iv)) ≡ value iv + 1))
    ⊎ ((value iv + 1 ≡ 256 ^ length iv) × (value (increment_iv iv (length iv)) ≡ 0))
value-increment_iv_example = value-increment_iv (255 ∷ 1 ∷ []) (omega arith, (omega arith, tt))

write_recv_example :
    let aes = plain_aes in
    let try_send : List ℕ → ℤ = λ _. pos 1 in
    let s = client in
    let r = server in
    let base : ℕ = 10 in
    let payload : List ℕ = 1 ∷ 2 ∷ [] in
    (s' : Conn) × (packet : List ℕ) × (r' : Conn) × (write aes try_send s payload
      ≡ done (s', packet))
    × (recv_cb aes r base packet ≡ done (r', some payload))
    × Paired s'.cipher r'.cipher
    × Kept s.buffer_pool s'.buffer_pool
write_recv_example =
    write_recv plain_aes plain_laws (λ _. pos 1) client server 10 (1 ∷ 2 ∷ []) (λ _. refl)
      ends-Paired one_held-IsValid (omega arith) one_held-IsValid (omega arith) refl
      (omega arith, (omega arith, tt)) (omega arith)

server_iv : IsBlock server.cipher.dec_iv
server_iv = record { size = refl; bytes = ground arith }

-- One byte came, in a buffer of 1024.
recv_short_example :
    recv_bytes plain_aes (replicate 16 0) server 10 (9 ∷ replicate 1023 0) 1 ≡ fault
recv_short_example =
    recv_short plain_aes plain_laws (replicate 16 0) server 10 (9 ∷ replicate 1023 0) 1 refl
      server_iv (omega arith) (omega arith) (omega arith)

set_keys_cases_example :
    let ctx = cleared.cipher in
    let key : List ℕ = replicate 16 9 in
    let enc_iv : List ℕ = replicate 12 1 in
    let dec_iv : List ℕ = replicate 12 2 in
    let ivlen : ℕ = 12 in
    ((ivlen ≤ 16)
      × (set_keys ctx key enc_iv dec_iv ivlen
          ≡ done (record {
            key = key;
            enc_iv = enc_iv ++ drop ivlen ctx.enc_iv;
            dec_iv = dec_iv ++ drop ivlen ctx.dec_iv;
            ivlen = ivlen;
            taglen = 96;
          })))
    ⊎ ((16 < ivlen) × (set_keys ctx key enc_iv dec_iv ivlen ≡ fault))
set_keys_cases_example =
    set_keys_cases cleared.cipher (replicate 16 9) (replicate 12 1) (replicate 12 2) 12
      cleared-HasArrays refl refl refl

set_encryption-Paired_example :
    let s = cleared in
    let r = cleared in
    let key : List ℕ = replicate 16 9 in
    let ours : List ℕ = replicate 16 1 in
    let theirs : List ℕ = replicate 16 2 in
    (s' : Conn) × (r' : Conn) × (set_encryption s key ours theirs 16 ≡ done s')
    × (set_encryption r key theirs ours 16 ≡ done r')
    × Paired s'.cipher r'.cipher
    × Paired r'.cipher s'.cipher
set_encryption-Paired_example =
    set_encryption-Paired cleared cleared (replicate 16 9) (replicate 16 1) (replicate 16 2)
      cleared-HasArrays cleared-HasArrays refl ours-IsBlock theirs-IsBlock
