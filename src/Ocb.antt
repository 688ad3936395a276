-- ===== src/Ocb.antt =====
-- The blocks of lib/mumble/ocb_aes.c. An array of `char` or `uchar` is the list of its bytes; AES is a
-- parameter.
pub mod Blocks
pub mod Shift
pub mod Two
pub mod Three
mod Tests
use mumble_web_demo.Prelude.{
  ℕ, zero, suc, ◌+◌, ◌-◌, ◌/◌, ◌%◌, ◌^◌, ◌≡◌, bit_and, bit_or, bit_xor, List, [], ◌∷◌, ◌++◌,
  if◌then◌else◌, ltb, ◌==◌, get_or, Outcome, done, ◌>>=◌, set, length, take, All, IsByte, u8, ◌<<<◌,
  ◌>>>◌,
}
use mumble_web_demo.Prelude.Memory.{read_at, write_at}

-- AES_BLOCK_SIZE and AES_KEY_SIZE, AES_IV_SIZE
abbrev pub block_size : ℕ
block_size = 16

abbrev pub iv_size : ℕ
iv_size = 12

-- `aes_encrypt` and `aes_decrypt`, which set a key and call OpenSSL.
pub record Aes : Type 0 where
  pub encrypt : List ℕ → List ℕ → List ℕ
  pub decrypt : List ℕ → List ℕ → List ℕ

-- A block: sixteen bytes.
pub record IsBlock (b : List ℕ) : Type 0 where
  pub size : length b ≡ 16
  pub bytes : All IsByte b

-- AES takes blocks to blocks, and decryption undoes encryption.
pub record IsAes (aes : Aes) : Type 0 where
  pub encrypt-IsBlock : (key b : List ℕ) → IsBlock b → IsBlock (aes.encrypt key b)
  pub decrypt-encrypt : (key b : List ℕ) → IsBlock b → aes.decrypt key (aes.encrypt key b) ≡ b

-- `ocb_aes_t`
pub record OcbAes : Type 0 where
  pub key : List ℕ
  pub enc_iv : List ℕ
  pub dec_iv : List ℕ
  pub ivlen : ℕ
  pub taglen : ℕ

-- `ocb_aes_set_keys`; the arrays of the struct have 16 bytes each.
unfoldable pub set_keys : OcbAes → List ℕ → List ℕ → List ℕ → ℕ → Outcome OcbAes
set_keys ctx key enc_iv dec_iv ivlen = do
  k ← read_at key 0 16
  key' ← write_at ctx.key 0 k
  e ← read_at enc_iv 0 ivlen
  enc_iv' ← write_at ctx.enc_iv 0 e
  d ← read_at dec_iv 0 ivlen
  dec_iv' ← write_at ctx.dec_iv 0 d
  done (record { key = key'; enc_iv = enc_iv'; dec_iv = dec_iv'; ivlen = u8 ivlen; taglen = 96 })

-- `xor_block_ex` on arrays that have the bytes.
unfoldable pub xor_block_ex : List ℕ → List ℕ → ℕ → List ℕ
xor_block_ex a b zero = []
xor_block_ex [] b (suc n) = []
xor_block_ex (x ∷ a) [] (suc n) = []
xor_block_ex (x ∷ a) (y ∷ b) (suc n) = bit_xor x y ∷ xor_block_ex a b n

-- `xor_block`
unfoldable pub xor_block : List ℕ → List ℕ → List ℕ
unfolding xor_block_ex
xor_block a b = xor_block_ex a b 16

-- The byte that a round of the loop of `left_shift` stores at `i`, of an array with `inl` bytes.
unfoldable pub shift_byte : List ℕ → ℕ → ℕ → ℕ → ℕ
shift_byte input inl bits i =
    let index = i + bits / 8 in
    let high = u8 (get_or input index 0 <<< (bits % 8)) in
    let low = get_or input (index + 1) 0 >>> (8 - bits % 8) in
    if ltb index inl then (if ltb (index + 1) inl then bit_or high low else high) else 0

-- The rounds of that loop from `i` on, with `left` to go.
unfoldable pub shift_loop : List ℕ → ℕ → ℕ → ℕ → ℕ → List ℕ
unfolding shift_byte
shift_loop input inl bits zero i = []
shift_loop input inl bits (suc left) i =
    shift_byte input inl bits i ∷ shift_loop input inl bits left (i + 1)

-- `left_shift`
unfoldable pub left_shift : List ℕ → ℕ → ℕ → List ℕ
unfolding shift_loop
left_shift input inl bits = shift_loop input inl bits inl 0

-- `double_block`
unfoldable pub double_block : List ℕ → List ℕ
unfolding left_shift
double_block input =
    let out = left_shift input 16 1 in
    if bit_and (get_or input 0 0) 0x80 == 0
    then out
    else set out 15 (bit_xor (get_or out 15 0) 0x87)

-- `triple_block`
unfoldable pub triple_block : List ℕ → List ℕ
unfolding xor_block double_block
triple_block input = xor_block input (double_block input)
