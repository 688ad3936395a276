-- ===== src/Ocb/Three/Encrypt.antt =====
-- What `ocb3_aes_encrypt` writes for `out` and `tag`: their sizes, and bytes in both.
use mumble_web_demo.Prelude.{
  ℕ, zero, suc, ◌+◌, ◌-◌, ◌*◌, ◌/◌, ◌%◌, ◌≤◌, ◌<◌, ◌≡◌, refl, ◌∙◌, ap, Bool-cases, inl, inr, List,
  ◌++◌, ltb, ltb→lt, length, take, drop, get_or, bit_and, u8, ◌<<<◌, ◌>>>◌, ◌^◌, All, All-append,
  All-take, All-drop, IsByte, length-append, length-take, length-drop, length-set, arith,
}
use mumble_web_demo.Ocb.{
  Aes, IsAes, IsBlock, OcbAes, xor_block, xor_block_ex, left_shift, shift_loop, shift_byte,
}
use mumble_web_demo.Ocb.Blocks.{
  xor_block-IsBlock, double_block-IsBlock, length-xor, bytes-xor, get_or-byte, set-bytes,
}
use mumble_web_demo.Bits.{bit_or-lt, bit_and-lt}
use native.Mathlib.Nat.{div-le_self}
use mumble_web_demo.Ocb.Three.{
  zero_block, ntz, Schedule, Chain, bump, nonce_init, stretch_init, ktop_init, offset_init,
  keyvar_init, compute_tag, encrypt_block, encrypt_block_final, encrypt_loop, encrypt,
}
use mumble_web_demo.Ocb.Three.Types.{
  take-IsBlock, zero_block-IsBlock, bump-IsBlock, IsChain, keyvar-IsBlock, hash-IsBlock,
  pad_block-IsBlock, key-IsBlock,
}

nonce-IsBlock :
    (ctx : OcbAes) → 12 ≤ length ctx.enc_iv → All IsByte ctx.enc_iv → IsBlock (nonce_init ctx)
unfolding nonce_init
nonce-IsBlock ctx long h = record {
  size = omega (arith, length-take 12 ctx.enc_iv);
  bytes =
      (omega arith, (omega arith, (omega arith, (omega arith, All-take IsByte 12 ctx.enc_iv h))));
}

shift_byte-byte : (xs : List ℕ) (size bits i : ℕ) → All IsByte xs → shift_byte xs size bits i < 256
unfolding shift_byte
shift_byte-byte xs size bits i h =
    let high = u8 (get_or xs (i + bits / 8) 0 <<< (bits % 8)) in
    let b = get_or xs (i + bits / 8 + 1) 0 in
    let low = b >>> (8 - bits % 8) in
    let small : low < 256 =
      omega (arith, get_or-byte xs (i + bits / 8 + 1) h, div-le_self b (2 ^ (8 - bits % 8))) in
    ground (arith, bit_or-lt 8 high low (omega arith) small)

shift_loop-bytes :
    (xs : List ℕ) (size bits left i : ℕ)
    → All IsByte xs
    → All IsByte (shift_loop xs size bits left i) × (length (shift_loop xs size bits left i) ≡ left)
unfolding shift_loop
shift_loop-bytes xs size bits zero i h = (tt, refl)
shift_loop-bytes xs size bits (suc left) i h =
    let rest = shift_loop-bytes xs size bits left (i + 1) h in
    ((shift_byte-byte xs size bits i h, rest.0), ap suc rest.1)

-- `n` bytes.
abbrev pub IsBytes : List ℕ → ℕ → Type 0
IsBytes out n = (length out ≡ n) × All IsByte out

joined : (a b : List ℕ) (n m k : ℕ) → IsBytes a n → IsBytes b m → n + m ≡ k → IsBytes (a ++ b) k
joined a b n m k ha hb e =
    (omega (arith, length-append a b, ha.0, hb.0), All-append IsByte a b ha.1 hb.1)

module _ (aes : Aes) (laws : IsAes aes) (ctx : OcbAes) where
  ktop-IsBlock : (nonce : List ℕ) → IsBlock nonce → IsBlock (ktop_init aes ctx nonce)
  unfolding ktop_init
  ktop-IsBlock nonce h =
      let masked = bit_and (get_or nonce 15 0) 0xC0 in
      let small : masked < 256 =
        bit_and-lt 8 (get_or nonce 15 0) 0xC0 (get_or-byte nonce 15 h.bytes) in
      laws.encrypt-IsBlock ctx.key _ (record {
        size = length-set nonce 15 masked ∙ h.size;
        bytes = set-bytes nonce 15 masked small h.bytes;
      })

  stretch-IsBytes : (ktop : List ℕ) → IsBlock ktop → IsBytes (stretch_init ktop) 24
  unfolding stretch_init
  stretch-IsBytes ktop h =
      let low = xor_block_ex ktop (drop 1 ktop) 8 in
      let size =
        length-xor 8 ktop (drop 1 ktop) (omega (arith, h.size))
          (omega (arith, length-drop 1 ktop, h.size)) in
      (
        omega (arith, length-append ktop low, size, h.size),
        All-append IsByte ktop low h.bytes
            (bytes-xor 8 ktop (drop 1 ktop) h.bytes (All-drop IsByte 1 ktop h.bytes)),
      )

  pub offset-IsBlock :
      12 ≤ length ctx.enc_iv → All IsByte ctx.enc_iv → IsBlock (offset_init aes ctx)
  unfolding offset_init left_shift
  offset-IsBlock long iv =
      let nonce = nonce-IsBlock ctx long iv in
      let stretch = stretch-IsBytes _ (ktop-IsBlock (nonce_init ctx) nonce) in
      let bottom = bit_and (get_or (nonce_init ctx) 15 0) 0x1F in
      let shifted =
        shift_loop-bytes (stretch_init (ktop_init aes ctx (nonce_init ctx))) 24 bottom 24 0
          stretch.1 in
      let out = shift_loop (stretch_init (ktop_init aes ctx (nonce_init ctx))) 24 bottom 24 0 in
      take-IsBlock out (omega (arith, shifted.1)) shifted.0

  tag-IsBlock :
      (checksum offset plain : List ℕ)
      → IsBlock checksum
      → IsBlock offset
      → All IsByte plain
      → IsBlock (compute_tag aes ctx checksum offset plain)
  unfolding compute_tag
  tag-IsBlock checksum offset plain c o p =
      let masked =
        xor_block-IsBlock _ _ (xor_block-IsBlock checksum offset c o)
          (double_block-IsBlock _ (key-IsBlock aes laws ctx)) in
      xor_block-IsBlock _ _ (hash-IsBlock aes laws ctx plain p)
        (laws.encrypt-IsBlock ctx.key _ masked)

  pub encrypt_block_lem :
      (block keyvar : List ℕ) (c : Chain)
      → IsBlock block
      → IsBlock keyvar
      → IsChain c
      → IsBlock (encrypt_block aes ctx block keyvar c).0
        × IsChain (encrypt_block aes ctx block keyvar c).1
  unfolding encrypt_block
  encrypt_block_lem block keyvar c b k h =
      let offset = xor_block-IsBlock c.offset keyvar h.offset k in
      let cipher = laws.encrypt-IsBlock ctx.key _ (xor_block-IsBlock block _ b offset) in
      (
        xor_block-IsBlock _ _ offset cipher,
        record { offset = offset; sum = xor_block-IsBlock c.sum block h.sum b },
      )

  -- The whole blocks of the input.
  pub encrypt_loop_lem :
      (blocks i : ℕ) (input : List ℕ) (s : Schedule) (c : Chain)
      → blocks * 16 ≤ length input
      → All IsByte input
      → IsBlock s.keyvar
      → IsChain c
      → IsBytes (encrypt_loop aes ctx blocks i input s c).0 (blocks * 16)
        × IsChain (encrypt_loop aes ctx blocks i input s c).1
  unfolding encrypt_loop
  encrypt_loop_lem zero i input s c room bytes k h = ((refl, tt), h)
  encrypt_loop_lem (suc blocks) i input s c room bytes k h =
      let k' = bump-IsBlock i s k in
      let block = take-IsBlock input (omega arith) bytes in
      let first = encrypt_block_lem (take 16 input) (bump i s).keyvar c block k' h in
      let out = (encrypt_block aes ctx (take 16 input) (bump i s).keyvar c).0 in
      let rest =
        encrypt_loop_lem blocks (i + 1) (drop 16 input) (bump i s) _
          (omega (arith, length-drop 16 input)) (All-drop IsByte 16 input bytes) k' first.1 in
      (joined out _ 16 (blocks * 16) _ (first.0.size, first.0.bytes) rest.0 (omega arith), rest.1)

  encrypt_block_final_lem :
      (block plain : List ℕ) (c : Chain)
      → length block ≤ 15
      → All IsByte block
      → All IsByte plain
      → IsChain c
      → IsBytes (encrypt_block_final aes ctx block plain c).0 (length block)
        × IsBlock (encrypt_block_final aes ctx block plain c).1
  unfolding encrypt_block_final
  encrypt_block_final_lem block plain c short b p h =
      let offset = xor_block-IsBlock _ c.offset (key-IsBlock aes laws ctx) h.offset in
      let next = xor_block (aes.encrypt ctx.key zero_block) c.offset in
      let pad = laws.encrypt-IsBlock ctx.key next offset in
      let sum = xor_block-IsBlock c.sum _ h.sum (pad_block-IsBlock aes laws ctx block short b) in
      elim (Bool-cases (ltb 0 (length block))) [
        | inl some_left ↦
            rw (encrypt_block_final, some_left)
              (
                (
                  length-xor (length block) (aes.encrypt ctx.key next) block
                      (omega (arith, pad.size)) (omega arith),
                  bytes-xor (length block) (aes.encrypt ctx.key next) block pad.bytes b,
                ),
                tag-IsBlock _ _ plain sum offset p,
              )
        | inr none_left ↦
            rw (encrypt_block_final, none_left)
              (
                (ground (arith, ltb→lt 0 (length block)), tt),
                tag-IsBlock c.sum c.offset plain h.sum h.offset p,
              )
      ]

  -- For a nonce, an input and associated data that are bytes, `ocb3_aes_encrypt` writes as many bytes
  -- as the input has, and its tag is a block of sixteen bytes.
  pub encrypt-IsBytes :
      (input plain : List ℕ)
      → 12 ≤ length ctx.enc_iv
      → All IsByte ctx.enc_iv
      → All IsByte input
      → All IsByte plain
      → IsBytes (encrypt aes ctx input plain).0 (length input)
        × IsBlock (encrypt aes ctx input plain).1
  unfolding encrypt
  encrypt-IsBytes input plain long iv b p =
      let blocks = length input / 16 in
      let whole =
        encrypt_loop_lem blocks 0 input (record { keyvar = keyvar_init aes ctx; log2 = ntz 0 })
          (record { offset = offset_init aes ctx; sum = zero_block }) (omega arith) b
          (keyvar-IsBlock aes laws ctx)
          (record { offset = offset-IsBlock long iv; sum = zero_block-IsBlock }) in
      let left = drop (blocks * 16) input in
      let last =
        encrypt_block_final_lem left plain _ (omega (arith, length-drop (blocks * 16) input))
          (All-drop IsByte (blocks * 16) input b) p whole.1 in
      (
        joined _ _ (blocks * 16) (length left) _ whole.0 last.0
            (omega (arith, length-drop (blocks * 16) input)),
        last.1,
      )
