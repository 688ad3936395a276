-- ===== src/Ocb/Three.antt =====
-- OCB3: `ocb3_aes_encrypt` of lib/mumble/ocb_aes.c. An array of `char` or `uchar` is the list of its bytes.
pub mod Encrypt
pub mod Log
pub mod Reveal
pub mod Types
use mumble_web_demo.Prelude.{
  ℕ, zero, suc, ◌+◌, ◌-◌, ◌*◌, ◌/◌, ◌%◌, bit_and, bit_or, List, [], ◌∷◌, ◌++◌, ltb, ◌==◌,
  if◌then◌else◌, length, take, drop, get_or, set, replicate, ◌>>>◌,
}
use mumble_web_demo.Ocb.{
  Aes, OcbAes, block_size, iv_size, xor_block, xor_block_ex, left_shift, double_block,
}

-- `zero_block`
abbrev pub zero_block : List ℕ
zero_block = replicate block_size 0

-- A round of the loop of `ntz` with the mask and the shift of an index, on `i` and `out`.
unfoldable pub ntz_round : ℕ → ℕ → ℕ × ℕ → ℕ × ℕ
ntz_round mask shift (i, out) =
    if bit_and i mask == 0 then (i, out) else (i >>> shift, bit_or out shift)

-- `ntz`, of an `int` that is not negative.
unfoldable pub ntz : ℕ → ℕ
unfolding ntz_round
ntz i =
    (ntz_round 0x2 1
      (ntz_round 0xC 2 (ntz_round 0xF0 4 (ntz_round 0xFF00 8 (ntz_round 0xFFFF0000 16 (i, 0)))))).1

-- What the loops keep from block to block: the key block and `log2`.
pub record Schedule : Type 0 where
  pub keyvar : List ℕ
  pub log2 : ℕ

-- The bump of the offset in front of a block.
unfoldable pub bump : ℕ → Schedule → Schedule
unfolding ntz
bump i s = if ltb s.log2 (ntz i) then record { keyvar = double_block s.keyvar; log2 = ntz i } else s

-- `sum` and `offset` of the hash, `checksum` and `offset` of the encryption.
pub record Chain : Type 0 where
  pub offset : List ℕ
  pub sum : List ℕ

-- `nonce_init`
unfoldable pub nonce_init : OcbAes → List ℕ
nonce_init ctx =
    let prefix = block_size - iv_size - 1 in
    let marked = set zero_block prefix (bit_or (get_or zero_block prefix 0) 0x01) in
    take (block_size - iv_size) marked ++ take iv_size ctx.enc_iv

-- `stretch_init`
unfoldable pub stretch_init : List ℕ → List ℕ
stretch_init ktop = ktop ++ xor_block_ex ktop (drop 1 ktop) 8

module _ (aes : Aes) (ctx : OcbAes) where
  -- `ktop_init`
  unfoldable pub ktop_init : List ℕ → List ℕ
  ktop_init nonce = aes.encrypt ctx.key (set nonce 15 (bit_and (get_or nonce 15 0) 0xC0))

  -- `offset_init`
  unfoldable pub offset_init : List ℕ
  unfolding nonce_init stretch_init ktop_init
  offset_init =
      let nonce = nonce_init ctx in
      let bottom = bit_and (get_or nonce 15 0) 0x1F in
      take 16 (left_shift (stretch_init (ktop_init nonce)) 24 bottom)

  -- `keyvar_init`
  unfoldable pub keyvar_init : List ℕ
  keyvar_init = double_block (double_block (aes.encrypt ctx.key zero_block))

  -- `ocb3_hash_block`
  unfoldable pub hash_block : List ℕ → List ℕ → Chain → Chain
  hash_block plaintext keyvar c =
      let offset_next = xor_block c.offset keyvar in
      let enciphered = aes.encrypt ctx.key (xor_block plaintext offset_next) in
      record { offset = offset_next; sum = xor_block enciphered c.sum }

  -- Fewer than sixteen bytes, 0x80 and zeros.
  unfoldable pub pad_block : List ℕ → List ℕ
  pad_block bytes = bytes ++ (0x80 ∷ replicate (15 - length bytes) 0)

  -- `ocb3_hash_block_final` with `size` bytes left; it takes them from the start of the plaintext.
  unfoldable pub hash_block_final : List ℕ → ℕ → Chain → Chain
  unfolding hash_block pad_block
  hash_block_final plaintext size c =
      hash_block (pad_block (take size plaintext)) (aes.encrypt ctx.key zero_block) c

  -- The loop of `ocb3_hash_plaintext` from the byte `i` on, with the blocks to go.
  unfoldable pub hash_loop : ℕ → ℕ → List ℕ → Schedule → Chain → Chain
  unfolding hash_block bump
  hash_loop zero i plaintext s c = c
  hash_loop (suc blocks) i plaintext s c =
      let s' = bump i s in
      hash_loop blocks (i + 16) plaintext s' (hash_block (take 16 (drop i plaintext)) s'.keyvar c)

  -- `ocb3_hash_plaintext`
  unfoldable pub hash_plaintext : List ℕ → List ℕ
  unfolding hash_loop hash_block_final keyvar_init ntz
  hash_plaintext plaintext =
      let blocks = length plaintext / 16 in
      let c =
        hash_loop blocks 0 plaintext (record { keyvar = keyvar_init; log2 = ntz 0 })
          (record { offset = zero_block; sum = zero_block }) in
      let left = length plaintext - blocks * 16 in
      (if ltb 0 left then hash_block_final plaintext left c else c).sum

  -- `ocb3_compute_tag`
  unfoldable pub compute_tag : List ℕ → List ℕ → List ℕ → List ℕ
  unfolding hash_plaintext
  compute_tag checksum offset plain =
      let keyvar = double_block (aes.encrypt ctx.key zero_block) in
      let enciphered = aes.encrypt ctx.key (xor_block (xor_block checksum offset) keyvar) in
      xor_block (hash_plaintext plain) enciphered

  -- `ocb3_encrypt_block`: the bytes for `out`, with offset and checksum.
  unfoldable pub encrypt_block : List ℕ → List ℕ → Chain → List ℕ × Chain
  encrypt_block block keyvar c =
      let offset_next = xor_block c.offset keyvar in
      let cipher = aes.encrypt ctx.key (xor_block block offset_next) in
      (xor_block offset_next cipher, record { offset = offset_next; sum = xor_block c.sum block })

  -- `ocb3_encrypt_block_final` on the bytes that are left: the bytes for `out`, and the tag.
  unfoldable pub encrypt_block_final : List ℕ → List ℕ → Chain → List ℕ × List ℕ
  unfolding compute_tag pad_block
  encrypt_block_final block plain c =
      let offset_next = xor_block (aes.encrypt ctx.key zero_block) c.offset in
      let pad = aes.encrypt ctx.key offset_next in
      if ltb 0 (length block)
      then (
        xor_block_ex pad block (length block),
        compute_tag (xor_block c.sum (pad_block block)) offset_next plain,
      )
      else ([], compute_tag c.sum c.offset plain)

  -- The loop of `ocb3_aes_encrypt` from the block `i` on, with the blocks to go.
  unfoldable pub encrypt_loop : ℕ → ℕ → List ℕ → Schedule → Chain → List ℕ × Chain
  unfolding encrypt_block bump
  encrypt_loop zero i input s c = ([], c)
  encrypt_loop (suc blocks) i input s c =
      let s' = bump i s in
      let (out, c') = encrypt_block (take 16 input) s'.keyvar c in
      let (outs, c'') = encrypt_loop blocks (i + 1) (drop 16 input) s' c' in (out ++ outs, c'')

  -- `ocb3_aes_encrypt`: what `out` and `tag` hold at the return.
  unfoldable pub encrypt : List ℕ → List ℕ → List ℕ × List ℕ
  unfolding encrypt_loop encrypt_block_final offset_init keyvar_init ntz
  encrypt input plain =
      let blocks = length input / 16 in
      let (outs, c) =
        encrypt_loop blocks 0 input (record { keyvar = keyvar_init; log2 = ntz 0 })
          (record { offset = offset_init; sum = zero_block }) in
      let (last, tag) = encrypt_block_final (drop (blocks * 16) input) plain c in
      (outs ++ last, tag)
