-- ===== src/Ocb/Three/Reveal.antt =====
-- The output of `ocb3_aes_encrypt` read back, block by block, with the offsets that wrote it.
use mumble_web_demo.Prelude.{
  ℕ, zero, suc, ◌+◌, ◌*◌, ◌/◌, ◌≤◌, ◌≡◌, refl, sym, ◌∙◌, ap, Bool-cases, inl, inr, List, [], ◌++◌,
  append_assoc, ltb, length, take, drop, All, All-drop, IsByte, length-take, length-drop,
  take-append, drop-append, take-append-drop, append-nil, drop_all, lt→ltb, arith,
}
use mumble_web_demo.Ocb.{Aes, IsAes, IsBlock, OcbAes, xor_block, xor_block_ex}
use mumble_web_demo.Ocb.Blocks.{xor_block-IsBlock, length-xor, xor_comm, xor_twice, unmask}
use mumble_web_demo.Ocb.Three.{
  zero_block, ntz, Schedule, Chain, bump, offset_init, keyvar_init, encrypt_block,
  encrypt_block_final, encrypt_loop, encrypt,
}
use mumble_web_demo.Ocb.Three.Types.{
  take-IsBlock, zero_block-IsBlock, bump-IsBlock, IsChain, keyvar-IsBlock, key-IsBlock,
}
use mumble_web_demo.Ocb.Three.Encrypt.{
  encrypt_block_lem, encrypt_loop_lem, encrypt-IsBytes, offset-IsBlock,
}

module _ (aes : Aes) (ctx : OcbAes) where
  -- A block of the output and its offset give the block of the input.
  uncover : List ℕ → List ℕ → List ℕ
  uncover offset out = xor_block offset (aes.decrypt ctx.key (xor_block out offset))

  -- The whole blocks, from the block `i` on, and the offset behind them.
  reveal_loop : ℕ → ℕ → List ℕ → Schedule → List ℕ → List ℕ × List ℕ
  unfolding uncover
  reveal_loop zero i out s offset = ([], offset)
  reveal_loop (suc blocks) i out s offset =
      let s' = bump i s in
      let next = xor_block offset s'.keyvar in
      let (ins, end) = reveal_loop blocks (i + 1) (drop 16 out) s' next in
      (uncover next (take 16 out) ++ ins, end)

  -- The bytes behind them.
  reveal_final : List ℕ → List ℕ → List ℕ
  reveal_final out offset =
      xor_block_ex (aes.encrypt ctx.key (xor_block (aes.encrypt ctx.key zero_block) offset)) out
        (length out)

  -- The input, from the key, the nonce and the output alone.
  reveal : List ℕ → List ℕ
  unfolding reveal_loop reveal_final
  reveal out =
      let blocks = length out / 16 in
      let (ins, end) =
        reveal_loop blocks 0 out (record { keyvar = keyvar_init aes ctx; log2 = ntz 0 })
          (offset_init aes ctx) in
      ins ++ reveal_final (drop (blocks * 16) out) end

take_more :
    (k : ℕ) (input : List ℕ)
    → 16 ≤ length input
    → take 16 input ++ take k (drop 16 input) ≡ take (16 + k) input
take_more k input h =
    sym
      (take-append (16 + k) k (take 16 input) (drop 16 input) (omega (arith, length-take 16 input)))
    ∙ ap (λ t. take (16 + k) t) (take-append-drop 16 input)

module _ (aes : Aes) (laws : IsAes aes) (ctx : OcbAes) where
  uncover_lem :
      (block keyvar : List ℕ) (c : Chain)
      → IsBlock block
      → IsBlock keyvar
      → IsChain c
      → uncover aes ctx (xor_block c.offset keyvar) (encrypt_block aes ctx block keyvar c).0 ≡ block
  unfolding uncover encrypt_block
  uncover_lem block keyvar c b k h =
      let offset = xor_block-IsBlock c.offset keyvar h.offset k in
      let o = xor_block c.offset keyvar in
      let masked = xor_block-IsBlock block o b offset in
      let cipher = laws.encrypt-IsBlock ctx.key (xor_block block o) masked in
      rw
        (
          (unmask o (aes.encrypt ctx.key (xor_block block o)) offset cipher).1,
          laws.decrypt-encrypt ctx.key (xor_block block o) masked,
          (unmask o block offset b).0,
        )
        refl

  -- A round from its parts.
  revealed :
      (blocks i : ℕ) (s : Schedule) {block ins whole end : List ℕ} (x y out outs next : List ℕ)
      → x ≡ out
      → y ≡ outs
      → uncover aes ctx next out ≡ block
      → reveal_loop aes ctx blocks i outs s next ≡ (ins, end)
      → block ++ ins ≡ whole
      → ◌≡◌ {A = List ℕ × List ℕ}
          (
            uncover aes ctx next x ++ (reveal_loop aes ctx blocks i y s next).0,
            (reveal_loop aes ctx blocks i y s next).1,
          )
          (whole, end)
  revealed blocks i s x y out outs next ex ey uncovered later joined =
      rw (ex, ey, uncovered, later, joined) refl

  reveal_loop_lem :
      (blocks i : ℕ) (input : List ℕ) (s : Schedule) (c : Chain) (rest : List ℕ)
      → blocks * 16 ≤ length input
      → All IsByte input
      → IsBlock s.keyvar
      → IsChain c
      → reveal_loop aes ctx blocks i
          ((encrypt_loop aes ctx blocks i input s c).0 ++ rest)
          s
          c.offset
        ≡ (take (blocks * 16) input, (encrypt_loop aes ctx blocks i input s c).1.offset)
  unfolding reveal_loop encrypt_loop
  reveal_loop_lem zero i input s c rest room bytes k h = refl
  reveal_loop_lem (suc blocks) i input s c rest room bytes k h =
      let k' = bump-IsBlock i s k in
      let block = take-IsBlock input (omega arith) bytes in
      let keyvar = (bump i s).keyvar in
      let first = encrypt_block_lem aes laws ctx (take 16 input) keyvar c block k' h in
      let out = (encrypt_block aes ctx (take 16 input) keyvar c).0 in
      let c' = (encrypt_block aes ctx (take 16 input) keyvar c).1 in
      let outs = (encrypt_loop aes ctx blocks (i + 1) (drop 16 input) (bump i s) c').0 in
      let next = xor_block c.offset keyvar in
      let split : (out ++ outs) ++ rest ≡ out ++ (outs ++ rest) = append_assoc out outs rest in
      let front : take 16 ((out ++ outs) ++ rest) ≡ out =
        ap (λ t. take 16 t) split
        ∙ take-append 16 0 out (outs ++ rest) (omega (arith, first.0.size))
        ∙ append-nil out in
      let back : drop 16 ((out ++ outs) ++ rest) ≡ outs ++ rest =
        ap (λ t. drop 16 t) split
        ∙ drop-append 16 0 out (outs ++ rest) (omega (arith, first.0.size)) in
      let later =
        reveal_loop_lem blocks (i + 1) (drop 16 input) (bump i s) c' rest
          (omega (arith, length-drop 16 input)) (All-drop IsByte 16 input bytes) k' first.1 in
      revealed blocks (i + 1) (bump i s) (take 16 ((out ++ outs) ++ rest))
        (drop 16 ((out ++ outs) ++ rest)) out (outs ++ rest) next front back
        (uncover_lem (take 16 input) keyvar c block k' h) later
        (take_more (blocks * 16) input (omega arith) ∙ ap (λ t. take t input) (omega arith))

  reveal_final_lem :
      (block plain : List ℕ) (c : Chain)
      → length block ≤ 15
      → IsChain c
      → reveal_final aes ctx (encrypt_block_final aes ctx block plain c).0 c.offset ≡ block
  unfolding reveal_final encrypt_block_final xor_block_ex
  reveal_final_lem block plain c short h =
      let offset = xor_block-IsBlock _ c.offset (key-IsBlock aes laws ctx) h.offset in
      let pad = aes.encrypt ctx.key (xor_block (aes.encrypt ctx.key zero_block) c.offset) in
      let p = laws.encrypt-IsBlock ctx.key _ offset in
      let n = length block in
      let size = length-xor n pad block (omega (arith, p.size)) (omega arith) in
      let twice : xor_block_ex pad (xor_block_ex pad block n) n ≡ block =
        ap (λ t. xor_block_ex pad t n) (xor_comm n pad block)
        ∙ xor_comm n pad (xor_block_ex block pad n)
        ∙ xor_twice n block pad refl (omega (arith, p.size)) in
      elim (Bool-cases (ltb 0 (length block))) [
        | inl some_left ↦ rw (encrypt_block_final, some_left, size) twice
        | inr none_left ↦
            rw (encrypt_block_final, none_left)
              (sym (drop_all 0 block (ground (arith, lt→ltb 0 (length block)))))
      ]

  reveal-encrypt :
      (input plain : List ℕ)
      → 12 ≤ length ctx.enc_iv
      → All IsByte ctx.enc_iv
      → All IsByte input
      → All IsByte plain
      → reveal aes ctx (encrypt aes ctx input plain).0 ≡ input
  unfolding reveal encrypt
  reveal-encrypt input plain long iv b p =
      let blocks = length input / 16 in
      let s : Schedule = record { keyvar = keyvar_init aes ctx; log2 = ntz 0 } in
      let c : Chain = record { offset = offset_init aes ctx; sum = zero_block } in
      let chain : IsChain c = record {
        offset = offset-IsBlock aes laws ctx long iv;
        sum = zero_block-IsBlock;
      } in
      let left = drop (blocks * 16) input in
      let whole =
        encrypt_loop_lem aes laws ctx blocks 0 input s c (omega arith) b
          (keyvar-IsBlock aes laws ctx) chain in
      let outs = (encrypt_loop aes ctx blocks 0 input s c).0 in
      let end = (encrypt_loop aes ctx blocks 0 input s c).1 in
      let last = (encrypt_block_final aes ctx left plain end).0 in
      let size : length (outs ++ last) ≡ length input =
        (encrypt-IsBytes aes laws ctx input plain long iv b p).0.0 in
      let front =
        reveal_loop_lem blocks 0 input s c last (omega arith) b (keyvar-IsBlock aes laws ctx)
          chain in
      let back : drop (blocks * 16) (outs ++ last) ≡ last =
        drop-append (blocks * 16) 0 outs last (omega (arith, whole.0.0)) in
      let final =
        reveal_final_lem left plain end (omega (arith, length-drop (blocks * 16) input)) whole.1 in
      rw (size, front, back, final) (take-append-drop (blocks * 16) input)

  -- For one key and one nonce of bytes, two inputs of bytes for which `ocb3_aes_encrypt` writes the same are the same,
  -- whatever is authenticated with them.
  pub encrypt-injective :
      (input input' plain plain' : List ℕ)
      → 12 ≤ length ctx.enc_iv
      → All IsByte ctx.enc_iv
      → All IsByte input
      → All IsByte input'
      → All IsByte plain
      → All IsByte plain'
      → (encrypt aes ctx input plain).0 ≡ (encrypt aes ctx input' plain').0
      → input ≡ input'
  encrypt-injective input input' plain plain' long iv b b' p p' same =
      sym (reveal-encrypt input plain long iv b p)
      ∙ ap (λ t. reveal aes ctx t) same
      ∙ reveal-encrypt input' plain' long iv b' p'
