-- ===== src/Ocb/Three/Types.antt =====
-- The blocks and the bytes of OCB3, function by function.
use mumble_web_demo.Prelude.{
  ℕ, zero, suc, ◌+◌, ◌-◌, ◌*◌, ◌/◌, ◌≤◌, refl, Bool-cases, inl, inr, List, ◌∷◌, ltb, length, take,
  drop, replicate, All, All-append, All-take, All-drop, IsByte, length-append, length-take,
  length-drop, length-replicate, arith,
}
use mumble_web_demo.Ocb.{Aes, IsAes, IsBlock, OcbAes}
use mumble_web_demo.Ocb.Blocks.{xor_block-IsBlock, double_block-IsBlock}
use mumble_web_demo.Ocb.Three.{
  zero_block, ntz, Schedule, Chain, bump, keyvar_init, hash_block, pad_block, hash_block_final,
  hash_loop, hash_plaintext,
}

pub zero_block-IsBlock : IsBlock zero_block
zero_block-IsBlock = record { size = refl; bytes = ground arith }

pub take-IsBlock : (xs : List ℕ) → 16 ≤ length xs → All IsByte xs → IsBlock (take 16 xs)
take-IsBlock xs long h = record {
  size = omega (arith, length-take 16 xs);
  bytes = All-take IsByte 16 xs h;
}

zeros-bytes : (n : ℕ) → All IsByte (replicate n 0)
zeros-bytes zero = tt
zeros-bytes (suc n) = (omega arith, zeros-bytes n)

-- Both blocks of a chain.
pub record IsChain (c : Chain) : Type 0 where
  pub offset : IsBlock c.offset
  pub sum : IsBlock c.sum

pub bump-IsBlock : (i : ℕ) (s : Schedule) → IsBlock s.keyvar → IsBlock (bump i s).keyvar
unfolding bump
bump-IsBlock i s h = elim (Bool-cases (ltb s.log2 (ntz i))) [
  | inl more ↦ rw more (double_block-IsBlock s.keyvar h)
  | inr same ↦ rw same h
]

module _ (aes : Aes) (laws : IsAes aes) (ctx : OcbAes) where
  pub pad_block-IsBlock :
      (bytes : List ℕ) → length bytes ≤ 15 → All IsByte bytes → IsBlock (pad_block aes ctx bytes)
  unfolding pad_block
  pad_block-IsBlock bytes short h = record {
    size = omega (
      arith,
      length-append bytes (0x80 ∷ replicate (15 - length bytes) 0),
      length-replicate {A = ℕ} (15 - length bytes) 0,
    );
    bytes =
        All-append IsByte bytes (0x80 ∷ replicate (15 - length bytes) 0) h
          (omega arith, zeros-bytes (15 - length bytes));
  }

  pub key-IsBlock : IsBlock (aes.encrypt ctx.key zero_block)
  key-IsBlock = laws.encrypt-IsBlock ctx.key zero_block zero_block-IsBlock

  pub keyvar-IsBlock : IsBlock (keyvar_init aes ctx)
  unfolding keyvar_init
  keyvar-IsBlock = double_block-IsBlock _ (double_block-IsBlock _ key-IsBlock)

  hash_block-IsChain :
      (plaintext keyvar : List ℕ) (c : Chain)
      → IsBlock plaintext
      → IsBlock keyvar
      → IsChain c
      → IsChain (hash_block aes ctx plaintext keyvar c)
  unfolding hash_block
  hash_block-IsChain plaintext keyvar c p k h =
      let offset = xor_block-IsBlock c.offset keyvar h.offset k in
      record {
        offset = offset;
        sum =
            xor_block-IsBlock _ c.sum
              (laws.encrypt-IsBlock ctx.key _ (xor_block-IsBlock plaintext _ p offset)) h.sum;
      }

  -- Whole blocks, from byte `i` of the plaintext on.
  hash_loop-IsChain :
      (blocks i : ℕ) (plaintext : List ℕ) (s : Schedule) (c : Chain)
      → i + blocks * 16 ≤ length plaintext
      → All IsByte plaintext
      → IsBlock s.keyvar
      → IsChain c
      → IsChain (hash_loop aes ctx blocks i plaintext s c)
  unfolding hash_loop
  hash_loop-IsChain zero i plaintext s c room bytes k h = h
  hash_loop-IsChain (suc blocks) i plaintext s c room bytes k h =
      let k' = bump-IsBlock i s k in
      let block =
        take-IsBlock (drop i plaintext) (omega (arith, length-drop i plaintext))
          (All-drop IsByte i plaintext bytes) in
      hash_loop-IsChain blocks (i + 16) plaintext (bump i s) _ (omega arith) bytes k'
        (hash_block-IsChain (take 16 (drop i plaintext)) (bump i s).keyvar c block k' h)

  pub hash-IsBlock :
      (plaintext : List ℕ) → All IsByte plaintext → IsBlock (hash_plaintext aes ctx plaintext)
  unfolding hash_plaintext hash_block_final
  hash-IsBlock plaintext bytes =
      let n = length plaintext in
      let left = n - n / 16 * 16 in
      let start : Chain = record { offset = zero_block; sum = zero_block } in
      let c =
        hash_loop-IsChain (n / 16) 0 plaintext
          (record { keyvar = keyvar_init aes ctx; log2 = ntz 0 }) start (omega arith) bytes
          keyvar-IsBlock (record { offset = zero_block-IsBlock; sum = zero_block-IsBlock }) in
      elim (Bool-cases (ltb 0 left)) [
        | inr whole ↦ rw (hash_plaintext, whole) c.sum
        | inl more ↦
            let pad =
              pad_block-IsBlock (take left plaintext) (omega (arith, length-take left plaintext))
                (All-take IsByte left plaintext bytes) in
            rw (hash_plaintext, more) (hash_block-IsChain _ _ _ pad key-IsBlock c).sum
      ]
