-- ===== src/Ocb/Tests.antt =====
-- Runs of OCB2, with a cipher that leaves blocks as they are.
use mumble_web_demo.Prelude.{
  ◌<◌, ◌^◌, ◌≤◌, suc, ℕ, ◌*◌, ◌^◌, ◌%◌, ◌≡◌, ◌==◌, false, get_or, refl, List, [], ◌∷◌, ◌++◌,
  replicate, length, All, IsByte, arith,
}
use mumble_web_demo.Ocb.Three
use mumble_web_demo.Ocb.Three.{ntz}
use mumble_web_demo.Ocb.Three.Log.{ntz-bounds}
use mumble_web_demo.Ocb.Three.Reveal.{encrypt-injective}
use mumble_web_demo.Ocb.Three.Encrypt.{IsBytes, encrypt-IsBytes}
use mumble_web_demo.Ocb.{
  Aes, IsAes, IsBlock, OcbAes, xor_block, triple_block, double_block, left_shift,
}
use mumble_web_demo.Ocb.Shift.{be_value, be_value-left_shift}
use mumble_web_demo.Ocb.Two.{encrypt, decrypt}
use mumble_web_demo.Ocb.Two.Laws.{decrypt-encrypt, tag-decrypt}

abbrev plain_aes : Aes
plain_aes = record { encrypt = λ key b. b; decrypt = λ key b. b }

plain_laws : IsAes plain_aes
plain_laws = record { encrypt-IsBlock = λ key b h. h; decrypt-encrypt = λ key b h. refl }

abbrev sender : OcbAes
sender = record {
  key = [];
  enc_iv = replicate 16 0x81;
  dec_iv = replicate 16 7;
  ivlen = 16;
  taglen = 96;
}

abbrev receiver : OcbAes
receiver = record {
  key = [];
  enc_iv = replicate 16 7;
  dec_iv = replicate 16 0x81;
  ivlen = 16;
  taglen = 96;
}

iv-IsBlock : IsBlock (replicate 16 0x81)
iv-IsBlock = record { size = refl; bytes = ground arith }

shift_by_ten : left_shift (0x81 ∷ 0x42 ∷ 0xc3 ∷ []) 3 10 ≡ 0x0b ∷ 0x0c ∷ 0 ∷ []
unfolding left_shift
shift_by_ten = refl

double_carry :
    double_block (replicate 16 0x81)
    ≡ 3 ∷ 3 ∷ 3 ∷ 3 ∷ 3 ∷ 3 ∷ 3 ∷ 3 ∷ 3 ∷ 3 ∷ 3 ∷ 3 ∷ 3 ∷ 3 ∷ 3 ∷ 0x85 ∷ []
unfolding double_block
double_carry = refl

-- The tags of both ends differ on three bytes.
tags_differ :
    (get_or (encrypt plain_aes sender (1 ∷ 2 ∷ 3 ∷ [])).tag 0 0
      == get_or
          (decrypt plain_aes receiver (encrypt plain_aes sender (1 ∷ 2 ∷ 3 ∷ [])).out).tag
          0
          0)
    ≡ false
unfolding encrypt decrypt xor_block triple_block
tags_differ = refl

sixteen : All IsByte (replicate 16 5)
sixteen = ground arith

decrypt-encrypt_example :
    let aes = plain_aes in
    let m : List ℕ = 1 ∷ 2 ∷ 3 ∷ [] in (decrypt aes receiver (encrypt aes sender m).out).out ≡ m
decrypt-encrypt_example =
    decrypt-encrypt plain_aes plain_laws sender receiver (1 ∷ 2 ∷ 3 ∷ []) refl refl iv-IsBlock
      (omega arith, (omega arith, (omega arith, tt)))

tag-decrypt_example :
    let aes = plain_aes in
    let m : List ℕ = replicate 16 5 in
    (decrypt aes receiver (encrypt aes sender m).out).tag ≡ (encrypt aes sender m).tag
tag-decrypt_example =
    tag-decrypt plain_aes plain_laws sender receiver (replicate 16 5) refl refl iv-IsBlock sixteen
      refl

be_value-left_shift_example :
    let xs : List ℕ = 0x81 ∷ 0x42 ∷ [] in
    be_value (left_shift xs (length xs) 1) ≡ (2 * be_value xs) % 256 ^ length xs
be_value-left_shift_example =
    be_value-left_shift (0x81 ∷ 0x42 ∷ []) (omega arith, (omega arith, tt))

ntz-bounds_example : let i : ℕ = 12 in (2 ^ ntz i ≤ i) × (i < 2 ^ suc (ntz i))
ntz-bounds_example = ntz-bounds 12 (omega arith) (omega arith)

-- Nineteen bytes, a block and three, with a name of five.
encrypt-IsBytes_example :
    IsBytes (Three.encrypt plain_aes sender (replicate 19 0x5a) (replicate 5 1)).0 19
    × IsBlock (Three.encrypt plain_aes sender (replicate 19 0x5a) (replicate 5 1)).1
encrypt-IsBytes_example =
    encrypt-IsBytes plain_aes plain_laws sender (replicate 19 0x5a) (replicate 5 1) (omega arith)
      iv-IsBlock.bytes (ground arith) (ground arith)

-- Eighteen bytes, with two names.
abbrev spoken : List ℕ
spoken = replicate 16 0x5a ++ (1 ∷ 2 ∷ [])

same_out :
    (Three.encrypt plain_aes sender spoken (1 ∷ [])).0
    ≡ (Three.encrypt plain_aes sender spoken []).0
unfolding Three.encrypt
same_out = refl

encrypt-injective_example : spoken ≡ replicate 16 0x5a ++ (1 ∷ 2 ∷ [])
encrypt-injective_example =
    encrypt-injective plain_aes plain_laws sender spoken (replicate 16 0x5a ++ (1 ∷ 2 ∷ []))
      (1 ∷ []) [] (omega arith) iv-IsBlock.bytes (ground arith) (ground arith) (ground arith) tt
      same_out
