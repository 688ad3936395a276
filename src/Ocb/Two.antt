-- ===== src/Ocb/Two.antt =====
-- OCB2: `ocb2_aes_encrypt` and `ocb2_aes_decrypt` of lib/mumble/ocb_aes.c.
pub mod Rounds
pub mod Memory
pub mod Laws
use mumble_web_demo.Prelude.{
  ℕ, zero, suc, ◌*◌, ◌/◌, List, [], ◌∷◌, ◌++◌, length, take, drop, replicate, u8, leb, Outcome,
  done, ◌>>=◌, ◌>>◌, in_range,
}
use mumble_web_demo.Prelude.Int.{ℤ, pos, pos_part, ◌-ℤ◌}
use mumble_web_demo.Prelude.Signed.{uchar}
use mumble_web_demo.Prelude.Memory.{read_at, write_at}
use mumble_web_demo.Ocb.{Aes, OcbAes, xor_block, xor_block_ex, double_block, triple_block}

-- `delta` and `checksum`, which the functions on blocks update.
pub record State : Type 0 where
  pub delta : List ℕ
  pub checksum : List ℕ

-- Bytes written to `out`, and the state behind.
pub record Step : Type 0 where
  pub out : List ℕ
  pub state : State

-- What `out` and `tag` hold at the return.
pub record Result : Type 0 where
  pub out : List ℕ
  pub tag : List ℕ

module _ (aes : Aes) (key : List ℕ) where
  -- `ocb2_encrypt_block`
  unfoldable pub encrypt_block : List ℕ → State → Step
  encrypt_block input s =
      let delta_new = double_block s.delta in
      let encrypted = aes.encrypt key (xor_block delta_new input) in
      record {
        out = xor_block encrypted delta_new;
        state = record { delta = delta_new; checksum = xor_block s.checksum input };
      }

  -- `ocb2_decrypt_block`
  unfoldable pub decrypt_block : List ℕ → State → Step
  decrypt_block input s =
      let delta_new = double_block s.delta in
      let deciphered = aes.decrypt key (xor_block delta_new input) in
      let out = xor_block deciphered delta_new in
      record {
        out = out;
        state = record { delta = delta_new; checksum = xor_block s.checksum out };
      }

  -- `n` rounds of a loop over blocks.
  unfoldable pub rounds : (List ℕ → State → Step) → ℕ → List ℕ → State → Step
  rounds block zero input s = record { out = []; state = s }
  rounds block (suc n) input s =
      let here = block (take 16 input) s in
      let later = rounds block n (drop 16 input) here.state in
      record { out = here.out ++ later.out; state = later.state }

  -- `ocb2_encrypt_block_final` on all of a list, where it has less than 16 bytes. `pad` keeps its bytes from
  -- `inl` on.
  unfoldable pub encrypt_block_final : List ℕ → State → Result
  encrypt_block_final input s =
      let inl = u8 (length input) in
      let delta_new = double_block s.delta in
      let zero_and_size = replicate 15 0 ++ (u8 (inl * 8) ∷ []) in
      let pad = aes.encrypt key (xor_block zero_and_size delta_new) in
      let checksum_new = xor_block (take inl input ++ drop inl pad) s.checksum in
      let tag_in = xor_block (triple_block delta_new) checksum_new in
      record { out = xor_block_ex input pad inl; tag = aes.encrypt key tag_in }

  -- The bodies of the two functions, given the initial `delta`.
  unfoldable pub run : (List ℕ → State → Step) → List ℕ → List ℕ → Result
  unfolding rounds encrypt_block_final
  run block delta input =
      let n = length input / 16 in
      let whole = rounds block n input (record { delta = delta; checksum = replicate 16 0 }) in
      let last = encrypt_block_final (drop (n * 16) input) whole.state in
      record { out = whole.out ++ last.out; tag = last.tag }

  -- `ocb2_encrypt_block_final` from the array `pad` on, which has 32 bytes, with the memory from `in` on.
  unfoldable pub join_final : List ℕ → List ℕ → ℕ → State → Outcome Result
  join_final pad input inl s = do
    mask ← read_at pad 0 inl
    message ← read_at input 0 inl
    padded ← write_at pad 0 message
    let tag_in = xor_block (triple_block (double_block s.delta)) (xor_block padded s.checksum)
    done (record { out = xor_block_ex message mask inl; tag = aes.encrypt key tag_in })

  -- `ocb2_encrypt_block_final`: `inl` is an `int` that becomes an `uchar`; `unset` is what the second half of
  -- `pad` holds, which nothing sets.
  unfoldable pub encrypt_final_bytes : List ℕ → List ℕ → ℤ → State → Outcome Result
  unfolding join_final
  encrypt_final_bytes unset input len s =
      let inl = uchar len in
      let zero_and_size = replicate 15 0 ++ (u8 (inl * 8) ∷ []) in
      let pad = aes.encrypt key (xor_block zero_and_size (double_block s.delta)) ++ unset in
      join_final pad input inl s

-- `ocb2_aes_decrypt` on the memory from `in` on, of `inl` bytes. `inl / AES_BLOCK_SIZE` is cut off towards 0.
unfoldable pub decrypt_bytes : Aes → OcbAes → List ℕ → List ℕ → ℤ → Outcome Result
unfolding rounds decrypt_block encrypt_final_bytes
decrypt_bytes aes ctx unset input inl = do
  let n = pos_part inl / 16
  let delta = aes.encrypt ctx.key ctx.dec_iv
  in_range (leb (n * 16) (length input))
  let whole =
      rounds aes ctx.key (decrypt_block aes ctx.key) n input
        (record { delta = delta; checksum = replicate 16 0 })
  last ←
      encrypt_final_bytes aes ctx.key unset (drop (n * 16) input) (inl -ℤ pos (n * 16)) whole.state
  done (record { out = whole.out ++ last.out; tag = last.tag })

-- `ocb2_aes_encrypt`
unfoldable pub encrypt : Aes → OcbAes → List ℕ → Result
unfolding run encrypt_block
encrypt aes ctx input =
    run aes ctx.key (encrypt_block aes ctx.key) (aes.encrypt ctx.key ctx.enc_iv) input

-- `ocb2_aes_decrypt` on all of a list, which also ends in `ocb2_encrypt_block_final`.
unfoldable pub decrypt : Aes → OcbAes → List ℕ → Result
unfolding run decrypt_block
decrypt aes ctx input =
    run aes ctx.key (decrypt_block aes ctx.key) (aes.encrypt ctx.key ctx.dec_iv) input
