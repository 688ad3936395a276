-- ===== src/Ocb/Two/Memory.antt =====
-- `ocb2_aes_decrypt` on memory: with the length of all of it, and with a length below zero.
use mumble_web_demo.Prelude.{
  ℕ, zero, suc, ◌*◌, ◌/◌, ◌≤◌, ◌<◌, ◌≡◌, refl, sym, ap, ◌∙◌, List, [], ◌∷◌, ◌++◌, length,
  length-append, length-drop, append_assoc, take, drop, take_all, take-append_le, drop-append_le,
  replicate, u8, leb, true, done, fault, arith,
}
use mumble_web_demo.Prelude.Int.{ℤ, pos, negsuc, ◌-ℤ◌}
use mumble_web_demo.Prelude.Signed.{uchar, remaining}
use mumble_web_demo.Prelude.Memory.{read_at, write_at}
use mumble_web_demo.Ocb.{
  Aes, IsAes, IsBlock, OcbAes, xor_block, xor_block_ex, double_block, triple_block,
}
use mumble_web_demo.Ocb.Blocks.{double_block-IsBlock, xor_block-IsBlock}
use mumble_web_demo.Ocb.Two.{
  State, decrypt_block, encrypt_block_final, encrypt_final_bytes, join_final, rounds, run, decrypt,
  decrypt_bytes,
}
use mumble_web_demo.Ocb.Two.Laws.{pad, pad-IsBlock}

-- `xor_block_ex` looks at the first `n` bytes of both arrays.
xor-append :
    (n : ℕ) (a b c : List ℕ) → n ≤ length a → xor_block_ex (a ++ b) c n ≡ xor_block_ex a c n
unfolding xor_block_ex
xor-append zero a b c h = refl
xor-append (suc n) [] b c h = absurd (omega arith)
xor-append (suc n) (x ∷ a) b [] h = refl
xor-append (suc n) (x ∷ a) b (y ∷ c) h = rw (xor-append n a b c (omega arith)) refl

xor-take : (n : ℕ) (a b : List ℕ) → xor_block_ex a (take n b) n ≡ xor_block_ex a b n
unfolding xor_block_ex
xor-take zero a b = refl
xor-take (suc n) [] b = refl
xor-take (suc n) (x ∷ a) [] = refl
xor-take (suc n) (x ∷ a) (y ∷ b) = rw (xor-take n a b) refl

read_front : (mem : List ℕ) (n : ℕ) → n ≤ length mem → read_at mem 0 n ≡ done (take n mem)
read_front mem n h = ground (arith, h)

write_front :
    (mem xs : List ℕ)
    → length xs ≤ length mem
    → write_at mem 0 xs ≡ done (xs ++ drop (length xs) mem)
write_front mem xs h = ground (arith, h)

in_front : (a b : ℕ) → a ≤ b → leb a b ≡ true
in_front a b h = ground (arith, h)

past_end : (mem : List ℕ) (n : ℕ) → length mem < n → read_at mem 0 n ≡ fault
past_end mem n h = ground (arith, h)

negative : (k : ℕ) → (negsuc k -ℤ pos 0) ≡ negsuc k
unfolding ◌-ℤ◌
negative k = ground arith

module _ (aes : Aes) (laws : IsAes aes) (key : List ℕ) (unset : List ℕ) where
  joined_lem :
      (block input : List ℕ) (n : ℕ) (s : State)
      → length block ≡ 16
      → n ≡ length input
      → n ≤ 15
      → join_final aes key (block ++ unset) input n s
        ≡ done (record {
          out = xor_block_ex input block n;
          tag = aes.encrypt key (
              xor_block
                (triple_block (double_block s.delta))
                (xor_block (take n input ++ drop n block) s.checksum));
        })
  unfolding join_final xor_block
  joined_lem block input n s size e h =
      let all = length-append block unset in
      let whole : take n input ≡ input = take_all n input (omega arith) in
      let mask = take-append_le n block unset (omega arith) in
      let behind : drop (length input) (block ++ unset) ≡ drop n block ++ unset =
        ap (λ (k : ℕ). drop k (block ++ unset)) (sym e)
        ∙ drop-append_le n block unset (omega arith) in
      let seen : xor_block_ex (input ++ (drop n block ++ unset)) s.checksum 16
          ≡ xor_block_ex (input ++ drop n block) s.checksum 16 =
        ap (λ t. xor_block_ex t s.checksum 16) (sym (append_assoc input (drop n block) unset))
        ∙ xor-append 16 (input ++ drop n block) unset s.checksum
            (omega (arith, length-append input (drop n block), length-drop n block)) in
      rw
        (
          read_front (block ++ unset) n (omega (arith, all)),
          read_front input n (omega arith),
          whole,
          write_front (block ++ unset) input (omega (arith, all)),
          behind,
          mask,
          seen,
          xor-take n input block,
        )
        refl

  -- Less than sixteen bytes, which are all of the memory.
  final_lem :
      (input : List ℕ) (s : State)
      → length input ≤ 15
      → IsBlock s.delta
      → encrypt_final_bytes aes key unset input (pos (length input)) s
        ≡ done (encrypt_block_final aes key input s)
  unfolding encrypt_final_bytes encrypt_block_final
  final_lem input s h hs =
      joined_lem (pad aes laws key s (length input)) input (u8 (length input)) s
        (pad-IsBlock aes laws key s (length input) hs).size (omega arith) (omega arith)

  -- More bytes than `pad` has.
  final-overrun :
      (input : List ℕ) (len : ℤ) (s : State)
      → length unset ≡ 16
      → 32 < uchar len
      → IsBlock s.delta
      → encrypt_final_bytes aes key unset input len s ≡ fault
  unfolding encrypt_final_bytes join_final
  final-overrun input len s upper many hs =
      let size : IsBlock (replicate 15 0 ++ (u8 (uchar len * 8) ∷ [])) = record {
        size = refl;
        bytes = ground arith;
      } in
      let p =
        laws.encrypt-IsBlock key _ (xor_block-IsBlock _ _ size (double_block-IsBlock s.delta hs)) in
      let block =
        aes.encrypt key
          (xor_block (replicate 15 0 ++ (u8 (uchar len * 8) ∷ [])) (double_block s.delta)) in
      rw (past_end (block ++ unset) (uchar len) (omega (arith, length-append block unset, p.size)))
        refl

  rounds-delta :
      (n : ℕ) (m : List ℕ) (s : State)
      → IsBlock s.delta
      → IsBlock (rounds aes key (decrypt_block aes key) n m s).state.delta
  unfolding rounds decrypt_block
  rounds-delta zero m s hs = hs
  rounds-delta (suc n) m s hs = rounds-delta n (drop 16 m) _ (double_block-IsBlock s.delta hs)

module _ (aes : Aes) (laws : IsAes aes) (ctx : OcbAes) (unset : List ℕ)
    (iv : IsBlock ctx.dec_iv) where
  -- With the length of all of the memory, whatever the second half of `pad` holds.
  pub decrypt_bytes_lem :
      (input : List ℕ)
      → decrypt_bytes aes ctx unset input (pos (length input)) ≡ done (decrypt aes ctx input)
  unfolding decrypt_bytes decrypt run
  decrypt_bytes_lem input =
      let n = length input / 16 in
      let start : State = record {
        delta = aes.encrypt ctx.key ctx.dec_iv;
        checksum = replicate 16 0;
      } in
      let tail = drop (n * 16) input in
      let whole = rounds aes ctx.key (decrypt_block aes ctx.key) n input start in
      let delta =
        rounds-delta aes laws ctx.key unset n input start
          (laws.encrypt-IsBlock ctx.key ctx.dec_iv iv) in
      let left =
        remaining (n * 16) (length tail) (length input)
          (omega (arith, length-drop (n * 16) input)) in
      let last =
        final_lem aes laws ctx.key unset tail whole.state
          (omega (arith, length-drop (n * 16) input)) delta in
      rw (in_front (n * 16) (length input) (omega arith), left, last) refl

  -- A length of -1, -2 or -3 is at least 253 as a byte, which `pad` does not have, whatever the memory holds.
  pub decrypt_bytes-overrun :
      (input : List ℕ) (k : ℕ)
      → length unset ≡ 16
      → k < 3
      → decrypt_bytes aes ctx unset input (negsuc k) ≡ fault
  unfolding decrypt_bytes rounds
  decrypt_bytes-overrun input k upper h =
      let start : State = record {
        delta = aes.encrypt ctx.key ctx.dec_iv;
        checksum = replicate 16 0;
      } in
      let left : (negsuc k -ℤ pos 0) ≡ negsuc k = negative k in
      let last =
        final-overrun aes laws ctx.key unset input (negsuc k) start upper (omega arith)
          (laws.encrypt-IsBlock ctx.key ctx.dec_iv iv) in
      rw (in_front 0 (length input) (omega arith), left, last) refl
