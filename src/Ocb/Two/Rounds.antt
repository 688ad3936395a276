-- ===== src/Ocb/Two/Rounds.antt =====
-- The loops of the two functions of OCB2.
use mumble_web_demo.Prelude.{
  ℕ, zero, suc, ◌*◌, ◌≤◌, ◌≡◌, refl, sym, ap, ◌∙◌, List, ◌++◌, append_assoc, append-nil, length,
  length-append, length-take, length-drop, take, drop, take-append, drop-append, take-append-drop,
  All, All-take, All-drop, IsByte, arith,
}
use mumble_web_demo.Ocb.{Aes, IsAes, IsBlock, xor_block, double_block}
use mumble_web_demo.Ocb.Blocks.{xor_block-IsBlock, double_block-IsBlock, unmask}
use mumble_web_demo.Ocb.Two.{State, encrypt_block, decrypt_block, rounds}

module _ (aes : Aes) (laws : IsAes aes) (key : List ℕ) where
  -- One block.
  pub decrypt_block-encrypt_block :
      (m : List ℕ) (s : State)
      → IsBlock m
      → IsBlock s.delta
      → (decrypt_block aes key (encrypt_block aes key m s).out s
          ≡ record { out = m; state = (encrypt_block aes key m s).state })
        × IsBlock (encrypt_block aes key m s).out
        × IsBlock (encrypt_block aes key m s).state.delta
  unfolding encrypt_block decrypt_block
  decrypt_block-encrypt_block m s hm hs =
      let d = double_block s.delta in
      let hd = double_block-IsBlock s.delta hs in
      let masked = xor_block-IsBlock d m hd hm in
      let he = laws.encrypt-IsBlock key (xor_block d m) masked in
      let e = aes.encrypt key (xor_block d m) in
      (
        rw (
          (unmask d e hd he).0,
          laws.decrypt-encrypt key (xor_block d m) masked,
          (unmask d m hd hm).1,
        ),
        xor_block-IsBlock e d he hd,
        hd,
      )

  -- The length of what `n` rounds of the encryption write.
  pub rounds-length :
      (n : ℕ) (m : List ℕ) (s : State)
      → n * 16 ≤ length m
      → All IsByte m
      → IsBlock s.delta
      → (length (rounds aes key (encrypt_block aes key) n m s).out ≡ n * 16)
        × IsBlock (rounds aes key (encrypt_block aes key) n m s).state.delta
  unfolding rounds
  rounds-length zero m s h bytes hs = (refl, hs)
  rounds-length (suc n) m s h bytes hs =
      let first : IsBlock (take 16 m) = record {
        size = omega (arith, length-take 16 m);
        bytes = All-take IsByte 16 m bytes;
      } in
      let here = encrypt_block aes key (take 16 m) s in
      let b = decrypt_block-encrypt_block (take 16 m) s first hs in
      let later =
        rounds-length n (drop 16 m) here.state (omega (arith, length-drop 16 m))
          (All-drop IsByte 16 m bytes) b.2 in
      (
        omega (
          arith,
          length-append here.out
              (rounds aes key (encrypt_block aes key) n (drop 16 m) here.state).out,
          b.1.size,
          later.0,
        ),
        later.1,
      )

  -- `n` rounds of the decryption on what `n` rounds of the encryption wrote, and anything behind it.
  pub rounds-rounds :
      (n : ℕ) (m rest : List ℕ) (s : State)
      → n * 16 ≤ length m
      → All IsByte m
      → IsBlock s.delta
      → rounds aes key
          (decrypt_block aes key)
          n
          ((rounds aes key (encrypt_block aes key) n m s).out ++ rest)
          s
        ≡ record {
          out = take (n * 16) m;
          state = (rounds aes key (encrypt_block aes key) n m s).state;
        }
  unfolding rounds
  rounds-rounds zero m rest s h bytes hs = refl
  rounds-rounds (suc n) m rest s h bytes hs =
      let first : IsBlock (take 16 m) = record {
        size = omega (arith, length-take 16 m);
        bytes = All-take IsByte 16 m bytes;
      } in
      let here = encrypt_block aes key (take 16 m) s in
      let b = decrypt_block-encrypt_block (take 16 m) s first hs in
      let later = rounds aes key (encrypt_block aes key) n (drop 16 m) here.state in
      let ih =
        rounds-rounds n (drop 16 m) rest here.state (omega (arith, length-drop 16 m))
          (All-drop IsByte 16 m bytes) b.2 in
      let front : take 16 (here.out ++ later.out ++ rest) ≡ here.out =
        ap (take 16) (append_assoc here.out later.out rest)
        ∙ take-append 16 0 here.out (later.out ++ rest) (omega (arith, b.1.size))
        ∙ append-nil here.out in
      let back : drop 16 (here.out ++ later.out ++ rest) ≡ later.out ++ rest =
        ap (drop 16) (append_assoc here.out later.out rest)
        ∙ drop-append 16 0 here.out (later.out ++ rest) (omega (arith, b.1.size)) in
      let whole : take (suc n * 16) m ≡ take 16 m ++ take (n * 16) (drop 16 m) =
        ap (take (suc n * 16)) (sym (take-append-drop 16 m))
        ∙ take-append (suc n * 16) (n * 16) (take 16 m) (drop 16 m) (omega (arith, first.size)) in
      rw (front, back, b.0, ih, whole)
