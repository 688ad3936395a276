-- ===== src/Ocb/Two/Laws.antt =====
-- OCB2 from one end to the other.
use mumble_web_demo.Prelude.{
  ℕ, ◌*◌, ◌/◌, ◌%◌, ◌≤◌, ◌≡◌, refl, sym, ap, ◌∙◌, List, [], ◌∷◌, ◌++◌, length, length-append,
  length-drop, take, drop, drop-append, drop_all, take-append-drop, replicate, All, IsByte, u8,
  arith,
}
use mumble_web_demo.Ocb.{Aes, IsAes, IsBlock, OcbAes, xor_block, xor_block_ex, double_block}
use mumble_web_demo.Ocb.Blocks.{xor_block-IsBlock, double_block-IsBlock, xor_twice, length-xor}
use mumble_web_demo.Ocb.Two.{
  State, Result, encrypt_block, encrypt_block_final, rounds, run, encrypt, decrypt,
}
use mumble_web_demo.Ocb.Two.Rounds.{rounds-length, rounds-rounds}

module _ (aes : Aes) (laws : IsAes aes) where
  -- The pad of `ocb2_encrypt_block_final` for this many bytes.
  abbrev pub pad : List ℕ → State → ℕ → List ℕ
  pad key s n =
      aes.encrypt key (xor_block (replicate 15 0 ++ (u8 (u8 n * 8) ∷ [])) (double_block s.delta))

  pub pad-IsBlock : (key : List ℕ) (s : State) (n : ℕ) → IsBlock s.delta → IsBlock (pad key s n)
  pad-IsBlock key s n hs =
      let size : IsBlock (replicate 15 0 ++ (u8 (u8 n * 8) ∷ [])) = record {
        size = refl;
        bytes = ground arith;
      } in
      laws.encrypt-IsBlock key _ (xor_block-IsBlock _ _ size (double_block-IsBlock s.delta hs))

  -- The last, short block: the same pad is joined twice.
  final-final :
      (key m : List ℕ) (s : State)
      → length m ≤ 15
      → IsBlock s.delta
      → ((encrypt_block_final aes key (encrypt_block_final aes key m s).out s).out ≡ m)
        × (length (encrypt_block_final aes key m s).out ≡ length m)
  unfolding encrypt_block_final
  final-final key m s h hs =
      let n = length m in
      let e : u8 n ≡ n = omega (arith, h) in
      let p = pad-IsBlock key s n hs in
      let once = xor_block_ex m (pad key s n) (u8 n) in
      let size : length once ≡ n =
        length-xor (u8 n) m (pad key s n) (omega (arith, e)) (omega (arith, p.size, h)) ∙ e in
      (
        ap (λ (k : ℕ). xor_block_ex once (pad key s k) (u8 k)) size
            ∙ ap (λ (k : ℕ). xor_block_ex (xor_block_ex m (pad key s n) k) (pad key s n) k) e
            ∙ xor_twice n m (pad key s n) refl (omega (arith, p.size, h)),
        size,
      )

  -- What the receiver works with: the state behind the whole blocks, and what is left for the last one.
  record Opened (sender receiver : OcbAes) (m : List ℕ) : Type 0 where
    state : State
    tail : List ℕ
    sent : List ℕ
    is_tail : tail ≡ drop (length m / 16 * 16) m
    short : length tail ≤ 15
    delta : IsBlock state.delta
    sealed : encrypt aes sender m ≡ (
        let last = encrypt_block_final aes sender.key tail state in
        record { out = sent ++ last.out; tag = last.tag })
    opened : decrypt aes receiver (encrypt aes sender m).out ≡ (
        let last =
          encrypt_block_final aes sender.key
            (encrypt_block_final aes sender.key tail state).out
            state in
        record { out = take (length m / 16 * 16) m ++ last.out; tag = last.tag })

  opens :
      (sender receiver : OcbAes) (m : List ℕ)
      → receiver.key ≡ sender.key
      → receiver.dec_iv ≡ sender.enc_iv
      → IsBlock sender.enc_iv
      → All IsByte m
      → Opened sender receiver m
  unfolding encrypt decrypt run
  opens sender receiver m same_key same_iv iv bytes =
      let key = sender.key in
      let start : State = record {
        delta = aes.encrypt key sender.enc_iv;
        checksum = replicate 16 0;
      } in
      let n = length m / 16 in
      let fits : n * 16 ≤ length m = omega arith in
      let sent = rounds aes key (encrypt_block aes key) n m start in
      let begun = laws.encrypt-IsBlock key sender.enc_iv iv in
      let known = rounds-length aes laws key n m start fits bytes begun in
      let tail = drop (n * 16) m in
      let short : length tail ≤ 15 = omega (arith, length-drop (n * 16) m) in
      let last = encrypt_block_final aes key tail sent.state in
      let undone = final-final key tail sent.state short known.1 in
      let total : length (sent.out ++ last.out) / 16 ≡ n =
        omega (arith, length-append sent.out last.out, known.0, undone.1, length-drop (n * 16) m) in
      let rest : drop (n * 16) (sent.out ++ last.out) ≡ last.out =
        drop-append (n * 16) 0 sent.out last.out (omega (arith, known.0)) in
      record {
        state = sent.state;
        tail = tail;
        sent = sent.out;
        is_tail = refl;
        short = short;
        delta = known.1;
        sealed = refl;
        opened =
            rw
              (
                same_key,
                same_iv,
                total,
                rest,
                rounds-rounds aes laws key n m last.out start fits bytes begun,
              )
              refl;
      }

  -- The receiver has the sender's key, and as its `dec_iv` the sender's `enc_iv`, a block. Then it
  -- decrypts whatever bytes the sender encrypted, of any number, to what they were.
  pub decrypt-encrypt :
      (sender receiver : OcbAes) (m : List ℕ)
      → receiver.key ≡ sender.key
      → receiver.dec_iv ≡ sender.enc_iv
      → IsBlock sender.enc_iv
      → All IsByte m
      → (decrypt aes receiver (encrypt aes sender m).out).out ≡ m
  decrypt-encrypt sender receiver m same_key same_iv iv bytes =
      let o = opens sender receiver m same_key same_iv iv bytes in
      rw (o.opened, (final-final sender.key o.tail o.state o.short o.delta).0, o.is_tail)
        (take-append-drop (length m / 16 * 16) m)

  -- The receiver has the sender's key, and as its `dec_iv` the sender's `enc_iv`, a block. Then
  -- the tags of both ends agree on bytes the number of which is a multiple of sixteen.
  pub tag-decrypt :
      (sender receiver : OcbAes) (m : List ℕ)
      → receiver.key ≡ sender.key
      → receiver.dec_iv ≡ sender.enc_iv
      → IsBlock sender.enc_iv
      → All IsByte m
      → length m % 16 ≡ 0
      → (decrypt aes receiver (encrypt aes sender m).out).tag ≡ (encrypt aes sender m).tag
  tag-decrypt sender receiver m same_key same_iv iv bytes whole =
      let o = opens sender receiver m same_key same_iv iv bytes in
      let no_tail : o.tail ≡ [] =
        o.is_tail ∙ drop_all (length m / 16 * 16) m (omega (arith, whole)) in
      let nothing : (encrypt_block_final aes sender.key o.tail o.state).out ≡ o.tail =
        drop_all 0 _ (
          omega
            (arith, (final-final sender.key o.tail o.state o.short o.delta).1, ap length no_tail))
        ∙ sym no_tail in
      ap (λ (r : Result). r.tag) o.opened
      ∙ ap (λ t. (encrypt_block_final aes sender.key t o.state).tag) nothing
      ∙ sym (ap (λ (r : Result). r.tag) o.sealed)
