-- ===== src/Ocb/Blocks.antt =====
-- Lemmas on blocks and on the functions of ocb_aes.c that take them.
use mumble_web_demo.Prelude.{
  ℕ, zero, suc, ◌+◌, ◌*◌, ◌/◌, ◌%◌, ◌^◌, ◌≤◌, ◌<◌, ◌≡◌, refl, ap, ◌∙◌, bit_and, bit_or, bit_xor,
  List, [], ◌∷◌, ◌==◌, get_or, set, length, length-set, inl, inr, Bool-cases, All, IsByte, u8,
  ◌<<<◌, ◌>>>◌, arith,
}
use mumble_web_demo.Bits.{bit_xor_comm, bit_xor_cancel, bit_xor-lt, bit_or_fields}
use mumble_web_demo.Ocb.{
  IsBlock, xor_block_ex, xor_block, shift_byte, shift_loop, left_shift, double_block,
}

pub length-xor :
    (n : ℕ) (a b : List ℕ) → n ≤ length a → n ≤ length b → length (xor_block_ex a b n) ≡ n
unfolding xor_block_ex
length-xor zero a b ha hb = refl
length-xor (suc n) [] b ha hb = absurd (omega arith)
length-xor (suc n) (x ∷ a) [] ha hb = absurd (omega arith)
length-xor (suc n) (x ∷ a) (y ∷ b) ha hb = ap suc (length-xor n a b (omega arith) (omega arith))

pub bytes-xor :
    (n : ℕ) (a b : List ℕ) → All IsByte a → All IsByte b → All IsByte (xor_block_ex a b n)
unfolding xor_block_ex
bytes-xor zero a b ha hb = tt
bytes-xor (suc n) [] b ha hb = tt
bytes-xor (suc n) (x ∷ a) [] ha hb = tt
bytes-xor (suc n) (x ∷ a) (y ∷ b) ha hb =
    (omega (arith, bit_xor-lt 8 x y ha.0 hb.0), bytes-xor n a b ha.1 hb.1)

pub xor_block-IsBlock : (a b : List ℕ) → IsBlock a → IsBlock b → IsBlock (xor_block a b)
unfolding xor_block
xor_block-IsBlock a b ha hb = record {
  size = length-xor 16 a b (omega (arith, ha.size)) (omega (arith, hb.size));
  bytes = bytes-xor 16 a b ha.bytes hb.bytes;
}

-- What is joined to the same bytes twice is as before.
pub xor_twice :
    (n : ℕ) (a b : List ℕ) → length a ≡ n → n ≤ length b → xor_block_ex (xor_block_ex a b n) b n ≡ a
unfolding xor_block_ex
xor_twice zero [] b ha hb = refl
xor_twice zero (x ∷ a) b ha hb = absurd (omega arith)
xor_twice (suc n) [] b ha hb = absurd (omega arith)
xor_twice (suc n) (x ∷ a) [] ha hb = absurd (omega arith)
xor_twice (suc n) (x ∷ a) (y ∷ b) ha hb =
    rw (bit_xor_cancel x y, xor_twice n a b (omega arith) (omega arith))

pub xor_comm : (n : ℕ) (a b : List ℕ) → xor_block_ex a b n ≡ xor_block_ex b a n
unfolding xor_block_ex
xor_comm zero a b = refl
xor_comm (suc n) [] [] = refl
xor_comm (suc n) [] (y ∷ b) = refl
xor_comm (suc n) (x ∷ a) [] = refl
xor_comm (suc n) (x ∷ a) (y ∷ b) = rw (bit_xor_comm x y, xor_comm n a b)

-- The masks of `ocb2_encrypt_block` and of `ocb2_decrypt_block` cancel.
pub unmask :
    (d m : List ℕ)
    → IsBlock d
    → IsBlock m
    → (xor_block d (xor_block m d) ≡ m) × (xor_block (xor_block d m) d ≡ m)
unfolding xor_block
unmask d m hd hm = (
  xor_comm 16 d (xor_block_ex m d 16) ∙ xor_twice 16 m d hm.size (omega (arith, hd.size)),
  ap (λ t. xor_block_ex t d 16) (xor_comm 16 d m)
      ∙ xor_twice 16 m d hm.size (omega (arith, hd.size)),
)

pub get_or-byte : (xs : List ℕ) (i : ℕ) → All IsByte xs → get_or xs i 0 < 256
get_or-byte [] i h = omega arith
get_or-byte (x ∷ xs) zero h = h.0
get_or-byte (x ∷ xs) (suc i) h = get_or-byte xs i h.1

pub set-bytes : (xs : List ℕ) (i v : ℕ) → v < 256 → All IsByte xs → All IsByte (set xs i v)
set-bytes [] i v hv h = h
set-bytes (x ∷ xs) zero v hv h = (hv, h.1)
set-bytes (x ∷ xs) (suc i) v hv h = (h.0, set-bytes xs i v hv h.1)

shifted : (a b : ℕ) → b < 256 → bit_or (u8 (a <<< 1)) (b >>> 7) < 256
shifted a b h =
    let e : u8 (a <<< 1) ≡ (a % 128) * 2 ^ 1 = omega arith in
    rw (e) (omega (arith, bit_or_fields 1 (a % 128) (b / 128) (omega (arith, h)), h))

shift-bytes :
    (xs : List ℕ) (left i : ℕ)
    → All IsByte xs
    → All IsByte (shift_loop xs 16 1 left i) × (length (shift_loop xs 16 1 left i) ≡ left)
unfolding shift_loop shift_byte
shift-bytes xs zero i h = (tt, refl)
shift-bytes xs (suc left) i h =
    let rest = shift-bytes xs left (i + 1) h in
    (
      (
        ground (
          arith,
          shifted (get_or xs (i + 0) 0) (get_or xs (i + 0 + 1) 0) (get_or-byte xs (i + 0 + 1) h),
        ),
        rest.0,
      ),
      ap suc rest.1,
    )

pub double_block-IsBlock : (b : List ℕ) → IsBlock b → IsBlock (double_block b)
unfolding double_block left_shift
double_block-IsBlock b h =
    let out = left_shift b 16 1 in
    let s = shift-bytes b 16 0 h.bytes in
    let v = bit_xor (get_or out 15 0) 0x87 in
    let small : v < 256 =
      omega (arith, bit_xor-lt 8 (get_or out 15 0) 0x87 (get_or-byte out 15 s.0) (omega arith)) in
    elim (Bool-cases (bit_and (get_or b 0 0) 0x80 == 0)) [
      | inl low ↦ rw low (record { size = s.1; bytes = s.0 })
      | inr high ↦
          rw high
            (record { size = length-set out 15 v ∙ s.1; bytes = set-bytes out 15 v small s.0 })
    ]
