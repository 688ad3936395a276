-- ===== src/Bits/Masks.antt =====
-- The masks that test the high bits of one byte, as arithmetic: tables of 256 entries.
use mumble_web_demo.Prelude.Tables.{agree, agree-eq}
use mumble_web_demo.Prelude.{ℕ, ◌*◌, ◌/◌, ◌<◌, bit_and, ◌≡◌, refl}

pub bit_and_0x80 : (b : ℕ) → b < 256 → bit_and b 0x80 ≡ b / 128 * 128
unfolding agree
bit_and_0x80 = agree-eq _ _ 256 refl

pub bit_and_0xc0 : (b : ℕ) → b < 256 → bit_and b 0xc0 ≡ b / 64 * 64
unfolding agree
bit_and_0xc0 = agree-eq _ _ 256 refl

pub bit_and_0xe0 : (b : ℕ) → b < 256 → bit_and b 0xe0 ≡ b / 32 * 32
unfolding agree
bit_and_0xe0 = agree-eq _ _ 256 refl

pub bit_and_0xf0 : (b : ℕ) → b < 256 → bit_and b 0xf0 ≡ b / 16 * 16
unfolding agree
bit_and_0xf0 = agree-eq _ _ 256 refl

pub bit_and_0xfc : (b : ℕ) → b < 256 → bit_and b 0xfc ≡ b / 4 * 4
unfolding agree
bit_and_0xfc = agree-eq _ _ 256 refl
