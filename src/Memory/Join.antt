-- ===== src/Memory/Join.antt =====
-- `|` over shifted bytes is a number in base 256, for both byte orders; also used by the ELF reader.
use mips64_emulator.Base.{ℕ, ◌+◌, ◌*◌, ◌^◌, ◌<◌, ◌≡◌, arith, bit_or, u32, ◌<<◌}
use mips64_emulator.Base.Bits.{bit_or-shifted, shifted-bit_or}

module _ (b0 b1 : ℕ) (h0 : b0 < 256) (h1 : b1 < 256) where
  pub little16 : bit_or b0 (b1 << 8) ≡ b0 + b1 * 2 ^ 8
  little16 = bit_or-shifted 8 b1 b0 h0

  pub big16 : bit_or (b0 << 8) b1 ≡ b0 * 2 ^ 8 + b1
  big16 = shifted-bit_or 8 b0 b1 h1

module _ (b0 b1 b2 b3 : ℕ) (h0 : b0 < 256) (h1 : b1 < 256) (h2 : b2 < 256) (h3 : b3 < 256) where
  pub little32 :
      bit_or (bit_or (bit_or b0 (u32 (b1 << 8))) (u32 (b2 << 16))) (u32 (b3 << 24))
      ≡ b0 + b1 * 2 ^ 8 + b2 * 2 ^ 16 + b3 * 2 ^ 24
  little32 = ground (
    arith,
    bit_or-shifted 8 b1 b0 h0,
    bit_or-shifted 16 b2 (b0 + b1 * 2 ^ 8) (omega arith),
    bit_or-shifted 24 b3 (b0 + b1 * 2 ^ 8 + b2 * 2 ^ 16) (omega arith),
  )

  pub big32 :
      bit_or (bit_or (bit_or (u32 (b0 << 24)) (u32 (b1 << 16))) (u32 (b2 << 8))) b3
      ≡ b0 * 2 ^ 24 + b1 * 2 ^ 16 + b2 * 2 ^ 8 + b3
  big32 = ground (
    arith,
    shifted-bit_or 24 b0 (b1 * 2 ^ 16) (omega arith),
    shifted-bit_or 16 (b0 * 2 ^ 8 + b1) (b2 * 2 ^ 8) (omega arith),
    shifted-bit_or 8 (b0 * 2 ^ 16 + b1 * 2 ^ 8 + b2) b3 h3,
  )
