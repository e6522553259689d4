-- ===== src/Jit/Laid.antt =====
-- What the macros of include/mips64/jit_compiler_x64.h lay into the code buffer.
use mathlib.Core.Path.{fun_ext}
use mips64_emulator.Base.{
  ℕ, ◌+◌, ◌/◌, ◌%◌, ◌^◌, ◌≤◌, ◌≡◌, ap, arith, true, List, [], ◌∷◌, length, done, Outcome, ltb, u8,
  bit_or, ◌<<◌,
}
use mips64_emulator.Base.Int.{ℤ, pos, ◌+ℤ◌, ltb_ℤ, ℤ_to_u32}
use mips64_emulator.Memory.Spec.{overlay}
use mips64_emulator.Jit.{
  Parsing, put, put_u32, high_bit, low_bits, encode_rex, encode_modrm, encode,
}
use mips64_emulator.Jit.Forms.{
  op_i32, op_0f, rr, rr_0f, rr_float, rm_float, rm_float4, ri8, ri32, jump_zero, jump_not_zero,
  push_pop, cdq, ret,
}

-- The bytes are laid at the pointer, and the pointer moves behind them.
abbrev pub laid : Parsing → List ℕ → Parsing
laid p bs = record p { code = overlay p.code p.buffer bs; buffer = p.buffer + length bs }

abbrev pub HasRoom : ℕ → Parsing → Type 0
HasRoom n p = p.buffer + n ≤ p.code_size

-- The bytes, as the source computes them.
abbrev pub rex_byte : ℤ → ℤ → ℕ → ℕ
rex_byte dest src op64 =
    u8 (bit_or (bit_or (bit_or (high_bit dest) (high_bit src << 2)) (op64 << 3)) 0x40)

abbrev pub modrm_byte : ℤ → ℤ → ℕ → ℕ
modrm_byte dest src mode = u8 (bit_or (bit_or (low_bits dest) (low_bits src << 3)) (mode << 6))

abbrev pub u32_bytes : ℕ → List ℕ
u32_bytes v = v % 256 ∷ v / 2 ^ 8 % 256 ∷ v / 2 ^ 16 % 256 ∷ v / 2 ^ 24 % 256 ∷ []

abbrev moved : Parsing → ℕ → (ℕ → ℕ) → Outcome Parsing
moved p n f = done (record p { code = f; buffer = p.buffer + n })

module _ (p : Parsing) where
  inside : (n : ℕ) → HasRoom n p → (k : ℕ) → ltb k n ≡ true → ltb (p.buffer + k) p.code_size ≡ true
  inside n h k lt = ground arith

  pub op_i32-laid :
      (opcode : ℕ) (im : ℤ)
      → HasRoom 5 p
      → op_i32 opcode im p ≡ done (laid p (opcode ∷ u32_bytes (ℤ_to_u32 im)))
  unfolding op_i32 put_u32 put
  op_i32-laid opcode im h = simp (inside 5 h) (ap (moved p 5) (fun_ext λ x. ground arith))

  pub op_0f-laid :
      (opcode : ℕ) (dest src : ℤ)
      → HasRoom 3 p
      → op_0f opcode dest src p ≡ done (laid p (0x0F ∷ opcode ∷ modrm_byte dest src 3 ∷ []))
  unfolding op_0f encode_modrm put
  op_0f-laid opcode dest src h = simp (inside 3 h) (ap (moved p 3) (fun_ext λ x. ground arith))

  pub rr-laid :
      (opcode : ℕ) (dest src : ℤ) (op64 : ℕ)
      → HasRoom 3 p
      → rr opcode dest src op64 p
        ≡ done (laid p (rex_byte dest src op64 ∷ opcode ∷ modrm_byte dest src 3 ∷ []))
  unfolding rr encode encode_rex encode_modrm put
  rr-laid opcode dest src op64 h = simp (inside 3 h) (ap (moved p 3) (fun_ext λ x. ground arith))

  pub rr_0f-laid :
      (opcode : ℕ) (dest src : ℤ) (mode op64 : ℕ)
      → HasRoom 4 p
      → rr_0f opcode dest src mode op64 p
        ≡ done (laid p (rex_byte dest src op64 ∷ 0x0F ∷ opcode ∷ modrm_byte dest src mode ∷ []))
  unfolding rr_0f encode encode_rex encode_modrm put
  rr_0f-laid opcode dest src mode op64 h =
      simp (inside 4 h) (ap (moved p 4) (fun_ext λ x. ground arith))

  pub ri8-laid :
      (opcode : ℕ) (dest src im : ℤ) (mode op64 : ℕ)
      → HasRoom 4 p
      → ri8 opcode dest src im mode op64 p
        ≡ done (
            laid p
              (rex_byte dest src op64 ∷ opcode ∷ modrm_byte dest src mode ∷ u8 (ℤ_to_u32 im) ∷ []))
  unfolding ri8 encode encode_rex encode_modrm put
  ri8-laid opcode dest src im mode op64 h =
      simp (inside 4 h) (ap (moved p 4) (fun_ext λ x. ground arith))

  pub ri32-laid :
      (opcode : ℕ) (dest src im : ℤ) (mode op64 : ℕ)
      → HasRoom 7 p
      → ri32 opcode dest src im mode op64 p
        ≡ done (
            laid p (
              rex_byte dest src op64 ∷ opcode ∷ modrm_byte dest src mode ∷ u32_bytes (ℤ_to_u32 im)))
  unfolding ri32 encode encode_rex encode_modrm put_u32 put
  ri32-laid opcode dest src im mode op64 h =
      simp (inside 7 h) (ap (moved p 7) (fun_ext λ x. ground arith))

  pub cdq-laid : HasRoom 1 p → cdq p ≡ done (laid p (0x99 ∷ []))
  unfolding cdq put
  cdq-laid h = simp (inside 1 h) (ap (moved p 1) (fun_ext λ x. ground arith))

  pub ret-laid : HasRoom 1 p → ret p ≡ done (laid p (0xC3 ∷ []))
  unfolding ret put
  ret-laid h = simp (inside 1 h) (ap (moved p 1) (fun_ext λ x. ground arith))

  pub rr_float-laid :
      (prefix opcode : ℕ) (dest src : ℤ) (op64 : ℕ)
      → HasRoom 5 p
      → rr_float prefix opcode dest src op64 p
        ≡ done
            (laid p (prefix ∷ rex_byte src dest op64 ∷ 0x0F ∷ opcode ∷ modrm_byte src dest 3 ∷ []))
  unfolding rr_float encode encode_rex encode_modrm put
  rr_float-laid prefix opcode dest src op64 h =
      simp (inside 5 h) (ap (moved p 5) (fun_ext λ x. ground arith))

  pub rm_float-laid :
      (opcode : ℕ) (dest src off : ℤ)
      → HasRoom 9 p
      → rm_float opcode dest src off p
        ≡ done (
            laid p (
              0xF3
              ∷ rex_byte dest src 0
              ∷ 0x0F
              ∷ opcode
              ∷ modrm_byte dest src 2
              ∷ u32_bytes (ℤ_to_u32 off)))
  unfolding rm_float encode encode_rex encode_modrm put_u32 put
  rm_float-laid opcode dest src off h =
      simp (inside 9 h) (ap (moved p 9) (fun_ext λ x. ground arith))

  pub rm_float4-laid :
      (opcode : ℕ) (dest src off : ℤ)
      → HasRoom 8 p
      → rm_float4 opcode dest src off p
        ≡ done (
            laid p (
              rex_byte dest src 0
              ∷ 0x0F
              ∷ opcode
              ∷ modrm_byte dest src 2
              ∷ u32_bytes (ℤ_to_u32 off)))
  unfolding rm_float4 encode encode_rex encode_modrm put_u32 put
  rm_float4-laid opcode dest src off h =
      simp (inside 8 h) (ap (moved p 8) (fun_ext λ x. ground arith))

  pub jump_zero-laid :
      (off : ℤ)
      → HasRoom 8 p
      → jump_zero off p ≡ done (laid p (0x85 ∷ 0xC0 ∷ 0x0F ∷ 0x84 ∷ u32_bytes (ℤ_to_u32 off)))
  unfolding jump_zero put_u32 put
  jump_zero-laid off h = simp (inside 8 h) (ap (moved p 8) (fun_ext λ x. ground arith))

  pub jump_not_zero-laid :
      (off : ℤ)
      → HasRoom 8 p
      → jump_not_zero off p ≡ done (laid p (0x85 ∷ 0xC0 ∷ 0x0F ∷ 0x85 ∷ u32_bytes (ℤ_to_u32 off)))
  unfolding jump_not_zero put_u32 put
  jump_not_zero-laid off h = simp (inside 8 h) (ap (moved p 8) (fun_ext λ x. ground arith))

  pub push_pop-laid :
      (opcode : ℕ) (src : ℤ)
      → HasRoom 1 p
      → ltb_ℤ src (pos 8) ≡ true
      → push_pop opcode src p ≡ done (laid p (u8 (ℤ_to_u32 (pos opcode +ℤ src)) ∷ []))
  unfolding push_pop put
  push_pop-laid opcode src h low =
      simp (low, inside 1 h) (ap (moved p 1) (fun_ext λ x. ground arith))
