-- ===== src/Jit/Fits/Macros.antt =====
-- Every macro that lays an instruction fits into as many bytes as it is long.
use mips64_emulator.Base.{ℕ, refl, [], ◌∷◌, u8, not, if◌then◌else◌}
use mips64_emulator.Base.Int.{ℤ, ◌+ℤ◌, ℤ_to_u32}
use mips64_emulator.Jit.Forms.{
  op_i32, op_0f, rr, rr_0f, rr_float, rm_float, rm_float4, ri8, ri32, jump_zero, jump_not_zero,
  push, pop, cdq, ret,
}
use mips64_emulator.Jit.{◌==ℤ◌, skip}
use mips64_emulator.Jit.Laid
use mips64_emulator.Jit.Laid.{rex_byte, modrm_byte, u32_bytes}
use mips64_emulator.Jit.Instructions.{rcx, rdx, mov}
use mips64_emulator.Jit.Fits.{Fits, Fits-laid, Fits-if, Fits-skip}

pub Fits-op_i32 : (opcode : ℕ) (im : ℤ) → Fits 5 0 (op_i32 opcode im)
Fits-op_i32 opcode im =
    Fits-laid (op_i32 opcode im) (opcode ∷ u32_bytes (ℤ_to_u32 im))
      (λ p. Laid.op_i32-laid p opcode im)

pub Fits-op_0f : (opcode : ℕ) (dest src : ℤ) → Fits 3 0 (op_0f opcode dest src)
Fits-op_0f opcode dest src =
    Fits-laid (op_0f opcode dest src) (0x0F ∷ opcode ∷ modrm_byte dest src 3 ∷ [])
      (λ p. Laid.op_0f-laid p opcode dest src)

pub Fits-rr : (opcode : ℕ) (dest src : ℤ) (op64 : ℕ) → Fits 3 0 (rr opcode dest src op64)
Fits-rr opcode dest src op64 =
    Fits-laid (rr opcode dest src op64)
      (rex_byte dest src op64 ∷ opcode ∷ modrm_byte dest src 3 ∷ [])
      (λ p. Laid.rr-laid p opcode dest src op64)

pub Fits-rr_0f :
    (opcode : ℕ) (dest src : ℤ) (mode op64 : ℕ) → Fits 4 0 (rr_0f opcode dest src mode op64)
Fits-rr_0f opcode dest src mode op64 =
    Fits-laid (rr_0f opcode dest src mode op64)
      (rex_byte dest src op64 ∷ 0x0F ∷ opcode ∷ modrm_byte dest src mode ∷ [])
      (λ p. Laid.rr_0f-laid p opcode dest src mode op64)

pub Fits-rr_float :
    (prefix opcode : ℕ) (dest src : ℤ) (op64 : ℕ) → Fits 5 0 (rr_float prefix opcode dest src op64)
Fits-rr_float prefix opcode dest src op64 =
    Fits-laid (rr_float prefix opcode dest src op64)
      (prefix ∷ rex_byte src dest op64 ∷ 0x0F ∷ opcode ∷ modrm_byte src dest 3 ∷ [])
      (λ p. Laid.rr_float-laid p prefix opcode dest src op64)

pub Fits-rm_float : (opcode : ℕ) (dest src off : ℤ) → Fits 9 0 (rm_float opcode dest src off)
Fits-rm_float opcode dest src off =
    Fits-laid (rm_float opcode dest src off)
      (0xF3
        ∷ rex_byte dest src 0
        ∷ 0x0F
        ∷ opcode
        ∷ modrm_byte dest src 2
        ∷ u32_bytes (ℤ_to_u32 off))
      (λ p. Laid.rm_float-laid p opcode dest src off)

pub Fits-rm_float4 : (opcode : ℕ) (dest src off : ℤ) → Fits 8 0 (rm_float4 opcode dest src off)
Fits-rm_float4 opcode dest src off =
    Fits-laid (rm_float4 opcode dest src off)
      (rex_byte dest src 0 ∷ 0x0F ∷ opcode ∷ modrm_byte dest src 2 ∷ u32_bytes (ℤ_to_u32 off))
      (λ p. Laid.rm_float4-laid p opcode dest src off)

pub Fits-ri8 :
    (opcode : ℕ) (dest src im : ℤ) (mode op64 : ℕ) → Fits 4 0 (ri8 opcode dest src im mode op64)
Fits-ri8 opcode dest src im mode op64 =
    Fits-laid (ri8 opcode dest src im mode op64)
      (rex_byte dest src op64 ∷ opcode ∷ modrm_byte dest src mode ∷ u8 (ℤ_to_u32 im) ∷ [])
      (λ p. Laid.ri8-laid p opcode dest src im mode op64)

pub Fits-ri32 :
    (opcode : ℕ) (dest src im : ℤ) (mode op64 : ℕ) → Fits 7 0 (ri32 opcode dest src im mode op64)
Fits-ri32 opcode dest src im mode op64 =
    Fits-laid (ri32 opcode dest src im mode op64)
      (rex_byte dest src op64 ∷ opcode ∷ modrm_byte dest src mode ∷ u32_bytes (ℤ_to_u32 im))
      (λ p. Laid.ri32-laid p opcode dest src im mode op64)

pub Fits-jump_zero : (off : ℤ) → Fits 8 0 (jump_zero off)
Fits-jump_zero off =
    Fits-laid (jump_zero off) (0x85 ∷ 0xC0 ∷ 0x0F ∷ 0x84 ∷ u32_bytes (ℤ_to_u32 off))
      (λ p. Laid.jump_zero-laid p off)

pub Fits-jump_not_zero : (off : ℤ) → Fits 8 0 (jump_not_zero off)
Fits-jump_not_zero off =
    Fits-laid (jump_not_zero off) (0x85 ∷ 0xC0 ∷ 0x0F ∷ 0x85 ∷ u32_bytes (ℤ_to_u32 off))
      (λ p. Laid.jump_not_zero-laid p off)

pub Fits-cdq : Fits 1 0 cdq
Fits-cdq = Fits-laid cdq (0x99 ∷ []) (λ p. Laid.cdq-laid p)

pub Fits-ret : Fits 1 0 ret
Fits-ret = Fits-laid ret (0xC3 ∷ []) (λ p. Laid.ret-laid p)

pub Fits-push-rcx : Fits 1 0 (push rcx)
unfolding push ◌+ℤ◌
Fits-push-rcx = Fits-laid (push rcx) (81 ∷ []) (λ p h. Laid.push_pop-laid p 80 rcx h refl)

pub Fits-pop-rcx : Fits 1 0 (pop rcx)
unfolding pop ◌+ℤ◌
Fits-pop-rcx = Fits-laid (pop rcx) (89 ∷ []) (λ p h. Laid.push_pop-laid p 88 rcx h refl)

pub Fits-push-rdx : Fits 1 0 (push rdx)
unfolding push ◌+ℤ◌
Fits-push-rdx = Fits-laid (push rdx) (82 ∷ []) (λ p h. Laid.push_pop-laid p 80 rdx h refl)

pub Fits-pop-rdx : Fits 1 0 (pop rdx)
unfolding pop ◌+ℤ◌
Fits-pop-rdx = Fits-laid (pop rdx) (90 ∷ []) (λ p h. Laid.push_pop-laid p 88 rdx h refl)

-- `if (s != d) MOV(d, s)`
pub Fits-copy : (d s : ℤ) → Fits 3 0 (if not (s ==ℤ d) then mov d s else skip)
Fits-copy d s = Fits-if (not (s ==ℤ d)) (Fits-rr 0x89 d s 1) Fits-skip
