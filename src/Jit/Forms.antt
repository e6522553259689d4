-- ===== src/Jit/Forms.antt =====
-- The macros of include/mips64/jit_compiler_x64.h that lay out an instruction's bytes.
use mips64_emulator.Base.{ℕ, u8, if◌then◌else◌}
use mips64_emulator.Base.Int.{ℤ, pos, negsuc, ◌+ℤ◌, ltb_ℤ, ℤ_to_u32}
use mips64_emulator.Jit.{Emitter, ◌⨾◌, put, put_u32, advance, encode_modrm, encode}

unfoldable pub op_i32 : ℕ → ℤ → Emitter
op_i32 opcode im = put 0 opcode ⨾ put_u32 1 (ℤ_to_u32 im) ⨾ advance 5

unfoldable pub op_0f : ℕ → ℤ → ℤ → Emitter
op_0f opcode dest src = put 0 0x0F ⨾ put 1 opcode ⨾ encode_modrm 2 dest src 3 ⨾ advance 3

unfoldable pub rr : ℕ → ℤ → ℤ → ℕ → Emitter
rr opcode dest src op64 = put 1 opcode ⨾ encode 0 dest src 2 3 op64 ⨾ advance 3

unfoldable pub rr_0f : ℕ → ℤ → ℤ → ℕ → ℕ → Emitter
rr_0f opcode dest src mode op64 =
    put 1 0x0F ⨾ put 2 opcode ⨾ encode 0 dest src 3 mode op64 ⨾ advance 4

-- Here the macro exchanges the two registers.
unfoldable pub rr_float : ℕ → ℕ → ℤ → ℤ → ℕ → Emitter
rr_float prefix opcode dest src op64 =
    put 0 prefix ⨾ put 2 0x0F ⨾ put 3 opcode ⨾ encode 1 src dest 3 3 op64 ⨾ advance 5

unfoldable pub rm_float : ℕ → ℤ → ℤ → ℤ → Emitter
rm_float opcode dest src off =
    put 0 0xF3
    ⨾ put 2 0x0F
    ⨾ put 3 opcode
    ⨾ put_u32 5 (ℤ_to_u32 off)
    ⨾ encode 1 dest src 3 2 0
    ⨾ advance 9

unfoldable pub rm_float4 : ℕ → ℤ → ℤ → ℤ → Emitter
rm_float4 opcode dest src off =
    put 1 0x0F ⨾ put 2 opcode ⨾ put_u32 4 (ℤ_to_u32 off) ⨾ encode 0 dest src 3 2 0 ⨾ advance 8

unfoldable pub ri8 : ℕ → ℤ → ℤ → ℤ → ℕ → ℕ → Emitter
ri8 opcode dest src im mode op64 =
    put 1 opcode ⨾ put 3 (u8 (ℤ_to_u32 im)) ⨾ encode 0 dest src 2 mode op64 ⨾ advance 4

unfoldable pub ri32 : ℕ → ℤ → ℤ → ℤ → ℕ → ℕ → Emitter
ri32 opcode dest src im mode op64 =
    put 1 opcode ⨾ put_u32 3 (ℤ_to_u32 im) ⨾ encode 0 dest src 2 mode op64 ⨾ advance 7

unfoldable pub jump_zero : ℤ → Emitter
jump_zero off = put_u32 0 0x840FC085 ⨾ put_u32 4 (ℤ_to_u32 off) ⨾ advance 8

unfoldable pub jump_not_zero : ℤ → Emitter
jump_not_zero off = put_u32 0 0x850FC085 ⨾ put_u32 4 (ℤ_to_u32 off) ⨾ advance 8

unfoldable pub push_pop : ℕ → ℤ → Emitter
push_pop opcode src =
    (if ltb_ℤ src (pos 8)
      then put 0 (u8 (ℤ_to_u32 (pos opcode +ℤ src)))
      else put 0 0x41 ⨾ advance 1 ⨾ put 0 (u8 (ℤ_to_u32 (pos opcode +ℤ src +ℤ negsuc 7))))
    ⨾ advance 1

unfoldable pub push : ℤ → Emitter
unfolding push_pop
push = push_pop 80

unfoldable pub pop : ℤ → Emitter
unfolding push_pop
pop = push_pop 88

unfoldable pub cdq : Emitter
cdq = put 0 0x99 ⨾ advance 1

unfoldable pub ret : Emitter
ret = put 0 0xC3 ⨾ advance 1
