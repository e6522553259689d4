-- ===== src/Jit/Branch.antt =====
-- The jumps, branches and calls of src/mips64/jit_compiler_x64.c.
use mips64_emulator.Base.{not, ◌&&◌, ◌||◌, if◌then◌else◌}
use mips64_emulator.Base.Int.{ℤ, pos, negsuc, ltb_ℤ}
use mips64_emulator.Jit.{Emitter, ◌⨾◌, skip, ◌==ℤ◌, info, info_jump}
use mips64_emulator.Jit.Forms.{jump_zero, jump_not_zero, ret}
use mips64_emulator.Jit.Instructions.{r0, rax, al, jmp, calli32, sete, movzx, cmp64, call64, cmpi8}

abbrev pub minus_one : ℤ
minus_one = negsuc 0

unfoldable pub jit_jump : ℤ → Emitter
jit_jump o = info ⨾ (if not (o ==ℤ r0) || ltb_ℤ o minus_one then (jmp o ⨾ info_jump) else skip)

unfoldable pub jit_branch : ℤ → ℤ → ℤ → Emitter
jit_branch s t o =
    if s ==ℤ t
    then jit_jump o
    else (info
        ⨾ (if ltb_ℤ (pos 0) o || ltb_ℤ o minus_one
            then ((if s ==ℤ r0
                  then cmpi8 t (pos 0)
                  else (if t ==ℤ r0 then cmpi8 s (pos 0) else cmp64 s t))
                ⨾ sete al
                ⨾ movzx rax al
                ⨾ jump_not_zero o
                ⨾ info_jump)
            else skip))

unfoldable pub jit_nbranch : ℤ → ℤ → ℤ → Emitter
jit_nbranch s t o =
    info
    ⨾ (if (ltb_ℤ (pos 0) o || ltb_ℤ o minus_one) && not (s ==ℤ t)
        then ((if s ==ℤ r0
              then cmpi8 t (pos 0)
              else (if t ==ℤ r0 then cmpi8 s (pos 0) else cmp64 s t))
            ⨾ sete al
            ⨾ movzx rax al
            ⨾ jump_zero o
            ⨾ info_jump)
        else skip)

unfoldable pub jit_call : ℤ → Emitter
jit_call o = info ⨾ (if ltb_ℤ (pos 0) o || ltb_ℤ o minus_one then (calli32 o ⨾ info_jump) else skip)

unfoldable pub jit_callex : ℤ → Emitter
jit_callex s = info ⨾ (if not (s ==ℤ r0) then call64 s else skip)

unfoldable pub jit_return : Emitter
jit_return = info ⨾ ret
