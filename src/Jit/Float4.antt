-- ===== src/Jit/Float4.antt =====
-- The instructions of src/mips64/jit_compiler_x64.c on four floats.
use mips64_emulator.Base.{not, ◌&&◌, if◌then◌else◌}
use mips64_emulator.Base.Int.{ℤ}
use mips64_emulator.Jit.{Emitter, ◌⨾◌, skip, ◌==ℤ◌, info}
use mips64_emulator.Jit.Instructions.{
  r0, sp, rax, mov, movups, addps, subps, mulps, divps, minps, maxps, loadups, storeups,
}

unfoldable pub jit_loadf4 : ℤ → ℤ → ℤ → Emitter
jit_loadf4 d s o =
    info
    ⨾ (if not (d ==ℤ r0) && not (s ==ℤ r0)
        then (if s ==ℤ sp then (mov rax s ⨾ loadups d rax o) else loadups d s o)
        else skip)

unfoldable pub jit_storef4 : ℤ → ℤ → ℤ → Emitter
jit_storef4 d o s =
    info
    ⨾ (if not (d ==ℤ r0)
        then (if d ==ℤ sp then (mov rax d ⨾ storeups rax o s) else storeups d o s)
        else skip)

unfoldable pub jit_addf4 : ℤ → ℤ → ℤ → Emitter
jit_addf4 d s t = info ⨾ (if not (s ==ℤ d) then movups d s else skip) ⨾ addps d t

unfoldable pub jit_subf4 : ℤ → ℤ → ℤ → Emitter
jit_subf4 d s t = info ⨾ (if not (s ==ℤ d) then movups d s else skip) ⨾ subps d t

unfoldable pub jit_mulf4 : ℤ → ℤ → ℤ → Emitter
jit_mulf4 d s t = info ⨾ (if not (s ==ℤ d) then movups d s else skip) ⨾ mulps d t

unfoldable pub jit_divf4 : ℤ → ℤ → ℤ → Emitter
jit_divf4 d s t = info ⨾ (if not (s ==ℤ d) then movups d s else skip) ⨾ divps d t

unfoldable pub jit_minf4 : ℤ → ℤ → ℤ → Emitter
jit_minf4 d s t = info ⨾ (if not (s ==ℤ d) then movups d s else skip) ⨾ minps d t

unfoldable pub jit_maxf4 : ℤ → ℤ → ℤ → Emitter
jit_maxf4 d s t = info ⨾ (if not (s ==ℤ d) then movups d s else skip) ⨾ maxps d t
