-- ===== src/Jit/Float.antt =====
-- The float instructions of src/mips64/jit_compiler_x64.c.
use mips64_emulator.Base.{not, ◌&&◌, if◌then◌else◌}
use mips64_emulator.Base.Int.{ℤ}
use mips64_emulator.Jit.{Emitter, ◌⨾◌, skip, ◌==ℤ◌, info, info_through}
use mips64_emulator.Jit.Instructions.{
  r0, sp, rax, al, seta, movzx, mov, ucomiss, movss, addss, subss, mulss, divss, minss, maxss,
  cvtsi2ss, cvtss2si, pxor, loadss, storess,
}

unfoldable pub jit_loadf : ℤ → ℤ → ℤ → Emitter
jit_loadf d s o =
    info_through
    ⨾ (if not (d ==ℤ r0) && not (s ==ℤ r0)
        then (if s ==ℤ sp then (mov rax s ⨾ loadss d rax o) else loadss d s o)
        else skip)

unfoldable pub jit_storef : ℤ → ℤ → ℤ → Emitter
jit_storef d o s =
    info
    ⨾ (if not (d ==ℤ r0) && not (s ==ℤ r0)
        then (if d ==ℤ sp then (mov rax d ⨾ storess rax o s) else storess d o s)
        else skip)

unfoldable pub jit_itof : ℤ → ℤ → Emitter
jit_itof d s = info ⨾ pxor d d ⨾ (if not (s ==ℤ r0) then cvtsi2ss d s else skip)

unfoldable pub jit_ftoi : ℤ → ℤ → Emitter
jit_ftoi d s = info ⨾ (if not (d ==ℤ r0) then cvtss2si d s else skip)

unfoldable pub jit_addf : ℤ → ℤ → ℤ → Emitter
jit_addf d s t = info ⨾ (if not (s ==ℤ d) then movss d s else skip) ⨾ addss d t

unfoldable pub jit_subf : ℤ → ℤ → ℤ → Emitter
jit_subf d s t = info ⨾ (if not (s ==ℤ d) then movss d s else skip) ⨾ subss d t

unfoldable pub jit_mulf : ℤ → ℤ → ℤ → Emitter
jit_mulf d s t = info ⨾ (if not (s ==ℤ d) then movss d s else skip) ⨾ mulss d t

unfoldable pub jit_divf : ℤ → ℤ → ℤ → Emitter
jit_divf d s t = info ⨾ (if not (s ==ℤ d) then movss d s else skip) ⨾ divss d t

unfoldable pub jit_lessf : ℤ → ℤ → ℤ → Emitter
jit_lessf d s t = info ⨾ ucomiss s t ⨾ seta al ⨾ movzx rax al ⨾ mov d rax

unfoldable pub jit_minf : ℤ → ℤ → ℤ → Emitter
jit_minf d s t = info ⨾ (if not (s ==ℤ d) then movss d s else skip) ⨾ minss d t

unfoldable pub jit_maxf : ℤ → ℤ → ℤ → Emitter
jit_maxf d s t = info ⨾ (if not (s ==ℤ d) then movss d s else skip) ⨾ maxss d t
