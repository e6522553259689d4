-- ===== src/Jit/Integer.antt =====
-- The integer instructions of src/mips64/jit_compiler_x64.c.
use mips64_emulator.Base.{not, ◌&&◌, ◌||◌, if◌then◌else◌}
use mips64_emulator.Base.Int.{ℤ, pos}
use mips64_emulator.Jit.{Emitter, ◌⨾◌, skip, ◌==ℤ◌, info}
use mips64_emulator.Jit.Forms.{push, pop, cdq}
use mips64_emulator.Jit.Instructions.{
  r0, sp, rax, rcx, rdx, al, setl, movzx, mov, add, sub, and, or, xor, idiv64, sar, sal, cmp64,
  imul, sari, sali, cmpi8, movi32, load64, store64, load32, store32,
}

unfoldable pub jit_load32 : ℤ → ℤ → ℤ → Emitter
jit_load32 d s o =
    info
    ⨾ (if not (d ==ℤ r0) && not (s ==ℤ r0)
        then (if s ==ℤ sp then (mov rax s ⨾ load32 d rax o) else load32 d s o)
        else skip)

unfoldable pub jit_store32 : ℤ → ℤ → ℤ → Emitter
jit_store32 d o s =
    info
    ⨾ (if not (d ==ℤ r0) && not (s ==ℤ r0)
        then (if s ==ℤ sp then (mov rax s ⨾ store32 d rax o) else store32 d s o)
        else skip)

unfoldable pub jit_load64 : ℤ → ℤ → ℤ → Emitter
jit_load64 d s o =
    info
    ⨾ (if not (d ==ℤ r0) && not (s ==ℤ r0)
        then (if s ==ℤ sp then (mov rax s ⨾ load64 d rax o) else load64 d s o)
        else skip)

unfoldable pub jit_store64 : ℤ → ℤ → ℤ → Emitter
jit_store64 d o s =
    info
    ⨾ (if not (d ==ℤ r0) && not (s ==ℤ r0)
        then (if s ==ℤ sp then (mov rax s ⨾ store64 d rax o) else store64 d s o)
        else skip)

unfoldable pub jit_add : ℤ → ℤ → ℤ → Emitter
jit_add d s t =
    info
    ⨾ (if not (d ==ℤ r0)
        then (if s ==ℤ r0 && t ==ℤ r0
            then movi32 d (pos 0)
            else (if s ==ℤ r0
                then (if not (t ==ℤ d) then mov d t else skip)
                else (if t ==ℤ r0
                    then (if not (s ==ℤ d) then mov d s else skip)
                    else ((if not (s ==ℤ d) then mov d s else skip) ⨾ add d t))))
        else skip)

unfoldable pub jit_addi : ℤ → ℤ → ℤ → Emitter
jit_addi d s i =
    info
    ⨾ (if not (d ==ℤ r0)
        then (if s ==ℤ r0 then movi32 d i else skip)
        else ((if not (s ==ℤ d) then mov d s else skip)
            ⨾ (if not (i ==ℤ (pos 0)) then mov d i else skip)))

unfoldable pub jit_sub : ℤ → ℤ → ℤ → Emitter
jit_sub d s t =
    info
    ⨾ (if not (d ==ℤ r0)
        then (if s ==ℤ r0 && t ==ℤ r0
            then movi32 d (pos 0)
            else (if s ==ℤ r0
                then (if not (t ==ℤ d) then mov d t else skip)
                else (if t ==ℤ r0
                    then (if not (s ==ℤ d) then mov d s else skip)
                    else ((if not (s ==ℤ d) then mov d s else skip) ⨾ sub d t))))
        else skip)

unfoldable pub jit_mul : ℤ → ℤ → ℤ → Emitter
jit_mul d s t =
    info
    ⨾ (if not (d ==ℤ r0)
        then (if s ==ℤ r0 || t ==ℤ r0
            then movi32 d (pos 0)
            else ((if not (s ==ℤ d) then mov d s else skip) ⨾ imul d t))
        else skip)

unfoldable pub jit_div : ℤ → ℤ → ℤ → Emitter
jit_div d s t =
    info
    ⨾ (if not (d ==ℤ r0)
        then (if s ==ℤ r0 || t ==ℤ r0
            then movi32 d (pos 0)
            else (push rdx ⨾ mov rax s ⨾ cdq ⨾ idiv64 t ⨾ mov d rax ⨾ pop rdx))
        else skip)

unfoldable pub jit_shiftl : ℤ → ℤ → ℤ → Emitter
jit_shiftl d s t =
    info
    ⨾ (if not (d ==ℤ r0)
        then (if s ==ℤ r0
            then movi32 d (pos 0)
            else (if t ==ℤ r0
                then (if not (s ==ℤ d) then movi32 s t else skip)
                else ((if not (s ==ℤ d) then mov d s else skip)
                    ⨾ push rcx
                    ⨾ mov rcx t
                    ⨾ sal d
                    ⨾ pop rcx)))
        else skip)

unfoldable pub jit_shiftr : ℤ → ℤ → ℤ → Emitter
jit_shiftr d s t =
    info
    ⨾ (if not (d ==ℤ r0)
        then (if s ==ℤ r0
            then movi32 d (pos 0)
            else (if t ==ℤ r0
                then (if not (s ==ℤ d) then movi32 s t else skip)
                else ((if not (s ==ℤ d) then mov d s else skip)
                    ⨾ push rcx
                    ⨾ mov rcx t
                    ⨾ sar d
                    ⨾ pop rcx)))
        else skip)

unfoldable pub jit_shiftli : ℤ → ℤ → ℤ → Emitter
jit_shiftli d s i =
    info
    ⨾ (if not (d ==ℤ r0)
        then (if s ==ℤ r0
            then movi32 d (pos 0)
            else (if i ==ℤ r0
                then ((if not (s ==ℤ d) then movi32 d s else skip) ⨾ sali d i)
                else skip))
        else skip)

unfoldable pub jit_shiftri : ℤ → ℤ → ℤ → Emitter
jit_shiftri d s i =
    info
    ⨾ (if not (d ==ℤ r0)
        then (if s ==ℤ r0
            then movi32 d (pos 0)
            else (if i ==ℤ r0
                then ((if not (s ==ℤ d) then movi32 d s else skip) ⨾ sari d i)
                else skip))
        else skip)

unfoldable pub jit_and : ℤ → ℤ → ℤ → Emitter
jit_and d s t =
    info
    ⨾ (if not (d ==ℤ r0)
        then (if s ==ℤ t
            then (if s ==ℤ r0 then movi32 d (pos 0) else (if not (s ==ℤ d) then mov d s else skip))
            else (if s ==ℤ r0
                then (if not (t ==ℤ d) then mov d t else skip)
                else (if t ==ℤ r0
                    then (if not (s ==ℤ d) then mov d s else skip)
                    else ((if not (s ==ℤ d) then mov d s else skip) ⨾ and d t))))
        else skip)

unfoldable pub jit_or : ℤ → ℤ → ℤ → Emitter
jit_or d s t =
    info
    ⨾ (if not (d ==ℤ r0)
        then (if s ==ℤ t
            then (if s ==ℤ r0 then movi32 d (pos 0) else (if not (s ==ℤ d) then mov d s else skip))
            else (if s ==ℤ r0
                then (if not (t ==ℤ d) then mov d t else skip)
                else (if t ==ℤ r0
                    then (if not (s ==ℤ d) then mov d s else skip)
                    else ((if not (s ==ℤ d) then mov d s else skip) ⨾ or d t))))
        else skip)

unfoldable pub jit_xor : ℤ → ℤ → ℤ → Emitter
jit_xor d s t =
    info
    ⨾ (if not (d ==ℤ r0)
        then (if s ==ℤ t
            then (if s ==ℤ r0 then movi32 d (pos 0) else (if not (s ==ℤ d) then mov d s else skip))
            else (if s ==ℤ r0
                then (if not (t ==ℤ d) then mov d t else skip)
                else (if t ==ℤ r0
                    then (if not (s ==ℤ d) then mov d s else skip)
                    else ((if not (s ==ℤ d) then mov d s else skip) ⨾ xor d t))))
        else skip)

unfoldable pub jit_less : ℤ → ℤ → ℤ → Emitter
jit_less d s t =
    info
    ⨾ (if not (d ==ℤ r0)
        then (if s ==ℤ t
            then movi32 d (pos 0)
            else ((if s ==ℤ r0
                  then cmpi8 t (pos 0)
                  else (if t ==ℤ r0 then cmpi8 s (pos 0) else cmp64 s t))
                ⨾ setl al
                ⨾ movzx rax al
                ⨾ mov d rax))
        else skip)
