-- ===== src/Jit/Ops.antt =====
-- A program for the code generator: the functions of src/mips64/jit_compiler_x64.c one after another.
use mips64_emulator.Base.{List, [], ◌∷◌, Bool, true, false}
use mips64_emulator.Base.Int.{ℤ}
use mips64_emulator.Jit.{Emitter, ◌⨾◌, skip}
use mips64_emulator.Jit.Integer.{
  jit_load32, jit_store32, jit_load64, jit_store64, jit_add, jit_addi, jit_sub, jit_mul, jit_div,
  jit_shiftl, jit_shiftr, jit_shiftli, jit_shiftri, jit_and, jit_or, jit_xor, jit_less,
}
use mips64_emulator.Jit.Branch.{jit_jump, jit_branch, jit_nbranch, jit_call, jit_callex, jit_return}
use mips64_emulator.Jit.Float.{
  jit_loadf, jit_storef, jit_itof, jit_ftoi, jit_addf, jit_subf, jit_mulf, jit_divf, jit_lessf,
  jit_minf, jit_maxf,
}
use mips64_emulator.Jit.Float4.{
  jit_loadf4, jit_storef4, jit_addf4, jit_subf4, jit_mulf4, jit_divf4, jit_minf4, jit_maxf4,
}

pub data Op : Type 0 where
  op_load32 op_store32 op_load64 op_store64 op_add op_addi op_sub op_mul op_div op_shiftl op_shiftr
        op_shiftli op_shiftri op_and op_or op_xor op_less op_branch op_nbranch op_loadf op_storef
        op_addf op_subf op_mulf op_divf op_lessf op_minf op_maxf op_loadf4 op_storef4 op_addf4
        op_subf4 op_mulf4 op_divf4 op_minf4 op_maxf4 :
      ℤ → ℤ → ℤ → Op
  op_itof op_ftoi : ℤ → ℤ → Op
  op_jump op_call op_callex : ℤ → Op
  op_return : Op

abbrev pub perform : Op → Emitter
perform (op_load32 d s o) = jit_load32 d s o
perform (op_store32 d o s) = jit_store32 d o s
perform (op_load64 d s o) = jit_load64 d s o
perform (op_store64 d o s) = jit_store64 d o s
perform (op_add d s t) = jit_add d s t
perform (op_addi d s i) = jit_addi d s i
perform (op_sub d s t) = jit_sub d s t
perform (op_mul d s t) = jit_mul d s t
perform (op_div d s t) = jit_div d s t
perform (op_shiftl d s t) = jit_shiftl d s t
perform (op_shiftr d s t) = jit_shiftr d s t
perform (op_shiftli d s i) = jit_shiftli d s i
perform (op_shiftri d s i) = jit_shiftri d s i
perform (op_and d s t) = jit_and d s t
perform (op_or d s t) = jit_or d s t
perform (op_xor d s t) = jit_xor d s t
perform (op_less d s t) = jit_less d s t
perform (op_jump o) = jit_jump o
perform (op_branch s t o) = jit_branch s t o
perform (op_nbranch s t o) = jit_nbranch s t o
perform (op_call o) = jit_call o
perform (op_callex s) = jit_callex s
perform op_return = jit_return
perform (op_loadf d s o) = jit_loadf d s o
perform (op_storef d o s) = jit_storef d o s
perform (op_itof d s) = jit_itof d s
perform (op_ftoi d s) = jit_ftoi d s
perform (op_addf d s t) = jit_addf d s t
perform (op_subf d s t) = jit_subf d s t
perform (op_mulf d s t) = jit_mulf d s t
perform (op_divf d s t) = jit_divf d s t
perform (op_lessf d s t) = jit_lessf d s t
perform (op_minf d s t) = jit_minf d s t
perform (op_maxf d s t) = jit_maxf d s t
perform (op_loadf4 d s o) = jit_loadf4 d s o
perform (op_storef4 d o s) = jit_storef4 d o s
perform (op_addf4 d s t) = jit_addf4 d s t
perform (op_subf4 d s t) = jit_subf4 d s t
perform (op_mulf4 d s t) = jit_mulf4 d s t
perform (op_divf4 d s t) = jit_divf4 d s t
perform (op_minf4 d s t) = jit_minf4 d s t
perform (op_maxf4 d s t) = jit_maxf4 d s t

-- One call after another.
unfoldable pub perform_all : List Op → Emitter
perform_all [] = skip
perform_all (op ∷ ops) = perform op ⨾ perform_all ops

-- All functions but `JIT_LOADF` note where the code of their instruction starts.
abbrev pub is_noted : Op → Bool
is_noted (op_loadf d s o) = false
is_noted _ = true
