-- ===== src/Jit/Fits/Ops.antt =====
-- Each function of src/mips64/jit_compiler_x64.c but JIT_LOADF fits into 18 bytes and one jump.
use mips64_emulator.Base.{◌≡◌, true, arith}
use mips64_emulator.Jit.Fits.{Notes, Notes-le}
use mips64_emulator.Jit.Ops.{
  Op, perform, is_noted, op_add, op_addf, op_addf4, op_addi, op_and, op_branch, op_call, op_callex,
  op_div, op_divf, op_divf4, op_ftoi, op_itof, op_jump, op_less, op_lessf, op_load32, op_load64,
  op_loadf, op_loadf4, op_maxf, op_maxf4, op_minf, op_minf4, op_mul, op_mulf, op_mulf4, op_nbranch,
  op_or, op_return, op_shiftl, op_shiftli, op_shiftr, op_shiftri, op_store32, op_store64, op_storef,
  op_storef4, op_sub, op_subf, op_subf4, op_xor,
}
use mips64_emulator.Jit.Fits.Integer.{
  jit_load32-Notes, jit_store32-Notes, jit_load64-Notes, jit_store64-Notes, jit_add-Notes,
  jit_addi-Notes, jit_sub-Notes, jit_mul-Notes, jit_div-Notes, jit_shiftl-Notes, jit_shiftr-Notes,
  jit_shiftli-Notes, jit_shiftri-Notes, jit_and-Notes, jit_or-Notes, jit_xor-Notes, jit_less-Notes,
}
use mips64_emulator.Jit.Fits.Branch.{
  jit_jump-Notes, jit_branch-Notes, jit_nbranch-Notes, jit_call-Notes, jit_callex-Notes,
  jit_return-Notes,
}
use mips64_emulator.Jit.Fits.Float.{
  jit_storef-Notes, jit_itof-Notes, jit_ftoi-Notes, jit_addf-Notes, jit_subf-Notes, jit_mulf-Notes,
  jit_divf-Notes, jit_lessf-Notes, jit_minf-Notes, jit_maxf-Notes,
}
use mips64_emulator.Jit.Fits.Float4.{
  jit_loadf4-Notes, jit_storef4-Notes, jit_addf4-Notes, jit_subf4-Notes, jit_mulf4-Notes,
  jit_divf4-Notes, jit_minf4-Notes, jit_maxf4-Notes,
}

pub perform-Notes : (op : Op) → is_noted op ≡ true → Notes 18 1 (perform op)
perform-Notes (op_load32 d s o) h = Notes-le (omega arith) (omega arith) (jit_load32-Notes d s o)
perform-Notes (op_store32 d o s) h = Notes-le (omega arith) (omega arith) (jit_store32-Notes d o s)
perform-Notes (op_load64 d s o) h = Notes-le (omega arith) (omega arith) (jit_load64-Notes d s o)
perform-Notes (op_store64 d o s) h = Notes-le (omega arith) (omega arith) (jit_store64-Notes d o s)
perform-Notes (op_add d s t) h = Notes-le (omega arith) (omega arith) (jit_add-Notes d s t)
perform-Notes (op_addi d s i) h = Notes-le (omega arith) (omega arith) (jit_addi-Notes d s i)
perform-Notes (op_sub d s t) h = Notes-le (omega arith) (omega arith) (jit_sub-Notes d s t)
perform-Notes (op_mul d s t) h = Notes-le (omega arith) (omega arith) (jit_mul-Notes d s t)
perform-Notes (op_div d s t) h = Notes-le (omega arith) (omega arith) (jit_div-Notes d s t)
perform-Notes (op_shiftl d s t) h = Notes-le (omega arith) (omega arith) (jit_shiftl-Notes d s t)
perform-Notes (op_shiftr d s t) h = Notes-le (omega arith) (omega arith) (jit_shiftr-Notes d s t)
perform-Notes (op_shiftli d s i) h = Notes-le (omega arith) (omega arith) (jit_shiftli-Notes d s i)
perform-Notes (op_shiftri d s i) h = Notes-le (omega arith) (omega arith) (jit_shiftri-Notes d s i)
perform-Notes (op_and d s t) h = Notes-le (omega arith) (omega arith) (jit_and-Notes d s t)
perform-Notes (op_or d s t) h = Notes-le (omega arith) (omega arith) (jit_or-Notes d s t)
perform-Notes (op_xor d s t) h = Notes-le (omega arith) (omega arith) (jit_xor-Notes d s t)
perform-Notes (op_less d s t) h = Notes-le (omega arith) (omega arith) (jit_less-Notes d s t)
perform-Notes (op_jump o) h = Notes-le (omega arith) (omega arith) (jit_jump-Notes o)
perform-Notes (op_branch s t o) h = Notes-le (omega arith) (omega arith) (jit_branch-Notes s t o)
perform-Notes (op_nbranch s t o) h = Notes-le (omega arith) (omega arith) (jit_nbranch-Notes s t o)
perform-Notes (op_call o) h = Notes-le (omega arith) (omega arith) (jit_call-Notes o)
perform-Notes (op_callex s) h = Notes-le (omega arith) (omega arith) (jit_callex-Notes s)
perform-Notes op_return h = Notes-le (omega arith) (omega arith) (jit_return-Notes)
perform-Notes (op_loadf d s o) h = cc
perform-Notes (op_storef d o s) h = Notes-le (omega arith) (omega arith) (jit_storef-Notes d o s)
perform-Notes (op_itof d s) h = Notes-le (omega arith) (omega arith) (jit_itof-Notes d s)
perform-Notes (op_ftoi d s) h = Notes-le (omega arith) (omega arith) (jit_ftoi-Notes d s)
perform-Notes (op_addf d s t) h = Notes-le (omega arith) (omega arith) (jit_addf-Notes d s t)
perform-Notes (op_subf d s t) h = Notes-le (omega arith) (omega arith) (jit_subf-Notes d s t)
perform-Notes (op_mulf d s t) h = Notes-le (omega arith) (omega arith) (jit_mulf-Notes d s t)
perform-Notes (op_divf d s t) h = Notes-le (omega arith) (omega arith) (jit_divf-Notes d s t)
perform-Notes (op_lessf d s t) h = Notes-le (omega arith) (omega arith) (jit_lessf-Notes d s t)
perform-Notes (op_minf d s t) h = Notes-le (omega arith) (omega arith) (jit_minf-Notes d s t)
perform-Notes (op_maxf d s t) h = Notes-le (omega arith) (omega arith) (jit_maxf-Notes d s t)
perform-Notes (op_loadf4 d s o) h = Notes-le (omega arith) (omega arith) (jit_loadf4-Notes d s o)
perform-Notes (op_storef4 d o s) h = Notes-le (omega arith) (omega arith) (jit_storef4-Notes d o s)
perform-Notes (op_addf4 d s t) h = Notes-le (omega arith) (omega arith) (jit_addf4-Notes d s t)
perform-Notes (op_subf4 d s t) h = Notes-le (omega arith) (omega arith) (jit_subf4-Notes d s t)
perform-Notes (op_mulf4 d s t) h = Notes-le (omega arith) (omega arith) (jit_mulf4-Notes d s t)
perform-Notes (op_divf4 d s t) h = Notes-le (omega arith) (omega arith) (jit_divf4-Notes d s t)
perform-Notes (op_minf4 d s t) h = Notes-le (omega arith) (omega arith) (jit_minf4-Notes d s t)
perform-Notes (op_maxf4 d s t) h = Notes-le (omega arith) (omega arith) (jit_maxf4-Notes d s t)
