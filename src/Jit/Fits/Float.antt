-- ===== src/Jit/Fits/Float.antt =====
-- The float instructions but JIT_LOADF fit, and note their start.
use mips64_emulator.Base.Int.{ℤ}
use mips64_emulator.Jit.Float.{
  jit_storef, jit_itof, jit_ftoi, jit_addf, jit_subf, jit_mulf, jit_divf, jit_lessf, jit_minf,
  jit_maxf,
}
use mips64_emulator.Jit.Fits.{Notes, Notes-info, Notes-⨾, Fits-skip, Fits-⨾, Fits-if}
use mips64_emulator.Jit.Fits.Macros.{Fits-op_0f, Fits-rm_float, Fits-rr, Fits-rr_0f, Fits-rr_float}

pub jit_storef-Notes : (d o s : ℤ) → Notes 12 0 (jit_storef d o s)
unfolding jit_storef
jit_storef-Notes d o s = Notes-⨾ Notes-info (
    Fits-if _ (Fits-if _ (Fits-⨾ (Fits-rr _ _ _ _) (Fits-rm_float _ _ _ _)) (Fits-rm_float _ _ _ _))
      Fits-skip)

pub jit_itof-Notes : (d s : ℤ) → Notes 10 0 (jit_itof d s)
unfolding jit_itof
jit_itof-Notes d s =
    Notes-⨾ (Notes-⨾ Notes-info (Fits-rr_float _ _ _ _ _))
      (Fits-if _ (Fits-rr_float _ _ _ _ _) Fits-skip)

pub jit_ftoi-Notes : (d s : ℤ) → Notes 5 0 (jit_ftoi d s)
unfolding jit_ftoi
jit_ftoi-Notes d s = Notes-⨾ Notes-info (Fits-if _ (Fits-rr_float _ _ _ _ _) Fits-skip)

pub jit_addf-Notes : (d s t : ℤ) → Notes 10 0 (jit_addf d s t)
unfolding jit_addf
jit_addf-Notes d s t =
    Notes-⨾ (Notes-⨾ Notes-info (Fits-if _ (Fits-rr_float _ _ _ _ _) Fits-skip))
      (Fits-rr_float _ _ _ _ _)

pub jit_subf-Notes : (d s t : ℤ) → Notes 10 0 (jit_subf d s t)
unfolding jit_subf
jit_subf-Notes d s t =
    Notes-⨾ (Notes-⨾ Notes-info (Fits-if _ (Fits-rr_float _ _ _ _ _) Fits-skip))
      (Fits-rr_float _ _ _ _ _)

pub jit_mulf-Notes : (d s t : ℤ) → Notes 10 0 (jit_mulf d s t)
unfolding jit_mulf
jit_mulf-Notes d s t =
    Notes-⨾ (Notes-⨾ Notes-info (Fits-if _ (Fits-rr_float _ _ _ _ _) Fits-skip))
      (Fits-rr_float _ _ _ _ _)

pub jit_divf-Notes : (d s t : ℤ) → Notes 10 0 (jit_divf d s t)
unfolding jit_divf
jit_divf-Notes d s t =
    Notes-⨾ (Notes-⨾ Notes-info (Fits-if _ (Fits-rr_float _ _ _ _ _) Fits-skip))
      (Fits-rr_float _ _ _ _ _)

pub jit_lessf-Notes : (d s t : ℤ) → Notes 13 0 (jit_lessf d s t)
unfolding jit_lessf
jit_lessf-Notes d s t =
    Notes-⨾
      (Notes-⨾ (Notes-⨾ (Notes-⨾ Notes-info (Fits-rr_0f _ _ _ _ _)) (Fits-op_0f _ _ _))
        (Fits-op_0f _ _ _))
      (Fits-rr _ _ _ _)

pub jit_minf-Notes : (d s t : ℤ) → Notes 10 0 (jit_minf d s t)
unfolding jit_minf
jit_minf-Notes d s t =
    Notes-⨾ (Notes-⨾ Notes-info (Fits-if _ (Fits-rr_float _ _ _ _ _) Fits-skip))
      (Fits-rr_float _ _ _ _ _)

pub jit_maxf-Notes : (d s t : ℤ) → Notes 10 0 (jit_maxf d s t)
unfolding jit_maxf
jit_maxf-Notes d s t =
    Notes-⨾ (Notes-⨾ Notes-info (Fits-if _ (Fits-rr_float _ _ _ _ _) Fits-skip))
      (Fits-rr_float _ _ _ _ _)
