-- ===== src/Jit/Fits/Float4.antt =====
-- The instructions on four floats fit, and note their start.
use mips64_emulator.Base.Int.{ℤ}
use mips64_emulator.Jit.Float4.{
  jit_loadf4, jit_storef4, jit_addf4, jit_subf4, jit_mulf4, jit_divf4, jit_minf4, jit_maxf4,
}
use mips64_emulator.Jit.Fits.{Notes, Notes-info, Notes-⨾, Fits-skip, Fits-⨾, Fits-if}
use mips64_emulator.Jit.Fits.Macros.{Fits-rm_float4, Fits-rr, Fits-rr_0f}

pub jit_loadf4-Notes : (d s o : ℤ) → Notes 11 0 (jit_loadf4 d s o)
unfolding jit_loadf4
jit_loadf4-Notes d s o = Notes-⨾ Notes-info (
    Fits-if _
      (Fits-if _ (Fits-⨾ (Fits-rr _ _ _ _) (Fits-rm_float4 _ _ _ _)) (Fits-rm_float4 _ _ _ _))
      Fits-skip)

pub jit_storef4-Notes : (d o s : ℤ) → Notes 11 0 (jit_storef4 d o s)
unfolding jit_storef4
jit_storef4-Notes d o s = Notes-⨾ Notes-info (
    Fits-if _
      (Fits-if _ (Fits-⨾ (Fits-rr _ _ _ _) (Fits-rm_float4 _ _ _ _)) (Fits-rm_float4 _ _ _ _))
      Fits-skip)

pub jit_addf4-Notes : (d s t : ℤ) → Notes 8 0 (jit_addf4 d s t)
unfolding jit_addf4
jit_addf4-Notes d s t =
    Notes-⨾ (Notes-⨾ Notes-info (Fits-if _ (Fits-rr_0f _ _ _ _ _) Fits-skip)) (Fits-rr_0f _ _ _ _ _)

pub jit_subf4-Notes : (d s t : ℤ) → Notes 8 0 (jit_subf4 d s t)
unfolding jit_subf4
jit_subf4-Notes d s t =
    Notes-⨾ (Notes-⨾ Notes-info (Fits-if _ (Fits-rr_0f _ _ _ _ _) Fits-skip)) (Fits-rr_0f _ _ _ _ _)

pub jit_mulf4-Notes : (d s t : ℤ) → Notes 8 0 (jit_mulf4 d s t)
unfolding jit_mulf4
jit_mulf4-Notes d s t =
    Notes-⨾ (Notes-⨾ Notes-info (Fits-if _ (Fits-rr_0f _ _ _ _ _) Fits-skip)) (Fits-rr_0f _ _ _ _ _)

pub jit_divf4-Notes : (d s t : ℤ) → Notes 8 0 (jit_divf4 d s t)
unfolding jit_divf4
jit_divf4-Notes d s t =
    Notes-⨾ (Notes-⨾ Notes-info (Fits-if _ (Fits-rr_0f _ _ _ _ _) Fits-skip)) (Fits-rr_0f _ _ _ _ _)

pub jit_minf4-Notes : (d s t : ℤ) → Notes 8 0 (jit_minf4 d s t)
unfolding jit_minf4
jit_minf4-Notes d s t =
    Notes-⨾ (Notes-⨾ Notes-info (Fits-if _ (Fits-rr_0f _ _ _ _ _) Fits-skip)) (Fits-rr_0f _ _ _ _ _)

pub jit_maxf4-Notes : (d s t : ℤ) → Notes 8 0 (jit_maxf4 d s t)
unfolding jit_maxf4
jit_maxf4-Notes d s t =
    Notes-⨾ (Notes-⨾ Notes-info (Fits-if _ (Fits-rr_0f _ _ _ _ _) Fits-skip)) (Fits-rr_0f _ _ _ _ _)
