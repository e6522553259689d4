-- ===== src/Jit/Fits/Branch.antt =====
-- The jumps, branches and calls fit, and note their start.
use mips64_emulator.Base.{not, ◌&&◌, ◌||◌}
use mips64_emulator.Base.Int.{ℤ, pos, ltb_ℤ}
use mips64_emulator.Jit.{◌==ℤ◌}
use mips64_emulator.Jit.Instructions.{r0, rax, al}
use mips64_emulator.Jit.Branch.{
  minus_one, jit_jump, jit_branch, jit_nbranch, jit_call, jit_callex, jit_return,
}
use mips64_emulator.Jit.Fits.{
  Notes, Notes-info, Notes-⨾, Notes-if, Fits-skip, Fits-⨾, Fits-if, Fits-info_jump,
}
use mips64_emulator.Jit.Fits.Macros.{
  Fits-jump_not_zero, Fits-jump_zero, Fits-op_0f, Fits-op_i32, Fits-ret, Fits-ri8, Fits-rr,
}

pub jit_jump-Notes : (o : ℤ) → Notes 5 1 (jit_jump o)
unfolding jit_jump
jit_jump-Notes o =
    Notes-⨾ Notes-info (Fits-if _ (Fits-⨾ (Fits-op_i32 _ _) Fits-info_jump) Fits-skip)

pub jit_branch-Notes : (s t o : ℤ) → Notes 18 1 (jit_branch s t o)
unfolding jit_branch
jit_branch-Notes s t o = Notes-if (s ==ℤ t) (jit_jump-Notes o) (
    Notes-⨾ Notes-info (
      Fits-if (ltb_ℤ (pos 0) o || ltb_ℤ o minus_one)
        (Fits-⨾
          (Fits-⨾
            (Fits-⨾
              (Fits-⨾
                (Fits-if (s ==ℤ r0) (Fits-ri8 0x83 t (pos 7) (pos 0) 3 1)
                  (Fits-if (t ==ℤ r0) (Fits-ri8 0x83 s (pos 7) (pos 0) 3 1) (Fits-rr 0x39 s t 1)))
                (Fits-op_0f 0x94 (pos 0) al))
              (Fits-op_0f 0xB6 rax al))
            (Fits-jump_not_zero o))
          Fits-info_jump)
        Fits-skip))

pub jit_nbranch-Notes : (s t o : ℤ) → Notes 18 1 (jit_nbranch s t o)
unfolding jit_nbranch
jit_nbranch-Notes s t o = Notes-⨾ Notes-info (
    Fits-if ((ltb_ℤ (pos 0) o || ltb_ℤ o minus_one) && not (s ==ℤ t))
      (Fits-⨾
        (Fits-⨾
          (Fits-⨾
            (Fits-⨾
              (Fits-if (s ==ℤ r0) (Fits-ri8 0x83 t (pos 7) (pos 0) 3 1)
                (Fits-if (t ==ℤ r0) (Fits-ri8 0x83 s (pos 7) (pos 0) 3 1) (Fits-rr 0x39 s t 1)))
              (Fits-op_0f 0x94 (pos 0) al))
            (Fits-op_0f 0xB6 rax al))
          (Fits-jump_zero o))
        Fits-info_jump)
      Fits-skip)

pub jit_call-Notes : (o : ℤ) → Notes 5 1 (jit_call o)
unfolding jit_call
jit_call-Notes o =
    Notes-⨾ Notes-info (Fits-if _ (Fits-⨾ (Fits-op_i32 _ _) Fits-info_jump) Fits-skip)

pub jit_callex-Notes : (s : ℤ) → Notes 3 0 (jit_callex s)
unfolding jit_callex
jit_callex-Notes s = Notes-⨾ Notes-info (Fits-if _ (Fits-rr _ _ _ _) Fits-skip)

pub jit_return-Notes : Notes 1 0 jit_return
unfolding jit_return
jit_return-Notes = Notes-⨾ Notes-info Fits-ret
