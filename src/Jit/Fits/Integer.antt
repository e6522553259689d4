-- ===== src/Jit/Fits/Integer.antt =====
-- The integer instructions fit, and note their start.
use mips64_emulator.Base.{not, ◌&&◌, ◌||◌}
use mips64_emulator.Base.Int.{ℤ, pos}
use mips64_emulator.Jit.{◌==ℤ◌}
use mips64_emulator.Jit.Instructions.{r0, rax, rcx, al}
use mips64_emulator.Jit.Integer.{
  jit_load32, jit_store32, jit_load64, jit_store64, jit_add, jit_addi, jit_sub, jit_mul, jit_div,
  jit_shiftl, jit_shiftr, jit_shiftli, jit_shiftri, jit_and, jit_or, jit_xor, jit_less,
}
use mips64_emulator.Jit.Fits.{Notes, Notes-info, Notes-⨾, Fits-skip, Fits-⨾, Fits-if}
use mips64_emulator.Jit.Fits.Macros.{
  Fits-copy, Fits-cdq, Fits-op_0f, Fits-pop-rcx, Fits-pop-rdx, Fits-push-rcx, Fits-push-rdx,
  Fits-ri32, Fits-ri8, Fits-rr, Fits-rr_0f,
}

pub jit_load32-Notes : (d s o : ℤ) → Notes 10 0 (jit_load32 d s o)
unfolding jit_load32
jit_load32-Notes d s o = Notes-⨾ Notes-info (
    Fits-if _ (Fits-if _ (Fits-⨾ (Fits-rr _ _ _ _) (Fits-ri32 _ _ _ _ _ _)) (Fits-ri32 _ _ _ _ _ _))
      Fits-skip)

pub jit_store32-Notes : (d o s : ℤ) → Notes 10 0 (jit_store32 d o s)
unfolding jit_store32
jit_store32-Notes d o s = Notes-⨾ Notes-info (
    Fits-if _ (Fits-if _ (Fits-⨾ (Fits-rr _ _ _ _) (Fits-ri32 _ _ _ _ _ _)) (Fits-ri32 _ _ _ _ _ _))
      Fits-skip)

pub jit_load64-Notes : (d s o : ℤ) → Notes 10 0 (jit_load64 d s o)
unfolding jit_load64
jit_load64-Notes d s o = Notes-⨾ Notes-info (
    Fits-if _ (Fits-if _ (Fits-⨾ (Fits-rr _ _ _ _) (Fits-ri32 _ _ _ _ _ _)) (Fits-ri32 _ _ _ _ _ _))
      Fits-skip)

pub jit_store64-Notes : (d o s : ℤ) → Notes 10 0 (jit_store64 d o s)
unfolding jit_store64
jit_store64-Notes d o s = Notes-⨾ Notes-info (
    Fits-if _ (Fits-if _ (Fits-⨾ (Fits-rr _ _ _ _) (Fits-ri32 _ _ _ _ _ _)) (Fits-ri32 _ _ _ _ _ _))
      Fits-skip)

pub jit_add-Notes : (d s t : ℤ) → Notes 7 0 (jit_add d s t)
unfolding jit_add
jit_add-Notes d s t = Notes-⨾ Notes-info (
    Fits-if (not (d ==ℤ r0))
      (Fits-if (s ==ℤ r0 && t ==ℤ r0) (Fits-ri32 0xC7 d (pos 0) (pos 0) 3 1) (
        Fits-if (s ==ℤ r0) (Fits-copy d t)
          (Fits-if (t ==ℤ r0) (Fits-copy d s) (Fits-⨾ (Fits-copy d s) (Fits-rr 0x01 d t 1)))))
      Fits-skip)

pub jit_addi-Notes : (d s i : ℤ) → Notes 7 0 (jit_addi d s i)
unfolding jit_addi
jit_addi-Notes d s i = Notes-⨾ Notes-info (
    Fits-if (not (d ==ℤ r0)) (Fits-if (s ==ℤ r0) (Fits-ri32 0xC7 d (pos 0) i 3 1) Fits-skip)
      (Fits-⨾ (Fits-copy d s) (Fits-if (not (i ==ℤ (pos 0))) (Fits-rr 0x89 d i 1) Fits-skip)))

pub jit_sub-Notes : (d s t : ℤ) → Notes 7 0 (jit_sub d s t)
unfolding jit_sub
jit_sub-Notes d s t = Notes-⨾ Notes-info (
    Fits-if (not (d ==ℤ r0))
      (Fits-if (s ==ℤ r0 && t ==ℤ r0) (Fits-ri32 0xC7 d (pos 0) (pos 0) 3 1) (
        Fits-if (s ==ℤ r0) (Fits-copy d t)
          (Fits-if (t ==ℤ r0) (Fits-copy d s) (Fits-⨾ (Fits-copy d s) (Fits-rr 0x29 d t 1)))))
      Fits-skip)

pub jit_mul-Notes : (d s t : ℤ) → Notes 7 0 (jit_mul d s t)
unfolding jit_mul
jit_mul-Notes d s t = Notes-⨾ Notes-info (
    Fits-if (not (d ==ℤ r0))
      (Fits-if (s ==ℤ r0 || t ==ℤ r0) (Fits-ri32 0xC7 d (pos 0) (pos 0) 3 1)
        (Fits-⨾ (Fits-copy d s) (Fits-rr_0f 0xAF t d 3 1)))
      Fits-skip)

pub jit_div-Notes : (d s t : ℤ) → Notes 12 0 (jit_div d s t)
unfolding jit_div
jit_div-Notes d s t = Notes-⨾ Notes-info (
    Fits-if (not (d ==ℤ r0))
      (Fits-if (s ==ℤ r0 || t ==ℤ r0) (Fits-ri32 0xC7 d (pos 0) (pos 0) 3 1) (
        Fits-⨾
          (Fits-⨾
            (Fits-⨾ (Fits-⨾ (Fits-⨾ Fits-push-rdx (Fits-rr 0x89 rax s 1)) Fits-cdq)
              (Fits-rr 0xF7 t (pos 7) 1))
            (Fits-rr 0x89 d rax 1))
          Fits-pop-rdx))
      Fits-skip)

pub jit_shiftl-Notes : (d s t : ℤ) → Notes 11 0 (jit_shiftl d s t)
unfolding jit_shiftl
jit_shiftl-Notes d s t = Notes-⨾ Notes-info (
    Fits-if (not (d ==ℤ r0))
      (Fits-if (s ==ℤ r0) (Fits-ri32 0xC7 d (pos 0) (pos 0) 3 1) (
        Fits-if (t ==ℤ r0) (Fits-if (not (s ==ℤ d)) (Fits-ri32 0xC7 s (pos 0) t 3 1) Fits-skip) (
          Fits-⨾
            (Fits-⨾ (Fits-⨾ (Fits-⨾ (Fits-copy d s) Fits-push-rcx) (Fits-rr 0x89 rcx t 1))
              (Fits-rr 0xD3 d (pos 4) 1))
            Fits-pop-rcx)))
      Fits-skip)

pub jit_shiftr-Notes : (d s t : ℤ) → Notes 11 0 (jit_shiftr d s t)
unfolding jit_shiftr
jit_shiftr-Notes d s t = Notes-⨾ Notes-info (
    Fits-if (not (d ==ℤ r0))
      (Fits-if (s ==ℤ r0) (Fits-ri32 0xC7 d (pos 0) (pos 0) 3 1) (
        Fits-if (t ==ℤ r0) (Fits-if (not (s ==ℤ d)) (Fits-ri32 0xC7 s (pos 0) t 3 1) Fits-skip) (
          Fits-⨾
            (Fits-⨾ (Fits-⨾ (Fits-⨾ (Fits-copy d s) Fits-push-rcx) (Fits-rr 0x89 rcx t 1))
              (Fits-rr 0xD3 d (pos 7) 1))
            Fits-pop-rcx)))
      Fits-skip)

pub jit_shiftli-Notes : (d s i : ℤ) → Notes 11 0 (jit_shiftli d s i)
unfolding jit_shiftli
jit_shiftli-Notes d s i = Notes-⨾ Notes-info (
    Fits-if (not (d ==ℤ r0))
      (Fits-if (s ==ℤ r0) (Fits-ri32 0xC7 d (pos 0) (pos 0) 3 1) (
        Fits-if (i ==ℤ r0)
          (Fits-⨾ (Fits-if (not (s ==ℤ d)) (Fits-ri32 0xC7 d (pos 0) s 3 1) Fits-skip)
            (Fits-ri8 0xC1 d (pos 4) i 3 1))
          Fits-skip))
      Fits-skip)

pub jit_shiftri-Notes : (d s i : ℤ) → Notes 11 0 (jit_shiftri d s i)
unfolding jit_shiftri
jit_shiftri-Notes d s i = Notes-⨾ Notes-info (
    Fits-if (not (d ==ℤ r0))
      (Fits-if (s ==ℤ r0) (Fits-ri32 0xC7 d (pos 0) (pos 0) 3 1) (
        Fits-if (i ==ℤ r0)
          (Fits-⨾ (Fits-if (not (s ==ℤ d)) (Fits-ri32 0xC7 d (pos 0) s 3 1) Fits-skip)
            (Fits-ri8 0xC1 d (pos 7) i 3 1))
          Fits-skip))
      Fits-skip)

pub jit_and-Notes : (d s t : ℤ) → Notes 7 0 (jit_and d s t)
unfolding jit_and
jit_and-Notes d s t = Notes-⨾ Notes-info (
    Fits-if (not (d ==ℤ r0))
      (Fits-if (s ==ℤ t) (Fits-if (s ==ℤ r0) (Fits-ri32 0xC7 d (pos 0) (pos 0) 3 1) (Fits-copy d s))
        (Fits-if (s ==ℤ r0) (Fits-copy d t)
          (Fits-if (t ==ℤ r0) (Fits-copy d s) (Fits-⨾ (Fits-copy d s) (Fits-rr 0x21 d t 1)))))
      Fits-skip)

pub jit_or-Notes : (d s t : ℤ) → Notes 7 0 (jit_or d s t)
unfolding jit_or
jit_or-Notes d s t = Notes-⨾ Notes-info (
    Fits-if (not (d ==ℤ r0))
      (Fits-if (s ==ℤ t) (Fits-if (s ==ℤ r0) (Fits-ri32 0xC7 d (pos 0) (pos 0) 3 1) (Fits-copy d s))
        (Fits-if (s ==ℤ r0) (Fits-copy d t)
          (Fits-if (t ==ℤ r0) (Fits-copy d s) (Fits-⨾ (Fits-copy d s) (Fits-rr 0x09 d t 1)))))
      Fits-skip)

pub jit_xor-Notes : (d s t : ℤ) → Notes 7 0 (jit_xor d s t)
unfolding jit_xor
jit_xor-Notes d s t = Notes-⨾ Notes-info (
    Fits-if (not (d ==ℤ r0))
      (Fits-if (s ==ℤ t) (Fits-if (s ==ℤ r0) (Fits-ri32 0xC7 d (pos 0) (pos 0) 3 1) (Fits-copy d s))
        (Fits-if (s ==ℤ r0) (Fits-copy d t)
          (Fits-if (t ==ℤ r0) (Fits-copy d s) (Fits-⨾ (Fits-copy d s) (Fits-rr 0x31 d t 1)))))
      Fits-skip)

pub jit_less-Notes : (d s t : ℤ) → Notes 13 0 (jit_less d s t)
unfolding jit_less
jit_less-Notes d s t = Notes-⨾ Notes-info (
    Fits-if (not (d ==ℤ r0))
      (Fits-if (s ==ℤ t) (Fits-ri32 0xC7 d (pos 0) (pos 0) 3 1) (
        Fits-⨾
          (Fits-⨾
            (Fits-⨾
              (Fits-if (s ==ℤ r0) (Fits-ri8 0x83 t (pos 7) (pos 0) 3 1)
                (Fits-if (t ==ℤ r0) (Fits-ri8 0x83 s (pos 7) (pos 0) 3 1) (Fits-rr 0x39 s t 1)))
              (Fits-op_0f 0x9C (pos 0) al))
            (Fits-op_0f 0xB6 rax al))
          (Fits-rr 0x89 d rax 1)))
      Fits-skip)
