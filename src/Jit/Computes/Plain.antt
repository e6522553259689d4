-- ===== src/Jit/Computes/Plain.antt =====
-- The instructions without a prefix: conditions, the stack, the sign extension, and jumps.
use mips64_emulator.Base.{refl, true, false, [], ◌∷◌}
use mips64_emulator.Base.Int.{ℤ, pos, ℤ_to_u32, ◌+ℤ◌}
use mips64_emulator.Jit.Laid.{
  u32_bytes, op_0f-laid, op_i32-laid, cdq-laid, push_pop-laid, jump_zero-laid, jump_not_zero-laid,
}
use mips64_emulator.Jit.Forms.{push, pop, cdq, jump_zero, jump_not_zero}
use mips64_emulator.Jit.Instructions.{rax, rcx, rdx, al, setl, sete, movzx, jmp}
use mips64_emulator.Jit.X64
use mips64_emulator.Jit.X64.{
  Ins, execute_ins, set, less, equal, zero_extend, extend_sign, test, jump, jump_if,
}
use mips64_emulator.Jit.X64.Read.{read_ins, read_plain, read_escaped}
use mips64_emulator.Jit.Computes.{Computes, Computes-one, Computes-two, and_then}
use mips64_emulator.Jit.Computes.Leaves.{with_word-u32}

pub Computes-setl : Computes 3 (setl al) (execute_ins (set less 0))
unfolding read_ins read_plain read_escaped
Computes-setl =
    Computes-one 0x0F (0x9C ∷ 0xC0 ∷ []) (set less 0) (λ p h. op_0f-laid p 0x9C (pos 0) al h)
      (λ rest. refl)

pub Computes-sete : Computes 3 (sete al) (execute_ins (set equal 0))
unfolding read_ins read_plain read_escaped
Computes-sete =
    Computes-one 0x0F (0x94 ∷ 0xC0 ∷ []) (set equal 0) (λ p h. op_0f-laid p 0x94 (pos 0) al h)
      (λ rest. refl)

pub Computes-movzx : Computes 3 (movzx rax al) (execute_ins (zero_extend 0 0))
unfolding read_ins read_plain read_escaped
Computes-movzx =
    Computes-one 0x0F (0xB6 ∷ 0xC0 ∷ []) (zero_extend 0 0) (λ p h. op_0f-laid p 0xB6 rax al h)
      (λ rest. refl)

pub Computes-cdq : Computes 1 cdq (execute_ins extend_sign)
unfolding read_ins read_plain
Computes-cdq = Computes-one 0x99 [] extend_sign (λ p h. cdq-laid p h) (λ rest. refl)

pub Computes-push-rcx : Computes 1 (push rcx) (execute_ins (X64.push 1))
unfolding push read_ins read_plain ◌+ℤ◌
Computes-push-rcx =
    Computes-one 81 [] (X64.push 1) (λ p h. push_pop-laid p 80 rcx h refl) (λ rest. refl)

pub Computes-pop-rcx : Computes 1 (pop rcx) (execute_ins (X64.pop 1))
unfolding pop read_ins read_plain ◌+ℤ◌
Computes-pop-rcx =
    Computes-one 89 [] (X64.pop 1) (λ p h. push_pop-laid p 88 rcx h refl) (λ rest. refl)

pub Computes-push-rdx : Computes 1 (push rdx) (execute_ins (X64.push 2))
unfolding push read_ins read_plain ◌+ℤ◌
Computes-push-rdx =
    Computes-one 82 [] (X64.push 2) (λ p h. push_pop-laid p 80 rdx h refl) (λ rest. refl)

pub Computes-pop-rdx : Computes 1 (pop rdx) (execute_ins (X64.pop 2))
unfolding pop read_ins read_plain ◌+ℤ◌
Computes-pop-rdx =
    Computes-one 90 [] (X64.pop 2) (λ p h. push_pop-laid p 88 rdx h refl) (λ rest. refl)

pub Computes-jmp : (o : ℤ) → Computes 5 (jmp o) (execute_ins (jump (ℤ_to_u32 o)))
unfolding read_ins read_plain
Computes-jmp o =
    Computes-one 0xE9 (u32_bytes (ℤ_to_u32 o)) (jump (ℤ_to_u32 o)) (λ p h. op_i32-laid p 0xE9 o h)
      (λ rest. with_word-u32 jump o rest)

-- TEST EAX, EAX and a jump on the zero flag
pub Computes-jump_zero :
    (o : ℤ)
    → Computes 8
        (jump_zero o)
        (and_then (execute_ins (test 0)) (execute_ins (jump_if true (ℤ_to_u32 o))))
unfolding read_ins read_plain read_escaped
Computes-jump_zero o =
    Computes-two 0x85 (0xC0 ∷ []) 0x0F (0x84 ∷ u32_bytes (ℤ_to_u32 o)) (test 0)
      (jump_if true (ℤ_to_u32 o)) (λ p h. jump_zero-laid p o h) (λ rest. refl)
      (λ rest. with_word-u32 (jump_if true) o rest)

pub Computes-jump_not_zero :
    (o : ℤ)
    → Computes 8
        (jump_not_zero o)
        (and_then (execute_ins (test 0)) (execute_ins (jump_if false (ℤ_to_u32 o))))
unfolding read_ins read_plain read_escaped
Computes-jump_not_zero o =
    Computes-two 0x85 (0xC0 ∷ []) 0x0F (0x85 ∷ u32_bytes (ℤ_to_u32 o)) (test 0)
      (jump_if false (ℤ_to_u32 o)) (λ p h. jump_not_zero-laid p o h) (λ rest. refl)
      (λ rest. with_word-u32 (jump_if false) o rest)
