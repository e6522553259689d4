-- ===== src/Jit/Registers.antt =====
-- The registers that include/mips64/jit_compiler_x64.h gives to the calls of the code generator.
pub mod Calls
use mips64_emulator.Base.{
  some_injective, ℕ, ◌+◌, ◌<◌, ◌≡◌, ◌≢◌, refl, ap, sym, ◌∙◌, arith, Bool, true, false, Option, none,
  some, ◌==◌, if◌then◌else◌, ltb, ◌&&◌,
}

-- `RAX` to `R15`
pub data X64Register : Type 0 where
  rax rcx rdx rbx rsp rbp rsi rdi r8 r9 r10 r11 r12 r13 r14 r15 : X64Register

abbrev pub x64_number : X64Register → ℕ
x64_number rax = 0
x64_number rcx = 1
x64_number rdx = 2
x64_number rbx = 3
x64_number rsp = 4
x64_number rbp = 5
x64_number rsi = 6
x64_number rdi = 7
x64_number r8 = 8
x64_number r9 = 9
x64_number r10 = 10
x64_number r11 = 11
x64_number r12 = 12
x64_number r13 = 13
x64_number r14 = 14
x64_number r15 = 15

-- Whether `_WIN32` is defined.
pub data Platform : Type 0 where
  windows unix : Platform

-- `RA1` to `RA4`
abbrev pub argument_1 : Platform → X64Register
argument_1 windows = rcx
argument_1 unix = rdi

abbrev pub argument_2 : Platform → X64Register
argument_2 windows = rdx
argument_2 unix = rsi

abbrev pub argument_3 : Platform → X64Register
argument_3 windows = r8
argument_3 unix = rdx

abbrev pub argument_4 : Platform → X64Register
argument_4 windows = r9
argument_4 unix = rcx

-- `JIT_R1` to `JIT_R7`, `JIT_RE`, `JIT_SP` and `JIT_A1` to `JIT_A4`
pub data JitRegister : Type 0 where
  jit_r1 jit_r2 jit_r3 jit_r4 jit_r5 jit_r6 jit_r7 jit_re jit_sp jit_a1 jit_a2 jit_a3 jit_a4 :
      JitRegister

abbrev pub x64_register : Platform → JitRegister → X64Register
x64_register windows jit_r1 = r10
x64_register windows jit_r2 = r11
x64_register unix jit_r1 = r8
x64_register unix jit_r2 = r9
x64_register w jit_r3 = rbx
x64_register w jit_r4 = r12
x64_register w jit_r5 = r13
x64_register w jit_r6 = r14
x64_register w jit_r7 = r15
x64_register w jit_re = rax
x64_register w jit_sp = rsp
x64_register w jit_a1 = argument_1 w
x64_register w jit_a2 = argument_2 w
x64_register w jit_a3 = argument_3 w
x64_register w jit_a4 = argument_4 w

abbrev pub number : Platform → JitRegister → ℕ
number w a = x64_number (x64_register w a)

-- The registers that no function of the generator uses for itself.
abbrev pub is_general : JitRegister → Bool
is_general jit_r1 = true
is_general jit_r2 = true
is_general jit_r3 = true
is_general jit_r4 = true
is_general jit_r5 = true
is_general jit_r6 = true
is_general jit_r7 = true
is_general _ = false

-- The name of a number, where six of the registers differ.
abbrev named_at : ℕ → ℕ → ℕ → ℕ → ℕ → ℕ → ℕ → Option JitRegister
named_at a b c d e f n =
    if n == a
    then some jit_r1
    else if n == b
    then some jit_r2
    else if n == 3
    then some jit_r3
    else if n == 12
    then some jit_r4
    else if n == 13
    then some jit_r5
    else if n == 14
    then some jit_r6
    else if n == 15
    then some jit_r7
    else if n == 0
    then some jit_re
    else if n == 4
    then some jit_sp
    else if n == c
    then some jit_a1
    else if n == d
    then some jit_a2
    else if n == e
    then some jit_a3
    else if n == f
    then some jit_a4
    else none

abbrev named : Platform → ℕ → Option JitRegister
named windows n = named_at 10 11 1 2 8 9 n
named unix n = named_at 8 9 7 6 2 1 n

named-number : (w : Platform) (a : JitRegister) → named w (number w a) ≡ some a
named-number windows jit_r1 = refl
named-number windows jit_r2 = refl
named-number windows jit_r3 = refl
named-number windows jit_r4 = refl
named-number windows jit_r5 = refl
named-number windows jit_r6 = refl
named-number windows jit_r7 = refl
named-number windows jit_re = refl
named-number windows jit_sp = refl
named-number windows jit_a1 = refl
named-number windows jit_a2 = refl
named-number windows jit_a3 = refl
named-number windows jit_a4 = refl
named-number unix jit_r1 = refl
named-number unix jit_r2 = refl
named-number unix jit_r3 = refl
named-number unix jit_r4 = refl
named-number unix jit_r5 = refl
named-number unix jit_r6 = refl
named-number unix jit_r7 = refl
named-number unix jit_re = refl
named-number unix jit_sp = refl
named-number unix jit_a1 = refl
named-number unix jit_a2 = refl
named-number unix jit_a3 = refl
named-number unix jit_a4 = refl

-- No two of the names are one register.
pub number-injective : (w : Platform) (a b : JitRegister) → number w a ≡ number w b → a ≡ b
number-injective w a b e =
    some_injective (sym (named-number w a) ∙ ap (named w) e ∙ named-number w b)

-- What the functions ask of a register that they write or shift by.
pub record IsFree (n : ℕ) : Type 0 where
  pub register : n < 16
  pub not_result : n ≢ 0
  pub not_count : n ≢ 1
  pub not_stack : n ≢ 4

IsFree-number : (n : ℕ) → (if n == 3 then true else ltb 7 n && ltb n 16) ≡ true → IsFree n
IsFree-number n e = record {
  register = ground arith;
  not_result = ground arith;
  not_count = ground arith;
  not_stack = ground arith;
}

pub general-IsFree : (w : Platform) (a : JitRegister) → is_general a ≡ true → IsFree (number w a)
general-IsFree windows jit_r1 e = IsFree-number 10 refl
general-IsFree windows jit_r2 e = IsFree-number 11 refl
general-IsFree unix jit_r1 e = IsFree-number 8 refl
general-IsFree unix jit_r2 e = IsFree-number 9 refl
general-IsFree w jit_r3 e = IsFree-number 3 refl
general-IsFree w jit_r4 e = IsFree-number 12 refl
general-IsFree w jit_r5 e = IsFree-number 13 refl
general-IsFree w jit_r6 e = IsFree-number 14 refl
general-IsFree w jit_r7 e = IsFree-number 15 refl
general-IsFree w jit_re e = cc
general-IsFree w jit_sp e = cc
general-IsFree w jit_a1 e = cc
general-IsFree w jit_a2 e = cc
general-IsFree w jit_a3 e = cc
general-IsFree w jit_a4 e = cc
