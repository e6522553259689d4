-- ===== src/Jit/Instructions.antt =====
-- The instructions and registers of include/mips64/jit_compiler_x64.h.
use mips64_emulator.Base.Int.{ℤ, pos, negsuc}
use mips64_emulator.Jit.{Emitter}
use mips64_emulator.Jit.Forms.{op_i32, op_0f, rr, rr_0f, rr_float, rm_float, rm_float4, ri8, ri32}

abbrev pub rax : ℤ
rax = pos 0

abbrev pub rcx : ℤ
rcx = pos 1

abbrev pub rdx : ℤ
rdx = pos 2

-- `AL`, in a `SETcc` or as the source of `MOVZX`
abbrev pub al : ℤ
al = rax

-- `JIT_SP`
abbrev pub sp : ℤ
sp = pos 4

-- `JIT_R0`, the register that is always zero
abbrev pub r0 : ℤ
r0 = negsuc 0

abbrev pub jmp : ℤ → Emitter
jmp off = op_i32 0xE9 off

abbrev pub calli32 : ℤ → Emitter
calli32 off = op_i32 0xE8 off

abbrev pub setl : ℤ → Emitter
setl src = op_0f 0x9C (pos 0) src

abbrev pub setg : ℤ → Emitter
setg src = op_0f 0x9F (pos 0) src

abbrev pub sete : ℤ → Emitter
sete src = op_0f 0x94 (pos 0) src

abbrev pub seta : ℤ → Emitter
seta src = op_0f 0x97 (pos 0) src

abbrev pub setne : ℤ → Emitter
setne src = op_0f 0x95 (pos 0) src

abbrev pub movzx : ℤ → ℤ → Emitter
movzx dest src = op_0f 0xB6 dest src

abbrev pub mov : ℤ → ℤ → Emitter
mov dest src = rr 0x89 dest src 1

abbrev pub add : ℤ → ℤ → Emitter
add dest src = rr 0x01 dest src 1

abbrev pub sub : ℤ → ℤ → Emitter
sub dest src = rr 0x29 dest src 1

abbrev pub and : ℤ → ℤ → Emitter
and dest src = rr 0x21 dest src 1

abbrev pub or : ℤ → ℤ → Emitter
or dest src = rr 0x09 dest src 1

abbrev pub xor : ℤ → ℤ → Emitter
xor dest src = rr 0x31 dest src 1

abbrev pub idiv32 : ℤ → Emitter
idiv32 src = rr 0xF7 src (pos 7) 0

abbrev pub idiv64 : ℤ → Emitter
idiv64 src = rr 0xF7 src (pos 7) 1

abbrev pub sar1 : ℤ → Emitter
sar1 src = rr 0xD1 src (pos 7) 1

abbrev pub sal1 : ℤ → Emitter
sal1 src = rr 0xD1 src (pos 4) 1

abbrev pub sar : ℤ → Emitter
sar src = rr 0xD3 src (pos 7) 1

abbrev pub sal : ℤ → Emitter
sal src = rr 0xD3 src (pos 4) 1

abbrev pub cmp32 : ℤ → ℤ → Emitter
cmp32 dest src = rr 0x39 dest src 0

abbrev pub cmp64 : ℤ → ℤ → Emitter
cmp64 dest src = rr 0x39 dest src 1

abbrev pub call64 : ℤ → Emitter
call64 src = rr 0xFF src (pos 2) 1

abbrev pub imul : ℤ → ℤ → Emitter
imul dest src = rr_0f 0xAF src dest 3 1

abbrev pub ucomiss : ℤ → ℤ → Emitter
ucomiss dest src = rr_0f 0x2E src dest 3 0

abbrev pub movups : ℤ → ℤ → Emitter
movups dest src = rr_0f 0x10 src dest 3 0

abbrev pub addps : ℤ → ℤ → Emitter
addps dest src = rr_0f 0x58 src dest 3 0

abbrev pub subps : ℤ → ℤ → Emitter
subps dest src = rr_0f 0x5C src dest 3 0

abbrev pub mulps : ℤ → ℤ → Emitter
mulps dest src = rr_0f 0x59 src dest 3 0

abbrev pub divps : ℤ → ℤ → Emitter
divps dest src = rr_0f 0x5E src dest 3 0

abbrev pub minps : ℤ → ℤ → Emitter
minps dest src = rr_0f 0x5D src dest 3 0

abbrev pub maxps : ℤ → ℤ → Emitter
maxps dest src = rr_0f 0x5F src dest 3 0

abbrev pub sqrtps : ℤ → ℤ → Emitter
sqrtps dest src = rr_0f 0x51 src dest 3 0

abbrev pub addi8 : ℤ → ℤ → Emitter
addi8 dest im = ri8 0x83 dest (pos 0) im 3 1

abbrev pub subi8 : ℤ → ℤ → Emitter
subi8 dest im = ri8 0x83 dest (pos 5) im 3 1

abbrev pub sari : ℤ → ℤ → Emitter
sari src im = ri8 0xC1 src (pos 7) im 3 1

abbrev pub sali : ℤ → ℤ → Emitter
sali src im = ri8 0xC1 src (pos 4) im 3 1

abbrev pub cmpi8 : ℤ → ℤ → Emitter
cmpi8 dest im = ri8 0x83 dest (pos 7) im 3 1

abbrev pub movi32 : ℤ → ℤ → Emitter
movi32 dest im = ri32 0xC7 dest (pos 0) im 3 1

abbrev pub addi32 : ℤ → ℤ → Emitter
addi32 dest im = ri32 0x81 dest (pos 0) im 3 1

abbrev pub load64 : ℤ → ℤ → ℤ → Emitter
load64 dest src off = ri32 0x8B src dest off 2 1

abbrev pub store64 : ℤ → ℤ → ℤ → Emitter
store64 dest off src = ri32 0x89 dest src off 2 1

abbrev pub load32 : ℤ → ℤ → ℤ → Emitter
load32 dest src off = ri32 0x8B src dest off 2 0

abbrev pub store32 : ℤ → ℤ → ℤ → Emitter
store32 dest off src = ri32 0x89 dest src off 2 0

abbrev pub movss : ℤ → ℤ → Emitter
movss dest src = rr_float 0xF3 0x10 dest src 0

abbrev pub addss : ℤ → ℤ → Emitter
addss dest src = rr_float 0xF3 0x58 dest src 0

abbrev pub subss : ℤ → ℤ → Emitter
subss dest src = rr_float 0xF3 0x5C dest src 0

abbrev pub mulss : ℤ → ℤ → Emitter
mulss dest src = rr_float 0xF3 0x59 dest src 0

abbrev pub divss : ℤ → ℤ → Emitter
divss dest src = rr_float 0xF3 0x5E dest src 0

abbrev pub minss : ℤ → ℤ → Emitter
minss dest src = rr_float 0xF3 0x5D dest src 0

abbrev pub maxss : ℤ → ℤ → Emitter
maxss dest src = rr_float 0xF3 0x5F dest src 0

abbrev pub sqrtss : ℤ → ℤ → Emitter
sqrtss dest src = rr_float 0xF3 0x51 dest src 0

abbrev pub cvtsi2ss : ℤ → ℤ → Emitter
cvtsi2ss dest src = rr_float 0xF3 0x2A dest src 1

abbrev pub cvtss2si : ℤ → ℤ → Emitter
cvtss2si dest src = rr_float 0xF3 0x2D dest src 1

abbrev pub pxor : ℤ → ℤ → Emitter
pxor dest src = rr_float 0x66 0xEF dest src 0

abbrev pub loadss : ℤ → ℤ → ℤ → Emitter
loadss dest src off = rm_float 0x10 src dest off

abbrev pub storess : ℤ → ℤ → ℤ → Emitter
storess dest off src = rm_float 0x11 dest src off

abbrev pub loadups : ℤ → ℤ → ℤ → Emitter
loadups dest src off = rm_float4 0x10 src dest off

abbrev pub storeups : ℤ → ℤ → ℤ → Emitter
storeups dest off src = rm_float4 0x11 dest src off
