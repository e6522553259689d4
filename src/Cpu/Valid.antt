-- ===== src/Cpu/Valid.antt =====
-- src/mips64/cpu.c: writes to the register file keep the processor state valid.
use mips64_emulator.Base.{
  ℕ, zero, suc, ◌<◌, ◌≡◌, ◌^◌, refl, arith, done, false, List, ◌∙◌, length, All, set, length-set,
  get_elem?-set_self, get_elem?-lt, All-set, All-replicate, ◌==◌, if◌then◌else◌,
}
use mips64_emulator.Cpu.{Cpu, IsValid, write_gpr, zero_cpu}

-- The state after `gpr[index] = value` (unless `index` is 0) and `gpr[0] = 0`.
abbrev pub with_gpr : Cpu → ℕ → ℕ → Cpu
with_gpr cpu index value = record cpu {
  gpr = set (if index == 0 then cpu.gpr else set cpu.gpr index value) 0 0;
}

-- On 32 registers the two writes are done, for every index in range.
pub write_gpr-with_gpr :
    (cpu : Cpu) (index value : ℕ)
    → length cpu.gpr ≡ 32
    → index < 32
    → write_gpr cpu index value ≡ done (with_gpr cpu index value)
unfolding write_gpr
write_gpr-with_gpr cpu index value l h = ground (
  arith,
  get_elem?-lt cpu.gpr index,
  get_elem?-lt cpu.gpr 0,
  length-set cpu.gpr index value,
  get_elem?-lt (set cpu.gpr index value) 0,
)

-- Zeroing register 0 of 32 words gives a valid register file.
zeroed-IsValid :
    (cpu : Cpu) (xs : List ℕ)
    → IsValid cpu
    → length xs ≡ 32
    → All (λ v. v < 2 ^ 64) xs
    → IsValid (record cpu { gpr = set xs 0 0 })
zeroed-IsValid cpu xs v l w = record {
  registers = length-set xs 0 0 ∙ l;
  words = All-set (λ v. v < 2 ^ 64) xs 0 0 (omega arith) w;
  zero_register = get_elem?-set_self xs 0 0 (omega arith);
  pc_word = v.pc_word;
  hi_word = v.hi_word;
  lo_word = v.lo_word;
}

pub with_gpr-IsValid :
    (cpu : Cpu) (index value : ℕ)
    → IsValid cpu
    → value < 2 ^ 64
    → IsValid (with_gpr cpu index value)
with_gpr-IsValid cpu zero value v w = zeroed-IsValid cpu cpu.gpr v v.registers v.words
with_gpr-IsValid cpu (suc i) value v w =
    let e : (suc i == 0) ≡ false = ground arith in
    rw e (
      zeroed-IsValid cpu (set cpu.gpr (suc i) value) v
        (length-set cpu.gpr (suc i) value ∙ v.registers)
        (All-set (λ v. v < 2 ^ 64) cpu.gpr (suc i) value w v.words))

pub zero_cpu-IsValid : (pc : ℕ) → pc < 2 ^ 64 → IsValid (record zero_cpu { pc = pc })
zero_cpu-IsValid pc h = record {
  registers = refl;
  words = All-replicate (λ v. v < 2 ^ 64) 32 0 (omega arith);
  zero_register = refl;
  pc_word = h;
  hi_word = omega arith;
  lo_word = omega arith;
}
