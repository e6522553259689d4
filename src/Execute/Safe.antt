-- ===== src/Execute/Safe.antt =====
-- src/mips64/execute.c with src/mips64/decode.c: one instruction word on a valid processor.
use mips64_emulator.Base.{
  ℕ, ◌+◌, ◌/◌, ◌%◌, ◌^◌, ◌<◌, ◌≡◌, refl, arith, some, done, ◌>>=◌, get_elem?, inl, inr, Bool-cases,
  ◌⊎◌, get_or, get_elem?-get_or, All-get_elem?, ◌==◌, if◌then◌else◌, u64,
}
use mips64_emulator.Base.Int.{ℤ, pos, negsuc, ◌+ℤ◌, signed64, ℤ_to_u64}
use mips64_emulator.Types.{Status, ok, not_implemented}
use mips64_emulator.Cpu.{Cpu, IsValid}
use mips64_emulator.Cpu.Valid.{with_gpr, with_gpr-IsValid}
use mips64_emulator.Decode.{Decoded, decode_instruction}
use mips64_emulator.Decode.Fields.{fields_of, decode_instruction-fields_of}
use mips64_emulator.Execute.{execute, execute_nop, execute_special}
use mips64_emulator.Execute.Arith.{after, execute_daddu-after, execute_daddiu-after}

-- A register's value.
abbrev pub reg : Cpu → ℕ → ℕ
reg cpu i = get_or cpu.gpr i 0

-- PC moved on, registers kept.
abbrev pub skipped : Cpu → Cpu
skipped cpu = record cpu { pc = u64 (cpu.pc + 4) }

-- What a 32-bit word does, read off its bits.
abbrev pub word_effect : ℕ → ℕ → Cpu → Status × Cpu
word_effect opcode_daddiu raw cpu =
    let rs = raw / 2 ^ 21 % 32 in
    let rt = raw / 2 ^ 16 % 32 in
    let rd = raw / 2 ^ 11 % 32 in
    if raw == 0
    then (ok, skipped cpu)
    else if raw / 2 ^ 26 == 0
    then (if raw % 64 == 0x2D
        then (ok, after cpu rd ((reg cpu rs + reg cpu rt) % 2 ^ 64))
        else (not_implemented, cpu))
    else if raw / 2 ^ 26 == opcode_daddiu
    then (ok, after cpu rt (ℤ_to_u64 (signed64 (reg cpu rs) +ℤ pos (raw % 2 ^ 12))))
    else (not_implemented, cpu)

reg-lt : (cpu : Cpu) (i : ℕ) → IsValid cpu → i < 32 → reg cpu i < 2 ^ 64
reg-lt cpu i v h =
    All-get_elem? (λ w. w < 2 ^ 64) cpu.gpr i v.words
      (get_elem?-get_or cpu.gpr i 0 (omega (arith, v.registers)))

has_reg : (cpu : Cpu) (i : ℕ) → IsValid cpu → i < 32 → get_elem? cpu.gpr i ≡ some (reg cpu i)
has_reg cpu i v h = get_elem?-get_or cpu.gpr i 0 (omega (arith, v.registers))

module _ (opcode_daddiu : ℕ) (raw : ℕ) (cpu : Cpu) (word : raw < 2 ^ 32) (v : IsValid cpu) where
  -- For every 32-bit word, valid processor and DADDIU opcode: decoding the word and executing it
  -- meets no fault and does what the bits say: NOP, DADDU modulo 2 ^ 64, DADDIU with the low 12
  -- bits of the immediate, or a refusal that changes nothing.
  pub execute-word_effect :
      (out : Decoded)
      → (decode_instruction raw (some out) >>= λ i. execute opcode_daddiu (some cpu) (some i))
        ≡ (let (s, c) = word_effect opcode_daddiu raw cpu in done (s, some c))
  unfolding execute execute_nop execute_special
  execute-word_effect out = rw (decode_instruction-fields_of raw out word) (
      ground (
        arith,
        execute_daddu-after cpu (fields_of raw out.offset) v (reg cpu (raw / 2 ^ 21 % 32))
            (reg cpu (raw / 2 ^ 16 % 32)) (has_reg cpu (raw / 2 ^ 21 % 32) v (omega arith))
            (has_reg cpu (raw / 2 ^ 16 % 32) v (omega arith)) (omega arith),
        execute_daddiu-after cpu (fields_of raw out.offset) v (reg cpu (raw / 2 ^ 21 % 32))
            (reg cpu (raw / 2 ^ 16 % 32)) (has_reg cpu (raw / 2 ^ 21 % 32) v (omega arith))
            (has_reg cpu (raw / 2 ^ 16 % 32) v (omega arith))
            (reg-lt cpu (raw / 2 ^ 21 % 32) v (omega arith)) (omega arith) (omega arith),
      ))

-- Either the word was executed and the PC moved on by 4, or it was refused and nothing changed.
abbrev pub IsStep : Cpu → Status → Cpu → Type 0
IsStep cpu s cpu' =
    ((s ≡ ok) × (cpu'.pc ≡ (cpu.pc + 4) % 2 ^ 64)) ⊎ ((s ≡ not_implemented) × (cpu' ≡ cpu))

advanced-IsValid : (cpu : Cpu) (pc : ℕ) → IsValid cpu → IsValid (record cpu { pc = u64 pc })
advanced-IsValid cpu pc v = record {
  registers = v.registers;
  words = v.words;
  zero_register = v.zero_register;
  pc_word = omega arith;
  hi_word = v.hi_word;
  lo_word = v.lo_word;
}

after-IsValid :
    (cpu : Cpu) (index value : ℕ) → IsValid cpu → value < 2 ^ 64 → IsValid (after cpu index value)
after-IsValid cpu index value v w =
    advanced-IsValid (with_gpr cpu index value) (cpu.pc + 4) (with_gpr-IsValid cpu index value v w)

ℤ_to_u64-lt : (a : ℤ) → ℤ_to_u64 a < 2 ^ 64
ℤ_to_u64-lt (pos n) = omega arith
ℤ_to_u64-lt (negsuc n) = omega arith

pub word_effect-IsValid :
    (opcode_daddiu raw : ℕ) (cpu : Cpu)
    → IsValid cpu
    → (let (s, c) = word_effect opcode_daddiu raw cpu in IsValid c × IsStep cpu s c)
word_effect-IsValid opcode_daddiu raw cpu v = elim (Bool-cases (raw == 0)) [
  | inl nop ↦ rw nop (advanced-IsValid cpu (cpu.pc + 4) v, inl (refl, refl))
  | inr other ↦ rw other (elim (Bool-cases (raw / 2 ^ 26 == 0)) [
    | inl special ↦ rw special (elim (Bool-cases (raw % 64 == 0x2D)) [
      | inl daddu ↦ rw daddu (after-IsValid cpu _ _ v (omega arith), inl (refl, refl))
      | inr unknown ↦ rw unknown (v, inr (refl, refl))
    ])
    | inr op ↦ rw op (elim (Bool-cases (raw / 2 ^ 26 == opcode_daddiu)) [
      | inl daddiu ↦ rw daddiu (after-IsValid cpu _ _ v (ℤ_to_u64-lt _), inl (refl, refl))
      | inr unknown ↦ rw unknown (v, inr (refl, refl))
    ])
  ])
]

-- Every 32-bit word on a valid processor, with any DADDIU opcode, is executed or refused as not
-- implemented, with no fault; the processor stays valid, an executed word moves the PC on by 4,
-- and a refused one changes nothing.
execute-IsValid :
    (opcode_daddiu raw : ℕ) (cpu : Cpu) (out : Decoded)
    → raw < 2 ^ 32
    → IsValid cpu
    → (s : Status) × (cpu' : Cpu) × ((decode_instruction raw (some out) >>= λ i.
          execute opcode_daddiu (some cpu) (some i))
        ≡ done (s, some cpu'))
      × IsValid cpu'
      × IsStep cpu s cpu'
execute-IsValid opcode_daddiu raw cpu out word v =
    let (s, c) = word_effect opcode_daddiu raw cpu in
    let (valid, step) = word_effect-IsValid opcode_daddiu raw cpu v in
    (s, c, execute-word_effect opcode_daddiu raw cpu word v out, valid, step)
