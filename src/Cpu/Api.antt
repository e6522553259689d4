-- ===== src/Cpu/Api.antt =====
-- src/mips64/cpu.c: what the register and PC accessors promise, alone and in any sequence.
use mips64_emulator.Base.{
  ℕ, zero, suc, ◌<◌, ◌≡◌, ◌^◌, ◌%◌, refl, arith, Option, some, Outcome, done, ◌>>=◌, List, [], ◌∷◌,
  All, set, length-set, get_elem?, get_elem?-set_self, get_elem?-set_ne, leb, ◌==◌, ◌&&◌, not,
  if◌then◌else◌, Bool-cases, inl, inr, bit_and,
}
use mips64_emulator.Base.Bits.{bit_and-mask}
use mips64_emulator.Types.{Status, ok, unaligned_pc, invalid_register}
use mips64_emulator.Cpu.{Cpu, IsValid, reset, get_gpr, set_gpr, set_pc}
use mips64_emulator.Cpu.Valid.{with_gpr, write_gpr-with_gpr, with_gpr-IsValid, zero_cpu-IsValid}

pub set_gpr-eq :
    (cpu : Cpu) (index value : ℕ)
    → IsValid cpu
    → index < 32
    → set_gpr (some cpu) index value ≡ done (ok, some (with_gpr cpu index value))
unfolding set_gpr
set_gpr-eq cpu index value v h = ground (arith, write_gpr-with_gpr cpu index value)

-- The register file of `with_gpr`, read at `j`.
get_elem?-with_gpr :
    (cpu : Cpu) (i j value : ℕ)
    → IsValid cpu
    → i < 32
    → get_elem? (with_gpr cpu i value).gpr (suc j)
      ≡ (if suc j == i then some value else get_elem? cpu.gpr (suc j))
get_elem?-with_gpr cpu i j value v h = ground (
  arith,
  length-set cpu.gpr i value,
  get_elem?-set_ne cpu.gpr 0 (suc j) 0,
  get_elem?-set_ne (set cpu.gpr i value) 0 (suc j) 0,
  get_elem?-set_ne cpu.gpr i (suc j) value,
  get_elem?-set_self cpu.gpr i value,
)

-- On a valid processor, for two register numbers below 32: after register `i` was set, register
-- `j` holds the value if `j` is `i` and not 0, and what it held before otherwise; both calls
-- succeed.
set_gpr-get_gpr :
    (cpu : Cpu) (i j value old : ℕ)
    → IsValid cpu
    → i < 32
    → j < 32
    → (set_gpr (some cpu) i value >>= λ (s, c). get_gpr c j (some old))
      ≡ (if j == i && not (i == 0) then done (ok, some value) else get_gpr (some cpu) j (some old))
unfolding get_gpr
set_gpr-get_gpr cpu i zero value old v hi hj = rw (set_gpr-eq cpu i value v hi) (ground arith)
set_gpr-get_gpr cpu i (suc j) value old v hi hj =
    rw (set_gpr-eq cpu i value v hi) (ground (arith, get_elem?-with_gpr cpu i j value))

-- A call that changes the processor, with its arguments.
pub data Call : Type 0 where
  reset_to : ℕ → Call
  set_register : ℕ → ℕ → Call
  set_pc_to : ℕ → Call

abbrev pub perform : Call → Option Cpu → Outcome (Status × Option Cpu)
perform (reset_to pc) c = reset c pc
perform (set_register i value) c = set_gpr c i value
perform (set_pc_to pc) c = set_pc c pc

-- The arguments are values of their C types: 64-bit words.
abbrev pub FitsWords : Call → Type 0
FitsWords (reset_to pc) = pc < 2 ^ 64
FitsWords (set_register i value) = value < 2 ^ 64
FitsWords (set_pc_to pc) = pc < 2 ^ 64

-- The calls one after another, whatever status each returns.
pub perform_all : List Call → Option Cpu → Outcome (Option Cpu)
perform_all [] c = done c
perform_all (call ∷ calls) c = perform call c >>= λ (s, c'). perform_all calls c'

perform-IsValid :
    (call : Call) (cpu : Cpu)
    → FitsWords call
    → IsValid cpu
    → (s : Status) × (cpu' : Cpu) × (perform call (some cpu) ≡ done (s, some cpu')) × IsValid cpu'
unfolding reset set_pc set_gpr
perform-IsValid (reset_to pc) cpu w v = (ok, _, refl, zero_cpu-IsValid pc w)
perform-IsValid (set_register i value) cpu w v = elim (Bool-cases (leb 32 i)) [
  | inl out ↦ (invalid_register, cpu, rw out, v)
  | inr in_range ↦ (
    ok,
    with_gpr cpu i value,
    rw (in_range, write_gpr-with_gpr cpu i value v.registers (ground arith)),
    with_gpr-IsValid cpu i value v w,
  )
]
perform-IsValid (set_pc_to pc) cpu w v = elim (Bool-cases (not (bit_and pc 3 == 0))) [
  | inl off ↦ (unaligned_pc, cpu, rw off, v)
  | inr aligned ↦ (
    ok,
    record cpu { pc = pc },
    rw aligned,
    record {
      registers = v.registers;
      words = v.words;
      zero_register = v.zero_register;
      pc_word = w;
      hi_word = v.hi_word;
      lo_word = v.lo_word;
    },
  )
]

-- From a valid processor every sequence of resets, register writes and PC writes with 64-bit
-- arguments, accepted or refused, runs with no fault and ends in a valid processor: 32 words
-- with register 0 at 0.
pub perform_all-IsValid :
    (calls : List Call) (cpu : Cpu)
    → All FitsWords calls
    → IsValid cpu
    → (cpu' : Cpu) × (perform_all calls (some cpu) ≡ done (some cpu')) × IsValid cpu'
unfolding perform_all
perform_all-IsValid [] cpu w v = (cpu, refl, v)
perform_all-IsValid (call ∷ calls) cpu w v =
    let (s, cpu', e, v') = perform-IsValid call cpu w.0 v in
    let (cpu'', e', v'') = perform_all-IsValid calls cpu' w.1 v' in (cpu'', rw e e', v'')

-- The PC of a processor can be set exactly to the multiples of 4; any other value is refused and
-- changes nothing.
set_pc-accepts :
    (cpu : Cpu) (pc : ℕ)
    → set_pc (some cpu) pc ≡ (
        if pc % 4 == 0
        then done (ok, some (record cpu { pc = pc }))
        else done (unaligned_pc, some cpu))
unfolding set_pc
set_pc-accepts cpu pc = ground (arith, bit_and-mask 2 pc)
