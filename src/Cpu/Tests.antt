-- ===== src/Cpu/Tests.antt =====
-- The register and PC accessors at concrete inputs.
use mips64_emulator.Base.{
  ◌≡◌, refl, arith, Option, some, none, Outcome, done, fault, ◌>>=◌, List, [], ◌∷◌,
}
use mips64_emulator.Types.{Status, ok, invalid_register, invalid_argument, unaligned_pc}
use mips64_emulator.Cpu.{Cpu, IsValid, zero_cpu, reset, get_gpr, set_gpr, write_gpr, get_pc, set_pc}
use mips64_emulator.Cpu.Valid.{zero_cpu-IsValid}
use mips64_emulator.Cpu.Api.{
  Call, reset_to, set_register, set_pc_to, perform_all, perform_all-IsValid,
}

abbrev start : Cpu
start = record zero_cpu { pc = 0x1000 }

start-IsValid : IsValid start
start-IsValid = zero_cpu-IsValid 0x1000 (omega arith)

status_of : Outcome (Status × Option Cpu) → Outcome Status
status_of r = r >>= λ (s, c). done s

refusals :
    (status_of (set_gpr (some start) 32 1) ≡ done invalid_register)
    × (status_of (set_pc (some start) 0x1002) ≡ done unaligned_pc)
    × (reset none 0 ≡ fault)
    × (get_gpr none 3 (some 7) ≡ done (invalid_argument, some 7))
    × (get_pc (some start) (some 7) ≡ done (ok, some 0x1000))
unfolding status_of set_gpr set_pc reset get_gpr get_pc
refusals = (refl, refl, refl, refl, refl)

zero_register_kept : status_of (set_gpr (some start) 0 5) ≡ done ok
unfolding status_of set_gpr write_gpr
zero_register_kept = refl

abbrev session : List Call
session = set_register 4 9 ∷ set_register 40 1 ∷ set_pc_to 6 ∷ set_pc_to 8 ∷ reset_to 16 ∷ []

perform_all-IsValid_example :
    (c : Cpu) × (perform_all session (some start) ≡ done (some c)) × IsValid c
perform_all-IsValid_example = perform_all-IsValid session start (omega arith) start-IsValid
