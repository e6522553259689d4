-- ===== src/Execute/Tests.antt =====
-- The interpreter at concrete instructions.
use mips64_emulator.Base.{
  ◌↔◌, ℕ, zero, suc, ◌+◌, ◌*◌, ◌<◌, true, [], ◌∷◌, ◌≡◌, refl, arith, some, done, ◌>>=◌,
}
use mips64_emulator.Types.{ok, integer_overflow, not_implemented}
use mips64_emulator.Cpu.{Cpu, IsValid, zero_cpu}
use mips64_emulator.Cpu.Valid.{with_gpr, with_gpr-IsValid, zero_cpu-IsValid}
use mips64_emulator.Decode.{Decoded, decode_instruction}
use mips64_emulator.Types.{little}
use mips64_emulator.Memory.{Memory}
use mips64_emulator.Memory.Spec.{overlay, HoldsBytes}
use mips64_emulator.Execute.Cycles.{Run, by_rounds, run_cycles, word_at}
use mips64_emulator.Execute.Cycles.Relation.{Reaches, here, further, nop, daddu, run_cycles-Reaches}
use mips64_emulator.Execute.Cycles.Ends.{IsRun, run_cycles-IsRun}
use mips64_emulator.Execute.Cycles.Programs.{IsProgram, is_implemented, run_cycles-by_rounds}
use mips64_emulator.Execute.{execute, execute_special, execute_add}
use mips64_emulator.Execute.Arith.{after, execute_add-after}
use mips64_emulator.Execute.Safe.{skipped, execute-word_effect}

-- Register 1 holds 2 ^ 31 - 1 and register 2 holds 1.
abbrev loaded : Cpu
loaded = with_gpr (with_gpr (record zero_cpu { pc = 0x100 }) 1 0x7FFFFFFF) 2 1

loaded-IsValid : IsValid loaded
loaded-IsValid =
    with_gpr-IsValid (with_gpr (record zero_cpu { pc = 0x100 }) 1 0x7FFFFFFF) 2 1
      (with_gpr-IsValid (record zero_cpu { pc = 0x100 }) 1 0x7FFFFFFF
        (zero_cpu-IsValid 0x100 (omega arith)) (omega arith))
      (omega arith)

-- An instruction that reads registers 1 and 2 and writes register 3.
abbrev add_3_1_2 : Decoded
add_3_1_2 = record {
  raw = 0x00221820;
  opcode = 0;
  rs = 1;
  rt = 2;
  rd = 3;
  shift_amount = 0;
  function = 0x20;
  immediate = 0x820;
  offset = 0;
  target = 0x00221820;
}

-- ADD is not among the functions that are dispatched.
add_not_dispatched :
    execute 0x19 (some loaded) (some add_3_1_2) ≡ done (not_implemented, some loaded)
unfolding execute execute_special
add_not_dispatched = refl

execute_add-after_example :
    execute_add (some loaded) (some add_3_1_2) ≡ done (integer_overflow, some loaded)
execute_add-after_example =
    execute_add-after loaded add_3_1_2 loaded-IsValid 0x7FFFFFFF 1 refl refl (omega arith)

-- daddiu $2, $1, -1
abbrev minus_one : Decoded
minus_one = record add_3_1_2 { opcode = 0x19; immediate = 0xFFFF }

execute-word_effect_example :
    (decode_instruction 0x0022182D (some add_3_1_2) >>= λ i. execute 0x19 (some loaded) (some i))
    ≡ done (ok, some (after loaded 3 0x80000000))
execute-word_effect_example =
    execute-word_effect 0x19 0x0022182D loaded (omega arith) loaded-IsValid add_3_1_2

-- NOP at 0x100 and daddu $3, $1, $2 behind it
abbrev program : Memory
program = record {
  memory = overlay (λ k. 0) 0x104 (0x2D ∷ 0x18 ∷ 0x22 ∷ 0x00 ∷ []);
  endian = little;
}

program-HoldsBytes : HoldsBytes program
program-HoldsBytes a = ground arith

program-IsProgram : IsProgram 0x19 program 2 0x100
program-IsProgram = (refl, omega arith, λ i lt. by_index i lt)
  where
    by_index : (i : ℕ) → i < 2 → is_implemented 0x19 (word_at program (0x100 + 4 * i)) ≡ true
    by_index zero lt = refl
    by_index (suc zero) lt = refl
    by_index (suc (suc i)) lt = absurd (omega arith)

abbrev finished : Cpu
finished = after (skipped loaded) 3 0x80000000

run_cycles-Reaches_example :
    (run_cycles 0x19 program add_3_1_2 2 loaded ≡ done (by_rounds, finished))
    ↔ Reaches 0x19 program 2 loaded finished
run_cycles-Reaches_example =
    run_cycles-Reaches 0x19 program add_3_1_2 2 loaded finished program-HoldsBytes loaded-IsValid

-- The two moves, in turn.
program_moves : Reaches 0x19 program 2 loaded finished
program_moves = further (nop loaded (refl, omega arith) refl) (
    further
      (daddu (skipped loaded) 1 2 3 0 (refl, omega arith)
        (omega arith, omega arith, omega arith, omega arith) refl)
      (here finished))

run_cycles-IsRun_example :
    (r : Run) × (run_cycles 0x19 program add_3_1_2 9 loaded ≡ done r) × IsRun 9 loaded r
run_cycles-IsRun_example =
    run_cycles-IsRun 0x19 program add_3_1_2 9 loaded program-HoldsBytes loaded-IsValid

run_cycles-by_rounds_example :
    (c : Cpu) × (run_cycles 0x19 program add_3_1_2 2 loaded ≡ done (by_rounds, c))
    × IsValid c
    × (c.pc ≡ 0x108)
run_cycles-by_rounds_example =
    run_cycles-by_rounds 0x19 program add_3_1_2 2 loaded program-HoldsBytes loaded-IsValid
      program-IsProgram
