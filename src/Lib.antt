-- ===== src/Lib.antt =====
-- The MIPS64 emulator: a model of its C sources and what holds of them.
--
-- The program is a small library. A `Mips64Emulator` (src/mips64/core.c) owns a block of guest
-- memory and a processor; its API creates it, loads a program image into the block, fetches, steps
-- and runs. Beside it stand parts that the emulator object does not call yet: the processor's own
-- interface, the decoder of 32-bit words, the instructions that are executed on a processor, a
-- 64 MB memory with accesses of four widths, a reader of ELF headers, and a generator of x86-64
-- machine code from MIPS-like instructions.
--
-- Which file models what:
--   Types     the enums and structs of include/mips64/core.h: `Mips64Status`, `Mips64Endian`,
--             `Mips64StopReason`, `Mips64Config`, `Mips64ProgramImage`, `Mips64StepInfo` and
--             `Mips64RunInfo`
--   Cpu       include/mips64/cpu.h, src/mips64/cpu.c: `reset` is `mips64_cpu_reset`, `get_gpr`
--             is `mips64_cpu_mips_get_gpr`, and `set_gpr`, `get_pc` and `set_pc` are
--             `mips64_cpu_` with the same name
--   Decode    include/mips64/decode.h, src/mips64/decode.c: `decode_instruction`; Decode.Opcodes
--             and Decode.Functions the two enums
--   Execute   src/mips64/execute.c: `execute` is `mips64_cpu_execute`; `execute_nop`,
--             `execute_add`, `execute_addu`, `execute_daddu`, `execute_daddiu` and
--             `execute_special` are the functions of these names. Execute.Cycles calls Memory,
--             Decode and Execute in turn, which the sources leave to their user
--   Memory    include/mips64/memory.h, src/mips64/memory.c: `init`, `reset`, `read8` to `read64`
--             and `write8` to `write64`; `gather` and `scatter` are the loops over eight bytes
--   Emulator  src/mips64/core.c: the object with `create` and `destroy`. Emulator.Access has the
--             setters and getters, `write_memory` and `load_program`; Emulator.Fetch the fetch,
--             `step` and `run_program`; Emulator.Reset `machine_reset`; Emulator.Dump the names,
--             the status texts and `debug_dump`
--   Elf       include/mips64/elf_loader.h, src/mips64/elf_loader.c: `load_elf`, the field readers
--             and the symbol hash. Elf.Format has the enums and structs, Elf.Layout what a
--             compiler makes of a struct: each member at a multiple of its alignment, which for a
--             number is its width
--   Jit       include/mips64/jit_compiler_x64.h and src/mips64/jit_compiler_x64.c: `Parsing` is
--             `struct JITParsing`, `encode` is `x8664_encode`, `info` and `info_jump` are
--             `JIT__INFO` and `JIT__INFO2`. Jit.Forms has the macros that lay out bytes,
--             Jit.Instructions one definition for each instruction macro, and Jit.Integer,
--             Jit.Branch, Jit.Float and Jit.Float4 the functions: `jit_add` is `JIT_ADD`. Jit.Ops
--             puts calls into sequences; Jit.X64 says how a processor reads and executes bytes.
--             Jit.Registers has the names of the registers on the two platforms
--   Base      numbers, lists, words, bits and the result type that the parts share
--
-- How the C is read. A number of w bits is a natural number with its wrap-around written out; the
-- signed ones of execute.c are integers. A pointer parameter is an `Option`, `none` for NULL; a
-- function returns its status with what its output pointers lead to afterwards. An `Outcome` is
-- `done` or `fault`: a null pointer that is followed, an index outside an array, a read of
-- something that is not there. That no call of a valid object ends in `fault` is part of the
-- theorems. The memory of memory.c is a function from an index to a byte, of which only the
-- indices below `max_size` can be read or written; the emulator's block is a list of bytes.
-- Pointers and `size_t` have 64 bits; the layout of the object that `machine_reset` overwrites
-- follows from that. Both allocations of `create` may fail: what `calloc` does is an argument. So is
-- what `snprintf` makes of a line of the dump; the callback is the list of texts it is handed.
--
-- The opcode of DADDIU is an argument of `execute`: the source names a constant that no header
-- declares. The read fields of an ELF header behind the three tests are read and dropped, as in
-- the source.
--
-- The code generator appends bytes to a buffer and entries to two tables; a store past the end of
-- one of them is a fault. `int` operands are integers, stored as 32 bits. A pointer into the buffer
-- or a table is an index, an entry of the table of starts may be unset, and `i1`, a pointer that is
-- only moved and stored, is a number. JIT_LOADF hands `*p` to a macro that writes `p->`; what its
-- text then means is `info_through`, and the values that it reads and drops are left out. The
-- x86-64 side, Jit.X64, is no code of the program but the description that the laid bytes are held
-- against: 16 registers, memory, and the zero and less conditions, with moves, arithmetic, shifts,
-- comparisons, loads and stores, the stack, jumps within the 32 bits of an offset and divisions of
-- numbers that are not negative. A division that traps and a byte that it does not know are
-- `stuck`. Returns, calls, floating point, immediate shifts and the addresses that ask for a further
-- byte are laid, bounded and noted, but not executed. Jit.Arithmetic says what a call that computes
-- means; Jit.Runs executes one call of a branch, a division or a store.
--
-- Loops: `run_loop` and the loops over eight bytes are recursions on the rounds left, with the
-- bound of the source, so that no fuel is chosen; `hash_loop` follows the bytes of the name. The
-- reader of Jit.X64 has as many rounds as there are bytes, and an instruction has a byte at least.
--
-- Not modelled: of the code generator, which is adapted from another author's and which nothing
-- calls, the branch of its header for another compiler, `JITState`, which no function uses, and the
-- names of the floating point registers, which are their numbers; the diagnostics that are printed;
-- src/main.c, whose `main` returns at once.
pub mod Base
pub mod Types
pub mod Cpu
pub mod Decode
pub mod Execute
pub mod Memory
pub mod Emulator
pub mod Elf
pub mod Jit
