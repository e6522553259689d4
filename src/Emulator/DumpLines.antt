-- ===== src/Emulator/DumpLines.antt =====
-- What `mips64_debug_dump` of src/mips64/core.c hands to its callback.
use Prim.Native.String.{String}
use mips64_emulator.Base.{
  ℕ, zero, suc, ◌+◌, ◌≡◌, refl, arith, Bool-cases, inl, inr, true, false, Option, none, some, List,
  [], ◌∷◌, length, get_elem?, done, access, ltb, leb, ◌==◌, if◌then◌else◌,
}
use mips64_emulator.Types.{Status, ok, internal_error}
use mips64_emulator.Emulator.{Emulator}
use mips64_emulator.Emulator.Dump.{
  core_name, core_version_string, fitting, write_line, dump_registers, debug_dump, Dump,
}
use mips64_emulator.Emulator.Valid.{IsValid}

-- The lines up to the first that fails or that takes, with the 0 behind it, more than the 128
-- bytes of the buffer; the status says whether there is such a line.
unfoldable pub written_lines : List (Option (List ℕ)) → Status × List (List ℕ)
written_lines [] = (ok, [])
written_lines (none ∷ rest) = (internal_error, [])
written_lines (some text ∷ rest) =
    let (s, texts) = written_lines rest in
    if leb (length text + 1) 128 then (s, text ∷ texts) else (internal_error, [])

module _ (format_header : String → String → ℕ → Option (List ℕ))
    (format_register : ℕ → ℕ → Option (List ℕ)) where
  -- The lines of a dump: the header, and one for each register by its number.
  abbrev pub register_lines : ℕ → List ℕ → List (Option (List ℕ))
  register_lines i [] = []
  register_lines i (value ∷ gpr) = format_register i value ∷ register_lines (i + 1) gpr

  abbrev pub dump_lines : Emulator → List (Option (List ℕ))
  dump_lines em = format_header "MIPS64 Emulator" "0.1.0" em.cpu.pc ∷ register_lines 0 em.cpu.gpr

  write_line-written_lines :
      (line : Option (List ℕ)) (rest : List (Option (List ℕ))) (r : Dump)
      → r ≡ done (written_lines rest)
      → write_line (fitting line) r ≡ done (written_lines (line ∷ rest))
  unfolding written_lines
  write_line-written_lines none rest r e = refl
  write_line-written_lines (some text) rest r e = rw e (elim (Bool-cases (ltb (length text) 128)) [
    | inl fits ↦
        let with_end : leb (length text + 1) 128 ≡ true = ground arith in rw (fits, with_end)
    | inr long ↦
        let with_end : leb (length text + 1) 128 ≡ false = ground arith in rw (long, with_end)
  ])

  -- The value that the loop passes for register `i`.
  register_value :
      (i v : ℕ) (gpr : List ℕ)
      → get_elem? gpr 0 ≡ some 0
      → get_elem? gpr i ≡ some v
      → (if i == 0 then done 0 else access (get_elem? gpr i)) ≡ done v
  register_value zero v gpr z e = cc
  register_value (suc i) v gpr z e =
      let later : (suc i == 0) ≡ false = ground arith in rw (e, later)

  dump_registers-register_lines :
      (i : ℕ) (gpr rest : List ℕ)
      → get_elem? gpr 0 ≡ some 0
      → ((k : ℕ) → get_elem? gpr (i + k) ≡ get_elem? rest k)
      → dump_registers format_header format_register (length rest) i gpr
        ≡ done (written_lines (register_lines i rest))
  unfolding dump_registers written_lines
  dump_registers-register_lines i gpr [] z same = refl
  dump_registers-register_lines i gpr (v ∷ rest) z same =
      let here : i + 0 ≡ i = omega arith in
      let next : (k : ℕ) → get_elem? gpr (i + 1 + k) ≡ get_elem? rest k =
        λ k. let e : i + suc k ≡ i + 1 + k = omega arith in rw e at (same (suc k)) in
      rw (register_value i v gpr z (rw here at (same 0))) (
        write_line-written_lines (format_register i v) (register_lines (i + 1) rest) _
          (dump_registers-register_lines (i + 1) gpr rest z next))

  -- For every formatter and every valid emulator a dump meets no fault and hands out the header,
  -- of the name MIPS64 Emulator, the version 0.1.0 and the PC, and one line for each register in
  -- order, up to the first line that cannot be formatted or has more than 128 bytes with its
  -- closing 0; it returns OK exactly if there is no such line, and INTERNAL_ERROR otherwise.
  pub debug_dump-dump_lines :
      (em : Emulator)
      → IsValid em
      → debug_dump format_header format_register (some em) true
        ≡ done (written_lines (dump_lines em))
  unfolding debug_dump
  debug_dump-dump_lines em v =
      write_line-written_lines (format_header core_name core_version_string em.cpu.pc)
        (register_lines 0 em.cpu.gpr) _
        (rw v.processor.registers at (
          dump_registers-register_lines 0 em.cpu.gpr em.cpu.gpr v.processor.zero_register
            (λ k. let e : 0 + k ≡ k = omega arith in rw e)))
