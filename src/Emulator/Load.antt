-- ===== src/Emulator/Load.antt =====
-- `mips64_load_program`: the image is written first, and the PC is set afterwards.
use mips64_emulator.Base.{
  ℕ, ◌+◌, ◌-◌, ◌%◌, ◌^◌, ◌<◌, ◌≡◌, refl, ap, ◌∙◌, arith, Bool, false, ◌&&◌, not, Option, some,
  Outcome, done, ◌>>=◌, ltb, leb, ◌==◌, if◌then◌else◌, Bool-cases, inl, inr,
}
use mips64_emulator.Types.{Status, ok, unaligned_pc, ProgramImage}
use mips64_emulator.Emulator.{Emulator}
use mips64_emulator.Emulator.Access.{is_null, write_memory, load_program, enter_program}
use mips64_emulator.Emulator.Valid.{IsValid, byte_at, set_pc-eq, with_pc-IsValid}
use mips64_emulator.Emulator.Write.{
  HoldsObject, source_byte, write_status, is_accepted, write_memory-IsWritten,
}

abbrev pub image_status : Emulator → ProgramImage → Status
image_status em image = write_status em image.load_address image.bytes image.size

-- The entry point is looked at only after the image was written.
abbrev pub enter_status : ProgramImage → Status → Status
enter_status image ok =
    if not (image.set_pc_to_entry == 0) && not (image.entry_point % 4 == 0)
    then unaligned_pc
    else ok
enter_status image s = s

abbrev pub is_entered : ProgramImage → Status → Bool
is_entered image s = is_accepted s && not (image.set_pc_to_entry == 0) && image.entry_point % 4 == 0

-- What loading leaves: the memory as the write of the image leaves it, also if the entry point is
-- refused; the PC at the entry point if that is asked for and accepted, and as it was otherwise.
pub record IsLoaded (em : Emulator) (image : ProgramImage)
    (result : Outcome (Status × Option Emulator)) : Type 0 where
  pub out : Emulator
  pub returns : result ≡ done (enter_status image (image_status em image), some out)
  pub valid : IsValid out
  pub processor : out.cpu ≡ (
      if is_entered image (image_status em image)
      then record em.cpu { pc = image.entry_point }
      else em.cpu)
  pub content :
      (j : ℕ)
      → byte_at out j ≡ (
          if is_accepted (image_status em image)
            && (leb image.load_address j && ltb j (image.load_address + image.size))
          then source_byte image.bytes (j - image.load_address)
          else byte_at em j)

-- The step after the write, whatever that returned.
entered :
    (image : ProgramImage) (em : Emulator) (s : Status)
    → IsValid em
    → image.entry_point < 2 ^ 64
    → (out : Emulator) × (enter_program image (s, some em) ≡ (enter_status image s, some out))
      × IsValid out
      × (out.cpu
          ≡ (if is_entered image s then record em.cpu { pc = image.entry_point } else em.cpu))
      × ((j : ℕ) → byte_at out j ≡ byte_at em j)
entered image em ok v w = elim (Bool-cases (not (image.set_pc_to_entry == 0))) [
  | inr stay ↦ (em, rw stay, v, rw stay, λ j. refl)
  | inl enter ↦ rw enter (
      rw (set_pc-eq em image.entry_point) (elim (Bool-cases (image.entry_point % 4 == 0)) [
        | inl aligned ↦ (
          record em { cpu = record em.cpu { pc = image.entry_point } },
          rw aligned,
          with_pc-IsValid em image.entry_point v w (ground arith),
          rw aligned,
          λ j. refl,
        )
        | inr off ↦ (em, rw off, v, rw off, λ j. refl)
      ]))
]
entered image em _ v w = (em, refl, v, refl, λ j. refl)

abbrev then_enter :
    ProgramImage → Outcome (Status × Option Emulator) → Outcome (Status × Option Emulator)
then_enter image r = r >>= λ x. done (enter_program image x)

load_program-write_memory :
    (em : Emulator) (image : ProgramImage)
    → (not (image.size == 0) && is_null image.bytes) ≡ false
    → load_program (some em) (some image)
      ≡ then_enter image (write_memory (some em) image.load_address image.bytes image.size)
unfolding load_program
load_program-write_memory em image h = rw h

-- Loading an image, whose data pointer is null or leads to bytes of the given size and whose
-- entry point has 64 bits, into a valid emulator is done with no fault and keeps it valid: the
-- memory is as the write of the image leaves it, also where the entry point is refused
-- afterwards; the PC is the entry point if that is asked for and accepted, and as before
-- otherwise.
pub load_program-IsLoaded :
    (em : Emulator) (image : ProgramImage)
    → IsValid em
    → HoldsObject image.bytes image.size
    → image.entry_point < 2 ^ 64
    → IsLoaded em image (load_program (some em) (some image))
unfolding load_program
load_program-IsLoaded em image v o w =
    let wr = write_memory-IsWritten em image.load_address image.bytes image.size v o in
    let (out, e, valid, cpu, same) = entered image wr.out (image_status em image) wr.valid w in
    elim (Bool-cases (not (image.size == 0) && is_null image.bytes)) [
      | inl null ↦ record {
        out = em;
        returns = rw null;
        valid = v;
        processor = rw null;
        content = λ j. rw null;
      }
      | inr object ↦ record {
        out = out;
        returns =
            load_program-write_memory em image object
            ∙ ap (then_enter image) wr.returns
            ∙ ap done e;
        valid = valid;
        processor = rw wr.same_processor at cpu;
        content = λ j. same j ∙ wr.content j;
      }
    ]
