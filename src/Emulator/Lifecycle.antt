-- ===== src/Emulator/Lifecycle.antt =====
-- An emulator of src/mips64/core.c from its creation to its end: created, loaded, run and destroyed.
use mips64_emulator.Base.{
  ℕ, zero, suc, ◌+◌, ◌-◌, ◌*◌, ◌^◌, ◌<◌, ◌≡◌, refl, ap, ◌∙◌, arith, Bool, true, false, inl, inr,
  ◌&&◌, Option, none, some, List, [], ◌∷◌, length, replicate, done, get_elem?, ltb, leb,
  if◌then◌else◌,
}
use mips64_emulator.Types.{ok, Config, ProgramImage, RunInfo}
use mips64_emulator.Cpu.{Cpu}
use mips64_emulator.Emulator.{Emulator, create, destroy, block, object}
use mips64_emulator.Emulator.Access.{load_program}
use mips64_emulator.Emulator.Fetch.{run_program}
use mips64_emulator.Emulator.Valid.{HasBlock, byte_at}
use mips64_emulator.Emulator.Create.{Accepts, FitsTypes, created, created-IsValid, create-IsValid}
use mips64_emulator.Emulator.Write.{HoldsObject, source_byte, is_accepted}
use mips64_emulator.Emulator.Load.{image_status, enter_status, is_entered, load_program-IsLoaded}
use mips64_emulator.Emulator.Steps.{overwrite, run_status, run_record, run_program-run_status}

abbrev zeros : ℕ → List ℕ
zeros n = replicate n 0

get_elem?-zeros : (n j : ℕ) → get_elem? (zeros n) j ≡ (if ltb j n then some 0 else none)
get_elem?-zeros zero j = ground arith
get_elem?-zeros (suc n) zero = ground arith
get_elem?-zeros (suc n) (suc j) = get_elem?-zeros n j ∙ ground arith

pc-if :
    (b : Bool) (cpu : Cpu) (p : ℕ)
    → (if b then record cpu { pc = p } else cpu).pc ≡ (if b then p else cpu.pc)
pc-if true cpu p = refl
pc-if false cpu p = refl

-- The guest memory of a loaded emulator: the image, and zeros around it.
abbrev pub loaded_byte : Config → ProgramImage → ℕ → Option ℕ
loaded_byte c image j =
    if is_accepted (image_status (created c) image)
      && (leb image.load_address j && ltb j (image.load_address + image.size))
    then source_byte image.bytes (j - image.load_address)
    else if ltb j c.memory_size
    then some 0
    else none

-- The PC at the entry point, or at the reset address.
abbrev pub start_pc : Config → ProgramImage → ℕ
start_pc c image =
    if is_entered image (image_status (created c) image) then image.entry_point else c.reset_pc

-- Both allocations are given back, the memory with all of its bytes.
destroyed :
    (em : Emulator) (m : Option (List ℕ))
    → em.memory ≡ m
    → HasBlock m em.memory_size
    → (bs : List ℕ) × (destroy (some em) ≡ block (some bs) ∷ object ∷ [])
      × (length bs ≡ em.memory_size)
unfolding destroy
destroyed em none e h = absurd h
destroyed em (some bs) e h = (bs, rw e refl, h.0)

-- For every configuration that is accepted, with both allocations successful, every image whose
-- data pointer is null or leads to bytes of the given size and whose entry point has 64 bits,
-- and every step limit: creating an emulator, loading the image, running and destroying meet no
-- fault. After loading, the guest memory is 0 but for the bytes of an image that was written,
-- and the PC is the entry point if it was entered and the reset address otherwise; the run ends
-- as that PC and the limit say, with a record that counts no step, and both allocations are
-- given back.
pub create-load_program-destroy :
    (c : Config) (image : ProgramImage) (n : ℕ) (info : Option RunInfo)
    → FitsTypes c
    → Accepts true true c
    → HoldsObject image.bytes image.size
    → image.entry_point < 2 ^ 64
    → (em : Emulator) × (bs : List ℕ) × (create true true (some c) (some none)
        ≡ (ok, some (some (created c))))
      × (load_program (some (created c)) (some image)
          ≡ done (enter_status image (image_status (created c) image), some em))
      × ((j : ℕ) → byte_at em j ≡ loaded_byte c image j)
      × (em.cpu.pc ≡ start_pc c image)
      × (run_program (some em) n info ≡ done (run_status em n, overwrite info (run_record em n)))
      × (destroy (some em) ≡ block (some bs) ∷ object ∷ [])
      × (length bs ≡ em.memory_size)
create-load_program-destroy c image n info f a o w =
    let loaded = load_program-IsLoaded (created c) image (created-IsValid c f a) o w in
    let em = loaded.out in
    let one : c.memory_size * 1 ≡ c.memory_size = omega arith in
    let (bs, freed, whole) = destroyed em em.memory refl loaded.valid.block in
    (
      em,
      bs,
      (elim (create-IsValid true true c none f) [ inl h ↦ h.1 | inr h ↦ absurd (h.0 a) ]),
      loaded.returns,
      λ j.
          loaded.content j
          ∙ ap
              (λ (b : Option ℕ).
                if is_accepted (image_status (created c) image)
                  && (leb image.load_address j && ltb j (image.load_address + image.size))
                then source_byte image.bytes (j - image.load_address)
                else b)
              (get_elem?-zeros (c.memory_size * 1) j ∙ rw one refl),
      ap (λ (cpu : Cpu). cpu.pc) loaded.processor
          ∙ pc-if (is_entered image (image_status (created c) image)) (created c).cpu
              image.entry_point,
      run_program-run_status em n info loaded.valid,
      freed,
      whole,
    )
