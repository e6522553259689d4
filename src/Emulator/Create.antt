-- ===== src/Emulator/Create.antt =====
-- `mips64_create`: which configurations are accepted, and the emulator that results.
use mips64_emulator.Base.{
  ℕ, ◌*◌, ◌%◌, ◌^◌, ◌<◌, ◌≤◌, ◌≡◌, ◌≢◌, ◌⊎◌, Bool-cases, inl, inr, ltb, ◌==◌, bit_and, sym, refl,
  ap, ◌∙◌, arith, Bool, true, false, Option, none, some, replicate, length-replicate, All-replicate,
}
use mips64_emulator.Base.Bits.{bit_and-mask}
use mips64_emulator.Types.{
  Status, invalid_argument, unaligned_pc, address_out_of_range, out_of_memory, ok, Endian, little,
  big, unnamed, Config,
}
use mips64_emulator.Cpu.Valid.{zero_cpu-IsValid}
use mips64_emulator.Emulator.{
  Emulator, allocate, create, fresh, is_valid_endian, is_instruction_aligned,
}
use mips64_emulator.Emulator.Valid.{IsValid}

abbrev pub Accepts : Bool → Bool → Config → Type 0
Accepts has_object has_memory c =
    (0 < c.memory_size)
    × ((c.endian ≡ little) ⊎ (c.endian ≡ big))
    × (c.reset_pc % 4 ≡ 0)
    × (c.reset_pc ≤ c.memory_size)
    × (has_object ≡ true)
    × (has_memory ≡ true)

-- The fields are values of their C types.
abbrev pub FitsTypes : Config → Type 0
FitsTypes c = (c.memory_size < 2 ^ 64) × (c.reset_pc < 2 ^ 64)

abbrev pub created : Config → Emulator
created c = fresh c (replicate (c.memory_size * 1) 0)

pub created-IsValid : (c : Config) → FitsTypes c → Accepts true true c → IsValid (created c)
created-IsValid c f a = record {
  block = (
    omega (arith, length-replicate {A = ℕ} (c.memory_size * 1) 0),
    All-replicate (λ b. b < 256) (c.memory_size * 1) 0 (omega arith),
  );
  not_empty = a.0;
  size_word = f.0;
  configured_size = refl;
  named_endian = a.1;
  reset_aligned = a.2;
  reset_inside = a.3;
  processor = zero_cpu-IsValid c.reset_pc f.1;
  pc_aligned = a.2;
}

-- A refusal: some other status than OK, and a null pointer.
abbrev pub Refuses : Status × Option (Option Emulator) → Type 0
Refuses r = (r.0 ≢ ok) × (r.1 ≡ some none)

refusal :
    (s : Status) → s ≢ ok → (r : Status × Option (Option Emulator)) → r ≡ (s, some none) → Refuses r
refusal s ne r e = (
  λ h. ne (sym (ap (λ (t : Status × Option (Option Emulator)). t.0) e) ∙ h),
  ap (λ (t : Status × Option (Option Emulator)). t.1) e,
)

named : (e : Endian) → is_valid_endian e ≡ true → (e ≡ little) ⊎ (e ≡ big)
unfolding is_valid_endian
named little h = inl refl
named big h = inr refl
named (unnamed n) h = cc

unnamed_refused : (e : Endian) → is_valid_endian e ≡ false → ¬ ((e ≡ little) ⊎ (e ≡ big))
unfolding is_valid_endian
unnamed_refused little h = cc
unnamed_refused big h = cc
unnamed_refused (unnamed n) h = λ a. elim a [ inl e ↦ cc | inr e ↦ cc ]

-- The two allocations, after the guards.
allocated :
    (has_object has_memory : Bool) (c : Config)
    → ((has_object ≡ true)
        × (has_memory ≡ true)
        × (allocate has_object has_memory c ≡ (ok, some (some (created c)))))
      ⊎ ((¬ ((has_object ≡ true) × (has_memory ≡ true)))
          × Refuses (allocate has_object has_memory c))
allocated true true c = inl (refl, refl, refl)
allocated true false c = inr (λ h. cc, refusal out_of_memory (λ e. cc) _ refl)
allocated false has_memory c = inr (λ h. cc, refusal out_of_memory (λ e. cc) _ refl)

-- For a configuration of values of their C types and both outcomes of the two allocations,
-- creation succeeds exactly on a non-empty memory, a named byte order, an aligned reset PC not
-- past the end of the memory, and two successful allocations. It then hands out a valid
-- emulator; on every refusal the status is not OK and the output pointer is null.
pub create-IsValid :
    (has_object has_memory : Bool) (c : Config) (old : Option Emulator)
    → FitsTypes c
    → (Accepts has_object has_memory c
        × (create has_object has_memory (some c) (some old) ≡ (ok, some (some (created c))))
        × IsValid (created c))
      ⊎ ((¬ Accepts has_object has_memory c)
          × Refuses (create has_object has_memory (some c) (some old)))
unfolding create is_instruction_aligned
create-IsValid o m c old f = elim (Bool-cases (c.memory_size == 0)) [
  | inl empty ↦ inr (λ a. ground arith, rw empty (refusal invalid_argument (λ e. cc) _ refl))
  | inr size ↦ rw size (elim (Bool-cases (is_valid_endian c.endian)) [
    | inr other ↦ inr (
      λ a. unnamed_refused c.endian other a.1,
      rw other (refusal invalid_argument (λ e. cc) _ refl),
    )
    | inl order ↦ rw order (elim (Bool-cases (bit_and c.reset_pc 3 == 0)) [
      | inr off ↦ inr (
        λ a. ground (arith, bit_and-mask 2 c.reset_pc),
        rw off (refusal unaligned_pc (λ e. cc) _ refl),
      )
      | inl aligned ↦ rw aligned (elim (Bool-cases (ltb c.memory_size c.reset_pc)) [
        | inl past ↦
            inr (λ a. ground arith, rw past (refusal address_out_of_range (λ e. cc) _ refl))
        | inr inside ↦ rw inside (elim (allocated o m c) [
          | inl done ↦
              let a : Accepts o m c = (
                ground arith,
                named c.endian order,
                ground (arith, bit_and-mask 2 c.reset_pc),
                ground arith,
                done.0,
                done.1,
              ) in
              inl (a, done.2, created-IsValid c f (a.0, a.1, a.2, a.3, refl, refl))
          | inr failed ↦ inr (λ a. failed.0 (a.4, a.5), failed.1)
        ])
      ])
    ])
  ])
]
