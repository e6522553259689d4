-- ===== src/Jit/Computes/Accesses.antt =====
-- The loads and stores of src/mips64/jit_compiler_x64.c, as the reader of Jit.X64 takes them.
use mips64_emulator.Base.{
  ℕ, ◌/◌, ◌%◌, ◌<◌, ◌≡◌, refl, ◌∙◌, arith, Bool, true, false, List, ◌∷◌, ◌++◌, ◌==◌,
}
use mips64_emulator.Base.Int.{pos, ℤ, ℤ_to_u32}
use mips64_emulator.Jit.{truth}
use mips64_emulator.Jit.Laid.{u32_bytes}
use mips64_emulator.Jit.Forms.{ri32}
use mips64_emulator.Jit.X64.{execute_ins, load, store, Size, eight, four}
use mips64_emulator.Jit.X64.Read.{read_ins, read_wide, read_narrow, read_address}
use mips64_emulator.Jit.Computes.{Computes, Computes-one}
use mips64_emulator.Jit.Computes.Leaves.{
  rex, modrm, rm-eq, reg-eq, mode-eq, read_rex, lays_word, with_word-u32, HasNoForm,
}

abbrev pub size_of : Bool → Size
size_of true = eight
size_of false = four

module _ (d s : ℕ) (hd : d < 16) (hs : s < 16) where
  -- Loads and stores, where the register with the address is not one of those that ask for a
  -- further byte.
  read_access :
      (w : Bool) (opcode : ℕ) (bs : List ℕ)
      → HasNoForm opcode
      → read_ins (rex d s hd hs w ∷ opcode ∷ modrm d s hd hs 2 ∷ bs)
        ≡ read_address (size_of w) (rex d s hd hs w) opcode (modrm d s hd hs 2) bs
  unfolding read_ins read_wide read_narrow
  read_access true opcode bs own =
      let m : (modrm d s hd hs 2 / 64 == 3) ≡ false = ground arith in
      read_rex d s hd hs (opcode ∷ modrm d s hd hs 2 ∷ bs) ∙ rw (own.0, own.1, own.2, m) refl
  read_access false opcode bs own =
      let a : (rex d s hd hs false / 16 == 4) ≡ true = ground arith in
      let b : (rex d s hd hs false / 2 % 2 == 0) ≡ true = ground arith in
      let c : (rex d s hd hs false / 8 == 9) ≡ false = ground arith in rw (a, b, c) refl

  pub Computes-load :
      (w : Bool) (off : ℤ)
      → (d % 8 == 4) ≡ false
      → Computes 7
          (ri32 0x8B (pos d) (pos s) off 2 (truth w))
          (execute_ins (load (size_of w) s d (ℤ_to_u32 off)))
  unfolding read_address
  Computes-load w off plain =
      Computes-one (rex d s hd hs w) (0x8B ∷ modrm d s hd hs 2 ∷ u32_bytes (ℤ_to_u32 off))
        (load (size_of w) s d (ℤ_to_u32 off))
        (λ p room. lays_word d s hd hs w 2 0x8B off p (omega arith) room)
        (λ rest.
          let q : (modrm d s hd hs 2 % 8 == 4) ≡ false = ground arith in
          read_access w 0x8B (u32_bytes (ℤ_to_u32 off) ++ rest) (refl, refl, refl)
          ∙ rw (mode-eq d s hd hs 2 2 refl, q, rm-eq d s hd hs w 2, reg-eq d s hd hs w 2)
              (with_word-u32 (load (size_of w) s d) off rest))

  pub Computes-store :
      (w : Bool) (off : ℤ)
      → (d % 8 == 4) ≡ false
      → Computes 7
          (ri32 0x89 (pos d) (pos s) off 2 (truth w))
          (execute_ins (store (size_of w) s d (ℤ_to_u32 off)))
  unfolding read_address
  Computes-store w off plain =
      Computes-one (rex d s hd hs w) (0x89 ∷ modrm d s hd hs 2 ∷ u32_bytes (ℤ_to_u32 off))
        (store (size_of w) s d (ℤ_to_u32 off))
        (λ p room. lays_word d s hd hs w 2 0x89 off p (omega arith) room)
        (λ rest.
          let q : (modrm d s hd hs 2 % 8 == 4) ≡ false = ground arith in
          read_access w 0x89 (u32_bytes (ℤ_to_u32 off) ++ rest) (refl, refl, refl)
          ∙ rw (mode-eq d s hd hs 2 2 refl, q, rm-eq d s hd hs w 2, reg-eq d s hd hs w 2)
              (with_word-u32 (store (size_of w) s d) off rest))
