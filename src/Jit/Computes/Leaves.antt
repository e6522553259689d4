-- ===== src/Jit/Computes/Leaves.antt =====
-- The single instructions: what the macros of src/mips64/jit_compiler_x64.c lay for a move, an
-- operation and a constant, as the reader of Jit.X64 takes it.
use mips64_emulator.Base.{
  ℕ, ◌+◌, ◌*◌, ◌/◌, ◌%◌, ◌^◌, ◌<◌, ◌≡◌, refl, ap, ap₂, ◌∙◌, arith, Bool, true, false, some, List,
  [], ◌∷◌, ◌++◌, done, ◌==◌, bit_or, u8, ◌<<◌,
}
use mips64_emulator.Base.Bits.{bit_and-mask, bit_or-shifted}
use mips64_emulator.Base.Int.{pos, ltb_ℤ, ℤ, negsuc, ℤ_to_u32}
use mips64_emulator.Jit.{Parsing, truth, high_bit, low_bits}
use mips64_emulator.Jit.Laid.{
  HasRoom, u32_bytes, laid, rex_byte, modrm_byte, rr-laid, rr_0f-laid, ri32-laid, ri8-laid,
}
use mips64_emulator.Jit.Forms.{rr, rr_0f, ri32, ri8}
use mips64_emulator.Jit.X64.{mul, Ins, move_imm, op, execute_ins, compare_imm}
use mips64_emulator.Jit.X64.Read.{
  read_ins, read_wide, rm_field, reg_field, store_op, group_op, with_word, is_group,
}
use mips64_emulator.Jit.Computes.{Computes, Computes-one}

rex_bits :
    (b c w : Bool)
    → u8 (bit_or (bit_or (bit_or (truth b) (truth c << 2)) (truth w << 3)) 0x40)
      ≡ 0x40 + truth b + 4 * truth c + 8 * truth w
rex_bits true true true = refl
rex_bits true true false = refl
rex_bits true false true = refl
rex_bits true false false = refl
rex_bits false true true = refl
rex_bits false true false = refl
rex_bits false false true = refl
rex_bits false false false = refl

high_bit-eq : (d : ℕ) → d < 16 → high_bit (pos d) ≡ d / 8
high_bit-eq d h = ground arith

low_bits-eq : (d : ℕ) → d < 16 → low_bits (pos d) ≡ d % 8
low_bits-eq d h = omega (arith, bit_and-mask 3 (d % 2 ^ 32))

pub rex_byte-eq :
    (w : Bool) (d s : ℕ)
    → d < 16
    → s < 16
    → rex_byte (pos d) (pos s) (truth w) ≡ 0x40 + d / 8 + 4 * (s / 8) + 8 * truth w
rex_byte-eq w d s h h' =
    rex_bits (ltb_ℤ (pos 7) (pos d)) (ltb_ℤ (pos 7) (pos s)) w
    ∙ omega (arith, high_bit-eq d h, high_bit-eq s h')

pub modrm_byte-eq :
    (mode d s : ℕ)
    → mode < 4
    → d < 16
    → s < 16
    → modrm_byte (pos d) (pos s) mode ≡ 0x40 * mode + d % 8 + 8 * (s % 8)
modrm_byte-eq mode d s h'' h h' =
    rw
      (
        low_bits-eq d h,
        low_bits-eq s h',
        bit_or-shifted 3 (s % 8) (d % 8) (omega arith),
        bit_or-shifted 6 mode (d % 8 + s % 8 * 2 ^ 3) (omega arith),
      )
      (omega arith)

u32_join :
    (im : ℤ)
    → ℤ_to_u32 im % 256
        + ℤ_to_u32 im / 2 ^ 8 % 256 * 2 ^ 8
        + ℤ_to_u32 im / 2 ^ 16 % 256 * 2 ^ 16
        + ℤ_to_u32 im / 2 ^ 24 % 256 * 2 ^ 24
      ≡ ℤ_to_u32 im
u32_join (pos n) = omega arith
u32_join (negsuc n) = omega arith

pub with_word-u32 :
    (f : ℕ → Ins) (im : ℤ) (rest : List ℕ)
    → with_word f (u32_bytes (ℤ_to_u32 im) ++ rest) ≡ some (f (ℤ_to_u32 im), rest)
with_word-u32 f im rest = ap (λ (v : ℕ). some (f v, rest)) (u32_join im)

abbrev pub HasNoForm : ℕ → Type 0
HasNoForm opcode =
    ((opcode == 0x0F) ≡ false) × ((opcode == 0xC7) ≡ false) × ((opcode == 0x83) ≡ false)

module _ (d s : ℕ) (hd : d < 16) (hs : s < 16) where
  -- The prefix, with the bit W or without, and the byte ModRM.
  abbrev pub rex : Bool → ℕ
  rex w = 0x40 + d / 8 + 4 * (s / 8) + 8 * truth w

  abbrev pub modrm : ℕ → ℕ
  modrm mode = 0x40 * mode + d % 8 + 8 * (s % 8)

  pub rm-eq : (w : Bool) (mode : ℕ) → rm_field (rex w) (modrm mode) ≡ d
  rm-eq true mode = omega arith
  rm-eq false mode = omega arith

  pub reg-eq : (w : Bool) (mode : ℕ) → reg_field (rex w) (modrm mode) ≡ s
  reg-eq true mode = omega arith
  reg-eq false mode = omega arith

  pub mode-eq : (mode k : ℕ) → mode == k ≡ true → (modrm mode / 64 == k) ≡ true
  mode-eq mode k e = ground arith

  pub read_rex : (bs : List ℕ) → read_ins (rex true ∷ bs) ≡ read_wide (rex true) bs
  unfolding read_ins
  read_rex bs =
      let a : (rex true / 16 == 4) ≡ true = ground arith in
      let b : (rex true / 2 % 2 == 0) ≡ true = ground arith in
      let c : (rex true / 8 == 9) ≡ true = ground arith in rw (a, b, c) refl

  read_rr :
      (opcode : ℕ) (i : Ins) (rest : List ℕ)
      → HasNoForm opcode
      → is_group opcode ≡ false
      → store_op opcode d s ≡ some i
      → read_ins (rex true ∷ opcode ∷ modrm 3 ∷ rest) ≡ some (i, rest)
  unfolding read_wide
  read_rr opcode i rest own g e =
      read_rex (opcode ∷ modrm 3 ∷ rest)
      ∙ rw (own.0, own.1, own.2, mode-eq 3 3 refl, g, rm-eq true 3, reg-eq true 3, e) refl

  read_group :
      (opcode : ℕ) (i : Ins) (rest : List ℕ)
      → s < 8
      → HasNoForm opcode
      → is_group opcode ≡ true
      → group_op opcode d s ≡ some i
      → read_ins (rex true ∷ opcode ∷ modrm 3 ∷ rest) ≡ some (i, rest)
  unfolding read_wide
  read_group opcode i rest low own g e =
      let q : modrm 3 / 8 % 8 ≡ s = omega arith in
      read_rex (opcode ∷ modrm 3 ∷ rest)
      ∙ rw (own.0, own.1, own.2, mode-eq 3 3 refl, g, rm-eq true 3, q, e) refl

  lays_rr :
      (opcode : ℕ) (p : Parsing)
      → HasRoom 3 p
      → rr opcode (pos d) (pos s) 1 p ≡ done (laid p (rex true ∷ opcode ∷ modrm 3 ∷ []))
  lays_rr opcode p h =
      rr-laid p opcode (pos d) (pos s) 1 h
      ∙ ap₂ (λ (x y : ℕ). done (laid p (x ∷ opcode ∷ y ∷ []))) (rex_byte-eq true d s hd hs)
          (modrm_byte-eq 3 d s (omega arith) hd hs)

  pub Computes-rr :
      (opcode : ℕ) (i : Ins)
      → HasNoForm opcode
      → is_group opcode ≡ false
      → store_op opcode d s ≡ some i
      → Computes 3 (rr opcode (pos d) (pos s) 1) (execute_ins i)
  Computes-rr opcode i own g e =
      Computes-one (rex true) (opcode ∷ modrm 3 ∷ []) i (lays_rr opcode)
        (λ rest. read_rr opcode i rest own g e)

  pub Computes-group :
      (opcode : ℕ) (i : Ins)
      → s < 8
      → HasNoForm opcode
      → is_group opcode ≡ true
      → group_op opcode d s ≡ some i
      → Computes 3 (rr opcode (pos d) (pos s) 1) (execute_ins i)
  Computes-group opcode i low own g e =
      Computes-one (rex true) (opcode ∷ modrm 3 ∷ []) i (lays_rr opcode)
        (λ rest. read_group opcode i rest low own g e)

  read_mul :
      (rest : List ℕ) → read_ins (rex true ∷ 0x0F ∷ 0xAF ∷ modrm 3 ∷ rest) ≡ some (op mul s d, rest)
  unfolding read_wide
  read_mul rest =
      read_rex (0x0F ∷ 0xAF ∷ modrm 3 ∷ rest)
      ∙ rw (mode-eq 3 3 refl, rm-eq true 3, reg-eq true 3) refl

  pub Computes-imul : Computes 4 (rr_0f 0xAF (pos d) (pos s) 3 1) (execute_ins (op mul s d))
  Computes-imul =
      Computes-one (rex true) (0x0F ∷ 0xAF ∷ modrm 3 ∷ []) (op mul s d)
        (λ p h.
          rr_0f-laid p 0xAF (pos d) (pos s) 3 1 h
          ∙ ap₂ (λ (x y : ℕ). done (laid p (x ∷ 0x0F ∷ 0xAF ∷ y ∷ []))) (rex_byte-eq true d s hd hs)
              (modrm_byte-eq 3 d s (omega arith) hd hs))
        read_mul

  -- An instruction with 32 bits behind the byte ModRM.
  pub lays_word :
      (w : Bool) (mode opcode : ℕ) (im : ℤ) (p : Parsing)
      → mode < 4
      → HasRoom 7 p
      → ri32 opcode (pos d) (pos s) im mode (truth w) p
        ≡ done (laid p (rex w ∷ opcode ∷ modrm mode ∷ u32_bytes (ℤ_to_u32 im)))
  lays_word w mode opcode im p h room =
      ri32-laid p opcode (pos d) (pos s) im mode (truth w) room
      ∙ ap₂ (λ (x y : ℕ). done (laid p (x ∷ opcode ∷ y ∷ u32_bytes (ℤ_to_u32 im))))
          (rex_byte-eq w d s hd hs) (modrm_byte-eq mode d s h hd hs)

  read_movi :
      (im : ℤ) (rest : List ℕ)
      → s ≡ 0
      → read_ins (rex true ∷ 0xC7 ∷ modrm 3 ∷ u32_bytes (ℤ_to_u32 im) ++ rest)
        ≡ some (move_imm d (ℤ_to_u32 im), rest)
  unfolding read_wide
  read_movi im rest zero =
      let q : (modrm 3 / 8 % 8 == 0) ≡ true = ground arith in
      read_rex (0xC7 ∷ modrm 3 ∷ u32_bytes (ℤ_to_u32 im) ++ rest)
      ∙ rw (mode-eq 3 3 refl, q, rm-eq true 3) (with_word-u32 (move_imm d) im rest)

  pub Computes-movi :
      (im : ℤ)
      → s ≡ 0
      → Computes 7 (ri32 0xC7 (pos d) (pos s) im 3 1) (execute_ins (move_imm d (ℤ_to_u32 im)))
  Computes-movi im zero =
      Computes-one (rex true) (0xC7 ∷ modrm 3 ∷ u32_bytes (ℤ_to_u32 im)) (move_imm d (ℤ_to_u32 im))
        (λ p room. lays_word true 3 0xC7 im p (omega arith) room) (λ rest. read_movi im rest zero)

  -- CMP with 0
  read_compare_zero :
      (rest : List ℕ)
      → s ≡ 7
      → read_ins (rex true ∷ 0x83 ∷ modrm 3 ∷ 0 ∷ rest) ≡ some (compare_imm d 0, rest)
  unfolding read_wide
  read_compare_zero rest seven =
      let q : (modrm 3 / 8 % 8 == 7) ≡ true = ground arith in
      read_rex (0x83 ∷ modrm 3 ∷ 0 ∷ rest) ∙ rw (mode-eq 3 3 refl, q, rm-eq true 3) refl

  pub Computes-compare_zero :
      s ≡ 7 → Computes 4 (ri8 0x83 (pos d) (pos s) (pos 0) 3 1) (execute_ins (compare_imm d 0))
  Computes-compare_zero seven =
      Computes-one (rex true) (0x83 ∷ modrm 3 ∷ 0 ∷ []) (compare_imm d 0)
        (λ p h.
          ri8-laid p 0x83 (pos d) (pos s) (pos 0) 3 1 h
          ∙ ap₂ (λ (x y : ℕ). done (laid p (x ∷ 0x83 ∷ y ∷ 0 ∷ []))) (rex_byte-eq true d s hd hs)
              (modrm_byte-eq 3 d s (omega arith) hd hs))
        (λ rest. read_compare_zero rest seven)
