-- ===== src/Emulator/Word.antt =====
-- `mips64_read_u32_from_bytes` and `mips64_fetch_instruction`: the word that is fetched.
use mips64_emulator.Base.{
  ℕ, ◌+◌, ◌*◌, ◌%◌, ◌^◌, ◌<◌, ◌≤◌, ◌≡◌, ◌↔◌, sym, ap, ◌∙◌, arith, true, false, Option, none, some,
  List, length, All, Outcome, done, done-injective, ◌>>=◌, get_or, get_elem?-get_or, All-get_elem?,
  ltb, leb, ◌==◌, not, if◌then◌else◌, Bool-cases, inl, inr,
}
use mips64_emulator.Types.{Status, ok, unaligned_pc, address_out_of_range, Endian, is_big}
use mips64_emulator.Emulator.{Emulator}
use mips64_emulator.Emulator.Fetch.{read_u32_from_bytes, fetch_instruction, follow, is_ok}
use mips64_emulator.Emulator.Valid.{
  IsValid, HasBlock, memory_range_is_valid-eq, is_instruction_aligned-eq,
}

-- The 32-bit word that four bytes stand for in a byte order.
abbrev pub word_of : Endian → ℕ → ℕ → ℕ → ℕ → ℕ
word_of e b0 b1 b2 b3 =
    if is_big e
    then b0 * 2 ^ 24 + b1 * 2 ^ 16 + b2 * 2 ^ 8 + b3
    else b0 + b1 * 2 ^ 8 + b2 * 2 ^ 16 + b3 * 2 ^ 24

abbrev pub word_at : Endian → List ℕ → ℕ → ℕ
word_at e bs pc =
    word_of e (get_or bs pc 0) (get_or bs (pc + 1) 0) (get_or bs (pc + 2) 0) (get_or bs (pc + 3) 0)

-- `||` turns the word into 0 or 1.
abbrev pub truth : ℕ → ℕ
truth w = if w == 0 then 0 else 1

read_u32-truth :
    (bs : List ℕ) (pc : ℕ) (e : Endian)
    → All (λ b. b < 256) bs
    → pc + 4 ≤ length bs
    → read_u32_from_bytes bs pc e ≡ done (truth (word_at e bs pc))
unfolding read_u32_from_bytes
read_u32-truth bs pc e h fits =
    let has = λ (k : ℕ) (p : pc + k < length bs). get_elem?-get_or bs (pc + k) 0 p in
    let lt =
      λ (k : ℕ) (p : pc + k < length bs). All-get_elem? (λ b. b < 256) bs (pc + k) h (has k p) in
    let here : pc + 0 ≡ pc = omega arith in
    rw
      (
        rw here at (has 0 (omega arith)),
        has 1 (omega arith),
        has 2 (omega arith),
        has 3 (omega arith),
      )
      (elim (Bool-cases (is_big e)) [
        | inl be ↦ rw be (
            ground (
              arith,
              rw here at (lt 0 (omega arith)),
              lt 1 (omega arith),
              lt 2 (omega arith),
              lt 3 (omega arith),
            ))
        | inr le ↦ rw le (
            ground (
              arith,
              rw here at (lt 0 (omega arith)),
              lt 1 (omega arith),
              lt 2 (omega arith),
              lt 3 (omega arith),
            ))
      ])

abbrev pub instruction_at : Emulator → ℕ → ℕ
instruction_at em pc = elim em.memory [ none ↦ 0 | some bs ↦ word_at em.config.endian bs pc ]

-- Alignment is tested before the range.
abbrev pub fetch_status : Emulator → ℕ → Status
fetch_status em pc =
    if not (pc % 4 == 0)
    then unaligned_pc
    else if ltb em.memory_size (pc + 4)
    then address_out_of_range
    else ok

abbrev pub fetched : Emulator → ℕ → ℕ → ℕ
fetched em pc old = if is_ok (fetch_status em pc) then truth (instruction_at em pc) else old

abbrev delivered : Outcome ℕ → Outcome (Status × Option ℕ)
delivered r = r >>= λ word. done (ok, some word)

abbrev block_word : Option (List ℕ) → ℕ → Endian → ℕ
block_word m pc e = elim m [ none ↦ 0 | some bs ↦ word_at e bs pc ]

read_block :
    (m : Option (List ℕ)) (n pc : ℕ) (e : Endian)
    → HasBlock m n
    → leb (pc + 4) n ≡ true
    → (follow m >>= λ bs. delivered (read_u32_from_bytes bs pc e))
      ≡ done (ok, some (truth (block_word m pc e)))
read_block none n pc e h fits = absurd h
read_block (some bs) n pc e h fits = ap delivered (read_u32-truth bs pc e h.1 (ground arith))

-- On a valid emulator a fetch meets no fault at any address. Refused, for a PC that is not
-- aligned or a range past the end, it leaves the output alone; accepted, it delivers 0 for the
-- word 0 and 1 for every other word.
pub fetch_instruction-fetched :
    (em : Emulator) (pc old : ℕ)
    → IsValid em
    → fetch_instruction (some em) pc (some old)
      ≡ done (fetch_status em pc, some (fetched em pc old))
unfolding fetch_instruction
fetch_instruction-fetched em pc old v =
    rw (is_instruction_aligned-eq pc, memory_range_is_valid-eq em pc 4)
      (elim (Bool-cases (pc % 4 == 0)) [
        | inr off ↦ rw off
        | inl aligned ↦ rw aligned (elim (Bool-cases (leb (pc + 4) em.memory_size)) [
          | inr past ↦ let s : ltb em.memory_size (pc + 4) ≡ true = ground arith in rw (past, s)
          | inl inside ↦
              let s : ltb em.memory_size (pc + 4) ≡ false = ground arith in
              rw (inside, s)
                (read_block em.memory em.memory_size pc em.config.endian v.block inside)
        ])
      ])

word_injective : {a b : ℕ} → ◌≡◌ {A = Status × Option ℕ} (ok, some a) (ok, some b) → a ≡ b
word_injective e = cc

small : (w : ℕ) → truth w ≡ w → w < 2
small w e = ground arith

-- On a valid emulator, a fetch at an aligned address whose word lies inside the memory delivers
-- the instruction word exactly if that word is below 2.
fetch_instruction-lt_two :
    (em : Emulator) (pc old : ℕ)
    → IsValid em
    → pc % 4 ≡ 0
    → pc + 4 ≤ em.memory_size
    → (fetch_instruction (some em) pc (some old) ≡ done (ok, some (instruction_at em pc)))
      ↔ (instruction_at em pc < 2)
fetch_instruction-lt_two em pc old v a inside =
    let aligned : (pc % 4 == 0) ≡ true = ground arith in
    let past : ltb em.memory_size (pc + 4) ≡ false = ground arith in
    let e : fetch_instruction (some em) pc (some old)
        ≡ done (ok, some (truth (instruction_at em pc))) =
      rw (aligned, past) at (fetch_instruction-fetched em pc old v) in
    (
      λ h. small (instruction_at em pc) (word_injective (done-injective (sym e ∙ h))),
      λ h. e ∙ ap (λ (w : ℕ). done (ok, some w)) (ground arith),
    )
