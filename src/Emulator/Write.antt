-- ===== src/Emulator/Write.antt =====
-- `mips64_write_memory`: every branch, and each byte of guest memory afterwards.
use mips64_emulator.Base.{
  ℕ, zero, suc, ◌+◌, ◌-◌, ◌<◌, ◌≤◌, ◌≡◌, inl, inr, refl, ◌∙◌, arith, Bool, true, false, ◌&&◌, not,
  Option, none, some, List, length, All, Outcome, done, ◌>>=◌, get_elem?, set, length-set,
  get_elem?-set_self, get_elem?-set_ne, get_elem?-lt, All-set, All-get_elem?, ltb, leb, ◌==◌,
  if◌then◌else◌, Bool-cases,
}
use mips64_emulator.Types.{Status, ok, invalid_argument, address_out_of_range}
use mips64_emulator.Emulator.{Emulator}
use mips64_emulator.Emulator.Access.{copy, memcpy, is_null, write_memory}
use mips64_emulator.Emulator.Valid.{
  HasBlock, IsValid, byte_at, memory_range_is_valid-eq, with_memory-IsValid,
}

-- The list that `memcpy` leaves in the target.
record IsCopied (target : List ℕ) (offset : ℕ) (source : List ℕ) (i n : ℕ)
    (result : Outcome (List ℕ)) : Type 0 where
  out : List ℕ
  returns : result ≡ done out
  same_length : length out ≡ length target
  bytes : All (λ b. b < 256) out
  content :
      (j : ℕ)
      → get_elem? out j ≡ (
          if leb (offset + i) j && ltb j (offset + i + n)
          then get_elem? source (j - offset)
          else get_elem? target j)

copy-IsCopied :
    (source : List ℕ) (offset n i : ℕ) (target : List ℕ)
    → All (λ b. b < 256) source
    → All (λ b. b < 256) target
    → i + n ≤ length source
    → offset + i + n ≤ length target
    → IsCopied target offset source i n (copy target offset source i n)
unfolding copy
copy-IsCopied source offset zero i target hs ht ps pt = record {
  out = target;
  returns = refl;
  same_length = refl;
  bytes = ht;
  content = λ j. ground arith;
}
copy-IsCopied source offset (suc n) i target hs ht ps pt =
    let (b, eb) = get_elem?-lt source i (omega arith) in
    let (old, eo) = get_elem?-lt target (offset + i) (omega arith) in
    let rest =
      copy-IsCopied source offset n (i + 1) (set target (offset + i) b) hs
        (All-set (λ x. x < 256) target (offset + i) b (All-get_elem? (λ x. x < 256) source i hs eb)
          ht)
        (omega arith) (omega (arith, length-set target (offset + i) b)) in
    record {
      out = rest.out;
      returns = rw (eb, eo) rest.returns;
      same_length = rest.same_length ∙ length-set target (offset + i) b;
      bytes = rest.bytes;
      content = λ j. ground (
        arith,
        rest.content j,
        get_elem?-set_self target (offset + i) b,
        get_elem?-set_ne target (offset + i) j b,
      );
    }

-- The object behind the data pointer holds bytes, and is as long as the caller says.
abbrev pub HoldsObject : Option (List ℕ) → ℕ → Type 0
HoldsObject none size = Unit
HoldsObject (some bs) size = (size ≤ length bs) × All (λ b. b < 256) bs

abbrev pub source_byte : Option (List ℕ) → ℕ → Option ℕ
source_byte none k = none
source_byte (some bs) k = get_elem? bs k

-- The order of the refusals: a null pointer for data that there is, then the range.
abbrev pub write_status : Emulator → ℕ → Option (List ℕ) → ℕ → Status
write_status em address bytes size =
    if not (size == 0) && is_null bytes
    then invalid_argument
    else if ltb em.memory_size (address + size)
    then address_out_of_range
    else ok

abbrev pub is_accepted : Status → Bool
is_accepted ok = true
is_accepted _ = false

-- What a write leaves: everything but the memory as it was, and the memory byte by byte.
pub record IsWritten (em : Emulator) (address : ℕ) (bytes : Option (List ℕ)) (size : ℕ)
    (result : Outcome (Status × Option Emulator)) : Type 0 where
  pub out : Emulator
  pub returns : result ≡ done (write_status em address bytes size, some out)
  pub valid : IsValid out
  pub same_processor : out.cpu ≡ em.cpu
  pub same_config : out.config ≡ em.config
  pub content :
      (j : ℕ)
      → byte_at out j ≡ (
          if is_accepted (write_status em address bytes size)
            && (leb address j && ltb j (address + size))
          then source_byte bytes (j - address)
          else byte_at em j)

-- A refused or empty write changes nothing.
unchanged :
    (em : Emulator) (address : ℕ) (bytes : Option (List ℕ)) (size : ℕ)
    (result : Outcome (Status × Option Emulator))
    → IsValid em
    → result ≡ done (write_status em address bytes size, some em)
    → ((j : ℕ)
        → (is_accepted (write_status em address bytes size)
            && (leb address j && ltb j (address + size)))
          ≡ false)
    → IsWritten em address bytes size result
unchanged em address bytes size result v e outside = record {
  out = em;
  returns = e;
  valid = v;
  same_processor = refl;
  same_config = refl;
  content = λ j. rw outside refl;
}

-- The copy into the block, once the guards have passed.
memcpy-IsWritten :
    (em : Emulator) (address : ℕ) (src : List ℕ) (size : ℕ) (m : Option (List ℕ))
    → IsValid em
    → em.memory ≡ m
    → HasBlock m em.memory_size
    → HoldsObject (some src) size
    → address + size ≤ em.memory_size
    → write_status em address (some src) size ≡ ok
    → IsWritten em address
        (some src)
        size
        (memcpy m address (some src) size >>= λ m'. done (ok, some (record em { memory = m' })))
unfolding memcpy
memcpy-IsWritten em address src size none v e h o fits s = absurd h
memcpy-IsWritten em address src size (some bs) v e h o fits s =
    let c = copy-IsCopied src address size 0 bs o.1 h.1 (omega arith) (omega arith) in
    record {
      out = record em { memory = some c.out };
      returns = rw (c.returns, s);
      valid = with_memory-IsValid em c.out v (c.same_length ∙ h.0) c.bytes;
      same_processor = refl;
      same_config = refl;
      content = λ j. rw (s, e) (ground (arith, c.content j));
    }

copied :
    (em : Emulator) (address : ℕ) (bytes : Option (List ℕ)) (size : ℕ)
    → IsValid em
    → HoldsObject bytes size
    → (not (size == 0) && is_null bytes) ≡ false
    → (size == 0) ≡ false
    → address + size ≤ em.memory_size
    → write_status em address bytes size ≡ ok
    → IsWritten em address bytes size
        (memcpy em.memory address bytes size >>= λ m'. done (ok, some (record em { memory = m' })))
copied em address none size v o null e fits s = absurd (ground arith)
copied em address (some src) size v o null e fits s =
    memcpy-IsWritten em address src size em.memory v refl v.block o fits s

-- A write to a valid emulator, with any address and size and a data pointer that is null or
-- leads to that many bytes, is done with no fault: no data for a non-empty write and a range
-- past the end are refused and change nothing; otherwise exactly the bytes of the range are
-- replaced. The emulator stays valid.
pub write_memory-IsWritten :
    (em : Emulator) (address : ℕ) (bytes : Option (List ℕ)) (size : ℕ)
    → IsValid em
    → HoldsObject bytes size
    → IsWritten em address bytes size (write_memory (some em) address bytes size)
unfolding write_memory
write_memory-IsWritten em address bytes size v o =
    elim (Bool-cases (not (size == 0) && is_null bytes)) [
      | inl null ↦ unchanged em address bytes size _ v (rw null) (λ j. rw null)
      | inr object ↦
          rw (object, memory_range_is_valid-eq em address size)
            (elim (Bool-cases (leb (address + size) em.memory_size)) [
              | inr past ↦
                  let s : ltb em.memory_size (address + size) ≡ true = ground arith in
                  rw past
                    (unchanged em address bytes size _ v (rw (object, s)) (λ j. rw (object, s)))
              | inl inside ↦
                  let s : ltb em.memory_size (address + size) ≡ false = ground arith in
                  rw inside (elim (Bool-cases (size == 0)) [
                    | inl empty ↦
                        rw empty
                          (unchanged em address bytes size _ v (rw (object, s)) (λ j. ground arith))
                    | inr some_bytes ↦ rw some_bytes (
                        copied em address bytes size v o object some_bytes (ground arith)
                          (rw (object, s)))
                  ])
            ])
    ]
