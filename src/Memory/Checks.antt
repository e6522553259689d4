-- ===== src/Memory/Checks.antt =====
-- The bounds and alignment tests of src/mips64/memory.c.
use mips64_emulator.Base.{
  ℕ, ◌+◌, ◌^◌, ◌<◌, ◌≤◌, ◌≡◌, refl, ◌∙◌, arith, Outcome, done, not, if◌then◌else◌, u64,
}
use mips64_emulator.Base.Bits.{bit_and-mask}
use mips64_emulator.Memory.{
  Memory, MemoryStatus, null_pointer, misaligned, ok, out_of_bounds, max_size, load, store, update,
  bound_checking, alignment_checking, guarded,
}
use mips64_emulator.Memory.Spec.{
  Width, byte, halfword, word, doubleword, size, access_status, when_ok,
}

-- The tests, in the code's order, are the specification's, on every 64-bit address; the sum in
-- the bounds test does not wrap.
pub guarded-access_status :
    {A : Type 0} (w : Width) (address : ℕ) (kept : A) (access : Outcome (MemoryStatus × A))
    → address < 2 ^ 64
    → guarded address (size w) kept access
      ≡ when_ok
          (access_status address (size w))
          access
          (done (access_status address (size w), kept))
unfolding bound_checking alignment_checking
guarded-access_status byte address kept access h = ground arith
guarded-access_status halfword address kept access h = ground (arith, bit_and-mask 1 address)
guarded-access_status word address kept access h = ground (arith, bit_and-mask 2 address)
guarded-access_status doubleword address kept access h = ground (arith, bit_and-mask 3 address)

-- The byte accesses have no alignment test, and need none.
bounded-access_status :
    {A : Type 0} (address : ℕ) (kept : A) (access : Outcome (MemoryStatus × A))
    → address < 2 ^ 64
    → (if not (bound_checking address 1) then done (out_of_bounds, kept) else access)
      ≡ when_ok (access_status address 1) access (done (access_status address 1, kept))
unfolding bound_checking
bounded-access_status address kept access h = ground arith

-- An accepted access stays inside the array.
pub access_status-le : (address n : ℕ) → access_status address n ≡ ok → address + n ≤ max_size
access_status-le address n h = ground arith

pub load-lt :
    (mem : Memory) (address k : ℕ)
    → address + k < max_size
    → load mem (u64 (address + k)) ≡ done (mem.memory (address + k))
unfolding load
load-lt mem address k h =
    let e : u64 (address + k) ≡ address + k = omega arith in rw e (ground arith)

pub store-lt :
    (mem : Memory) (address k v : ℕ)
    → address + k < max_size
    → store mem (u64 (address + k)) v
      ≡ done (record mem { memory = update mem.memory (address + k) v })
unfolding store
store-lt mem address k v h =
    let e : u64 (address + k) ≡ address + k = omega arith in rw e (ground arith)

-- An access that is done inside the array is decided by its status.
chosen :
    {A : Type 0} (address n : ℕ) (kept new : A) (access : Outcome (MemoryStatus × A))
    → (address + n ≤ max_size → access ≡ done (ok, new))
    → (s : MemoryStatus) → access_status address n ≡ s
    → when_ok s access (done (s, kept)) ≡ done (s, when_ok s new kept)
chosen address n kept new access f ok e = f (access_status-le address n e)
chosen address n kept new access f null_pointer e = refl
chosen address n kept new access f out_of_bounds e = refl
chosen address n kept new access f misaligned e = refl

module _ {A : Type 0} (address : ℕ) (kept new : A) (access : Outcome (MemoryStatus × A))
    (h : address < 2 ^ 64) where
  pub guarded-when_ok :
      (w : Width)
      → (address + size w ≤ max_size → access ≡ done (ok, new))
      → guarded address (size w) kept access
        ≡ (let s = access_status address (size w) in done (s, when_ok s new kept))
  guarded-when_ok w f =
      guarded-access_status w address kept access h
      ∙ chosen address (size w) kept new access f (access_status address (size w)) refl

  pub bounded-when_ok :
      (address + 1 ≤ max_size → access ≡ done (ok, new))
      → (if not (bound_checking address 1) then done (out_of_bounds, kept) else access)
        ≡ (let s = access_status address 1 in done (s, when_ok s new kept))
  bounded-when_ok f =
      bounded-access_status address kept access h
      ∙ chosen address 1 kept new access f (access_status address 1) refl
