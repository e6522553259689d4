-- ===== src/Memory/Reset.antt =====
-- `mips64_memory_init`, `mips64_memory_reset`, and any sequence of calls that change the memory.
use mips64_emulator.Base.{
  ℕ, ◌<◌, ◌≡◌, ◌^◌, ◌↔◌, refl, sym, ap, arith, Option, some, none, Outcome, done, ◌>>=◌, List, [],
  ◌∷◌, All,
}
use mips64_emulator.Types.{Endian, little}
use mips64_emulator.Memory.{
  Memory, MemoryStatus, ok, null_pointer, out_of_bounds, misaligned, init, reset,
}
use mips64_emulator.Memory.Spec.{Width, size, write, access_status, when_ok, HoldsBytes}
use mips64_emulator.Memory.RoundTrip.{written-HoldsBytes}
use mips64_emulator.Memory.Write.{Fits, written, write-write_result}

-- What the comment in the source asks of a reset: cleared RAM, and the byte order as it was.
abbrev pub cleared : Memory → Memory
cleared mem = record mem { memory = λ _. 0 }

abbrev byte_order : MemoryStatus × Option Memory → Endian
byte_order (s, none) = little
byte_order (s, some mem) = mem.endian

-- A reset of the memory clears it and keeps everything else exactly if the byte order is little
-- endian: any other byte order is lost.
reset-cleared_iff :
    (mem : Memory) → (reset (some mem) ≡ (ok, some (cleared mem))) ↔ (mem.endian ≡ little)
unfolding reset
reset-cleared_iff mem = (λ e. sym (ap byte_order e), λ e. rw e)

-- A call that changes the memory, with its arguments.
pub data Call : Type 0 where
  init_to : Endian → Call
  reset_all : Call
  write_at : Width → ℕ → ℕ → Call

abbrev pub perform : Call → Option Memory → Outcome (MemoryStatus × Option Memory)
perform (init_to e) m = done (init m e)
perform reset_all m = done (reset m)
perform (write_at w address value) m = write w m address value

-- The arguments are values of their C types.
abbrev pub FitsTypes : Call → Type 0
FitsTypes (init_to e) = Unit
FitsTypes reset_all = Unit
FitsTypes (write_at w address value) = (address < 2 ^ 64) × Fits w value

pub perform_all : List Call → Option Memory → Outcome (Option Memory)
perform_all [] m = done m
perform_all (call ∷ calls) m = perform call m >>= λ (s, m'). perform_all calls m'

perform-HoldsBytes :
    (call : Call) (mem : Memory)
    → FitsTypes call
    → HoldsBytes mem
    → (s : MemoryStatus) × (mem' : Memory) × (perform call (some mem) ≡ done (s, some mem'))
      × HoldsBytes mem'
unfolding init reset
perform-HoldsBytes (init_to e) mem f h = (ok, _, refl, λ a. omega arith)
perform-HoldsBytes reset_all mem f h = (ok, _, refl, λ a. omega arith)
perform-HoldsBytes (write_at w address value) mem f h =
    decided (access_status address (size w)) (write-write_result w (some mem) address value f.0 f.1)
  where
    decided :
        (s : MemoryStatus)
        → write w (some mem) address value
          ≡ done (s, when_ok s (some (written mem address (size w) value)) (some mem))
        → (s' : MemoryStatus) × (mem' : Memory) × (write w (some mem) address value
            ≡ done (s', some mem'))
          × HoldsBytes mem'
    decided ok e = (ok, _, e, written-HoldsBytes mem address (size w) value h)
    decided null_pointer e = (null_pointer, mem, e, h)
    decided out_of_bounds e = (out_of_bounds, mem, e, h)
    decided misaligned e = (misaligned, mem, e, h)

-- From a memory that holds bytes, any sequence of initialisations, resets and writes with
-- arguments of their C types, accepted or refused, runs with no fault, and the memory holds
-- bytes afterwards.
pub perform_all-HoldsBytes :
    (calls : List Call) (mem : Memory)
    → All FitsTypes calls
    → HoldsBytes mem
    → (mem' : Memory) × (perform_all calls (some mem) ≡ done (some mem')) × HoldsBytes mem'
unfolding perform_all
perform_all-HoldsBytes [] mem f h = (mem, refl, h)
perform_all-HoldsBytes (call ∷ calls) mem f h =
    let (s, mem', e, h') = perform-HoldsBytes call mem f.0 h in
    let (mem'', e', h'') = perform_all-HoldsBytes calls mem' f.1 h' in (mem'', rw e e', h'')
