-- ===== src/Memory/Tests.antt =====
-- Guest memory at concrete inputs.
use mips64_emulator.Base.{◌≡◌, refl, arith, some, done, ◌>>=◌, List, [], ◌∷◌, inl, inr}
use mips64_emulator.Types.{big}
use mips64_emulator.Memory.{
  Memory, ok, out_of_bounds, misaligned, load, store, bound_checking, alignment_checking, gather,
  scatter, read16, read32, read64, write32, write64,
}
use mips64_emulator.Memory.Spec.{halfword, word, doubleword, read, write, HoldsBytes}
use mips64_emulator.Memory.Read.{read-read_result}
use mips64_emulator.Memory.Write.{write-write_result}
use mips64_emulator.Memory.RoundTrip.{write-read, write-read_apart}
use mips64_emulator.Memory.Order.{write_both, swapped, write-write_comm, write-write_last}
use mips64_emulator.Memory.Reset.{
  Call, init_to, reset_all, write_at, perform_all, perform_all-HoldsBytes,
}

abbrev empty : Memory
empty = record { memory = λ _. 0; endian = big }

empty-HoldsBytes : HoldsBytes empty
empty-HoldsBytes a = omega arith

-- Big endian bytes of a word, read back two at a time.
big_endian_halves :
    (write32 (some empty) 0x100 0xCAFEBABE >>= λ (s, m). read16 m 0x102 (some 0))
    ≡ done (ok, some 0xBABE)
unfolding write32 read16 load store bound_checking alignment_checking
big_endian_halves = refl

doubleword_back :
    (write64 (some empty) 0x108 0x0123456789ABCDEF >>= λ (s, m). read64 m 0x108 (some 0))
    ≡ done (ok, some 0x0123456789ABCDEF)
unfolding write64 read64 load store gather scatter bound_checking alignment_checking
doubleword_back = refl

refused :
    (read32 (some empty) 0x102 (some 7) ≡ done (misaligned, some 7))
    × (read32 (some empty) 0x3FFFFFE (some 7) ≡ done (out_of_bounds, some 7))
    × (read32 (some empty) 0xFFFFFFFFFFFFFFFE (some 7) ≡ done (out_of_bounds, some 7))
unfolding read32 load bound_checking alignment_checking
refused = (refl, refl, refl)

read-read_result_example : read word (some empty) 0x3FFFFFE (some 7) ≡ done (out_of_bounds, some 7)
read-read_result_example =
    read-read_result word (some empty) 0x3FFFFFE (some 7) empty-HoldsBytes (omega arith)

write-write_result_example :
    write halfword (some empty) 0x101 0xABCD ≡ done (misaligned, some empty)
write-write_result_example =
    write-write_result halfword (some empty) 0x101 0xABCD (omega arith) (omega arith)

write-read_example :
    (write doubleword (some empty) 0x20 0x1122334455667788 >>= λ (s, m).
    read doubleword m 0x20 (some 0))
    ≡ done (ok, some 0x1122334455667788)
write-read_example =
    write-read empty doubleword 0x20 0x1122334455667788 empty-HoldsBytes (omega arith) (omega arith)
      0

write-read_apart_example :
    (write word (some empty) 0x20 0x11223344 >>= λ (s, m). read halfword m 0x24 (some 0))
    ≡ read halfword (some empty) 0x24 (some 0)
write-read_apart_example =
    write-read_apart empty word 0x20 0x11223344 empty-HoldsBytes (omega arith) (omega arith)
      halfword 0x24 0 (omega arith) (inr (omega arith))

abbrev session : List Call
session = write_at word 0x40 0xFFFFFFFF ∷ write_at word 0x41 1 ∷ reset_all ∷ init_to big ∷ []

perform_all-HoldsBytes_example :
    (m : Memory) × (perform_all session (some empty) ≡ done (some m)) × HoldsBytes m
perform_all-HoldsBytes_example =
    perform_all-HoldsBytes session empty
      ((omega arith, omega arith), ((omega arith, omega arith), (tt, (tt, tt)))) empty-HoldsBytes

write-write_comm_example :
    write_both empty word 0x20 0x11223344 halfword 0x24 0xABCD
    ≡ swapped (write_both empty halfword 0x24 0xABCD word 0x20 0x11223344)
write-write_comm_example =
    write-write_comm empty word halfword 0x20 0x24 0x11223344 0xABCD (omega arith) (omega arith)
      (omega arith) (omega arith) (inl (omega arith))

write-write_last_example :
    (write word (some empty) 0x20 1 >>= λ r. write word r.1 0x20 2) ≡ write word (some empty) 0x20 2
write-write_last_example =
    write-write_last empty word 0x20 1 2 (omega arith) (omega arith) (omega arith)
