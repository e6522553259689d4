-- ===== src/Memory/Order.antt =====
-- The order of two writes to the memory of src/mips64/memory.c.
use mathlib.Core.Path.{fun_ext}
use mips64_emulator.Base.{
  ℕ, ◌+◌, ◌^◌, ◌<◌, ◌≤◌, ◌≡◌, ◌≢◌, ◌⊎◌, refl, ap, sym, ◌∙◌, arith, some, done, Outcome, Option,
  ◌>>=◌, inl, List, [], ◌∷◌, length,
}
use mips64_emulator.Memory.{
  Memory, MemoryStatus, ok, null_pointer, out_of_bounds, misaligned, update,
}
use mips64_emulator.Memory.Spec.{Width, size, write, bytes_of, overlay, access_status, when_ok}
use mips64_emulator.Memory.Write.{Fits, written, write-write_result}
use mips64_emulator.Memory.RoundTrip.{length-bytes_of}

update_comm :
    (f : ℕ → ℕ) (a b u v : ℕ) → a ≢ b → update (update f a u) b v ≡ update (update f b v) a u
update_comm f a b u v ne = fun_ext (λ x. ground (arith, ne))

update_twice : (f : ℕ → ℕ) (a u v : ℕ) → update (update f a u) a v ≡ update f a v
update_twice f a u v = fun_ext (λ x. ground arith)

-- A byte outside a run can be stored before it or after it.
overlay-update :
    (f : ℕ → ℕ) (a p v : ℕ) (bs : List ℕ)
    → (p < a) ⊎ (a + length bs ≤ p)
    → overlay (update f p v) a bs ≡ update (overlay f a bs) p v
overlay-update f a p v [] h = refl
overlay-update f a p v (b ∷ bs) h =
    ap (λ (g : ℕ → ℕ). overlay g (a + 1) bs) (update_comm f p a v b (ground arith))
    ∙ overlay-update (update f a b) (a + 1) p v bs (ground arith)

overlay_comm :
    (f : ℕ → ℕ) (a b : ℕ) (xs ys : List ℕ)
    → (a + length xs ≤ b) ⊎ (b + length ys ≤ a)
    → overlay (overlay f a xs) b ys ≡ overlay (overlay f b ys) a xs
overlay_comm f a b [] ys h = refl
overlay_comm f a b (x ∷ xs) ys h =
    overlay_comm (update f a x) (a + 1) b xs ys (ground arith)
    ∙ ap (λ (g : ℕ → ℕ). overlay g (a + 1) xs) (overlay-update f b a x ys (ground arith))

overlay_last :
    (f : ℕ → ℕ) (a : ℕ) (xs ys : List ℕ)
    → length xs ≡ length ys
    → overlay (overlay f a xs) a ys ≡ overlay f a ys
overlay_last f a [] [] h = refl
overlay_last f a [] (y ∷ ys) h = absurd (omega arith)
overlay_last f a (x ∷ xs) [] h = absurd (omega arith)
overlay_last f a (x ∷ xs) (y ∷ ys) h =
    ap (λ (g : ℕ → ℕ). overlay g (a + 1) ys)
      (sym (overlay-update (update f a x) (a + 1) a y xs (inl (omega arith)))
        ∙ ap (λ (g : ℕ → ℕ). overlay g (a + 1) xs) (update_twice f a x y))
    ∙ overlay_last (update f a y) (a + 1) xs ys (omega arith)

abbrev with_bytes : Memory → (ℕ → ℕ) → Memory
with_bytes mem f = record mem { memory = f }

-- The memory after a write, accepted or refused.
abbrev pub after_write : Memory → Width → ℕ → ℕ → Memory
after_write mem w a v = when_ok (access_status a (size w)) (written mem a (size w) v) mem

write-after_write :
    (mem : Memory) (w : Width) (a v : ℕ)
    → a < 2 ^ 64
    → Fits w v
    → write w (some mem) a v ≡ done (access_status a (size w), some (after_write mem w a v))
write-after_write mem w a v h fits =
    write-write_result w (some mem) a v h fits ∙ decided (access_status a (size w))
  where
    decided :
        (s : MemoryStatus)
        → ◌≡◌ {A = Outcome (MemoryStatus × Option Memory)}
            (done (s, when_ok s (some (written mem a (size w) v)) (some mem)))
            (done (s, some (when_ok s (written mem a (size w) v) mem)))
    decided ok = refl
    decided null_pointer = refl
    decided out_of_bounds = refl
    decided misaligned = refl

-- Two writes, one after the other: both statuses and the memory afterwards.
abbrev pub write_both :
    Memory → Width → ℕ → ℕ → Width → ℕ → ℕ → Outcome (MemoryStatus × MemoryStatus × Option Memory)
write_both mem w a v w' a' v' =
    write w (some mem) a v >>= λ r. write w' r.1 a' v' >>= λ r'. done (r.0, r'.0, r'.1)

abbrev pub swapped :
    Outcome (MemoryStatus × MemoryStatus × Option Memory)
    → Outcome (MemoryStatus × MemoryStatus × Option Memory)
swapped r = r >>= λ (s', s, m). done (s, s', m)

module _ (mem : Memory) (w w' : Width) (a a' v v' : ℕ) (h : a < 2 ^ 64) (h' : a' < 2 ^ 64)
    (fits : Fits w v) (fits' : Fits w' v') where
  after_write_comm :
      (a + size w ≤ a') ⊎ (a' + size w' ≤ a)
      → after_write (after_write mem w a v) w' a' v' ≡ after_write (after_write mem w' a' v') w a v
  after_write_comm apart = decided (access_status a (size w)) (access_status a' (size w'))
    where
      both :
          written (written mem a (size w) v) a' (size w') v'
          ≡ written (written mem a' (size w') v') a (size w) v
      both = ap (with_bytes mem) (
          overlay_comm mem.memory a a' (bytes_of mem.endian (size w) v)
            (bytes_of mem.endian (size w') v')
            (rw (length-bytes_of mem.endian (size w) v, length-bytes_of mem.endian (size w') v')
              apart))

      decided :
          (s s' : MemoryStatus)
          → (let m = when_ok s (written mem a (size w) v) mem in
              when_ok s' (written m a' (size w') v') m)
            ≡ (let m = when_ok s' (written mem a' (size w') v') mem in
                when_ok s (written m a (size w) v) m)
      decided ok ok = both
      decided ok null_pointer = refl
      decided ok out_of_bounds = refl
      decided ok misaligned = refl
      decided null_pointer s' = refl
      decided out_of_bounds s' = refl
      decided misaligned s' = refl

  -- For every memory and two writes with 64-bit addresses, values of their C types and ranges
  -- that do not overlap, in any widths and whether accepted or refused: both orders give the
  -- same two statuses and the same memory.
  pub write-write_comm :
      (a + size w ≤ a') ⊎ (a' + size w' ≤ a)
      → write_both mem w a v w' a' v' ≡ swapped (write_both mem w' a' v' w a v)
  write-write_comm apart = rw (
    write-after_write mem w a v h fits,
    write-after_write mem w' a' v' h' fits',
    write-after_write (after_write mem w a v) w' a' v' h' fits',
    write-after_write (after_write mem w' a' v') w a v h fits,
    after_write_comm apart,
  )

-- For every memory, 64-bit address and two values of the C type: of two writes of the same width
-- at the same address, accepted or refused, only the second is seen, in status and memory.
pub write-write_last :
    (mem : Memory) (w : Width) (a v v' : ℕ)
    → a < 2 ^ 64
    → Fits w v
    → Fits w v'
    → (write w (some mem) a v >>= λ r. write w r.1 a v') ≡ write w (some mem) a v'
write-write_last mem w a v v' h fits fits' =
    rw
      (
        write-after_write mem w a v h fits,
        write-after_write mem w a v' h fits',
        write-after_write (after_write mem w a v) w a v' h fits',
      )
      (ap (λ (m : Memory). finished (access_status a (size w)) m)
        (decided (access_status a (size w))))
  where
    finished : MemoryStatus → Memory → Outcome (MemoryStatus × Option Memory)
    finished s m = done (s, some m)

    both : written (written mem a (size w) v) a (size w) v' ≡ written mem a (size w) v'
    both = ap (with_bytes mem) (
        overlay_last mem.memory a (bytes_of mem.endian (size w) v) (bytes_of mem.endian (size w) v')
          (length-bytes_of mem.endian (size w) v ∙ sym (length-bytes_of mem.endian (size w) v')))

    decided :
        (s : MemoryStatus)
        → (let m = when_ok s (written mem a (size w) v) mem in
            when_ok s (written m a (size w) v') m)
          ≡ when_ok s (written mem a (size w) v') mem
    decided ok = both
    decided null_pointer = refl
    decided out_of_bounds = refl
    decided misaligned = refl
