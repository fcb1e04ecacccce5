-- ===== src/Tests/Clocks.antt =====
-- Clock values, the reference counter and the mappings.
use shmem_util.ProcessRc.Atomics
use shmem_util.ProcessRc.Atomics.Laws.{IsRight, forked, run-IsRight}
use shmem_util.Prelude.{
  ℕ, ◌+◌, ◌-◌, ◌*◌, ◌%◌, ◌≤◌, ◌<◌, ◌≡◌, ◌↔◌, ◌⊎◌, refl, suc, List, length, if◌then◌else◌, ◌==◌, err,
  [], ◌∷◌, ok, Result, Ends, arith,
}
use shmem_util.Time.{billion, from}
use shmem_util.Time.Laws.{clock, from_exact_iff}
use shmem_util.Memmap.{Layout, Kernel, alloc_in}
use shmem_util.Memmap.Laws.{give_back, give_back-restores_iff}

from_exact_iff_example :
    Ends (from 5_000_000_000 (clock 100 200_000_000) 6_900_000_000) (λ c.
      (s' : ℕ) × (m' : ℕ) × (c ≡ clock s' m')
      × (m' < billion)
      × (s' * billion + m' + 5_000_000_000 ≡ 100 * billion + 200_000_000 + 6_900_000_000))
    ↔ ((5_000_000_000 ≤ 6_900_000_000) ⊎ ((5_000_000_000 - 6_900_000_000) % billion < 200_000_000))
from_exact_iff_example =
    from_exact_iff 100 200_000_000 5_000_000_000 6_900_000_000 (omega arith) (omega arith)
      (omega arith)

-- a kernel that maps at the multiples of 4096
abbrev Mappings : Type 0
Mappings = List (ℕ × ℕ)

abbrev map_next : Mappings → ℕ → Result ℕ ℕ × Mappings
map_next s len = (ok (4096 * suc (length s)), (4096 * suc (length s), len) ∷ s)

abbrev unmap_last : Mappings → ℕ → ℕ → Result (Unit {0}) ℕ × Mappings
unmap_last [] addr len = (ok tt, [])
unmap_last (m ∷ s) addr len = (ok tt, if m.0 == addr then s else m ∷ s)

map_next-ok :
    (s : Mappings) (len addr : ℕ)
    → (map_next s len).0 ≡ ok addr
    → (map_next s len).1 ≡ (addr, len) ∷ s
map_next-ok s len addr e = ground arith

map_next-err : (s : Mappings) (len e : ℕ) → (map_next s len).0 ≡ err e → (map_next s len).1 ≡ s
map_next-err s len e h = ground arith

unmap_last-ok :
    (s : Mappings) (addr len : ℕ) (rest : Mappings)
    → (unmap_last s addr len).0 ≡ ok tt
    → s ≡ (addr, len) ∷ rest
    → (unmap_last s addr len).1 ≡ rest
unmap_last-ok s addr len rest e same = rw same (ground arith)

unmap_last-err :
    (s : Mappings) (addr len e : ℕ)
    → (unmap_last s addr len).0 ≡ err e
    → (unmap_last s addr len).1 ≡ s
unmap_last-err [] addr len e h = refl
unmap_last-err (m ∷ s) addr len e h = ground arith

unmap_last-answers : (s : Mappings) (addr len : ℕ) → (unmap_last s addr len).0 ≡ ok tt
unmap_last-answers [] addr len = refl
unmap_last-answers (m ∷ s) addr len = refl

abbrev kernel : Kernel
kernel = record {
  State = Mappings;
  mappings = λ s. s;
  mmap = map_next;
  munmap = unmap_last;
  mmap_ok = map_next-ok;
  mmap_err = map_next-err;
  munmap_ok = unmap_last-ok;
  munmap_err = unmap_last-err;
}

-- two pages, aligned to two pages: the kernel answers with the address 4096
abbrev pages : Layout
pages = record { size = 8192; align = 8192 }

give_back-restores_iff_example :
    (give_back kernel pages (alloc_in kernel [] pages) ≡ [])
    ↔ ((addr : ℕ) → (map_next [] 8192).0 ≡ ok addr → (0 < addr) × (addr % 8192 ≡ 0))
give_back-restores_iff_example =
    give_back-restores_iff kernel [] pages (λ t ptr. unmap_last-answers t ptr 8192)

-- Two threads of a child whose parent has 3 references: the second has loaded before the first resets.
run-IsRight_example :
    IsRight 8 3 (Atomics.run 8 (forked 7 3 2) (0 ∷ 1 ∷ 0 ∷ 1 ∷ 1 ∷ 1 ∷ 1 ∷ 0 ∷ []))
run-IsRight_example =
    run-IsRight 8 7 3 2 (0 ∷ 1 ∷ 0 ∷ 1 ∷ 1 ∷ 1 ∷ 1 ∷ 0 ∷ []) (omega arith)
      (λ e. absurd (omega arith)) (omega arith)
