-- ===== src/Memmap.antt =====
-- src/memmap.rs: the allocator that maps a region for each request. `alloc` takes what `mmap`
-- answered, a pointer or an error; `alloc_in` and `dealloc_in` also take the kernel's mappings along.
pub mod Laws
use shmem_util.Prelude.{
  ◌≡◌, List, ◌∷◌, ℕ, ◌%◌, ◌-◌, ◌^◌, Bool, Result, ok, err, ◌==◌, ltb, leb, if◌then◌else◌, Exec,
  done, panic,
}

-- `core::alloc::Layout`
pub record Layout : Type 0 where
  pub size : ℕ
  pub align : ℕ

-- `Layout::from_size_align` with `expect`, for an alignment that is a power of two: the size,
-- rounded up to the alignment, is at most `isize::MAX`.
abbrev pub from_size_align : ℕ → ℕ → Exec Layout
from_size_align size align =
    if leb size (2 ^ 63 - align) then done (record { size = size; align = align }) else panic

-- `alloc_collections::alloc::AllocationError`
pub data AllocError : Type 0 where
  allocation_error : Layout → AllocError

unfoldable pub alloc : Result ℕ ℕ → Layout → Result ℕ AllocError
alloc (ok raw_ptr) layout =
    if raw_ptr == 0
    then err (allocation_error layout)
    else if raw_ptr % layout.align == 0
    then ok raw_ptr
    else err (allocation_error layout)
alloc (err e) layout = err (allocation_error layout)

-- `mmap` and `munmap` on the mappings of the kernel, from the latest: where each begins and how
-- long it is.
pub record Kernel : Type 1 where
  pub State : Type 0
  pub mappings : State → List (ℕ × ℕ)
  pub mmap : State → ℕ → Result ℕ ℕ × State
  pub munmap : State → ℕ → ℕ → Result (Unit {0}) ℕ × State
  pub mmap_ok :
      (s : State) (len addr : ℕ)
      → (mmap s len).0 ≡ ok addr
      → mappings ((mmap s len).1) ≡ (addr, len) ∷ mappings s
  pub mmap_err :
      (s : State) (len e : ℕ) → (mmap s len).0 ≡ err e → mappings ((mmap s len).1) ≡ mappings s
  pub munmap_ok :
      (s : State) (addr len : ℕ) (rest : List (ℕ × ℕ))
      → (munmap s addr len).0 ≡ ok tt
      → mappings s ≡ (addr, len) ∷ rest
      → mappings ((munmap s addr len).1) ≡ rest
  pub munmap_err :
      (s : State) (addr len e : ℕ)
      → (munmap s addr len).0 ≡ err e
      → mappings ((munmap s addr len).1) ≡ mappings s

module _ (K : Kernel) where
  unfoldable pub alloc_in : K.State → Layout → Result ℕ AllocError × K.State
  alloc_in s layout = (alloc ((K.mmap s layout.size).0) layout, (K.mmap s layout.size).1)

  -- A failure is logged.
  unfoldable pub dealloc_in : K.State → ℕ → Layout → K.State
  dealloc_in s ptr layout = (K.munmap s ptr layout.size).1
