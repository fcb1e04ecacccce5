-- ===== src/Memmap/Laws.antt =====
-- A mapping is handed out only where it is suitable, and lost where it is not.
use shmem_util.Prelude.{
  ℕ, ◌%◌, ◌<◌, ◌≡◌, ◌≢◌, ◌↔◌, inl, inr, refl, ap, length, List, ◌∷◌, Result, ok, err, ◌==◌,
  Bool-cases, arith,
}
use shmem_util.Memmap.{Layout, AllocError, alloc, Kernel, alloc_in, dealloc_in}

-- `alloc` answers with a pointer exactly if `mmap` gave that pointer, and it is not null and
-- aligned as asked for.
pub alloc-ok_iff :
    (mapped : Result ℕ ℕ) (layout : Layout) (ptr : ℕ)
    → (alloc mapped layout ≡ ok ptr) ↔ ((mapped ≡ ok ptr) × (0 < ptr) × (ptr % layout.align ≡ 0))
unfolding alloc
alloc-ok_iff (ok raw) layout ptr = (λ e. ground arith, λ e. ground arith)
alloc-ok_iff (err e) layout ptr = (λ k. ground arith, λ k. ground arith)

-- The block of an answer is given back.
module _ (K : Kernel) where
  abbrev pub give_back : Layout → Result ℕ AllocError × K.State → K.State
  give_back layout (ok ptr, s) = dealloc_in K s ptr layout
  give_back layout (err e, s) = s

  longer : (x : ℕ × ℕ) (xs : List (ℕ × ℕ)) → x ∷ xs ≢ xs
  longer x xs e = let same = ap length e in omega arith

  -- A mapping that is not suitable stays, and one that is suitable is unmapped.
  restores :
      (s : K.State) (layout : Layout) (r : Result ℕ ℕ)
      → ((t : K.State) (ptr : ℕ) → (K.munmap t ptr layout.size).0 ≡ ok tt)
      → (K.mmap s layout.size).0 ≡ r
      → (K.mappings (give_back layout (alloc_in K s layout)) ≡ K.mappings s)
        ↔ ((addr : ℕ) → r ≡ ok addr → (0 < addr) × (addr % layout.align ≡ 0))
  unfolding alloc_in dealloc_in alloc
  restores s layout (err e) unmaps same =
      rw same ((λ k addr never. cc), (λ k. K.mmap_err s layout.size e same))
  restores s layout (ok addr) unmaps same = elim (Bool-cases (addr == 0)) [
    | inl null ↦
        rw (same, null)
          (
            (λ k. absurd (
                longer (addr, layout.size) (K.mappings s)
                  (rw (← K.mmap_ok s layout.size addr same) k))),
            (λ k. absurd (let fits = k addr refl in ground arith)),
          )
    | inr fine ↦ elim (Bool-cases (addr % layout.align == 0)) [
      | inl aligned ↦
          rw (same, fine, aligned)
            (
              (λ k addr' e. ground arith),
              (λ k.
                  K.munmap_ok _ addr layout.size (K.mappings s) (unmaps _ addr)
                    (K.mmap_ok s layout.size addr same)),
            )
      | inr odd ↦
          rw (same, fine, odd)
            (
              (λ k. absurd (
                  longer (addr, layout.size) (K.mappings s)
                    (rw (← K.mmap_ok s layout.size addr same) k))),
              (λ k. absurd (let fits = k addr refl in ground arith)),
            )
    ]
  ]

  -- Where `munmap` does not fail, giving back what `MemmapAlloc::alloc` answers leaves the
  -- kernel's mappings as they were before exactly if `mmap` does not answer with an address
  -- that is null or not aligned as asked for.
  pub give_back-restores_iff :
      (s : K.State) (layout : Layout)
      → ((t : K.State) (ptr : ℕ) → (K.munmap t ptr layout.size).0 ≡ ok tt)
      → (K.mappings (give_back layout (alloc_in K s layout)) ≡ K.mappings s)
        ↔ ((addr : ℕ) → (K.mmap s layout.size).0 ≡ ok addr → (0 < addr) × (addr % layout.align ≡ 0))
  give_back-restores_iff s layout unmaps = restores s layout (K.mmap s layout.size).0 unmaps refl
