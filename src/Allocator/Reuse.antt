-- ===== src/Allocator/Reuse.antt =====
-- Two facts about what callers are told: the usable size, and the memory of `alloc_zeroed`.
use shmem_util.Prelude.{
  ℕ, ◌*◌, ◌/◌, ◌%◌, ◌<◌, ◌≡◌, ◌↔◌, ◌⊎◌, inl, inr, refl, ok, err, Result, done, some, none, List,
  ◌∷◌, Ends, Ends-value, usize_mod, ◌==◌, Bool-cases, arith,
}
use mathlib.Core.Path.{subst}
use shmem_util.External.{VecOps, Slices}
use shmem_util.Memmap.{Layout, AllocError}
use shmem_util.Allocator.FreeChunk.{FreeSpace, chunk_size}
use shmem_util.Allocator.FreeChunk.Laws.{free_order}
use shmem_util.Allocator.Chunks.Get.{need, GotSpace, GotSpace-unique}
use shmem_util.Allocator.Ops.{ShmemAlloc, alloc, alloc_zeroed, dealloc, usable_size}
use shmem_util.Allocator.Ownership.{Supported, Buffer, Owned, Owned-unique, check_alignment-ok}
use shmem_util.Allocator.Ownership.Calls.{alloc-Allocated, dealloc-Owned, Allocated, BestFit}

-- For a supported layout of less than 2^63 bytes, `usable_size` tells the size that the whole
-- chunks of a block have exactly if the size is a multiple of 8 or lies from 64 to 71 bytes.
pub usable_size_exact_iff :
    (layout : Layout)
    → Supported layout
    → layout.size * 2 < usize_mod
    → (usable_size layout ≡ (need layout.size * chunk_size, need layout.size * chunk_size))
      ↔ ((layout.size % chunk_size ≡ 0) ⊎ (layout.size / chunk_size ≡ 8))
unfolding usable_size
usable_size_exact_iff layout sup small = elim (Bool-cases (layout.size % chunk_size == 0)) [
  | inl whole ↦
      rw (check_alignment-ok layout sup, usable_size, whole)
        ((λ e. inl (ground arith)), (λ h. ground arith))
  | inr part ↦
      rw (check_alignment-ok layout sup, usable_size, part)
        ((λ e. inr (ground arith)), (λ h. ground arith))
]

module _ (X : VecOps FreeSpace) (S : Slices FreeSpace free_order) (n base : ℕ)
    (region : Buffer n base) where
  -- The same pointer twice, where the free chunks are the same.
  again :
      (a b : ShmemAlloc X S) (live : List (ℕ × Layout)) (layout : Layout) (p : ℕ)
      (r : Result ℕ AllocError) (b' : ShmemAlloc X S)
      → X.items b.free_chunks.contents ≡ X.items a.free_chunks.contents
      → BestFit X S n base region a layout p
      → Allocated X S n base region b live layout (r, b')
      → r ≡ ok p
  again a b live layout p (ok q) b' same (s, first, e) (_, _, (t, first', f)) =
      let first'' = subst (λ xs. GotSpace xs (need layout.size) (some t)) same first' in
      let equal = GotSpace-unique _ _ (some s) (some t) first first'' in ground arith
  again a b live layout p (err x) b' same (s, first, e) (_, _, short) =
      let short' = subst (λ xs. GotSpace xs (need layout.size) none) same short in
      let never = GotSpace-unique _ _ (some s) none first short' in absurd (ground arith)

  -- On a buffer as `Buffer` describes it, in an owned state, once a supported layout has been
  -- allocated and its block freed, and where each lock succeeds, the next `alloc_zeroed` of
  -- that layout answers with the pointer of that block.
  pub alloc_zeroed_reuses :
      (a a1 a2 : ShmemAlloc X S) (live : List (ℕ × Layout)) (layout : Layout) (p : ℕ)
      → Supported layout
      → Owned X S n base a live
      → alloc X S a 0 layout ≡ done (ok p, a1)
      → dealloc X S a1 0 p layout ≡ done a2
      → Ends (alloc_zeroed X S a2 0 layout) (λ r. r.0 ≡ ok p)
  unfolding alloc_zeroed
  alloc_zeroed_reuses a a1 a2 live layout p sup own taken freed =
      let (own1, _, first) =
        Ends-value _ _ _ (alloc-Allocated X S n base region a live layout sup own) taken in
      let own2 =
        Ends-value _ _ _
          (dealloc-Owned X S n base region a1 ((p, layout) ∷ live) 0 p layout own1 refl) freed in
      let same = Owned-unique X S n base a a2 live region own own2 in
      let (r, run, got) = alloc-Allocated X S n base region a2 live layout sup own2 in
      (r, run, again a a2 live layout p r.0 r.1 same first got)
