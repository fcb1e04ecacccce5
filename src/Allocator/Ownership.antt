-- ===== src/Allocator/Ownership.antt =====
-- Who owns the memory: every elementary chunk is free or belongs to one live block, and never both.
pub mod Calls
use shmem_util.Prelude.{
  ℕ, zero, suc, ◌+◌, ◌-◌, ◌*◌, ◌/◌, ◌%◌, ◌≤◌, ◌<◌, ◌≡◌, refl, sym, List, [], ◌∷◌, none, some, ok,
  err, Result, All, All-remove_at, All-get_elem?, get_elem?, remove_at, Ends, done, usize_mod,
  Option, true, false, ◌==◌, checked_sub, Ends-bind, arith,
}
use native.Mathlib.Decide.{dec_lt}
use native.Mathlib.Nat.{mod-eq_of_lt}
use shmem_util.External.{VecOps, Slices}
use shmem_util.Memmap.{Layout, AllocError, allocation_error}
use shmem_util.Allocator.FreeChunk.{FreeSpace, chunk_size}
use shmem_util.Allocator.FreeChunk
use shmem_util.Allocator.FreeChunk.Cover.{cover, covers, Fits, cover-remove_at}
use shmem_util.Allocator.FreeChunk.Laws.{free_order}
use shmem_util.Allocator.Chunks
use shmem_util.Allocator.Chunks.Canonical.{Inv-unique}
use shmem_util.Allocator.Chunks.Inv.{Good, Addable}
use shmem_util.Allocator.Chunks.Get.{need, chunks_of_size-need, get-Got, Got, GotSpace}
use shmem_util.Allocator.Chunks.Return.{whole, return_back-Good}
use shmem_util.Allocator.Ops.{
  alignment, check_alignment, ShmemAlloc, with_chunks, get_excess, alloc_excess, alloc, dealloc,
}

-- A request that is not empty and not aligned more strictly than the allocator is.
pub record Supported (layout : Layout) : Type 0 where
  pub aligned : alignment % layout.align ≡ 0
  pub align_pos : 0 < layout.align
  pub size_pos : 0 < layout.size
  pub size_small : layout.size < usize_mod

-- A buffer of `n` chunks at the address `base`, which is aligned and not among the first bytes.
pub record Buffer (n base : ℕ) : Type 0 where
  pub fits : base + n * chunk_size < usize_mod
  pub aligned : base % chunk_size ≡ 0
  pub high : chunk_size < base

-- the chunks of a live block, from its pointer and its layout
abbrev pub block : ℕ → ℕ × Layout → FreeSpace
block base b = FreeChunk.new ((b.0 - base) / chunk_size) (need b.1.size)

abbrev pub blocks : ℕ → List (ℕ × Layout) → List FreeSpace
blocks base [] = []
blocks base (b ∷ live) = block base b ∷ blocks base live

pub record LiveBlock (n base : ℕ) (b : ℕ × Layout) : Type 0 where
  pub supported : Supported b.1
  pub inside : base ≤ b.0
  pub on_chunk : (b.0 - base) % chunk_size ≡ 0
  pub fits : Fits n (block base b)

-- The state of the allocator with the blocks that are handed out.
pub record Owned (X : VecOps FreeSpace) (S : Slices FreeSpace free_order) (n base : ℕ)
    (a : ShmemAlloc X S) (live : List (ℕ × Layout)) : Type 0 where
  pub good : Good X n a.free_chunks.contents
  pub buffer : a.memory_buffer ≡ base
  pub each : All (LiveBlock n base) live
  pub total :
      (u : ℕ)
      → cover u (X.items a.free_chunks.contents) + cover u (blocks base live) ≡ cover u (whole n)

pub check_alignment-ok : (layout : Layout) → Supported layout → check_alignment layout ≡ ok tt
unfolding check_alignment
check_alignment-ok layout s = ground arith

blocks-remove_at :
    (u base : ℕ) (live : List (ℕ × Layout)) (i : ℕ) (b : ℕ × Layout)
    → get_elem? live i ≡ some b
    → covers u (block base b) + cover u (blocks base (remove_at live i))
      ≡ cover u (blocks base live)
blocks-remove_at u base [] i b e = absurd (ground arith)
blocks-remove_at u base (x ∷ live) zero b e = let same : x ≡ b = ground arith in rw same refl
blocks-remove_at u base (x ∷ live) (suc i) b e = omega (arith, blocks-remove_at u base live i b e)

pub align-le : (align : ℕ) → alignment % align ≡ 0 → align ≤ alignment
align-le align h = elim (dec_lt alignment align) [
  | yes more ↦ absurd (omega (arith, h, mod-eq_of_lt more))
  | no fits ↦ omega arith
]

-- the divisors of the alignment
aligned_below :
    (align p : ℕ) → alignment % align ≡ 0 → 0 < align → p % alignment ≡ 0 → p % align ≡ 0
aligned_below zero p d h e = absurd (omega arith)
aligned_below (suc zero) p d h e = omega arith
aligned_below (suc (suc zero)) p d h e = omega arith
aligned_below (suc (suc (suc zero))) p d h e = absurd (omega arith)
aligned_below (suc (suc (suc (suc zero)))) p d h e = omega arith
aligned_below (suc (suc (suc (suc (suc zero))))) p d h e = absurd (omega arith)
aligned_below (suc (suc (suc (suc (suc (suc zero)))))) p d h e = absurd (omega arith)
aligned_below (suc (suc (suc (suc (suc (suc (suc zero))))))) p d h e = absurd (omega arith)
aligned_below (suc (suc (suc (suc (suc (suc (suc (suc zero)))))))) p d h e = e
aligned_below (suc (suc (suc (suc (suc (suc (suc (suc (suc a))))))))) p d h e =
    absurd (omega (arith, align-le (suc (suc (suc (suc (suc (suc (suc (suc (suc a))))))))) d))

pub whole-le-one : (n u : ℕ) → cover u (whole n) ≤ 1
whole-le-one n u = ground arith

-- On a buffer as `Buffer` describes it, two states with the same blocks have the same free chunks.
pub Owned-unique :
    (X : VecOps FreeSpace) (S : Slices FreeSpace free_order) (n base : ℕ) (a b : ShmemAlloc X S)
    (live : List (ℕ × Layout))
    → Buffer n base
    → Owned X S n base a live
    → Owned X S n base b live
    → X.items b.free_chunks.contents ≡ X.items a.free_chunks.contents
Owned-unique X S n base a b live region own own' =
    Inv-unique n (let f = region.fits in omega arith) _ _ own'.good.inv own.good.inv
      (λ u. omega (arith, own.total u, own'.total u))
