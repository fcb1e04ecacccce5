-- ===== src/Autoclean/Laws.antt =====
-- `Scoped` on the allocator of src/allocator.rs, each of whose locks succeeds.
use shmem_util.Prelude.{ℕ, ◌≡◌, refl, List, ◌∷◌, Result, ok, err, Ends}
use shmem_util.External.{VecOps, Slices}
use shmem_util.Memmap.{Layout, AllocError, allocation_error}
use shmem_util.Allocator.FreeChunk.{FreeSpace}
use shmem_util.Allocator.FreeChunk.Laws.{free_order}
use shmem_util.Allocator.Ops.{ShmemAlloc, alloc, dealloc}
use shmem_util.Allocator.Ownership.{Supported, Buffer, Owned, Owned-unique}
use shmem_util.Allocator.Ownership.Calls.{alloc-Allocated, dealloc-Owned, Allocated}
use shmem_util.Autoclean.{Alloc, Scoped, scoped, new, as_ptr, into_raw, drop}

module _ (X : VecOps FreeSpace) (S : Slices FreeSpace free_order) where
  abbrev pub shmem : Alloc (ShmemAlloc X S)
  shmem = record {
    alloc = λ a layout. alloc X S a 0 layout;
    dealloc = λ a ptr layout. dealloc X S a 0 ptr layout;
  }

  module _ (n base : ℕ) (region : Buffer n base) where
    -- What `new` answers from the state `a` with the blocks `live`, and what becomes of it: taken
    -- apart, the block is live and aligned; dropped, the free chunks and the blocks are as before.
    abbrev pub Cleans :
        ShmemAlloc X S
        → List (ℕ × Layout)
        → Layout
        → Result (Scoped (ShmemAlloc X S)) (AllocError × ShmemAlloc X S)
        → Type 0
    Cleans a live layout (err (e, a')) =
        (e ≡ allocation_error layout)
        × Owned X S n base a' live
        × (X.items a'.free_chunks.contents ≡ X.items a.free_chunks.contents)
    Cleans a live layout (ok s) =
        Owned X S n base ((into_raw shmem s).1) ((as_ptr shmem s, layout) ∷ live)
        × ((into_raw shmem s).0 ≡ as_ptr shmem s)
        × Ends (drop shmem s) (λ a'.
          Owned X S n base a' live
          × (X.items a'.free_chunks.contents ≡ X.items a.free_chunks.contents))

    scoped-Cleans :
        (a : ShmemAlloc X S) (live : List (ℕ × Layout)) (layout : Layout)
        (answer : Result ℕ AllocError) (a' : ShmemAlloc X S)
        → Owned X S n base a live
        → Allocated X S n base region a live layout (answer, a')
        → Cleans a live layout (scoped shmem layout (answer, a'))
    unfolding as_ptr into_raw drop
    scoped-Cleans a live layout (err e) a' own (same, own', _) =
        (same, own', Owned-unique X S n base a a' live region own own')
    scoped-Cleans a live layout (ok p) a' own (own', _, _) =
        let (b, run, own'') =
          dealloc-Owned X S n base region a' ((p, layout) ∷ live) 0 p layout own' refl in
        (own', refl, (b, run, (own'', Owned-unique X S n base a b live region own own'')))

    -- On a buffer as `Buffer` describes it, in an owned state and for a supported layout, where
    -- each lock succeeds, `Scoped::new` ends without a panic. With an error, which names the
    -- layout, the live blocks and the free chunks are as before; with a value, `into_raw`
    -- leaves a block live at the pointer that `as_ptr` tells, and the drop ends without a panic
    -- with the live blocks and the free chunks as before.
    pub new-Cleans :
        (a : ShmemAlloc X S) (live : List (ℕ × Layout)) (layout : Layout)
        → Supported layout
        → Owned X S n base a live
        → Ends (new shmem a layout) (Cleans a live layout)
    unfolding new
    new-Cleans a live layout sup own =
        let (r, run, got) = alloc-Allocated X S n base region a live layout sup own in
        (scoped shmem layout r, rw run refl, scoped-Cleans a live layout r.0 r.1 own got)
