-- ===== src/Allocator/Ownership/Calls.antt =====
-- `alloc` and `dealloc` keep the ownership of the memory, and never panic.
use shmem_util.Prelude.{
  ℕ, ◌+◌, ◌-◌, ◌*◌, ◌%◌, ◌≤◌, ◌<◌, ◌≡◌, refl, sym, List, ◌∷◌, none, some, ok, err, Result, All,
  All-remove_at, All-get_elem?, get_elem?, remove_at, Ends, usize_mod, Option, false, ◌==◌,
  checked_sub, mul_usize, arith,
}
use mathlib.Core.Path.{subst}
use shmem_util.External.{VecOps, Slices}
use shmem_util.Memmap.{Layout, AllocError, allocation_error}
use shmem_util.Allocator.FreeChunk.{FreeSpace, chunk_size}
use shmem_util.Allocator.FreeChunk
use shmem_util.Allocator.FreeChunk.Cover.{cover, covers, Fits}
use shmem_util.Allocator.FreeChunk.Laws.{free_order}
use shmem_util.Allocator.Chunks.Get.{need, chunks_of_size-need, get-Got, Got, GotSpace}
use shmem_util.Allocator.Chunks.Return.{whole, return_back-Good}
use shmem_util.Allocator.Ops.{
  ShmemAlloc, with_chunks, excess_of, get_excess, pointer_of, alloc_excess, alloc, dealloc,
}
use shmem_util.Allocator.Ownership.{
  Supported, Buffer, block, blocks, LiveBlock, Owned, check_alignment-ok, blocks-remove_at,
  aligned_below, align-le, whole-le-one,
}

module _ (X : VecOps FreeSpace) (S : Slices FreeSpace free_order) (n base : ℕ)
    (region : Buffer n base) where
  small : n < usize_mod
  small = let f = region.fits in omega arith

  -- The pointer is that of the first free run, in the order of `FreeSpace`, that is long enough.
  abbrev pub BestFit : ShmemAlloc X S → Layout → ℕ → Type 0
  BestFit a layout p =
      (s : FreeSpace) × GotSpace (X.items a.free_chunks.contents) (need layout.size) (some s)
      × (p ≡ base + s.relative_beginning * chunk_size)

  -- What a call that asks for `layout` answers and leaves. On success the block is live, aligned,
  -- and usable up to a whole number of chunks; on failure no free run was long enough.
  abbrev pub Excessive :
      ShmemAlloc X S
      → List (ℕ × Layout)
      → Layout
      → Result (ℕ × ℕ) AllocError × ShmemAlloc X S
      → Type 0
  Excessive a live layout (ok (p, usable), a') =
      Owned X S n base a' ((p, layout) ∷ live)
      × (p % layout.align ≡ 0)
      × (usable ≡ need layout.size * chunk_size)
      × BestFit a layout p
  Excessive a live layout (err e, a') =
      (e ≡ allocation_error layout)
      × Owned X S n base a' live
      × All (λ d. d.count < need layout.size) (X.items a.free_chunks.contents)

  -- The address that is answered, from which the block is read back.
  space_lem :
      (layout : Layout) (s : FreeSpace)
      → s.count ≡ need layout.size
      → s.relative_beginning + s.count ≤ n
      → (FreeChunk.into_absolute s.relative_beginning base
          ≡ base + s.relative_beginning * chunk_size)
        × (block base (base + s.relative_beginning * chunk_size, layout) ≡ s)
        × (mul_usize s.count chunk_size ≡ s.count * chunk_size)
  space_lem layout s count inside = let f = region.fits in (omega arith, ground arith, omega arith)

  excess_of-Excessive :
      (a : ShmemAlloc X S) (live : List (ℕ × Layout)) (layout : Layout) (o : Option FreeSpace)
      (w : X.Vec)
      → Supported layout
      → Owned X S n base a live
      → Got X S n small a.free_chunks.contents (need layout.size) (o, w)
      → Excessive a live layout (excess_of X S a layout o w)
  excess_of-Excessive a live layout none w sup own got = (
    refl,
    record {
      good = got.good;
      buffer = own.buffer;
      each = own.each;
      total = λ u. omega (arith, own.total u, got.kept u);
    },
    got.answer,
  )
  excess_of-Excessive a live layout (some s) w sup own got =
      let (count, (i, d, item, begin, enough, _)) = got.answer in
      let fd : Fits n d =
        All-get_elem? _ (X.items a.free_chunks.contents) i item own.good.inv.fits in
      let (address, same, bytes) = space_lem layout s count (omega arith) in
      rw (own.buffer, address, bytes)
        (
          record {
            good = got.good;
            buffer = refl;
            each = (
              record {
                supported = sup;
                inside = omega arith;
                on_chunk = omega arith;
                fits = subst (Fits n) (sym same) (omega (arith, sup.size_pos), omega arith);
              },
              own.each,
            );
            total = λ u.
                subst
                  (λ c.
                    cover u (X.items w) + (covers u c + cover u (blocks base live))
                    ≡ cover u (whole n))
                  (sym same) (omega (arith, own.total u, got.kept u));
          },
          aligned_below layout.align _ sup.aligned sup.align_pos
              (let al = region.aligned in omega arith),
          omega arith,
          (s, got.answer, refl),
        )

  get_excess-Excessive :
      (a : ShmemAlloc X S) (live : List (ℕ × Layout)) (layout : Layout)
      → Supported layout
      → Owned X S n base a live
      → Ends (get_excess X S a layout) (Excessive a live layout)
  unfolding get_excess
  get_excess-Excessive a live layout sup own =
      let (r, run, got) =
        get-Got X S n small a.free_chunks.contents layout.size (need layout.size) own.good
          (chunks_of_size-need layout.size sup.size_small) in
      (
        excess_of X S a layout r.0 r.1,
        rw (run, get_excess) refl,
        excess_of-Excessive a live layout r.0 r.1 sup own got,
      )

  -- On a buffer as `Buffer` describes it, in an owned state `alloc_excess` of a supported
  -- layout, whose lock succeeds, ends without a panic. With a pointer, the block is live beside
  -- the others, aligned as asked for, usable up to a whole number of chunks, and taken from the
  -- first free run, in the order of `FreeSpace`, that is long enough; with an error, which
  -- names the layout, the blocks are as before and every free run was too short.
  pub alloc_excess-Excessive :
      (a : ShmemAlloc X S) (live : List (ℕ × Layout)) (layout : Layout)
      → Supported layout
      → Owned X S n base a live
      → Ends (alloc_excess X S a 0 layout) (Excessive a live layout)
  unfolding alloc_excess
  alloc_excess-Excessive a live layout sup own =
      let filled : (layout.size == 0) ≡ false = let p = sup.size_pos in ground arith in
      rw (check_alignment-ok layout sup, alloc_excess, filled)
        (get_excess-Excessive a live layout sup own)

  -- the same for `alloc`, which drops the usable size
  abbrev pub Allocated :
      ShmemAlloc X S → List (ℕ × Layout) → Layout → Result ℕ AllocError × ShmemAlloc X S → Type 0
  Allocated a live layout (ok p, a') =
      Owned X S n base a' ((p, layout) ∷ live) × (p % layout.align ≡ 0) × BestFit a layout p
  Allocated a live layout (err e, a') =
      (e ≡ allocation_error layout)
      × Owned X S n base a' live
      × All (λ d. d.count < need layout.size) (X.items a.free_chunks.contents)

  pointer_of-Allocated :
      (a : ShmemAlloc X S) (live : List (ℕ × Layout)) (layout : Layout)
      (r : Result (ℕ × ℕ) AllocError) (a' : ShmemAlloc X S)
      → Excessive a live layout (r, a')
      → Allocated a live layout (pointer_of r, a')
  pointer_of-Allocated a live layout (ok (p, usable)) a' got = (got.0, got.1, got.3)
  pointer_of-Allocated a live layout (err e) a' got = got

  -- On a buffer as `Buffer` describes it, in an owned state `alloc` of a supported layout,
  -- whose lock succeeds, ends without a panic. With a pointer, the block is live beside the
  -- others, aligned as asked for, and taken from the first free run that is long enough; with
  -- an error, which names the layout, the blocks are as before and every free run was too
  -- short.
  pub alloc-Allocated :
      (a : ShmemAlloc X S) (live : List (ℕ × Layout)) (layout : Layout)
      → Supported layout
      → Owned X S n base a live
      → Ends (alloc X S a 0 layout) (Allocated a live layout)
  unfolding alloc
  alloc-Allocated a live layout sup own =
      let (r, run, got) = alloc_excess-Excessive a live layout sup own in
      (
        (pointer_of r.0, r.1),
        rw (check_alignment-ok layout sup, alloc) (rw run refl),
        pointer_of-Allocated a live layout r.0 r.1 got,
      )

  -- On a buffer as `Buffer` describes it, in an owned state `dealloc` of a live block, whose
  -- lock succeeds, ends without a panic in a state that is owned without that block.
  pub dealloc-Owned :
      (a : ShmemAlloc X S) (live : List (ℕ × Layout)) (i p : ℕ) (layout : Layout)
      → Owned X S n base a live
      → get_elem? live i ≡ some (p, layout)
      → Ends (dealloc X S a 0 p layout) (λ a'. Owned X S n base a' (remove_at live i))
  unfolding dealloc
  dealloc-Owned a live i p layout own e =
      let b : LiveBlock n base (p, layout) = All-get_elem? _ live i e own.each in
      let c = block base (p, layout) in
      let not_empty : (layout.align == p) ≡ false =
        let al = align-le layout.align b.supported.aligned in
        let r = region.high in let inside = b.inside in ground arith in
      let shift : checked_sub p a.memory_buffer ≡ some (p - base) =
        let inside = b.inside in let buf = own.buffer in ground arith in
      let (w, run, (good, sum)) =
        return_back-Good X S n small a.free_chunks.contents (p - base) layout.size
          (need layout.size) c own.good b.on_chunk
          (chunks_of_size-need layout.size b.supported.size_small) refl
          (record {
            fits = b.fits;
            outside = λ u. omega (
              arith,
              own.total u,
              blocks-remove_at u base live i (p, layout) e,
              whole-le-one n u,
            );
          }) in
      (
        with_chunks X S a w,
        rw (not_empty, dealloc) (rw (check_alignment-ok layout b.supported, shift, run) refl),
        record {
          good = good;
          buffer = own.buffer;
          each = All-remove_at _ live i own.each;
          total =
              λ u. omega (arith, own.total u, sum u, blocks-remove_at u base live i (p, layout) e);
        },
      )
