-- ===== src/Allocator/Usable.antt =====
-- What comes of `usable_size`, where a caller frees a block with the size that it tells.
use shmem_util.Prelude.{
  ap, inl, inr, Option-cases, ℕ, ◌+◌, ◌-◌, ◌*◌, ◌/◌, ◌%◌, ◌≤◌, ◌<◌, ◌≡◌, ◌≢◌, refl, List, ◌∷◌, some,
  false, Ends, usize_mod, ◌==◌, checked_sub, arith,
}
use shmem_util.External.{VecOps, Slices}
use shmem_util.Memmap.{Layout}
use shmem_util.Allocator.FreeChunk.{FreeSpace, chunk_size}
use shmem_util.Allocator.FreeChunk
use shmem_util.Allocator.FreeChunk.Cover.{cover, covers}
use shmem_util.Allocator.FreeChunk.Laws.{free_order}
use shmem_util.Allocator.Chunks.{chunks_of_size, return_back}
use shmem_util.Allocator.Chunks.Get.{need, chunks_of_size-need}
use shmem_util.Allocator.Chunks.Return.{return_back-Good}
use shmem_util.Allocator.Ops.{ShmemAlloc, with_chunks, dealloc, usable_size}
use shmem_util.Allocator.Ownership.{
  Supported, Buffer, block, LiveBlock, Owned, check_alignment-ok, align-le, whole-le-one,
}

-- the layout of a block with the size that `usable_size` tells
abbrev pub usable : Layout → Layout
usable layout = record { size = (usable_size layout).1; align = layout.align }

-- A size that is no multiple of eight, from 72 bytes on.
pub record Misjudged (layout : Layout) : Type 0 where
  pub part : layout.size % chunk_size ≢ 0
  pub large : 72 ≤ layout.size
  pub small : layout.size * 2 < usize_mod

usable_size-part :
    (layout : Layout)
    → Supported layout
    → Misjudged layout
    → (usable_size layout).1 ≡ (layout.size / chunk_size) * 9
unfolding usable_size
usable_size-part layout sup m =
    let odd : (layout.size % chunk_size == 0) ≡ false = let p = m.part in ground arith in
    let s = m.small in rw (check_alignment-ok layout sup, usable_size, odd) (omega arith)

usable-Supported :
    (layout : Layout) → Supported layout → Misjudged layout → Supported (usable layout)
usable-Supported layout sup m =
    let size = usable_size-part layout sup m in
    record {
      aligned = sup.aligned;
      align_pos = sup.align_pos;
      size_pos = let l = m.large in omega (arith, size);
      size_small = let s = m.small in omega (arith, size);
    }

more_chunks :
    (layout : Layout)
    → Supported layout
    → Misjudged layout
    → need layout.size < need ((usable_size layout).1)
more_chunks layout sup m =
    let l = m.large in let p = m.part in omega (arith, usable_size-part layout sup m)

-- A space that is no longer than one and the next one together holds no other chunks.
covers-le :
    (u begin begin' k k1 k2 : ℕ)
    → begin' ≡ begin + k1
    → k ≤ k1 + k2
    → covers u (FreeChunk.new begin k)
      ≤ covers u (FreeChunk.new begin k1) + covers u (FreeChunk.new begin' k2)
covers-le u begin begin' k k1 k2 next le = ground arith

covers_first : (begin k : ℕ) → 0 < k → covers begin (FreeChunk.new begin k) ≡ 1
covers_first begin k pos = ground arith

covers_inside : (u begin k : ℕ) → begin ≤ u → u < begin + k → covers u (FreeChunk.new begin k) ≡ 1
covers_inside u begin k le less = ground arith

module _ (X : VecOps FreeSpace) (S : Slices FreeSpace free_order) (n base : ℕ)
    (region : Buffer n base) where
  -- On a buffer as `Buffer` describes it, in an owned state with two live blocks, the second
  -- right behind the first, where the first was asked for with a size that is no multiple of 8,
  -- from 72 bytes on and below 2^63, and the size that `usable_size` tells takes no more chunks
  -- than the two have: `dealloc` of the first with that size, whose lock succeeds, ends without
  -- a panic, and a chunk of the second is free afterwards.
  pub usable_size_steals :
      (a : ShmemAlloc X S) (p q : ℕ) (layout layout' : Layout) (live : List (ℕ × Layout))
      → Owned X S n base a ((p, layout) ∷ (q, layout') ∷ live)
      → q ≡ p + need layout.size * chunk_size
      → Misjudged layout
      → need ((usable_size layout).1) ≤ need layout.size + need layout'.size
      → Ends (dealloc X S a 0 p (usable layout)) (λ a'.
        (u : ℕ) × (cover u (X.items a'.free_chunks.contents) ≡ 1)
        × (covers u (block base (q, layout')) ≡ 1))
  unfolding dealloc
  usable_size_steals a p q layout layout' live own behind m le =
      let b1 : LiveBlock n base (p, layout) = own.each.0 in
      let b2 : LiveBlock n base (q, layout') = own.each.1.0 in
      let sup = usable-Supported layout b1.supported m in
      let size = (usable_size layout).1 in
      let c = block base (p, usable layout) in
      let first = (q - base) / chunk_size in
      let more = more_chunks layout b1.supported m in
      let next : (q - base) / chunk_size ≡ (p - base) / chunk_size + need layout.size =
        let inside = b1.inside in let on = b1.on_chunk in omega arith in
      let not_empty : (layout.align == p) ≡ false =
        let al = align-le layout.align b1.supported.aligned in
        let r = region.high in let inside = b1.inside in ground arith in
      let shift : checked_sub p a.memory_buffer ≡ some (p - base) =
        let inside = b1.inside in let buf = own.buffer in ground arith in
      let (w, run, (good, sum)) =
        return_back-Good X S n (let f = region.fits in omega arith) a.free_chunks.contents
          (p - base) size (need size) c own.good b1.on_chunk
          (chunks_of_size-need size sup.size_small) refl
          (record {
            fits = (omega (arith, more), omega (arith, b2.fits.1, next));
            outside = λ u. omega (
              arith,
              covers-le u ((p - base) / chunk_size) ((q - base) / chunk_size) (need size)
                  (need layout.size) (need layout'.size) next le,
              own.total u,
              whole-le-one n u,
            );
          }) in
      (
        with_chunks X S a w,
        rw (not_empty, dealloc) (rw (check_alignment-ok (usable layout) sup, shift, run) refl),
        (
          first,
          omega (
            arith,
            sum first,
            good.inv.disjoint first,
            covers_inside first ((p - base) / chunk_size) (need size) (omega (arith, next))
                (omega (arith, next, more)),
          ),
          covers_first first (need layout'.size) (b2.fits.0),
        ),
      )

module _ (X : VecOps FreeSpace) (S : Slices FreeSpace free_order) where
  return_back-same :
      (v : X.Vec) (shift size size' : ℕ)
      → chunks_of_size size' ≡ chunks_of_size size
      → return_back X S v shift size' ≡ return_back X S v shift size
  unfolding return_back
  return_back-same v shift size size' e = rw e refl

  -- A block that is freed with any size up to that of its whole chunks, which `alloc_excess` tells,
  -- is freed as with its own.
  dealloc_within :
      (a : ShmemAlloc X S) (lock_errno p size' : ℕ) (layout : Layout)
      → Supported layout
      → layout.size ≤ size'
      → size' ≤ need layout.size * chunk_size
      → size' < usize_mod
      → dealloc X S a lock_errno p (record { size = size'; align = layout.align })
        ≡ dealloc X S a lock_errno p layout
  unfolding dealloc
  dealloc_within a lock_errno p size' layout sup more less word =
      let larger : Layout = record { size = size'; align = layout.align } in
      let sup' : Supported larger = record {
        aligned = sup.aligned;
        align_pos = sup.align_pos;
        size_pos = let pos = sup.size_pos in omega arith;
        size_small = word;
      } in
      let same : chunks_of_size size' ≡ chunks_of_size layout.size =
        let need_same : need size' ≡ need layout.size = omega arith in
        rw (chunks_of_size-need size' word, chunks_of_size-need layout.size sup.size_small)
          (ap some need_same) in
      elim (Option-cases (checked_sub p a.memory_buffer)) [
        | inl below ↦ rw (check_alignment-ok larger sup', check_alignment-ok layout sup, below) refl
        | inr (shift, inside) ↦
            rw
              (
                check_alignment-ok larger sup',
                check_alignment-ok layout sup,
                inside,
                return_back-same a.free_chunks.contents shift layout.size size' same,
              )
              refl
      ]
