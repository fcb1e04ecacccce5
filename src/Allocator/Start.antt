-- ===== src/Allocator/Start.antt =====
-- `ShmemAlloc::new`: which error comes when, and that a new allocator owns its whole buffer.
use shmem_util.Prelude.{
  ℕ, ◌-◌, ◌*◌, ◌/◌, ◌%◌, ◌^◌, ◌≤◌, ◌<◌, ◌≡◌, ◌≢◌, refl, ap, [], true, false, ok, err, Result, done,
  Ends, usize_mod, ◌==◌, arith,
}
use shmem_util.External.{VecOps, Slices}
use shmem_util.Memmap.{Layout, AllocError, allocation_error}
use shmem_util.Memmap
use shmem_util.Memmap.Laws.{alloc-ok_iff}
use shmem_util.Mutex.{InitErrno}
use shmem_util.Mutex
use shmem_util.Allocator.FreeChunk.{FreeSpace, chunk_size}
use shmem_util.Allocator.FreeChunk.Laws.{free_order}
use shmem_util.Allocator.Chunks.SortedVec
use shmem_util.Allocator.Chunks.Inv.{Good}
use shmem_util.Allocator.Chunks.Return.{whole, new-NewChunks}
use shmem_util.Allocator.Ops.{
  alignment, InitializationError, zero_capacity, unaligned_capacity, internal_vector,
  internal_buffer, memory_buffer, ShmemAlloc, NewAnswers, finish, new,
}
use shmem_util.Allocator.Ownership.{Owned}

-- the pthread calls of `Mutex::new` all succeed
abbrev pub NoErrno : InitErrno → Type 0
NoErrno e = (e.attr_init ≡ 0) × (e.setpshared ≡ 0) × (e.mutex_init ≡ 0)

module _ (X : VecOps FreeSpace) (S : Slices FreeSpace free_order) (n : ℕ) where
  abbrev pub capacity : ℕ
  capacity = n * chunk_size

  abbrev pub layout : Layout
  layout = record { size = capacity; align = alignment }

  -- What `new` answers for `n` chunks: the first failure, in the order vector, box, mapping, or
  -- else an allocator with nothing handed out, and a buffer at an aligned address.
  abbrev pub Started :
      {B : Type 0}
      → Result X.Vec X.Error
      → Result (Unit {0}) B
      → Result ℕ AllocError
      → Result (ShmemAlloc X S) (InitializationError X.Error B)
      → Type 0
  Started (err e) boxed mapped r = r ≡ err (internal_vector n e)
  Started (ok v) (err e) mapped r = r ≡ err (internal_buffer e)
  Started (ok v) (ok _) (err e) r = r ≡ err (memory_buffer e)
  Started (ok v) (ok _) (ok base) r =
      (a : ShmemAlloc X S) × (r ≡ ok a)
      × Owned X S n base a []
      × (base % alignment ≡ 0)
      × (0 < base)

  abbrev start : X.Vec → ℕ → ℕ → ShmemAlloc X S
  start w pid base = record {
    free_chunks = record {
      pshared = true;
      contents = w;
      creator_pid = pid;
      destroyed = false;
      dropped = false;
    };
    memory_buffer = base;
  }

  module _ (small : n < usize_mod) (pos : 0 < n) (size : capacity ≤ 2 ^ 63 - alignment) where
    finish-Started :
        {B : Type 0} (sys : NewAnswers X S B) (v w : X.Vec) (boxed : Result (Unit {0}) B)
        (mapped : Result ℕ AllocError)
        → NoErrno sys.errno
        → Good X n w
        → X.items w ≡ whole n
        → sys.boxed ≡ boxed
        → Memmap.alloc sys.mapped layout ≡ mapped
        → Ends (finish X S capacity sys w) (Started (ok v) boxed mapped)
    unfolding finish Mutex.new
    finish-Started sys v w (err x) mapped none_failed good all eb em =
        (err (internal_buffer x), ground arith, refl)
    finish-Started sys v w (ok x) (err y) none_failed good all eb em =
        (err (memory_buffer y), ground arith, refl)
    finish-Started sys v w (ok x) (ok base) none_failed good all eb em =
        let (_, high, aligned) = (alloc-ok_iff sys.mapped layout base).0 em in
        (
          ok (start w sys.pid base),
          ground arith,
          (
            start w sys.pid base,
            refl,
            record { good = good; buffer = refl; each = tt; total = λ u. rw all (omega arith) },
            aligned,
            high,
          ),
        )

    not_zero : (capacity == 0) ≡ false
    not_zero = ground arith

    whole_chunks : (capacity % alignment == 0) ≡ true
    whole_chunks = ground arith

    chunk_count : capacity / alignment ≡ n
    chunk_count = omega arith

    -- For a capacity of `n` chunks, positive and such that its layout is valid, and pthread
    -- calls that succeed, `ShmemAlloc::new` ends without a panic. Its answer is the error of
    -- the vector, else that of the box, else that of the mapping, and otherwise an allocator
    -- that owns its whole buffer with no live block, at an aligned address that is not null.
    pub new-Started :
        {B : Type 0} (sys : NewAnswers X S B) (made : Result X.Vec X.Error)
        → NoErrno sys.errno
        → SortedVec.new X S n ≡ made
        → Ends (new X S capacity sys) (Started made sys.boxed (Memmap.alloc sys.mapped layout))
    unfolding new
    new-Started sys (err e) none_failed em =
        let (r, run, failed) = new-NewChunks X S n small pos (err e) em in
        (
          err (internal_vector n e),
          rw (not_zero, whole_chunks, chunk_count, run, failed)
              (ap (λ k. done (err (internal_vector k e))) chunk_count),
          refl,
        )
    new-Started sys (ok v) none_failed em =
        let (r, run, (w, made, good, all)) = new-NewChunks X S n small pos (ok v) em in
        rw (not_zero, new, whole_chunks, chunk_count, run, made)
          (finish-Started sys v w sys.boxed (Memmap.alloc sys.mapped layout) none_failed good all
            refl refl)

-- Other capacities are refused, before anything is allocated.
pub new_refused :
    {B : Type 0} (X : VecOps FreeSpace) (S : Slices FreeSpace free_order) (capacity : ℕ)
    (sys : NewAnswers X S B)
    → (new X S 0 sys ≡ done (err zero_capacity))
      × (capacity % alignment ≢ 0 → new X S capacity sys ≡ done (err (unaligned_capacity capacity)))
unfolding new
new_refused X S capacity sys = (refl, λ odd. ground arith)
