-- ===== src/Allocator/Ops.antt =====
-- src/allocator.rs: the operations of `ShmemAlloc`.
use shmem_util.Prelude.{
  ℕ, ◌+◌, ◌/◌, ◌%◌, ◌||◌, Option, none, some, Exec, done, ◌>>=◌, Result, ok, err, ◌==◌,
  if◌then◌else◌, checked_sub, mul_usize,
}
use shmem_util.External.{VecOps, Slices}
use shmem_util.Memmap.{Layout, AllocError, allocation_error, from_size_align}
use shmem_util.Memmap
use shmem_util.Mutex.{Mutex, InitErrno, lock}
use shmem_util.Mutex
use shmem_util.Allocator.FreeChunk.{FreeSpace, chunk_size, into_absolute}
use shmem_util.Allocator.FreeChunk.Laws.{free_order}
use shmem_util.Allocator.Chunks

abbrev pub alignment : ℕ
alignment = chunk_size

-- `E` is the error of the vector, `B` that of the box.
pub data InitializationError (E B : Type 0) : Type 0 where
  zero_capacity : InitializationError E B
  unaligned_capacity : (capacity : ℕ) → InitializationError E B
  internal_vector : (chunks : ℕ) → (source : E) → InitializationError E B
  internal_buffer : (source : B) → InitializationError E B
  memory_buffer : (source : AllocError) → InitializationError E B

unfoldable pub check_alignment : Layout → Result (Unit {0}) AllocError
check_alignment layout =
    if layout.align == 0 || layout.size == 0
    then ok tt
    else if alignment % layout.align == 0
    then ok tt
    else err (allocation_error layout)

unfoldable pub usable_size : Layout → ℕ × ℕ
unfolding check_alignment
usable_size layout = elim (check_alignment layout) [
  | ok _ ↦
      let size =
        if layout.size % chunk_size == 0
        then layout.size
        else mul_usize (layout.size / chunk_size) (chunk_size + 1) in
      (size, size)
  | err e ↦ (0, 0)
]

-- `let Excess(ptr, _) = ..?`
abbrev pub pointer_of : Result (ℕ × ℕ) AllocError → Result ℕ AllocError
pointer_of (ok (ptr, _)) = ok ptr
pointer_of (err e) = err e

module _ (X : VecOps FreeSpace) (S : Slices FreeSpace free_order) where
  -- `free_chunks` is the mutex in shared memory that every copy of the allocator points to.
  pub record ShmemAlloc : Type 0 where
    pub free_chunks : Mutex X.Vec
    pub memory_buffer : ℕ

  -- What the system answers during `ShmemAlloc::new`: to the pthread calls, to the box that holds
  -- the mutex, and to `mmap`.
  pub record NewAnswers (B : Type 0) : Type 0 where
    pub pid : ℕ
    pub errno : InitErrno
    pub boxed : Result (Unit {0}) B
    pub mapped : Result ℕ ℕ

  -- the end of `new`, once the manager of chunks is there
  unfoldable pub finish :
      {B : Type 0}
      → ℕ
      → NewAnswers B
      → X.Vec
      → Exec (Result ShmemAlloc (InitializationError X.Error B))
  finish capacity sys chunks = do
    mutex ← Mutex.new chunks sys.pid sys.errno
    elim sys.boxed [
      | err e ↦ done (err (internal_buffer e))
      | ok _ ↦ do
        memory_layout ← from_size_align capacity alignment
        elim (Memmap.alloc sys.mapped memory_layout) [
          | err e ↦ done (err (memory_buffer e))
          | ok buffer ↦ done (ok (record { free_chunks = mutex; memory_buffer = buffer }))
        ]
    ]

  unfoldable pub new :
      {B : Type 0} → ℕ → NewAnswers B → Exec (Result ShmemAlloc (InitializationError X.Error B))
  new capacity sys =
      if capacity == 0
      then done (err zero_capacity)
      else if capacity % alignment == 0
      then (do
        chunks ← Chunks.new X S (capacity / alignment)
        elim chunks [
          | err e ↦ done (err (internal_vector (capacity / alignment) e))
          | ok free_chunks ↦ finish capacity sys free_chunks
        ])
      else done (err (unaligned_capacity capacity))

  -- `Excess(ptr, usable_size)`
  abbrev pub Excess : Type 0
  Excess = ℕ × ℕ

  abbrev pub with_chunks : ShmemAlloc → X.Vec → ShmemAlloc
  with_chunks a v = record a { free_chunks = record a.free_chunks { contents = v } }

  -- what `alloc_excess` makes of the answer of `get`
  abbrev pub excess_of :
      ShmemAlloc → Layout → Option FreeSpace → X.Vec → Result Excess AllocError × ShmemAlloc
  excess_of a layout (some chunk) v = (
    ok (into_absolute chunk.relative_beginning a.memory_buffer, mul_usize chunk.count chunk_size),
    with_chunks a v,
  )
  excess_of a layout none v = (err (allocation_error layout), with_chunks a v)

  -- `alloc_excess` under the lock
  unfoldable pub get_excess : ShmemAlloc → Layout → Exec (Result Excess AllocError × ShmemAlloc)
  get_excess a layout = do
    got ← Chunks.get X S a.free_chunks.contents layout.size
    done (excess_of a layout got.0 got.1)

  unfoldable pub alloc_excess :
      ShmemAlloc → ℕ → Layout → Exec (Result Excess AllocError × ShmemAlloc)
  alloc_excess a lock_errno layout = elim (check_alignment layout) [
    | err e ↦ done (err e, a)
    | ok _ ↦
        if layout.size == 0
        then done (ok (layout.align, 0), a)
        else (do _ ← lock lock_errno; get_excess a layout)
  ]

  unfoldable pub alloc : ShmemAlloc → ℕ → Layout → Exec (Result ℕ AllocError × ShmemAlloc)
  alloc a lock_errno layout = elim (check_alignment layout) [
    | err e ↦ done (err e, a)
    | ok _ ↦ do excess ← alloc_excess a lock_errno layout; done (pointer_of excess.0, excess.1)
  ]

  -- `alloc_zeroed` relies on the zeroed pages of `mmap`, and is `alloc`.
  unfoldable pub alloc_zeroed : ShmemAlloc → ℕ → Layout → Exec (Result ℕ AllocError × ShmemAlloc)
  alloc_zeroed a lock_errno layout = alloc a lock_errno layout

  unfoldable pub dealloc : ShmemAlloc → ℕ → ℕ → Layout → Exec ShmemAlloc
  dealloc a lock_errno ptr layout =
      if layout.align == ptr then done a else elim (check_alignment layout) [
        | err e ↦ done a
        | ok _ ↦ elim (checked_sub ptr a.memory_buffer) [
          | none ↦ done a
          | some shift ↦ do
            _ ← lock lock_errno
            v ← Chunks.return_back X S a.free_chunks.contents shift layout.size
            done (with_chunks a v)
        ]
      ]
