-- ===== src/Allocator/Chunks.antt =====
-- src/allocator/chunks.rs: the manager of free chunks. `Chunks` has one field, the sorted vector,
-- and is that vector here. The loop of `insert_chunk_and_merge` takes fuel; each round removes an
-- item, so one more than the number of items is enough (`Chunks.Insert`).
pub mod SortedVec
pub mod Inv
pub mod Insert
pub mod Canonical
pub mod Get
pub mod Return
pub mod Check
pub mod Bounds
pub mod Random
pub mod FindFree
use shmem_util.Prelude.{
  ℕ, zero, suc, ◌+◌, ◌/◌, ◌%◌, ◌≡◌, Bool, true, false, Option, none, some, List, [], ◌∷◌, Exec,
  done, hang, ◌>>=◌, ◌>>◌, assert, expect, expect_ok, Result, ok, err, ◌==◌, leb, if◌then◌else◌,
  compare, checked_add, length,
}
use shmem_util.External.{VecOps, Slices}
use shmem_util.Allocator.FreeChunk.{FreeSpace, merge, split, from_bytes, chunk_size}
use shmem_util.Allocator.FreeChunk
use shmem_util.Allocator.FreeChunk.Laws.{free_order}
use SortedVec

-- `iter().enumerate().filter_map(..).next()`: the first item that merges, and its index.
unfoldable pub find_and_merge_from : ℕ → List FreeSpace → FreeSpace → Option (ℕ × FreeSpace)
find_and_merge_from id [] chunk = none
find_and_merge_from id (existing_chunk ∷ rest) chunk =
    let later = find_and_merge_from (suc id) rest chunk in
    elim (merge existing_chunk chunk) [ some merged ↦ some (id, merged) | none ↦ later ]

-- The whole chunks that `size` bytes take; `checked_add` guards the rounding up.
unfoldable pub chunks_of_size : ℕ → Option ℕ
chunks_of_size size =
    if size % chunk_size == 0 then some (size / chunk_size) else checked_add (size / chunk_size) 1

abbrev pub is_empty : List FreeSpace → Bool
is_empty [] = true
is_empty (_ ∷ _) = false

module _ (X : VecOps FreeSpace) (S : Slices FreeSpace free_order) where
  abbrev pub Chunks : Type 0
  Chunks = X.Vec

  unfoldable pub new : ℕ → Exec (Result X.Vec X.Error)
  new max_chunks = elim (SortedVec.new X S max_chunks) [
    | err e ↦ done (err e)
    | ok free_chunks ↦ do
      v ← SortedVec.push X S free_chunks (FreeChunk.new 0 max_chunks)
      done (ok v)
  ]

  unfoldable pub find_and_merge : X.Vec → FreeSpace → Option (ℕ × FreeSpace)
  find_and_merge v chunk = find_and_merge_from 0 (X.items v) chunk

  -- the `while let` of `insert_chunk_and_merge`
  unfoldable pub merge_loop : ℕ → X.Vec → FreeSpace → Exec (X.Vec × FreeSpace)
  merge_loop zero v chunk = hang
  merge_loop (suc fuel) v chunk = elim (find_and_merge v chunk) [
    | none ↦ done (v, chunk)
    | some (id, merged) ↦ do popped ← SortedVec.pop X S v id; merge_loop fuel popped.1 merged
  ]

  unfoldable pub insert_chunk_and_merge : X.Vec → FreeSpace → Exec X.Vec
  insert_chunk_and_merge v chunk = if is_empty (X.items v) then SortedVec.push X S v chunk else do
    merged ← merge_loop (suc (length (X.items v))) v chunk
    SortedVec.push X S merged.0 merged.1

  -- the end of `get`: the unused part goes back, and the space is returned
  unfoldable pub keep_unused :
      X.Vec → FreeSpace → Option FreeSpace → Exec (Option FreeSpace × X.Vec)
  keep_unused v space none = done (some space, v)
  keep_unused v space (some unused) = do w ← insert_chunk_and_merge v unused; done (some space, w)

  -- the rest of `get`, once the index is known to be in range
  unfoldable pub take_space : X.Vec → ℕ → ℕ → Exec (Option FreeSpace × X.Vec)
  take_space v idx required_chunks = do
    popped ← SortedVec.pop X S v idx
    parts ← split popped.0 required_chunks
    keep_unused popped.1 parts.0 parts.1

  -- the index that the binary search of `get` finds
  abbrev pub best_index : X.Vec → ℕ → ℕ
  best_index v required_chunks =
      S.lower_bound_by (X.items v) (λ free_space. compare free_space.count required_chunks)

  unfoldable pub get : X.Vec → ℕ → Exec (Option FreeSpace × X.Vec)
  unfolding take_space
  get v size = elim (chunks_of_size size) [
    | none ↦ done (none, v)
    | some required_chunks ↦
        let idx = best_index v required_chunks in
        if leb (length (X.items v)) idx then done (none, v) else take_space v idx required_chunks
  ]

  unfoldable pub return_back : X.Vec → ℕ → ℕ → Exec X.Vec
  return_back v shift size = do
    count ← expect (chunks_of_size size)
    assert (shift % chunk_size == 0)
    insert_chunk_and_merge v (FreeChunk.new (from_bytes shift) count)
