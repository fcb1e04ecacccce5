-- ===== src/Allocator/Chunks/SortedVec.antt =====
-- src/allocator/chunks/sorted_vec.rs: a vector of fixed capacity that keeps its items ascending.
-- The vector and the binary search are the library's, `X` and `S`.
pub mod Laws
pub mod Sorting
use shmem_util.Prelude.{ℕ, Exec, ◌>>=◌, ◌>>◌, assert, expect_ok, Result, ok, err, not, ◌==◌, length}
use shmem_util.External.{Ord, VecOps, Slices}

module _ {T : Type 0} {o : Ord T} (X : VecOps T) (S : Slices T o) where
  abbrev pub FixesSortedVec : Type 0
  FixesSortedVec = X.Vec

  unfoldable pub new : ℕ → Result X.Vec X.Error
  new capacity = X.with_capacity_in capacity

  unfoldable pub push : X.Vec → T → Exec X.Vec
  push v item = do
    assert (not (X.capacity v == length (X.items v)))
    let idx = S.upper_bound (X.items v) item
    expect_ok (X.insert v idx item)

  unfoldable pub pop : X.Vec → ℕ → Exec (T × X.Vec)
  pop v index = X.remove v index
