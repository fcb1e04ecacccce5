-- ===== src/Allocator/Chunks/FindFree.antt =====
-- src/allocator/chunks.rs: the tests `initial` and `find_free`, for any number of chunks.
use shmem_util.Prelude.{
  ◌↔◌, ℕ, zero, suc, ◌+◌, ◌*◌, ◌-◌, ◌≤◌, ◌<◌, ◌≡◌, refl, true, none, some, Exec, done, ◌>>=◌, ◌>>◌,
  assert, expect, expect_ok, ok, Option, length, usize_mod, mul_usize, leb, ◌==◌, arith,
}
use shmem_util.External.{VecOps, Slices}
use shmem_util.Allocator.FreeChunk.{FreeSpace, chunk_size}
use shmem_util.Allocator.FreeChunk.Laws.{free_order}
use shmem_util.Allocator.Chunks.{new, get}
use shmem_util.Allocator.Chunks.SortedVec
use shmem_util.Allocator.Chunks.Get.{need, Got}
use shmem_util.Allocator.Chunks.Check.{free_space, self_check, self_check-passes, get-Told}
use shmem_util.Allocator.Chunks.Return.{new-NewChunks}

module _ (X : VecOps FreeSpace) (S : Slices FreeSpace free_order) where
  unfoldable pub initial : ℕ → Exec (Unit {0})
  initial max_chunks = do
    made ← new X S max_chunks
    chunks ← expect_ok made
    assert (length (X.items chunks) == 1)
    assert (free_space (X.items chunks) == mul_usize max_chunks chunk_size)

  unfoldable pub find_one : ℕ → ℕ → Exec (Unit {0})
  find_one max_chunks size = do
    made ← new X S max_chunks
    chunks ← expect_ok made
    got ← get X S chunks size
    free_chunk ← expect got.0
    assert (leb size (mul_usize free_chunk.count chunk_size))
    self_check (X.items got.1)

  -- the sizes from 1 to the bound
  unfoldable pub find_up_to : ℕ → ℕ → Exec (Unit {0})
  find_up_to max_chunks zero = done tt
  find_up_to max_chunks (suc size) = do find_up_to max_chunks size; find_one max_chunks (suc size)

  unfoldable pub find_free : ℕ → Exec (Unit {0})
  find_free max_chunks = find_up_to max_chunks (mul_usize max_chunks chunk_size - 1)

module _ (X : VecOps FreeSpace) (S : Slices FreeSpace free_order) (n : ℕ) (pos : 0 < n)
    (fits : n + n + n + n + n + n + n + n < usize_mod) (v : X.Vec)
    (made : SortedVec.new X S n ≡ ok v) where
  small : n < usize_mod
  small = omega (arith, fits)

  initial-passes : initial X S n ≡ done tt
  unfolding initial free_space
  initial-passes =
      let (r, run, (w, is_ok, good, all)) = new-NewChunks X S n small pos (ok v) made in
      rw (run, is_ok) (rw all (ground arith))

  -- what `find_one` checks of an answer of `get`
  found-passes :
      (w : X.Vec) (size : ℕ) (o : Option FreeSpace) (u : X.Vec)
      → size ≤ n * chunk_size
      → free_space (X.items w) ≡ n * chunk_size
      → Got X S n small w (need size) (o, u)
      → ((o ≡ none) ↔ (free_space (X.items w) < size))
      → (expect o >>= λ s.
          assert (leb size (mul_usize s.count chunk_size)) >> self_check (X.items u))
        ≡ done tt
  found-passes w size none u le free got told = let short = told.0 refl in absurd (omega arith)
  found-passes w size (some s) u le free got told =
      let count = got.answer.0 in
      let enough : leb size (mul_usize s.count chunk_size) ≡ true = ground (arith, fits) in
      rw (enough, self_check-passes n (X.items u) got.good.inv) refl

  find_one-passes : (size : ℕ) → 0 < size → size ≤ n * chunk_size → find_one X S n size ≡ done tt
  unfolding find_one free_space
  find_one-passes size some_size le =
      let (r, run, (w, is_ok, good, all)) = new-NewChunks X S n small pos (ok v) made in
      let (g, run', (got, told)) =
        get-Told X S n small w size good fits some_size (omega (arith, fits)) in
      let free : free_space (X.items w) ≡ n * chunk_size = rw all (omega (arith, fits)) in
      rw (run, is_ok) (rw run' (found-passes w size g.0 g.1 le free got told))

  find_up_to-passes : (size : ℕ) → size ≤ n * chunk_size → find_up_to X S n size ≡ done tt
  unfolding find_up_to
  find_up_to-passes zero le = refl
  find_up_to-passes (suc size) le =
      rw (find_up_to-passes size (omega arith)) (find_one-passes (suc size) (omega arith) le)

  -- Where the vector can be made, for a positive number of chunks whose bytes are below 2^64, the
  -- tests `initial` and `find_free` pass.
  find_free_passes : (initial X S n ≡ done tt) × (find_free X S n ≡ done tt)
  unfolding find_free
  find_free_passes =
      (initial-passes, find_up_to-passes (mul_usize n chunk_size - 1) (omega (arith, fits)))
