-- ===== src/Tests/Chunks.antt =====
-- The manager of free chunks, on a memory of four chunks.
use shmem_util.Prelude.{ℕ, ◌+◌, ◌*◌, ◌≡◌, refl, List, [], ◌∷◌, some, done, Ends, arith, length, ◌≤◌}
use shmem_util.External.{VecOps, Slices}
use shmem_util.External.Instances.{list_vec, scan_slices, ListVec}
use shmem_util.Allocator.FreeChunk.{FreeSpace, chunk_size, split, merge, are_contiguous}
use shmem_util.Allocator.FreeChunk
use shmem_util.Allocator.FreeChunk.Cover.{cover, covers}
use shmem_util.Allocator.FreeChunk.Laws.{free_order}
use shmem_util.Allocator.Chunks
use shmem_util.Allocator.Chunks.SortedVec
use shmem_util.Allocator.Chunks.Inv.{Good, Inv}
use shmem_util.Allocator.Chunks.Bounds.{insert_chunk_and_merge-half_full}
use shmem_util.Allocator.Chunks.Get.{get-Got, Got}
use shmem_util.Allocator.Chunks.Insert.{insert_chunk_and_merge-Pushed}
use shmem_util.Allocator.Chunks.Random.{
  takes, returns, random_actions, Shared, random_actions-passes,
}
use shmem_util.Allocator.Chunks.Return.{whole, whole-Inv, get-return_back}

abbrev X : VecOps FreeSpace
X = list_vec FreeSpace

abbrev S : Slices FreeSpace free_order
S = scan_slices free_order

abbrev run_of : ℕ → ℕ → FreeSpace
run_of beginning count = record { relative_beginning = beginning; count = count }

abbrev all_free : ListVec FreeSpace
all_free = record { items = whole 4; capacity = 4 }

all_free-Good : Good X 4 all_free
all_free-Good = record { inv = whole-Inv 4 (omega arith); room = omega arith }

-- the chunks 0 and 2 are free
abbrev holes : List FreeSpace
holes = run_of 0 1 ∷ run_of 2 1 ∷ []

holes-Inv : Inv 4 holes
unfolding merge are_contiguous FreeChunk.cmp
holes-Inv = record {
  sorted = (((λ e. ground arith), tt), (tt, tt));
  fits = ((omega arith, omega arith), ((omega arith, omega arith), tt));
  disjoint = λ u. ground arith;
  apart = ((refl, tt), (tt, tt));
}

abbrev with_holes : ListVec FreeSpace
with_holes = record { items = holes; capacity = 4 }

two_chunks : Chunks.chunks_of_size 12 ≡ some 2
unfolding Chunks.chunks_of_size
two_chunks = refl

abbrev one_chunk : ℕ
one_chunk = 1

get-Got_example : Ends (Chunks.get X S all_free 12) (Got X S 4 (omega arith) all_free 2)
get-Got_example = get-Got X S 4 (omega arith) all_free 12 2 all_free-Good two_chunks

insert_chunk_and_merge-Pushed_example :
    Ends
      (Chunks.insert_chunk_and_merge X S with_holes (run_of 1 1))
      (λ w. Good X 4 w × ((u : ℕ) → cover u (X.items w) ≡ cover u holes + covers u (run_of 1 1)))
insert_chunk_and_merge-Pushed_example =
    insert_chunk_and_merge-Pushed X S 4 (omega arith) with_holes (run_of 1 1)
      (record { inv = holes-Inv; room = omega arith })
      (record { fits = (omega arith, omega arith); outside = λ u. ground arith })

insert_chunk_and_merge-half_full_example :
    Ends
      (Chunks.insert_chunk_and_merge X S with_holes (run_of 1 1))
      (λ w. length (X.items w) + length (X.items w) ≤ X.capacity w + 1)
insert_chunk_and_merge-half_full_example =
    insert_chunk_and_merge-half_full X S 4 (omega arith) with_holes (run_of 1 1)
      (record { inv = holes-Inv; room = omega arith })
      (record { fits = (omega arith, omega arith); outside = λ u. ground arith })

joined : merge (run_of 2 1) (run_of 1 1) ≡ some (run_of 1 2)
unfolding merge are_contiguous
joined = refl

three_left :
    Chunks.get X S all_free 5
    ≡ done (some (run_of 0 1), record { items = run_of 1 3 ∷ []; capacity = 4 })
unfolding Chunks.get Chunks.chunks_of_size Chunks.take_space Chunks.keep_unused split
    Chunks.insert_chunk_and_merge SortedVec.push SortedVec.pop
three_left = refl

get-return_back_example :
    Ends
      (Chunks.return_back X S (record { items = run_of 1 3 ∷ []; capacity = 4 }) (0 * chunk_size) 5)
      (λ v. Good X 4 v × (X.items v ≡ whole 4))
get-return_back_example =
    get-return_back X S 4 (omega arith) all_free (record { items = run_of 1 3 ∷ []; capacity = 4 })
      5 (run_of 0 1) all_free-Good (omega arith) (omega arith) three_left

-- twelve bytes, a number that is too large, and one space back
random_actions-passes_example :
    Ends
      (random_actions X S 4 (all_free, []) (takes 12 ∷ takes 31 ∷ returns 7 ∷ takes 31 ∷ []))
      (Shared X S 4 (omega arith))
random_actions-passes_example =
    random_actions-passes X S 4 (omega arith) all_free
      (takes 12 ∷ takes 31 ∷ returns 7 ∷ takes 31 ∷ []) (omega arith)
      (omega arith, (omega arith, (tt, (omega arith, tt)))) all_free-Good
