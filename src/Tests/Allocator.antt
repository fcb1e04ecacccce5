-- ===== src/Tests/Allocator.antt =====
-- The allocator of src/allocator.rs on a buffer of four chunks at the address 4096.
use shmem_util.Prelude.{
  ℕ, ◌+◌, ◌≤◌, ◌≡◌, ◌⊎◌, refl, List, [], ◌∷◌, ok, done, Ends, true, false, arith,
}
use shmem_util.External.{VecOps, Slices}
use shmem_util.External.Instances.{list_vec, scan_slices}
use shmem_util.Memmap.{Layout}
use shmem_util.Memmap
use shmem_util.Allocator.FreeChunk.{FreeSpace, split, merge, are_contiguous}
use shmem_util.Allocator.Chunks
use shmem_util.Allocator.FreeChunk.Laws.{free_order}
use shmem_util.Allocator.Chunks.SortedVec
use shmem_util.Allocator.Chunks.Return.{whole, whole-Inv}
use shmem_util.Allocator.Ops.{
  check_alignment, get_excess, ShmemAlloc, NewAnswers, alloc, dealloc, alloc_excess, alloc_zeroed,
  new,
}
use shmem_util.Allocator.Ownership.{Supported, Buffer, Owned}
use shmem_util.Allocator.Ownership.Calls.{alloc_excess-Excessive, Excessive}
use shmem_util.Allocator.Start.{new-Started, Started, layout}
use shmem_util.Allocator.History.{
  serve, allocates, frees, IsOwned, run, run-IsOwned, live_disjoint, run-whole,
}
use shmem_util.Autoclean
use shmem_util.Autoclean.Laws.{shmem, Cleans, new-Cleans}
use shmem_util.Allocator.Reuse.{alloc_zeroed_reuses}

abbrev X : VecOps FreeSpace
X = list_vec FreeSpace

abbrev S : Slices FreeSpace free_order
S = scan_slices free_order

abbrev twelve : Layout
twelve = record { size = 12; align = 4 }

abbrev five : Layout
five = record { size = 5; align = 8 }

twelve-Supported : Supported twelve
twelve-Supported = record {
  aligned = refl;
  align_pos = omega arith;
  size_pos = omega arith;
  size_small = omega arith;
}

five-Supported : Supported five
five-Supported = record {
  aligned = refl;
  align_pos = omega arith;
  size_pos = omega arith;
  size_small = omega arith;
}

region : Buffer 4 4096
region = record { fits = omega arith; aligned = refl; high = omega arith }

abbrev with_free : List FreeSpace → ShmemAlloc X S
with_free xs = record {
  free_chunks = record {
    pshared = true;
    contents = record { items = xs; capacity = 4 };
    creator_pid = 7;
    destroyed = false;
    dropped = false;
  };
  memory_buffer = 4096;
}

abbrev fresh : ShmemAlloc X S
fresh = with_free (whole 4)

fresh-Owned : Owned X S 4 4096 fresh []
fresh-Owned = record {
  good = record { inv = whole-Inv 4 (omega arith); room = omega arith };
  buffer = refl;
  each = tt;
  total = λ u. omega arith;
}

run-IsOwned_example :
    Ends
      (run X S
        (fresh, [])
        (allocates 0 twelve ∷ allocates 0 five ∷ frees 0 1 ∷ allocates 0 twelve ∷ []))
      (IsOwned X S 4 4096 region)
run-IsOwned_example =
    run-IsOwned X S 4 4096 region (fresh, [])
      (allocates 0 twelve ∷ allocates 0 five ∷ frees 0 1 ∷ allocates 0 twelve ∷ [])
      ((refl, twelve-Supported), ((refl, five-Supported), (refl, ((refl, twelve-Supported), tt))))
      fresh-Owned

abbrev one_free : ShmemAlloc X S
one_free = with_free (record { relative_beginning = 3; count = 1 } ∷ [])

abbrev two_live : List (ℕ × Layout)
two_live = (4112, five) ∷ (4096, twelve) ∷ []

two_live-Owned : Owned X S 4 4096 one_free two_live
two_live-Owned = record {
  good = record {
    inv = record {
      sorted = (tt, tt);
      fits = ((omega arith, omega arith), tt);
      disjoint = λ u. ground arith;
      apart = (tt, tt);
    };
    room = omega arith;
  };
  buffer = refl;
  each = (
    record {
      supported = five-Supported;
      inside = omega arith;
      on_chunk = refl;
      fits = (omega arith, omega arith);
    },
    (
      record {
        supported = twelve-Supported;
        inside = omega arith;
        on_chunk = refl;
        fits = (omega arith, omega arith);
      },
      tt,
    ),
  );
  total = λ u. ground arith;
}

two_taken :
    run X S (fresh, []) (allocates 0 twelve ∷ allocates 0 five ∷ []) ≡ done (one_free, two_live)
unfolding run serve alloc alloc_excess check_alignment get_excess Chunks.get Chunks.chunks_of_size
    split Chunks.take_space Chunks.keep_unused Chunks.insert_chunk_and_merge SortedVec.push
    SortedVec.pop
two_taken = refl

live_disjoint_example : (4112 + 5 ≤ 4096) ⊎ (4096 + 12 ≤ 4112)
live_disjoint_example =
    live_disjoint X S 4 4096 region (fresh, []) (allocates 0 twelve ∷ allocates 0 five ∷ [])
      one_free two_live 0 1 4112 4096 five twelve
      ((refl, twelve-Supported), ((refl, five-Supported), tt)) fresh-Owned two_taken refl refl
      (λ e. omega arith)

all_given_back : run X S (one_free, two_live) (frees 0 0 ∷ frees 0 0 ∷ []) ≡ done (fresh, [])
unfolding run serve dealloc check_alignment Chunks.return_back Chunks.chunks_of_size
    Chunks.insert_chunk_and_merge Chunks.merge_loop Chunks.find_and_merge Chunks.find_and_merge_from
    merge are_contiguous SortedVec.push SortedVec.pop
all_given_back = refl

run-whole_example : X.items fresh.free_chunks.contents ≡ whole 4
run-whole_example =
    run-whole X S 4 4096 region (one_free, two_live) (frees 0 0 ∷ frees 0 0 ∷ []) fresh
      (omega arith) (refl, (refl, tt)) two_live-Owned all_given_back

alloc_excess-Excessive_example :
    Ends (alloc_excess X S fresh 0 twelve) (Excessive X S 4 4096 region fresh [] twelve)
alloc_excess-Excessive_example =
    alloc_excess-Excessive X S 4 4096 region fresh [] twelve twelve-Supported fresh-Owned

abbrev answers : NewAnswers X S (Unit {0})
answers = record {
  pid = 7;
  errno = record { attr_init = 0; setpshared = 0; mutex_init = 0 };
  boxed = ok tt;
  mapped = ok 4096;
}

made : SortedVec.new X S 4 ≡ ok (record { items = []; capacity = 4 })
unfolding SortedVec.new
made = refl

new-Started_example : Ends (new X S 32 answers) (
    Started X S 4
      (ok (record { items = []; capacity = 4 }))
      (ok tt)
      (Memmap.alloc (ok 4096) (layout X S 4)))
new-Started_example =
    new-Started X S 4 (omega arith) (omega arith) (omega arith) answers
      (ok (record { items = []; capacity = 4 })) (refl, refl, refl) made

-- the state after twelve bytes have been taken from the new allocator
abbrev half_free : ShmemAlloc X S
half_free = with_free (record { relative_beginning = 2; count = 2 } ∷ [])

taken : alloc X S fresh 0 twelve ≡ done (ok 4096, half_free)
unfolding alloc alloc_excess check_alignment get_excess Chunks.get Chunks.chunks_of_size split
    Chunks.take_space Chunks.keep_unused Chunks.insert_chunk_and_merge SortedVec.push SortedVec.pop
taken = refl

freed : dealloc X S half_free 0 4096 twelve ≡ done fresh
unfolding dealloc check_alignment Chunks.return_back Chunks.chunks_of_size
    Chunks.insert_chunk_and_merge Chunks.merge_loop Chunks.find_and_merge Chunks.find_and_merge_from
    merge are_contiguous SortedVec.push SortedVec.pop
freed = refl

alloc_zeroed_reuses_example : Ends (alloc_zeroed X S fresh 0 twelve) (λ r. r.0 ≡ ok 4096)
alloc_zeroed_reuses_example =
    alloc_zeroed_reuses X S 4 4096 region fresh half_free fresh [] twelve 4096 twelve-Supported
      fresh-Owned taken freed

new-Cleans_example :
    Ends (Autoclean.new (shmem X S) one_free five) (Cleans X S 4 4096 region one_free two_live five)
new-Cleans_example =
    new-Cleans X S 4 4096 region one_free two_live five five-Supported two_live-Owned
