-- ===== src/Tests/Usable.antt =====
-- Two blocks in a buffer of sixteen chunks at the address 4096, of which the first has ten chunks for its
-- 73 bytes.
use shmem_util.Prelude.{ℕ, true, false, ◌≡◌, refl, [], ◌∷◌, Ends, arith}
use shmem_util.External.{VecOps, Slices}
use shmem_util.External.Instances.{list_vec, scan_slices}
use shmem_util.Memmap.{Layout}
use shmem_util.Allocator.FreeChunk.{FreeSpace}
use shmem_util.Allocator.FreeChunk.Cover.{cover, covers}
use shmem_util.Allocator.FreeChunk.Laws.{free_order}
use shmem_util.Allocator.Ops.{ShmemAlloc, dealloc, usable_size, check_alignment}
use shmem_util.Allocator.Ownership.{Supported, Buffer, block, Owned}
use shmem_util.Allocator.Usable.{usable, usable_size_steals}

abbrev X : VecOps FreeSpace
X = list_vec FreeSpace

abbrev S : Slices FreeSpace free_order
S = scan_slices free_order

abbrev first : Layout
first = record { size = 73; align = 8 }

abbrev second : Layout
second = record { size = 5; align = 8 }

region : Buffer 16 4096
region = record { fits = omega arith; aligned = refl; high = omega arith }

abbrev five_free : ShmemAlloc X S
five_free = record {
  free_chunks = record {
    pshared = true;
    contents = record { items = record { relative_beginning = 11; count = 5 } ∷ []; capacity = 16 };
    creator_pid = 7;
    destroyed = false;
    dropped = false;
  };
  memory_buffer = 4096;
}

first-Supported : Supported first
first-Supported = record {
  aligned = refl;
  align_pos = omega arith;
  size_pos = omega arith;
  size_small = omega arith;
}

second-Supported : Supported second
second-Supported = record {
  aligned = refl;
  align_pos = omega arith;
  size_pos = omega arith;
  size_small = omega arith;
}

five_free-Owned : Owned X S 16 4096 five_free ((4096, first) ∷ (4176, second) ∷ [])
five_free-Owned = record {
  good = record {
    inv = record {
      sorted = (tt, tt);
      fits = ((omega arith, omega arith), tt);
      disjoint = λ u. ground arith;
      apart = (tt, tt);
    };
    room = omega arith;
  };
  buffer = refl;
  each = (
    record {
      supported = first-Supported;
      inside = omega arith;
      on_chunk = refl;
      fits = (omega arith, omega arith);
    },
    (
      record {
        supported = second-Supported;
        inside = omega arith;
        on_chunk = refl;
        fits = (omega arith, omega arith);
      },
      tt,
    ),
  );
  total = λ u. ground arith;
}

told : (usable_size first).1 ≡ 81
unfolding usable_size check_alignment
told = refl

usable_size_steals_example : Ends (dealloc X S five_free 0 4096 (usable first)) (λ a'.
    (u : ℕ) × (cover u (X.items a'.free_chunks.contents) ≡ 1)
    × (covers u (block 4096 (4176, second)) ≡ 1))
usable_size_steals_example =
    usable_size_steals X S 16 4096 region five_free 4096 4176 first second [] five_free-Owned
      (omega arith) (record { part = λ e. omega arith; large = omega arith; small = omega arith })
      (rw told (omega arith))
