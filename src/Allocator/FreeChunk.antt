-- ===== src/Allocator/FreeChunk.antt =====
-- src/allocator/free_chunk.rs: a run of free chunks, split, merged and ordered. A
-- `RelativeBeginning` is a newtype over `usize`, here the number itself.
pub mod Cover
pub mod Laws
pub mod Quick
use shmem_util.Prelude.{
  ℕ, ◌/◌, compare, Ordering, Bool, Option, none, some, Exec, done, expect, ◌>>=◌, ◌==◌,
  if◌then◌else◌, add_usize, mul_usize, checked_sub,
}

-- `ShmemAlloc::ALIGNMENT`, which is `Chunks::CHUNK_SIZE` too
abbrev pub chunk_size : ℕ
chunk_size = 8

abbrev pub RelativeBeginning : Type 0
RelativeBeginning = ℕ

abbrev pub from_bytes : ℕ → RelativeBeginning
from_bytes bytes = bytes / chunk_size

abbrev pub into_absolute : RelativeBeginning → ℕ → ℕ
into_absolute shift base = add_usize base (mul_usize shift chunk_size)

pub record FreeSpace : Type 0 where
  pub relative_beginning : RelativeBeginning
  pub count : ℕ

-- `FreeSpace::new`; its `debug_assert_ne!` is not part of the release build.
abbrev pub new : RelativeBeginning → ℕ → FreeSpace
new shift count = record { relative_beginning = shift; count = count }

unfoldable pub are_contiguous : FreeSpace → FreeSpace → Bool
are_contiguous left right = add_usize left.relative_beginning left.count == right.relative_beginning

unfoldable pub split : FreeSpace → ℕ → Exec (FreeSpace × Option FreeSpace)
split s required_chunks = do
  unused_chunks ← expect (checked_sub s.count required_chunks)
  done (
      if unused_chunks == 0 then (s, none) else (
        record s { count = required_chunks },
        some (record {
          relative_beginning = add_usize s.relative_beginning required_chunks;
          count = unused_chunks;
        }),
      ))

unfoldable pub merge : FreeSpace → FreeSpace → Option FreeSpace
unfolding are_contiguous
merge s other =
    if are_contiguous s other
    then some (record {
      relative_beginning = s.relative_beginning;
      count = add_usize s.count other.count;
    })
    else if are_contiguous other s
    then some (record {
      relative_beginning = other.relative_beginning;
      count = add_usize s.count other.count;
    })
    else none

-- `Ord::cmp`: by count, then by beginning.
unfoldable pub cmp : FreeSpace → FreeSpace → Ordering
cmp s other = elim (compare s.count other.count) [
  | Ordering.eq ↦ compare s.relative_beginning other.relative_beginning
  | Ordering.lt ↦ Ordering.lt
  | Ordering.gt ↦ Ordering.gt
]
