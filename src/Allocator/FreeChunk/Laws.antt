-- ===== src/Allocator/FreeChunk/Laws.antt =====
-- What splitting, merging and comparing free spaces promise.
use shmem_util.Prelude.{
  ℕ, ◌+◌, ◌-◌, ◌≤◌, ◌<◌, ◌≡◌, ◌≢◌, ◌↔◌, refl, Bool, true, false, Option, none, some, Ordering, Ends,
  usize_mod, Bool-cases, inl, inr, ◌==◌, arith,
}
use shmem_util.Allocator.FreeChunk.{FreeSpace, new, split, merge, cmp}
use shmem_util.External.{Ord}
use shmem_util.Allocator.FreeChunk.Cover.{covers, covers_opt, Fits}

abbrev pub is_some? : Option FreeSpace → Bool
is_some? none = false
is_some? (some _) = true

-- Splitting a space in a memory of `n` chunks, `n` below 2^64, for no more chunks than it has
-- ends without a panic: the first part starts where the space does and has the chunks asked
-- for, there is no second part exactly if nothing is left over, a second part is not empty and
-- lies in the memory, and each chunk of the space is in exactly one part.
pub split_lem :
    (n : ℕ) (s : FreeSpace) (required : ℕ)
    → n < usize_mod
    → s.relative_beginning + s.count ≤ n
    → required ≤ s.count
    → Ends (split s required) (λ r.
      (r.0.relative_beginning ≡ s.relative_beginning)
      × (r.0.count ≡ required)
      × ((r.1 ≡ none) ↔ (required ≡ s.count))
      × ((rest : FreeSpace) → r.1 ≡ some rest → Fits n rest)
      × ((u : ℕ) → covers u r.0 + covers_opt u r.1 ≡ covers u s))
unfolding split
split_lem n s required small fits le = elim (Bool-cases (s.count - required == 0)) [
  | inl whole ↦ (
    (s, none),
    ground arith,
    (refl, ground arith, (ground arith, λ _. refl), λ t e. absurd (ground arith), λ u. omega arith),
  )
  | inr rest ↦ (
    (
      record s { count = required },
      some (new (s.relative_beginning + required) (s.count - required)),
    ),
    ground arith,
    (refl, refl, (ground arith, ground arith), λ t e. ground arith, λ u. ground arith),
  )
]

-- Two spaces of a memory of `n` chunks, `n` below 2^64 and neither empty, that merge give a
-- space of the memory that is not empty, and holds each chunk as often as the two do.
pub merge-covers :
    (n : ℕ) (a b m : FreeSpace)
    → n < usize_mod
    → Fits n a
    → Fits n b
    → merge a b ≡ some m
    → Fits n m × ((u : ℕ) → covers u m ≡ covers u a + covers u b)
unfolding merge
merge-covers n a b m small fa fb e = (ground arith, λ u. ground arith)

pub cmp-swap-le : (a b : FreeSpace) → cmp a b ≡ Ordering.gt → cmp b a ≢ Ordering.gt
unfolding cmp
cmp-swap-le a b h = ground arith

pub cmp_trans :
    (a b c : FreeSpace) → cmp a b ≢ Ordering.gt → cmp b c ≢ Ordering.gt → cmp a c ≢ Ordering.gt
unfolding cmp
cmp_trans a b c h k = ground arith

-- `impl Ord for FreeSpace`
abbrev pub free_order : Ord FreeSpace
free_order = record { cmp = cmp; cmp_swap = cmp-swap-le; cmp_trans = cmp_trans }

-- In ascending order the counts ascend.
pub cmp-count : (a b : FreeSpace) → cmp a b ≢ Ordering.gt → a.count ≤ b.count
unfolding cmp
cmp-count a b h = ground arith

pub merge-none_swap : (a b : FreeSpace) → merge a b ≡ none → merge b a ≡ none
unfolding merge
merge-none_swap a b h = ground arith

pub merge_adjacent :
    (n : ℕ) (a b : FreeSpace)
    → n < usize_mod
    → Fits n a
    → Fits n b
    → a.relative_beginning + a.count ≡ b.relative_beginning
    → merge a b ≢ none
unfolding merge
merge_adjacent n a b small fa fb e h = ground arith

pub cmp_antisym : (a b : FreeSpace) → cmp a b ≢ Ordering.gt → cmp b a ≢ Ordering.gt → a ≡ b
unfolding cmp
cmp_antisym a b h k = ground arith

pub cmp_refl : (a : FreeSpace) → cmp a a ≢ Ordering.gt
unfolding cmp
cmp_refl a = ground arith
