-- ===== src/Allocator/Chunks/Inv.antt =====
-- The invariant of the list of free chunks, and how taking out and putting in items keeps it.
use shmem_util.Prelude.{
  ℕ, suc, ◌+◌, ◌≤◌, ◌≡◌, refl, List, [], ◌∷◌, none, some, All, AllPairs, All-mono, All-take,
  All-drop, All-insert_at, All-remove_at, AllPairs-insert_at, AllPairs-remove_at, get_elem?,
  insert_at, remove_at, Option-cases, inl, inr, arith,
}
use shmem_util.External.{IsSorted, VecOps}
use shmem_util.Allocator.FreeChunk.{FreeSpace, merge}
use shmem_util.Allocator.FreeChunk.Cover.{cover, covers, Fits, cover-insert_at, cover-remove_at}
use shmem_util.Allocator.FreeChunk.Laws.{free_order, merge-none_swap}
use shmem_util.Allocator.Chunks.{find_and_merge_from}

-- The free chunks of a memory of `n` elementary chunks: ascending, none empty, none past the end,
-- no elementary chunk in two of them, and no two that could be merged.
pub record Inv (n : ℕ) (xs : List FreeSpace) : Type 0 where
  pub sorted : IsSorted free_order xs
  pub fits : All (Fits n) xs
  pub disjoint : (u : ℕ) → cover u xs ≤ 1
  pub apart : AllPairs (λ a b. merge a b ≡ none) xs

-- The vector of a manager: the invariant, and room for as many items as there can be.
pub record Good (X : VecOps FreeSpace) (n : ℕ) (v : X.Vec) : Type 0 where
  pub inv : Inv n (X.items v)
  pub room : n ≤ X.capacity v

-- A space that may be put among the free ones.
pub record Addable (n : ℕ) (xs : List FreeSpace) (chunk : FreeSpace) : Type 0 where
  pub fits : Fits n chunk
  pub outside : (u : ℕ) → cover u xs + covers u chunk ≤ 1

module _ (n : ℕ) (xs : List FreeSpace) (i : ℕ) (c : FreeSpace) (inv : Inv n xs) where
  pub Inv-remove_at : get_elem? xs i ≡ some c → Inv n (remove_at xs i)
  Inv-remove_at e = record {
    sorted = AllPairs-remove_at _ xs i inv.sorted;
    fits = All-remove_at _ xs i inv.fits;
    disjoint = λ u. omega (arith, cover-remove_at u xs i c e, inv.disjoint u);
    apart = AllPairs-remove_at _ xs i inv.apart;
  }

  pub Inv-insert_at :
      Addable n xs c
      → All (λ d. merge d c ≡ none) xs
      → IsSorted free_order (insert_at xs i c)
      → Inv n (insert_at xs i c)
  Inv-insert_at ok alone sorted = record {
    sorted = sorted;
    fits = All-insert_at _ xs i c ok.fits inv.fits;
    disjoint = λ u. omega (arith, cover-insert_at u xs i c, ok.outside u);
    apart =
        AllPairs-insert_at _ xs i c (All-take _ i xs alone)
          (All-mono _ _ _ (λ d. merge-none_swap d c) (All-drop _ i xs alone)) inv.apart;
  }

-- The search for a neighbour finds nothing only if there is none,
pub find_and_merge_from-none :
    (id : ℕ) (xs : List FreeSpace) (c : FreeSpace)
    → find_and_merge_from id xs c ≡ none
    → All (λ d. merge d c ≡ none) xs
unfolding find_and_merge_from
find_and_merge_from-none id [] c e = tt
find_and_merge_from-none id (x ∷ xs) c e =
    (ground arith, find_and_merge_from-none (suc id) xs c (ground arith))

-- and otherwise gives the position of an item that merges.
pub find_and_merge_from-some :
    (id : ℕ) (xs : List FreeSpace) (c : FreeSpace) (j : ℕ) (m : FreeSpace)
    → find_and_merge_from id xs c ≡ some (j, m)
    → (k : ℕ) × (d : FreeSpace) × (j ≡ id + k) × (get_elem? xs k ≡ some d) × (merge d c ≡ some m)
unfolding find_and_merge_from
find_and_merge_from-some id [] c j m e = absurd (ground arith)
find_and_merge_from-some id (x ∷ xs) c j m e = elim (Option-cases (merge x c)) [
  | inl miss ↦
      let (k, d, at, item, fit) = find_and_merge_from-some (suc id) xs c j m (ground arith) in
      (suc k, d, omega arith, item, fit)
  | inr (m', hit) ↦ (0, x, ground arith, refl, ground arith)
]
