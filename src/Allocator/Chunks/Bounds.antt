-- ===== src/Allocator/Chunks/Bounds.antt =====
-- How many free runs there can be in src/allocator/chunks.rs: between two of them lies a chunk that is
-- not free, so that the vector is at most half full.
use shmem_util.Prelude.{
  ℕ, ◌+◌, ◌≤◌, ◌<◌, ◌≡◌, refl, none, List, [], ◌∷◌, All, AllPairs, length, usize_mod, Ends, arith,
}
use shmem_util.External.{VecOps, Slices}
use shmem_util.Allocator.FreeChunk.{FreeSpace, merge, are_contiguous}
use shmem_util.Allocator.FreeChunk.Cover.{cover, covers, Fits, twice-le}
use shmem_util.Allocator.Chunks.Inv.{Good, Addable}
use shmem_util.Allocator.FreeChunk.Laws.{free_order}
use shmem_util.Allocator.Chunks.{insert_chunk_and_merge}
use shmem_util.Allocator.Chunks.Insert.{insert_chunk_and_merge-Pushed}

-- a run with the chunk after it
abbrev wide : FreeSpace → FreeSpace
wide s = record s { count = s.count + 1 }

abbrev wides : List FreeSpace → List FreeSpace
wides [] = []
wides (s ∷ xs) = wide s ∷ wides xs

length-wides : (xs : List FreeSpace) → length (wides xs) ≡ length xs
length-wides [] = refl
length-wides (s ∷ xs) = omega (arith, length-wides xs)

wides-long :
    (n : ℕ) (xs : List FreeSpace)
    → All (Fits n) xs
    → All (λ s. (1 < s.count) × (s.relative_beginning + s.count ≤ n + 1)) (wides xs)
wides-long n [] h = tt
wides-long n (s ∷ xs) ((some_chunk, fits), h) = ((omega arith, omega arith), wides-long n xs h)

-- Two runs that cannot be merged have a chunk between them.
gap :
    (n : ℕ) (s t : FreeSpace)
    → n < usize_mod
    → Fits n s
    → Fits n t
    → ((u : ℕ) → covers u s + covers u t ≤ 1)
    → merge s t ≡ none
    → (u : ℕ) → covers u (wide s) + covers u (wide t) ≤ 1
unfolding merge are_contiguous
gap n s t small fs ft d e u =
    let at_s = d s.relative_beginning in let at_t = d t.relative_beginning in ground arith

first_alone :
    (s : FreeSpace) (xs : List FreeSpace)
    → ((u : ℕ) → cover u (s ∷ xs) ≤ 1)
    → All (λ t. (u : ℕ) → covers u s + covers u t ≤ 1) xs
first_alone s [] d = tt
first_alone s (t ∷ xs) d = ((λ u. omega (arith, d u)), first_alone s xs (λ u. omega (arith, d u)))

-- the gaps between the first run and the others
gaps :
    (n : ℕ) (s : FreeSpace) (xs : List FreeSpace)
    → n < usize_mod
    → Fits n s
    → All (Fits n) xs
    → All (λ t. (u : ℕ) → covers u s + covers u t ≤ 1) xs
    → All (λ t. merge s t ≡ none) xs
    → (u : ℕ) → All (λ t. covers u (wide s) + covers u (wide t) ≤ 1) xs
gaps n s [] small fs fits alone apart u = tt
gaps n s (t ∷ xs) small fs (ft, fits) (d, alone) (e, apart) u =
    (gap n s t small fs ft d e u, gaps n s xs small fs fits alone apart u)

one_of :
    (u : ℕ) (s : FreeSpace) (xs : List FreeSpace)
    → All (λ t. covers u s + covers u (wide t) ≤ 1) xs
    → cover u (wides xs) ≤ 1
    → covers u s + cover u (wides xs) ≤ 1
one_of u s [] h few = ground arith
one_of u s (t ∷ xs) (first, h) few = let rest = one_of u s xs h (omega (arith, few)) in ground arith

wides-disjoint :
    (n : ℕ) (xs : List FreeSpace)
    → n < usize_mod
    → All (Fits n) xs
    → ((u : ℕ) → cover u xs ≤ 1)
    → AllPairs (λ s t. merge s t ≡ none) xs
    → (u : ℕ) → cover u (wides xs) ≤ 1
wides-disjoint n [] small fits d apart u = omega arith
wides-disjoint n (s ∷ xs) small (fs, fits) d (first, apart) u =
    one_of u (wide s) xs (gaps n s xs small fs fits (first_alone s xs d) first u)
      (wides-disjoint n xs small fits (λ u. omega (arith, d u)) apart u)

-- A vector with its invariant is at most half full.
length-half_full :
    (X : VecOps FreeSpace) (n : ℕ) (v : X.Vec)
    → n < usize_mod
    → Good X n v
    → length (X.items v) + length (X.items v) ≤ X.capacity v + 1
length-half_full X n v small g =
    let xs = X.items v in
    omega (
      arith,
      length-wides xs,
      twice-le (n + 1) (wides xs) (wides-long n xs g.inv.fits)
          (wides-disjoint n xs small g.inv.fits g.inv.disjoint g.inv.apart),
      g.room,
    )

-- In a memory of fewer than 2^64 chunks, for a list of free chunks with its invariant and a
-- space in the memory of which no chunk is free, `insert_chunk_and_merge` ends without a panic,
-- and its vector holds at most half as many items as its capacity, rounded up.
pub insert_chunk_and_merge-half_full :
    (X : VecOps FreeSpace) (S : Slices FreeSpace free_order) (n : ℕ) (small : n < usize_mod)
    (v : X.Vec) (chunk : FreeSpace)
    → Good X n v
    → Addable n (X.items v) chunk
    → Ends
        (insert_chunk_and_merge X S v chunk)
        (λ w. length (X.items w) + length (X.items w) ≤ X.capacity w + 1)
insert_chunk_and_merge-half_full X S n small v chunk g ok =
    let (w, run, (good, _)) = insert_chunk_and_merge-Pushed X S n small v chunk g ok in
    (w, run, length-half_full X n w small good)
