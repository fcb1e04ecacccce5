-- ===== src/Allocator/Chunks/Check.antt =====
-- src/allocator/chunks.rs: what the tests check of a manager, `free_space` and `self_check`, and that
-- both fit the manager. A loop over indices is a walk along the list here.
use shmem_util.Prelude.{
  ℕ, ◌+◌, ◌≤◌, ◌<◌, ◌≡◌, ◌↔◌, refl, Bool, true, false, not, Option, none, some, List, [], ◌∷◌, Exec,
  done, ◌>>◌, assert, All, AllPairs, All-get_elem?, Ends, usize_mod, mul_usize, ◌==◌, ◌&&◌, leb,
  arith,
}
use shmem_util.External.{VecOps, Slices, IsSorted}
use shmem_util.Allocator.FreeChunk.{FreeSpace, chunk_size, are_contiguous, merge}
use shmem_util.Allocator.FreeChunk.Cover.{Fits, cover, covers}
use shmem_util.Allocator.FreeChunk.Laws.{free_order, cmp-count}
use shmem_util.Allocator.Chunks.{get}
use shmem_util.Allocator.Chunks.Inv.{Inv, Good}
use shmem_util.Allocator.Chunks.Get.{need, chunks_of_size-need, GotSpace, Got, get-Got}

-- the count of the last space, or 0
abbrev pub last_count : List FreeSpace → ℕ
last_count [] = 0
last_count (s ∷ []) = s.count
last_count (s ∷ t ∷ rest) = last_count (t ∷ rest)

unfoldable pub free_space : List FreeSpace → ℕ
free_space xs = mul_usize (last_count xs) chunk_size

-- the first loop
unfoldable pub counts_ascend : List FreeSpace → Exec (Unit {0})
counts_ascend [] = done tt
counts_ascend (s ∷ []) = done tt
counts_ascend (s ∷ t ∷ rest) = do assert (leb s.count t.count); counts_ascend (t ∷ rest)

-- the derived `PartialEq`
abbrev pub eq : FreeSpace → FreeSpace → Bool
eq s t = (s.relative_beginning == t.relative_beginning) && (s.count == t.count)

-- the inner loop over `j`, for one `i`
unfoldable pub check_against : FreeSpace → List FreeSpace → Exec (Unit {0})
check_against left [] = done tt
check_against left (right ∷ rest) = do
  assert (not (eq left right))
  assert (not (are_contiguous left right))
  check_against left rest

unfoldable pub check_pairs : List FreeSpace → Exec (Unit {0})
check_pairs [] = done tt
check_pairs (left ∷ rest) = do check_against left rest; check_pairs rest

unfoldable pub self_check : List FreeSpace → Exec (Unit {0})
self_check xs = do counts_ascend xs; check_pairs xs

counts_ascend-sorted : (xs : List FreeSpace) → IsSorted free_order xs → counts_ascend xs ≡ done tt
unfolding counts_ascend
counts_ascend-sorted [] h = refl
counts_ascend-sorted (s ∷ []) h = refl
counts_ascend-sorted (s ∷ t ∷ rest) ((first, _), h) =
    let le : leb s.count t.count ≡ true = ground (arith, cmp-count s t first) in
    rw le (counts_ascend-sorted (t ∷ rest) h)

-- Two spaces that share no chunk are different.
eq-apart :
    (n : ℕ) (s t : FreeSpace)
    → Fits n s
    → covers s.relative_beginning s + covers s.relative_beginning t ≤ 1
    → eq s t ≡ false
eq-apart n s t fits h = ground arith

not_contiguous : (s t : FreeSpace) → merge s t ≡ none → are_contiguous s t ≡ false
unfolding merge
not_contiguous s t h = ground arith

check_against-apart :
    (n : ℕ) (s : FreeSpace) (xs : List FreeSpace)
    → Fits n s
    → covers s.relative_beginning s + cover s.relative_beginning xs ≤ 1
    → All (λ t. merge s t ≡ none) xs
    → check_against s xs ≡ done tt
unfolding check_against
check_against-apart n s [] fits alone apart = refl
check_against-apart n s (t ∷ xs) fits alone (first, apart) =
    rw (eq-apart n s t fits (omega (arith, alone)), not_contiguous s t first)
      (check_against-apart n s xs fits (omega (arith, alone)) apart)

check_pairs-apart :
    (n : ℕ) (xs : List FreeSpace)
    → All (Fits n) xs
    → ((u : ℕ) → cover u xs ≤ 1)
    → AllPairs (λ s t. merge s t ≡ none) xs
    → check_pairs xs ≡ done tt
unfolding check_pairs
check_pairs-apart n [] fits disjoint apart = refl
check_pairs-apart n (s ∷ xs) (first, fits) disjoint (alone, apart) =
    rw (check_against-apart n s xs first (disjoint s.relative_beginning) alone)
      (check_pairs-apart n xs fits (λ u. omega (arith, disjoint u)) apart)

-- A list of free chunks with its invariant passes the check of the tests.
pub self_check-passes : (n : ℕ) (xs : List FreeSpace) → Inv n xs → self_check xs ≡ done tt
unfolding self_check
self_check-passes n xs inv =
    rw (counts_ascend-sorted xs inv.sorted, check_pairs-apart n xs inv.fits inv.disjoint inv.apart)
      refl

-- The last space is a longest one.
counts_below :
    (k : ℕ) (xs : List FreeSpace)
    → IsSorted free_order xs
    → last_count xs < k
    → All (λ d. d.count < k) xs
counts_below k [] h small = tt
counts_below k (s ∷ []) h small = (small, tt)
counts_below k (s ∷ t ∷ rest) ((first, _), h) small =
    let rest' = counts_below k (t ∷ rest) h small in
    (omega (arith, cmp-count s t first, rest'.0), rest')

last_below : (k : ℕ) (xs : List FreeSpace) → 0 < k → All (λ d. d.count < k) xs → last_count xs < k
last_below k [] pos h = pos
last_below k (s ∷ []) pos h = h.0
last_below k (s ∷ t ∷ rest) pos h = last_below k (t ∷ rest) pos h.1

last_count-le : (n : ℕ) (xs : List FreeSpace) → All (Fits n) xs → last_count xs ≤ n
last_count-le n [] h = omega arith
last_count-le n (s ∷ []) h = omega (arith, h.0.1)
last_count-le n (s ∷ t ∷ rest) h = last_count-le n (t ∷ rest) h.1

answered :
    (k : ℕ) (xs : List FreeSpace) (o : Option FreeSpace)
    → 0 < k
    → IsSorted free_order xs
    → GotSpace xs k o
    → (o ≡ none) ↔ (last_count xs < k)
answered k xs none pos sorted g = (λ e. last_below k xs pos g, λ h. refl)
answered k xs (some s) pos sorted (_, (i, d, item, _, enough, _)) = (
  λ e. absurd (ground arith),
  λ h.
      absurd
        (omega (arith, All-get_elem? (λ d. d.count < k) xs i item (counts_below k xs sorted h))),
)

module _ (X : VecOps FreeSpace) (S : Slices FreeSpace free_order) (n : ℕ)
    (small : n < usize_mod) where
  -- What `get` does, and when it answers with nothing.
  pub get-Told :
      (v : X.Vec) (size : ℕ)
      → Good X n v
      → n + n + n + n + n + n + n + n < usize_mod
      → 0 < size
      → size < usize_mod
      → Ends
          (get X S v size)
          (λ r. Got X S n small v (need size) r × ((r.0 ≡ none) ↔ (free_space (X.items v) < size)))
  unfolding free_space
  get-Told v size g fits pos word =
      let (r, run, got) =
        get-Got X S n small v size (need size) g (chunks_of_size-need size word) in
      let (there, back) =
        answered (need size) (X.items v) r.0 (ground arith) g.inv.sorted got.answer in
      let few = last_count-le n (X.items v) g.inv.fits in
      (r, run, (got, (λ e. let h = there e in ground arith, λ h. back (ground arith))))

  -- In a memory of `n` chunks, with 8 * n below 2^64, on a list of free chunks with its
  -- invariant and for a positive size below 2^64, `get` ends without a panic, and answers with
  -- nothing exactly if the size is larger than `free_space`.
  pub get-free_space :
      (v : X.Vec) (size : ℕ)
      → Good X n v
      → n + n + n + n + n + n + n + n < usize_mod
      → 0 < size
      → size < usize_mod
      → Ends (get X S v size) (λ r. (r.0 ≡ none) ↔ (free_space (X.items v) < size))
  get-free_space v size g fits pos word =
      let (r, run, (_, told)) = get-Told v size g fits pos word in (r, run, told)
