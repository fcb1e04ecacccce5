-- ===== src/Allocator/Chunks/Canonical.antt =====
-- The invariant leaves one list for each set of free elementary chunks: equal covers, equal lists.
use shmem_util.Prelude.{
  ℕ, zero, suc, ◌+◌, ◌-◌, ◌≤◌, ◌<◌, ◌≡◌, ◌≢◌, refl, sym, ap, ◌∙◌, List, [], ◌∷◌, none, some,
  AllPairs, All-get_elem?, get_elem?, usize_mod, Ordering, arith,
}
use mathlib.Core.Path.{ap₂}
use native.Mathlib.Decide.{ℕ_discrete}
use shmem_util.External.{IsSorted}
use shmem_util.Allocator.FreeChunk.{FreeSpace, merge, cmp}
use shmem_util.Allocator.FreeChunk.Cover.{cover, covers, Fits}
use shmem_util.Allocator.FreeChunk.Laws.{free_order, merge-none_swap, merge_adjacent, cmp_antisym}
use shmem_util.Allocator.Chunks.Inv.{Inv, Inv-remove_at}

cover_pos :
    (u : ℕ) (xs : List FreeSpace)
    → 0 < cover u xs
    → (i : ℕ) × (c : FreeSpace) × (get_elem? xs i ≡ some c) × (covers u c ≡ 1)
cover_pos u [] h = absurd (omega arith)
cover_pos u (x ∷ xs) h = elim (ℕ_discrete (covers u x) 0) [
  | yes out ↦ let (i, c, e, k) = cover_pos u xs (omega arith) in (suc i, c, e, k)
  | no here ↦ (0, x, refl, ground arith)
]

covers-le-cover :
    (u : ℕ) (xs : List FreeSpace) (i : ℕ) {c : FreeSpace}
    → get_elem? xs i ≡ some c
    → covers u c ≤ cover u xs
covers-le-cover u [] i e = absurd (ground arith)
covers-le-cover u (x ∷ xs) zero e = ground arith
covers-le-cover u (x ∷ xs) (suc i) e = omega (arith, covers-le-cover u xs i e)

-- Two positions whose spaces share a chunk are one, where no chunk is held twice.
pub same_place :
    (u : ℕ) (xs : List FreeSpace) (i j : ℕ) (c d : FreeSpace)
    → get_elem? xs i ≡ some c
    → get_elem? xs j ≡ some d
    → cover u xs ≤ 1
    → covers u c ≡ 1
    → covers u d ≡ 1
    → i ≡ j
same_place u [] i j c d e f h p q = absurd (ground arith)
same_place u (x ∷ xs) zero zero c d e f h p q = refl
same_place u (x ∷ xs) zero (suc j) c d e f h p q = absurd (ground (arith, covers-le-cover u xs j f))
same_place u (x ∷ xs) (suc i) zero c d e f h p q = absurd (ground (arith, covers-le-cover u xs i e))
same_place u (x ∷ xs) (suc i) (suc j) c d e f h p q =
    omega (arith, same_place u xs i j c d e f (omega arith) p q)

apart_at :
    (xs : List FreeSpace) (i j : ℕ) (c d : FreeSpace)
    → AllPairs (λ a b. merge a b ≡ none) xs
    → get_elem? xs i ≡ some c
    → get_elem? xs j ≡ some d
    → i ≢ j
    → merge c d ≡ none
apart_at [] i j c d h e f ne = absurd (ground arith)
apart_at (x ∷ xs) zero zero c d h e f ne = absurd (ne refl)
apart_at (x ∷ xs) zero (suc j) c d h e f ne = ground (arith, All-get_elem? _ xs j f h.0)
apart_at (x ∷ xs) (suc i) zero c d h e f ne =
    merge-none_swap d c (ground (arith, All-get_elem? _ xs i e h.0))
apart_at (x ∷ xs) (suc i) (suc j) c d h e f ne = apart_at xs i j c d h.1 e f (λ k. ne (omega arith))

same_item :
    (xs : List FreeSpace) (i j : ℕ) (c d : FreeSpace)
    → i ≡ j
    → get_elem? xs i ≡ some c
    → get_elem? xs j ≡ some d
    → c ≡ d
same_item xs i j c d same e f = ground arith

reach_up :
    (c d : FreeSpace)
    → 0 < c.relative_beginning
    → covers (c.relative_beginning - 1) d ≡ 1
    → d.relative_beginning + d.count ≢ c.relative_beginning
    → covers c.relative_beginning d ≡ 1
reach_up c d h k far = ground arith

reach_down :
    (c d : FreeSpace)
    → 0 < c.count
    → covers (c.relative_beginning + c.count) d ≡ 1
    → c.relative_beginning + c.count ≢ d.relative_beginning
    → covers (c.relative_beginning + c.count - 1) d ≡ 1
reach_down c d h k far = ground arith

head-le :
    (x : FreeSpace) (xs : List FreeSpace) (j : ℕ) (y : FreeSpace)
    → IsSorted free_order (x ∷ xs)
    → get_elem? (x ∷ xs) j ≡ some y
    → cmp x y ≢ Ordering.gt
unfolding cmp
head-le x xs zero y sorted e = ground arith
head-le x xs (suc j) y sorted e = All-get_elem? _ xs j e sorted.0

-- A space that holds the first chunk of another, and has the same chunks outside, is that other.
equal_runs :
    (c d : FreeSpace)
    → covers c.relative_beginning d ≡ 1
    → 0 < c.count
    → (0 < c.relative_beginning → covers (c.relative_beginning - 1) d ≡ 0)
    → covers (c.relative_beginning + c.count) d ≡ 0
    → covers (d.relative_beginning + d.count) c ≡ 0
    → c ≡ d
equal_runs c d k h before after after' = ground arith

module _ (n : ℕ) (small : n < usize_mod) where
  -- Two spaces of one list do not touch.
  not_touching :
      (xs : List FreeSpace) (i j : ℕ) (c d : FreeSpace)
      → Inv n xs
      → get_elem? xs i ≡ some c
      → get_elem? xs j ≡ some d
      → c.relative_beginning + c.count ≢ d.relative_beginning
  not_touching xs i j c d inv e f touch =
      let fc : Fits n c = All-get_elem? _ xs i e inv.fits in
      let fd : Fits n d = All-get_elem? _ xs j f inv.fits in
      merge_adjacent n c d small fc fd touch
        (apart_at xs i j c d inv.apart e f λ same. ground (arith, same))

  -- The chunk before a free space is not free, unless the space begins at 0.
  gap_before :
      (xs : List FreeSpace) (i : ℕ) (c : FreeSpace)
      → Inv n xs
      → get_elem? xs i ≡ some c
      → 0 < c.relative_beginning
      → cover (c.relative_beginning - 1) xs ≡ 0
  gap_before xs i c inv e h = elim (ℕ_discrete (cover (c.relative_beginning - 1) xs) 0) [
    | yes free ↦ free
    | no held ↦
        let (j, d, f, k) = cover_pos (c.relative_beginning - 1) xs (omega arith) in
        let reaches = reach_up c d h k (not_touching xs j i d c inv f e) in
        let fc : Fits n c = All-get_elem? _ xs i e inv.fits in
        let here : covers c.relative_beginning c ≡ 1 = ground arith in
        let same = same_place c.relative_beginning xs i j c d e f (inv.disjoint _) here reaches in
        let same' = same_item xs i j c d same e f in absurd (ground arith)
  ]

  -- Nor is the chunk after it.
  gap_after :
      (xs : List FreeSpace) (i : ℕ) (c : FreeSpace)
      → Inv n xs
      → get_elem? xs i ≡ some c
      → cover (c.relative_beginning + c.count) xs ≡ 0
  gap_after xs i c inv e = elim (ℕ_discrete (cover (c.relative_beginning + c.count) xs) 0) [
    | yes free ↦ free
    | no held ↦
        let (j, d, f, k) = cover_pos (c.relative_beginning + c.count) xs (omega arith) in
        let fc : Fits n c = All-get_elem? _ xs i e inv.fits in
        let last = c.relative_beginning + c.count - 1 in
        let reaches = reach_down c d fc.0 k (not_touching xs i j c d inv e f) in
        let here : covers last c ≡ 1 = ground arith in
        let same = same_place last xs i j c d e f (inv.disjoint _) here reaches in
        let same' = same_item xs i j c d same e f in absurd (ground arith)
  ]

  -- With equal covers every space of one list is one of the other.
  shared :
      (xs ys : List FreeSpace) (i : ℕ) (c : FreeSpace)
      → Inv n xs
      → Inv n ys
      → ((u : ℕ) → cover u xs ≡ cover u ys)
      → get_elem? xs i ≡ some c
      → (j : ℕ) × (get_elem? ys j ≡ some c)
  shared xs ys i c ix iy same e =
      let fc : Fits n c = All-get_elem? _ xs i e ix.fits in
      let b = c.relative_beginning in
      let held : covers b c ≡ 1 = ground arith in
      let (j, d, f, k) = cover_pos b ys (omega (arith, same b, covers-le-cover b xs i e)) in
      let fd : Fits n d = All-get_elem? _ ys j f iy.fits in
      let end = b + c.count in
      let end' = d.relative_beginning + d.count in
      let equal =
        equal_runs c d k fc.0
          (λ h.
            omega (arith, gap_before xs i c ix e h, covers-le-cover (b - 1) ys j f, same (b - 1)))
          (omega (arith, gap_after xs i c ix e, covers-le-cover end ys j f, same end))
          (omega (arith, gap_after ys j d iy f, covers-le-cover end' xs i e, same end')) in
      (j, f ∙ ap some (sym equal))

  -- In a memory of fewer than 2^64 chunks, two lists of free chunks that keep the invariant and
  -- hold the same elementary chunks are equal.
  pub Inv-unique :
      (xs ys : List FreeSpace) → Inv n xs → Inv n ys → ((u : ℕ) → cover u xs ≡ cover u ys) → xs ≡ ys
  Inv-unique [] [] ix iy same = refl
  Inv-unique [] (y ∷ ys) ix iy same = absurd (ground (arith, same y.relative_beginning))
  Inv-unique (x ∷ xs) [] ix iy same = absurd (ground (arith, same x.relative_beginning))
  Inv-unique (x ∷ xs) (y ∷ ys) ix iy same =
      let (j, e) = shared (x ∷ xs) (y ∷ ys) 0 x ix iy same refl in
      let (k, f) = shared (y ∷ ys) (x ∷ xs) 0 y iy ix (λ u. sym (same u)) refl in
      let heads = cmp_antisym x y (head-le x xs k y ix.sorted f) (head-le y ys j x iy.sorted e) in
      let tails =
        Inv-unique xs ys (Inv-remove_at n (x ∷ xs) 0 x ix refl)
          (Inv-remove_at n (y ∷ ys) 0 y iy refl)
          (λ u. omega (arith, same u, ap (covers u) heads)) in
      ap₂ ◌∷◌ heads tails
