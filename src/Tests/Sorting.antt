-- ===== src/Tests/Sorting.antt =====
-- The test of the sorted vector, with an insertion sort.
use shmem_util.Prelude.{
  ℕ, ◌+◌, ◌≡◌, ◌≢◌, refl, List, [], ◌∷◌, done, true, inl, inr, Bool-cases, if◌then◌else◌, ◌==◌, leb,
  All, All-mono, compare, Ordering, arith,
}
use shmem_util.External.{IsSorted}
use shmem_util.External.Instances.{list_vec, scan_slices}
use shmem_util.Allocator.Chunks.SortedVec.Sorting.{number_order, occurrences, check, check-passes}

-- an insertion sort
abbrev put_in : ℕ → List ℕ → List ℕ
put_in x [] = x ∷ []
put_in x (y ∷ ys) = let rest = put_in x ys in if leb x y then x ∷ y ∷ ys else y ∷ rest

abbrev insertion_sort : List ℕ → List ℕ
insertion_sort [] = []
insertion_sort (x ∷ xs) = put_in x (insertion_sort xs)

put_in-All : (P : ℕ → Type 0) (x : ℕ) (ys : List ℕ) → P x → All P ys → All P (put_in x ys)
put_in-All P x [] p h = (p, tt)
put_in-All P x (y ∷ ys) p (q, h) = elim (Bool-cases (leb x y)) [
  | inl le ↦ rw le (p, (q, h))
  | inr gt ↦ rw gt (q, put_in-All P x ys p h)
]

not_above : (x y z : ℕ) → leb x y ≡ true → compare y z ≢ Ordering.gt → compare x z ≢ Ordering.gt
not_above x y z le h e = ground arith

put_in-IsSorted :
    (x : ℕ) (ys : List ℕ) → IsSorted number_order ys → IsSorted number_order (put_in x ys)
put_in-IsSorted x [] h = (tt, tt)
put_in-IsSorted x (y ∷ ys) (first, h) = elim (Bool-cases (leb x y)) [
  | inl le ↦
      rw le (((λ e. ground arith), All-mono _ _ ys (λ z. not_above x y z le) first), (first, h))
  | inr gt ↦ rw gt (put_in-All _ x ys (λ e. ground arith) first, put_in-IsSorted x ys h)
]

occurrences-put_in :
    (a x : ℕ) (ys : List ℕ)
    → occurrences a (put_in x ys) ≡ (if a == x then 1 else 0) + occurrences a ys
occurrences-put_in a x [] = refl
occurrences-put_in a x (y ∷ ys) = elim (Bool-cases (leb x y)) [
  | inl le ↦ rw le refl
  | inr gt ↦ rw gt (omega (arith, occurrences-put_in a x ys))
]

insertion_sort-IsSorted : (xs : List ℕ) → IsSorted number_order (insertion_sort xs)
insertion_sort-IsSorted [] = tt
insertion_sort-IsSorted (x ∷ xs) =
    put_in-IsSorted x (insertion_sort xs) (insertion_sort-IsSorted xs)

insertion_sort-kept : (xs : List ℕ) (a : ℕ) → occurrences a (insertion_sort xs) ≡ occurrences a xs
insertion_sort-kept [] a = refl
insertion_sort-kept (x ∷ xs) a =
    omega (arith, occurrences-put_in a x (insertion_sort xs), insertion_sort-kept xs a)

-- the test `check` on four numbers
checks_four :
    check (list_vec ℕ) (scan_slices number_order) insertion_sort (3 ∷ 1 ∷ 2 ∷ 1 ∷ []) ≡ done tt
checks_four =
    check-passes (list_vec ℕ) (scan_slices number_order) insertion_sort (3 ∷ 1 ∷ 2 ∷ 1 ∷ [])
      (record { items = []; capacity = 4 })
      (record { sorted = insertion_sort-IsSorted; kept = insertion_sort-kept }) refl
