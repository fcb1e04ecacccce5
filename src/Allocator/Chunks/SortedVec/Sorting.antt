-- ===== src/Allocator/Chunks/SortedVec/Sorting.antt =====
-- src/allocator/chunks/sorted_vec.rs: the test `check`, by which pushing numbers one by one sorts them.
-- The sort that it compares with is the standard library's: any that sorts.
use shmem_util.Prelude.{
  ℕ, zero, suc, ◌+◌, ◌≤◌, ◌<◌, ◌≡◌, ◌≢◌, refl, ap, Bool, true, false, ◌&&◌, List, [], ◌∷◌, Exec,
  done, ◌>>=◌, assert, expect_ok, ok, compare, Ordering, ◌==◌, if◌then◌else◌, All, Ends, length,
  insert_at, length-insert_at, arith,
}
use native.Mathlib.Decide.{ℕ_discrete, dec_lt}
use shmem_util.External.{Ord, IsSorted, VecOps, Slices}
use shmem_util.Allocator.Chunks.SortedVec.{new, push}
use shmem_util.Allocator.Chunks.SortedVec.Laws.{push_lem, new_lem}

pub gt_swap : (a b : ℕ) → compare a b ≡ Ordering.gt → compare b a ≢ Ordering.gt
gt_swap a b h k = ground arith

pub gt_trans :
    (a b c : ℕ) → compare a b ≢ Ordering.gt → compare b c ≢ Ordering.gt → compare a c ≢ Ordering.gt
gt_trans a b c h k e = ground arith

-- the order of `usize`
abbrev pub number_order : Ord ℕ
number_order = record { cmp = compare; cmp_swap = gt_swap; cmp_trans = gt_trans }

abbrev pub occurrences : ℕ → List ℕ → ℕ
occurrences a [] = 0
occurrences a (x ∷ xs) = (if a == x then 1 else 0) + occurrences a xs

-- the `PartialEq` of slices
abbrev pub same_items : List ℕ → List ℕ → Bool
same_items [] [] = true
same_items [] (y ∷ ys) = false
same_items (x ∷ xs) [] = false
same_items (x ∷ xs) (y ∷ ys) = (x == y) && same_items xs ys

-- What is documented of a sort: the result is in order, and has each number as often.
pub record Sorts (sort : List ℕ → List ℕ) : Type 0 where
  pub sorted : (xs : List ℕ) → IsSorted number_order (sort xs)
  pub kept : (xs : List ℕ) (a : ℕ) → occurrences a (sort xs) ≡ occurrences a xs

module _ (X : VecOps ℕ) (S : Slices ℕ number_order) where
  unfoldable pub push_all : X.Vec → List ℕ → Exec X.Vec
  push_all v [] = done v
  push_all v (item ∷ rest) = do w ← push X S v item; push_all w rest

  unfoldable pub check : (List ℕ → List ℕ) → List ℕ → Exec (Unit {0})
  check sort original = do
    v ← expect_ok (new X S (length original))
    w ← push_all v original
    assert (same_items (X.items w) (sort original))

pub occurrences-insert_at :
    (a : ℕ) (xs : List ℕ) (i x : ℕ)
    → occurrences a (insert_at xs i x) ≡ (if a == x then 1 else 0) + occurrences a xs
occurrences-insert_at a [] i x = refl
occurrences-insert_at a (y ∷ xs) zero x = refl
occurrences-insert_at a (y ∷ xs) (suc i) x = omega (arith, occurrences-insert_at a xs i x)

same_items_refl : (xs : List ℕ) → same_items xs xs ≡ true
same_items_refl [] = refl
same_items_refl (x ∷ xs) = ground (arith, same_items_refl xs)

-- A number below all of a list is not among them.
absent :
    (a y : ℕ) (ys : List ℕ) → a < y → All (λ b. compare y b ≢ Ordering.gt) ys → occurrences a ys ≡ 0
absent a y [] less h = refl
absent a y (z ∷ ys) less (first, h) = ground (arith, absent a y ys less h)

-- In order, the same numbers as often are the same list.
sorted_unique :
    (xs ys : List ℕ)
    → IsSorted number_order xs
    → IsSorted number_order ys
    → ((a : ℕ) → occurrences a xs ≡ occurrences a ys)
    → xs ≡ ys
sorted_unique [] [] h k same = refl
sorted_unique [] (y ∷ ys) h k same = absurd (let e = same y in ground arith)
sorted_unique (x ∷ xs) [] h k same = absurd (let e = same x in ground arith)
sorted_unique (x ∷ xs) (y ∷ ys) (first, h) (first', k) same = elim (ℕ_discrete x y) [
  | yes e ↦ let rest = sorted_unique xs ys h k (λ a. let s = same a in ground arith) in ground arith
  | no ne ↦ elim (dec_lt x y) [
    | yes less ↦
        let none_here = absent x y ys less first' in let s = same x in absurd (ground arith)
    | no more ↦
        let none_here = absent y x xs (omega arith) first in let s = same y in absurd (ground arith)
  ]
]

module _ (X : VecOps ℕ) (S : Slices ℕ number_order) where
  push_all-IsSorted :
      (v : X.Vec) (xs : List ℕ)
      → IsSorted number_order (X.items v)
      → length (X.items v) + length xs ≤ X.capacity v
      → Ends (push_all X S v xs) (λ w.
        IsSorted number_order (X.items w)
        × ((a : ℕ) → occurrences a (X.items w) ≡ occurrences a (X.items v) + occurrences a xs))
  unfolding push_all
  push_all-IsSorted v [] sorted room = (v, refl, (sorted, λ a. omega arith))
  push_all-IsSorted v (x ∷ xs) sorted room =
      let (w, run, (sorted', cap, (i, bound, items))) = push_lem X S v x sorted (omega arith) in
      let longer = length-insert_at (X.items v) i x in
      let (u, run', (sorted'', same)) =
        push_all-IsSorted w xs sorted' (rw (items, cap) (omega (arith, longer))) in
      (
        u,
        rw run run',
        (
          sorted'',
          λ a.
              omega
                (arith, same a, ap (occurrences a) items, occurrences-insert_at a (X.items v) i x),
        ),
      )

  -- For any list of numbers, where the vector with room for them can be made and the sort
  -- leaves them in order and each as often, the test `check` passes: pushing the numbers one by
  -- one gives the list that the sort gives.
  pub check-passes :
      (sort : List ℕ → List ℕ) (original : List ℕ) (v : X.Vec)
      → Sorts sort
      → X.with_capacity_in (length original) ≡ ok v
      → check X S sort original ≡ done tt
  unfolding check new
  check-passes sort original v sorts made =
      let (items, room) = new_lem X S (length original) v made in
      let (w, run, (sorted, same)) =
        push_all-IsSorted v original (rw items tt) (rw items (omega (arith, room))) in
      let equal : X.items w ≡ sort original =
        sorted_unique (X.items w) (sort original) sorted (sorts.sorted original)
          (λ a. omega (arith, same a, sorts.kept original a, ap (occurrences a) items)) in
      simp (made, run, equal, same_items_refl (sort original)) refl
