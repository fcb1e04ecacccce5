-- ===== src/Allocator/Chunks/SortedVec/Laws.antt =====
-- `push` and `pop` keep the order, and the items but one.
use shmem_util.Prelude.{
  ℕ, ◌≤◌, ◌<◌, ◌≡◌, refl, List, [], ok, some, All-mono, AllPairs-insert_at, AllPairs-remove_at,
  Ends, length, get_elem?, insert_at, remove_at, arith,
}
use shmem_util.External.{Ord, IsSorted, VecOps, Slices}
use shmem_util.Allocator.Chunks.SortedVec.{new, push, pop}

module _ {T : Type 0} {o : Ord T} (X : VecOps T) (S : Slices T o) where
  insert_at-IsSorted :
      (xs : List T) (x : T) → IsSorted o xs → IsSorted o (insert_at xs (S.upper_bound xs x) x)
  insert_at-IsSorted xs x sorted =
      let (_, before, after) = S.upper_bound_splits xs x sorted in
      AllPairs-insert_at _ xs (S.upper_bound xs x) x before
        (All-mono _ _ _ (λ z e. o.cmp_swap z x e) after) sorted

  -- `push` on a vector in order with room ends without a panic: the vector is in order, its
  -- capacity is unchanged, and the item has been put in at some position among the others.
  pub push_lem :
      (v : X.Vec) (x : T)
      → IsSorted o (X.items v)
      → length (X.items v) < X.capacity v
      → Ends (push X S v x) (λ w.
        IsSorted o (X.items w)
        × (X.capacity w ≡ X.capacity v)
        × ((i : ℕ) × (i ≤ length (X.items v)) × (X.items w ≡ insert_at (X.items v) i x)))
  unfolding push
  push_lem v x sorted room =
      let i = S.upper_bound (X.items v) x in
      let (bound, _, _) = S.upper_bound_splits (X.items v) x sorted in
      let (w, e, items, cap) = X.insert_ok v i x bound room in
      (
        w,
        ground arith,
        (rw items (insert_at-IsSorted (X.items v) x sorted), cap, (i, bound, items)),
      )

  pub pop_lem :
      (v : X.Vec) (i : ℕ) (x : T)
      → get_elem? (X.items v) i ≡ some x
      → IsSorted o (X.items v)
      → Ends (pop X S v i) (λ r.
        (r.0 ≡ x)
        × (X.items r.1 ≡ remove_at (X.items v) i)
        × (X.capacity r.1 ≡ X.capacity v)
        × IsSorted o (X.items r.1))
  unfolding pop
  pop_lem v i x e sorted =
      let (w, run, items, cap) = X.remove_ok v i x e in
      ((x, w), run, (refl, items, cap, rw items (AllPairs-remove_at _ (X.items v) i sorted)))

  -- A new vector is empty, and has at least the capacity that was asked for.
  pub new_lem :
      (capacity : ℕ) (v : X.Vec)
      → new X S capacity ≡ ok v
      → (X.items v ≡ []) × (capacity ≤ X.capacity v)
  unfolding new
  new_lem capacity v e = X.with_capacity_in_ok capacity v e
