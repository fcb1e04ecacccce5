-- ===== src/External.antt =====
-- The library code that the allocator calls and this repository does not hold: the vector of
-- `alloc_collections`, whose items are read through its `Deref` to a slice, and the binary
-- searches of `superslice`. Each is a record of operations with their documented behaviour.
pub mod Instances
use shmem_util.Prelude.{
  ℕ, ◌+◌, ◌≤◌, ◌<◌, ◌≡◌, ◌≢◌, Option, none, some, ◌∷◌, ◌++◌, List, [], length, take, drop,
  get_elem?, insert_at, remove_at, All, AllPairs, Ordering, Exec, done, Result, ok,
}

-- The trait `Ord` with its contract: a total preorder.
pub record Ord (T : Type 0) : Type 0 where
  pub cmp : T → T → Ordering
  pub cmp_swap : (a b : T) → cmp a b ≡ Ordering.gt → cmp b a ≢ Ordering.gt
  pub cmp_trans :
      (a b c : T) → cmp a b ≢ Ordering.gt → cmp b c ≢ Ordering.gt → cmp a c ≢ Ordering.gt

-- Ascending, as the binary searches want it.
abbrev pub IsSorted : {T : Type 0} → Ord T → List T → Type 0
IsSorted o xs = AllPairs (λ a b. o.cmp a b ≢ Ordering.gt) xs

abbrev pub rank : Ordering → ℕ
rank Ordering.lt = 0
rank Ordering.eq = 1
rank Ordering.gt = 2

-- `alloc_collections::Vec<T, A>`: no reallocation while the length is below the capacity.
pub record VecOps (T : Type 0) : Type 1 where
  pub Vec : Type 0
  pub Error : Type 0
  pub items : Vec → List T
  pub capacity : Vec → ℕ
  pub with_capacity_in : ℕ → Result Vec Error
  pub insert : Vec → ℕ → T → Result Vec Error
  pub remove : Vec → ℕ → Exec (T × Vec)
  pub with_capacity_in_ok :
      (n : ℕ) (v : Vec) → with_capacity_in n ≡ ok v → (items v ≡ []) × (n ≤ capacity v)
  pub insert_ok :
      (v : Vec) (i : ℕ) (x : T)
      → i ≤ length (items v)
      → length (items v) < capacity v
      → (w : Vec) × (insert v i x ≡ ok w)
        × (items w ≡ insert_at (items v) i x)
        × (capacity w ≡ capacity v)
  pub remove_ok :
      (v : Vec) (i : ℕ) (x : T)
      → get_elem? (items v) i ≡ some x
      → (w : Vec) × (remove v i ≡ done (x, w))
        × (items w ≡ remove_at (items v) i)
        × (capacity w ≡ capacity v)

-- `superslice::Ext`, on slices that are in order.
pub record Slices (T : Type 0) (o : Ord T) : Type 0 where
  pub lower_bound_by : List T → (T → Ordering) → ℕ
  pub upper_bound : List T → T → ℕ
  pub lower_bound_by_splits :
      (xs : List T) (f : T → Ordering)
      → AllPairs (λ a b. rank (f a) ≤ rank (f b)) xs
      → (lower_bound_by xs f ≤ length xs)
        × All (λ x. f x ≡ Ordering.lt) (take (lower_bound_by xs f) xs)
        × All (λ x. f x ≢ Ordering.lt) (drop (lower_bound_by xs f) xs)
  pub upper_bound_splits :
      (xs : List T) (x : T)
      → IsSorted o xs
      → (upper_bound xs x ≤ length xs)
        × All (λ y. o.cmp y x ≢ Ordering.gt) (take (upper_bound xs x) xs)
        × All (λ y. o.cmp y x ≡ Ordering.gt) (drop (upper_bound xs x) xs)

-- `alloc_collections::deque::VecDeque<T, A>`: a queue that does not grow, nor fail, while it has
-- room.
pub record DequeOps (T : Type 0) : Type 1 where
  pub Deque : Type 0
  pub Error : Type 0
  pub items : Deque → List T
  pub capacity : Deque → ℕ
  pub with_capacity_in : ℕ → Result Deque Error
  pub push_back : Deque → T → Result Deque Error
  pub pop_front : Deque → Option (T × Deque)
  pub remaining_capacity : Deque → ℕ
  pub with_capacity_in_ok :
      (n : ℕ) (d : Deque) → with_capacity_in n ≡ ok d → (items d ≡ []) × (n ≤ capacity d)
  pub remaining_capacity_lem : (d : Deque) → remaining_capacity d + length (items d) ≡ capacity d
  pub push_back_ok :
      (d : Deque) (x : T)
      → length (items d) < capacity d
      → (e : Deque) × (push_back d x ≡ ok e)
        × (items e ≡ items d ++ x ∷ [])
        × (capacity e ≡ capacity d)
  pub push_back_appends :
      (d : Deque) (x : T) (e : Deque) → push_back d x ≡ ok e → items e ≡ items d ++ x ∷ []
  pub pop_front_none : (d : Deque) → items d ≡ [] → pop_front d ≡ none
  pub pop_front_some :
      (d : Deque) (x : T) (xs : List T)
      → items d ≡ x ∷ xs
      → (e : Deque) × (pop_front d ≡ some (x, e)) × (items e ≡ xs) × (capacity e ≡ capacity d)
