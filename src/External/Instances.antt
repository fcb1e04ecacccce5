-- ===== src/External/Instances.antt =====
-- Values of the records of `External`: a vector as a list with a capacity, searches that scan from
-- the front, and a queue as a list with the room that is left. They show that what is asked of the libraries can be met.
use shmem_util.Prelude.{
  ℕ, suc, ◌+◌, ◌-◌, ◌==◌, ◌≤◌, ◌<◌, ◌≡◌, ◌≢◌, refl, Option, none, some, List, [], ◌∷◌, ◌++◌, length,
  take, drop, get_elem?, insert_at, remove_at, All, All-mono, AllPairs, AllPairs-mono, Ordering,
  Exec, done, panic, Result, ok, err, ltb, leb, if◌then◌else◌, ◌&&◌, Bool, true, false, inl, inr,
  Bool-cases, arith,
}
use shmem_util.External.{Ord, IsSorted, rank, VecOps, Slices, DequeOps}

pub record ListVec (T : Type 0) : Type 0 where
  pub items : List T
  pub capacity : ℕ

module _ {T : Type 0} where
  abbrev pub list_insert : ListVec T → ℕ → T → Result (ListVec T) (Unit {0})
  list_insert v i x =
      if leb i (length v.items) && ltb (length v.items) v.capacity
      then ok (record v { items = insert_at v.items i x })
      else err tt

  abbrev pub list_remove : ListVec T → ℕ → Exec (T × ListVec T)
  list_remove v i = elim (get_elem? v.items i) [
    | none ↦ panic
    | some x ↦ done (x, record v { items = remove_at v.items i })
  ]

  abbrev pub list_new : ℕ → Result (ListVec T) (Unit {0})
  list_new n = ok (record { items = []; capacity = n })

  pub list_new_ok : (n : ℕ) (v : ListVec T) → list_new n ≡ ok v → (v.items ≡ []) × (n ≤ v.capacity)
  list_new_ok n v e = ground arith

  pub list_insert_ok :
      (v : ListVec T) (i : ℕ) (x : T)
      → i ≤ length v.items
      → length v.items < v.capacity
      → (w : ListVec T) × (list_insert v i x ≡ ok w)
        × (w.items ≡ insert_at v.items i x)
        × (w.capacity ≡ v.capacity)
  list_insert_ok v i x h k = (record v { items = insert_at v.items i x }, ground arith, refl, refl)

  pub list_remove_ok :
      (v : ListVec T) (i : ℕ) (x : T)
      → get_elem? v.items i ≡ some x
      → (w : ListVec T) × (list_remove v i ≡ done (x, w))
        × (w.items ≡ remove_at v.items i)
        × (w.capacity ≡ v.capacity)
  list_remove_ok v i x e = (record v { items = remove_at v.items i }, ground arith, refl, refl)

  -- how many items at the front satisfy the test
  abbrev pub front : (T → Bool) → List T → ℕ
  front p [] = 0
  front p (x ∷ xs) = if p x then suc (front p xs) else 0

  front-le : (p : T → Bool) (xs : List T) → front p xs ≤ length xs
  front-le p [] = omega arith
  front-le p (x ∷ xs) = ground (arith, front-le p xs)

  front-take : (p : T → Bool) (xs : List T) → All (λ x. p x ≡ true) (take (front p xs) xs)
  front-take p [] = tt
  front-take p (x ∷ xs) = elim (Bool-cases (p x)) [
    | inl e ↦ rw e (e, front-take p xs)
    | inr e ↦ rw e tt
  ]

  -- Where the test never comes back after it has failed, it fails on the whole rest.
  front-drop :
      (p : T → Bool) (xs : List T)
      → AllPairs (λ a b. p b ≡ true → p a ≡ true) xs
      → All (λ x. p x ≡ false) (drop (front p xs) xs)
  front-drop p [] h = tt
  front-drop p (x ∷ xs) h = elim (Bool-cases (p x)) [
    | inl e ↦ rw e (front-drop p xs h.1)
    | inr e ↦ rw e (e, All-mono _ _ xs (λ y k. ground arith) h.0)
  ]

abbrev pub list_vec : (T : Type 0) → VecOps T
list_vec T = record {
  Vec = ListVec T;
  Error = Unit {0};
  items = λ v. v.items;
  capacity = λ v. v.capacity;
  with_capacity_in = list_new;
  insert = list_insert;
  remove = list_remove;
  with_capacity_in_ok = list_new_ok;
  insert_ok = list_insert_ok;
  remove_ok = list_remove_ok;
}

abbrev pub is_lt : Ordering → Bool
is_lt Ordering.lt = true
is_lt Ordering.eq = false
is_lt Ordering.gt = false

abbrev pub is_le : Ordering → Bool
is_le Ordering.lt = true
is_le Ordering.eq = true
is_le Ordering.gt = false

is_lt-rank : (a b : Ordering) → rank a ≤ rank b → is_lt b ≡ true → is_lt a ≡ true
is_lt-rank a b h e = ground arith

module _ {T : Type 0} (o : Ord T) where
  pub scan_lower :
      (xs : List T) (f : T → Ordering)
      → AllPairs (λ a b. rank (f a) ≤ rank (f b)) xs
      → (front (λ x. is_lt (f x)) xs ≤ length xs)
        × All (λ x. f x ≡ Ordering.lt) (take (front (λ x. is_lt (f x)) xs) xs)
        × All (λ x. f x ≢ Ordering.lt) (drop (front (λ x. is_lt (f x)) xs) xs)
  scan_lower xs f h = (
    front-le _ xs,
    All-mono _ _ _ (λ x e. ground arith) (front-take (λ x. is_lt (f x)) xs),
    All-mono _ _ _ (λ x e k. ground arith)
        (front-drop (λ x. is_lt (f x)) xs (AllPairs-mono _ _ xs (λ a b. is_lt-rank (f a) (f b)) h)),
  )

  pub scan_upper :
      (xs : List T) (x : T)
      → IsSorted o xs
      → (front (λ y. is_le (o.cmp y x)) xs ≤ length xs)
        × All (λ y. o.cmp y x ≢ Ordering.gt) (take (front (λ y. is_le (o.cmp y x)) xs) xs)
        × All (λ y. o.cmp y x ≡ Ordering.gt) (drop (front (λ y. is_le (o.cmp y x)) xs) xs)
  scan_upper xs x h = (
    front-le _ xs,
    All-mono _ _ _ (λ y e k. ground arith) (front-take (λ y. is_le (o.cmp y x)) xs),
    All-mono _ _ _ (λ y e. ground arith)
        (front-drop (λ y. is_le (o.cmp y x)) xs
          (AllPairs-mono _ _ xs (λ a b r t. ground (arith, o.cmp_trans a b x)) h)),
  )

  abbrev pub scan_slices : Slices T o
  scan_slices = record {
    lower_bound_by = λ xs f. front (λ x. is_lt (f x)) xs;
    upper_bound = λ xs x. front (λ y. is_le (o.cmp y x)) xs;
    lower_bound_by_splits = scan_lower;
    upper_bound_splits = scan_upper;
  }

pub record ListDeque (T : Type 0) : Type 0 where
  pub items : List T
  pub spare : ℕ

module _ {T : Type 0} where
  abbrev pub deque_push : ListDeque T → T → Result (ListDeque T) (Unit {0})
  deque_push d x =
      if d.spare == 0
      then err tt
      else ok (record { items = d.items ++ x ∷ []; spare = d.spare - 1 })

  abbrev pub deque_pop : ListDeque T → Option (T × ListDeque T)
  deque_pop d = elim d.items [
    | [] ↦ none
    | x ∷ xs ↦ some (x, record { items = xs; spare = suc d.spare })
  ]

  abbrev pub deque_capacity : ListDeque T → ℕ
  deque_capacity d = d.spare + length d.items

  abbrev pub deque_new : ℕ → Result (ListDeque T) (Unit {0})
  deque_new n = ok (record { items = []; spare = n })

  length-snoc : (xs : List T) (x : T) → length (xs ++ x ∷ []) ≡ suc (length xs)
  length-snoc [] x = refl
  length-snoc (y ∷ xs) x = omega (arith, length-snoc xs x)

  pub deque_new_ok :
      (n : ℕ) (d : ListDeque T) → deque_new n ≡ ok d → (d.items ≡ []) × (n ≤ deque_capacity d)
  deque_new_ok n d e = ground arith

  pub deque_push_ok :
      (d : ListDeque T) (x : T)
      → length d.items < deque_capacity d
      → (e : ListDeque T) × (deque_push d x ≡ ok e)
        × (e.items ≡ d.items ++ x ∷ [])
        × (deque_capacity e ≡ deque_capacity d)
  deque_push_ok d x room = (
    record { items = d.items ++ x ∷ []; spare = d.spare - 1 },
    ground arith,
    refl,
    omega (arith, length-snoc d.items x),
  )

  pub deque_push_appends :
      (d : ListDeque T) (x : T) (e : ListDeque T)
      → deque_push d x ≡ ok e
      → e.items ≡ d.items ++ x ∷ []
  deque_push_appends d x e h = ground arith

  pub deque_pop-none : (d : ListDeque T) → d.items ≡ [] → deque_pop d ≡ none
  deque_pop-none d e = rw e refl

  pub deque_pop-some :
      (d : ListDeque T) (x : T) (xs : List T)
      → d.items ≡ x ∷ xs
      → (e : ListDeque T) × (deque_pop d ≡ some (x, e))
        × (e.items ≡ xs)
        × (deque_capacity e ≡ deque_capacity d)
  deque_pop-some d x xs e =
      (record { items = xs; spare = suc d.spare }, rw e refl, refl, rw e (omega arith))

abbrev pub list_deque : (T : Type 0) → DequeOps T
list_deque T = record {
  Deque = ListDeque T;
  Error = Unit {0};
  items = λ d. d.items;
  capacity = deque_capacity;
  with_capacity_in = deque_new;
  push_back = deque_push;
  pop_front = deque_pop;
  remaining_capacity = λ d. d.spare;
  with_capacity_in_ok = deque_new_ok;
  remaining_capacity_lem = λ d. refl;
  push_back_ok = deque_push_ok;
  push_back_appends = deque_push_appends;
  pop_front_none = deque_pop-none;
  pop_front_some = deque_pop-some;
}
