-- ===== src/Allocator/Chunks/Get.antt =====
-- Taking out space: from the smallest free run that is large enough, and from no other.
use shmem_util.Prelude.{
  ℕ, zero, suc, ◌+◌, ◌-◌, ◌≤◌, ◌<◌, ◌≡◌, ◌≢◌, Ordering, ◌⊎◌, inl, inr, refl, ap, List, [], ◌∷◌,
  Option, none, some, All, AllPairs, AllPairs-mono, All-mono, All-get_elem?, take, drop, get_elem?,
  length, get_elem?_of_lt, Ends, usize_mod, ◌==◌, ◌/◌, ◌%◌, compare, Bool-cases, leb, arith,
}
use mathlib.Core.Path.{subst}
use shmem_util.External.{IsSorted, VecOps, Slices, rank}
use shmem_util.Allocator.FreeChunk.{cmp, FreeSpace, chunk_size}
use shmem_util.Allocator.FreeChunk.Cover.{cover, covers, covers_opt, Fits, cover-remove_at}
use shmem_util.Allocator.FreeChunk.Laws.{free_order, split_lem, cmp-count, cmp_antisym, cmp_refl}
use shmem_util.Allocator.Chunks.{chunks_of_size, best_index, take_space, keep_unused, get}
use shmem_util.Allocator.Chunks.Inv.{Good, Addable, Inv-remove_at}
use shmem_util.Allocator.Chunks.Insert.{insert_chunk_and_merge-Pushed}
use shmem_util.Allocator.Chunks.SortedVec.Laws.{pop_lem}

-- how many whole chunks `size` bytes take
abbrev pub need : ℕ → ℕ
need size = (size + (chunk_size - 1)) / chunk_size

-- The rounding of the code, for sizes that a machine word holds.
pub chunks_of_size-need : (size : ℕ) → size < usize_mod → chunks_of_size size ≡ some (need size)
unfolding chunks_of_size
chunks_of_size-need size h = elim (Bool-cases (size % chunk_size == 0)) [
  | inl whole ↦ ground arith
  | inr part ↦ ground arith
]

All-drop_head {ℓ κ} :
    {A : Type ℓ} (P : A → Type κ) (xs : List A) (i : ℕ) (d : A)
    → get_elem? xs i ≡ some d
    → All P (drop i xs)
    → P d
All-drop_head P [] i d e h = absurd (ground arith)
All-drop_head P (x ∷ xs) zero d e h = ground (arith, h.0)
All-drop_head P (x ∷ xs) (suc i) d e h = All-drop_head P xs i d e h

All-take-drop {ℓ κ} :
    {A : Type ℓ} (P : A → Type κ) (xs : List A) (i : ℕ)
    → All P (take i xs)
    → All P (drop i xs)
    → All P xs
All-take-drop P xs zero h k = k
All-take-drop P [] (suc i) h k = tt
All-take-drop P (x ∷ xs) (suc i) h k = (h.0, All-take-drop P xs i h.1 k)

All-past_end {ℓ κ} :
    {A : Type ℓ} (P : A → Type κ) (xs : List A) (i : ℕ)
    → length xs ≤ i
    → All P (take i xs)
    → All P xs
All-past_end P [] i h k = tt
All-past_end P (x ∷ xs) zero h k = absurd (omega arith)
All-past_end P (x ∷ xs) (suc i) h k = (k.0, All-past_end P xs i (omega arith) k.1)

-- From an item on, a sorted list has nothing smaller.
drop_sorted :
    (xs : List FreeSpace) (i : ℕ) (d : FreeSpace)
    → IsSorted free_order xs
    → get_elem? xs i ≡ some d
    → All (λ e. cmp d e ≢ Ordering.gt) (drop i xs)
drop_sorted [] i d sorted e = absurd (ground arith)
drop_sorted (x ∷ xs) zero d sorted e =
    let same : x ≡ d = ground arith in
    subst (λ y. All (λ e'. cmp y e' ≢ Ordering.gt) (x ∷ xs)) same (cmp_refl x, sorted.0)
drop_sorted (x ∷ xs) (suc i) d sorted e = drop_sorted xs i d sorted.1 e

-- What `get` answers for a request of `k` chunks: nothing where every free run is shorter, and
-- otherwise `k` chunks at the front of the first, in the order of the type, that is long enough.
abbrev pub GotSpace : List FreeSpace → ℕ → Option FreeSpace → Type 0
GotSpace xs k none = All (λ d. d.count < k) xs
GotSpace xs k (some s) =
    (s.count ≡ k)
    × ((i : ℕ) × (d : FreeSpace) × (get_elem? xs i ≡ some d)
        × (s.relative_beginning ≡ d.relative_beginning)
        × (k ≤ d.count)
        × All (λ e. (e.count < k) ⊎ (cmp d e ≢ Ordering.gt)) xs)

first_le :
    (k : ℕ) (d e : FreeSpace)
    → (e.count < k) ⊎ (cmp d e ≢ Ordering.gt)
    → k ≤ e.count
    → cmp d e ≢ Ordering.gt
first_le k d e (inl less) h = absurd (omega arith)
first_le k d e (inr le) h = le

-- The answer is determined by the free chunks.
pub GotSpace-unique :
    (xs : List FreeSpace) (k : ℕ) (o o' : Option FreeSpace)
    → GotSpace xs k o
    → GotSpace xs k o'
    → o ≡ o'
GotSpace-unique xs k none none g h = refl
GotSpace-unique xs k none (some s) g (_, (i, d, item, _, enough, _)) =
    absurd (omega (arith, All-get_elem? (λ d. d.count < k) xs i item g))
GotSpace-unique xs k (some s) none (_, (i, d, item, _, enough, _)) h =
    absurd (omega (arith, All-get_elem? (λ d. d.count < k) xs i item h))
GotSpace-unique xs k (some s) (some t) (c, (i, d, item, b, enough, first))
      (c', (i', d', item', b', enough', first')) =
    let same =
      cmp_antisym d d' (first_le k d d' (All-get_elem? _ xs i' item' first) enough')
        (first_le k d' d (All-get_elem? _ xs i item first') enough) in
    ground arith

module _ (X : VecOps FreeSpace) (S : Slices FreeSpace free_order) (n : ℕ)
    (small : n < usize_mod) where
  -- The answer, and what is left: the same free chunks without those handed out.
  pub record Got (v : X.Vec) (k : ℕ) (r : Option FreeSpace × X.Vec) : Type 0 where
    pub answer : GotSpace (X.items v) k r.0
    pub good : Good X n r.1
    pub kept : (u : ℕ) → cover u (X.items r.1) + covers_opt u r.0 ≡ cover u (X.items v)

  sorted_counts :
      (xs : List FreeSpace) (k : ℕ)
      → IsSorted free_order xs
      → AllPairs (λ a b. rank (compare a.count k) ≤ rank (compare b.count k)) xs
  sorted_counts xs k = AllPairs-mono _ _ xs (λ a b h. ground (arith, cmp-count a b h))

  -- The index found is that of the first run that is long enough.
  best_index-first :
      (v : X.Vec) (k : ℕ) (d : FreeSpace)
      → Good X n v
      → get_elem? (X.items v) (best_index X S v k) ≡ some d
      → (k ≤ d.count) × All (λ e. (e.count < k) ⊎ (cmp d e ≢ Ordering.gt)) (X.items v)
  best_index-first v k d g e =
      let i = best_index X S v k in
      let (_, before, after) =
        S.lower_bound_by_splits (X.items v) (λ s. compare s.count k)
          (sorted_counts (X.items v) k g.inv.sorted) in
      (
        All-drop_head (λ s. k ≤ s.count) (X.items v) i d e
            (All-mono _ _ _ (λ s h. ground arith) after),
        All-take-drop _ (X.items v) i (All-mono _ _ _ (λ s h. inl (ground arith)) before)
            (All-mono _ _ _ (λ s h. inr h) (drop_sorted (X.items v) i d g.inv.sorted e)),
      )

  -- The unused part may go back, and with it nothing but the space is missing.
  keep_unused-Got :
      (v w : X.Vec) (k : ℕ) (space : FreeSpace) (unused : Option FreeSpace)
      → GotSpace (X.items v) k (some space)
      → Good X n w
      → ((s : FreeSpace) → unused ≡ some s → Addable n (X.items w) s)
      → ((u : ℕ) → cover u (X.items w) + covers u space + covers_opt u unused ≡ cover u (X.items v))
      → Ends (keep_unused X S w space unused) (Got v k)
  unfolding keep_unused
  keep_unused-Got v w k space none answer g back sum = (
    (some space, w),
    refl,
    record { answer = answer; good = g; kept = λ u. omega (arith, sum u) },
  )
  keep_unused-Got v w k space (some unused) answer g back sum =
      let (w', e, (good, more)) =
        insert_chunk_and_merge-Pushed X S n small w unused g (back unused refl) in
      (
        (some space, w'),
        rw e refl,
        record { answer = answer; good = good; kept = λ u. omega (arith, sum u, more u) },
      )

  take_space-Got :
      (v : X.Vec) (k : ℕ) (d : FreeSpace)
      → Good X n v
      → get_elem? (X.items v) (best_index X S v k) ≡ some d
      → Ends (take_space X S v (best_index X S v k) k) (Got v k)
  unfolding take_space
  take_space-Got v k d g e =
      let i = best_index X S v k in
      let (enough, best) = best_index-first v k d g e in
      let (r, run, (same, items, cap, sorted)) = pop_lem X S v i d e g.inv.sorted in
      let fd : Fits n d = All-get_elem? _ (X.items v) i e g.inv.fits in
      let (parts, run', (begin, count, _, fits, sum)) = split_lem n d k small fd.1 enough in
      let taken = λ (u : ℕ). cover-remove_at u (X.items v) i d e in
      let good : Good X n r.1 = record {
        inv = rw items (Inv-remove_at n (X.items v) i d g.inv e);
        room = omega (arith, g.room);
      } in
      rw (run, same, run')
        (keep_unused-Got v r.1 k parts.0 parts.1 (count, (i, d, e, begin, enough, best)) good
          (λ s h. record {
            fits = fits s h;
            outside = λ u.
                rw items (omega (arith, sum u, taken u, ap (covers_opt u) h, g.inv.disjoint u));
          })
          (λ u. rw items (omega (arith, sum u, taken u))))

  -- In a memory of fewer than 2^64 chunks, on a list of free chunks with its invariant and for
  -- a size that takes `k` chunks, `get` ends without a panic. It answers with the first `k`
  -- chunks of the first run, in the order of `FreeSpace`, that has as many, or with nothing
  -- where no run has; the invariant is kept, and exactly the chunks of the answer are free no
  -- more.
  pub get-Got :
      (v : X.Vec) (size k : ℕ)
      → Good X n v
      → chunks_of_size size ≡ some k
      → Ends (get X S v size) (Got v k)
  unfolding get
  get-Got v size k g e =
      rw (e, get)
        (elim (Bool-cases (leb (length (X.items v)) (best_index X S v k))) [
          | inl past ↦ rw past ((none, v), refl, nothing (ground arith))
          | inr inside ↦
              let (d, item) = get_elem?_of_lt (X.items v) (best_index X S v k) (ground arith) in
              rw inside (take_space-Got v k d g item)
        ])
    where
      nothing : length (X.items v) ≤ best_index X S v k → Got v k (none, v)
      nothing past =
          let (_, before, _) =
            S.lower_bound_by_splits (X.items v) (λ s. compare s.count k)
              (sorted_counts (X.items v) k g.inv.sorted) in
          record {
            answer =
                All-past_end _ (X.items v) _ past (All-mono _ _ _ (λ s h. ground arith) before);
            good = g;
            kept = λ u. omega arith;
          }
