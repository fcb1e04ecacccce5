-- ===== src/Allocator/Chunks/Random.antt =====
-- src/allocator/chunks.rs: the test `random_actions`, with the numbers that it draws as a list, and the
-- invariant by which it passes whatever is drawn.
use shmem_util.Prelude.{
  is_none, ℕ, ◌+◌, ◌*◌, ◌%◌, ◌≤◌, ◌<◌, ◌≡◌, ◌↔◌, refl, ap, Bool, true, false, Option, none, some,
  List, [], ◌∷◌, ◌++◌, Exec, done, panic, ◌>>=◌, ◌>>◌, assert, expect, All, All-get_elem?,
  All-append, All-remove_at, Ends, length, get_elem?, get_elem?_of_lt, remove_at, usize_mod, leb,
  arith,
}
use shmem_util.External.{VecOps, Slices}
use shmem_util.Allocator.FreeChunk.{FreeSpace, chunk_size}
use shmem_util.Allocator.FreeChunk.Cover.{Fits, cover, cover-remove_at}
use shmem_util.Allocator.FreeChunk.Laws.{free_order}
use shmem_util.Allocator.Chunks.{get, chunks_of_size, insert_chunk_and_merge}
use shmem_util.Allocator.Chunks.Inv.{Good}
use shmem_util.Allocator.Chunks.Insert.{insert_chunk_and_merge-Pushed}
use shmem_util.Allocator.Chunks.Get.{need, GotSpace, Got}
use shmem_util.Allocator.Chunks.Check.{free_space, self_check, self_check-passes, get-Told}

-- What an iteration draws: a number for the size, or one for the index of a space to give back. A number
-- below a bound is drawn as the remainder of any number.
pub data Draw : Type 0 where
  takes : ℕ → Draw
  returns : ℕ → Draw

module _ (X : VecOps FreeSpace) (S : Slices FreeSpace free_order) where
  -- what the test makes of the answer of `get`
  unfoldable pub check_taken :
      Bool → List FreeSpace → Option FreeSpace × X.Vec → Exec (X.Vec × List FreeSpace)
  check_taken true taken_away (maybe_chunk, v) = do
    chunk ← expect maybe_chunk
    self_check (X.items v)
    done (v, taken_away ++ chunk ∷ [])
  check_taken false taken_away (maybe_chunk, v) = do
    assert (is_none maybe_chunk)
    done (v, taken_away)

  unfoldable pub iteration : ℕ → X.Vec × List FreeSpace → Draw → Exec (X.Vec × List FreeSpace)
  iteration max_chunks (v, taken_away) (takes drawn) =
      let size = drawn % (max_chunks * chunk_size) in
      (do got ← get X S v size; check_taken (leb size (free_space (X.items v))) taken_away got)
  iteration max_chunks (v, []) (returns drawn) = done (v, [])
  iteration max_chunks (v, chunk ∷ rest) (returns drawn) =
      let taken_away = chunk ∷ rest in
      let n = drawn % length taken_away in
      (do
        chunk ← expect (get_elem? taken_away n)
        w ← insert_chunk_and_merge X S v chunk
        self_check (X.items w)
        done (w, remove_at taken_away n))

  unfoldable pub random_actions :
      ℕ → X.Vec × List FreeSpace → List Draw → Exec (X.Vec × List FreeSpace)
  random_actions max_chunks s [] = done s
  random_actions max_chunks s (draw ∷ draws) = do
    s' ← iteration max_chunks s draw
    random_actions max_chunks s' draws

cover-append : (u : ℕ) (xs ys : List FreeSpace) → cover u (xs ++ ys) ≡ cover u xs + cover u ys
cover-append u [] ys = omega arith
cover-append u (x ∷ xs) ys = omega (arith, cover-append u xs ys)

module _ (X : VecOps FreeSpace) (S : Slices FreeSpace free_order) (n : ℕ)
    (fits : n + n + n + n + n + n + n + n < usize_mod) where
  small : n < usize_mod
  small = omega (arith, fits)

  -- What is free and what was taken away: spaces of the memory that share no chunk.
  pub record Shared (s : X.Vec × List FreeSpace) : Type 0 where
    pub good : Good X n s.0
    pub taken : All (Fits n) s.1
    pub apart : (u : ℕ) → cover u (X.items s.0) + cover u s.1 ≤ 1

  -- a draw of a size that is not zero
  abbrev pub NotZero : Draw → Type 0
  NotZero (takes drawn) = 0 < drawn % (n * chunk_size)
  NotZero (returns drawn) = Unit

  taken_Fits :
      (xs : List FreeSpace) (k : ℕ) (s : FreeSpace)
      → All (Fits n) xs
      → 0 < k
      → GotSpace xs k (some s)
      → Fits n s
  taken_Fits xs k s h pos (count, (i, d, item, begin, enough, _)) =
      let fd : Fits n d = All-get_elem? _ xs i item h in (omega arith, omega arith)

  check_taken-Shared :
      (v : X.Vec) (taken : List FreeSpace) (size : ℕ) (r : Option FreeSpace × X.Vec) (b : Bool)
      → Shared (v, taken)
      → 0 < need size
      → Got X S n small v (need size) r
      → ((r.0 ≡ none) ↔ (free_space (X.items v) < size))
      → leb size (free_space (X.items v)) ≡ b
      → Ends (check_taken X S b taken r) Shared
  unfolding check_taken
  check_taken-Shared v taken size (some s, w) true h pos got told e = (
    (w, taken ++ s ∷ []),
    rw (self_check-passes n (X.items w) got.good.inv) refl,
    record {
      good = got.good;
      taken =
          All-append _ taken (s ∷ []) h.taken
            (taken_Fits (X.items v) (need size) s h.good.inv.fits pos got.answer, tt);
      apart = λ u. omega (arith, got.kept u, h.apart u, cover-append u taken (s ∷ []));
    },
  )
  check_taken-Shared v taken size (none, w) true h pos got told e =
      let less = told.0 refl in absurd (ground arith)
  check_taken-Shared v taken size (none, w) false h pos got told e = (
    (w, taken),
    refl,
    record { good = got.good; taken = h.taken; apart = λ u. omega (arith, got.kept u, h.apart u) },
  )
  check_taken-Shared v taken size (some s, w) false h pos got told e =
      let nothing = told.1 (ground arith) in absurd (ground arith)

  iteration-Shared :
      (s : X.Vec × List FreeSpace) (x : Draw)
      → 0 < n
      → NotZero x
      → Shared s
      → Ends (iteration X S n s x) Shared
  unfolding iteration
  iteration-Shared (v, taken) (takes drawn) pos not_zero h =
      let size = drawn % (n * chunk_size) in
      let word : size < usize_mod = grind arith in
      let (r, run, (got, told)) = get-Told X S n small v size h.good fits not_zero word in
      rw run (
        check_taken-Shared v taken size r (leb size (free_space (X.items v))) h (ground arith) got
          told refl)
  iteration-Shared (v, []) (returns drawn) pos not_zero h = ((v, []), refl, h)
  iteration-Shared (v, chunk ∷ rest) (returns drawn) pos not_zero h =
      let taken = chunk ∷ rest in
      let i = drawn % length taken in
      let (c, item) = get_elem?_of_lt taken i (grind arith) in
      let without = λ (u : ℕ). cover-remove_at u taken i c item in
      let (w, run, (good, sum)) = insert_chunk_and_merge-Pushed X S n small v c h.good (record {
        fits = All-get_elem? _ taken i item h.taken;
        outside = λ u. omega (arith, h.apart u, without u);
      }) in
      (
        (w, remove_at taken i),
        rw (item, run, self_check-passes n (X.items w) good.inv) refl,
        record {
          good = good;
          taken = All-remove_at _ taken i h.taken;
          apart = λ u. omega (arith, sum u, h.apart u, without u);
        },
      )

  -- The invariant through any draws.
  random_actions-Shared :
      (s : X.Vec × List FreeSpace) (draws : List Draw)
      → 0 < n
      → All NotZero draws
      → Shared s
      → Ends (random_actions X S n s draws) Shared
  unfolding random_actions
  random_actions-Shared s [] pos not_zero h = (s, refl, h)
  random_actions-Shared s (x ∷ xs) pos (first, rest) h =
      let (s', run, h') = iteration-Shared s x pos first h in
      rw run (random_actions-Shared s' xs pos rest h')

  -- In a memory of `n` chunks, `n` positive and 8 * n below 2^64, from a list of free chunks
  -- with its invariant and nothing taken away, the test `random_actions` ends without a panic
  -- through any number of iterations and any draws in which no size is zero: the invariant is
  -- kept, and the spaces that are free and those that are taken away lie in the memory and
  -- share no chunk.
  pub random_actions-passes :
      (v : X.Vec) (draws : List Draw)
      → 0 < n
      → All NotZero draws
      → Good X n v
      → Ends (random_actions X S n (v, []) draws) Shared
  random_actions-passes v draws pos drawn good =
      random_actions-Shared (v, []) draws pos drawn
        (record { good = good; taken = tt; apart = λ u. omega (arith, good.inv.disjoint u) })

module _ (X : VecOps FreeSpace) (S : Slices FreeSpace free_order) where
  get_nothing : (v : X.Vec) → X.items v ≡ [] → get X S v 0 ≡ done (none, v)
  unfolding get chunks_of_size
  get_nothing v empty = ground (arith, ap length empty)

  -- With nothing free, an iteration that takes a size of zero panics: `get` has no space for it.
  pub zero_size_panics :
      (n : ℕ) (v : X.Vec) (taken : List FreeSpace) (drawn : ℕ)
      → X.items v ≡ []
      → drawn % (n * chunk_size) ≡ 0
      → iteration X S n (v, taken) (takes drawn) ≡ panic
  unfolding iteration check_taken
  zero_size_panics n v taken drawn empty zero_drawn =
      simp (zero_drawn, get_nothing v empty) (ground arith)
