-- ===== src/Allocator/Chunks/Return.antt =====
-- A new manager, giving space back, and what comes of taking and giving back.
use shmem_util.Prelude.{
  ℕ, ◌+◌, ◌*◌, ◌%◌, ◌≤◌, ◌<◌, ◌≡◌, ◌≢◌, refl, ◌∙◌, All, List, [], ◌∷◌, some, Ends, Ends-value, done,
  panic, ok, err, Result, usize_mod, insert_at, All-get_elem?, arith,
}
use native.Mathlib.Decide.{dec_lt}
use shmem_util.External.{VecOps, Slices}
use shmem_util.Allocator.FreeChunk.{FreeSpace, chunk_size, from_bytes}
use shmem_util.Allocator.FreeChunk
use shmem_util.Allocator.FreeChunk.Cover.{cover, covers, Fits}
use shmem_util.Allocator.FreeChunk.Laws.{free_order}
use shmem_util.Allocator.Chunks.{new, chunks_of_size, get, return_back}
use shmem_util.Allocator.Chunks.Inv.{Inv, Good, Addable}
use shmem_util.Allocator.Chunks.Insert.{insert_chunk_and_merge-Pushed}
use shmem_util.Allocator.Chunks.Canonical.{Inv-unique}
use shmem_util.Allocator.Chunks.Get.{need, chunks_of_size-need, get-Got}
use shmem_util.Allocator.Chunks.SortedVec
use shmem_util.Allocator.Chunks.SortedVec.Laws.{push_lem, new_lem}

-- one run that is the whole memory
abbrev pub whole : ℕ → List FreeSpace
whole n = FreeChunk.new 0 n ∷ []

pub whole-Inv : (n : ℕ) → 0 < n → Inv n (whole n)
whole-Inv n h = record {
  sorted = (tt, tt);
  fits = ((h, omega arith), tt);
  disjoint = λ u. ground arith;
  apart = (tt, tt);
}

cover_outside : (n u : ℕ) (xs : List FreeSpace) → All (Fits n) xs → n ≤ u → cover u xs ≡ 0
cover_outside n u [] h k = refl
cover_outside n u (x ∷ xs) h k = ground (arith, cover_outside n u xs h.1 k)

insert_at-nil : (xs : List FreeSpace) (i : ℕ) (c : FreeSpace) → xs ≡ [] → insert_at xs i c ≡ c ∷ []
insert_at-nil [] i c e = refl
insert_at-nil (x ∷ xs) i c e = absurd (ground arith)

module _ (X : VecOps FreeSpace) (S : Slices FreeSpace free_order) (n : ℕ)
    (small : n < usize_mod) where
  -- `Chunks::new` passes a failure of the vector's allocation on, and otherwise starts with the
  -- whole memory free.
  abbrev pub NewChunks : Result X.Vec X.Error → Result X.Vec X.Error → Type 0
  NewChunks (err e) r = r ≡ err e
  NewChunks (ok v) r = (w : X.Vec) × (r ≡ ok w) × Good X n w × (X.items w ≡ whole n)

  pub new-NewChunks :
      0 < n → (r : Result X.Vec X.Error) → SortedVec.new X S n ≡ r → Ends (new X S n) (NewChunks r)
  unfolding new
  new-NewChunks pos (err e) h = (err e, ground arith, refl)
  new-NewChunks pos (ok v) h =
      let (items, cap) = new_lem X S n v h in
      let (w, e, (sorted, cap', (i, _, items'))) =
        push_lem X S v (FreeChunk.new 0 n) (rw items tt) (rw items (omega (arith, cap))) in
      let all = items' ∙ insert_at-nil (X.items v) i (FreeChunk.new 0 n) items in
      (
        ok w,
        rw (h, new) (rw e refl),
        (w, refl, record { inv = rw all (whole-Inv n pos); room = omega (arith, cap, cap') }, all),
      )

  -- A space of which no chunk is free is given back, and nothing else changes.
  pub return_back-Good :
      (v : X.Vec) (shift size k : ℕ) (c : FreeSpace)
      → Good X n v
      → shift % chunk_size ≡ 0
      → chunks_of_size size ≡ some k
      → FreeChunk.new (from_bytes shift) k ≡ c
      → Addable n (X.items v) c
      → Ends
          (return_back X S v shift size)
          (λ w. Good X n w × ((u : ℕ) → cover u (X.items w) ≡ cover u (X.items v) + covers u c))
  unfolding return_back
  return_back-Good v shift size k c g aligned e space addable =
      rw (e, aligned, space) (insert_chunk_and_merge-Pushed X S n small v c g addable)

  -- A shift that is no multiple of the chunk size is refused.
  pub return_back_misaligned :
      (v : X.Vec) (shift size : ℕ) → shift % chunk_size ≢ 0 → return_back X S v shift size ≡ panic
  unfolding return_back
  return_back_misaligned v shift size h = ground arith

  -- With every elementary chunk free the manager is as new: the free runs have been merged into one.
  pub all_free-whole :
      (v : X.Vec)
      → Good X n v
      → 0 < n
      → ((u : ℕ) → u < n → cover u (X.items v) ≡ 1)
      → X.items v ≡ whole n
  all_free-whole v g pos h = Inv-unique n small (X.items v) (whole n) g.inv (whole-Inv n pos) same
    where
      same : (u : ℕ) → cover u (X.items v) ≡ cover u (whole n)
      same u = elim (dec_lt u n) [
        | yes below ↦ ground (arith, h u below)
        | no above ↦ ground (arith, cover_outside n u (X.items v) g.inv.fits)
      ]

  -- In a memory of fewer than 2^64 chunks, for a list of free chunks with its invariant, space
  -- that `get` took for a positive size below 2^64 is taken back by `return_back` without a
  -- panic, and the list of free chunks is then as it was.
  pub get-return_back :
      (v w : X.Vec) (size : ℕ) (s : FreeSpace)
      → Good X n v
      → 0 < size
      → size < usize_mod
      → get X S v size ≡ done (some s, w)
      → Ends
          (return_back X S w (s.relative_beginning * chunk_size) size)
          (λ v'. Good X n v' × (X.items v' ≡ X.items v))
  get-return_back v w size s g pos fits e =
      let k = need size in
      let ek = chunks_of_size-need size fits in
      let got = Ends-value _ _ _ (get-Got X S n small v size k g ek) e in
      let (count, (i, d, item, begin, enough, _)) = got.answer in
      let fd : Fits n d = All-get_elem? _ (X.items v) i item g.inv.fits in
      let space : FreeChunk.new (from_bytes (s.relative_beginning * chunk_size)) k ≡ s =
        ground arith in
      let (v', run, (good, sum)) =
        return_back-Good w (s.relative_beginning * chunk_size) size k s got.good (omega arith) ek
          space
          (record {
            fits = (omega arith, omega arith);
            outside = λ u. omega (arith, got.kept u, g.inv.disjoint u);
          }) in
      (
        v',
        run,
        (
          good,
          Inv-unique n small (X.items v') (X.items v) good.inv g.inv
              (λ u. omega (arith, sum u, got.kept u)),
        ),
      )
