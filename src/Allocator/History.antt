-- ===== src/Allocator/History.antt =====
-- Any number of processes that allocate and free, in any order: the calls come one by one, since
-- each holds the lock. The blocks handed out are kept beside the allocator.
use shmem_util.Prelude.{
  ℕ, zero, suc, ◌+◌, ◌-◌, ◌/◌, ◌≤◌, ◌<◌, ◌≡◌, ◌≢◌, ◌⊎◌, inl, inr, refl, List, [], ◌∷◌, none, some,
  ok, err, Result, All, All-get_elem?, get_elem?, remove_at, Exec, done, ◌>>=◌, Ends, Ends-bind,
  Option-cases, Ends-value, arith,
}
use native.Mathlib.Decide.{dec_lt}
use shmem_util.External.{VecOps, Slices}
use shmem_util.Memmap.{Layout, AllocError}
use shmem_util.Allocator.FreeChunk.{FreeSpace, chunk_size}
use shmem_util.Allocator.FreeChunk.Cover.{covers}
use shmem_util.Allocator.FreeChunk.Laws.{free_order}
use shmem_util.Allocator.Chunks.Canonical.{same_place}
use shmem_util.Allocator.Chunks.Return.{whole, all_free-whole}
use shmem_util.Allocator.Ops.{ShmemAlloc, alloc, dealloc}
use shmem_util.Allocator.Ownership.{
  Supported, Buffer, block, blocks, LiveBlock, Owned, whole-le-one,
}
use shmem_util.Allocator.Ownership.Calls.{alloc-Allocated, dealloc-Owned, Allocated}

-- A request, with what `pthread_mutex_lock` answers to its process.
pub data Request : Type 0 where
  allocates : ℕ → Layout → Request
  frees : ℕ → ℕ → Request

abbrev pub IsSupported : Request → Type 0
IsSupported (allocates lock_errno layout) = (lock_errno ≡ 0) × Supported layout
IsSupported (frees lock_errno i) = lock_errno ≡ 0

get_elem?-blocks :
    (base : ℕ) (live : List (ℕ × Layout)) (i : ℕ) (b : ℕ × Layout)
    → get_elem? live i ≡ some b
    → get_elem? (blocks base live) i ≡ some (block base b)
get_elem?-blocks base [] i b e = absurd (ground arith)
get_elem?-blocks base (x ∷ live) zero b e = let same : x ≡ b = ground arith in rw same refl
get_elem?-blocks base (x ∷ live) (suc i) b e = get_elem?-blocks base live i b e

-- Blocks without a common chunk have no common byte.
apart_bytes :
    {n : ℕ} (base p q : ℕ) (l m : Layout)
    → LiveBlock n base (p, l)
    → LiveBlock n base (q, m)
    → ((u : ℕ) → covers u (block base (p, l)) ≡ 1 → covers u (block base (q, m)) ≡ 1 → ⊥)
    → (p + l.size ≤ q) ⊎ (q + m.size ≤ p)
apart_bytes base p q l m first second none_shared = elim (dec_lt q p) [
  | yes after ↦ elim (dec_lt p (q + m.size)) [
    | yes inside ↦ absurd (none_shared ((p - base) / chunk_size) (ground arith) (ground arith))
    | no clear ↦ inr (omega arith)
  ]
  | no before ↦ elim (dec_lt q (p + l.size)) [
    | yes inside ↦ absurd (none_shared ((q - base) / chunk_size) (ground arith) (ground arith))
    | no clear ↦ inl (omega arith)
  ]
]

module _ (X : VecOps FreeSpace) (S : Slices FreeSpace free_order) where
  abbrev pub State : Type 0
  State = ShmemAlloc X S × List (ℕ × Layout)

  abbrev pub hand_out : List (ℕ × Layout) → Layout → Result ℕ AllocError → List (ℕ × Layout)
  hand_out live layout (ok p) = (p, layout) ∷ live
  hand_out live layout (err e) = live

  -- One request; a process frees only what it has.
  unfoldable pub serve : State → Request → Exec State
  serve (a, live) (allocates lock_errno layout) = do
    r ← alloc X S a lock_errno layout
    done (r.1, hand_out live layout r.0)
  serve (a, live) (frees lock_errno i) = elim (get_elem? live i) [
    | none ↦ done (a, live)
    | some b ↦ do a' ← dealloc X S a lock_errno b.0 b.1; done (a', remove_at live i)
  ]

  unfoldable pub run : State → List Request → Exec State
  run s [] = done s
  run s (r ∷ rs) = do s' ← serve s r; run s' rs

  module _ (n base : ℕ) (region : Buffer n base) where
    abbrev pub IsOwned : State → Type 0
    IsOwned s = Owned X S n base s.0 s.1

    hand_out-Owned :
        (a : ShmemAlloc X S) (live : List (ℕ × Layout)) (layout : Layout) (r : Result ℕ AllocError)
        (a' : ShmemAlloc X S)
        → Allocated X S n base region a live layout (r, a')
        → Owned X S n base a' (hand_out live layout r)
    hand_out-Owned a live layout (ok p) a' got = got.0
    hand_out-Owned a live layout (err e) a' got = got.1

    serve-IsOwned : (s : State) (r : Request) → IsSupported r → IsOwned s → Ends (serve s r) IsOwned
    unfolding serve
    serve-IsOwned (a, live) (allocates lock_errno layout) (locked, sup) own =
        let (r, run, got) = alloc-Allocated X S n base region a live layout sup own in
        (
          (r.1, hand_out live layout r.0),
          rw (locked, run) refl,
          hand_out-Owned a live layout r.0 r.1 got,
        )
    serve-IsOwned (a, live) (frees lock_errno i) locked own =
        elim (Option-cases (get_elem? live i)) [
          | inl missing ↦ ((a, live), rw (missing, serve) refl, own)
          | inr ((p, layout), e) ↦
              let (a', run, own') = dealloc-Owned X S n base region a live i p layout own e in
              ((a', remove_at live i), rw (e, serve) (rw (locked, run) refl), own')
        ]

    -- On a buffer as `Buffer` describes it, a run of any requests that are supported (`alloc`
    -- of a layout that is not empty, is below 2^64 bytes and whose alignment divides 8,
    -- `dealloc` of a live block), each of whose locks succeeds, from a state that is owned ends
    -- without a panic in a state that is owned: the list of free chunks keeps its invariant,
    -- every live block lies in the buffer, and each elementary chunk is either free or part of
    -- exactly one live block.
    pub run-IsOwned :
        (s : State) (rs : List Request) → All IsSupported rs → IsOwned s → Ends (run s rs) IsOwned
    unfolding run
    run-IsOwned s [] sup own = (s, refl, own)
    run-IsOwned s (r ∷ rs) sup own =
        Ends-bind _ _ _ _ (serve-IsOwned s r sup.0 own) (λ s' own'. run-IsOwned s' rs sup.1 own')

    Owned-disjoint :
        (a : ShmemAlloc X S) (live : List (ℕ × Layout)) (i j p q : ℕ) (l m : Layout)
        → Owned X S n base a live
        → get_elem? live i ≡ some (p, l)
        → get_elem? live j ≡ some (q, m)
        → i ≢ j
        → (p + l.size ≤ q) ⊎ (q + m.size ≤ p)
    Owned-disjoint a live i j p q l m own e f ne =
        apart_bytes base p q l m (All-get_elem? _ live i e own.each)
          (All-get_elem? _ live j f own.each)
          (λ u here there. ne (
            same_place u (blocks base live) i j _ _ (get_elem?-blocks base live i _ e)
              (get_elem?-blocks base live j _ f) (omega (arith, own.total u, whole-le-one n u)) here
              there))

    -- On a buffer as `Buffer` describes it, after any run of supported requests, whose locks
    -- succeed, from an owned state, two different live blocks, taken at the bytes that were
    -- asked for, share no byte.
    pub live_disjoint :
        (s : State) (rs : List Request) (a : ShmemAlloc X S) (live : List (ℕ × Layout))
        (i j p q : ℕ) (l m : Layout)
        → All IsSupported rs
        → IsOwned s
        → run s rs ≡ done (a, live)
        → get_elem? live i ≡ some (p, l)
        → get_elem? live j ≡ some (q, m)
        → i ≢ j
        → (p + l.size ≤ q) ⊎ (q + m.size ≤ p)
    live_disjoint s rs a live i j p q l m sup own ran =
        Owned-disjoint a live i j p q l m (Ends-value _ _ _ (run-IsOwned s rs sup own) ran)

    -- On a buffer as `Buffer` describes it, of at least one chunk, after any run of supported
    -- requests, whose locks succeed, from an owned state that leaves no live block, the list of
    -- free chunks is one run, the whole buffer.
    pub run-whole :
        (s : State) (rs : List Request) (a : ShmemAlloc X S)
        → 0 < n
        → All IsSupported rs
        → IsOwned s
        → run s rs ≡ done (a, [])
        → X.items a.free_chunks.contents ≡ whole n
    run-whole s rs a pos sup own ran =
        let end : Owned X S n base a [] = Ends-value _ _ _ (run-IsOwned s rs sup own) ran in
        all_free-whole X S n (let f = region.fits in omega arith) a.free_chunks.contents end.good
          pos (λ u h. ground (arith, end.total u))
