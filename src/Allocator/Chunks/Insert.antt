-- ===== src/Allocator/Chunks/Insert.antt =====
-- Putting a space back: the merge loop ends, the invariant is kept, and nothing is lost.
use shmem_util.Prelude.{
  ℕ, zero, suc, ◌+◌, ◌<◌, ◌≡◌, refl, List, [], ◌∷◌, none, some, All, Ends, length, length-remove_at,
  get_elem?, get_elem?-lt, All-get_elem?, usize_mod, Option-cases, inl, inr, Bool-cases, Ends-bind,
  true, arith,
}
use mathlib.Core.Path.{subst, sym}
use shmem_util.External.{VecOps, Slices}
use shmem_util.Allocator.FreeChunk.{FreeSpace, merge}
use shmem_util.Allocator.FreeChunk.Cover.{
  cover, covers, cover-insert_at, cover-remove_at, length-le,
}
use shmem_util.Allocator.FreeChunk.Laws.{free_order, merge-covers}
use shmem_util.Allocator.Chunks.{find_and_merge, merge_loop, insert_chunk_and_merge, is_empty}
use shmem_util.Allocator.Chunks.Inv.{
  Good, Addable, Inv-remove_at, Inv-insert_at, find_and_merge_from-none, find_and_merge_from-some,
}
use shmem_util.Allocator.Chunks.SortedVec.Laws.{push_lem, pop_lem}
use shmem_util.Allocator.Chunks.SortedVec.{push, pop}

module _ (X : VecOps FreeSpace) (S : Slices FreeSpace free_order) (n : ℕ)
    (small : n < usize_mod) where
  -- There is always room for one more space, since each holds a chunk that no other holds.
  room_left :
      (v : X.Vec) (c : FreeSpace)
      → Good X n v
      → Addable n (X.items v) c
      → length (X.items v) < X.capacity v
  room_left v c g ok = omega (
    arith,
    g.room,
    length-le n (c ∷ X.items v) (ok.fits, g.inv.fits) (λ u. omega (arith, ok.outside u)),
  )

  abbrev Pushed : X.Vec → FreeSpace → X.Vec → Type 0
  Pushed v c w = Good X n w × ((u : ℕ) → cover u (X.items w) ≡ cover u (X.items v) + covers u c)

  push-Good :
      (v : X.Vec) (c : FreeSpace)
      → Good X n v
      → Addable n (X.items v) c
      → All (λ d. merge d c ≡ none) (X.items v)
      → Ends (push X S v c) (Pushed v c)
  push-Good v c g ok alone =
      let (w, e, (sorted, cap, (i, _, items))) =
        push_lem X S v c g.inv.sorted (room_left v c g ok) in
      (
        w,
        e,
        (
          record {
            inv = rw items (Inv-insert_at n (X.items v) i c g.inv ok alone (rw items at sorted));
            room = omega (arith, g.room);
          },
          λ u. rw items (omega (arith, cover-insert_at u (X.items v) i c)),
        ),
      )

  -- What holds of the rest and of the merged space when the loop ends.
  record Merged (v : X.Vec) (c : FreeSpace) (r : X.Vec × FreeSpace) : Type 0 where
    good : Good X n r.0
    addable : Addable n (X.items r.0) r.1
    kept : (u : ℕ) → cover u (X.items r.0) + covers u r.1 ≡ cover u (X.items v) + covers u c
    alone : All (λ d. merge d r.1 ≡ none) (X.items r.0)

  -- One round: the neighbour is taken out, and the merged space may be put in its place.
  record Round (v : X.Vec) (c m : FreeSpace) (r : FreeSpace × X.Vec) : Type 0 where
    good : Good X n r.1
    addable : Addable n (X.items r.1) m
    kept : (u : ℕ) → cover u (X.items r.1) + covers u m ≡ cover u (X.items v) + covers u c
    shorter : length (X.items r.1) + 1 ≡ length (X.items v)

  pop-Round :
      (v : X.Vec) (c : FreeSpace) (j : ℕ) (m : FreeSpace)
      → Good X n v
      → Addable n (X.items v) c
      → find_and_merge X S v c ≡ some (j, m)
      → Ends (pop X S v j) (Round v c m)
  unfolding find_and_merge
  pop-Round v c j m g ok hit =
      let (k, d, at, item, fit) = find_and_merge_from-some 0 (X.items v) c j m hit in
      let at' : j ≡ k = omega arith in
      let item' = subst (λ i. get_elem? (X.items v) i ≡ some d) (sym at') item in
      let (r, e, (_, items, cap, _)) = pop_lem X S v j d item' g.inv.sorted in
      let (fits, both) =
        merge-covers n d c m small (All-get_elem? _ (X.items v) j item' g.inv.fits) ok.fits fit in
      let taken = λ (u : ℕ). cover-remove_at u (X.items v) j d item' in
      (
        r,
        e,
        record {
          good = record {
            inv = rw items (Inv-remove_at n (X.items v) j d g.inv item');
            room = omega (arith, g.room);
          };
          addable = record {
            fits = fits;
            outside = λ u. rw items (omega (arith, both u, taken u, ok.outside u));
          };
          kept = λ u. rw items (omega (arith, both u, taken u));
          shorter = rw items (length-remove_at (X.items v) j (get_elem?-lt (X.items v) j item'));
        },
      )

  Merged-stop :
      (v : X.Vec) (c : FreeSpace)
      → Good X n v
      → Addable n (X.items v) c
      → find_and_merge X S v c ≡ none
      → Merged v c (v, c)
  unfolding find_and_merge
  Merged-stop v c g ok stop = record {
    good = g;
    addable = ok;
    kept = λ u. refl;
    alone = find_and_merge_from-none 0 (X.items v) c stop;
  }

  merge_loop-Merged :
      (fuel : ℕ) (v : X.Vec) (c : FreeSpace)
      → length (X.items v) < fuel
      → Good X n v
      → Addable n (X.items v) c
      → Ends (merge_loop X S fuel v c) (Merged v c)
  unfolding merge_loop
  merge_loop-Merged zero v c h g ok = absurd (omega arith)
  merge_loop-Merged (suc fuel) v c h g ok = elim (Option-cases (find_and_merge X S v c)) [
    | inl stop ↦ ((v, c), rw (stop, merge_loop) refl, Merged-stop v c g ok stop)
    | inr ((j, m), hit) ↦
        let (r, e, round) = pop-Round v c j m g ok hit in
        let (q, run, merged) =
          merge_loop-Merged fuel r.1 m (omega (arith, round.shorter)) round.good round.addable in
        (
          q,
          rw (hit, merge_loop) (rw e run),
          record {
            good = merged.good;
            addable = merged.addable;
            kept = λ u. omega (arith, merged.kept u, round.kept u);
            alone = merged.alone;
          },
        )
  ]

  -- In a memory of fewer than 2^64 chunks, for a list of free chunks with its invariant and a
  -- space in the memory of which no chunk is free, the merge loop terminates and
  -- `insert_chunk_and_merge` ends without a panic: the invariant is kept, and the free chunks
  -- are those from before with those of the space.
  pub insert_chunk_and_merge-Pushed :
      (v : X.Vec) (c : FreeSpace)
      → Good X n v
      → Addable n (X.items v) c
      → Ends
          (insert_chunk_and_merge X S v c)
          (λ w. Good X n w × ((u : ℕ) → cover u (X.items w) ≡ cover u (X.items v) + covers u c))
  unfolding insert_chunk_and_merge
  insert_chunk_and_merge-Pushed v c g ok = elim (Bool-cases (is_empty (X.items v))) [
    | inl empty ↦ rw empty (push-Good v c g ok (nobody (X.items v) empty))
    | inr filled ↦ rw filled (
        Ends-bind _ _ _ _ (merge_loop-Merged (suc (length (X.items v))) v c (omega arith) g ok)
          (λ r merged. extend r merged (push-Good r.0 r.1 merged.good merged.addable merged.alone)))
  ]
    where
      nobody : (xs : List FreeSpace) → is_empty xs ≡ true → All (λ d. merge d c ≡ none) xs
      nobody [] e = tt
      nobody (x ∷ xs) e = absurd (ground arith)

      extend :
          (r : X.Vec × FreeSpace)
          → Merged v c r
          → Ends (push X S r.0 r.1) (Pushed r.0 r.1)
          → Ends (push X S r.0 r.1) (Pushed v c)
      extend r merged (w, e, (good, sum)) = (w, e, (good, λ u. omega (arith, sum u, merged.kept u)))
