-- ===== src/Mutex/Critical/Laws.antt =====
-- What processes do under the mutex is as if one came after the other.
use shmem_util.Prelude.{
  ℕ, ◌+◌, ◌<◌, done, ◌≡◌, ◌⊎◌, inl, inr, refl, Bool, true, false, List, [], ◌∷◌, ◌==◌,
  if◌then◌else◌, Bool-cases, ==_iff, arith,
}
use shmem_util.Mutex.{MutexGuard, lock}
use shmem_util.Mutex.Critical.{
  Phase, outside, entered, has_read, has_written, left, World, moves, locks, reads, writes, leaves,
  drop_guard, deref, deref_mut, failures, RawMutex, Run, none_moved, locked, read, wrote, unlocked,
  replay,
}

abbrev pub times : ℕ → List ℕ → ℕ
times j [] = 0
times j (i ∷ order) = (if i == j then 1 else 0) + times j order

module _ {T : Type 0} where
  abbrev pub has_guard : Phase T → Bool
  has_guard outside = false
  has_guard (entered g) = true
  has_guard (has_read g value) = true
  has_guard (has_written g) = true
  has_guard left = false

  abbrev pub departures : Phase T → ℕ
  departures outside = 0
  departures (entered g) = 0
  departures (has_read g value) = 0
  departures (has_written g) = 0
  departures left = 1

  pub moves-same : (w : World T) (i : ℕ) (p : Phase T) → moves w i p i ≡ p
  moves-same w i p = ground arith

  pub moves-other :
      (w : World T) (i j : ℕ) (p : Phase T) → (i == j) ≡ false → moves w i p j ≡ w.phases j
  moves-other w i j p e = rw e refl

  -- Only the process `i` may have the guard.
  abbrev pub Only : ℕ → (ℕ → Phase T) → Type 0
  Only i phases = (j : ℕ) → has_guard (phases j) ≡ true → j ≡ i

  moves-Only : (w : World T) (i : ℕ) (p : Phase T) → Only i w.phases → Only i (moves w i p)
  moves-Only w i p only j = elim (Bool-cases (i == j)) [
    | inl e ↦ λ h. ground arith
    | inr e ↦ rw e (only j)
  ]

  moves-departures :
      (w : World T) (i j : ℕ) (p : Phase T)
      → departures (w.phases i) ≡ departures p
      → departures (moves w i p j) ≡ departures (w.phases j)
  moves-departures w i j p same = elim (Bool-cases (i == j)) [
    | inl e ↦ let ij : i ≡ j = (==_iff i j).0 e in rw (e, ← ij) (ground arith)
    | inr e ↦ rw e refl
  ]

module _ {T : Type 0} (update : ℕ → T → T) where
  -- What the process with the guard has done so far, from the value that it found.
  abbrev pub Within : ℕ → T → T → Phase T → Type 0
  Within i found contents outside = ⊥
  Within i found contents (entered g) = contents ≡ found
  Within i found contents (has_read g value) = (contents ≡ found) × (value ≡ found)
  Within i found contents (has_written g) = contents ≡ update i found
  Within i found contents left = ⊥

  -- Nobody has a guard, the data is `found` and the mutex is free, unless some of the `failed` unlocks left
  -- it held, or just one has a guard and goes on from there.
  abbrev pub Exclusive : ℕ → T → World T → Type 0
  Exclusive failed found w =
      ((j : ℕ) → has_guard (w.phases j) ≡ false)
        × (w.mutex.contents ≡ found)
        × ((w.held ≡ false) ⊎ (0 < failed))
      ⊎ (i : ℕ) × (w.held ≡ true) × Only i w.phases × Within i found w.mutex.contents (w.phases i)

  -- `order` has the processes that have left, each once, and the data is what they leave one
  -- after the other, with the work of the one that has the guard.
  pub record Sequential (value : T) (w : World T) (order : List ℕ) (failed : ℕ) : Type 0 where
    pub once : (j : ℕ) → times j order ≡ departures (w.phases j)
    pub exclusive : Exclusive failed (replay update value order) w

  -- A process that has a guard is the one.
  the_one :
      (failed : ℕ) (found : T) (w : World T) (i : ℕ)
      → has_guard (w.phases i) ≡ true
      → Exclusive failed found w
      → (w.held ≡ true) × Only i w.phases × Within i found w.mutex.contents (w.phases i)
  the_one failed found w i guarded (inl (none_inside, same, _)) =
      absurd (let never = none_inside i in ground arith)
  the_one failed found w i guarded (inr (j, held, only, within)) =
      let ij : i ≡ j = only i guarded in rw ij (held, only, within)

  -- Only a call that succeeds gives a guard.
  lock-errno : (errno : ℕ) (g : MutexGuard) → lock errno ≡ done g → errno ≡ 0
  lock-errno errno g e = ground arith

  locks-Exclusive :
      (failed : ℕ) (found : T) (w : World T) (i errno : ℕ) (g : MutexGuard)
      → (errno ≡ 0 → w.held ≡ false)
      → lock errno ≡ done g
      → Exclusive failed found w
      → Exclusive failed found (locks w i errno g)
  locks-Exclusive failed found w i errno g free e (inl (none_inside, same, _)) = inr (
    i,
    rw (lock-errno errno g e) refl,
    moves-Only w i (entered g) (λ j h. absurd (let never = none_inside j in ground arith)),
    rw (moves-same w i (entered g)) same,
  )
  locks-Exclusive failed found w i errno g free e (inr (j, held, _, _)) =
      let unheld = free (lock-errno errno g e) in absurd (ground arith)

  reads-Exclusive :
      (failed : ℕ) (found : T) (w : World T) (i : ℕ) (g : MutexGuard)
      → w.phases i ≡ entered g
      → Exclusive failed found w
      → Exclusive failed found (reads w i g)
  unfolding deref
  reads-Exclusive failed found w i g at ex =
      let (held, only, within) = the_one failed found w i (rw at refl) ex in
      inr (
        i,
        held,
        moves-Only w i (has_read g w.mutex.contents) only,
        rw (moves-same w i (has_read g w.mutex.contents)) (rw at at within, rw at at within),
      )

  writes-Exclusive :
      (failed : ℕ) (found : T) (w : World T) (i : ℕ) (g : MutexGuard) (value : T)
      → w.phases i ≡ has_read g value
      → Exclusive failed found w
      → Exclusive failed found (writes w i g (update i value))
  unfolding deref_mut
  writes-Exclusive failed found w i g value at ex =
      let (held, only, within) = the_one failed found w i (rw at refl) ex in
      let (_, same) = rw at at within in
      inr (
        i,
        held,
        moves-Only w i (has_written g) only,
        rw (moves-same w i (has_written g)) (rw same refl),
      )

  -- An unlock frees the mutex or is one that failed.
  unlocks :
      (held : Bool) (failed errno : ℕ)
      → (drop_guard held errno ≡ false) ⊎ (0 < (if errno == 0 then 0 else 1) + failed)
  unfolding drop_guard
  unlocks held failed errno = elim (Bool-cases (errno == 0)) [
    | inl fine ↦ inl (rw fine refl)
    | inr bad ↦ inr (rw bad (omega arith))
  ]

  none_left :
      (w : World T) (i : ℕ) → Only i w.phases → (j : ℕ) → has_guard (moves w i left j) ≡ false
  none_left w i only j = elim (Bool-cases (i == j)) [
    | inl e ↦ rw e refl
    | inr e ↦ elim (Bool-cases (has_guard (w.phases j))) [
      | inl guarded ↦ absurd (let same = only j guarded in ground arith)
      | inr none_here ↦ rw e none_here
    ]
  ]

  leaves-Exclusive :
      (failed : ℕ) (found : T) (w : World T) (i errno : ℕ) (g : MutexGuard)
      → w.phases i ≡ has_written g
      → Exclusive failed found w
      → Exclusive ((if errno == 0 then 0 else 1) + failed) (update i found) (leaves w i errno)
  unfolding drop_guard
  leaves-Exclusive failed found w i errno g at ex =
      let (held, only, within) = the_one failed found w i (rw at refl) ex in
      inl (none_left w i only, rw at at within, unlocks w.held failed errno)

  leaves-once :
      (w : World T) (order : List ℕ) (i : ℕ)
      → departures (w.phases i) ≡ 0
      → ((j : ℕ) → times j order ≡ departures (w.phases j))
      → (j : ℕ) → times j (i ∷ order) ≡ departures (moves w i left j)
  leaves-once w order i none_yet once j = elim (Bool-cases (i == j)) [
    | inl e ↦
        let ij : i ≡ j = (==_iff i j).0 e in
        let gone : times j order ≡ 0 = rw (← ij) (omega (arith, once i, none_yet)) in
        rw e (omega (arith, gone))
    | inr e ↦ rw e (omega (arith, once j))
  ]

  moves-once :
      (w : World T) (order : List ℕ) (i : ℕ) (p : Phase T)
      → departures (w.phases i) ≡ departures p
      → ((j : ℕ) → times j order ≡ departures (w.phases j))
      → (j : ℕ) → times j order ≡ departures (moves w i p j)
  moves-once w order i p same once j = omega (arith, moves-departures w i j p same, once j)

  -- Over any `pthread_mutex_lock` that succeeds only on a mutex that is not held, which it then
  -- holds, however processes are scheduled that each call `lock`, read the data, write an
  -- update of what they read and let the guard drop, from a world in which none has started and
  -- the mutex is not held: each leaves at most once, at most one has a guard, and the data is
  -- what the updates of those that have left give one after the other, in the order in which
  -- they left, together with the work of the one that has the guard. Where none has a guard,
  -- the mutex is not held, unless an unlock has failed.
  pub Run-Sequential :
      (K : RawMutex) (start w : World T) (order : List ℕ) (r : Run K update start w order)
      → ((i : ℕ) → start.phases i ≡ outside)
      → start.held ≡ false
      → Sequential start.mutex.contents w order (failures K update r)
  Run-Sequential K start w order none_moved all_outside free_first = record {
    once = λ j. rw (all_outside j) refl;
    exclusive = inl ((λ j. rw (all_outside j) refl), refl, inl free_first);
  }
  Run-Sequential K start w order (locked {w = v} i errno g r at answer e) all_outside free_first =
      let h = Run-Sequential K start v order r all_outside free_first in
      record {
        once = moves-once v order i (entered g) (rw at refl) h.once;
        exclusive =
            locks-Exclusive _ _ v i errno g (K.lock_excludes v.held errno answer) e h.exclusive;
      }
  Run-Sequential K start w order (read {w = v} i g r at) all_outside free_first =
      let h = Run-Sequential K start v order r all_outside free_first in
      record {
        once = moves-once v order i (has_read g (deref v.mutex g)) (rw at refl) h.once;
        exclusive = reads-Exclusive _ _ v i g at h.exclusive;
      }
  Run-Sequential K start w order (wrote {w = v} i g value r at) all_outside free_first =
      let h = Run-Sequential K start v order r all_outside free_first in
      record {
        once = moves-once v order i (has_written g) (rw at refl) h.once;
        exclusive = writes-Exclusive _ _ v i g value at h.exclusive;
      }
  Run-Sequential K start w order (unlocked {w = v} {order = before} i errno g r at) all_outside
        free_first =
      let h = Run-Sequential K start v before r all_outside free_first in
      record {
        once = leaves-once v before i (rw at refl) h.once;
        exclusive = leaves-Exclusive _ _ v i errno g at h.exclusive;
      }
