-- ===== src/Mutex/Critical/Progress.antt =====
-- No process is kept from the mutex for good, as long as no unlock fails.
use shmem_util.Prelude.{
  ℕ, ◌≡◌, inl, inr, refl, true, false, List, [], ◌∷◌, ◌++◌, ◌==◌, Bool-cases, ==_iff, arith,
}
use shmem_util.Mutex.{MutexGuard, guard}
use shmem_util.Mutex.Critical.{
  Phase, outside, entered, has_read, has_written, left, World, moves, locks, reads, writes, leaves,
  drop_guard, deref, RawMutex, Run, none_moved, locked, read, wrote, unlocked,
}
use shmem_util.Mutex.Critical.Laws.{has_guard, moves-same, moves-other}

module _ {T : Type 0} (K : RawMutex) (update : ℕ → T → T) where
  -- No unlock has failed.
  abbrev pub Released : {start w : World T} {order : List ℕ} → Run K update start w order → Type 0
  Released none_moved = Unit
  Released (locked i errno g r at free e) = Released r
  Released (read i g r at) = Released r
  Released (wrote i g value r at) = Released r
  Released (unlocked i errno g r at) = (errno ≡ 0) × Released r

  abbrev NotJammed : World T → Type 0
  NotJammed w = w.held ≡ true → (j : ℕ) × (has_guard (w.phases j) ≡ true)

  guarded :
      (w : World T) (i : ℕ) (p : Phase T)
      → has_guard p ≡ true
      → (j : ℕ) × (has_guard (moves w i p j) ≡ true)
  guarded w i p h = (i, rw (moves-same w i p) h)

  Run-NotJammed :
      (start w : World T) (order : List ℕ) (r : Run K update start w order)
      → start.held ≡ false
      → Released r
      → NotJammed w
  unfolding drop_guard
  Run-NotJammed start w order none_moved free released held = absurd (ground arith)
  Run-NotJammed start w order (locked {w = v} i errno g r at unheld e) free released held =
      guarded v i (entered g) refl
  Run-NotJammed start w order (read {w = v} i g r at) free released held =
      guarded v i (has_read g (deref v.mutex g)) refl
  Run-NotJammed start w order (wrote {w = v} i g value r at) free released held =
      guarded v i (has_written g) refl
  Run-NotJammed start w order (unlocked {w = v} i errno g r at) free (worked, released) held =
      absurd (ground arith)

  -- further steps after those of a run
  continue :
      {u v w : World T} {order order' : List ℕ}
      → Run K update u v order
      → Run K update v w order'
      → Run K update u w (order' ++ order)
  continue r none_moved = r
  continue r (locked i errno g s at free e) = locked i errno g (continue r s) at free e
  continue r (read i g s at) = read i g (continue r s) at
  continue r (wrote i g value s at) = wrote i g value (continue r s) at
  continue r (unlocked i errno g s at) = unlocked i errno g (continue r s) at

  -- A run by which the process `i` leaves, the mutex is free, and the others are where they were.
  abbrev Leaves : World T → ℕ → Type 0
  Leaves w i =
      (v : World T) × (order : List ℕ) × Run K update w v order
      × (v.phases i ≡ left)
      × (v.held ≡ false)
      × ((j : ℕ) → (i == j) ≡ false → v.phases j ≡ w.phases j)

  after_written : (w : World T) (i : ℕ) (g : MutexGuard) → w.phases i ≡ has_written g → Leaves w i
  unfolding drop_guard
  after_written w i g at = (
    leaves w i 0,
    i ∷ [],
    unlocked i 0 g none_moved at,
    moves-same w i left,
    refl,
    λ j. moves-other w i j left,
  )

  -- one step, and then the rest
  step_then :
      (w v : World T) (i : ℕ)
      → Run K update w v []
      → ((j : ℕ) → (i == j) ≡ false → v.phases j ≡ w.phases j)
      → Leaves v i
      → Leaves w i
  step_then w v i first others (u, order, r, at, free, others') =
      (u, order ++ [], continue first r, at, free, λ j e. rw (others' j e) (others j e))

  after_read :
      (w : World T) (i : ℕ) (g : MutexGuard) (value : T)
      → w.phases i ≡ has_read g value
      → Leaves w i
  after_read w i g value at =
      let v = writes w i g (update i value) in
      step_then w v i (wrote i g value none_moved at) (λ j. moves-other w i j (has_written g))
        (after_written v i g (moves-same w i (has_written g)))

  after_entry : (w : World T) (i : ℕ) (g : MutexGuard) → w.phases i ≡ entered g → Leaves w i
  after_entry w i g at =
      let p = has_read g (deref w.mutex g) in
      step_then w (reads w i g) i (read i g none_moved at) (λ j. moves-other w i j p)
        (after_read (reads w i g) i g (deref w.mutex g) (moves-same w i p))

  after_outside : (w : World T) (i : ℕ) → w.phases i ≡ outside → w.held ≡ false → Leaves w i
  after_outside w i at free =
      step_then w (locks w i 0 guard) i (locked i 0 guard none_moved at (rw free K.lock_free) refl)
        (λ j. moves-other w i j (entered guard))
        (after_entry (locks w i 0 guard) i guard (moves-same w i (entered guard)))

  after_guard :
      (w : World T) (i : ℕ) (p : Phase T) → w.phases i ≡ p → has_guard p ≡ true → Leaves w i
  after_guard w i outside at guarded = absurd (ground arith)
  after_guard w i (entered g) at guarded = after_entry w i g at
  after_guard w i (has_read g value) at guarded = after_read w i g value at
  after_guard w i (has_written g) at guarded = after_written w i g at
  after_guard w i left at guarded = absurd (ground arith)

  abbrev pub CanLeave : World T → ℕ → Type 0
  CanLeave w i = (v : World T) × (order : List ℕ) × Run K update w v order × (v.phases i ≡ left)

  Leaves-CanLeave : (w : World T) (i : ℕ) → Leaves w i → CanLeave w i
  Leaves-CanLeave w i (v, order, r, at, _, _) = (v, order, r, at)

  -- One that has not locked yet comes after the one that has the guard.
  second :
      (w : World T) (i j : ℕ) → (j == i) ≡ false → w.phases i ≡ outside → Leaves w j → CanLeave w i
  second w i j other at (v, order, r, _, free, others) =
      let (u, order', r', at', _, _) = after_outside v i (rw (others i other) at) free in
      (u, order' ++ order, continue r r', at')

  can_leave : (w : World T) (i : ℕ) (p : Phase T) → NotJammed w → w.phases i ≡ p → CanLeave w i
  can_leave w i outside unjammed at = elim (Bool-cases w.held) [
    | inr free ↦ Leaves-CanLeave w i (after_outside w i at free)
    | inl held ↦
        let (j, guarded_j) = unjammed held in
        let elsewhere : (j == i) ≡ false = elim (Bool-cases (j == i)) [
          | inr other ↦ other
          | inl same ↦
              let ji : j ≡ i = (==_iff j i).0 same in
              let none_here : has_guard (w.phases j) ≡ false = rw (ji, at) refl in
              absurd (ground arith)
        ] in
        second w i j elsewhere at (after_guard w j (w.phases j) refl guarded_j)
  ]
  can_leave w i (entered g) unjammed at = Leaves-CanLeave w i (after_entry w i g at)
  can_leave w i (has_read g value) unjammed at = Leaves-CanLeave w i (after_read w i g value at)
  can_leave w i (has_written g) unjammed at = Leaves-CanLeave w i (after_written w i g at)
  can_leave w i left unjammed at = (w, [], none_moved, at)

  -- However processes are scheduled that each lock the mutex, read its data, write and let the
  -- guard drop, from a world in which the mutex is free: where no unlock has failed, there are
  -- further steps after which a given process has left.
  pub Run-CanLeave :
      (start w : World T) (order : List ℕ) (r : Run K update start w order)
      → start.held ≡ false
      → Released r
      → (i : ℕ) → CanLeave w i
  Run-CanLeave start w order r free released i =
      can_leave w i (w.phases i) (Run-NotJammed start w order r free released) refl
