-- ===== src/Mutex/Laws.antt =====
-- When the timed locks succeed.
use shmem_util.Prelude.{
  false, panic, ◌%◌, sub_ℕ, ℕ, ◌+◌, ◌-◌, ◌*◌, ◌/◌, ◌≤◌, ◌<◌, ◌≡◌, ◌⊎◌, inl, inr, true, refl, Option,
  none, some, done, Ends, leb, i64_max, arith,
}
use native.Mathlib.Decide.{dec_lt}
use shmem_util.Time.{billion, from}
use shmem_util.Time.Laws.{clock, add_lem, sub_borrow}
use shmem_util.Mutex.{
  Pthread, MutexGuard, guard, try_lock_until_internal, try_lock_for, try_lock_until,
}

module _ (P : Pthread) where
  -- the answer of a timed lock whose deadline is `deadline` on the clock that it is measured by
  abbrev pub Answer : ℕ → ℕ → ℕ → Option MutexGuard → Type 0
  Answer now free_at deadline r =
      (r ≡ some guard) × ((free_at ≤ now) ⊎ (free_at < deadline))
      ⊎ (r ≡ none) × (now < free_at) × (deadline ≤ free_at)

  internal-Answer :
      (now free_at s m : ℕ)
      → m < billion
      → Ends
          (try_lock_until_internal P now free_at (clock s m))
          (Answer now free_at (s * billion + m))
  unfolding try_lock_until_internal
  internal-Answer now free_at s m range = elim (dec_lt now free_at) [
    | yes held ↦ elim (dec_lt free_at (s * billion + m)) [
      | yes soon ↦ (
        some guard,
        rw (P.timedlock_soon now free_at s m range held soon) refl,
        inl (refl, inr soon),
      )
      | no late ↦ (
        none,
        rw (P.timedlock_late now free_at s m range held (omega arith)) refl,
        inr (refl, held, omega arith),
      )
    ]
    | no free ↦ (
      some guard,
      rw (P.timedlock_free now free_at (clock s m) (omega arith)) refl,
      inl (refl, inl (omega arith)),
    )
  ]

  -- With a reading of the realtime clock in range and a duration that does not overflow the
  -- seconds, `try_lock_for` ends without a panic. It gets the lock where the lock is free at
  -- once or free before the reading later by the duration, and gives up where it is held at the
  -- start and until then.
  pub try_lock_for-Answer :
      (s m now free_at duration : ℕ)
      → m < billion
      → s + duration / billion + 1 < i64_max
      → Ends
          (try_lock_for P (clock s m) now free_at duration)
          (Answer now free_at (s * billion + m + duration))
  unfolding try_lock_for
  try_lock_for-Answer s m now free_at duration range small =
      let (c, e, (s', m', k, r, t)) = add_lem s m duration range small in
      let (o, run, a) = internal-Answer now free_at s' m' r in (o, rw (e, k) run, rw (← t) a)

  -- `try_lock_until` gives up a lock that is held, whenever it is released, where the monotonic
  -- reading with the time left to the deadline added is not past the time of the realtime
  -- clock; the reading is in range, the deadline ahead of its own reading, and the seconds do
  -- not overflow.
  pub try_lock_until-gives_up :
      (s m std_now now free_at until : ℕ)
      → m < billion
      → s + (until - std_now) / billion + 1 < i64_max
      → std_now ≤ until
      → now < free_at
      → s * billion + m + (until - std_now) ≤ now
      → try_lock_until P std_now (clock s m) now free_at until ≡ done none
  unfolding try_lock_until from
  try_lock_until-gives_up s m std_now now free_at until range small ahead held behind =
      let later : leb std_now until ≡ true = ground arith in
      let (c, e, (s', m', k, r, t)) = add_lem s m (until - std_now) range small in
      let (o, run, a) = internal-Answer now free_at s' m' r in rw (later, e, k, run) (ground arith)

  -- `try_lock_until` panics on a lock that is held, where the deadline is past by a duration
  -- whose part below a second is at least the reading's nanoseconds, and less than a second
  -- with them: the reading is in range, and the deadline is not before its zero.
  pub try_lock_until_panics :
      (s m std_now now free_at until : ℕ)
      → m < billion
      → s < i64_max
      → until < std_now
      → std_now - until ≤ s * billion + m
      → m ≤ (std_now - until) % billion
      → m + (std_now - until) % billion < billion
      → now < free_at
      → try_lock_until P std_now (clock s m) now free_at until ≡ panic
  unfolding try_lock_until from try_lock_until_internal
  try_lock_until_panics s m std_now now free_at until range small past le borrow low held =
      let later : leb std_now until ≡ false = ground arith in
      let d = std_now - until in
      let invalid =
        P.timedlock_invalid now free_at
          (record { tv_sec = sub_ℕ s (d / billion + 1); tv_nsec = sub_ℕ (m + d % billion) billion })
          held (λ h. ground arith) in
      rw (later, sub_borrow s m d range small le borrow, try_lock_until_internal, invalid) refl
