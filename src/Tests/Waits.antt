-- ===== src/Tests/Waits.antt =====
-- Timed locks and waits, with a timed lock that is computed.
use shmem_util.Prelude.{
  ℤ, neg_part, true, false, ◌||◌, leb, ltb, Bool-cases, ℕ, ◌+◌, ◌*◌, ◌≤◌, ◌<◌, ◌≡◌, inl, inr, refl,
  Bool, [], ◌∷◌, none, done, panic, Ends, if◌then◌else◌, pos_part, arith,
}
use shmem_util.Time.{UnixClock, billion}
use shmem_util.Time.Laws.{clock}
use shmem_util.Mutex.{InRange, e_inval, Pthread, e_timedout, try_lock_until}
use shmem_util.Mutex.Laws.{try_lock_until_panics, try_lock_until-gives_up}
use shmem_util.Mutex.{guard}
use shmem_util.Mutex.Critical.{
  RawMutex, Run, locks, reads, writes, leaves, World, deref, deref_mut, drop_guard, outside,
  none_moved, locked, read, wrote, unlocked,
}
use shmem_util.Mutex.Critical.Laws.{Sequential, Run-Sequential}
use shmem_util.Condvar
use shmem_util.Condvar.Laws.{looks, EndsAt, wait_until_internal_lem}

abbrev timed : ℕ → ℕ → UnixClock → ℕ
timed now free_at abstime =
    if leb free_at now
    then 0
    else if ltb 0 (neg_part abstime.tv_nsec) || leb billion (pos_part abstime.tv_nsec)
    then e_inval
    else if ltb free_at (pos_part abstime.tv_sec * billion + pos_part abstime.tv_nsec)
    then 0
    else e_timedout

timed_free : (now free_at : ℕ) (abstime : UnixClock) → free_at ≤ now → timed now free_at abstime ≡ 0
timed_free now free_at abstime h = ground arith

timed_soon :
    (now free_at s m : ℕ)
    → m < billion
    → now < free_at
    → free_at < s * billion + m
    → timed now free_at (clock s m) ≡ 0
timed_soon now free_at s m range held soon = ground arith

timed_late :
    (now free_at s m : ℕ)
    → m < billion
    → now < free_at
    → s * billion + m ≤ free_at
    → timed now free_at (clock s m) ≡ e_timedout
timed_late now free_at s m range held late = ground arith

in_range : (n : ℤ) → leb billion (pos_part n) ≡ false → ltb 0 (neg_part n) ≡ false → InRange n
in_range n h k = (ground arith, ground arith)

timed_invalid :
    (now free_at : ℕ) (abstime : UnixClock)
    → now < free_at
    → ¬ InRange abstime.tv_nsec
    → timed now free_at abstime ≡ e_inval
timed_invalid now free_at abstime held h =
    elim (Bool-cases (ltb 0 (neg_part abstime.tv_nsec) || leb billion (pos_part abstime.tv_nsec))) [
      | inl bad ↦ ground arith
      | inr fine ↦ absurd (h (in_range abstime.tv_nsec (ground arith) (ground arith)))
    ]

abbrev kernel : Pthread
kernel = record {
  timedlock = timed;
  timedlock_free = timed_free;
  timedlock_soon = timed_soon;
  timedlock_late = timed_late;
  timedlock_invalid = timed_invalid;
}

-- up 50 s, at 1000 s of the realtime clock: ten seconds are asked for, and the lock is free at once
try_lock_until-gives_up_example :
    try_lock_until kernel 50_000_000_000
      (clock 50 0)
      1_000_000_000_000
      1_000_000_000_001
      60_000_000_000
    ≡ done none
try_lock_until-gives_up_example =
    try_lock_until-gives_up kernel 50 0 50_000_000_000 1_000_000_000_000 1_000_000_000_001
      60_000_000_000 (omega arith) (omega arith) (omega arith) (omega arith) (omega arith)

abbrev past_two : ℕ → Bool
past_two = ltb 2

wait_until_internal_lem_example :
    Ends
      (Condvar.wait_until_internal past_two 0 ((0, 1) ∷ (e_timedout, 3) ∷ []))
      (EndsAt past_two (looks past_two 0 ((0, 1) ∷ (e_timedout, 3) ∷ [])))
wait_until_internal_lem_example =
    wait_until_internal_lem past_two 0 ((0, 1) ∷ (e_timedout, 3) ∷ []) (inr (refl, inl refl))

abbrev no_clock : Condvar.InitErrno
no_clock = record { attr_init = 0; setpshared = 0; setclock = 22; cond_init = 0 }

-- a deadline that is 0.7 s past, at 10.2 s of the monotonic clock, and a lock that is held
try_lock_until_panics_example :
    try_lock_until kernel 5_700_000_000
      (clock 10 200_000_000)
      1_000_000_000_000
      1_000_000_000_001
      5_000_000_000
    ≡ panic
try_lock_until_panics_example =
    try_lock_until_panics kernel 10 200_000_000 5_700_000_000 1_000_000_000_000 1_000_000_000_001
      5_000_000_000 (omega arith) (omega arith) (omega arith) (omega arith) (omega arith)
      (omega arith) (omega arith)

-- Process 0 adds one and leaves, and process 1 has locked.
abbrev add_one : ℕ → ℕ → ℕ
add_one i value = value + 1

-- a lock that answers 0 where the mutex is free, and does not answer where it is held
abbrev one_at_a_time : RawMutex
one_at_a_time = record {
  lock_answers = λ held errno. (held ≡ false) × (errno ≡ 0);
  lock_excludes = λ held errno answer fine. answer.0;
  lock_free = (refl, refl);
}

abbrev counter : World ℕ
counter = record {
  mutex = record {
    pshared = true;
    contents = 0;
    creator_pid = 7;
    destroyed = false;
    dropped = false;
  };
  held = false;
  phases = λ i. outside;
}

abbrev added : World ℕ
added = leaves (writes (reads (locks counter 0 0 guard) 0 guard) 0 guard 1) 0 0

one_inside : Run one_at_a_time add_one counter (locks added 1 0 guard) (0 ∷ [])
unfolding deref deref_mut drop_guard
one_inside =
    locked 1 0 guard
      (unlocked 0 0 guard
        (wrote 0 guard 0 (read 0 guard (locked 0 0 guard none_moved refl (refl, refl) refl) refl)
          refl)
        refl)
      refl (refl, refl) refl

Run-Sequential_example : Sequential add_one 0 (locks added 1 0 guard) (0 ∷ []) 0
unfolding one_inside
Run-Sequential_example =
    Run-Sequential add_one one_at_a_time counter (locks added 1 0 guard) (0 ∷ []) one_inside
      (λ i. refl) refl
