-- ===== src/Mutex.antt =====
-- src/mutex.rs: a process-shared mutex over pthread calls. The error number that a call returned is
-- an argument; a timed lock asks the interface `Pthread`, which states what POSIX documents.
pub mod Laws
pub mod Critical
pub mod Checks
use shmem_util.Prelude.{
  ℤ, pos_part, neg_part, ℕ, ◌+◌, ◌*◌, ◌≤◌, ◌<◌, ◌≡◌, Bool, true, false, Option, none, some, Exec,
  done, panic, ◌>>=◌, ◌>>◌, ◌==◌, if◌then◌else◌,
}
use shmem_util.Time.{UnixClock, billion, add, from}
use shmem_util.Time.Laws.{clock}

-- the error numbers of Linux
abbrev pub e_busy : ℕ
e_busy = 16

abbrev pub e_inval : ℕ
e_inval = 22

abbrev pub e_timedout : ℕ
e_timedout = 110

-- a number of nanoseconds that a `timespec` may hold
abbrev pub InRange : ℤ → Type 0
InRange n = (neg_part n ≡ 0) × (pos_part n < billion)

-- `pthread_mutex_timedlock` at the time `now` of CLOCK_REALTIME, in nanoseconds, on a mutex that
-- can be had from the time `free_at` on.
pub record Pthread : Type 0 where
  pub timedlock : ℕ → ℕ → UnixClock → ℕ
  pub timedlock_free :
      (now free_at : ℕ) (abstime : UnixClock) → free_at ≤ now → timedlock now free_at abstime ≡ 0
  pub timedlock_soon :
      (now free_at s m : ℕ)
      → m < billion
      → now < free_at
      → free_at < s * billion + m
      → timedlock now free_at (clock s m) ≡ 0
  pub timedlock_late :
      (now free_at s m : ℕ)
      → m < billion
      → now < free_at
      → s * billion + m ≤ free_at
      → timedlock now free_at (clock s m) ≡ e_timedout
  pub timedlock_invalid :
      (now free_at : ℕ) (abstime : UnixClock)
      → now < free_at
      → ¬ InRange abstime.tv_nsec
      → timedlock now free_at abstime ≡ e_inval

-- `pthread_mutexattr_t`
pub record MutexAttr : Type 0 where
  pub pshared : Bool

abbrev pub new_attr : ℕ → Exec MutexAttr
new_attr errno = if errno == 0 then done (record { pshared = false }) else panic

abbrev pub set_shared : MutexAttr → ℕ → Exec MutexAttr
set_shared attr errno = if errno == 0 then done (record attr { pshared = true }) else panic

-- `destroyed` says that the raw mutex is, and `dropped` that the data is.
pub record Mutex (T : Type 0) : Type 0 where
  pub pshared : Bool
  pub contents : T
  pub creator_pid : ℕ
  pub destroyed : Bool
  pub dropped : Bool

-- the answers to the three calls of `Mutex::new`
pub record InitErrno : Type 0 where
  pub attr_init : ℕ
  pub setpshared : ℕ
  pub mutex_init : ℕ

pub data MutexGuard : Type 0 where
  guard : MutexGuard

module _ {T : Type 0} where
  unfoldable pub new : T → ℕ → InitErrno → Exec (Mutex T)
  new contents pid errno = do
    default ← new_attr errno.attr_init
    attr ← set_shared default errno.setpshared
    if errno.mutex_init == 0
        then done (record {
          pshared = attr.pshared;
          contents = contents;
          creator_pid = pid;
          destroyed = false;
          dropped = false;
        })
        else panic

  unfoldable pub drop : Mutex T → ℕ → ℕ → Mutex T
  drop m this_pid errno =
      if m.creator_pid == this_pid
      then (if errno == 0 then record m { destroyed = true; dropped = true } else m)
      else m

abbrev pub lock : ℕ → Exec MutexGuard
lock errno = if errno == 0 then done guard else panic

unfoldable pub try_lock : ℕ → Exec (Option MutexGuard)
try_lock errno =
    if errno == e_busy then done none else if errno == 0 then done (some guard) else panic

module _ (P : Pthread) where
  open P use {timedlock}

  unfoldable pub try_lock_until_internal : ℕ → ℕ → UnixClock → Exec (Option MutexGuard)
  try_lock_until_internal now free_at until =
      let errno = timedlock now free_at until in
      if errno == e_timedout then done none else if errno == 0 then done (some guard) else panic

  -- `realtime` is the reading of CLOCK_REALTIME; the wait starts at `now`.
  unfoldable pub try_lock_for : UnixClock → ℕ → ℕ → ℕ → Exec (Option MutexGuard)
  try_lock_for realtime now free_at duration = do
    until ← add realtime duration
    try_lock_until_internal now free_at until

  -- `std_now` and `monotonic` are the readings that the conversion of the deadline makes.
  unfoldable pub try_lock_until : ℕ → UnixClock → ℕ → ℕ → ℕ → Exec (Option MutexGuard)
  try_lock_until std_now monotonic now free_at until = do
    until' ← from std_now monotonic until
    try_lock_until_internal now free_at until'
