-- ===== src/Condvar.antt =====
-- src/condvar.rs: a process-shared condition variable. What a waiting caller sees is its trace: for
-- each return of the pthread call the error number and what the caller's test then looks at. A trace
-- that ends too early leaves the caller waiting (`hang`).
pub mod Laws
pub mod Forked
pub mod Spawned
pub mod Timeout
use shmem_util.Prelude.{
  ℕ, Bool, true, false, List, [], ◌∷◌, Exec, done, panic, hang, ◌>>=◌, Result, ok, err, ◌==◌,
  if◌then◌else◌,
}
use shmem_util.Mutex.{e_timedout}
use shmem_util.Time.{UnixClock, add, from}

-- the error numbers of the calls of `Condvar::new`
pub record InitErrno : Type 0 where
  pub attr_init : ℕ
  pub setpshared : ℕ
  pub setclock : ℕ
  pub cond_init : ℕ

pub record CondAttr : Type 0 where
  pub pshared : Bool
  pub monotonic : Bool

pub record Condvar : Type 0 where
  pub attr : CondAttr
  pub creator_pid : ℕ
  pub destroyed : Bool

abbrev pub new_attr : ℕ → Exec CondAttr
new_attr errno = if errno == 0 then done (record { pshared = false; monotonic = false }) else panic

abbrev pub set_shared : CondAttr → ℕ → Exec CondAttr
set_shared attr errno = if errno == 0 then done (record attr { pshared = true }) else panic

abbrev pub set_monotonic_clock : CondAttr → ℕ → Exec CondAttr
set_monotonic_clock attr errno =
    if errno == 0 then done (record attr { monotonic = true }) else panic

unfoldable pub new : ℕ → InitErrno → Exec Condvar
new pid errno = do
  plain ← new_attr errno.attr_init
  shared ← set_shared plain errno.setpshared
  attr ← set_monotonic_clock shared errno.setclock
  if errno.cond_init == 0
      then done (record { attr = attr; creator_pid = pid; destroyed = false })
      else panic

-- `signal` and `broadcast` wake some waiter or all of them, and panic on an error.
abbrev pub signal : ℕ → Exec (Unit {0})
signal errno = if errno == 0 then done tt else panic

abbrev pub broadcast : ℕ → Exec (Unit {0})
broadcast errno = if errno == 0 then done tt else panic

unfoldable pub drop : Condvar → ℕ → ℕ → Condvar
drop c this_pid errno =
    if c.creator_pid == this_pid
    then (if errno == 0 then record c { destroyed = true } else c)
    else c

module _ {V : Type 0} (is_ready : V → Bool) where
  -- `pthread_cond_wait` in a loop
  unfoldable pub wait : V → List (ℕ × V) → Exec V
  wait v [] = if is_ready v then done v else hang
  wait v ((errno, v') ∷ wakes) =
      let again = wait v' wakes in
      if is_ready v then done v else if errno == 0 then again else panic

  -- `pthread_cond_timedwait` in a loop: a timeout is final, unless the test passes after all.
  unfoldable pub wait_until_internal : V → List (ℕ × V) → Exec (Result V V)
  wait_until_internal v [] = if is_ready v then done (ok v) else hang
  wait_until_internal v ((errno, v') ∷ wakes) =
      let again = wait_until_internal v' wakes in
      if is_ready v
      then done (ok v)
      else if errno == e_timedout
      then (if is_ready v' then done (ok v') else done (err v'))
      else if errno == 0
      then again
      else panic

  -- The deadlines of `wait_for` and `wait_until` can panic before the wait begins.
  unfoldable pub wait_for : UnixClock → ℕ → V → List (ℕ × V) → Exec (Result V V)
  wait_for monotonic timeout v wakes = do _ ← add monotonic timeout; wait_until_internal v wakes

  unfoldable pub wait_until : ℕ → UnixClock → ℕ → V → List (ℕ × V) → Exec (Result V V)
  wait_until std_now monotonic until v wakes = do
    _ ← from std_now monotonic until
    wait_until_internal v wakes
