-- ===== src/Condvar/Spawned.antt =====
-- src/condvar.rs: the test `check_spawn`, statement by statement, in the main thread and the one that it
-- spawns. The pthread calls do not fail, and a wait does not end without a signal. The first sleep of the
-- main thread ends at any time, and the second, where it is `long`, not before the other thread has exited.
pub mod Laws
use shmem_util.Prelude.{
  ℕ, Bool, true, false, [], ◌∷◌, Exec, done, panic, hang, ◌>>=◌, ◌>>◌, ◌==◌, if◌then◌else◌,
}
use shmem_util.Mutex.{guard}
use shmem_util.Mutex.Critical.{deref}
use shmem_util.Mutex.Checks.{parent_pid, fresh, locks, unlocks, reads, adds, exits, drops_mutex}
use shmem_util.Mutex.Checks
use shmem_util.Condvar.{Condvar, signal}
use shmem_util.Condvar
use shmem_util.Threads.{World, start, waits, sleeps}

-- a thread in `Condvar::wait`: with the lock, in `pthread_cond_wait`, or signalled
pub data Wait : Type 0 where
  awake asleep signalled : Wait

-- the mutex with what is counted there, the condition variable, and where the spawned thread waits
pub record Shared : Type 0 where
  pub locked : Checks.Shared ℕ
  pub condvar : Condvar
  pub wait : Wait

abbrev pub made : Shared
made = record {
  locked = fresh 0;
  condvar = record {
    attr = record { pshared = true; monotonic = true };
    creator_pid = parent_pid;
    destroyed = false;
  };
  wait = Wait.awake;
}

-- a statement on the mutex
abbrev pub on_mutex : (Checks.Shared ℕ → Exec (Checks.Shared ℕ)) → Shared → Exec Shared
on_mutex statement s = do locked ← statement s.locked; done (record s { locked = locked })

-- The test of the wait; where it fails the thread gives the lock up and sleeps, in one step.
abbrev pub tests : Shared → Exec Shared
tests s =
    if deref s.locked.mutex guard == 1
    then done s
    else (do locked ← unlocks s.locked; done (record s { locked = locked; wait = Wait.asleep }))

-- Whoever was signalled has the lock before it tests again. That the test then fails is a failure here:
-- the loop of `wait` is not followed for another round.
abbrev pub wakes : Shared → Wait → Exec Shared
wakes s Wait.awake = done s
wakes s Wait.asleep = hang
wakes s Wait.signalled = do
  locked ← locks s.locked
  if deref locked.mutex guard == 1
      then done (record s { locked = locked; wait = Wait.awake })
      else panic

abbrev pub notified : Wait → Wait
notified Wait.awake = Wait.awake
notified Wait.asleep = Wait.signalled
notified Wait.signalled = Wait.signalled

abbrev pub signals : Shared → Exec Shared
signals s = do signal 0; done (record s { wait = notified s.wait })

abbrev pub drops_condvar : Shared → Exec Shared
drops_condvar s = done (record s { condvar = Condvar.drop s.condvar parent_pid 0 })

unfoldable pub check_spawn : Bool → World Shared
check_spawn long =
    start made
      (on_mutex locks
        ∷ on_mutex (reads 0)
        ∷ on_mutex adds
        ∷ signals
        ∷ on_mutex unlocks
        ∷ sleeps long (λ s. s.locked.exited)
        ∷ on_mutex locks
        ∷ on_mutex (reads 2)
        ∷ on_mutex unlocks
        ∷ waits (λ s. s.locked.exited)
        ∷ drops_condvar
        ∷ on_mutex (drops_mutex parent_pid)
        ∷ [])
      (on_mutex locks
        ∷ tests
        ∷ (λ s. wakes s s.wait)
        ∷ on_mutex adds
        ∷ on_mutex unlocks
        ∷ on_mutex exits
        ∷ [])
