-- ===== src/Mutex/Checks.antt =====
-- src/mutex.rs: the tests `check_drop`, `check_spawn`, `check_fork` and `check_wait_until`, statement by
-- statement, in two threads or processes. The pthread calls do not fail. `exit` is the end of a child, for
-- which `join` and `waitpid` wait.
pub mod Laws
use shmem_util.Prelude.{
  ℕ, suc, Bool, true, false, not, ◌&&◌, ◌||◌, [], ◌∷◌, Exec, done, panic, hang, ◌>>=◌, ◌>>◌, assert,
  ◌==◌, if◌then◌else◌, add_usize,
}
use shmem_util.Mutex.{Mutex, guard, lock}
use shmem_util.Mutex
use shmem_util.Mutex.Critical.{drop_guard, deref, deref_mut}
use shmem_util.Threads.{World, start, waits, sleeps}

-- What the two share: the mutex, whether somebody has the lock, how often its data was dropped (`Check` adds
-- one there), and how far the two are.
pub record Shared (T : Type 0) : Type 0 where
  pub mutex : Mutex T
  pub held : Bool
  pub counter : ℕ
  pub parent_ready : Bool
  pub child_ready : Bool
  pub exited : Bool

-- the pids of the parent and the child
abbrev pub parent_pid : ℕ
parent_pid = 1

abbrev pub child_pid : ℕ
child_pid = 2

module _ {T : Type 0} where
  -- a mutex that the parent has made
  abbrev pub fresh : T → Shared T
  fresh contents = record {
    mutex = record {
      pshared = true;
      contents = contents;
      creator_pid = parent_pid;
      destroyed = false;
      dropped = false;
    };
    held = false;
    counter = 0;
    parent_ready = false;
    child_ready = false;
    exited = false;
  }

  abbrev pub locks : Shared T → Exec (Shared T)
  locks s = if s.held then hang else (do _ ← lock 0; done (record s { held = true }))

  abbrev pub unlocks : Shared T → Exec (Shared T)
  unlocks s = done (record s { held = drop_guard s.held 0 })

  -- `mutex.try_lock_for(Duration::from_nanos(1)).is_none()`: it gives up just where the lock is held
  abbrev pub fails_to_lock : Shared T → Exec (Shared T)
  fails_to_lock s = do assert s.held; done s

  -- `mutex.try_lock_for(Duration::from_secs(1)).expect(..)`: where the lock is held, it waits, or, if it is
  -- not `patient`, its second is over
  abbrev pub locks_in_time : Bool → Shared T → Exec (Shared T)
  locks_in_time patient s = if s.held && not patient then panic else locks s

  abbrev pub counted : ℕ → Shared T → Exec (Shared T)
  counted n s = do assert (s.counter == n); done s

  abbrev pub drops_mutex : ℕ → Shared T → Exec (Shared T)
  drops_mutex pid s =
      let mutex = Mutex.drop s.mutex pid 0 in
      done (record s {
        mutex = mutex;
        counter = if mutex.dropped && not s.mutex.dropped then suc s.counter else s.counter;
      })

  abbrev pub parent_comes : Shared T → Exec (Shared T)
  parent_comes s = done (record s { parent_ready = true })

  abbrev pub child_comes : Shared T → Exec (Shared T)
  child_comes s = done (record s { child_ready = true })

  abbrev pub exits : Shared T → Exec (Shared T)
  exits s = done (record s { exited = true })

abbrev pub reads : ℕ → Shared ℕ → Exec (Shared ℕ)
reads n s = do assert (deref s.mutex guard == n); done s

abbrev pub adds : Shared ℕ → Exec (Shared ℕ)
adds s = done (record s { mutex = deref_mut s.mutex guard (add_usize (deref s.mutex guard) 1) })

-- The counter is what the guard gives access to.
unfoldable pub check_drop : World (Shared (Unit {0}))
check_drop =
    start (fresh tt)
      (locks
        ∷ counted 0
        ∷ unlocks
        ∷ waits (λ s. s.exited)
        ∷ locks
        ∷ counted 0
        ∷ unlocks
        ∷ drops_mutex parent_pid
        ∷ counted 1
        ∷ [])
      (locks ∷ counted 0 ∷ unlocks ∷ drops_mutex child_pid ∷ exits ∷ [])

-- The parent has the lock when it spawns the thread; the mutex goes with the last `Arc`.
unfoldable pub check_spawn : Bool → World (Shared ℕ)
check_spawn long =
    start (record (fresh 0) { held = true })
      (reads 0
        ∷ unlocks
        ∷ sleeps long (λ s. s.exited)
        ∷ locks
        ∷ reads 1
        ∷ waits (λ s. s.exited)
        ∷ unlocks
        ∷ drops_mutex parent_pid
        ∷ [])
      (locks ∷ adds ∷ unlocks ∷ exits ∷ [])

unfoldable pub check_fork : Bool → World (Shared ℕ)
check_fork long =
    start (fresh 0)
      (locks
        ∷ reads 0
        ∷ unlocks
        ∷ parent_comes
        ∷ sleeps long (λ s. s.exited)
        ∷ locks
        ∷ reads 1
        ∷ waits (λ s. s.exited)
        ∷ unlocks
        ∷ drops_mutex parent_pid
        ∷ [])
      (sleeps long (λ s. s.parent_ready)
        ∷ locks
        ∷ adds
        ∷ unlocks
        ∷ drops_mutex child_pid
        ∷ exits
        ∷ [])

-- Where the child is `patient`, its second try is not over before it has come to the lock.
unfoldable pub check_wait_until : Bool → Bool → World (Shared ℕ)
check_wait_until long patient =
    start (fresh 0)
      (locks
        ∷ reads 0
        ∷ parent_comes
        ∷ sleeps long (λ s. s.child_ready)
        ∷ unlocks
        ∷ waits (λ s. s.exited)
        ∷ locks
        ∷ reads 1
        ∷ unlocks
        ∷ drops_mutex parent_pid
        ∷ [])
      (sleeps long (λ s. s.parent_ready)
        ∷ fails_to_lock
        ∷ child_comes
        ∷ locks_in_time patient
        ∷ adds
        ∷ unlocks
        ∷ drops_mutex child_pid
        ∷ exits
        ∷ [])
