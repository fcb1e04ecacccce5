-- ===== src/Mutex/Critical.antt =====
-- src/mutex.rs: the guard, in processes that each lock the mutex, read its data, write it and let the
-- guard drop, over a raw mutex whose `pthread_mutex_lock` is a parameter.
pub mod Laws
pub mod Progress
use shmem_util.Prelude.{
  ℕ, ◌+◌, ◌≡◌, ◌≢◌, refl, Bool, true, false, List, [], ◌∷◌, ◌++◌, Exec, done, ◌==◌, if◌then◌else◌,
  arith,
}
use shmem_util.Mutex.{Mutex, MutexGuard, guard, lock}

-- `MutexGuard::drop`, on whether the raw mutex is held: a failure is logged.
unfoldable pub drop_guard : Bool → ℕ → Bool
drop_guard held errno = if errno == 0 then false else held

-- The error numbers that `pthread_mutex_lock` may return with, on a mutex that is held or not: it succeeds
-- on one alone that is not held, and can then succeed.
pub record RawMutex : Type 1 where
  pub lock_answers : Bool → ℕ → Type 0
  pub lock_excludes : (held : Bool) (errno : ℕ) → lock_answers held errno → errno ≡ 0 → held ≡ false
  pub lock_free : lock_answers false 0

-- whether the raw mutex is held after such an answer
abbrev pub taken : Bool → ℕ → Bool
taken held errno = if errno == 0 then true else held

module _ {T : Type 0} where
  -- `Deref` and `DerefMut`
  unfoldable pub deref : Mutex T → MutexGuard → T
  deref m g = m.contents

  unfoldable pub deref_mut : Mutex T → MutexGuard → T → Mutex T
  deref_mut m g value = record m { contents = value }

-- where a process is; with a guard it has read the data, or has written
pub data Phase (T : Type 0) : Type 0 where
  outside : Phase T
  entered : MutexGuard → Phase T
  has_read : MutexGuard → T → Phase T
  has_written : MutexGuard → Phase T
  left : Phase T

pub record World (T : Type 0) : Type 0 where
  pub mutex : Mutex T
  pub held : Bool
  pub phases : ℕ → Phase T

module _ {T : Type 0} where
  abbrev pub moves : World T → ℕ → Phase T → ℕ → Phase T
  moves w i p j = if i == j then p else w.phases j

  -- the world after the process `i` has locked, read, written or left
  abbrev pub locks : World T → ℕ → ℕ → MutexGuard → World T
  locks w i errno g = record w { held = taken w.held errno; phases = moves w i (entered g) }

  abbrev pub reads : World T → ℕ → MutexGuard → World T
  reads w i g = record w { phases = moves w i (has_read g (deref w.mutex g)) }

  abbrev pub writes : World T → ℕ → MutexGuard → T → World T
  writes w i g value = record w {
    mutex = deref_mut w.mutex g value;
    phases = moves w i (has_written g);
  }

  abbrev pub leaves : World T → ℕ → ℕ → World T
  leaves w i errno = record w { held = drop_guard w.held errno; phases = moves w i left }

-- The process `i` writes `update i` of what it has read.
module _ {T : Type 0} (K : RawMutex) (update : ℕ → T → T) where
  -- A run, with the processes that have left, the last one first.
  pub data Run (start : World T) : World T → List ℕ → Type 0 where
    none_moved : Run start start []
    locked :
        {w : World T} {order : List ℕ} (i errno : ℕ) (g : MutexGuard)
        → Run start w order
        → w.phases i ≡ outside
        → K.lock_answers w.held errno
        → lock errno ≡ done g
        → Run start (locks w i errno g) order
    read :
        {w : World T} {order : List ℕ} (i : ℕ) (g : MutexGuard)
        → Run start w order
        → w.phases i ≡ entered g
        → Run start (reads w i g) order
    wrote :
        {w : World T} {order : List ℕ} (i : ℕ) (g : MutexGuard) (value : T)
        → Run start w order
        → w.phases i ≡ has_read g value
        → Run start (writes w i g (update i value)) order
    unlocked :
        {w : World T} {order : List ℕ} (i errno : ℕ) (g : MutexGuard)
        → Run start w order
        → w.phases i ≡ has_written g
        → Run start (leaves w i errno) (i ∷ order)

  -- how many unlocks have failed
  abbrev pub failures : {start w : World T} {order : List ℕ} → Run start w order → ℕ
  failures none_moved = 0
  failures (locked i errno g r at free e) = failures r
  failures (read i g r at) = failures r
  failures (wrote i g value r at) = failures r
  failures (unlocked i errno g r at) = (if errno == 0 then 0 else 1) + failures r

module _ {T : Type 0} (update : ℕ → T → T) where
  -- what the processes would leave one after the other
  abbrev pub replay : T → List ℕ → T
  replay value [] = value
  replay value (i ∷ order) = update i (replay value order)
