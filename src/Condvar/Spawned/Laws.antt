-- ===== src/Condvar/Spawned/Laws.antt =====
-- The test passes on every schedule on which its second sleep is long enough.
use shmem_util.Prelude.{◌≢◌, ◌⊎◌, List, All, refl, Bool, true, false, [], ◌∷◌, ◌&&◌, ◌==◌}
use shmem_util.Mutex
use shmem_util.Mutex.Critical.{drop_guard, deref, deref_mut}
use shmem_util.Mutex.Checks.Laws.{cleaned}
use shmem_util.Condvar
use shmem_util.Condvar.Forked
use shmem_util.Condvar.Forked.{Parent, forked}
use shmem_util.Condvar.Forked.Laws.{
  OnItsOwn, CanFinish, Missed, Hangs, check_fork-CanFinish, check_fork-Hangs,
}
use shmem_util.Condvar.Spawned.{Shared, check_spawn}
use shmem_util.Threads.{Fails, Pick, turn, step, run}
use shmem_util.Threads.Explore.{passes, Passes, passes-Passes}

-- The number is 2, the lock is free, and both objects are destroyed.
abbrev pub over : Shared → Bool
over s = (s.locked.mutex.contents == 2) && (cleaned s.locked && s.condvar.destroyed)

check_spawn-Passes : Passes over (check_spawn true) × Fails (check_spawn false)
unfolding check_spawn passes turn step run drop_guard Mutex.drop Condvar.drop deref deref_mut
check_spawn-Passes = (
  passes-Passes over 20 (check_spawn true) refl refl,
  (
    Pick.parent ∷ Pick.parent ∷ Pick.parent ∷ Pick.parent ∷ Pick.parent ∷ Pick.parent ∷ Pick.parent
        ∷ Pick.parent ∷ [],
    refl,
  ),
)

-- In the test `check_fork`, after the fork of which each process has a mutex of its own:
-- however the two processes are scheduled, and even where the wait of the child ends without a
-- signal, no assertion of the parent fails, and then there is a schedule without such wake-ups
-- by which both come to their ends, with the number 2, or the broadcast is past and the child
-- still goes to sleep or sleeps. And there is a schedule without such wake-ups after which the
-- child sleeps, the parent waits for it, and nothing moves them but such a wake-up. In the test
-- `check_spawn`, where a wait ends only when it is signalled and the second sleep lasts until
-- the spawned thread is done: however the two threads are scheduled, no assertion fails, and
-- from there on there is a schedule by which both come to their ends, with the number 2, the
-- lock free, and the mutex and the condition variable destroyed; where the second sleep ends at
-- any time, some schedule comes to an assertion that fails.
pub check_fork-check_spawn :
    ((picks : List Forked.Pick)
      → ((Forked.run forked picks).parent ≢ Parent.panicked)
        × (CanFinish (Forked.run forked picks) ⊎ Missed (Forked.run forked picks)))
    × ((picks : List Forked.Pick) × All OnItsOwn picks × Hangs (Forked.run forked picks))
    × (Passes over (check_spawn true) × Fails (check_spawn false))
check_fork-check_spawn = (check_fork-CanFinish, check_fork-Hangs, check_spawn-Passes)
