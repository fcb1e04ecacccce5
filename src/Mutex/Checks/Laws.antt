-- ===== src/Mutex/Checks/Laws.antt =====
-- The tests pass on every schedule on which their sleeps are long enough.
use shmem_util.Prelude.{ℕ, refl, Bool, true, false, [], ◌∷◌, ◌&&◌, not, ◌==◌}
use shmem_util.Mutex
use shmem_util.Mutex.Critical.{drop_guard, deref, deref_mut}
use shmem_util.Mutex.Checks.{Shared, check_drop, check_spawn, check_fork, check_wait_until}
use shmem_util.Threads.{Fails, Pick, turn, step, run}
use shmem_util.Threads.Explore.{passes, Passes, passes-Passes}

-- The lock is free, and the mutex and its data were dropped once.
abbrev pub cleaned : {T : Type 0} → Shared T → Bool
cleaned s = not s.held && (s.mutex.destroyed && (s.counter == 1))

abbrev pub added : Shared ℕ → Bool
added s = cleaned s && (s.mutex.contents == 1)

check_drop-Passes : Passes cleaned check_drop
unfolding check_drop passes turn drop_guard Mutex.drop
check_drop-Passes = passes-Passes cleaned 20 check_drop refl refl

check_spawn-Passes : Passes added (check_spawn true)
unfolding check_spawn passes turn drop_guard Mutex.drop deref deref_mut
check_spawn-Passes = passes-Passes added 20 (check_spawn true) refl refl

check_fork-Passes : Passes added (check_fork true)
unfolding check_fork passes turn drop_guard Mutex.drop deref deref_mut
check_fork-Passes = passes-Passes added 20 (check_fork true) refl refl

check_wait_until-Passes : Passes added (check_wait_until true true)
unfolding check_wait_until passes turn drop_guard Mutex.drop deref deref_mut
check_wait_until-Passes = passes-Passes added 20 (check_wait_until true true) refl refl

-- The sleep of the parent is too short.
check_spawn-Fails : Fails (check_spawn false)
unfolding check_spawn turn step run drop_guard deref
check_spawn-Fails = (Pick.parent ∷ Pick.parent ∷ Pick.parent ∷ Pick.parent ∷ Pick.parent ∷ [], refl)

-- The sleep of the child is too short.
check_fork-Fails : Fails (check_fork false)
unfolding check_fork turn step run drop_guard deref deref_mut
check_fork-Fails =
    (Pick.child ∷ Pick.child ∷ Pick.child ∷ Pick.child ∷ Pick.parent ∷ Pick.parent ∷ [], refl)

-- The first try of the child finds the lock free.
check_wait_until-Fails : Fails (check_wait_until false true)
unfolding check_wait_until turn step run
check_wait_until-Fails = (Pick.child ∷ Pick.child ∷ [], refl)

-- The second of the second try is over while the parent sleeps.
impatient-Fails : Fails (check_wait_until true false)
unfolding check_wait_until turn step run deref
impatient-Fails = (
  Pick.parent ∷ Pick.parent ∷ Pick.parent ∷ Pick.child ∷ Pick.child ∷ Pick.child ∷ Pick.child ∷ [],
  refl,
)

-- In the test `check_drop`, however the parent and the child are scheduled, no assertion fails,
-- and from there on there is a schedule by which both come to their ends, with the lock free,
-- the mutex destroyed and its data dropped once, although both processes drop the mutex. The
-- same holds of the tests `check_spawn`, `check_fork` and `check_wait_until`, with the number
-- 1, where each sleep lasts until the other is where the test expects it and, in
-- `check_wait_until`, the second of the second try is not over before the lock is free. Where
-- the sleeps end at any time, each of the three has a schedule on which an assertion fails; and
-- where that second is over while the lock is held, `check_wait_until` has one on which the
-- `expect` fails.
pub tests-Passes :
    Passes cleaned check_drop
    × (Passes added (check_spawn true) × Fails (check_spawn false))
    × (Passes added (check_fork true) × Fails (check_fork false))
    × (Passes added (check_wait_until true true)
        × Fails (check_wait_until false true)
        × Fails (check_wait_until true false))
tests-Passes = (
  check_drop-Passes,
  (check_spawn-Passes, check_spawn-Fails),
  (check_fork-Passes, check_fork-Fails),
  (check_wait_until-Passes, check_wait_until-Fails, impatient-Fails),
)
