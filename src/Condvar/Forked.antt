-- ===== src/Condvar/Forked.antt =====
-- src/condvar.rs: the test `check_fork`, statement by statement, in two processes that share a number and a
-- condition variable. The mutex is a variable on the stack of the test: after the fork each process has its
-- own, and its lock keeps nobody out. A schedule picks who moves next; one that cannot move stays. The pthread
-- calls do not fail; a wait may also end without a signal, and takes the lock again when it ends.
pub mod Invariant
pub mod Laws
use shmem_util.Prelude.{ℕ, Bool, true, false, List, [], ◌∷◌, ◌==◌, if◌then◌else◌, add_usize}

-- The child locks, tests the number, goes to sleep and sleeps while it is not 1; then it adds to it, lets
-- the guard drop, and exits.
pub data Child : Type 0 where
  locks tests goes sleeps adds drops exited : Child

-- The parent locks, asserts that the number is 0, adds to it, drops the guard, broadcasts and waits for
-- the child; then it locks again and asserts that the number is 2.
pub data Parent : Type 0 where
  locks checks_0 adds drops broadcasts waits locks_again checks_2 finished panicked : Parent

-- the number, and whether each process has its own mutex
pub record World : Type 0 where
  pub child_held : Bool
  pub parent_held : Bool
  pub number : ℕ
  pub child : Child
  pub parent : Parent

-- both right after the fork
abbrev pub forked : World
forked = record {
  child_held = false;
  parent_held = false;
  number = 0;
  child = Child.locks;
  parent = Parent.locks;
}

-- what a broadcast, or nothing at all, does to one that sleeps
abbrev pub woken : Child → Child
woken Child.locks = Child.locks
woken Child.tests = Child.tests
woken Child.goes = Child.goes
woken Child.sleeps = Child.locks
woken Child.adds = Child.adds
woken Child.drops = Child.drops
woken Child.exited = Child.exited

-- `waitpid` returns
abbrev pub has_exited : Child → Bool
has_exited Child.locks = false
has_exited Child.tests = false
has_exited Child.goes = false
has_exited Child.sleeps = false
has_exited Child.adds = false
has_exited Child.drops = false
has_exited Child.exited = true

unfoldable pub child_step : World → Child → World
child_step w Child.locks =
    if w.child_held then w else record w { child_held = true; child = Child.tests }
child_step w Child.tests = record w { child = if w.number == 1 then Child.adds else Child.goes }
child_step w Child.goes = record w { child_held = false; child = Child.sleeps }
child_step w Child.sleeps = w
child_step w Child.adds = record w { number = add_usize w.number 1; child = Child.drops }
child_step w Child.drops = record w { child_held = false; child = Child.exited }
child_step w Child.exited = w

unfoldable pub parent_step : World → Parent → World
parent_step w Parent.locks =
    if w.parent_held then w else record w { parent_held = true; parent = Parent.checks_0 }
parent_step w Parent.checks_0 =
    if w.number == 0
    then record w { parent = Parent.adds }
    else record w { parent_held = false; parent = Parent.panicked }
parent_step w Parent.adds = record w { number = add_usize w.number 1; parent = Parent.drops }
parent_step w Parent.drops = record w { parent_held = false; parent = Parent.broadcasts }
parent_step w Parent.broadcasts = record w { child = woken w.child; parent = Parent.waits }
parent_step w Parent.waits =
    if has_exited w.child then record w { parent = Parent.locks_again } else w
parent_step w Parent.locks_again =
    if w.parent_held then w else record w { parent_held = true; parent = Parent.checks_2 }
parent_step w Parent.checks_2 = record w {
  parent_held = false;
  parent = if w.number == 2 then Parent.finished else Parent.panicked;
}
parent_step w Parent.finished = w
parent_step w Parent.panicked = w

-- who moves next, or a wake-up without a signal
pub data Pick : Type 0 where
  child parent wakes_up : Pick

unfoldable pub step : World → Pick → World
step w Pick.child = child_step w w.child
step w Pick.parent = parent_step w w.parent
step w Pick.wakes_up = record w { child = woken w.child }

unfoldable pub run : World → List Pick → World
run w [] = w
run w (pick ∷ picks) = run (step w pick) picks
