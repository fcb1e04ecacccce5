-- ===== src/Condvar/Forked/Invariant.antt =====
-- What holds of the two processes of the test at any time.
use shmem_util.Prelude.{ℕ, ◌+◌, ◌≤◌, ◌≡◌, refl, Bool, true, List, [], ◌∷◌, if◌then◌else◌, arith}
use shmem_util.Condvar.Forked.{
  Child, Parent, World, woken, has_exited, child_step, parent_step, Pick, step, run,
}

-- whether the child has the lock, is between a failed test and its sleep, sleeps, has passed the test,
-- has written, and has exited, as numbers
pub record ChildAt : Type 0 where
  pub holds : ℕ
  pub going : ℕ
  pub asleep : ℕ
  pub passed : ℕ
  pub wrote : ℕ

abbrev pub child_at : ℕ → ℕ → ℕ → ℕ → ℕ → ChildAt
child_at holds going asleep passed wrote = record {
  holds = holds;
  going = going;
  asleep = asleep;
  passed = passed;
  wrote = wrote;
}

abbrev pub of_child : Child → ChildAt
of_child Child.locks = child_at 0 0 0 0 0
of_child Child.tests = child_at 1 0 0 0 0
of_child Child.goes = child_at 1 1 0 0 0
of_child Child.sleeps = child_at 0 0 1 0 0
of_child Child.adds = child_at 1 0 0 1 0
of_child Child.drops = child_at 1 0 0 1 1
of_child Child.exited = child_at 0 0 0 1 1

-- whether the parent has the lock, has written, has broadcast, has waited for the child, and has
-- panicked
pub record ParentAt : Type 0 where
  pub holds : ℕ
  pub wrote : ℕ
  pub sent : ℕ
  pub joined : ℕ
  pub failed : ℕ

abbrev pub parent_at : ℕ → ℕ → ℕ → ℕ → ℕ → ParentAt
parent_at holds wrote sent joined failed = record {
  holds = holds;
  wrote = wrote;
  sent = sent;
  joined = joined;
  failed = failed;
}

abbrev pub of_parent : Parent → ParentAt
of_parent Parent.locks = parent_at 0 0 0 0 0
of_parent Parent.checks_0 = parent_at 1 0 0 0 0
of_parent Parent.adds = parent_at 1 0 0 0 0
of_parent Parent.drops = parent_at 1 1 0 0 0
of_parent Parent.broadcasts = parent_at 0 1 0 0 0
of_parent Parent.waits = parent_at 0 1 1 0 0
of_parent Parent.locks_again = parent_at 0 1 1 1 0
of_parent Parent.checks_2 = parent_at 1 1 1 1 0
of_parent Parent.finished = parent_at 0 1 1 1 0
of_parent Parent.panicked = parent_at 0 0 0 0 1

-- What holds at any time of the locks, the number `n` and the two processes.
abbrev pub Inv : Bool → Bool → ℕ → ChildAt → Bool → ParentAt → Type 0
Inv child_held parent_held n c exited p =
    ((if child_held then 1 else 0) ≡ c.holds)
    × ((if parent_held then 1 else 0) ≡ p.holds)
    × (n ≡ c.wrote + p.wrote)
    × (c.wrote ≤ c.passed)
    × (c.passed ≤ p.wrote)
    × (p.sent ≤ p.wrote)
    × (p.wrote ≤ 1)
    × (p.joined ≤ (if exited then 1 else 0))
    × (p.failed ≡ 0)

abbrev pub WorldInv : World → Type 0
WorldInv w =
    Inv w.child_held w.parent_held w.number (of_child w.child) (has_exited w.child)
      (of_parent w.parent)

abbrev pub world : Bool → Bool → ℕ → Child → Parent → World
world child_held parent_held n c p = record {
  child_held = child_held;
  parent_held = parent_held;
  number = n;
  child = c;
  parent = p;
}

child_step-Inv :
    (x y : Bool) (n : ℕ) (c : Child) (p : Parent)
    → WorldInv (world x y n c p)
    → WorldInv (child_step (world x y n c p) c)
unfolding child_step
child_step-Inv x y n Child.locks p h = ground arith
child_step-Inv x y n Child.tests p h = ground arith
child_step-Inv x y n Child.goes p h = ground arith
child_step-Inv x y n Child.sleeps p h = h
child_step-Inv x y n Child.adds p h = ground arith
child_step-Inv x y n Child.drops p h = ground arith
child_step-Inv x y n Child.exited p h = h

-- Who is woken sleeps no more, and is as it was otherwise.
pub woken-of_child : (c : Child) → of_child (woken c) ≡ record (of_child c) { asleep = 0 }
woken-of_child Child.locks = refl
woken-of_child Child.tests = refl
woken-of_child Child.goes = refl
woken-of_child Child.sleeps = refl
woken-of_child Child.adds = refl
woken-of_child Child.drops = refl
woken-of_child Child.exited = refl

pub woken-has_exited : (c : Child) → has_exited (woken c) ≡ has_exited c
woken-has_exited Child.locks = refl
woken-has_exited Child.tests = refl
woken-has_exited Child.goes = refl
woken-has_exited Child.sleeps = refl
woken-has_exited Child.adds = refl
woken-has_exited Child.drops = refl
woken-has_exited Child.exited = refl

pub exited-wrote : (c : Child) → has_exited c ≡ true → (of_child c).wrote ≡ 1
exited-wrote Child.locks h = ground arith
exited-wrote Child.tests h = ground arith
exited-wrote Child.goes h = ground arith
exited-wrote Child.sleeps h = ground arith
exited-wrote Child.adds h = ground arith
exited-wrote Child.drops h = refl
exited-wrote Child.exited h = refl

parent_step-Inv :
    (x y : Bool) (n : ℕ) (c : Child) (p : Parent)
    → WorldInv (world x y n c p)
    → WorldInv (parent_step (world x y n c p) p)
unfolding parent_step
parent_step-Inv x y n c Parent.locks h = ground arith
parent_step-Inv x y n c Parent.checks_0 h = ground arith
parent_step-Inv x y n c Parent.adds h = ground arith
parent_step-Inv x y n c Parent.drops h = ground arith
parent_step-Inv x y n c Parent.broadcasts h =
    rw (woken-of_child c, woken-has_exited c) (ground arith)
parent_step-Inv x y n c Parent.waits h = ground arith
parent_step-Inv x y n c Parent.locks_again h = ground arith
parent_step-Inv x y n c Parent.checks_2 h =
    let over : has_exited c ≡ true = ground arith in ground (arith, exited-wrote c over)
parent_step-Inv x y n c Parent.finished h = h
parent_step-Inv x y n c Parent.panicked h = h

pub step-Inv : (w : World) (pick : Pick) → WorldInv w → WorldInv (step w pick)
unfolding step
step-Inv w Pick.child h = child_step-Inv w.child_held w.parent_held w.number w.child w.parent h
step-Inv w Pick.parent h = parent_step-Inv w.child_held w.parent_held w.number w.child w.parent h
step-Inv w Pick.wakes_up h = rw (woken-of_child w.child, woken-has_exited w.child) (ground arith)

pub run-Inv : (w : World) (picks : List Pick) → WorldInv w → WorldInv (run w picks)
unfolding run
run-Inv w [] h = h
run-Inv w (pick ∷ picks) h = run-Inv (step w pick) picks (step-Inv w pick h)
