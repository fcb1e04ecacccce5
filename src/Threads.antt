-- ===== src/Threads.antt =====
-- Two threads of a test, or the two processes after a fork, that share a state: each is a list of
-- statements, and a statement is a run on the shared state. One that hangs there cannot go on now, and is
-- tried again when the thread is picked next.
pub mod Explore
pub mod Simulate
use shmem_util.Prelude.{
  ◌≡◌, Bool, true, false, not, ◌||◌, List, [], ◌∷◌, Exec, done, panic, hang, if◌then◌else◌,
}

abbrev pub Thread : Type 0 → Type 0
Thread S = List (S → Exec S)

-- what the next statement of a thread comes to
pub data Turn (S : Type 0) : Type 0 where
  ended blocked failed : Turn S
  moved : S → Thread S → Turn S

abbrev pub outcome : {S : Type 0} → Thread S → Exec S → Turn S
outcome rest (done s) = moved s rest
outcome rest panic = failed
outcome rest hang = blocked

unfoldable pub turn : {S : Type 0} → S → Thread S → Turn S
turn s [] = ended
turn s (statement ∷ rest) = outcome rest (statement s)

pub record World (S : Type 0) : Type 0 where
  pub shared : S
  pub parent : Thread S
  pub child : Thread S
  pub panicked : Bool

-- who moves next
pub data Pick : Type 0 where
  parent child : Pick

module _ {S : Type 0} where
  abbrev pub start : S → Thread S → Thread S → World S
  start s p c = record { shared = s; parent = p; child = c; panicked = false }

  abbrev pub parent_turn : World S → Turn S → World S
  parent_turn w ended = w
  parent_turn w blocked = w
  parent_turn w failed = record w { panicked = true }
  parent_turn w (moved s rest) = record w { shared = s; parent = rest }

  abbrev pub child_turn : World S → Turn S → World S
  child_turn w ended = w
  child_turn w blocked = w
  child_turn w failed = record w { panicked = true }
  child_turn w (moved s rest) = record w { shared = s; child = rest }

  -- a statement that waits for the other thread
  abbrev pub waits : (S → Bool) → S → Exec S
  waits come s = if come s then done s else hang

  -- A sleep ends at any time, or, where it is `long`, not before the other thread has come to where it is
  -- expected.
  abbrev pub sleeps : Bool → (S → Bool) → S → Exec S
  sleeps long come = waits (λ s. not long || come s)

  unfoldable pub step : World S → Pick → World S
  step w Pick.parent = parent_turn w (turn w.shared w.parent)
  step w Pick.child = child_turn w (turn w.shared w.child)

  unfoldable pub run : World S → List Pick → World S
  run w [] = w
  run w (pick ∷ picks) = run (step w pick) picks

  -- Some schedule comes to a statement that fails.
  abbrev pub Fails : World S → Type 0
  Fails w = (picks : List Pick) × ((run w picks).panicked ≡ true)
