-- ===== src/Channel/Processes.antt =====
-- A channel of src/channel.rs among several processes: they share the counts and the flag, and each has
-- the reference counter that it got from its parent.
pub mod Local
pub mod Dropping
pub mod Serving
pub mod Counted
pub mod Counts
pub mod Destroyed
pub mod Moved
use shmem_util.Prelude.{
  ℕ, ◌+◌, Bool, Option, none, some, List, [], ◌∷◌, Exec, done, panic, ◌>>=◌, ◌==◌, if◌then◌else◌,
  get_elem?, set,
}
use shmem_util.ProcessRc.{PerProcessReferences}
use shmem_util.Channel.Handles.{Channel, Parts, DropAnswers}
use shmem_util.Channel.Lifetime.{Live, Use, used, serve}

-- A process, with the handles that it has made and not dropped.
pub record Proc : Type 0 where
  pub pid : ℕ
  pub references : PerProcessReferences
  pub live : Live

pub record System (Q : Type 0) : Type 0 where
  pub parts : Parts Q
  pub owner : ℕ
  pub senders : ℕ
  pub receivers : ℕ
  pub dropping : Bool
  pub destroyed : Bool
  pub procs : List Proc

-- A process uses its handles, or forks a child with that pid.
pub data Step : Type 0 where
  uses : ℕ → Use → DropAnswers → Step
  forks : ℕ → ℕ → Step

abbrev pub who : Step → ℕ
who (uses i u a) = i
who (forks i child) = i

module _ {Q : Type 0} where
  -- what the process reaches through its handles
  abbrev pub view : System Q → Proc → Channel Q
  view s q = record {
    parts = s.parts;
    references = q.references;
    original_pid = s.owner;
    senders = s.senders;
    receivers = s.receivers;
    dropping = s.dropping;
    destroyed = s.destroyed;
  }

  abbrev pub store : System Q → ℕ → Proc → Channel Q → Live → System Q
  store s i q c l = record s {
    parts = c.parts;
    senders = c.senders;
    receivers = c.receivers;
    dropping = c.dropping;
    destroyed = c.destroyed;
    procs = set s.procs i (record q { references = c.references; live = l });
  }

  -- a use that leaves those live handles, and none where the handle is missing
  abbrev pub use_by : System Q → ℕ → Proc → Use → DropAnswers → Option Live → Exec (System Q)
  use_by s i q u a none = done s
  use_by s i q u a (some l) = do c ← serve q.pid (view s q) u a; done (store s i q c l)

  -- Only a process without senders and receivers forks: those must not be used in another process.
  abbrev pub fork_by : System Q → Proc → ℕ → Exec (System Q)
  fork_by s q child =
      if q.live.senders + q.live.receivers == 0
      then done (record s { procs = record q { pid = child } ∷ s.procs })
      else done s

  abbrev pub step_by : System Q → Step → Option Proc → Exec (System Q)
  step_by s x none = done s
  step_by s (uses i u a) (some q) = use_by s i q u a (used q.live u)
  step_by s (forks i child) (some q) = fork_by s q child

  -- Once the memory is freed, a step would be one with freed memory, and is taken as a failure.
  unfoldable pub advance : System Q → Step → Exec (System Q)
  advance s x = if s.destroyed then panic else step_by s x (get_elem? s.procs (who x))

  unfoldable pub run : System Q → List Step → Exec (System Q)
  run s [] = done s
  run s (x ∷ xs) = do s' ← advance s x; run s' xs
