-- ===== src/Channel/Line.antt =====
-- src/channel.rs: a channel in an example or a test of two processes. The counts and the flag are those of
-- Channel/Processes, the queue stands beside them, and a call is one statement: it has the lock at once,
-- and it hangs where the code waits. No deadline passes, and the pthread calls do not fail. A call on a
-- channel whose memory is freed is a failure.
pub mod Stages
pub mod Inherited
use shmem_util.Prelude.{
  ℕ, Bool, true, false, Option, none, some, List, [], ◌∷◌, Exec, done, panic, ◌>>=◌, ◌>>◌, expect,
  expect_ok, Result, ok, err, if◌then◌else◌, pos,
}
use shmem_util.External.{DequeOps}
use shmem_util.Mutex.{MutexGuard, guard}
use shmem_util.ProcessRc
use shmem_util.Channel.Handles.{Parts, DropAnswers}
use shmem_util.Channel.Lifetime.{Use}
use shmem_util.Channel.Processes.{Proc, System, uses, advance}
use shmem_util.Channel.Inner.{Sight, Outcome, receive, try_send}
use shmem_util.Channel.Endpoints.{Readings, wait_for_message_timeout}

pub record Line (Q : Type 0) : Type 0 where
  pub handles : System (Unit {0})
  pub queue : Q

-- The broadcasts, the lock and the destructions succeed.
abbrev pub quiet : DropAnswers
quiet = record {
  item_errno = 0;
  space_errno = 0;
  lock = done (some guard);
  mutex_destroy = 0;
  item_destroy = 0;
  space_destroy = 0;
}

abbrev pub made_by : ℕ → Parts (Unit {0})
made_by pid = record {
  mutex = record {
    pshared = true;
    contents = tt;
    creator_pid = pid;
    destroyed = false;
    dropped = false;
  };
  item_maybe_available = record {
    attr = record { pshared = true; monotonic = true };
    creator_pid = pid;
    destroyed = false;
  };
  space_maybe_available = record {
    attr = record { pshared = true; monotonic = true };
    creator_pid = pid;
    destroyed = false;
  };
}

-- a new channel, and the process that has made it
abbrev pub fresh : ℕ → System (Unit {0})
fresh pid = record {
  parts = made_by pid;
  owner = pid;
  senders = 0;
  receivers = 0;
  dropping = false;
  destroyed = false;
  procs =
      (record {
        pid = pid;
        references = ProcessRc.new pid;
        live = record { channels = 1; senders = 0; receivers = 0 };
      })
      ∷ [];
}

-- What a fork does in the process that is the last so far: the child has its handles too, the
-- senders and receivers among them, which are not counted anew.
abbrev pub inherit : ℕ → List Proc → List Proc
inherit child [] = []
inherit child (q ∷ qs) = record q { pid = child } ∷ q ∷ qs

abbrev pub fork_with_handles : {Q : Type 0} → System Q → ℕ → System Q
fork_with_handles s child = record s { procs = inherit child s.procs }

module _ {Q : Type 0} where
  -- the process at that place makes or drops a handle
  abbrev pub handle : ℕ → Use → Line Q → Exec (Line Q)
  handle i u l =
      if l.handles.destroyed
      then panic
      else (do handles ← advance l.handles (uses i u quiet); done (record l { handles = handles }))

  abbrev pub after : Q → Option (Q × Q) → Q
  after queue none = queue
  after queue (some (_, queue')) = queue'

  abbrev pub at_once : Line Q → List (Bool × Option MutexGuard)
  at_once l = (l.handles.dropping, some guard) ∷ []

-- the clock stands still
abbrev pub no_time : Readings
no_time = record { now = 0; std_now = 0; monotonic = record { tv_sec = pos 0; tv_nsec = pos 0 } }

module _ {T : Type 0} (D : DequeOps T) where
  -- what a call sees that looks at that count
  abbrev pub sees : Line D.Deque → ℕ → Sight D
  sees l peers = record {
    dropping = l.handles.dropping;
    lock = some guard;
    first = record { queue = l.queue; peers = peers; dropping = l.handles.dropping };
    wakes = [];
    peers = peers;
    leaving = l.handles.dropping;
    signal_errno = record { item = 0; space = 0 };
  }

  -- `sender.send(item)`, with its `expect` or `unwrap`
  unfoldable pub sends : T → Line D.Deque → Exec (Line D.Deque)
  sends item l = if l.handles.destroyed then panic else (do
    o ← try_send D item (at_once l) (sees l l.handles.receivers)
    _ ← expect_ok o.answer
    done (record l { queue = after l.queue o.touched }))

  -- `receiver.receive()`, with its `expect` or `unwrap`
  unfoldable pub receives : Line D.Deque → Exec (T × Line D.Deque)
  receives l = if l.handles.destroyed then panic else (do
    o ← receive D (at_once l) (sees l l.handles.senders)
    item ← expect o.answer
    done (item, record l { queue = after l.queue o.touched }))

  -- the `None` at which a loop over `receiver.receive()` ends; an item is a failure here
  unfoldable pub receives_none : Line D.Deque → Exec (Line D.Deque)
  receives_none l = if l.handles.destroyed then panic else (do
    o ← receive D (at_once l) (sees l l.handles.senders)
    elim o.answer [ none ↦ done l | some _ ↦ panic ])

  -- `receiver.wait_for_message_timeout(timeout).unwrap()`
  unfoldable pub waits_for_message : ℕ → Line D.Deque → Exec (Line D.Deque)
  waits_for_message timeout l = if l.handles.destroyed then panic else (do
    waited ← wait_for_message_timeout D no_time timeout (sees l l.handles.senders)
    _ ← expect_ok waited
    done l)
