-- ===== src/Channel/Simple.antt =====
-- examples/simple.rs, statement by statement: the parent waits for a message of the child that it has
-- forked, receives it, and checks that it is the pid of the child. The sleeps at the ends of both can
-- take any time, and have no statement of their own.
pub mod Laws
use shmem_util.Prelude.{
  ℕ, Bool, true, false, Option, none, some, [], ◌∷◌, Exec, done, ◌>>=◌, ◌>>◌, assert, ◌==◌,
}
use shmem_util.External.{DequeOps}
use shmem_util.Time.{billion}
use shmem_util.Channel.Lifetime.{
  Use, makes_sender, makes_receiver, drops_sender, drops_receiver, drops_channel,
}
use shmem_util.Channel.Processes.{System}
use shmem_util.Channel.Line.{
  Line, fresh, fork_with_handles, handle, sends, receives, waits_for_message,
}
use shmem_util.Threads.{World, start, waits}

abbrev pub parent_pid : ℕ
parent_pid = 1

abbrev pub child_pid : ℕ
child_pid = 2

-- the channel, what the parent has received, and whether the child has exited
pub record Shared (Q : Type 0) : Type 0 where
  pub line : Line Q
  pub got : Option ℕ
  pub exited : Bool

-- the place of the child and that of the parent among the processes
abbrev pub child_at : ℕ
child_at = 0

abbrev pub parent_at : ℕ
parent_at = 1

abbrev pub is_child : Option ℕ → Bool
is_child none = false
is_child (some x) = x == child_pid

module _ {Q : Type 0} where
  abbrev pub on_line : (Line Q → Exec (Line Q)) → Shared Q → Exec (Shared Q)
  on_line call s = do line ← call s.line; done (record s { line = line })

  abbrev pub into_x : (Line Q → Exec (ℕ × Line Q)) → Shared Q → Exec (Shared Q)
  into_x call s = do (x, line) ← call s.line; done (record s { line = line; got = some x })

  abbrev pub checks_x : Shared Q → Exec (Shared Q)
  checks_x s = do assert (is_child s.got); done s

  abbrev pub waitpid : Shared Q → Exec (Shared Q)
  waitpid = waits (λ s. s.exited)

  abbrev pub exits : Shared Q → Exec (Shared Q)
  exits s = done (record s { exited = true })

  -- with `make_receiver` before the fork
  abbrev pub forked : Q → Exec (Shared Q)
  forked queue = do
    line ← handle 0 makes_receiver (record { handles = fresh parent_pid; queue = queue })
    done (record {
      line = record line { handles = fork_with_handles line.handles child_pid };
      got = none;
      exited = false;
    })

module _ (D : DequeOps ℕ) where
  -- each with the drops of its handles, in the order in which they go out of scope
  unfoldable pub main : D.Deque → Exec (World (Shared D.Deque))
  main queue = do
    shared ← forked queue
    done (
        start shared
          (on_line (waits_for_message D billion)
            ∷ into_x (receives D)
            ∷ checks_x
            ∷ waitpid
            ∷ on_line (handle parent_at drops_receiver)
            ∷ on_line (handle parent_at drops_channel)
            ∷ [])
          (on_line (handle child_at makes_sender)
            ∷ on_line (sends D child_pid)
            ∷ on_line (handle child_at drops_sender)
            ∷ on_line (handle child_at drops_receiver)
            ∷ on_line (handle child_at drops_channel)
            ∷ exits
            ∷ []))
