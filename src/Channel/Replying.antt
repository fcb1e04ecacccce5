-- ===== src/Channel/Replying.antt =====
-- src/channel.rs: the test `check`, statement by statement. The child makes a channel for the reply and
-- sends its sender to the parent, through a channel of senders; the parent replies through it. The second
-- sleep of the parent can take any time, and has no statement.
pub mod Staged
pub mod Laws
use shmem_util.Prelude.{
  ℕ, ◌-◌, suc, Bool, true, false, not, Option, none, some, List, [], ◌∷◌, Exec, done, panic, ◌>>=◌,
  ◌>>◌, assert, ◌==◌, map, if◌then◌else◌,
}
use shmem_util.External.{DequeOps}
use shmem_util.Channel.Lifetime.{
  Live, Use, makes_sender, makes_receiver, drops_sender, drops_receiver, drops_channel,
}
use shmem_util.Channel.Processes.{Proc, System}
use shmem_util.Channel.Processes.Moved.{gives, gets}
use shmem_util.Channel.Line.{Line, fresh, fork_with_handles, handle, sends, receives}
use shmem_util.Threads.{World, start, waits, sleeps}

abbrev pub parent_pid : ℕ
parent_pid = 1

abbrev pub child_pid : ℕ
child_pid = 2

-- the place of the child and that of the parent among the processes, in both channels
abbrev pub child_at : ℕ
child_at = 0

abbrev pub parent_at : ℕ
parent_at = 1

-- A sender is told by the number of its channel: this is the one of the channel for the reply.
abbrev pub reply_sender : ℕ
reply_sender = 1

-- The channel of senders, the one for the reply, what has come from each, and whether the child has exited.
pub record Shared (Q R : Type 0) : Type 0 where
  pub channel : Line Q
  pub reply_channel : Line R
  pub got_sender : Option ℕ
  pub reply : Option ℕ
  pub exited : Bool

-- The channel of the child, of which the parent has nothing; its counter there is never read.
abbrev pub of_child : System (Unit {0})
of_child = record (fresh child_pid) {
  procs =
      (record {
        pid = child_pid;
        references = record { counter = 1; pid = child_pid };
        live = record { channels = 1; senders = 0; receivers = 0 };
      })
      ∷ (record {
        pid = parent_pid;
        references = record { counter = 0; pid = child_pid };
        live = record { channels = 0; senders = 0; receivers = 0 };
      })
      ∷ [];
}

-- The sender leaves the hands of the child, or comes into those of the parent.
abbrev pub given : List Proc → List Proc
given [] = []
given (child ∷ others) = gives child ∷ others

abbrev pub gotten : List Proc → List Proc
gotten [] = []
gotten (child ∷ others) = child ∷ map gets others

abbrev pub is_some : Option ℕ → ℕ → Bool
is_some none n = false
is_some (some x) n = x == n

module _ {Q R : Type 0} where
  abbrev pub on_channel : (Line Q → Exec (Line Q)) → Shared Q R → Exec (Shared Q R)
  on_channel call s = do channel ← call s.channel; done (record s { channel = channel })

  abbrev pub on_reply_channel : (Line R → Exec (Line R)) → Shared Q R → Exec (Shared Q R)
  on_reply_channel call s = do
    reply_channel ← call s.reply_channel
    done (record s { reply_channel = reply_channel })

  -- The sender goes into the channel, and out of the hands of the child.
  abbrev pub sends_sender : (Line Q → Exec (Line Q)) → Shared Q R → Exec (Shared Q R)
  sends_sender call s = do
    channel ← call s.channel
    done (record s {
      channel = channel;
      reply_channel = record s.reply_channel {
        handles = record s.reply_channel.handles { procs = given s.reply_channel.handles.procs };
      };
    })

  abbrev pub gets_sender : (Line Q → Exec (ℕ × Line Q)) → Shared Q R → Exec (Shared Q R)
  gets_sender call s = do
    (x, channel) ← call s.channel
    done (record s {
      channel = channel;
      got_sender = some x;
      reply_channel = record s.reply_channel {
        handles = record s.reply_channel.handles { procs = gotten s.reply_channel.handles.procs };
      };
    })

  abbrev pub gets_reply : (Line R → Exec (ℕ × Line R)) → Shared Q R → Exec (Shared Q R)
  gets_reply call s = do
    (x, reply_channel) ← call s.reply_channel
    done (record s { reply_channel = reply_channel; reply = some x })

  -- What came is the sender through which the parent then replies.
  abbrev pub has_sender : Shared Q R → Exec (Shared Q R)
  has_sender s = do assert (is_some s.got_sender reply_sender); done s

  abbrev pub checks_reply : Shared Q R → Exec (Shared Q R)
  checks_reply s = do assert (is_some s.reply 1); done s

  abbrev pub waitpid : Shared Q R → Exec (Shared Q R)
  waitpid = waits (λ s. s.exited)

  abbrev pub exits : Shared Q R → Exec (Shared Q R)
  exits s = done (record s { exited = true })

  -- the sleep in which the child is to make its sender
  abbrev pub sleeps_first : Bool → Shared Q R → Exec (Shared Q R)
  sleeps_first long = sleeps long (λ s. not (s.channel.handles.senders == 0))

  -- with `make_receiver` before the fork
  abbrev pub forked : Q → R → Exec (Shared Q R)
  forked queue replies = do
    channel ← handle 0 makes_receiver (record { handles = fresh parent_pid; queue = queue })
    done (record {
      channel = record channel { handles = fork_with_handles channel.handles child_pid };
      reply_channel = record { handles = of_child; queue = replies };
      got_sender = none;
      reply = none;
      exited = false;
    })

module _ (D R : DequeOps ℕ) where
  -- each with the drops of its handles, in the order in which they go out of scope
  unfoldable pub check : Bool → D.Deque → R.Deque → Exec (World (Shared D.Deque R.Deque))
  check long queue replies = do
    shared ← forked queue replies
    done (
        start shared
          (sleeps_first long
            ∷ gets_sender (receives D)
            ∷ has_sender
            ∷ on_reply_channel (sends R 1)
            ∷ waitpid
            ∷ on_reply_channel (handle parent_at drops_sender)
            ∷ on_channel (handle parent_at drops_receiver)
            ∷ on_channel (handle parent_at drops_channel)
            ∷ [])
          (on_channel (handle child_at makes_sender)
            ∷ on_reply_channel (handle child_at makes_receiver)
            ∷ on_reply_channel (handle child_at makes_sender)
            ∷ sends_sender (sends D reply_sender)
            ∷ gets_reply (receives R)
            ∷ checks_reply
            ∷ on_reply_channel (handle child_at drops_receiver)
            ∷ on_reply_channel (handle child_at drops_channel)
            ∷ on_channel (handle child_at drops_sender)
            ∷ on_channel (handle child_at drops_receiver)
            ∷ on_channel (handle child_at drops_channel)
            ∷ exits
            ∷ []))
