-- ===== src/Channel/Replying/Staged.antt =====
-- The test on queues that are only told by their stages.
use shmem_util.Prelude.{◌+◌, refl, Bool, true, false, not, ◌&&◌, [], ◌∷◌, none, ◌==◌}
use shmem_util.ProcessRc
use shmem_util.ProcessRc.{increase, decrease}
use shmem_util.Channel.Handles.{
  atomic_checked_sub, clone, make_sender, make_receiver, drop_parts, destroy_inner, drop_channel,
  drop_sender, drop_receiver,
}
use shmem_util.Channel.Lifetime.{
  makes_sender, makes_receiver, drops_sender, drops_receiver, drops_channel, serve,
}
use shmem_util.Channel.Processes.{advance}
use shmem_util.Channel.Line.{fresh, fork_with_handles, handle}
use shmem_util.Channel.Line.Stages.{
  receives-panic, Stage, Stages, new-Stages, at, at_item, queue_at, stage_sends, stage_receives,
  sends-Same, receives-Same, handle-Same,
}
use shmem_util.Channel.Line.Stages
use shmem_util.Channel.Replying.{
  Shared, parent_pid, child_pid, child_at, parent_at, of_child, reply_sender, is_some, on_channel,
  on_reply_channel, sends_sender, gets_sender, gets_reply, has_sender, checks_reply, waitpid, exits,
  sleeps_first,
}
use shmem_util.Threads.{World, start, turn}
use shmem_util.Threads.Explore.{passes, Passes, passes-Passes}

-- The reply has come, no handle is counted any more, and the channel of senders is destroyed, but not the
-- one for the reply.
abbrev pub over : {Q R : Type 0} → Shared Q R → Bool
over s =
    is_some s.reply 1
    && (s.channel.handles.destroyed
        && (not s.reply_channel.handles.destroyed
            && (s.channel.handles.senders
                  + s.channel.handles.receivers
                  + (s.reply_channel.handles.senders + s.reply_channel.handles.receivers)
                == 0)))

-- both right after the fork; the receiver of the parent is the child's too
abbrev pub ready : {Q R : Type 0} → Q → R → Shared Q R
ready queue replies = record {
  channel = record {
    handles =
        fork_with_handles
          (record (fresh parent_pid) {
            receivers = 1;
            procs =
                (record {
                  pid = parent_pid;
                  references = record { counter = 2; pid = parent_pid };
                  live = record { channels = 1; senders = 0; receivers = 1 };
                })
                ∷ [];
          })
          child_pid;
    queue = queue;
  };
  reply_channel = record { handles = of_child; queue = replies };
  got_sender = none;
  reply = none;
  exited = false;
}

-- the program on queues that are only told by their stages
abbrev pub staged : World (Shared Stage Stage)
staged =
    start (ready Stages.fresh Stages.fresh)
      (sleeps_first true
        ∷ gets_sender (stage_receives reply_sender)
        ∷ has_sender
        ∷ on_reply_channel stage_sends
        ∷ waitpid
        ∷ on_reply_channel (handle parent_at drops_sender)
        ∷ on_channel (handle parent_at drops_receiver)
        ∷ on_channel (handle parent_at drops_channel)
        ∷ [])
      (on_channel (handle child_at makes_sender)
        ∷ on_reply_channel (handle child_at makes_receiver)
        ∷ on_reply_channel (handle child_at makes_sender)
        ∷ sends_sender stage_sends
        ∷ gets_reply (stage_receives 1)
        ∷ checks_reply
        ∷ on_reply_channel (handle child_at drops_receiver)
        ∷ on_reply_channel (handle child_at drops_channel)
        ∷ on_channel (handle child_at drops_sender)
        ∷ on_channel (handle child_at drops_receiver)
        ∷ on_channel (handle child_at drops_channel)
        ∷ exits
        ∷ [])

pub staged-Passes : Passes over staged
unfolding passes turn increase decrease atomic_checked_sub clone make_sender make_receiver
    drop_parts destroy_inner drop_channel drop_sender drop_receiver serve advance ProcessRc.new
staged-Passes = passes-Passes over 30 staged refl refl
