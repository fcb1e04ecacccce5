-- ===== src/Channel/PingPong/Bench/Staged.antt =====
-- The program on queues that are only told by their stages.
use shmem_util.Prelude.{ℕ, ◌+◌, refl, Bool, not, is_none, false, ◌&&◌, [], ◌∷◌, none, ◌==◌}
use shmem_util.ProcessRc.{increase, decrease}
use shmem_util.Channel.Handles.{
  atomic_checked_sub, clone, make_sender, drop_parts, destroy_inner, drop_channel, drop_sender,
  drop_receiver,
}
use shmem_util.Channel.Lifetime.{drops_sender, drops_receiver, drops_channel, serve}
use shmem_util.Channel.Processes.{System, advance}
use shmem_util.Channel.Line.{fresh, handle}
use shmem_util.Channel.Line.Stages.{
  Stage, Stages, new-Stages, at, at_item, stage_sends, stage_receives, stage_receives_none,
  sends-Same, receives-Same, receives_none-Same, handle-Same,
}
use shmem_util.Channel.Line.Stages
use shmem_util.Channel.PingPong.Bench.{
  Shared, pid, on_requests, on_responses, takes, gets, responds, joins, exits,
}
use shmem_util.Threads.{World, start, turn}
use shmem_util.Threads.Explore.{passes, Passes, passes-Passes}

-- The client has an item back, the server has ended, nobody is counted, and both channels are destroyed.
abbrev pub over : {Q R X : Type 0} → Shared Q R X → Bool
over s =
    not (is_none s.answered)
    && (s.requests.handles.destroyed
        && (s.responses.handles.destroyed
            && (s.requests.handles.senders
                  + s.requests.handles.receivers
                  + (s.responses.handles.senders + s.responses.handles.receivers)
                == 0)))

-- a channel of the process with so many senders and receivers
abbrev pub held : ℕ → ℕ → System (Unit {0})
held senders receivers = record (fresh pid) {
  senders = senders;
  receivers = receivers;
  procs =
      (record {
        pid = pid;
        references = record { counter = 4; pid = pid };
        live = record { channels = 1; senders = senders; receivers = receivers };
      })
      ∷ [];
}

abbrev pub ready : {Q R X : Type 0} → Q → R → Shared Q R X
ready queue replies = record {
  requests = record { handles = held 1 2; queue = queue };
  responses = record { handles = held 2 1; queue = replies };
  carried = none;
  answered = none;
  exited = false;
}

-- the program on queues that are only told by their stages, with an item that is not told
abbrev pub staged : World (Shared Stage Stage (Unit {0}))
staged =
    start (ready Stages.fresh Stages.fresh)
      (on_requests (handle 0 drops_receiver)
        ∷ on_responses (handle 0 drops_sender)
        ∷ on_requests stage_sends
        ∷ gets (stage_receives tt)
        ∷ on_requests (handle 0 drops_sender)
        ∷ on_responses (handle 0 drops_receiver)
        ∷ joins
        ∷ on_responses (handle 0 drops_channel)
        ∷ on_requests (handle 0 drops_channel)
        ∷ [])
      (takes (stage_receives tt)
        ∷ responds (λ x. stage_sends)
        ∷ on_requests stage_receives_none
        ∷ on_requests (handle 0 drops_receiver)
        ∷ on_responses (handle 0 drops_sender)
        ∷ exits
        ∷ [])

pub staged-Passes : Passes over staged
unfolding passes turn increase decrease atomic_checked_sub clone make_sender drop_parts
    destroy_inner drop_channel drop_sender drop_receiver serve advance
staged-Passes = passes-Passes over 30 staged refl refl
