-- ===== src/Channel/Simple/Laws.antt =====
-- The example passes on every schedule.
use shmem_util.Prelude.{
  ℕ, ◌+◌, ◌≡◌, inl, inr, refl, Bool, Bool-cases, false, ◌&&◌, [], ◌∷◌, none, Exec, ok, ◌==◌, Ends,
  arith,
}
use shmem_util.External.{DequeOps}
use shmem_util.Time.{billion}
use shmem_util.ProcessRc
use shmem_util.ProcessRc.{increase, decrease}
use shmem_util.Channel.Handles.{
  atomic_checked_sub, clone, make_sender, make_receiver, drop_parts, destroy_inner, drop_channel,
  drop_sender, drop_receiver,
}
use shmem_util.Channel.Lifetime.{
  Use, makes_sender, drops_sender, drops_receiver, drops_channel, serve,
}
use shmem_util.Channel.Processes.{advance}
use shmem_util.Channel.Line.{
  fresh, fork_with_handles, Line, handle, sends, receives, waits_for_message,
}
use shmem_util.Channel.Line.Stages.{
  Stage, Stages, new-Stages, at, at_item, queue_at, stage_sends, stage_receives, stage_waits,
  sends-Same, receives-Same, waits_for_message-Same, handle-Same,
}
use shmem_util.Channel.Line.Stages
use shmem_util.Channel.Simple.{
  Shared, parent_pid, child_pid, child_at, parent_at, on_line, into_x, is_child, checks_x, waitpid,
  exits, main,
}
use shmem_util.Threads.{World, start, turn}
use shmem_util.Threads.Explore.{passes, Passes, passes-Passes}
use shmem_util.Threads.Simulate.{Same, Follows, Related, Related-Passes, bind-Same}

-- The parent has the pid of the child, nobody is counted, and the channel is destroyed.
abbrev pub over : {Q : Type 0} → Shared Q → Bool
over s =
    is_child s.got
    && (s.line.handles.destroyed && (s.line.handles.senders + s.line.handles.receivers == 0))

-- both right after the fork; the receiver of the parent is the child's too
abbrev ready : {Q : Type 0} → Q → Shared Q
ready queue = record {
  line = record {
    handles =
        fork_with_handles
          (record (fresh parent_pid) {
            receivers = 1;
            procs =
                (record {
                  pid = parent_pid;
                  references = record { counter = 2; pid = parent_pid };
                  live = record { channels = 1; senders = 0; receivers = 1 };
                })
                ∷ [];
          })
          child_pid;
    queue = queue;
  };
  got = none;
  exited = false;
}

-- the program on a queue that is only told by its stage
abbrev staged : World (Shared Stage)
staged =
    start (ready Stages.fresh)
      (on_line stage_waits
        ∷ into_x (stage_receives child_pid)
        ∷ checks_x
        ∷ waitpid
        ∷ on_line (handle parent_at drops_receiver)
        ∷ on_line (handle parent_at drops_channel)
        ∷ [])
      (on_line (handle child_at makes_sender)
        ∷ on_line stage_sends
        ∷ on_line (handle child_at drops_sender)
        ∷ on_line (handle child_at drops_receiver)
        ∷ on_line (handle child_at drops_channel)
        ∷ exits
        ∷ [])

staged-Passes : Passes over staged
unfolding passes turn increase decrease atomic_checked_sub clone make_sender drop_parts
    destroy_inner drop_channel drop_sender drop_receiver serve advance
staged-Passes = passes-Passes over 20 staged refl refl

module _ (D : DequeOps ℕ) (queue : D.Deque) (q : Stages D child_pid queue) where
  abbrev detail : Shared Stage → Shared D.Deque
  detail s = record { line = at D q s.line; got = s.got; exited = s.exited }

  on_line-Follows :
      (f : Line Stage → Exec (Line Stage)) (g : Line D.Deque → Exec (Line D.Deque))
      → ((l : Line Stage) → Same (at D q) (f l) (g (at D q l)))
      → Follows detail (on_line f) (on_line g)
  on_line-Follows f g same s =
      bind-Same (at D q) detail (f s.line) (g (at D q s.line)) _ _ (same s.line) (λ l. inr refl)

  into_x-Follows : Follows detail (into_x (stage_receives child_pid)) (into_x (receives D))
  into_x-Follows s =
      bind-Same (at_item D q) detail (stage_receives child_pid s.line) (receives D (at D q s.line))
        _ _ (receives-Same D q s.line) (λ x. inr refl)

  checks_x-Follows : Follows detail checks_x checks_x
  checks_x-Follows s = elim (Bool-cases (is_child s.got)) [
    | inl e ↦ inr (rw e refl)
    | inr e ↦ inr (rw e refl)
  ]

  waitpid-Follows : Follows detail waitpid waitpid
  waitpid-Follows s = elim (Bool-cases s.exited) [
    | inl e ↦ inr (rw e refl)
    | inr e ↦ inr (rw e refl)
  ]

  handle-Follows : (i : ℕ) (u : Use) → Follows detail (on_line (handle i u)) (on_line (handle i u))
  handle-Follows i u = on_line-Follows (handle i u) (handle i u) (handle-Same D q i u)

  main-Related : Ends (main D queue) (Related detail staged)
  unfolding main ProcessRc.new increase clone make_receiver serve advance
  main-Related = (
    _,
    refl,
    (
      refl,
      (
        on_line-Follows stage_waits (waits_for_message D billion) (waits_for_message-Same D q),
        (
          into_x-Follows,
          (
            checks_x-Follows,
            (
              waitpid-Follows,
              (
                handle-Follows parent_at drops_receiver,
                (handle-Follows parent_at drops_channel, tt),
              ),
            ),
          ),
        ),
      ),
      (
        handle-Follows child_at makes_sender,
        (
          on_line-Follows stage_sends (sends D child_pid) (sends-Same D q),
          (
            handle-Follows child_at drops_sender,
            (
              handle-Follows child_at drops_receiver,
              (handle-Follows child_at drops_channel, ((λ s. inr refl), tt)),
            ),
          ),
        ),
      ),
      refl,
    ),
  )

module _ (D : DequeOps ℕ) where
  -- In the example simple.rs, over any queue that is made with room for 1234 items, where no
  -- deadline passes: however parent and child are scheduled, no `unwrap`, no `expect` and no
  -- assertion fails and no freed channel is used, and from there on there is a schedule by
  -- which both come to their ends, with the pid of the child received, no handle counted and
  -- the channel destroyed.
  pub main-Passes :
      (queue : D.Deque) → D.with_capacity_in 1234 ≡ ok queue → Ends (main D queue) (Passes over)
  main-Passes queue made =
      let q = new-Stages D child_pid 1234 queue (omega arith) made in
      let (w, run, related) = main-Related D queue q in
      (
        w,
        run,
        Related-Passes (detail D queue q) over over (λ s right. right) staged w related
            staged-Passes,
      )
