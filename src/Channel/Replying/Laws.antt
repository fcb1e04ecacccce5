-- ===== src/Channel/Replying/Laws.antt =====
-- The test passes on every schedule on which its first sleep is long enough.
use shmem_util.Prelude.{
  ℕ, ◌≡◌, inl, inr, refl, Bool-cases, true, false, [], ◌∷◌, ok, ◌==◌, Ends, arith,
}
use shmem_util.External.{DequeOps}
use shmem_util.ProcessRc
use shmem_util.ProcessRc.{increase, decrease}
use shmem_util.Channel.Handles.{clone, make_receiver}
use shmem_util.Channel.Lifetime.{
  Use, makes_sender, makes_receiver, drops_sender, drops_receiver, drops_channel, serve,
}
use shmem_util.Channel.Processes.{advance}
use shmem_util.Channel.Line.{handle, sends, receives}
use shmem_util.Channel.Line.Stages.{
  receives-panic, Stage, Stages, new-Stages, at, at_item, stage_sends, stage_receives, sends-Same,
  receives-Same, handle-Same,
}
use shmem_util.Channel.Replying.{
  Shared, child_at, parent_at, reply_sender, is_some, on_channel, on_reply_channel, sends_sender,
  gets_sender, gets_reply, has_sender, checks_reply, waitpid, sleeps_first, check,
}
use shmem_util.Threads.{turn, step, run, Pick, Fails}
use shmem_util.Threads.Explore.{Passes}
use shmem_util.Threads.Simulate.{Follows, Related, Related-Passes, bind-Same}
use shmem_util.Channel.Replying.Staged.{over, ready, staged, staged-Passes}

module _ (D R : DequeOps ℕ) (queue : D.Deque) (replies : R.Deque) (q : Stages D reply_sender queue)
    (r : Stages R 1 replies) where
  abbrev detail : Shared Stage Stage → Shared D.Deque R.Deque
  detail s = record {
    channel = at D q s.channel;
    reply_channel = at R r s.reply_channel;
    got_sender = s.got_sender;
    reply = s.reply;
    exited = s.exited;
  }

  -- the drop or the making of a handle of either channel
  on_channel-Follows :
      (i : ℕ) (u : Use) → Follows detail (on_channel (handle i u)) (on_channel (handle i u))
  on_channel-Follows i u s =
      bind-Same (at D q) detail (handle i u s.channel) (handle i u (at D q s.channel)) _ _
        (handle-Same D q i u s.channel) (λ l. inr refl)

  on_reply_channel-Follows :
      (i : ℕ) (u : Use)
      → Follows detail (on_reply_channel (handle i u)) (on_reply_channel (handle i u))
  on_reply_channel-Follows i u s =
      bind-Same (at R r) detail (handle i u s.reply_channel) (handle i u (at R r s.reply_channel)) _
        _ (handle-Same R r i u s.reply_channel) (λ l. inr refl)

  replies-Follows : Follows detail (on_reply_channel stage_sends) (on_reply_channel (sends R 1))
  replies-Follows s =
      bind-Same (at R r) detail (stage_sends s.reply_channel) (sends R 1 (at R r s.reply_channel)) _
        _ (sends-Same R r s.reply_channel) (λ l. inr refl)

  sends_sender-Follows :
      Follows detail (sends_sender stage_sends) (sends_sender (sends D reply_sender))
  sends_sender-Follows s =
      bind-Same (at D q) detail (stage_sends s.channel) (sends D reply_sender (at D q s.channel)) _
        _ (sends-Same D q s.channel) (λ l. inr refl)

  gets_sender-Follows :
      Follows detail (gets_sender (stage_receives reply_sender)) (gets_sender (receives D))
  gets_sender-Follows s =
      bind-Same (at_item D q) detail (stage_receives reply_sender s.channel)
        (receives D (at D q s.channel)) _ _ (receives-Same D q s.channel) (λ x. inr refl)

  gets_reply-Follows : Follows detail (gets_reply (stage_receives 1)) (gets_reply (receives R))
  gets_reply-Follows s =
      bind-Same (at_item R r) detail (stage_receives 1 s.reply_channel)
        (receives R (at R r s.reply_channel)) _ _ (receives-Same R r s.reply_channel)
        (λ x. inr refl)

  -- The tests and the waits look at what both states have.
  sleeps_first-Follows : Follows detail (sleeps_first true) (sleeps_first true)
  sleeps_first-Follows s = elim (Bool-cases (s.channel.handles.senders == 0)) [
    | inl e ↦ inr (rw e refl)
    | inr e ↦ inr (rw e refl)
  ]

  has_sender-Follows : Follows detail has_sender has_sender
  has_sender-Follows s = elim (Bool-cases (is_some s.got_sender reply_sender)) [
    | inl e ↦ inr (rw e refl)
    | inr e ↦ inr (rw e refl)
  ]

  waitpid-Follows : Follows detail waitpid waitpid
  waitpid-Follows s = elim (Bool-cases s.exited) [
    | inl e ↦ inr (rw e refl)
    | inr e ↦ inr (rw e refl)
  ]

  checks_reply-Follows : Follows detail checks_reply checks_reply
  checks_reply-Follows s = elim (Bool-cases (is_some s.reply 1)) [
    | inl e ↦ inr (rw e refl)
    | inr e ↦ inr (rw e refl)
  ]

  check-Related : Ends (check D R true queue replies) (Related detail staged)
  unfolding check ProcessRc.new increase clone make_receiver serve advance
  check-Related = (
    _,
    refl,
    (
      refl,
      (
        sleeps_first-Follows,
        (
          gets_sender-Follows,
          (
            has_sender-Follows,
            (
              replies-Follows,
              (
                waitpid-Follows,
                (
                  on_reply_channel-Follows parent_at drops_sender,
                  (
                    on_channel-Follows parent_at drops_receiver,
                    (on_channel-Follows parent_at drops_channel, tt),
                  ),
                ),
              ),
            ),
          ),
        ),
      ),
      (
        on_channel-Follows child_at makes_sender,
        (
          on_reply_channel-Follows child_at makes_receiver,
          (
            on_reply_channel-Follows child_at makes_sender,
            (
              sends_sender-Follows,
              (
                gets_reply-Follows,
                (
                  checks_reply-Follows,
                  (
                    on_reply_channel-Follows child_at drops_receiver,
                    (
                      on_reply_channel-Follows child_at drops_channel,
                      (
                        on_channel-Follows child_at drops_sender,
                        (
                          on_channel-Follows child_at drops_receiver,
                          (on_channel-Follows child_at drops_channel, ((λ s. inr refl), tt)),
                        ),
                      ),
                    ),
                  ),
                ),
              ),
            ),
          ),
        ),
      ),
      refl,
    ),
  )

  -- The parent looks before the child has made its sender.
  check-Fails : Ends (check D R false queue replies) Fails
  unfolding check turn step run ProcessRc.new increase clone make_receiver serve advance
  check-Fails = (
    _,
    refl,
    (
      Pick.parent ∷ Pick.parent ∷ [],
      rw (receives-panic D ((ready queue replies).channel) q.before_empty refl) refl,
    ),
  )

module _ (D R : DequeOps ℕ) where
  -- In the test `check` of the channels, over any queues that are made with room for one item,
  -- where the first sleep lasts until the child has made its sender: however parent and child
  -- are scheduled, no `unwrap` and no assertion fails and no freed channel is used, and from
  -- there on there is a schedule by which both come to their ends, with the reply received, no
  -- handle counted, the channel of senders destroyed and the one for the reply not. Where that
  -- sleep ends at any time, the parent can receive before there is a sender, and its `unwrap`
  -- fails.
  pub check-Passes :
      (queue : D.Deque) (replies : R.Deque)
      → D.with_capacity_in 1 ≡ ok queue
      → R.with_capacity_in 1 ≡ ok replies
      → Ends (check D R true queue replies) (Passes over)
        × Ends (check D R false queue replies) Fails
  check-Passes queue replies made replies_made =
      let q = new-Stages D reply_sender 1 queue (omega arith) made in
      let r = new-Stages R 1 1 replies (omega arith) replies_made in
      let (w, run, related) = check-Related D R queue replies q r in
      (
        (
          w,
          run,
          Related-Passes (detail D R queue replies q r) over over (λ s right. right) staged w
              related staged-Passes,
        ),
        check-Fails D R queue replies q r,
      )
