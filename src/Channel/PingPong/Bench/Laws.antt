-- ===== src/Channel/PingPong/Bench/Laws.antt =====
-- One request is answered, and the server ends.
use shmem_util.Prelude.{
  ℕ, ◌<◌, ◌≡◌, inl, inr, refl, Bool-cases, Option-cases, is_none, Option, true, none, some, Exec,
  ok, Ends, arith,
}
use shmem_util.External.{DequeOps}
use shmem_util.ProcessRc
use shmem_util.ProcessRc.{increase, decrease}
use shmem_util.Channel.Handles.{clone, make_sender, make_receiver}
use shmem_util.Channel.Lifetime.{Use, drops_sender, drops_receiver, drops_channel, serve}
use shmem_util.Channel.Processes.{advance}
use shmem_util.Channel.Line.{Line, handle, sends, receives, receives_none}
use shmem_util.Channel.Line.Stages.{
  Stage, Stages, new-Stages, at, stage_sends, stage_receives, stage_receives_none, sends-Same,
  receives-Same, receives_none-Same, handle-Same,
}
use shmem_util.Channel.PingPong.Bench.{
  Shared, on_requests, on_responses, takes, gets, responds, joins, bench,
}
use shmem_util.Threads.Explore.{Passes}
use shmem_util.Threads.Simulate.{Same, Follows, Related, Related-Passes, bind-Same}
use shmem_util.Channel.PingPong.Bench.Staged.{over, staged, staged-Passes}

module _ {T : Type 0} (item : T) (D : DequeOps T) {d : D.Deque} (q : Stages D item d) where
  -- what is received, where the item is told
  abbrev told : (Unit {0}) × Line Stage → T × Line D.Deque
  told (x, l) = (item, at D q l)

  receives-told : (l : Line Stage) → Same told (stage_receives tt l) (receives D (at D q l))
  receives-told l = ground (arith, receives-Same D q l)

module _ {T : Type 0} (item : T) (D R : DequeOps T) (queue : D.Deque) (replies : R.Deque)
    (q : Stages D item queue) (r : Stages R item replies) where
  abbrev told_one : Option (Unit {0}) → Option T
  told_one none = none
  told_one (some x) = some item

  abbrev detail : Shared Stage Stage (Unit {0}) → Shared D.Deque R.Deque T
  detail s = record {
    requests = at D q s.requests;
    responses = at R r s.responses;
    carried = told_one s.carried;
    answered = told_one s.answered;
    exited = s.exited;
  }

  on_requests-Follows :
      (f : Line Stage → Exec (Line Stage)) (g : Line D.Deque → Exec (Line D.Deque))
      → ((l : Line Stage) → Same (at D q) (f l) (g (at D q l)))
      → Follows detail (on_requests f) (on_requests g)
  on_requests-Follows f g same s =
      bind-Same (at D q) detail (f s.requests) (g (at D q s.requests)) _ _ (same s.requests)
        (λ l. inr refl)

  on_responses-Follows :
      (f : Line Stage → Exec (Line Stage)) (g : Line R.Deque → Exec (Line R.Deque))
      → ((l : Line Stage) → Same (at R r) (f l) (g (at R r l)))
      → Follows detail (on_responses f) (on_responses g)
  on_responses-Follows f g same s =
      bind-Same (at R r) detail (f s.responses) (g (at R r s.responses)) _ _ (same s.responses)
        (λ l. inr refl)

  of_requests : (u : Use) → Follows detail (on_requests (handle 0 u)) (on_requests (handle 0 u))
  of_requests u = on_requests-Follows (handle 0 u) (handle 0 u) (handle-Same D q 0 u)

  of_responses : (u : Use) → Follows detail (on_responses (handle 0 u)) (on_responses (handle 0 u))
  of_responses u = on_responses-Follows (handle 0 u) (handle 0 u) (handle-Same R r 0 u)

  takes-Follows : Follows detail (takes (stage_receives tt)) (takes (receives D))
  takes-Follows s =
      bind-Same (told item D q) detail (stage_receives tt s.requests)
        (receives D (at D q s.requests)) _ _ (receives-told item D q s.requests) (λ x. inr refl)

  gets-Follows : Follows detail (gets (stage_receives tt)) (gets (receives R))
  gets-Follows s =
      bind-Same (told item R r) detail (stage_receives tt s.responses)
        (receives R (at R r s.responses)) _ _ (receives-told item R r s.responses) (λ x. inr refl)

  responds-Follows : Follows detail (responds (λ x. stage_sends)) (responds (sends R))
  responds-Follows s = elim (Option-cases s.carried) [
    | inl e ↦ inl (rw e refl)
    | inr (x, e) ↦ rw e (
        bind-Same (at R r) detail (stage_sends s.responses) (sends R item (at R r s.responses)) _ _
          (sends-Same R r s.responses) (λ l. inr refl))
  ]

  joins-Follows : Follows detail joins joins
  joins-Follows s = elim (Bool-cases s.exited) [ inl e ↦ inr (rw e refl) | inr e ↦ inr (rw e refl) ]

  told_one_none : (o : Option (Unit {0})) → is_none (told_one o) ≡ is_none o
  told_one_none none = refl
  told_one_none (some x) = refl

  over-over : (s : Shared Stage Stage (Unit {0})) → over s ≡ true → over (detail s) ≡ true
  over-over s right = rw (told_one_none s.answered) right

  bench-Related : Ends (bench D R item queue replies) (Related detail staged)
  unfolding bench ProcessRc.new increase clone make_sender make_receiver serve advance
  bench-Related = (
    _,
    refl,
    (
      refl,
      (
        of_requests drops_receiver,
        (
          of_responses drops_sender,
          (
            on_requests-Follows stage_sends (sends D item) (sends-Same D q),
            (
              gets-Follows,
              (
                of_requests drops_sender,
                (
                  of_responses drops_receiver,
                  (joins-Follows, (of_responses drops_channel, (of_requests drops_channel, tt))),
                ),
              ),
            ),
          ),
        ),
      ),
      (
        takes-Follows,
        (
          responds-Follows,
          (
            on_requests-Follows stage_receives_none (receives_none D) (receives_none-Same D q),
            (of_requests drops_receiver, (of_responses drops_sender, ((λ s. inr refl), tt))),
          ),
        ),
      ),
      refl,
    ),
  )

module _ {T : Type 0} (D R : DequeOps T) where
  -- For one request, over any queues that are made with room for an item: however the main thread and
  -- the server are scheduled, no assertion fails and no freed channel is used, and from there on there
  -- is a schedule by which the server ends, and then the main thread, with an answer received, no
  -- handle counted and both channels destroyed.
  pub bench-Passes :
      (item : T) (length : ℕ) (queue : D.Deque) (replies : R.Deque)
      → 0 < length
      → D.with_capacity_in length ≡ ok queue
      → R.with_capacity_in length ≡ ok replies
      → Ends (bench D R item queue replies) (Passes over)
  bench-Passes item length queue replies some_room made replies_made =
      let q = new-Stages D item length queue some_room made in
      let r = new-Stages R item length replies some_room replies_made in
      let (w, run, related) = bench-Related item D R queue replies q r in
      (
        w,
        run,
        Related-Passes (detail item D R queue replies q r) over over
            (over-over item D R queue replies q r) staged w related staged-Passes,
      )
