-- ===== src/Channel/ReceiveUntil.antt =====
-- Receiving with a deadline: `try_receive_until` of src/channel.rs, with the case in which it panics.
use shmem_util.Prelude.{
  ℕ, ◌≡◌, ◌≢◌, ◌⊎◌, inl, inr, refl, true, false, Option, none, some, List, [], ◌∷◌, done, panic,
  ◌||◌, Ends, Result, ok, err, Bool-cases, ◌==◌, arith,
}
use shmem_util.External.{DequeOps}
use shmem_util.Mutex.{guard}
use shmem_util.Time.{UnixClock, from}
use shmem_util.Condvar
use shmem_util.Condvar.Laws.{
  wait_until-SeenIn, SeenIn, look_of, TimesOut, Answered, wait_until-Answered,
}
use shmem_util.Channel.Inner.{
  TryReceiveError, no_senders, untouched, Deadline, Look, Sight, Outcome, can_receive,
  try_receive_until, receive_waited, expect_item, pop,
}
use shmem_util.Channel.Receive.{no_item}
use shmem_util.Channel.Queue.{Popped, Fitting, pop-Fitting}

module _ {T : Type 0} (D : DequeOps T) where
  wait_until-now :
      (v : Look D) (wakes : List (ℕ × Look D)) (t : Deadline) (c : UnixClock)
      → from t.std_now t.monotonic t.until ≡ done c
      → can_receive D v ≡ true
      → Condvar.wait_until (can_receive D) t.std_now t.monotonic t.until v wakes ≡ done (ok v)
  unfolding Condvar.wait_until Condvar.wait_until_internal
  wait_until-now v [] t c e ready = rw (e, Condvar.wait_until, ready) refl
  wait_until-now v (w ∷ wakes) t c e ready = rw (e, Condvar.wait_until, ready) refl

  -- `try_receive_until` panics where a sender comes back during the call: the deadline is
  -- representable, the channel is not dropping, the lock is got, the first look finds an empty
  -- queue without senders, and the second loads find a sender and the channel not dropping.
  pub try_receive_until_panics :
      (t : Deadline) (c : UnixClock) (s : Sight D)
      → from t.std_now t.monotonic t.until ≡ done c
      → s.dropping ≡ false
      → s.lock ≡ some guard
      → D.items s.first.queue ≡ []
      → s.first.peers ≡ 0
      → s.peers ≢ 0
      → s.leaving ≡ false
      → try_receive_until D t s ≡ panic
  unfolding try_receive_until pop
  try_receive_until_panics t c s due up got empty alone back stays =
      let ready : can_receive D s.first ≡ true = rw (empty, alone) refl in
      let loads : (s.peers == 0 || s.leaving) ≡ false = ground arith in
      rw
        (
          up,
          got,
          try_receive_until,
          wait_until-now s.first s.wakes t c due ready,
          loads,
          D.pop_front_none s.first.queue empty,
          pop,
        )
        refl

  -- The answers of `try_receive_until` when its wait has ended at the look `l`: the first item, a
  -- timeout when there is none while senders remain, or `no_senders`.
  abbrev pub ReceivedUntil : Sight D → Look D → Outcome D (Result T TryReceiveError) → Type 0
  ReceivedUntil s l o =
      ((x : T) × (d' : D.Deque) × (o.answer ≡ ok x)
        × (o.touched ≡ some (l.queue, d'))
        × Popped D l.queue x d')
      ⊎ (o.answer ≡ err TryReceiveError.timed_out) × (o.touched ≡ none) × (can_receive D l ≡ false)
      ⊎ (o.answer ≡ err no_senders) × (o.touched ≡ none) × ((s.peers ≡ 0) ⊎ (s.leaving ≡ true))

  -- The wait ended at an empty queue for want of senders, or while dropping, and the second loads
  -- found neither.
  abbrev pub Revived : Sight D → Look D → Type 0
  Revived s l =
      (D.items l.queue ≡ [])
      × ((l.peers ≡ 0) ⊎ (l.dropping ≡ true))
      × (s.peers ≢ 0)
      × (s.leaving ≡ false)

  popped_until :
      (s : Sight D) (l : Look D) (r : Option (T × D.Deque))
      → can_receive D l ≡ true
      → s.peers ≢ 0
      → s.leaving ≡ false
      → Fitting D l.queue r
      → Ends (expect_item D l.queue r) (ReceivedUntil s l) ⊎ Revived s l
  popped_until s l none ready some_peer stays f = inr (f, no_item D l ready f, some_peer, stays)
  popped_until s l (some (x, d')) ready some_peer stays f =
      inl (record { answer = ok x; touched = some (l.queue, d') }, refl, inl (x, d', refl, refl, f))

  waited_until :
      (s : Sight D) (a : Result (Look D) (Look D))
      → Answered (can_receive D) a
      → s.signal_errno.space ≡ 0
      → Ends (receive_waited D s a) (ReceivedUntil s (look_of (can_receive D) a))
        ⊎ Revived s (look_of (can_receive D) a)
  waited_until s (err l) late fine =
      inl (untouched D (err TryReceiveError.timed_out), refl, inr (inl (refl, refl, late)))
  waited_until s (ok l) ready fine = elim (Bool-cases (s.peers == 0 || s.leaving)) [
    | inl e ↦ inl (untouched D (err no_senders), rw e refl, inr (inr (refl, refl, ground arith)))
    | inr e ↦
        let (r, popped, f) = pop-Fitting D l.queue s.signal_errno fine in
        rw (e, popped) (popped_until s l r ready (ground arith) (ground arith) f)
  ]

  -- With the lock and a representable deadline, on a channel that is not dropping when the call
  -- starts, where the wait times out at the latest and the signal succeeds, `try_receive_until`
  -- returns at a look of its wait: with the first item, taken out; with a timeout, where that
  -- look finds no item while senders remain and nothing is dropping; or with `no_senders`,
  -- where the second loads find no sender or the channel dropping. The one exception is a look
  -- at an empty queue, with no sender or the channel dropping, after which the second loads
  -- find neither.
  pub try_receive_until_lem :
      (t : Deadline) (c : UnixClock) (s : Sight D)
      → from t.std_now t.monotonic t.until ≡ done c
      → s.dropping ≡ false
      → s.lock ≡ some guard
      → TimesOut (can_receive D) s.wakes
      → s.signal_errno.space ≡ 0
      → (l : Look D) × SeenIn (can_receive D) l s.first s.wakes
        × (Ends (try_receive_until D t s) (ReceivedUntil s l) ⊎ Revived s l)
  unfolding try_receive_until Condvar.wait_until
  try_receive_until_lem t c s due up got timeout fine =
      let (a, run, answered) = wait_until-Answered (can_receive D) s.first s.wakes timeout in
      (
        look_of (can_receive D) a,
        wait_until-SeenIn (can_receive D) s.first a s.wakes run,
        rw (up, got, try_receive_until, due, Condvar.wait_until, run)
            (waited_until s a answered fine),
      )
