-- ===== src/Channel/SendUntil.antt =====
-- Sending with a deadline: what `try_send_until` of src/channel.rs answers, and what it adds.
use shmem_util.Prelude.{
  ◌≡◌, ◌⊎◌, inl, inr, refl, ◌||◌, true, false, some, done, Ends, Result, ok, err, none, Bool-cases,
  ◌==◌, arith,
}
use shmem_util.External.{DequeOps}
use shmem_util.Mutex.{guard}
use shmem_util.Time.{UnixClock, from}
use shmem_util.Condvar
use shmem_util.Condvar.Laws.{
  wait_until-SeenIn, SeenIn, look_of, TimesOut, Answered, wait_until-Answered,
}
use shmem_util.Channel.Inner.{
  TrySendError, no_receivers, Deadline, Look, Sight, Outcome, untouched, can_send, try_send_until,
  send_waited,
}
use shmem_util.Channel.Queue.{Stored, push-Stored}
use shmem_util.Channel.Send.{Raced, room_or_gone}

module _ {T : Type 0} (D : DequeOps T) where
  -- The answers of `try_send_until` when its wait has ended at the look `l`: the item is stored, or it
  -- comes back with a timeout, from a full queue while receivers remain, or with `no_receivers`.
  abbrev pub SentUntil :
      T → Sight D → Look D → Outcome D (Result (Unit {0}) (TrySendError T)) → Type 0
  SentUntil item s l o =
      ((d' : D.Deque) × (o.answer ≡ ok tt)
        × (o.touched ≡ some (l.queue, d'))
        × Stored D l.queue item d')
      ⊎ (o.answer ≡ err (TrySendError.timed_out item)) × (o.touched ≡ none) × (can_send D l ≡ false)
      ⊎ (o.answer ≡ err (no_receivers item))
        × (o.touched ≡ none)
        × ((s.peers ≡ 0) ⊎ (s.leaving ≡ true))

  waited_until :
      (item : T) (s : Sight D) (a : Result (Look D) (Look D))
      → Answered (can_send D) a
      → s.signal_errno.item ≡ 0
      → Ends (send_waited D item s a) (SentUntil item s (look_of (can_send D) a))
        ⊎ Raced D s (look_of (can_send D) a)
  waited_until item s (err l) late fine =
      inl (untouched D (err (TrySendError.timed_out item)), refl, inr (inl (refl, refl, late)))
  waited_until item s (ok l) ready fine = elim (Bool-cases (s.peers == 0 || s.leaving)) [
    | inl e ↦
        inl (untouched D (err (no_receivers item)), rw e refl, inr (inr (refl, refl, ground arith)))
    | inr e ↦ elim (room_or_gone D l ready) [
      | inl room ↦
          let (d', stored, f) = push-Stored D l.queue item s.signal_errno fine room in
          inl (
            record { answer = ok tt; touched = some (l.queue, d') },
            rw (e, stored) refl,
            inl (d', refl, refl, f),
          )
      | inr (full, gone) ↦ inr (full, gone, ground arith, ground arith)
    ]
  ]

  -- With the lock and a representable deadline, on a channel that is not dropping when the call
  -- starts, where the wait times out at the latest and the signal succeeds, `try_send_until`
  -- returns at a look of its wait: with the item put at the end of the queue, within the
  -- capacity; with a timeout and the item, where that look finds no room while receivers remain
  -- and nothing is dropping; or with `no_receivers` and the item, where the second loads find
  -- no receiver or the channel dropping. The one exception is a look at a full queue, with no
  -- receiver or the channel dropping, after which the second loads find neither.
  pub try_send_until_lem :
      (item : T) (t : Deadline) (c : UnixClock) (s : Sight D)
      → from t.std_now t.monotonic t.until ≡ done c
      → s.dropping ≡ false
      → s.lock ≡ some guard
      → TimesOut (can_send D) s.wakes
      → s.signal_errno.item ≡ 0
      → (l : Look D) × SeenIn (can_send D) l s.first s.wakes
        × (Ends (try_send_until D item t s) (SentUntil item s l) ⊎ Raced D s l)
  unfolding try_send_until Condvar.wait_until
  try_send_until_lem item t c s due up got timeout fine =
      let (a, run, answered) = wait_until-Answered (can_send D) s.first s.wakes timeout in
      (
        look_of (can_send D) a,
        wait_until-SeenIn (can_send D) s.first a s.wakes run,
        rw (up, got, try_send_until, due, Condvar.wait_until, run)
            (waited_until item s a answered fine),
      )
