-- ===== src/Channel/Send.antt =====
-- Sending: what `try_send` and `try_send_once` of src/channel.rs answer, and what they add.
use shmem_util.Prelude.{
  ◌≤◌, ◌<◌, ◌≡◌, ◌≢◌, ◌⊎◌, inl, inr, refl, Bool, true, false, ◌||◌, if◌then◌else◌, leb, Option,
  none, some, List, All, length, Ends, Result, ok, err, Option-cases, Bool-cases, ◌==◌, arith,
}
use shmem_util.External.{DequeOps}
use shmem_util.Mutex.{MutexGuard}
use shmem_util.Condvar.Laws.{wait-ready, wait-SeenIn, SeenIn, ReadyIn}
use shmem_util.Channel.Inner.{
  TrySendError, no_receivers, Look, Sight, Outcome, untouched, can_send, try_send, sent_waited,
  try_send_once,
}
use shmem_util.Channel.Queue.{Locks, acquire-true, Stored, push-Stored}

module _ {T : Type 0} (D : DequeOps T) where
  -- The item went to the end of the queue of the look, or it came back with the queue left alone,
  -- since the receivers were gone or the channel was being dropped at the second load.
  abbrev pub SentAt : T → Sight D → Look D → Outcome D (Result (Unit {0}) T) → Type 0
  SentAt item s l o =
      ((d' : D.Deque) × (o.answer ≡ ok tt)
        × (o.touched ≡ some (l.queue, d'))
        × Stored D l.queue item d')
      ⊎ (o.answer ≡ err item) × (o.touched ≡ none) × ((s.peers ≡ 0) ⊎ (s.leaving ≡ true))

  -- The wait has ended at a full queue, since the receivers were gone or the channel was being
  -- dropped, and the second loads found neither.
  abbrev pub Raced : Sight D → Look D → Type 0
  Raced s l =
      (D.capacity l.queue ≤ length (D.items l.queue))
      × ((l.peers ≡ 0) ⊎ (l.dropping ≡ true))
      × (s.peers ≢ 0)
      × (s.leaving ≡ false)

  pub room_or_gone :
      (l : Look D)
      → can_send D l ≡ true
      → (length (D.items l.queue) < D.capacity l.queue)
        ⊎ (D.capacity l.queue ≤ length (D.items l.queue)) × ((l.peers ≡ 0) ⊎ (l.dropping ≡ true))
  room_or_gone l ready = ground (arith, D.remaining_capacity_lem l.queue)

  sent_at :
      (item : T) (s : Sight D) (l : Look D)
      → can_send D l ≡ true
      → s.signal_errno.item ≡ 0
      → Ends (sent_waited D item s l) (SentAt item s l) ⊎ Raced s l
  sent_at item s l ready fine = elim (Bool-cases (s.peers == 0 || s.leaving)) [
    | inl e ↦ inl (untouched D (err item), rw e refl, inr (refl, refl, ground arith))
    | inr e ↦ elim (room_or_gone l ready) [
      | inl room ↦
          let (d', stored, f) = push-Stored D l.queue item s.signal_errno fine room in
          inl (
            record { answer = ok tt; touched = some (l.queue, d') },
            rw (e, stored) refl,
            inl (d', refl, refl, f),
          )
      | inr (full, gone) ↦ inr (full, gone, ground arith, ground arith)
    ]
  ]

  -- A sender whose loop gets the lock without seeing `dropping`, whose wait finds its test
  -- passed at some look and whose pthread calls succeed, returns: with the item put at the end
  -- of the queue of a look of its wait, within the capacity, or with the item given back and
  -- the queue left alone, only where the second loads find no receiver or the channel dropping.
  -- The one exception is a look at a full queue, with no receiver or the channel dropping,
  -- after which the second loads find neither.
  pub try_send_lem :
      (item : T) (rounds : List (Bool × Option MutexGuard)) (s : Sight D)
      → Locks rounds
      → All (λ w. w.0 ≡ 0) s.wakes
      → ReadyIn (can_send D) s.first s.wakes
      → s.signal_errno.item ≡ 0
      → (l : Look D) × SeenIn (can_send D) l s.first s.wakes
        × (Ends (try_send D item rounds s) (SentAt item s l) ⊎ Raced s l)
  unfolding try_send
  try_send_lem item rounds s locks fine ready signalled =
      let (l, waited, passed) = wait-ready (can_send D) s.first s.wakes fine ready in
      elim (sent_at item s l passed signalled) [
        | inl (o, run, f) ↦ (
          l,
          wait-SeenIn (can_send D) s.first l s.wakes waited,
          inl (o, rw (acquire-true rounds locks, try_send, waited, run) refl, f),
        )
        | inr raced ↦ (l, wait-SeenIn (can_send D) s.first l s.wakes waited, inr raced)
      ]

  -- what `try_send_once` answers
  abbrev pub send_answer : T → Sight D → Result (Unit {0}) (TrySendError T)
  send_answer item s = if s.dropping then err (no_receivers item) else elim s.lock [
    | none ↦ err (TrySendError.timed_out item)
    | some _ ↦
        if leb (D.capacity s.first.queue) (length (D.items s.first.queue))
        then err (TrySendError.timed_out item)
        else if s.peers == 0 || s.leaving
        then err (no_receivers item)
        else ok tt
  ]

  -- success fits a queue with the item at its end, and an error a queue left alone
  abbrev pub Adds : T → Result (Unit {0}) (TrySendError T) → Option (D.Deque × D.Deque) → Type 0
  Adds item (ok _) none = ⊥
  Adds item (ok _) (some (before, after)) = Stored D before item after
  Adds item (err _) none = Unit {0}
  Adds item (err _) (some _) = ⊥

  full_iff : (d : D.Deque) → (D.remaining_capacity d == 0) ≡ leb (D.capacity d) (length (D.items d))
  full_iff d = ground (arith, D.remaining_capacity_lem d)

  -- Where its signal succeeds `try_send_once` returns: with `no_receivers` on a channel that is
  -- dropping, a timeout without the lock or on a full queue, and otherwise with `no_receivers`
  -- where the later loads find no receiver or the channel dropping. With each error the item
  -- comes back and the queue is left alone; in the other cases the item is put at the end of
  -- the queue.
  pub try_send_once_lem :
      (item : T) (s : Sight D)
      → s.signal_errno.item ≡ 0
      → Ends
          (try_send_once D item s)
          (λ o. (o.answer ≡ send_answer item s) × Adds item o.answer o.touched)
  unfolding try_send_once
  try_send_once_lem item s fine = elim (Bool-cases s.dropping) [
    | inl e ↦ (untouched D (err (no_receivers item)), rw (e, try_send_once) refl, (rw e refl, tt))
    | inr e ↦ elim (Option-cases s.lock) [
      | inl l ↦ (
        untouched D (err (TrySendError.timed_out item)),
        rw (e, l, try_send_once) refl,
        (rw (e, l) refl, tt),
      )
      | inr (g, l) ↦
          elim (Bool-cases (leb (D.capacity s.first.queue) (length (D.items s.first.queue)))) [
            | inl full ↦ (
              untouched D (err (TrySendError.timed_out item)),
              rw (e, l, try_send_once, full_iff s.first.queue, full) refl,
              (rw (e, l, full) refl, tt),
            )
            | inr room ↦ elim (Bool-cases (s.peers == 0 || s.leaving)) [
              | inl gone ↦ (
                untouched D (err (no_receivers item)),
                rw (e, l, try_send_once, full_iff s.first.queue, room, gone) refl,
                (rw (e, l, room, gone) refl, tt),
              )
              | inr here ↦
                  let (d', stored, f) =
                    push-Stored D s.first.queue item s.signal_errno fine (ground arith) in
                  (
                    record { answer = ok tt; touched = some (s.first.queue, d') },
                    rw (e, l, try_send_once, full_iff s.first.queue, room, here, stored) refl,
                    (rw (e, l, room, here) refl, f),
                  )
            ]
          ]
    ]
  ]
