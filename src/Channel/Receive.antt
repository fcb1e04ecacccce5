-- ===== src/Channel/Receive.antt =====
-- Receiving: what `receive` and `try_receive_once` of src/channel.rs answer, and what they take.
use shmem_util.Prelude.{
  ◌≡◌, ◌⊎◌, inl, inr, refl, Bool, true, Option, none, some, List, [], ◌∷◌, All, done, ◌||◌,
  if◌then◌else◌, Ends, >>=-eq-done, done-injective, Result, ok, err, Option-cases, Bool-cases, ◌==◌,
  arith,
}
use mathlib.Core.Path.{subst}
use shmem_util.External.{DequeOps}
use shmem_util.Mutex.{MutexGuard}
use shmem_util.Condvar.Laws.{wait-ready, wait-SeenIn, SeenIn, ReadyIn}
use shmem_util.Channel.Inner.{
  TryReceiveError, no_senders, untouched, Look, Sight, Outcome, can_receive, is_empty, receive,
  received, try_receive_once, received_once, pop,
}
use shmem_util.Channel.Queue.{Locks, acquire-true, Popped, Takes, Fitting, pop-Fitting, pop_sound}

module _ {T : Type 0} (D : DequeOps T) where
  abbrev pub value_of {κ} : {E : Type κ} → Result T E → Option T
  value_of (ok x) = some x
  value_of (err e) = none

  received_once-Takes :
      (s : Sight D) (d : D.Deque) (r : Option (T × D.Deque))
      → Fitting D d r
      → Takes D (value_of (received_once D s d r).answer) (received_once D s d r).touched
  received_once-Takes s d (some (x, d')) f = f
  received_once-Takes s d none f = elim (Bool-cases (s.peers == 0 || s.leaving)) [
    | inl e ↦ rw e tt
    | inr e ↦ rw e tt
  ]

  -- Whatever a receiver sees, `try_receive_once` answers the first item of the queue and takes it
  -- out, or answers an error and leaves the queue alone.
  pub try_receive_once-Takes :
      (s : Sight D) (o : Outcome D (Result T TryReceiveError))
      → try_receive_once D s ≡ done o
      → Takes D (value_of o.answer) o.touched
  unfolding try_receive_once
  try_receive_once-Takes s o h = elim (Bool-cases s.dropping) [
    | inl e ↦
        subst (λ o. Takes D (value_of o.answer) o.touched)
          (done-injective (rw (e, try_receive_once) at h)) tt
    | inr e ↦ elim (Option-cases s.lock) [
      | inl l ↦
          subst (λ o. Takes D (value_of o.answer) o.touched)
            (done-injective (rw (e, l, try_receive_once) at h)) tt
      | inr (g, l) ↦
          let (r, popped, k) =
            >>=-eq-done (pop D s.first.queue s.signal_errno)
              (λ r. done (received_once D s s.first.queue r)) (rw (e, l, try_receive_once) at h) in
          subst (λ o. Takes D (value_of o.answer) o.touched) (done-injective k)
            (received_once-Takes s s.first.queue r
              (pop_sound D s.first.queue s.signal_errno r popped))
    ]
  ]

  -- What a receiver that has the lock answers at the look at which its wait ended: the first item,
  -- or none from an empty queue whose senders are all gone, or while the channel is dropped.
  abbrev pub ReceivedAt : Look D → Outcome D (Option T) → Type 0
  ReceivedAt l o =
      ((x : T) × (d' : D.Deque) × (o.answer ≡ some x)
        × (o.touched ≡ some (l.queue, d'))
        × Popped D l.queue x d')
      ⊎ (o.answer ≡ none)
        × (o.touched ≡ none)
        × (D.items l.queue ≡ [])
        × ((l.peers ≡ 0) ⊎ (l.dropping ≡ true))

  pub no_item :
      (l : Look D)
      → can_receive D l ≡ true
      → D.items l.queue ≡ []
      → (l.peers ≡ 0) ⊎ (l.dropping ≡ true)
  no_item l ready e = let open_or : (is_empty (D.items l.queue) ≡ true) = rw e refl in ground arith

  received_at :
      (l : Look D) (r : Option (T × D.Deque))
      → can_receive D l ≡ true
      → Fitting D l.queue r
      → ReceivedAt l (received D l.queue r)
  received_at l none ready f = inr (refl, refl, f, no_item l ready f)
  received_at l (some (x, d')) ready f = inl (x, d', refl, refl, f)

  -- A receiver whose loop gets the lock without seeing `dropping`, whose wait finds its test
  -- passed at some look and whose pthread calls succeed, returns at a look of its wait: with
  -- the first item of the queue, which is taken out and leaves the capacity, or with none and
  -- the queue left alone, only where that look finds an empty queue, and no sender or the
  -- channel dropping.
  pub receive_lem :
      (rounds : List (Bool × Option MutexGuard)) (s : Sight D)
      → Locks rounds
      → All (λ w. w.0 ≡ 0) s.wakes
      → ReadyIn (can_receive D) s.first s.wakes
      → s.signal_errno.space ≡ 0
      → (l : Look D) × SeenIn (can_receive D) l s.first s.wakes
        × Ends (receive D rounds s) (ReceivedAt l)
  unfolding receive
  receive_lem rounds s locks fine ready signalled =
      let (l, waited, passed) = wait-ready (can_receive D) s.first s.wakes fine ready in
      let (r, popped, f) = pop-Fitting D l.queue s.signal_errno signalled in
      (
        l,
        wait-SeenIn (can_receive D) s.first l s.wakes waited,
        (
          received D l.queue r,
          rw (acquire-true rounds locks, receive, waited, popped) refl,
          received_at l r passed f,
        ),
      )

  -- what `try_receive_once` answers under the lock, from the items alone
  abbrev pub first_item : Sight D → List T → Result T TryReceiveError
  first_item s [] =
      if s.peers == 0 || s.leaving then err no_senders else err TryReceiveError.timed_out
  first_item s (x ∷ xs) = ok x

  abbrev pub once_answer : Sight D → Result T TryReceiveError
  once_answer s = if s.dropping then err no_senders else elim s.lock [
    | none ↦ err TryReceiveError.timed_out
    | some _ ↦ first_item s (D.items s.first.queue)
  ]

  received_once-first_item :
      (s : Sight D) (d : D.Deque) (r : Option (T × D.Deque))
      → Fitting D d r
      → (received_once D s d r).answer ≡ first_item s (D.items d)
  received_once-first_item s d (some (x, d')) f = rw (f.0) refl
  received_once-first_item s d none f = elim (Bool-cases (s.peers == 0 || s.leaving)) [
    | inl e ↦ rw (f, e) refl
    | inr e ↦ rw (f, e) refl
  ]

  once-done :
      (s : Sight D)
      → s.signal_errno.space ≡ 0
      → Ends (try_receive_once D s) (λ o. o.answer ≡ once_answer s)
  unfolding try_receive_once pop
  once-done s fine = elim (Bool-cases s.dropping) [
    | inl e ↦ (untouched D (err no_senders), rw (e, try_receive_once) refl, rw e refl)
    | inr e ↦ elim (Option-cases s.lock) [
      | inl l ↦ (
        untouched D (err TryReceiveError.timed_out),
        rw (e, l, try_receive_once) refl,
        rw (e, l) refl,
      )
      | inr (g, l) ↦
          let (r, popped, f) = pop-Fitting D s.first.queue s.signal_errno fine in
          (
            received_once D s s.first.queue r,
            rw (e, l, try_receive_once, popped) refl,
            rw (e, l) (received_once-first_item s s.first.queue r f),
          )
    ]
  ]

  -- Where its signal succeeds `try_receive_once` returns: with `no_senders` on a channel that
  -- is dropping, a timeout without the lock, and otherwise the first item of the queue; on an
  -- empty queue with `no_senders` where the later loads find no sender or the channel dropping,
  -- and a timeout otherwise. An item is taken out of the queue, and with an error the queue is
  -- left alone.
  pub try_receive_once_lem :
      (s : Sight D)
      → s.signal_errno.space ≡ 0
      → Ends
          (try_receive_once D s)
          (λ o. (o.answer ≡ once_answer s) × Takes D (value_of o.answer) o.touched)
  try_receive_once_lem s fine =
      let (o, run, e) = once-done s fine in (o, run, (e, try_receive_once-Takes s o run))
