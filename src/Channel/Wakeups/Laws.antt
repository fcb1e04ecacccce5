-- ===== src/Channel/Wakeups/Laws.antt =====
-- Which wake-ups a receiver or a sender that waits cannot miss, and which it can.
use shmem_util.Prelude.{
  ℕ, zero, suc, ◌≡◌, ◌≢◌, ◌⊎◌, inl, inr, refl, ◌<◌, ◌-◌, true, false, [], ◌==◌, if◌then◌else◌,
  Bool-cases, Option-cases, arith,
}
use mathlib.Core.Path.{subst}
use shmem_util.External.{DequeOps}
use shmem_util.Channel.Inner.{push, pop}
use shmem_util.Channel.Queue.{Result-cases}
use shmem_util.Channel.Handles.{atomic_checked_sub}
use shmem_util.Channel.Wakeups.{
  Waiter, for_item, for_space, ready, Phase, locking, testing, going, waiting, returned, woken,
  State, look, Step, locks, passes, fails, sleeps, changes, drops, broadcasts, wakes_up, Calm, Any,
  Signalled, Schedule, signals, Change, here, step, Stuck,
}

-- between a failed test and the next wake-up
abbrev pub Idle : Phase → Type 0
Idle locking = ¬ Unit
Idle testing = ¬ Unit
Idle going = Unit
Idle waiting = Unit
Idle returned = ¬ Unit

woken-Idle : (p : Phase) → Idle (woken p) → p ≡ going
woken-Idle going h = refl
woken-Idle locking h = absurd (h tt)
woken-Idle testing h = absurd (h tt)
woken-Idle waiting h = absurd (h tt)
woken-Idle returned h = absurd (h tt)

module _ {T : Type 0} (D : DequeOps T) where
  -- nothing in the queue that is waited for
  abbrev pub Blocked : Waiter → D.Deque → Type 0
  Blocked for_item queue = D.items queue ≡ []
  Blocked for_space queue = D.remaining_capacity queue ≡ 0

  failed_wait :
      (w : Waiter) (queue : D.Deque) (n : ℕ)
      → ready D w (record { queue = queue; peers = n; dropping = false }) ≡ false
      → Blocked w queue × (n ≢ 0)
  failed_wait for_item queue n h = ground arith
  failed_wait for_space queue n h = ground arith

  Blocked-not_ready :
      (w : Waiter) (queue : D.Deque) (n : ℕ)
      → Blocked w queue
      → ready D w (record { queue = queue; peers = suc n; dropping = false }) ≡ false
  Blocked-not_ready for_item queue n h = rw h (ground arith)
  Blocked-not_ready for_space queue n h = rw h (ground arith)

  alone_ready :
      (w : Waiter) (queue : D.Deque)
      → ready D w (record { queue = queue; peers = 0; dropping = false }) ≡ true
  alone_ready for_item queue = ground arith
  alone_ready for_space queue = ground arith

  -- A push and a pop that succeed signal the one that waits for them.
  Change-signals :
      (w : Waiter) (queue queue' : D.Deque) (change : Change D w queue queue')
      → signals D w queue queue' change ≡ true
  unfolding push pop
  Change-signals for_item queue queue' (x, e) = elim (Result-cases (D.push_back queue x)) [
    | inl (d, f) ↦ rw (f, push) refl
    | inr (g, f) ↦ absurd (let refused = rw (f, push) at e in ground arith)
  ]
  Change-signals for_space queue queue' (x, e) = elim (Option-cases (D.pop_front queue)) [
    | inl f ↦ absurd (let none_there = rw (f, pop) at e in ground arith)
    | inr (p, f) ↦ rw (f, pop) refl
  ]

  -- a waiter with so many peers
  abbrev pub facing : D.Deque → ℕ → Phase → State D
  facing queue peers phase = record { queue = queue; peers = peers; broadcasts = 0; waiter = phase }

module _ {T : Type 0} (D : DequeOps T) (w : Waiter) where
  -- blocked while idle
  abbrev NothingMissed : State D → Type 0
  NothingMissed s = Idle s.waiter → Blocked D w s.queue

  failed : (s : State D) → ready D w (look D s) ≡ false → (Blocked D w s.queue) × (s.peers ≢ 0)
  failed s h = failed_wait D w s.queue s.peers h

  step-NothingMissed : (s t : State D) → Step D w s t → NothingMissed s → NothingMissed t
  step-NothingMissed s t (locks e) h idle = absurd (idle tt)
  step-NothingMissed s t (passes e ready) h idle = absurd (idle tt)
  step-NothingMissed s t (fails e not_ready) h idle = (failed s not_ready).0
  step-NothingMissed s t (sleeps e) h idle = h (rw e tt)
  step-NothingMissed s t (changes queue' free some_left e) h idle =
      let roused : Idle (woken s.waiter) = rw (Change-signals D w s.queue queue' e) at idle in
      absurd (let g = woken-Idle s.waiter roused in ground arith)
  step-NothingMissed s t (drops left e) h idle = h idle
  step-NothingMissed s t (broadcasts left e) h idle = h (rw (woken-Idle s.waiter idle) tt)
  step-NothingMissed s t (wakes_up e) h idle = absurd (idle tt)

  Schedule-NothingMissed :
      {s t : State D} → Schedule D w (Any D w) s t → NothingMissed s → NothingMissed t
  Schedule-NothingMissed here h = h
  Schedule-NothingMissed (step {s} {t} x _ rest) h =
      Schedule-NothingMissed rest (step-NothingMissed s t x h)

  -- However a receiver in `receive` and the senders beside it, or a sender in `send` and the
  -- receivers beside it, are scheduled, where no signal fails, and even where the wait ends
  -- without one, one that has started before its lock and sleeps now is blocked by the queue,
  -- which is empty or has no room left: no push and no pop of the others is missed.
  pub changes-noticed :
      {s t : State D}
      → s.waiter ≡ locking
      → Schedule D w (Any D w) s t
      → t.waiter ≡ waiting
      → Blocked D w t.queue
  changes-noticed {s} start schedule asleep =
      Schedule-NothingMissed schedule (λ h. absurd (subst Idle start h tt)) (rw asleep tt)

  asleep-Stuck : (queue : D.Deque) → Stuck D w (facing D queue 0 waiting)
  unfolding atomic_checked_sub
  asleep-Stuck queue t (locks e) _ = ground arith
  asleep-Stuck queue t (passes e ready) _ = ground arith
  asleep-Stuck queue t (fails e not_ready) _ = ground arith
  asleep-Stuck queue t (sleeps e) _ = ground arith
  asleep-Stuck queue t (changes queue' free some_left e) _ = some_left refl
  asleep-Stuck queue t (drops left e) _ = ground arith
  asleep-Stuck queue t (broadcasts left e) _ = ground arith
  asleep-Stuck queue t (wakes_up e) signalled = signalled

  -- On an empty queue, and on one without room, there is a schedule of a receiver in `receive`
  -- and the drop of the only sender, or of a sender in `send` and the drop of the only
  -- receiver, that ends with the one that waits asleep and none of the others left, and no step
  -- possible from there on but a wake-up without a signal: the broadcast comes between the test
  -- and the sleep.
  pub last_drop_missed :
      (queue : D.Deque)
      → Blocked D w queue
      → (s : State D) × Schedule D w (Signalled D w) (facing D queue 1 locking) s
        × (s.waiter ≡ waiting)
        × (s.peers ≡ 0)
        × Stuck D w s
  unfolding atomic_checked_sub
  last_drop_missed queue empty = (
    facing D queue 0 waiting,
    step (locks refl) tt (
        step (fails refl (Blocked-not_ready D w queue 0 empty)) tt
          (step (drops 0 refl) tt (step (broadcasts 0 refl) tt (step (sleeps refl) tt here)))),
    refl,
    refl,
    asleep-Stuck queue,
  )

  -- after a drop that leaves `n` peers
  still : (n b : ℕ) → (0 < n) ⊎ (0 < (if n == 0 then suc b else b))
  still n b = elim (Bool-cases (n == 0)) [
    | inl last ↦ inr (rw last (omega arith))
    | inr more ↦ inl (ground arith)
  ]

  -- While idle, a peer is left or a broadcast is to come.
  abbrev Awaited : State D → Type 0
  Awaited s = Idle s.waiter → (0 < s.peers) ⊎ (0 < s.broadcasts)

  step-Awaited : (s t : State D) (x : Step D w s t) → Calm D w s t x → Awaited s → Awaited t
  step-Awaited s t (locks e) calm h idle = absurd (idle tt)
  step-Awaited s t (passes e ready) calm h idle = absurd (idle tt)
  step-Awaited s t (fails e not_ready) calm h idle =
      let (_, some_left) = failed s not_ready in inl (ground arith)
  step-Awaited s t (sleeps e) calm h idle = h (rw e tt)
  step-Awaited s t (changes queue' free some_left e) calm h idle = inl (ground arith)
  step-Awaited s t (drops left e) calm h idle = still left s.broadcasts
  step-Awaited s t (broadcasts left e) calm h idle = absurd (calm (woken-Idle s.waiter idle))
  step-Awaited s t (wakes_up e) calm h idle = absurd (idle tt)

  Schedule-Awaited : {s t : State D} → Schedule D w (Calm D w) s t → Awaited s → Awaited t
  Schedule-Awaited here h = h
  Schedule-Awaited (step {s} {t} x calm rest) h = Schedule-Awaited rest (step-Awaited s t x calm h)

  -- the schedules by which the waiter returns, without a wake-up that is not signalled
  abbrev pub CanReturn : State D → Type 0
  CanReturn s = (t : State D) × Schedule D w (Signalled D w) s t × (t.waiter ≡ returned)

  after : (s t : State D) (x : Step D w s t) → Signalled D w s t x → CanReturn t → CanReturn s
  after s t x signalled (u, schedule, back) = (u, step x signalled schedule, back)

  -- The last broadcast wakes a waiter that is asleep, and it finds no peer.
  broadcast-CanReturn :
      (s : State D) → s.peers ≡ 0 → s.waiter ≡ waiting → 0 < s.broadcasts → CanReturn s
  broadcast-CanReturn s none_left asleep pending =
      let awake : woken s.waiter ≡ locking = rw asleep refl in
      after s (record s { broadcasts = s.broadcasts - 1; waiter = woken s.waiter })
        (broadcasts (s.broadcasts - 1) (ground arith)) tt
        (after _ (record s { broadcasts = s.broadcasts - 1; waiter = testing }) (locks awake) tt
          (after _ (record s { broadcasts = s.broadcasts - 1; waiter = returned })
            (passes refl (ground arith)) tt (_, here, refl)))

  waiting-CanReturn :
      (n : ℕ) (s : State D)
      → s.peers ≡ n
      → s.waiter ≡ waiting
      → (0 < s.peers) ⊎ (0 < s.broadcasts)
      → CanReturn s
  unfolding atomic_checked_sub
  waiting-CanReturn zero s e asleep (inl some_left) = absurd (omega arith)
  waiting-CanReturn zero s e asleep (inr pending) = broadcast-CanReturn s e asleep pending
  waiting-CanReturn (suc n) s e asleep awaited =
      after s
        (record s { peers = n; broadcasts = if n == 0 then suc s.broadcasts else s.broadcasts })
        (drops n (ground arith)) tt (waiting-CanReturn n _ refl asleep (still n s.broadcasts))

  going-CanReturn :
      (s : State D) → s.waiter ≡ going → (0 < s.peers) ⊎ (0 < s.broadcasts) → CanReturn s
  going-CanReturn s off awaited =
      after s (record s { waiter = waiting }) (sleeps off) tt
        (waiting-CanReturn s.peers (record s { waiter = waiting }) refl refl awaited)

  testing-CanReturn : (s : State D) → s.waiter ≡ testing → CanReturn s
  testing-CanReturn s tests = elim (Bool-cases (ready D w (look D s))) [
    | inl ready ↦ after s (record s { waiter = returned }) (passes tests ready) tt (_, here, refl)
    | inr not_ready ↦
        let (_, some_left) = failed s not_ready in
        after s (record s { waiter = going }) (fails tests not_ready) tt
          (going-CanReturn (record s { waiter = going }) refl (inl (ground arith)))
  ]

  CanReturn-from : (s : State D) (p : Phase) → s.waiter ≡ p → Awaited s → CanReturn s
  CanReturn-from s locking e h =
      after s (record s { waiter = testing }) (locks e) tt
        (testing-CanReturn (record s { waiter = testing }) refl)
  CanReturn-from s testing e h = testing-CanReturn s e
  CanReturn-from s going e h = going-CanReturn s e (h (rw e tt))
  CanReturn-from s waiting e h = waiting-CanReturn s.peers s refl e (h (rw e tt))
  CanReturn-from s returned e h = (s, here, e)

  -- However a receiver in `receive` and the senders beside it, or a sender in `send` and the
  -- receivers beside it, are scheduled, as long as no broadcast comes between a test of the one
  -- that waits and its sleep, there are further steps after which it returns, none of them a
  -- wake-up without a signal.
  pub Calm-CanReturn :
      {s t : State D} → s.waiter ≡ locking → Schedule D w (Calm D w) s t → CanReturn t
  Calm-CanReturn {s} {t} start schedule =
      CanReturn-from t t.waiter refl
        (Schedule-Awaited schedule (λ h. absurd (subst Idle start h tt)))
