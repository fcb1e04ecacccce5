-- ===== src/Channel/Inner.antt =====
-- src/channel.rs: the operations of `Inner`.
use shmem_util.Prelude.{
  ℕ, Bool, true, false, not, ◌||◌, Option, none, some, List, [], ◌∷◌, Exec, done, panic, hang,
  ◌>>=◌, ◌>>◌, Result, ok, err, ◌==◌, if◌then◌else◌,
}
use shmem_util.External.{DequeOps}
use shmem_util.Mutex.{MutexGuard}
use shmem_util.Time.{UnixClock}
use shmem_util.Condvar
use shmem_util.Condvar.{signal}

pub data TryReceiveError : Type 0 where
  timed_out no_senders : TryReceiveError

pub data TrySendError (T : Type 0) : Type 0 where
  timed_out : T → TrySendError T
  no_receivers : T → TrySendError T

-- what the signals of the two condition variables answer, `item_maybe_available` and
-- `space_maybe_available`, when they are called
pub record SignalErrno : Type 0 where
  pub item : ℕ
  pub space : ℕ

pub data WaitingError : Type 0 where
  queue_dropped timeout_reached : WaitingError

-- the readings of the clock by which an `Instant` becomes a deadline
pub record Deadline : Type 0 where
  pub std_now : ℕ
  pub monotonic : UnixClock
  pub until : ℕ

abbrev pub is_empty {ℓ} : {A : Type ℓ} → List A → Bool
is_empty [] = true
is_empty (_ ∷ _) = false

-- The loop of `receive` and `try_send` around the lock: for each round whether `dropping` was set,
-- and what `try_lock_for` answered. The result says whether the lock was got.
unfoldable pub acquire : List (Bool × Option MutexGuard) → Exec Bool
acquire [] = hang
acquire ((dropping, guard) ∷ rounds) =
    let continue = acquire rounds in
    if dropping then done false else elim guard [ none ↦ continue | some _ ↦ done true ]

module _ {T : Type 0} (D : DequeOps T) where
  -- What a test inside a wait looks at: the queue, under the lock, the count of the other side
  -- (`senders` for a receiver), and `dropping`.
  pub record Look : Type 0 where
    pub queue : D.Deque
    pub peers : ℕ
    pub dropping : Bool

  -- What an operation sees: `dropping` at its start, the answer of its try to lock, the looks of its
  -- wait, the second loads of the count and of `dropping`, and the answers to its signals.
  pub record Sight : Type 0 where
    pub dropping : Bool
    pub lock : Option MutexGuard
    pub first : Look
    pub wakes : List (ℕ × Look)
    pub peers : ℕ
    pub leaving : Bool
    pub signal_errno : SignalErrno

  -- The answer, and the queue before and after, where it was changed.
  pub record Outcome (R : Type 0) : Type 0 where
    pub answer : R
    pub touched : Option (D.Deque × D.Deque)

  abbrev pub untouched : {R : Type 0} → R → Outcome R
  untouched r = record { answer = r; touched = none }

  abbrev pub can_receive : Look → Bool
  can_receive l = not (is_empty (D.items l.queue)) || (l.peers == 0 || l.dropping)

  abbrev pub can_send : Look → Bool
  can_send l = not (D.remaining_capacity l.queue == 0) || (l.peers == 0 || l.dropping)

  abbrev pub has_message : Look → Bool
  has_message l = not (is_empty (D.items l.queue)) || l.dropping

  unfoldable pub push : D.Deque → T → SignalErrno → Exec (Result D.Deque D.Error)
  push queue item errno = elim (D.push_back queue item) [
    | err e ↦ done (err e)
    | ok queue' ↦ do signal errno.item; done (ok queue')
  ]

  unfoldable pub pop : D.Deque → SignalErrno → Exec (Option (T × D.Deque))
  pop queue errno = elim (D.pop_front queue) [
    | none ↦ done none
    | some popped ↦ do signal errno.space; done (some popped)
  ]

  unfoldable pub wait_for_message_until : Deadline → Sight → Exec (Result (Unit {0}) WaitingError)
  wait_for_message_until t s = if s.dropping then done (err queue_dropped) else elim s.lock [
    | none ↦ done (err timeout_reached)
    | some _ ↦ do
      waited ← Condvar.wait_until has_message t.std_now t.monotonic t.until s.first s.wakes
      elim waited [ ok _ ↦ done (ok tt) | err _ ↦ done (err timeout_reached) ]
  ]

  -- what `receive` returns after its `pop`
  abbrev pub received : D.Deque → Option (T × D.Deque) → Outcome (Option T)
  received queue none = untouched none
  received queue (some (item, queue')) = record {
    answer = some item;
    touched = some (queue, queue');
  }

  -- `receive`, with the lock or without
  abbrev pub receive_locked : Sight → Bool → Exec (Outcome (Option T))
  receive_locked s true = do
    look ← Condvar.wait can_receive s.first s.wakes
    popped ← pop look.queue s.signal_errno
    done (received look.queue popped)
  receive_locked s false = done (untouched none)

  -- Of the sight only the looks and the answers to the signals are used.
  unfoldable pub receive : List (Bool × Option MutexGuard) → Sight → Exec (Outcome (Option T))
  receive rounds s = do locked ← acquire rounds; receive_locked s locked

  -- the `expect` of `try_receive_until`
  abbrev pub expect_item :
      D.Deque → Option (T × D.Deque) → Exec (Outcome (Result T TryReceiveError))
  expect_item queue none = panic
  expect_item queue (some (item, queue')) =
      done (record { answer = ok item; touched = some (queue, queue') })

  -- `try_receive_until` after its wait
  abbrev pub receive_waited : Sight → Result Look Look → Exec (Outcome (Result T TryReceiveError))
  receive_waited s (err look) = done (untouched (err TryReceiveError.timed_out))
  receive_waited s (ok look) =
      if s.peers == 0 || s.leaving
      then done (untouched (err no_senders))
      else (do popped ← pop look.queue s.signal_errno; expect_item look.queue popped)

  unfoldable pub try_receive_until : Deadline → Sight → Exec (Outcome (Result T TryReceiveError))
  try_receive_until t s = if s.dropping then done (untouched (err no_senders)) else elim s.lock [
    | none ↦ done (untouched (err TryReceiveError.timed_out))
    | some _ ↦ do
      waited ← Condvar.wait_until can_receive t.std_now t.monotonic t.until s.first s.wakes
      receive_waited s waited
  ]

  -- `try_receive_once` after its `pop`
  abbrev pub received_once :
      Sight → D.Deque → Option (T × D.Deque) → Outcome (Result T TryReceiveError)
  received_once s queue (some (item, queue')) = record {
    answer = ok item;
    touched = some (queue, queue');
  }
  received_once s queue none =
      if s.peers == 0 || s.leaving
      then untouched (err no_senders)
      else untouched (err TryReceiveError.timed_out)

  unfoldable pub try_receive_once : Sight → Exec (Outcome (Result T TryReceiveError))
  try_receive_once s = if s.dropping then done (untouched (err no_senders)) else elim s.lock [
    | none ↦ done (untouched (err TryReceiveError.timed_out))
    | some _ ↦ do
      popped ← pop s.first.queue s.signal_errno
      done (received_once s s.first.queue popped)
  ]

  -- `push(..).expect(..)`, and `Ok(())`
  abbrev pub pushed :
      {E : Type 0} → D.Deque → Result D.Deque D.Error → Exec (Outcome (Result (Unit {0}) E))
  pushed queue (err e) = panic
  pushed queue (ok queue') = done (record { answer = ok tt; touched = some (queue, queue') })

  -- `try_send` after its wait
  abbrev pub sent_waited : T → Sight → Look → Exec (Outcome (Result (Unit {0}) T))
  sent_waited item s look =
      if s.peers == 0 || s.leaving
      then done (untouched (err item))
      else (do stored ← push look.queue item s.signal_errno; pushed look.queue stored)

  -- `try_send`, with the lock or without
  abbrev pub send_locked : T → Sight → Bool → Exec (Outcome (Result (Unit {0}) T))
  send_locked item s true = do look ← Condvar.wait can_send s.first s.wakes; sent_waited item s look
  send_locked item s false = done (untouched (err item))

  unfoldable pub try_send :
      T → List (Bool × Option MutexGuard) → Sight → Exec (Outcome (Result (Unit {0}) T))
  try_send item rounds s = do locked ← acquire rounds; send_locked item s locked

  -- `try_send_until` after its wait
  abbrev pub send_waited :
      T → Sight → Result Look Look → Exec (Outcome (Result (Unit {0}) (TrySendError T)))
  send_waited item s (err look) = done (untouched (err (TrySendError.timed_out item)))
  send_waited item s (ok look) =
      if s.peers == 0 || s.leaving
      then done (untouched (err (no_receivers item)))
      else (do stored ← push look.queue item s.signal_errno; pushed look.queue stored)

  unfoldable pub try_send_until :
      T → Deadline → Sight → Exec (Outcome (Result (Unit {0}) (TrySendError T)))
  try_send_until item t s =
      if s.dropping then done (untouched (err (no_receivers item))) else elim s.lock [
        | none ↦ done (untouched (err (TrySendError.timed_out item)))
        | some _ ↦ do
          waited ← Condvar.wait_until can_send t.std_now t.monotonic t.until s.first s.wakes
          send_waited item s waited
      ]

  unfoldable pub try_send_once : T → Sight → Exec (Outcome (Result (Unit {0}) (TrySendError T)))
  try_send_once item s =
      if s.dropping then done (untouched (err (no_receivers item))) else elim s.lock [
        | none ↦ done (untouched (err (TrySendError.timed_out item)))
        | some _ ↦
            if D.remaining_capacity s.first.queue == 0
            then done (untouched (err (TrySendError.timed_out item)))
            else if s.peers == 0 || s.leaving
            then done (untouched (err (no_receivers item)))
            else (do stored ← push s.first.queue item s.signal_errno; pushed s.first.queue stored)
      ]
