-- ===== src/Channel/Wakeups.antt =====
-- A receiver of src/channel.rs that waits in `receive` with the senders beside it, or a sender that waits
-- in `send` with the receivers beside it, step by step: which step comes when is up to the schedule. The
-- waiter holds the lock from its test until it sleeps; a push or a pop of its peers needs the lock, and
-- the drop of a peer does not. The channel itself is not dropped meanwhile.
pub mod Laws
use shmem_util.Prelude.{
  ℕ, zero, suc, ◌≡◌, Bool, true, false, some, [], Exec, done, panic, hang, Result, ok, ◌==◌,
  if◌then◌else◌, ◌≢◌,
}
use shmem_util.External.{DequeOps}
use shmem_util.Channel.Inner.{Look, SignalErrno, can_receive, can_send, push, pop}
use shmem_util.Channel.Handles.{atomic_checked_sub}

-- what is waited for
pub data Waiter : Type 0 where
  for_item for_space : Waiter

-- Where the waiter stands: before the lock is taken (again), at the test, at the call of
-- `pthread_cond_wait` after a test that failed, asleep in it, or done with its wait.
pub data Phase : Type 0 where
  locking testing going waiting returned : Phase

abbrev pub has_lock : Phase → Bool
has_lock locking = false
has_lock testing = true
has_lock going = true
has_lock waiting = false
has_lock returned = true

abbrev pub woken : Phase → Phase
woken locking = locking
woken testing = testing
woken going = going
woken waiting = locking
woken returned = returned

-- no signal fails, or that of the condition variable on which such a waiter sleeps does
abbrev pub no_errno : SignalErrno
no_errno = record { item = 0; space = 0 }

abbrev pub failing : Waiter → SignalErrno
failing for_item = record { item = 1; space = 0 }
failing for_space = record { item = 0; space = 1 }

abbrev pub panics : {A : Type 0} → Exec A → Bool
panics (done a) = false
panics panic = true
panics hang = false

module _ {T : Type 0} (D : DequeOps T) where
  -- `broadcasts` counts the drops that have taken the last peer away and not yet broadcast.
  pub record State : Type 0 where
    pub queue : D.Deque
    pub peers : ℕ
    pub broadcasts : ℕ
    pub waiter : Phase

  abbrev pub look : State → Look D
  look s = record { queue = s.queue; peers = s.peers; dropping = false }

  -- the test of the wait
  abbrev pub ready : Waiter → Look D → Bool
  ready for_item = can_receive D
  ready for_space = can_send D

  -- what a peer does to the queue under the lock, where the signals do not fail
  abbrev pub Change : Waiter → D.Deque → D.Deque → Type 0
  Change for_item queue queue' = (x : T) × (push D queue x no_errno ≡ done (ok queue'))
  Change for_space queue queue' = (x : T) × (pop D queue no_errno ≡ done (some (x, queue')))

  -- Whether it signals the waiter: it does where it would panic if just that signal failed.
  abbrev pub signals : (w : Waiter) (queue queue' : D.Deque) → Change w queue queue' → Bool
  signals for_item queue queue' (x, _) = panics (push D queue x (failing for_item))
  signals for_space queue queue' (x, _) = panics (pop D queue (failing for_space))

module _ {T : Type 0} (D : DequeOps T) (w : Waiter) where
  -- A change wakes the waiter where it signals, which is before it releases the lock; a drop that leaves
  -- no peer is to broadcast; and a wait can end without a signal.
  pub data Step (s : State D) : State D → Type 0 where
    locks : s.waiter ≡ locking → Step s (record s { waiter = testing })
    passes :
        s.waiter ≡ testing → ready D w (look D s) ≡ true → Step s (record s { waiter = returned })
    fails : s.waiter ≡ testing → ready D w (look D s) ≡ false → Step s (record s { waiter = going })
    sleeps : s.waiter ≡ going → Step s (record s { waiter = waiting })
    changes :
        (queue' : D.Deque)
        → has_lock s.waiter ≡ false
        → s.peers ≢ 0
        → (change : Change D w s.queue queue')
        → Step s (record s {
          queue = queue';
          waiter = if signals D w s.queue queue' change then woken s.waiter else s.waiter;
        })
    drops :
        (left : ℕ)
        → atomic_checked_sub s.peers [] ≡ (left, some left)
        → Step s (record s {
          peers = left;
          broadcasts = if left == 0 then suc s.broadcasts else s.broadcasts;
        })
    broadcasts :
        (left : ℕ)
        → s.broadcasts ≡ suc left
        → Step s (record s { broadcasts = left; waiter = woken s.waiter })
    wakes_up : s.waiter ≡ waiting → Step s (record s { waiter = locking })

  -- A broadcast that does not come between a test and the sleep after it.
  abbrev pub Calm : (s t : State D) → Step s t → Type 0
  Calm s t (locks e) = Unit
  Calm s t (passes e h) = Unit
  Calm s t (fails e h) = Unit
  Calm s t (sleeps e) = Unit
  Calm s t (changes queue' free some_left e) = Unit
  Calm s t (drops left e) = Unit
  Calm s t (broadcasts left e) = s.waiter ≢ going
  Calm s t (wakes_up e) = Unit

  -- The wait does not end without a signal.
  abbrev pub Signalled : (s t : State D) → Step s t → Type 0
  Signalled s t (locks e) = Unit
  Signalled s t (passes e h) = Unit
  Signalled s t (fails e h) = Unit
  Signalled s t (sleeps e) = Unit
  Signalled s t (changes queue' free some_left e) = Unit
  Signalled s t (drops left e) = Unit
  Signalled s t (broadcasts left e) = Unit
  Signalled s t (wakes_up e) = ⊥

  abbrev pub Any : (s t : State D) → Step s t → Type 0
  Any s t x = Unit

  -- A schedule of allowed steps.
  pub data Schedule (allowed : (s t : State D) → Step s t → Type 0)
      : State D → State D → Type 0 where
    here : {s : State D} → Schedule allowed s s
    step :
        {s t u : State D} (x : Step s t)
        → allowed s t x
        → Schedule allowed t u
        → Schedule allowed s u

  -- No step is possible but a wake-up without a signal.
  abbrev pub Stuck : State D → Type 0
  Stuck s = (t : State D) (x : Step s t) → ¬ Signalled s t x
