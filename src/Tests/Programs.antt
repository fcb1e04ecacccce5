-- ===== src/Tests/Programs.antt =====
-- The example and the test of two processes on queues that are lists, and a receiver that a child has
-- inherited.
use shmem_util.Prelude.{
  ℕ, ◌≡◌, refl, Bool, true, false, Option, some, List, [], ◌∷◌, done, err, get_elem?, Ends, arith,
}
use shmem_util.External.{DequeOps}
use shmem_util.External.Instances.{list_deque}
use shmem_util.Mutex.{MutexGuard, guard}
use shmem_util.Channel.Lifetime.{drops_receiver, Fine}
use shmem_util.Channel.Processes.{Proc, System, uses, advance}
use shmem_util.Channel.Inner.{Sight, acquire, try_send}
use shmem_util.Channel.Line.{quiet, made_by, fork_with_handles}
use shmem_util.Channel.Line.Inherited.{inherited_receiver_closes}
use shmem_util.Channel.Replying.{check}
use shmem_util.Channel.Replying.Staged
use shmem_util.Channel.Replying.Laws.{check-Passes}
use shmem_util.Threads.{Fails}
use shmem_util.Threads.Explore.{Passes}

abbrev D : DequeOps ℕ
D = list_deque ℕ

abbrev empty : ℕ → D.Deque
empty room = record { items = []; spare = room }

check-Passes_example :
    Ends (check D D true (empty 1) (empty 1)) (Passes Staged.over)
    × Ends (check D D false (empty 1) (empty 1)) Fails
check-Passes_example = check-Passes D D (empty 1) (empty 1) refl refl

-- process 7 has a channel and its receiver
abbrev parent : Proc
parent = record {
  pid = 7;
  references = record { counter = 2; pid = 7 };
  live = record { channels = 1; senders = 0; receivers = 1 };
}

abbrev line : System D.Deque
line = record {
  parts = record {
    mutex = record {
      pshared = true;
      contents = empty 2;
      creator_pid = 7;
      destroyed = false;
      dropped = false;
    };
    item_maybe_available = (made_by 7).item_maybe_available;
    space_maybe_available = (made_by 7).space_maybe_available;
  };
  owner = 7;
  senders = 0;
  receivers = 1;
  dropping = false;
  destroyed = false;
  procs = parent ∷ [];
}

-- a sender that finds room and no receivers
abbrev alone : Sight D
alone = record {
  dropping = false;
  lock = some guard;
  first = record { queue = empty 2; peers = 0; dropping = false };
  wakes = [];
  peers = 0;
  leaving = false;
  signal_errno = record { item = 0; space = 0 };
}

abbrev at_once : List (Bool × Option MutexGuard)
at_once = (false, some guard) ∷ []

locked_at_once : acquire at_once ≡ done true
unfolding acquire
locked_at_once = refl

quiet-Fine : Fine quiet
quiet-Fine = record {
  item = refl;
  space = refl;
  ends = (some guard, refl);
  mutex_gone = refl;
  item_gone = refl;
  space_gone = refl;
}

inherited_receiver_closes_example :
    Ends
      (advance (fork_with_handles line 8) (uses 0 drops_receiver quiet))
      (λ s. (s.receivers ≡ 0) × (s.destroyed ≡ false) × (get_elem? s.procs 1 ≡ some parent))
    × Ends (try_send D 5 at_once alone) (λ o. o.answer ≡ err 5)
inherited_receiver_closes_example =
    inherited_receiver_closes D line parent [] 8 quiet 5 at_once alone true refl refl refl refl
      (λ e. absurd (omega arith)) quiet-Fine locked_at_once refl refl
