-- ===== src/Tests/Channel.antt =====
-- The channel's operations on a queue of numbers with room for two.
use shmem_util.Prelude.{
  ℕ, ◌≡◌, ◌⊎◌, inl, inr, refl, Bool, false, Option, none, some, List, [], ◌∷◌, done, panic, Ends,
  arith,
}
use shmem_util.External.{DequeOps}
use shmem_util.External.Instances.{list_deque}
use shmem_util.Mutex.{MutexGuard, guard, e_timedout}
use shmem_util.Time.{from, add}
use shmem_util.Time.Laws.{clock}
use shmem_util.Condvar.Laws.{SeenIn}
use shmem_util.Channel.Inner.{
  Look, Sight, Deadline, can_receive, can_send, receive, try_receive_until, try_send,
  try_send_until,
}
use shmem_util.Channel.Receive.{ReceivedAt, receive_lem}
use shmem_util.Channel.ReceiveUntil.{
  ReceivedUntil, Revived, try_receive_until_lem, try_receive_until_panics,
}
use shmem_util.Channel.Send.{SentAt, Raced, try_send_lem}
use shmem_util.Channel.Endpoints.{Readings}
use shmem_util.Channel.Endpoints.Laws.{OnTime}
use shmem_util.Channel.SendUntil.{SentUntil, try_send_until_lem}

abbrev D : DequeOps ℕ
D = list_deque ℕ

-- a look at a queue of these items, with so many peers
abbrev look : List ℕ → ℕ → ℕ → Look D
look items spare peers = record {
  queue = record { items = items; spare = spare };
  peers = peers;
  dropping = false;
}

-- A start at an undropped channel with the lock, and the given looks; the second loads find `peers`.
abbrev sight : Look D → List (ℕ × Look D) → ℕ → Sight D
sight first wakes peers = record {
  dropping = false;
  lock = some guard;
  first = first;
  wakes = wakes;
  peers = peers;
  leaving = false;
  signal_errno = record { item = 0; space = 0 };
}

-- the lock is missed once
abbrev rounds : List (Bool × Option MutexGuard)
rounds = (false, none) ∷ (false, some guard) ∷ []

abbrev deadline : Deadline
deadline = record { std_now = 5; monotonic = clock 100 0; until = 7 }

due : from 5 (clock 100 0) 7 ≡ done (clock 100 2)
unfolding from add
due = refl

-- an empty queue, to which an item comes
abbrev item_wakes : Sight D
item_wakes = sight (look [] 2 1) ((0, look (4 ∷ []) 1 1) ∷ []) 1

abbrev room_wakes : Sight D
room_wakes = sight (look (4 ∷ 5 ∷ []) 0 1) ((0, look (5 ∷ []) 1 1) ∷ []) 1

-- the same, with a timeout later; an empty queue, to which an item comes
abbrev item_comes : Sight D
item_comes = sight (look [] 2 1) ((0, look (4 ∷ []) 1 1) ∷ (e_timedout, look (4 ∷ []) 1 1) ∷ []) 1

-- a full queue, which then has room
abbrev room_comes : Sight D
room_comes =
    sight (look (4 ∷ 5 ∷ []) 0 1) ((0, look (5 ∷ []) 1 1) ∷ (e_timedout, look (5 ∷ []) 1 1) ∷ []) 1

receive_lem_example :
    (l : Look D) × SeenIn (can_receive D) l item_wakes.first item_wakes.wakes
    × Ends (receive D rounds item_wakes) (ReceivedAt D l)
receive_lem_example =
    receive_lem D rounds item_wakes (refl, inr (refl, (refl, inl refl))) (refl, tt) (inr refl) refl

try_receive_until_lem_example :
    (l : Look D) × SeenIn (can_receive D) l item_comes.first item_comes.wakes
    × (Ends (try_receive_until D deadline item_comes) (ReceivedUntil D item_comes l)
        ⊎ Revived D item_comes l)
try_receive_until_lem_example =
    try_receive_until_lem D deadline (clock 100 2) item_comes due refl refl (inr (refl, inl refl))
      refl

-- the last sender has gone at the first look, and another is there at the second load
try_receive_until_panics_example : try_receive_until D deadline (sight (look [] 2 0) [] 1) ≡ panic
try_receive_until_panics_example =
    try_receive_until_panics D deadline (clock 100 2) (sight (look [] 2 0) [] 1) due refl refl refl
      refl (λ e. omega arith) refl

try_send_lem_example :
    (l : Look D) × SeenIn (can_send D) l room_wakes.first room_wakes.wakes
    × (Ends (try_send D 6 rounds room_wakes) (SentAt D 6 room_wakes l) ⊎ Raced D room_wakes l)
try_send_lem_example =
    try_send_lem D 6 rounds room_wakes (refl, inr (refl, (refl, inl refl))) (refl, tt) (inr refl)
      refl

try_send_until_lem_example :
    (l : Look D) × SeenIn (can_send D) l room_comes.first room_comes.wakes
    × (Ends (try_send_until D 6 deadline room_comes) (SentUntil D 6 room_comes l)
        ⊎ Raced D room_comes l)
try_send_until_lem_example =
    try_send_until_lem D 6 deadline (clock 100 2) room_comes due refl refl (inr (refl, inl refl))
      refl

-- the deadline is two nanoseconds away, and converted one nanosecond later
abbrev readings : Readings
readings = record { now = 5; std_now = 6; monotonic = clock 100 0 }

readings-OnTime : OnTime readings 2 100 0
readings-OnTime = record {
  reading = refl;
  range = omega arith;
  in_time = omega arith;
  small = omega arith;
  representable = omega arith;
}
