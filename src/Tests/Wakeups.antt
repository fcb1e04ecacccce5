-- ===== src/Tests/Wakeups.antt =====
-- Schedules of a receiver that waits, and its senders.
use shmem_util.Prelude.{ℕ, ◌≡◌, refl, []}
use shmem_util.External.{DequeOps}
use shmem_util.External.Instances.{list_deque}
use shmem_util.Channel.Handles.{atomic_checked_sub}
use shmem_util.Channel.Wakeups.{
  for_item, State, locking, waiting, locks, fails, sleeps, drops, Any, Calm, Signalled, Schedule,
  here, step, Stuck,
}
use shmem_util.Channel.Wakeups.Laws.{
  facing, changes-noticed, last_drop_missed, CanReturn, Calm-CanReturn,
}

abbrev D : DequeOps ℕ
D = list_deque ℕ

abbrev empty : D.Deque
empty = record { items = []; spare = 2 }

-- the receiver falls asleep beside two senders, and one of them goes
abbrev asleep : State D
asleep = facing D empty 1 waiting

falls_asleep : Schedule D for_item (Calm D for_item) (facing D empty 2 locking) asleep
unfolding atomic_checked_sub
falls_asleep =
    step (locks refl) tt
      (step (fails refl refl) tt (step (sleeps refl) tt (step (drops 1 refl) tt here)))

-- the same without the condition on broadcasts
falls_asleep_somehow : Schedule D for_item (Any D for_item) (facing D empty 2 locking) asleep
unfolding atomic_checked_sub
falls_asleep_somehow =
    step (locks refl) tt
      (step (fails refl refl) tt (step (sleeps refl) tt (step (drops 1 refl) tt here)))

changes-noticed_example : D.items asleep.queue ≡ []
changes-noticed_example = changes-noticed D for_item refl falls_asleep_somehow refl

last_drop_missed_example :
    (s : State D) × Schedule D for_item (Signalled D for_item) (facing D empty 1 locking) s
    × (s.waiter ≡ waiting)
    × (s.peers ≡ 0)
    × Stuck D for_item s
last_drop_missed_example = last_drop_missed D for_item empty refl

Calm-CanReturn_example : CanReturn D for_item asleep
Calm-CanReturn_example = Calm-CanReturn D for_item refl falls_asleep
