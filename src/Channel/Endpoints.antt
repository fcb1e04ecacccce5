-- ===== src/Channel/Endpoints.antt =====
-- src/channel.rs: the calls with a timeout, of `Inner`, `Sender` and `Receiver`. Each makes its deadline
-- from a first reading of the clock; the conversion of the deadline makes readings of its own.
pub mod Laws
use shmem_util.Prelude.{
  ℕ, ◌+◌, ◌/◌, Bool, Exec, done, panic, ◌>>=◌, Result, leb, if◌then◌else◌, i64_max,
}
use shmem_util.External.{DequeOps}
use shmem_util.Time.{UnixClock, billion}
use shmem_util.Channel.Inner.{
  TryReceiveError, TrySendError, WaitingError, Deadline, Sight, Outcome, wait_for_message_until,
  try_receive_until, try_send_until,
}

pub record Readings : Type 0 where
  pub now : ℕ
  pub std_now : ℕ
  pub monotonic : UnixClock

-- `Instant::now() + timeout` panics where the seconds overflow.
unfoldable pub deadline_in : Readings → ℕ → Exec Deadline
deadline_in r timeout =
    if leb i64_max ((r.now + timeout) / billion)
    then panic
    else done (record { std_now = r.std_now; monotonic = r.monotonic; until = r.now + timeout })

module _ {T : Type 0} (D : DequeOps T) where
  unfoldable pub wait_for_message_timeout :
      Readings → ℕ → Sight D → Exec (Result (Unit {0}) WaitingError)
  wait_for_message_timeout r timeout s = do
    until ← deadline_in r timeout
    wait_for_message_until D until s

  unfoldable pub try_receive_timeout :
      Readings → ℕ → Sight D → Exec (Outcome D (Result T TryReceiveError))
  try_receive_timeout r timeout s = do until ← deadline_in r timeout; try_receive_until D until s

  unfoldable pub try_send_timeout :
      T → Readings → ℕ → Sight D → Exec (Outcome D (Result (Unit {0}) (TrySendError T)))
  try_send_timeout item r timeout s = do
    until ← deadline_in r timeout
    try_send_until D item until s
