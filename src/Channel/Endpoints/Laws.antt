-- ===== src/Channel/Endpoints/Laws.antt =====
-- With a timeout that is not yet past when the deadline is converted, the calls keep their promises.
use shmem_util.Prelude.{
  ℕ, ◌+◌, ◌-◌, ◌/◌, ◌≤◌, ◌<◌, ◌≡◌, ◌⊎◌, inl, false, some, done, Ends, i64_max, arith,
}
use shmem_util.External.{DequeOps}
use shmem_util.Mutex.{guard}
use shmem_util.Time.{UnixClock, billion, from}
use shmem_util.Time.Laws.{clock, from_exact_iff}
use shmem_util.Condvar.Laws.{SeenIn, TimesOut}
use shmem_util.Channel.Inner.{Deadline, Look, Sight, has_message, can_receive, can_send}
use shmem_util.Channel.Waiting.{Waited, wait_for_message_until_lem}
use shmem_util.Channel.ReceiveUntil.{ReceivedUntil, Revived, try_receive_until_lem}
use shmem_util.Channel.Send.{Raced}
use shmem_util.Channel.SendUntil.{SentUntil, try_send_until_lem}
use shmem_util.Channel.Endpoints.{
  Readings, deadline_in, wait_for_message_timeout, try_receive_timeout, try_send_timeout,
}

-- The conversion comes before the deadline, and nothing overflows.
pub record OnTime (r : Readings) (timeout s m : ℕ) : Type 0 where
  pub reading : r.monotonic ≡ clock s m
  pub range : m < billion
  pub in_time : r.std_now ≤ r.now + timeout
  pub small : s + (r.now + timeout - r.std_now) / billion + 1 < i64_max
  pub representable : (r.now + timeout) / billion < i64_max

abbrev deadline_of : Readings → ℕ → Deadline
deadline_of r timeout = record {
  std_now = r.std_now;
  monotonic = r.monotonic;
  until = r.now + timeout;
}

made :
    (r : Readings) (timeout s m : ℕ)
    → OnTime r timeout s m
    → deadline_in r timeout ≡ done (deadline_of r timeout)
unfolding deadline_in
made r timeout s m h = let fits = h.representable in ground arith

converted :
    (r : Readings) (timeout s m : ℕ)
    → OnTime r timeout s m
    → (c : UnixClock) × (from r.std_now r.monotonic (r.now + timeout) ≡ done c)
converted r timeout s m h =
    let (_, back) =
      from_exact_iff s m r.std_now (r.now + timeout) h.range h.small (omega (arith, h.in_time)) in
    let (c, e, _) = back (inl h.in_time) in (c, rw h.reading e)

module _ {T : Type 0} (D : DequeOps T) (r : Readings) (timeout s m : ℕ)
    (h : OnTime r timeout s m) where
  -- With the lock, on a channel that is not dropping when the call starts, where the wait times
  -- out at the latest, and with a timeout that nothing overflows and that is not past when it
  -- is converted, `wait_for_message_timeout` returns at a look of its wait: with success
  -- exactly if that look finds an item or the channel dropping, and with a timeout otherwise.
  pub wait_for_message_timeout_lem :
      (v : Sight D)
      → v.dropping ≡ false
      → v.lock ≡ some guard
      → TimesOut (has_message D) v.wakes
      → (l : Look D) × SeenIn (has_message D) l v.first v.wakes
        × Waited D l (wait_for_message_timeout D r timeout v)
  unfolding wait_for_message_timeout
  wait_for_message_timeout_lem v up got late =
      let (c, due) = converted r timeout s m h in
      rw (made r timeout s m h)
        (wait_for_message_until_lem D (deadline_of r timeout) c v due up got late)

  pub try_receive_timeout_lem :
      (v : Sight D)
      → v.dropping ≡ false
      → v.lock ≡ some guard
      → TimesOut (can_receive D) v.wakes
      → v.signal_errno.space ≡ 0
      → (l : Look D) × SeenIn (can_receive D) l v.first v.wakes
        × (Ends (try_receive_timeout D r timeout v) (ReceivedUntil D v l) ⊎ Revived D v l)
  unfolding try_receive_timeout
  try_receive_timeout_lem v up got late fine =
      let (c, due) = converted r timeout s m h in
      rw (made r timeout s m h)
        (try_receive_until_lem D (deadline_of r timeout) c v due up got late fine)

  pub try_send_timeout_lem :
      (item : T) (v : Sight D)
      → v.dropping ≡ false
      → v.lock ≡ some guard
      → TimesOut (can_send D) v.wakes
      → v.signal_errno.item ≡ 0
      → (l : Look D) × SeenIn (can_send D) l v.first v.wakes
        × (Ends (try_send_timeout D item r timeout v) (SentUntil D item v l) ⊎ Raced D v l)
  unfolding try_send_timeout
  try_send_timeout_lem item v up got late fine =
      let (c, due) = converted r timeout s m h in
      rw (made r timeout s m h)
        (try_send_until_lem D item (deadline_of r timeout) c v due up got late fine)
