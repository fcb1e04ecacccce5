-- ===== src/Channel/Waiting.antt =====
-- Waiting for a message: what `wait_for_message_until` of src/channel.rs answers.
use shmem_util.Prelude.{◌≡◌, ◌⊎◌, inl, inr, refl, true, false, some, Exec, done, Result, ok, err}
use shmem_util.External.{DequeOps}
use shmem_util.Mutex.{guard}
use shmem_util.Time.{UnixClock, from}
use shmem_util.Condvar
use shmem_util.Condvar.Laws.{
  wait_until-SeenIn, SeenIn, look_of, TimesOut, Answered, wait_until-Answered,
}
use shmem_util.Channel.Inner.{
  Deadline, Look, Sight, has_message, wait_for_message_until, WaitingError, timeout_reached,
}

module _ {T : Type 0} (D : DequeOps T) where
  abbrev pub Waited : Look D → Exec (Result (Unit {0}) WaitingError) → Type 0
  Waited l run =
      (run ≡ done (ok tt)) × (has_message D l ≡ true)
      ⊎ (run ≡ done (err timeout_reached)) × (has_message D l ≡ false)

  answer :
      (t : Deadline) (c : UnixClock) (s : Sight D) (a : Result (Look D) (Look D))
      → from t.std_now t.monotonic t.until ≡ done c
      → s.dropping ≡ false
      → s.lock ≡ some guard
      → Condvar.wait_until_internal (has_message D) s.first s.wakes ≡ done a
      → Answered (has_message D) a
      → Waited (look_of (has_message D) a) (wait_for_message_until D t s)
  unfolding wait_for_message_until Condvar.wait_until
  answer t c s (ok l) due up got run passed =
      inl (rw (up, got, wait_for_message_until, due, Condvar.wait_until, run) refl, passed)
  answer t c s (err l) due up got run failed =
      inr (rw (up, got, wait_for_message_until, due, Condvar.wait_until, run) refl, failed)

  -- With the lock and a representable deadline, on a channel that is not dropping when the call
  -- starts, where the wait times out at the latest, `wait_for_message_until` returns at a look
  -- of its wait: with success exactly if that look finds an item or the channel dropping, and
  -- with a timeout otherwise.
  pub wait_for_message_until_lem :
      (t : Deadline) (c : UnixClock) (s : Sight D)
      → from t.std_now t.monotonic t.until ≡ done c
      → s.dropping ≡ false
      → s.lock ≡ some guard
      → TimesOut (has_message D) s.wakes
      → (l : Look D) × SeenIn (has_message D) l s.first s.wakes
        × Waited l (wait_for_message_until D t s)
  wait_for_message_until_lem t c s due up got timeout =
      let (a, run, answered) = wait_until-Answered (has_message D) s.first s.wakes timeout in
      (
        look_of (has_message D) a,
        wait_until-SeenIn (has_message D) s.first a s.wakes run,
        answer t c s a due up got run answered,
      )
