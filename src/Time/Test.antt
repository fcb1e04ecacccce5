-- ===== src/Time/Test.antt =====
-- src/time.rs: the readings of a clock, and the test `check`, which reads the monotonic clock until a
-- deadline is past. What `clock_gettime` answers at each call is an argument.
pub mod Laws
use shmem_util.Prelude.{
  ℕ, ◌-◌, Bool, true, false, List, [], ◌∷◌, Exec, done, panic, hang, ◌>>=◌, ◌>>◌, assert, ltb,
  Ordering, if◌then◌else◌,
}
use shmem_util.Time.{UnixClock, add, cmp}

-- `failed` says that the result is -1.
pub record Answer : Type 0 where
  pub failed : Bool
  pub timespec : UnixClock

unfoldable pub with_clock_id : Answer → Exec UnixClock
with_clock_id answer = if answer.failed then panic else done answer.timespec

-- on what CLOCK_MONOTONIC or CLOCK_REALTIME answers
abbrev pub monitonic : Answer → Exec UnixClock
monitonic answer = with_clock_id answer

abbrev pub realtime : Answer → Exec UnixClock
realtime answer = with_clock_id answer

-- 300 ms and 10 ms, in nanoseconds
abbrev pub timeout : ℕ
timeout = 300_000_000

abbrev pub tolerance : ℕ
tolerance = 10_000_000

-- `now <= until`
abbrev pub is_le : Ordering → Bool
is_le Ordering.lt = true
is_le Ordering.eq = true
is_le Ordering.gt = false

-- the loop; it is still running where the answers end
unfoldable pub spin : UnixClock → List Answer → Exec (Unit {0})
spin until [] = hang
spin until (answer ∷ answers) =
    let again = spin until answers in
    (do now ← monitonic answer; if is_le (cmp now until) then again else done tt)

-- `elapsed.checked_sub(TIMEOUT).unwrap_or_else(|| TIMEOUT - elapsed)`
abbrev pub difference : ℕ → ℕ
difference elapsed = if ltb elapsed timeout then timeout - elapsed else elapsed - timeout

-- `begin` and `end` are the instants of `Instant::now()` and of `elapsed()`.
unfoldable pub check : Answer → ℕ → List Answer → ℕ → Exec (Unit {0})
check first begin answers end = do
  now ← monitonic first
  until_monotonic ← add now timeout
  spin until_monotonic answers
  assert (ltb (difference (end - begin)) tolerance)
