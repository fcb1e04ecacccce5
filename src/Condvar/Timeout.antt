-- ===== src/Condvar/Timeout.antt =====
-- src/condvar.rs: the test `check_wait_timeout`, whose number nobody changes.
use shmem_util.Prelude.{
  ℕ, zero, suc, ◌+◌, ◌-◌, ◌≤◌, ◌<◌, ◌≡◌, refl, Bool, true, false, List, [], ◌∷◌, Exec, done, ◌>>=◌,
  ◌>>◌, assert, Result, ok, err, ◌==◌, leb, i64_max, arith,
}
use shmem_util.Mutex.{e_timedout}
use shmem_util.Time.{UnixClock, billion, from}
use shmem_util.Time.Laws.{clock, add_lem}
use shmem_util.Condvar.{wait_for, wait_until, wait_until_internal}

abbrev pub is_err : Result ℕ ℕ → Bool
is_err (ok value) = false
is_err (err value) = true

-- the number under the guard after a wait
abbrev pub number : Result ℕ ℕ → ℕ
number (ok value) = value
number (err value) = value

abbrev pub is_one : ℕ → Bool
is_one value = value == 1

-- 100 milliseconds
abbrev pub tenth : ℕ
tenth = 100_000_000

-- `now` is the reading of `Instant::now` in the test; the clocks and the wake-ups are those of the two
-- waits.
unfoldable pub check_wait_timeout :
    UnixClock → List (ℕ × ℕ) → ℕ → ℕ → UnixClock → List (ℕ × ℕ) → Exec (Unit {0})
check_wait_timeout monotonic wakes now std_now monotonic' wakes' = do
  res ← wait_for is_one monotonic tenth 0 wakes
  assert (is_err res)
  res' ← wait_until is_one std_now monotonic' (now + tenth) (number res) wakes'
  assert (is_err res')

-- so many wake-ups without a signal, and then the timeout
abbrev spurious : ℕ → List (ℕ × ℕ)
spurious zero = (e_timedout, 0) ∷ []
spurious (suc k) = (0, 0) ∷ spurious k

times_out : (k : ℕ) → wait_until_internal is_one 0 (spurious k) ≡ done (err 0)
unfolding wait_until_internal
times_out zero = refl
times_out (suc k) = rw (times_out k) refl

-- Whatever wakes the waits up without a signal before they time out, the test passes, with readings of
-- the monotonic clock in range and where the second deadline is not past when it is converted.
check_wait_timeout_passes :
    (s m s' m' now std_now k k' : ℕ)
    → m < billion
    → m' < billion
    → s + 1 < i64_max
    → s' + 1 < i64_max
    → std_now ≤ now + tenth
    → now ≤ std_now
    → check_wait_timeout (clock s m) (spurious k) now std_now (clock s' m') (spurious k') ≡ done tt
unfolding check_wait_timeout wait_for wait_until from
check_wait_timeout_passes s m s' m' now std_now k k' range range' small small' ahead late =
    let later : leb std_now (now + tenth) ≡ true = ground arith in
    let (c, e, _) = add_lem s m tenth range (omega arith) in
    let (c', e', _) = add_lem s' m' (now + tenth - std_now) range' (omega arith) in
    rw (e, times_out k, later, e', times_out k') refl
