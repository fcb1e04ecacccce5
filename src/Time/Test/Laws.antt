-- ===== src/Time/Test/Laws.antt =====
-- The test passes where the clock is read often enough.
use shmem_util.Prelude.{
  ℕ, ◌+◌, ◌-◌, ◌*◌, ◌≤◌, ◌<◌, ◌≡◌, refl, true, false, Option, none, some, List, [], ◌∷◌, done, ltb,
  if◌then◌else◌, All, map, i64_max, arith,
}
use shmem_util.Time.{billion}
use shmem_util.Time.Laws.{clock, add_lem, cmp-total}
use shmem_util.Time.Test.{Answer, with_clock_id, timeout, tolerance, spin, difference, check}

-- a time, as seconds and nanoseconds
abbrev pub Time : Type 0
Time = ℕ × ℕ

abbrev pub nanos : Time → ℕ
nanos (s, m) = s * billion + m

abbrev pub tells : Time → Answer
tells (s, m) = record { failed = false; timespec = clock s m }

abbrev pub InRange : Time → Type 0
InRange (s, m) = m < billion

-- the first of the times that is later
abbrev pub first_after : ℕ → List Time → Option ℕ
first_after deadline [] = none
first_after deadline (t ∷ ts) =
    if ltb deadline (nanos t) then some (nanos t) else first_after deadline ts

-- The loop ends where one of the readings is later than the deadline.
spin-ends :
    (s m now : ℕ) (ts : List Time)
    → m < billion
    → All InRange ts
    → first_after (s * billion + m) ts ≡ some now
    → (spin (clock s m) (map tells ts) ≡ done tt) × (s * billion + m < now)
unfolding spin with_clock_id
spin-ends s m now [] range ranges found = absurd (ground arith)
spin-ends s m now ((a, b) ∷ ts) range (here, ranges) found =
    rw (cmp-total a b s m here range) (ground (arith, spin-ends s m now ts range ranges))

-- Where the clock is read at the time `t` for the deadline, and the answers to the further reads are in
-- range, some of them later than the deadline, and where the instant `begin` is less than 10 ms after
-- `t`, and `end` not before the first later reading and less than 310 ms after `begin`, the test
-- ends without a panic.
pub check-done :
    (t : Time) (begin end now : ℕ) (ts : List Time)
    → InRange t
    → t.0 + 1 < i64_max
    → All InRange ts
    → nanos t ≤ begin
    → begin < nanos t + tolerance
    → first_after (nanos t + timeout) ts ≡ some now
    → now ≤ end
    → end < begin + timeout + tolerance
    → check (tells t) begin (map tells ts) end ≡ done tt
unfolding check with_clock_id
check-done (s, m) begin end now ts range small ranges started soon found over quick =
    let (c, run, (s', m', is, range', exact)) = add_lem s m timeout range (omega arith) in
    let found' : first_after (s' * billion + m') ts ≡ some now = rw exact found in
    let (ended, later) = spin-ends s' m' now ts range' ranges found' in
    let close : ltb (difference (end - begin)) tolerance ≡ true = ground (arith, later, exact) in
    rw (run, is, ended, close) refl
