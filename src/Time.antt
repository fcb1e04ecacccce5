-- ===== src/Time.antt =====
-- src/time.rs: the clock values that deadlines are made of. The two fields of a `timespec` are
-- `i64`; a `Duration` is its number of nanoseconds, and an `Instant` that of its monotonic clock.
pub mod Laws
pub mod Test
use shmem_util.Prelude.{
  ℕ, ◌+◌, ◌-◌, ◌*◌, ◌/◌, Ordering, Bool, Exec, done, panic, ◌>>=◌, ltb, leb, if◌then◌else◌, ℤ, pos,
  negsuc, pos_part, neg_part, add_i64, sub_i64, compare_ℤ, i64_max,
}

pub record UnixClock : Type 0 where
  pub tv_sec : ℤ
  pub tv_nsec : ℤ

abbrev pub billion : ℕ
billion = 1_000_000_000

-- a ≤ b
abbrev pub leb_ℤ : ℤ → ℤ → Bool
leb_ℤ a b = leb (pos_part a + neg_part b) (pos_part b + neg_part a)

-- `i64::try_from` on the seconds of a duration, with `expect`
abbrev pub try_i64 : ℕ → Exec ℤ
try_i64 n = if ltb n i64_max then done (pos n) else panic

unfoldable pub add : UnixClock → ℕ → Exec UnixClock
add c duration = do
  let secs = duration / billion
  let add_nanos = pos (duration - secs * billion)
  add_secs ← try_i64 secs
  done (
      if leb_ℤ (pos billion) (add_i64 c.tv_nsec add_nanos)
      then record {
        tv_sec = add_i64 c.tv_sec (add_i64 add_secs (pos 1));
        tv_nsec = sub_i64 (add_i64 c.tv_nsec add_nanos) (pos billion);
      }
      else record { tv_sec = add_i64 c.tv_sec add_secs; tv_nsec = add_i64 c.tv_nsec add_nanos })

unfoldable pub sub : UnixClock → ℕ → Exec UnixClock
sub c duration = do
  let secs = duration / billion
  let sub_nanos = pos (duration - secs * billion)
  sub_secs ← try_i64 secs
  done (
      if leb_ℤ c.tv_nsec sub_nanos
      then record {
        tv_sec = sub_i64 (sub_i64 c.tv_sec (pos 1)) sub_secs;
        tv_nsec = sub_i64 c.tv_nsec (sub_i64 (pos billion) sub_nanos);
      }
      else record { tv_sec = sub_i64 c.tv_sec sub_secs; tv_nsec = sub_i64 c.tv_nsec sub_nanos })

-- `From<Instant>`: `std_now` and `monotonic_now` are the two readings of the clock.
unfoldable pub from : ℕ → UnixClock → ℕ → Exec UnixClock
from std_now monotonic_now value =
    if leb std_now value
    then add monotonic_now (value - std_now)
    else sub monotonic_now (std_now - value)

-- `Ord::cmp`: by seconds, then by nanoseconds.
unfoldable pub cmp : UnixClock → UnixClock → Ordering
cmp a b = elim (compare_ℤ a.tv_sec b.tv_sec) [
  | Ordering.eq ↦ compare_ℤ a.tv_nsec b.tv_nsec
  | Ordering.lt ↦ Ordering.lt
  | Ordering.gt ↦ Ordering.gt
]
