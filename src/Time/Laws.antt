-- ===== src/Time/Laws.antt =====
-- Adding a duration to a clock is exact; subtracting one is exact on some inputs alone.
use shmem_util.Prelude.{
  ℕ, ◌+◌, ◌-◌, ◌*◌, ◌/◌, ◌%◌, ◌≤◌, ◌<◌, ◌≡◌, ◌↔◌, refl, compare, Ends, done, pos, sub_ℕ, Ends-value,
  ◌⊎◌, inl, inr, leb, false, zero, suc, true, ltb, sub_i64, i64_max, arith,
}
use native.Mathlib.Decide.{dec_lt}
use shmem_util.Time.{leb_ℤ, UnixClock, billion, add, sub, from, cmp}

-- A clock reading as the kernel gives it: `s` seconds and `m` nanoseconds, both in range.
abbrev pub clock : ℕ → ℕ → UnixClock
clock s m = record { tv_sec = pos s; tv_nsec = pos m }

-- Adding a duration to a clock whose nanoseconds are below a second, without an overflow of the
-- seconds, gives a clock whose nanoseconds are below a second and that is later by exactly the
-- duration.
pub add_lem :
    (s m d : ℕ)
    → m < billion
    → s + d / billion + 1 < i64_max
    → Ends (add (clock s m) d) (λ c.
      (s' : ℕ) × (m' : ℕ) × (c ≡ clock s' m')
      × (m' < billion)
      × (s' * billion + m' ≡ s * billion + m + d))
unfolding add
add_lem s m d hm hs = elim (dec_lt (m + d % billion) billion) [
  | yes below ↦ (
    clock (s + d / billion) (m + d % billion),
    ground arith,
    (s + d / billion, m + d % billion, refl, below, omega arith),
  )
  | no above ↦ (
    clock (s + d / billion + 1) (m + d % billion - billion),
    ground arith,
    (s + d / billion + 1, m + d % billion - billion, refl, omega arith, omega arith),
  )
]

borrowed_sec :
    (s q : ℕ) → s < i64_max → q ≤ s → sub_i64 (sub_i64 (pos s) (pos 1)) (pos q) ≡ sub_ℕ s (q + 1)
borrowed_sec zero q h k = ground arith
borrowed_sec (suc s) q h k = ground arith

borrowed_nsec :
    (m r : ℕ)
    → m < billion
    → r < billion
    → sub_i64 (pos m) (sub_i64 (pos billion) (pos r)) ≡ sub_ℕ (m + r) billion
borrowed_nsec m r h k = ground arith

borrows : (m r : ℕ) → m ≤ r → leb_ℤ (pos m) (pos r) ≡ true
borrows m r h = ground arith

-- A clock in range that is earlier than `clock s m` by exactly `d`.
abbrev pub Earlier : ℕ → ℕ → ℕ → UnixClock → Type 0
Earlier s m d c =
    (s' : ℕ) × (m' : ℕ) × (c ≡ clock s' m')
    × (m' < billion)
    × (s' * billion + m' + d ≡ s * billion + m)

module _ (s m d : ℕ) (range : m < billion) (small : s < i64_max) (le : d ≤ s * billion + m) where
  sub_exact : d % billion < m → Ends (sub (clock s m) d) (Earlier s m d)
  unfolding sub
  sub_exact h = (
    clock (s - d / billion) (m - d % billion),
    ground arith,
    (s - d / billion, m - d % billion, refl, omega arith, omega arith),
  )

  -- The branch that borrows a second ends with these fields, the second of which may be negative.
  pub sub_borrow :
      m ≤ d % billion
      → sub (clock s m) d
        ≡ done (record {
          tv_sec = sub_ℕ s (d / billion + 1);
          tv_nsec = sub_ℕ (m + d % billion) billion;
        })
  unfolding sub
  sub_borrow h =
      let q = d / billion in
      let r = d - q * billion in
      let r_lem : r ≡ d % billion = omega arith in
      let in_range : ltb q i64_max ≡ true = ground arith in
      let borrow = borrows m r (omega arith) in
      rw (
        in_range,
        borrow,
        borrowed_sec s q small (omega arith),
        borrowed_nsec m r range (omega arith),
        r_lem,
      )

  not-Earlier :
      m ≤ d % billion
      → ¬ Earlier s m d
          (record { tv_sec = sub_ℕ s (d / billion + 1); tv_nsec = sub_ℕ (m + d % billion) billion })
  not-Earlier h (s', m', e, r, total) = ground arith

  -- Subtracting a duration no longer than the clock, from a clock whose nanoseconds are below a
  -- second and whose seconds fit, gives the clock that is earlier by exactly the duration, with
  -- its nanoseconds below a second, exactly if the duration's part below a second is less than
  -- the clock's.
  pub sub_exact_iff : Ends (sub (clock s m) d) (Earlier s m d) ↔ (d % billion < m)
  sub_exact_iff = (back, sub_exact)
    where
      back : Ends (sub (clock s m) d) (Earlier s m d) → d % billion < m
      back r = elim (dec_lt (d % billion) m) [
        | yes h ↦ h
        | no h ↦ absurd (not-Earlier (omega arith) (Ends-value _ _ _ r (sub_borrow (omega arith))))
      ]

-- Two clocks whose nanoseconds are below a second are ordered as their times in nanoseconds
-- are.
pub cmp-total :
    (s m s' m' : ℕ)
    → m < billion
    → m' < billion
    → cmp (clock s m) (clock s' m') ≡ compare (s * billion + m) (s' * billion + m')
unfolding cmp
cmp-total s m s' m' h h' = ground arith

-- For a monotonic reading in range, an `Instant` becomes a clock in range at the same distance
-- from the reading as the `Instant` has from its own exactly if the `Instant` is not past, or
-- is past by a duration whose part below a second is less than the reading's. The seconds are
-- not to overflow, nor the result to be negative.
pub from_exact_iff :
    (s m std_now value : ℕ)
    → m < billion
    → s + (value - std_now) / billion + 1 < i64_max
    → std_now - value ≤ s * billion + m
    → Ends (from std_now (clock s m) value) (λ c.
      (s' : ℕ) × (m' : ℕ) × (c ≡ clock s' m')
      × (m' < billion)
      × (s' * billion + m' + std_now ≡ s * billion + m + value))
      ↔ ((std_now ≤ value) ⊎ ((std_now - value) % billion < m))
unfolding from
from_exact_iff s m std_now value range small le = elim (dec_lt value std_now) [
  | yes past ↦
      let later : leb std_now value ≡ false = ground arith in
      let (there, back) = sub_exact_iff s m (std_now - value) range (omega arith) le in
      rw (later, from)
        (
          (λ (c, e, (s', m', k, r, t)). inr (there (c, e, (s', m', k, r, omega arith)))),
          (λ h.
              let (c, e, (s', m', k, r, t)) = back (ground arith) in
              (c, e, (s', m', k, r, omega arith))),
        )
  | no ahead ↦
      let later : leb std_now value ≡ true = ground arith in
      let (c, e, (s', m', k, r, t)) = add_lem s m (value - std_now) range small in
      rw (later, from) ((λ _. inl (omega arith)), (λ _. (c, e, (s', m', k, r, omega arith))))
]
