-- ===== src/Condvar/Laws.antt =====
-- A wait ends when its test passes, at one of its looks, and a timed one at its timeout at the latest.
use shmem_util.Prelude.{
  ℕ, Bool, true, false, ◌≡◌, ◌≢◌, ◌⊎◌, inl, inr, refl, List, [], ◌∷◌, ◌++◌, All, panic, ◌+◌, done,
  Result, ◌==◌, if◌then◌else◌, ok, err, Ends, Bool-cases, arith,
}
use native.Mathlib.Decide.{ℕ_discrete}
use shmem_util.Mutex.{e_timedout}
use shmem_util.Condvar.{wait, wait_until_internal, new, InitErrno, Condvar}

module _ {V : Type 0} (is_ready : V → Bool) where
  -- Some wake-up of the trace finds the test passed.
  abbrev pub ReadyIn : V → List (ℕ × V) → Type 0
  ReadyIn v [] = is_ready v ≡ true
  ReadyIn v (w ∷ wakes) = (is_ready v ≡ true) ⊎ ReadyIn w.1 wakes

  -- With no error among the wake-ups and a look at which the test passes, `wait` ends, with its
  -- test passed.
  pub wait-ready :
      (v : V) (wakes : List (ℕ × V))
      → All (λ w. w.0 ≡ 0) wakes
      → ReadyIn v wakes
      → Ends (wait is_ready v wakes) (λ w. is_ready w ≡ true)
  unfolding wait
  wait-ready v [] fine h = (v, rw h refl, h)
  wait-ready v ((errno, v') ∷ wakes) fine h = elim (Bool-cases (is_ready v)) [
    | inl now ↦ (v, rw now refl, now)
    | inr later ↦
        let (w, run, k) = wait-ready v' wakes fine.1 (ground arith) in
        (w, rw (later, fine.0) run, k)
  ]

  -- A wait whose test passes at once does not sleep.
  pub wait-at_once :
      (v : V) (wakes : List (ℕ × V)) → is_ready v ≡ true → wait is_ready v wakes ≡ done v
  unfolding wait
  wait-at_once v [] h = rw h refl
  wait-at_once v ((errno, v') ∷ wakes) h = rw h refl

  -- `w` is what the caller's test looked at, at the start or after one of the wake-ups.
  abbrev pub SeenIn : V → V → List (ℕ × V) → Type 0
  SeenIn w v [] = v ≡ w
  SeenIn w v (x ∷ wakes) = (v ≡ w) ⊎ SeenIn w x.1 wakes

  -- A wait that ends has ended at one of its looks.
  pub wait-SeenIn :
      (v w : V) (wakes : List (ℕ × V)) → wait is_ready v wakes ≡ done w → SeenIn w v wakes
  unfolding wait
  wait-SeenIn v w [] e = ground arith
  wait-SeenIn v w ((errno, v') ∷ wakes) e = ground (arith, wait-SeenIn v' w wakes)

  abbrev pub look_of : Result V V → V
  look_of (ok w) = w
  look_of (err w) = w

  pub wait_until-SeenIn :
      (v : V) (r : Result V V) (wakes : List (ℕ × V))
      → wait_until_internal is_ready v wakes ≡ done r
      → SeenIn (look_of r) v wakes
  unfolding wait_until_internal
  wait_until-SeenIn v r [] e = ground arith
  wait_until-SeenIn v r ((errno, v') ∷ []) e = ground arith
  wait_until-SeenIn v r ((errno, v') ∷ x ∷ wakes) e =
      ground (arith, wait_until-SeenIn v' r (x ∷ wakes))

  -- the answer of a timed wait fits the test at its end
  abbrev pub Answered : Result V V → Type 0
  Answered (ok w) = is_ready w ≡ true
  Answered (err w) = is_ready w ≡ false

  -- the trace has a timeout, with no other error before it
  abbrev pub TimesOut : List (ℕ × V) → Type 0
  TimesOut [] = ⊥
  TimesOut (w ∷ wakes) = (w.0 ≡ e_timedout) ⊎ (w.0 ≡ 0) × TimesOut wakes

  timed_out :
      (v v' : V) (errno : ℕ) (wakes : List (ℕ × V))
      → is_ready v ≡ false
      → errno ≡ e_timedout
      → Ends (wait_until_internal is_ready v ((errno, v') ∷ wakes)) Answered
  unfolding wait_until_internal
  timed_out v v' errno wakes later out = elim (Bool-cases (is_ready v')) [
    | inl passed ↦ (ok v', rw (later, out, passed) refl, passed)
    | inr failed ↦ (err v', rw (later, out, failed) refl, failed)
  ]

  -- Such a timed wait ends with an answer that fits its look.
  pub wait_until-Answered :
      (v : V) (wakes : List (ℕ × V))
      → TimesOut wakes
      → Ends (wait_until_internal is_ready v wakes) Answered
  unfolding wait_until_internal
  wait_until-Answered v [] t = absurd t
  wait_until-Answered v ((errno, v') ∷ wakes) t = elim (Bool-cases (is_ready v)) [
    | inl now ↦ (ok v, rw now refl, now)
    | inr later ↦ elim t [
      | inl out ↦ timed_out v v' errno wakes later out
      | inr (fine, more) ↦
          let (a, run, k) = wait_until-Answered v' wakes more in (a, rw (later, fine) run, k)
    ]
  ]

  -- the looks of a timed wait, up to the one at the first timeout
  abbrev pub looks : V → List (ℕ × V) → List V
  looks v [] = v ∷ []
  looks v (w ∷ wakes) = v ∷ (if w.0 == e_timedout then w.1 ∷ [] else looks w.1 wakes)

  -- whether an answer fits the test at its look, which is the last one where the wait failed
  abbrev pub FitsEnd : Result V V → List V → Type 0
  FitsEnd (ok w) rest = is_ready w ≡ true
  FitsEnd (err w) rest = (is_ready w ≡ false) × (rest ≡ [])

  -- The answer is that of one of the looks, before which the test passes at none.
  abbrev pub EndsAt : List V → Result V V → Type 0
  EndsAt seen r =
      (before : List V) × (rest : List V) × (seen ≡ before ++ look_of r ∷ rest)
      × All (λ u. is_ready u ≡ false) before
      × FitsEnd r rest

  later_EndsAt :
      (v : V) (seen : List V) (r : Result V V)
      → is_ready v ≡ false
      → EndsAt seen r
      → EndsAt (v ∷ seen) r
  later_EndsAt v seen r later (before, rest, split, none_passed, fits) =
      (v ∷ before, rest, rw split refl, (later, none_passed), fits)

  at_timeout :
      (v' : V) → Ends (if is_ready v' then done (ok v') else done (err v')) (EndsAt (v' ∷ []))
  at_timeout v' = elim (Bool-cases (is_ready v')) [
    | inl passed ↦ (ok v', rw passed refl, ([], [], refl, tt, passed))
    | inr failed ↦ (err v', rw failed refl, ([], [], refl, tt, (failed, refl)))
  ]

  -- With a timeout among the wake-ups, and no error before it, a timed wait ends: with success,
  -- at the first of its looks at which the test passes, or, where the test fails at all its
  -- looks up to the one at the first timeout, with the error, at that one.
  pub wait_until_internal_lem :
      (v : V) (wakes : List (ℕ × V))
      → TimesOut wakes
      → Ends (wait_until_internal is_ready v wakes) (EndsAt (looks v wakes))
  unfolding wait_until_internal
  wait_until_internal_lem v [] t = absurd t
  wait_until_internal_lem v ((errno, v') ∷ wakes) t = elim (Bool-cases (is_ready v)) [
    | inl now ↦ (ok v, rw now refl, ([], _, refl, tt, now))
    | inr later ↦ elim t [
      | inl out ↦
          let (r, run, end) = at_timeout v' in
          (r, rw (later, out) run, rw out (later_EndsAt v (v' ∷ []) r later end))
      | inr (fine, more) ↦
          let (r, run, end) = wait_until_internal_lem v' wakes more in
          (r, rw (later, fine) run, rw fine (later_EndsAt v (looks v' wakes) r later end))
    ]
  ]

-- the sum of the error numbers of the calls of `new`
abbrev pub all_errno : InitErrno → ℕ
all_errno e = e.attr_init + e.setpshared + e.setclock + e.cond_init

-- Where no call fails, a new condition variable is shared between processes, measures deadlines
-- on the monotonic clock and keeps the pid of its creator; where one fails, `new` panics.
pub new_shared :
    (pid : ℕ) (e : InitErrno)
    → ((all_errno e ≡ 0)
        × (c : Condvar) × (new pid e ≡ done c)
        × (c.attr.pshared ≡ true)
        × (c.attr.monotonic ≡ true)
        × (c.creator_pid ≡ pid))
      ⊎ (all_errno e ≢ 0) × (new pid e ≡ panic)
unfolding new
new_shared pid e = elim (ℕ_discrete (all_errno e) 0) [
  | yes fine ↦ inl (
    fine,
    record {
      attr = record { pshared = true; monotonic = true };
      creator_pid = pid;
      destroyed = false;
    },
    ground arith,
    refl,
    refl,
    refl,
  )
  | no failed ↦ inr (failed, ground arith)
]
