-- ===== src/Channel/Sound.antt =====
-- Each call of the channel does to the queue what its answer says, on every run that ends.
use shmem_util.Prelude.{
  ◌≡◌, Bool, true, false, if◌then◌else◌, Option, none, some, List, [], ◌∷◌, ◌++◌, Exec, done, panic,
  ◌>>=◌, >>=-eq-done, done-injective, Result, ok, err, ◌||◌, ◌==◌, Bool-cases, inl, inr,
}
use mathlib.Core.Path.{subst}
use shmem_util.External.{DequeOps}
use shmem_util.Mutex.{MutexGuard}
use shmem_util.Condvar
use shmem_util.Channel.Inner.{
  SignalErrno, Deadline, Sight, Outcome, receive, receive_locked, received, try_receive_until,
  receive_waited, expect_item, received_once, try_receive_once, try_send, send_locked, sent_waited,
  pushed, try_send_until, send_waited, try_send_once, push, pop, acquire, can_receive, can_send,
  untouched, no_receivers, Look,
}
use shmem_util.Channel.Queue.{Fitting, pop_sound, push_sound}
use shmem_util.Channel.Calls.{Effect, nothing, puts, takes, of_option, of_receive, of_send, Touched}

module _ {T : Type 0} (D : DequeOps T) where
  -- the queue was changed as the effect says, and only where it says so
  abbrev pub Fitted : Effect T → Touched D → Type 0
  Fitted nothing none = Unit {0}
  Fitted nothing (some _) = ⊥
  Fitted (puts x) none = ⊥
  Fitted (puts x) (some (before, after)) = D.items after ≡ D.items before ++ x ∷ []
  Fitted (takes x) none = ⊥
  Fitted (takes x) (some (before, after)) = D.items before ≡ x ∷ D.items after

  -- A run is sound if the effect of its answer, where it ends, is what it did to the queue.
  abbrev pub Sound : {R : Type 0} → (R → Effect T) → Exec (Outcome D R) → Type 0
  Sound {R} effect run = (o : Outcome D R) → run ≡ done o → Fitted (effect o.answer) o.touched

  module _ {R : Type 0} (effect : R → Effect T) where
    done-Sound : (o : Outcome D R) → Fitted (effect o.answer) o.touched → Sound effect (done o)
    done-Sound o h o' e = subst (λ o. Fitted (effect o.answer) o.touched) (done-injective e) h

    panic-Sound : Sound effect panic
    panic-Sound o e = cc

    if-Sound :
        (b : Bool) (x y : Exec (Outcome D R))
        → Sound effect x
        → Sound effect y
        → Sound effect (if b then x else y)
    if-Sound true x y hx hy = hx
    if-Sound false x y hx hy = hy

    bind-Sound :
        {A : Type 0} (m : Exec A) (f : A → Exec (Outcome D R))
        → ((a : A) → m ≡ done a → Sound effect (f a))
        → Sound effect (m >>= f)
    bind-Sound m f h o e = let (a, run, k) = >>=-eq-done m f e in h a run o k

    lock-Sound :
        (l : Option MutexGuard) (x y : Exec (Outcome D R))
        → Sound effect x
        → Sound effect y
        → Sound effect (elim l [ none ↦ x | some _ ↦ y ])
    lock-Sound none x y hx hy = hx
    lock-Sound (some g) x y hx hy = hy

  received-Sound :
      (d : D.Deque) (r : Option (T × D.Deque))
      → Fitting D d r
      → Fitted (of_option (received D d r).answer) (received D d r).touched
  received-Sound d none f = tt
  received-Sound d (some (x, d')) f = f.0

  receive_locked-Sound : (s : Sight D) (locked : Bool) → Sound of_option (receive_locked D s locked)
  receive_locked-Sound s false = done-Sound of_option _ tt
  receive_locked-Sound s true =
      bind-Sound of_option (Condvar.wait (can_receive D) s.first s.wakes) _ (λ l _.
        bind-Sound of_option (pop D l.queue s.signal_errno) _ (λ r run.
          done-Sound of_option _
            (received-Sound l.queue r (pop_sound D l.queue s.signal_errno r run))))

  pub receive-Sound :
      (rounds : List (Bool × Option MutexGuard)) (s : Sight D)
      → Sound of_option (receive D rounds s)
  unfolding receive
  receive-Sound rounds s =
      bind-Sound of_option (acquire rounds) (receive_locked D s)
        (λ locked _. receive_locked-Sound s locked)

  expect_item-Sound :
      (d : D.Deque) (r : Option (T × D.Deque))
      → Fitting D d r
      → Sound of_receive (expect_item D d r)
  expect_item-Sound d none f = panic-Sound of_receive
  expect_item-Sound d (some (x, d')) f = done-Sound of_receive _ f.0

  receive_waited-Sound :
      (s : Sight D) (waited : Result (Look D) (Look D))
      → Sound of_receive (receive_waited D s waited)
  receive_waited-Sound s (err l) = done-Sound of_receive _ tt
  receive_waited-Sound s (ok l) =
      if-Sound of_receive (s.peers == 0 || s.leaving) _ _ (done-Sound of_receive _ tt) (
        bind-Sound of_receive (pop D l.queue s.signal_errno) (expect_item D l.queue)
          (λ r run. expect_item-Sound l.queue r (pop_sound D l.queue s.signal_errno r run)))

  pub try_receive_until-Sound :
      (t : Deadline) (s : Sight D) → Sound of_receive (try_receive_until D t s)
  unfolding try_receive_until
  try_receive_until-Sound t s = if-Sound of_receive s.dropping _ _ (done-Sound of_receive _ tt) (
      lock-Sound of_receive s.lock _ _ (done-Sound of_receive _ tt) (
        bind-Sound of_receive
          (Condvar.wait_until (can_receive D) t.std_now t.monotonic t.until s.first s.wakes)
          (receive_waited D s) (λ w _. receive_waited-Sound s w)))

  received_once-Sound :
      (s : Sight D) (d : D.Deque) (r : Option (T × D.Deque))
      → Fitting D d r
      → Sound of_receive (done (received_once D s d r))
  received_once-Sound s d (some (x, d')) f = done-Sound of_receive _ f.0
  received_once-Sound s d none f = elim (Bool-cases (s.peers == 0 || s.leaving)) [
    | inl e ↦ rw e (done-Sound of_receive _ tt)
    | inr e ↦ rw e (done-Sound of_receive _ tt)
  ]

  pub try_receive_once-Sound : (s : Sight D) → Sound of_receive (try_receive_once D s)
  unfolding try_receive_once
  try_receive_once-Sound s = if-Sound of_receive s.dropping _ _ (done-Sound of_receive _ tt) (
      lock-Sound of_receive s.lock _ _ (done-Sound of_receive _ tt) (
        bind-Sound of_receive (pop D s.first.queue s.signal_errno) _ (λ r run.
          received_once-Sound s s.first.queue r (pop_sound D s.first.queue s.signal_errno r run))))

  pushed-Sound :
      {E : Type 0} (x : T) (d : D.Deque) (errno : SignalErrno) (r : Result D.Deque D.Error)
      → push D d x errno ≡ done r
      → Sound (of_send {E = E} x) (pushed D d r)
  pushed-Sound x d errno (err e) run = panic-Sound (of_send x)
  pushed-Sound x d errno (ok d') run = done-Sound (of_send x) _ (push_sound D d x errno d' run)

  -- the end of each call that sends: the item is given back, or put in
  stored-Sound :
      {E : Type 0} (x : T) (e : E) (s : Sight D) (d : D.Deque)
      → Sound (of_send x) (
          if s.peers == 0 || s.leaving
          then done (untouched D (err e))
          else (push D d x s.signal_errno >>= pushed D d))
  stored-Sound x e s d =
      if-Sound (of_send x) (s.peers == 0 || s.leaving) _ _ (done-Sound (of_send x) _ tt) (
        bind-Sound (of_send x) (push D d x s.signal_errno) (pushed D d)
          (λ r run. pushed-Sound x d s.signal_errno r run))

  send_locked-Sound :
      (x : T) (s : Sight D) (locked : Bool) → Sound (of_send x) (send_locked D x s locked)
  send_locked-Sound x s false = done-Sound (of_send x) _ tt
  send_locked-Sound x s true =
      bind-Sound (of_send x) (Condvar.wait (can_send D) s.first s.wakes) (sent_waited D x s)
        (λ l _. stored-Sound x x s l.queue)

  pub try_send-Sound :
      (x : T) (rounds : List (Bool × Option MutexGuard)) (s : Sight D)
      → Sound (of_send x) (try_send D x rounds s)
  unfolding try_send
  try_send-Sound x rounds s =
      bind-Sound (of_send x) (acquire rounds) (send_locked D x s)
        (λ locked _. send_locked-Sound x s locked)

  send_waited-Sound :
      (x : T) (s : Sight D) (waited : Result (Look D) (Look D))
      → Sound (of_send x) (send_waited D x s waited)
  send_waited-Sound x s (err l) = done-Sound (of_send x) _ tt
  send_waited-Sound x s (ok l) = stored-Sound x (no_receivers x) s l.queue

  pub try_send_until-Sound :
      (x : T) (t : Deadline) (s : Sight D) → Sound (of_send x) (try_send_until D x t s)
  unfolding try_send_until
  try_send_until-Sound x t s = if-Sound (of_send x) s.dropping _ _ (done-Sound (of_send x) _ tt) (
      lock-Sound (of_send x) s.lock _ _ (done-Sound (of_send x) _ tt) (
        bind-Sound (of_send x)
          (Condvar.wait_until (can_send D) t.std_now t.monotonic t.until s.first s.wakes)
          (send_waited D x s) (λ w _. send_waited-Sound x s w)))

  pub try_send_once-Sound : (x : T) (s : Sight D) → Sound (of_send x) (try_send_once D x s)
  unfolding try_send_once
  try_send_once-Sound x s = if-Sound (of_send x) s.dropping _ _ (done-Sound (of_send x) _ tt) (
      lock-Sound (of_send x) s.lock _ _ (done-Sound (of_send x) _ tt) (
        if-Sound (of_send x) (D.remaining_capacity s.first.queue == 0) _ _
          (done-Sound (of_send x) _ tt) (stored-Sound x (no_receivers x) s s.first.queue)))
