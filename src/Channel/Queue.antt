-- ===== src/Channel/Queue.antt =====
-- What `push` and `pop` do to the queue, and what it means that an outcome fits the queue.
use shmem_util.Prelude.{
  ◌<◌, ◌≡◌, ◌⊎◌, inl, inr, refl, ap, Bool, true, false, Option, none, some, List, [], ◌∷◌, ◌++◌,
  length, done, Ends, >>=-eq-done, done-injective, Result, ok, err, Option-cases, arith,
}
use mathlib.Core.Path.{subst, sym, ◌∙◌}
use shmem_util.External.{DequeOps}
use shmem_util.Channel.Inner.{SignalErrno, push, pop, acquire}
use shmem_util.Condvar.{signal}
use shmem_util.Mutex.{MutexGuard, guard}

-- The rounds of the loop around the lock: `dropping` is not seen, and the lock is got at last.
abbrev pub Locks : List (Bool × Option MutexGuard) → Type 0
Locks [] = ⊥
Locks (r ∷ rounds) = (r.0 ≡ false) × ((r.1 ≡ some guard) ⊎ (r.1 ≡ none) × Locks rounds)

pub acquire-true :
    (rounds : List (Bool × Option MutexGuard)) → Locks rounds → acquire rounds ≡ done true
unfolding acquire
acquire-true [] h = absurd h
acquire-true ((d, g) ∷ rounds) (up, inl got) = ground arith
acquire-true ((d, g) ∷ rounds) (up, inr (miss, more)) = rw (up, miss) (acquire-true rounds more)

pub Result-cases {ℓ κ} :
    {A : Type ℓ} {E : Type κ} (r : Result A E) → ((a : A) × (r ≡ ok a)) ⊎ ((e : E) × (r ≡ err e))
Result-cases (ok a) = inl (a, refl)
Result-cases (err e) = inr (e, refl)

List-cases {ℓ} : {A : Type ℓ} (xs : List A) → (xs ≡ []) ⊎ ((x : A) × (ys : List A) × (xs ≡ x ∷ ys))
List-cases [] = inl refl
List-cases (x ∷ ys) = inr (x, ys, refl)

module _ {T : Type 0} (D : DequeOps T) where
  -- The item was the first of the queue `before`, and the rest is left.
  abbrev pub Popped : D.Deque → T → D.Deque → Type 0
  Popped before x after =
      (D.items before ≡ x ∷ D.items after) × (D.capacity after ≡ D.capacity before)

  -- The item has been put at the end of the queue, within its capacity.
  abbrev pub Stored : D.Deque → T → D.Deque → Type 0
  Stored before x after =
      (D.items after ≡ D.items before ++ x ∷ []) × (D.capacity after ≡ D.capacity before)

  -- an answer with an item fits a queue that lost it, and one without fits a queue left alone
  abbrev pub Takes : Option T → Option (D.Deque × D.Deque) → Type 0
  Takes none none = Unit {0}
  Takes none (some _) = ⊥
  Takes (some x) none = ⊥
  Takes (some x) (some (before, after)) = Popped before x after

  -- what `pop` gives
  abbrev pub Fitting : (d : D.Deque) → Option (T × D.Deque) → Type 0
  Fitting d none = D.items d ≡ []
  Fitting d (some (x, d')) = Popped d x d'

  -- `pop` takes the first item, and nothing from an empty queue alone.
  pub pop-Fitting :
      (d : D.Deque) (errno : SignalErrno) → errno.space ≡ 0 → Ends (pop D d errno) (Fitting d)
  unfolding pop
  pop-Fitting d errno fine = elim (List-cases (D.items d)) [
    | inl empty ↦ (none, rw (D.pop_front_none d empty, pop) refl, empty)
    | inr (x, xs, e) ↦
        let (d', popped, rest, cap) = D.pop_front_some d x xs e in
        (some (x, d'), rw (popped, pop, fine) refl, (rw rest e, cap))
  ]

  pop_front-Fitting : (d : D.Deque) (r : Option (T × D.Deque)) → D.pop_front d ≡ r → Fitting d r
  pop_front-Fitting d r h = elim (List-cases (D.items d)) [
    | inl empty ↦ subst (Fitting d) (sym (D.pop_front_none d empty) ∙ h) empty
    | inr (x, xs, e) ↦
        let (d', popped, rest, cap) = D.pop_front_some d x xs e in
        subst (Fitting d) (sym popped ∙ h) (rw rest e, cap)
  ]

  -- Whatever the signal answers, a pop that ends has done that.
  pub pop_sound :
      (d : D.Deque) (errno : SignalErrno) (r : Option (T × D.Deque))
      → pop D d errno ≡ done r
      → Fitting d r
  unfolding pop
  pop_sound d errno r h = elim (Option-cases (D.pop_front d)) [
    | inl e ↦ pop_front-Fitting d r (e ∙ done-injective (rw (e, pop) at h))
    | inr (p, e) ↦
        let (_, _, k) = >>=-eq-done (signal errno.space) (λ _. done (some p)) (rw (e, pop) at h) in
        pop_front-Fitting d r (e ∙ done-injective k)
  ]

  pub push-Stored :
      (d : D.Deque) (x : T) (errno : SignalErrno)
      → errno.item ≡ 0
      → length (D.items d) < D.capacity d
      → (d' : D.Deque) × (push D d x errno ≡ done (ok d')) × Stored d x d'
  unfolding push
  push-Stored d x errno fine room =
      let (d', e, items, cap) = D.push_back_ok d x room in
      (d', rw (e, push, fine) refl, (items, cap))

  -- Whatever the signal answers, and room or not, a push that ends has appended the item.
  pub push_sound :
      (d : D.Deque) (x : T) (errno : SignalErrno) (d' : D.Deque)
      → push D d x errno ≡ done (ok d')
      → D.items d' ≡ D.items d ++ x ∷ []
  unfolding push
  push_sound d x errno d' h = elim (Result-cases (D.push_back d x)) [
    | inl (w, e) ↦
        let (_, _, k) = >>=-eq-done (signal errno.item) (λ _. done (ok w)) (rw (e, push) at h) in
        let same : w ≡ d' = cc in D.push_back_appends d x d' (e ∙ ap ok same)
    | inr (f, e) ↦ absurd (refused f (D.push_back d x) e (rw (e, push) at h))
  ]
    where
      refused :
          (f : D.Error) (r : Result D.Deque D.Error) → r ≡ err f → done (err f) ≡ done (ok d') → ⊥
      refused f r e k = cc
