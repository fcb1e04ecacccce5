-- ===== src/Condvar/Forked/Laws.antt =====
-- No assertion of the test fails, but the test can hang: the broadcast can be missed.
use shmem_util.Prelude.{
  ℕ, zero, suc, ◌-◌, ◌*◌, ◌<◌, ◌+◌, ◌≤◌, ◌≡◌, ◌≢◌, ◌⊎◌, inl, inr, refl, Bool, true, false, List, [],
  ◌∷◌, if◌then◌else◌, All, arith,
}
use native.Mathlib.Decide.{dec_lt}
use shmem_util.Condvar.Forked.{
  Child, Parent, World, forked, woken, has_exited, child_step, parent_step, Pick, step, run,
}
use shmem_util.Condvar.Forked.Invariant.{
  of_child, of_parent, WorldInv, world, woken-of_child, step-Inv, run-Inv, exited-wrote,
}

-- The wait does not end without a signal.
abbrev pub OnItsOwn : Pick → Type 0
OnItsOwn Pick.child = Unit
OnItsOwn Pick.parent = Unit
OnItsOwn Pick.wakes_up = ⊥

-- Both have come to their ends, with the number 2.
abbrev pub Finished : World → Type 0
Finished w = (w.parent ≡ Parent.finished) × (w.child ≡ Child.exited) × (w.number ≡ 2)

-- how far the processes are from their ends
abbrev child_left : Child → ℕ → ℕ
child_left Child.locks wrote = 4
child_left Child.tests wrote = 7 - 4 * wrote
child_left Child.goes wrote = 6
child_left Child.sleeps wrote = 5
child_left Child.adds wrote = 2
child_left Child.drops wrote = 1
child_left Child.exited wrote = 0

abbrev parent_left : Parent → ℕ
parent_left Parent.locks = 9
parent_left Parent.checks_0 = 8
parent_left Parent.adds = 7
parent_left Parent.drops = 6
parent_left Parent.broadcasts = 5
parent_left Parent.waits = 4
parent_left Parent.locks_again = 3
parent_left Parent.checks_2 = 2
parent_left Parent.finished = 0
parent_left Parent.panicked = 1

abbrev left : World → ℕ
left w = child_left w.child ((of_parent w.parent).wrote) + parent_left w.parent

woken_left : (c : Child) (wrote : ℕ) → child_left (woken c) wrote ≤ child_left c wrote
woken_left Child.locks wrote = omega arith
woken_left Child.tests wrote = omega arith
woken_left Child.goes wrote = omega arith
woken_left Child.sleeps wrote = omega arith
woken_left Child.adds wrote = omega arith
woken_left Child.drops wrote = omega arith
woken_left Child.exited wrote = omega arith

child_left-antitone : (c : Child) → child_left c 1 ≤ child_left c 0
child_left-antitone Child.locks = omega arith
child_left-antitone Child.tests = omega arith
child_left-antitone Child.goes = omega arith
child_left-antitone Child.sleeps = omega arith
child_left-antitone Child.adds = omega arith
child_left-antitone Child.drops = omega arith
child_left-antitone Child.exited = omega arith

-- The parent goes on where it need not wait for the child.
parent_step-progress :
    (x y : Bool) (n : ℕ) (c : Child) (p : Parent)
    → WorldInv (world x y n c p)
    → (of_parent p).sent ≤ (if has_exited c then 1 else 0)
    → 0 < parent_left p
    → left (parent_step (world x y n c p) p) < left (world x y n c p)
unfolding parent_step
parent_step-progress x y n c Parent.locks h sent more = ground arith
parent_step-progress x y n c Parent.checks_0 h sent more = ground arith
parent_step-progress x y n c Parent.adds h sent more = ground (arith, child_left-antitone c)
parent_step-progress x y n c Parent.drops h sent more = ground arith
parent_step-progress x y n c Parent.broadcasts h sent more = ground (arith, woken_left c 1)
parent_step-progress x y n c Parent.waits h sent more = ground arith
parent_step-progress x y n c Parent.locks_again h sent more = ground arith
parent_step-progress x y n c Parent.checks_2 h sent more =
    let over : has_exited c ≡ true = ground arith in ground (arith, exited-wrote c over)
parent_step-progress x y n c Parent.finished h sent more = absurd (omega arith)
parent_step-progress x y n c Parent.panicked h sent more = ground arith

-- how much there is of a child that goes to sleep or sleeps, and a broadcast that has come: with both of
-- them, the child has missed it
abbrev missed : World → ℕ
missed w = (of_child w.child).going + (of_child w.child).asleep + (of_parent w.parent).sent

abbrev CanMove : World → Type 0
CanMove w =
    (pick : Pick) × OnItsOwn pick × (left (step w pick) < left w) × (missed (step w pick) ≤ 1)

parent_step-missed :
    (x y : Bool) (n : ℕ) (c : Child) (p : Parent)
    → (of_child c).going ≡ 0
    → missed (world x y n c p) ≤ 1
    → missed (parent_step (world x y n c p) p) ≤ 1
unfolding parent_step
parent_step-missed x y n c Parent.locks calm h = ground arith
parent_step-missed x y n c Parent.checks_0 calm h = ground arith
parent_step-missed x y n c Parent.adds calm h = ground arith
parent_step-missed x y n c Parent.drops calm h = ground arith
parent_step-missed x y n c Parent.broadcasts calm h = rw (woken-of_child c) (omega arith)
parent_step-missed x y n c Parent.waits calm h = ground arith
parent_step-missed x y n c Parent.locks_again calm h = ground arith
parent_step-missed x y n c Parent.checks_2 calm h = ground arith
parent_step-missed x y n c Parent.finished calm h = h
parent_step-missed x y n c Parent.panicked calm h = h

parent_can :
    (x y : Bool) (n : ℕ) (c : Child) (p : Parent)
    → WorldInv (world x y n c p)
    → (of_parent p).sent ≤ (if has_exited c then 1 else 0)
    → 0 < parent_left p
    → (of_child c).going ≡ 0
    → missed (world x y n c p) ≤ 1
    → CanMove (world x y n c p)
unfolding step
parent_can x y n c p h sent more calm noticed = (
  Pick.parent,
  tt,
  parent_step-progress x y n c p h sent more,
  parent_step-missed x y n c p calm noticed,
)

parent_left-zero : (p : Parent) → parent_left p ≡ 0 → p ≡ Parent.finished
parent_left-zero Parent.locks h = absurd (omega arith)
parent_left-zero Parent.checks_0 h = absurd (omega arith)
parent_left-zero Parent.adds h = absurd (omega arith)
parent_left-zero Parent.drops h = absurd (omega arith)
parent_left-zero Parent.broadcasts h = absurd (omega arith)
parent_left-zero Parent.waits h = absurd (omega arith)
parent_left-zero Parent.locks_again h = absurd (omega arith)
parent_left-zero Parent.checks_2 h = absurd (omega arith)
parent_left-zero Parent.finished h = refl
parent_left-zero Parent.panicked h = absurd (omega arith)

child_left-zero : (c : Child) (wrote : ℕ) → wrote ≤ 1 → child_left c wrote ≡ 0 → c ≡ Child.exited
child_left-zero Child.locks wrote once h = absurd (omega arith)
child_left-zero Child.tests wrote once h = absurd (omega arith)
child_left-zero Child.goes wrote once h = absurd (omega arith)
child_left-zero Child.sleeps wrote once h = absurd (omega arith)
child_left-zero Child.adds wrote once h = absurd (omega arith)
child_left-zero Child.drops wrote once h = absurd (omega arith)
child_left-zero Child.exited wrote once h = refl

-- The parent has not finished before the child has exited.
unfinished :
    (x y : Bool) (n : ℕ) (c : Child) (p : Parent)
    → WorldInv (world x y n c p)
    → has_exited c ≡ false
    → 0 < parent_left p
unfinished x y n c p h not_yet = elim (dec_lt 0 (parent_left p)) [
  | yes more ↦ more
  | no none_left ↦
      let last = parent_left-zero p (omega arith) in
      let joined : (of_parent p).joined ≡ 1 = rw last refl in absurd (ground arith)
]

can_move :
    (x y : Bool) (n : ℕ) (c : Child) (p : Parent)
    → WorldInv (world x y n c p)
    → 0 < left (world x y n c p)
    → missed (world x y n c p) ≤ 1
    → CanMove (world x y n c p)
unfolding step child_step
can_move x y n Child.locks p h more noticed = elim (dec_lt 0 ((of_parent p).sent)) [
  | yes sent ↦ (Pick.child, tt, ground arith, ground arith)
  | no unsent ↦
      parent_can x y n Child.locks p h (omega arith) (unfinished x y n Child.locks p h refl) refl
        noticed
]
can_move x y n Child.tests p h more noticed = (Pick.child, tt, ground arith, ground arith)
can_move x y n Child.goes p h more noticed = (Pick.child, tt, ground arith, ground arith)
can_move x y n Child.sleeps p h more noticed =
    parent_can x y n Child.sleeps p h (omega arith) (unfinished x y n Child.sleeps p h refl) refl
      noticed
can_move x y n Child.adds p h more noticed = (Pick.child, tt, ground arith, ground arith)
can_move x y n Child.drops p h more noticed = (Pick.child, tt, ground arith, ground arith)
can_move x y n Child.exited p h more noticed =
    parent_can x y n Child.exited p h (omega arith) (omega arith) refl noticed

none_left : (w : World) → WorldInv w → left w ≡ 0 → Finished w
none_left w h none_more =
    let last = parent_left-zero w.parent (omega arith) in
    let over = child_left-zero w.child ((of_parent w.parent).wrote) (ground arith) (omega arith) in
    let parent_wrote : (of_parent w.parent).wrote ≡ 1 = rw last refl in
    let child_wrote : (of_child w.child).wrote ≡ 1 = rw over refl in (last, over, ground arith)

-- With enough fuel: one step for each that is left.
can_finish :
    (fuel : ℕ) (w : World)
    → WorldInv w
    → left w ≤ fuel
    → missed w ≤ 1
    → (more : List Pick) × All OnItsOwn more × Finished (run w more)
unfolding run
can_finish zero w h enough noticed = ([], tt, none_left w h (omega arith))
can_finish (suc fuel) w h enough noticed = elim (dec_lt 0 (left w)) [
  | no over ↦ ([], tt, none_left w h (omega arith))
  | yes some_left ↦
      let (pick, own, less, noticed') =
        can_move w.child_held w.parent_held w.number w.child w.parent h some_left noticed in
      let (more, owns, ends) =
        can_finish fuel (step w pick) (step-Inv w pick h) (omega arith) noticed' in
      (pick ∷ more, (own, owns), ends)
]

forked-Inv : WorldInv forked
forked-Inv = ground arith

-- The broadcast has come, and the child goes to sleep after it, or sleeps.
abbrev pub Missed : World → Type 0
Missed w = ((w.child ≡ Child.goes) ⊎ (w.child ≡ Child.sleeps)) × (0 < (of_parent w.parent).sent)

too_late :
    (c : Child) (p : Parent) (x y : Bool) (n : ℕ)
    → 1 < missed (world x y n c p)
    → (of_parent p).sent ≤ 1
    → Missed (world x y n c p)
too_late Child.locks p x y n h once = absurd (omega arith)
too_late Child.tests p x y n h once = absurd (omega arith)
too_late Child.goes p x y n h once = (inl refl, omega arith)
too_late Child.sleeps p x y n h once = (inr refl, omega arith)
too_late Child.adds p x y n h once = absurd (omega arith)
too_late Child.drops p x y n h once = absurd (omega arith)
too_late Child.exited p x y n h once = absurd (omega arith)

-- There is a schedule without wake-ups on their own by which both come to their ends.
abbrev pub CanFinish : World → Type 0
CanFinish w = (more : List Pick) × All OnItsOwn more × Finished (run w more)

-- However the processes are scheduled, no assertion of the parent fails, and they can come to their ends,
-- unless the broadcast was missed.
pub check_fork-CanFinish :
    (picks : List Pick)
    → ((run forked picks).parent ≢ Parent.panicked)
      × (CanFinish (run forked picks) ⊎ Missed (run forked picks))
check_fork-CanFinish picks =
    let w = run forked picks in
    let h = run-Inv forked picks forked-Inv in
    (
      (λ bad. let failed : (of_parent w.parent).failed ≡ 1 = rw bad refl in ground arith),
      elim (dec_lt 1 (missed w)) [
        | yes late ↦
            inr (too_late w.child w.parent w.child_held w.parent_held w.number late (ground arith))
        | no noticed ↦ inl (can_finish (left w) w h (omega arith) (omega arith))
      ],
    )

-- The child is asleep, the parent waits for it, and nothing moves them but a wake-up without a signal.
abbrev pub Hangs : World → Type 0
Hangs w =
    (w.child ≡ Child.sleeps)
    × (w.parent ≡ Parent.waits)
    × ((pick : Pick) → OnItsOwn pick → step w pick ≡ w)

nothing_moves :
    (pick : Pick)
    → OnItsOwn pick
    → step (world false false 1 Child.sleeps Parent.waits) pick
      ≡ world false false 1 Child.sleeps Parent.waits
unfolding step child_step parent_step
nothing_moves Pick.child own = refl
nothing_moves Pick.parent own = refl
nothing_moves Pick.wakes_up own = absurd own

-- The parent locks its own mutex, adds and broadcasts between the test of the child and its sleep.
pub check_fork-Hangs : (picks : List Pick) × All OnItsOwn picks × Hangs (run forked picks)
unfolding run step child_step parent_step
check_fork-Hangs = (
  Pick.child ∷ Pick.child ∷ Pick.parent ∷ Pick.parent ∷ Pick.parent ∷ Pick.parent ∷ Pick.parent
      ∷ Pick.child ∷ [],
  (tt, (tt, (tt, (tt, (tt, (tt, (tt, (tt, tt)))))))),
  (refl, refl, nothing_moves),
)
