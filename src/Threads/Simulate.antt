-- ===== src/Threads/Simulate.antt =====
-- Two threads on a detailed state that do what two threads on a simpler one do.
use shmem_util.Prelude.{
  ◌≡◌, ◌≢◌, ◌⊎◌, inl, inr, refl, Bool, true, false, List, [], ◌∷◌, Exec, done, panic, hang, ◌>>=◌,
  arith,
}
use shmem_util.Threads.{
  Thread, Turn, ended, blocked, failed, moved, outcome, turn, World, Pick, parent_turn, child_turn,
  step, run,
}
use shmem_util.Threads.Explore.{Ended, Passes}

module _ {A S : Type 0} (detail : A → S) where
  abbrev pub detailed : Exec A → Exec S
  detailed (done a) = done (detail a)
  detailed panic = panic
  detailed hang = hang

  -- Where the simple run does not fail, the other one ends the same way.
  abbrev pub Same : Exec A → Exec S → Type 0
  Same r r' = (r ≡ panic) ⊎ (r' ≡ detailed r)

  abbrev pub Follows : (A → Exec A) → (S → Exec S) → Type 0
  Follows f g = (a : A) → Same (f a) (g (detail a))

  abbrev pub AllFollow : Thread A → Thread S → Type 0
  AllFollow [] [] = Unit
  AllFollow [] (g ∷ gs) = ⊥
  AllFollow (f ∷ fs) [] = ⊥
  AllFollow (f ∷ fs) (g ∷ gs) = Follows f g × AllFollow fs gs

  abbrev TurnFollows : Turn A → Turn S → Type 0
  TurnFollows ended t = t ≡ ended
  TurnFollows blocked t = t ≡ blocked
  TurnFollows failed t = ⊥
  TurnFollows (moved a p) t = (p' : Thread S) × (t ≡ moved (detail a) p') × AllFollow p p'

  outcome-follows :
      (p : Thread A) (p' : Thread S) (r : Exec A) (r' : Exec S)
      → AllFollow p p'
      → Same r r'
      → outcome p r ≢ failed
      → TurnFollows (outcome p r) (outcome p' r')
  outcome-follows p p' (done a) r' rest e stands = (p', ground arith, rest)
  outcome-follows p p' panic r' rest e stands = absurd (stands refl)
  outcome-follows p p' hang r' rest e stands = ground arith

  turn-follows :
      (a : A) (p : Thread A) (p' : Thread S)
      → AllFollow p p'
      → turn a p ≢ failed
      → TurnFollows (turn a p) (turn (detail a) p')
  unfolding turn
  turn-follows a [] [] h stands = refl
  turn-follows a [] (g ∷ gs) h stands = absurd h
  turn-follows a (f ∷ fs) [] h stands = absurd h
  turn-follows a (f ∷ fs) (g ∷ gs) h stands =
      outcome-follows fs gs (f a) (g (detail a)) h.1 (h.0 a) stands

  abbrev pub Related : World A → World S → Type 0
  Related w w' =
      (w'.shared ≡ detail w.shared)
      × AllFollow w.parent w'.parent
      × AllFollow w.child w'.child
      × (w'.panicked ≡ w.panicked)

  parent_turn-Related :
      (w : World A) (w' : World S) (t : Turn A) (t' : Turn S)
      → Related w w'
      → TurnFollows t t'
      → Related (parent_turn w t) (parent_turn w' t')
  parent_turn-Related w w' ended t' h k = rw k h
  parent_turn-Related w w' blocked t' h k = rw k h
  parent_turn-Related w w' failed t' h k = absurd k
  parent_turn-Related w w' (moved a p) t' (e, _, c, same) (p', k, follow) =
      rw k (refl, follow, c, same)

  child_turn-Related :
      (w : World A) (w' : World S) (t : Turn A) (t' : Turn S)
      → Related w w'
      → TurnFollows t t'
      → Related (child_turn w t) (child_turn w' t')
  child_turn-Related w w' ended t' h k = rw k h
  child_turn-Related w w' blocked t' h k = rw k h
  child_turn-Related w w' failed t' h k = absurd k
  child_turn-Related w w' (moved a p) t' (e, c, _, same) (p', k, follow) =
      rw k (refl, c, follow, same)

  step-Related :
      (w : World A) (w' : World S) (pick : Pick)
      → Related w w'
      → (step w pick).panicked ≡ false
      → Related (step w pick) (step w' pick)
  unfolding step
  step-Related w w' Pick.parent h stands = parent_turn-Related w w' _ _ h (
      rw h.0 (
        turn-follows w.shared w.parent w'.parent h.1 (λ bad. absurd (ground (arith, bad, stands)))))
  step-Related w w' Pick.child h stands = child_turn-Related w w' _ _ h (
      rw h.0
        (turn-follows w.shared w.child w'.child h.2 (λ bad. absurd (ground (arith, bad, stands)))))

  abbrev Stands : World A → Type 0
  Stands w = (picks : List Pick) → (run w picks).panicked ≡ false

  run-Related :
      (w : World A) (w' : World S) (picks : List Pick)
      → Related w w'
      → Stands w
      → Related (run w picks) (run w' picks)
  unfolding run
  run-Related w w' [] h stands = h
  run-Related w w' (pick ∷ picks) h stands =
      run-Related (step w pick) (step w' pick) picks (step-Related w w' pick h (stands (pick ∷ [])))
        (λ more. stands (pick ∷ more))

  thread_over :
      (a : A) (p : Thread A) (p' : Thread S)
      → AllFollow p p'
      → turn a p ≡ ended
      → turn (detail a) p' ≡ ended
  thread_over a p p' h over =
      rw over at (turn-follows a p p' h (λ bad. absurd (ground (arith, bad, over))))

  module _ (is_right : A → Bool) (is_fine : S → Bool)
      (right-fine : (a : A) → is_right a ≡ true → is_fine (detail a) ≡ true) where
    Ended-Related :
        (w : World A) (w' : World S) → Related w w' → Ended is_right w → Ended is_fine w'
    unfolding turn
    Ended-Related w w' (e, p, c, k) (stands, parent_over, child_over, right) = (
      ground arith,
      rw e (thread_over w.shared w.parent w'.parent p parent_over),
      rw e (thread_over w.shared w.child w'.child c child_over),
      rw e (right-fine w.shared right),
    )

    run-Passes :
        (w : World A) (picks : List Pick) → Passes is_right w → Passes is_right (run w picks)
    unfolding run
    run-Passes w [] h = h
    run-Passes w (pick ∷ picks) h = run-Passes (step w pick) picks (λ more. h (pick ∷ more))

    -- Where the threads on the simpler state pass, so do the others.
    pub Related-Passes :
        (w : World A) (w' : World S) → Related w w' → Passes is_right w → Passes is_fine w'
    Related-Passes w w' h passes picks =
        let along = run-Related w w' picks h (λ more. (passes more).0) in
        let (stands, (more, ends)) = passes picks in
        let onwards = run-Passes w picks passes in
        let further =
          run-Related (run w picks) (run w' picks) more along (λ later. (onwards later).0) in
        (ground arith, (more, Ended-Related (run (run w picks) more) _ further ends))

pub bind-Same :
    {A S B T : Type 0} (detail : A → S) (more : B → T) (r : Exec A) (r' : Exec S) (k : A → Exec B)
    (k' : S → Exec T)
    → Same detail r r'
    → ((a : A) → Same more (k a) (k' (detail a)))
    → Same more (r >>= k) (r' >>= k')
bind-Same detail more r r' k k' (inl fails) next = inl (rw fails refl)
bind-Same detail more (done a) r' k k' (inr e) next = rw e (next a)
bind-Same detail more panic r' k k' (inr e) next = inl refl
bind-Same detail more hang r' k k' (inr e) next = inr (rw e refl)
