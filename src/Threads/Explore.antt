-- ===== src/Threads/Explore.antt =====
-- A search through all the schedules of two threads, and what it shows.
use shmem_util.Prelude.{
  ℕ, zero, suc, ◌≡◌, refl, Bool, true, false, List, [], ◌∷◌, ◌⊎◌, inl, inr, arith,
}
use shmem_util.Threads.{Thread, Turn, ended, blocked, failed, moved, turn, World, Pick, step, run}

-- A thread moves, or it does not.
Turn-cases :
    {S : Type 0} (t : Turn S)
    → ((s : S) × (p : Thread S) × (t ≡ moved s p)) ⊎ ((t ≡ ended) ⊎ (t ≡ blocked) ⊎ (t ≡ failed))
Turn-cases ended = inr (inl refl)
Turn-cases blocked = inr (inr (inl refl))
Turn-cases failed = inr (inr (inr refl))
Turn-cases (moved s p) = inl (s, p, refl)

module _ {S : Type 0} (is_right : S → Bool) where
  -- Whether on every schedule of at most so many statements none fails, somebody can always go on, and the
  -- last state is right.
  unfoldable pub passes : ℕ → S → Thread S → Thread S → Bool
  passes zero s p c = false
  passes (suc n) s p c = elim (turn s p) [
    | failed ↦ false
    | blocked ↦ (elim (turn s c) [
      | failed ↦ false
      | blocked ↦ false
      | ended ↦ false
      | moved s' c' ↦ passes n s' p c'
    ])
    | ended ↦ (elim (turn s c) [
      | failed ↦ false
      | blocked ↦ false
      | ended ↦ is_right s
      | moved s' c' ↦ passes n s' p c'
    ])
    | moved s' p' ↦ (elim (passes n s' p' c) [
      | false ↦ false
      | true ↦ (elim (turn s c) [
        | failed ↦ false
        | blocked ↦ true
        | ended ↦ true
        | moved s'' c'' ↦ passes n s'' p c''
      ])
    ])
  ]

  -- The search passes from that world.
  abbrev pub Searched : ℕ → World S → Type 0
  Searched n w = (w.panicked ≡ false) × (passes n w.shared w.parent w.child ≡ true)

  -- Both threads have come to their ends, in a state that is right.
  abbrev pub Ended : World S → Type 0
  Ended w =
      (w.panicked ≡ false)
      × (turn w.shared w.parent ≡ ended)
      × (turn w.shared w.child ≡ ended)
      × (is_right w.shared ≡ true)

  step-Searched :
      (n : ℕ) (w : World S) (pick : Pick)
      → Searched (suc n) w
      → Searched (suc n) (step w pick) ⊎ Searched n (step w pick)
  unfolding step passes
  step-Searched n w Pick.parent h = ground arith
  step-Searched n w Pick.child h = ground arith

  -- Some search passes from that world.
  abbrev pub Safe : World S → Type 0
  Safe w = (n : ℕ) × Searched n w

  step-Safe : (w : World S) (pick : Pick) → Safe w → Safe (step w pick)
  unfolding passes
  step-Safe w pick (zero, h) = absurd (ground arith)
  step-Safe w pick (suc n, h) = elim (step-Searched n w pick h) [
    | inl k ↦ (suc n, k)
    | inr k ↦ (n, k)
  ]

  run-Safe : (w : World S) (picks : List Pick) → Safe w → Safe (run w picks)
  unfolding run
  run-Safe w [] h = h
  run-Safe w (pick ∷ picks) h = run-Safe (step w pick) picks (step-Safe w pick h)

  -- Where it has not ended, somebody moves, and less is left.
  can_move :
      (n : ℕ) (w : World S)
      → Searched (suc n) w
      → Ended w ⊎ ((pick : Pick) × Searched n (step w pick))
  unfolding step passes
  can_move n w h = elim (Turn-cases (turn w.shared w.parent)) [
    | inl (s, p, e) ↦ inr (Pick.parent, ground arith)
    | inr stays ↦ elim (Turn-cases (turn w.shared w.child)) [
      | inl (s, c, e) ↦ inr (Pick.child, ground arith)
      | inr stuck ↦ inl (ground arith)
    ]
  ]

  can_end : (n : ℕ) (w : World S) → Searched n w → (more : List Pick) × Ended (run w more)
  unfolding run passes
  can_end zero w h = absurd (ground arith)
  can_end (suc n) w h = elim (can_move n w h) [
    | inl ends ↦ ([], ends)
    | inr (pick, k) ↦ let (more, ends) = can_end n (step w pick) k in (pick ∷ more, ends)
  ]

  -- On no schedule a statement fails, and from each world that is come to there is a schedule by which
  -- both threads come to their ends, in a state that is right.
  abbrev pub Passes : World S → Type 0
  Passes w =
      (picks : List Pick)
      → ((run w picks).panicked ≡ false) × ((more : List Pick) × Ended (run (run w picks) more))

  -- What the search says is so.
  pub passes-Passes :
      (n : ℕ) (w : World S)
      → w.panicked ≡ false
      → passes n w.shared w.parent w.child ≡ true
      → Passes w
  passes-Passes n w stands found picks =
      let (m, h) = run-Safe w picks (n, (stands, found)) in (h.0, can_end m (run w picks) h)
