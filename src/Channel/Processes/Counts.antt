-- ===== src/Channel/Processes/Counts.antt =====
-- Several processes with one channel: the counts stay those of the live handles of all, and it is the
-- owner who destroys.
use shmem_util.Prelude.{
  ℕ, suc, ◌+◌, ◌-◌, ◌≡◌, ◌≢◌, ◌⊎◌, inl, inr, refl, Option, none, some, List, [], ◌∷◌, ◌++◌, done,
  ◌==◌, Ends, All, All-get_elem?, length, get_elem?, sum_of, Bool-cases, arith,
}
use mathlib.Core.Path.{subst, sym}
use shmem_util.Channel.Handles.{DropAnswers}
use shmem_util.Channel.Lifetime.{Live, Use, used, Fine}
use shmem_util.Channel.Processes.{
  Proc, System, Step, uses, forks, view, store, who, use_by, fork_by, step_by, advance, run,
}
use shmem_util.Channel.Processes.Serving.{serve-After}
use shmem_util.Channel.Processes.Counted.{
  Allowed, Counted, Freed, view-At, fewer, less, stored, if_false, senders_of, receivers_of,
}

module _ {Q : Type 0} where
  abbrev Reached : ℕ → ℕ → System Q → System Q → Type 0
  Reached lost k s s' = (s'.owner ≡ s.owner) × (Freed lost s' ⊎ Counted lost k s')

  use-Counted :
      (lost k : ℕ) (s : System Q) (i : ℕ) (q : Proc) (u : Use) (a : DropAnswers)
      → Fine a
      → Counted lost (suc k) s
      → get_elem? s.procs i ≡ some q
      → (left : Option Live) → used q.live u ≡ left
      → Ends (use_by s i q u a left) (Reached lost k s)
  use-Counted lost k s i q u a fine h e none idle = (s, refl, (refl, inr (less lost k s h)))
  use-Counted lost k s i q u a fine h e (some l) step =
      let (c, run, after) =
        serve-After s.owner lost k (sum_of senders_of s.procs - q.live.senders)
          (sum_of receivers_of s.procs - q.live.receivers) q.pid (view s q) q.live l u a fine
          (view-At lost (suc k) s i q h e) step in
      (store s i q c l, rw run refl, (refl, stored lost k s i q c l h e after))

  fork-Counted :
      (lost k : ℕ) (s : System Q) (i : ℕ) (q : Proc) (child : ℕ)
      → child ≢ s.owner
      → Counted lost (suc k) s
      → get_elem? s.procs i ≡ some q
      → Ends (fork_by s q child) (Reached lost k s)
  fork-Counted lost k s i q child other h e =
      elim (Bool-cases (q.live.senders + q.live.receivers == 0)) [
        | inl idle ↦
            let (room, own) = All-get_elem? _ s.procs i e h.each in
            let no_senders : q.live.senders ≡ 0 = ground arith in
            let no_receivers : q.live.receivers ≡ 0 = ground arith in
            (
              record s { procs = record q { pid = child } ∷ s.procs },
              simp idle refl,
              (
                refl,
                inr (record {
                  senders = omega (arith, h.senders);
                  receivers = omega (arith, h.receivers);
                  up = h.up;
                  stands = h.stands;
                  each = (
                    ((room.0, omega (arith, room.1)), λ e. absurd (other e)),
                    fewer s.owner lost k s.procs h.each,
                  );
                  senders_small = omega (arith, h.senders_small);
                  receivers_small = omega (arith, h.receivers_small);
                }),
              ),
            )
        | inr busy ↦ (s, simp busy refl, (refl, inr (less lost k s h)))
      ]

  step-Counted :
      (lost k : ℕ) (s : System Q) (x : Step)
      → Allowed s.owner x
      → Counted lost (suc k) s
      → (found : Option Proc) → get_elem? s.procs (who x) ≡ found
      → Ends (step_by s x found) (Reached lost k s)
  step-Counted lost k s x allowed h none e = (s, refl, (refl, inr (less lost k s h)))
  step-Counted lost k s (uses i u a) fine h (some q) e =
      use-Counted lost k s i q u a fine h e (used q.live u) refl
  step-Counted lost k s (forks i child) other h (some q) e =
      fork-Counted lost k s i q child other h e

  advance-Counted :
      (lost k : ℕ) (s : System Q) (x : Step)
      → Allowed s.owner x
      → Counted lost (suc k) s
      → Ends (advance s x) (Reached lost k s)
  unfolding advance
  advance-Counted lost k s x allowed h =
      subst (λ m. Ends m (Reached lost k s)) (sym (if_false _ _ h.stands))
        (step-Counted lost k s x allowed h (get_elem? s.procs (who x)) refl)

  -- The steps are followed to their end, or to the destruction of the channel.
  abbrev pub Followed : ℕ → System Q → List Step → Type 0
  Followed lost s xs =
      (ys : List Step) × (zs : List Step) × (xs ≡ ys ++ zs)
      × Ends (run s ys) (λ s'. Freed lost s' ⊎ Counted lost 0 s' × (zs ≡ []))

  -- The steps after a first one, which are followed only where the memory is not freed.
  run-after :
      (lost : ℕ) (s s' : System Q) (x : Step) (xs : List Step) (k : ℕ)
      → advance s x ≡ done s'
      → (Counted lost k s' → Followed lost s' xs)
      → Freed lost s' ⊎ Counted lost k s'
      → Followed lost s (x ∷ xs)
  unfolding run
  run-after lost s s' x xs k step rest (inl freed) =
      (x ∷ [], xs, refl, (s', rw step refl, inl freed))
  run-after lost s s' x xs k step rest (inr counted) =
      let (ys, zs, split, ended) = rest counted in (x ∷ ys, zs, rw split refl, rw step ended)

  -- From counts that are those of the live handles of all the processes, where the owner's
  -- counter of references has `lost` more than the owner's live handles, through any steps in
  -- which the processes make, clone and drop handles and fork while they have no sender and no
  -- receiver, with drops whose pthread calls do not fail, children with pids other than the
  -- owner's and room in the counters for as many steps, no step panics up to the end or up to
  -- the destruction of the channel: either all the steps are followed, all this still holds and
  -- nothing is destroyed, or after some of them the channel is destroyed, the owner has no
  -- handle left, and `lost` is 0. Nothing is said of steps after the destruction, which would
  -- be ones with freed memory.
  pub run-Counted :
      (lost : ℕ) (s : System Q) (xs : List Step)
      → Counted lost (length xs) s
      → All (Allowed s.owner) xs
      → Followed lost s xs
  unfolding run
  run-Counted lost s [] h allowed = ([], [], refl, (s, refl, inr (h, refl)))
  run-Counted lost s (x ∷ xs) h (first, allowed) =
      let (s', step, (owner, next)) = advance-Counted lost (length xs) s x first h in
      run-after lost s s' x xs (length xs) step
        (λ counted.
          run-Counted lost s' xs counted (subst (λ o. All (Allowed o) xs) (sym owner) allowed))
        next
