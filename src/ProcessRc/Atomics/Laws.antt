-- ===== src/ProcessRc/Atomics/Laws.antt =====
-- The counter of a process that was forked is right under any schedule of the threads that clone and drop.
use shmem_util.Prelude.{
  ℕ, zero, suc, ◌+◌, ◌<◌, ◌≡◌, ◌≢◌, ◌⊎◌, inl, inr, refl, false, some, List, [], ◌∷◌, ◌==◌,
  if◌then◌else◌, length, get_elem?, set, All, All-set, All-get_elem?, All-mono, sum_of, sum_of-set,
  Option-cases, usize_mod, arith,
}
use shmem_util.ProcessRc.Atomics.{
  Phase, starts, has_loaded, will_add, will_reset, panicked, holds, will_subtract, has_dropped,
  State, operate, step, run,
}
use shmem_util.ProcessRc.Atomics.Invariant.{
  held, pending, Early, Stands, Fresh, Counted, none_yet, Early-Stands, Small, same_pid,
  operate-Counted,
}

module _ (this_pid parent_pid n : ℕ) where
  -- The first thread that swaps the pid takes over the references of the parent.
  takes_over :
      (s : State) (i count : ℕ)
      → get_elem? s.threads i ≡ some (has_loaded count)
      → 0 < n
      → parent_pid ≢ this_pid
      → (Fresh this_pid parent_pid n) s
      → (Counted this_pid parent_pid n) (operate this_pid s i (has_loaded count))
  unfolding operate
  takes_over s i count here some_left other h =
      let same : count ≡ n =
        All-get_elem? (Early n) s.threads i {x = has_loaded count} here h.early in
      let elsewhere : (s.pid == this_pid) ≡ false = ground (arith, h.pid, other) in
      let loaded : (count == 0) ≡ false = ground arith in
      let (held_before, pending_before) = (none_yet this_pid parent_pid n) s.threads h.early in
      let holding = sum_of-set held s.threads i (will_reset count) {x = has_loaded count} here in
      let waiting = sum_of-set pending s.threads i (will_reset count) {x = has_loaded count} here in
      rw (elsewhere, loaded)
        (record {
          pid = refl;
          counter = omega (arith, h.counter);
          few = omega arith;
          stands =
              All-set Stands s.threads i (will_reset count) (omega arith)
                (All-mono (Early n) Stands s.threads (Early-Stands this_pid parent_pid n) h.early);
        })

  operate-Fresh :
      (s : State) (i : ℕ) (x : Phase)
      → get_elem? s.threads i ≡ some x
      → 0 < n
      → parent_pid ≢ this_pid
      → (Fresh this_pid parent_pid n) s
      → (Fresh this_pid parent_pid n) (operate this_pid s i x)
        ⊎ (Counted this_pid parent_pid n) (operate this_pid s i x)
  unfolding operate
  operate-Fresh s i starts here some_left other h = inl (record {
    pid = h.pid;
    counter = h.counter;
    early = All-set (Early n) s.threads i (has_loaded s.counter) h.counter h.early;
  })
  operate-Fresh s i (has_loaded count) here some_left other h =
      inr (takes_over s i count here some_left other h)
  operate-Fresh s i will_add here some_left other h =
      absurd (All-get_elem? (Early n) s.threads i {x = will_add} here h.early)
  operate-Fresh s i (will_reset count) here some_left other h =
      absurd (All-get_elem? (Early n) s.threads i {x = will_reset count} here h.early)
  operate-Fresh s i panicked here some_left other h =
      absurd (All-get_elem? (Early n) s.threads i {x = panicked} here h.early)
  operate-Fresh s i holds here some_left other h =
      absurd (All-get_elem? (Early n) s.threads i {x = holds} here h.early)
  operate-Fresh s i will_subtract here some_left other h =
      absurd (All-get_elem? (Early n) s.threads i {x = will_subtract} here h.early)
  operate-Fresh s i (has_dropped result) here some_left other h =
      absurd (All-get_elem? (Early n) s.threads i {x = has_dropped result} here h.early)

  abbrev Right : State → Type 0
  Right s =
      (Small this_pid parent_pid n) s
      × ((Fresh this_pid parent_pid n) s ⊎ (Counted this_pid parent_pid n) s)

  length-set : (xs : List Phase) (i : ℕ) (y : Phase) → length (set xs i y) ≡ length xs
  length-set [] i y = refl
  length-set (x ∷ xs) zero y = refl
  length-set (x ∷ xs) (suc i) y = omega (arith, length-set xs i y)

  length-operate :
      (s : State) (i : ℕ) (x : Phase) → length (operate this_pid s i x).threads ≡ length s.threads
  unfolding operate
  length-operate s i starts = length-set s.threads i _
  length-operate s i (has_loaded count) = length-set s.threads i _
  length-operate s i will_add = length-set s.threads i _
  length-operate s i (will_reset count) = length-set s.threads i _
  length-operate s i panicked = refl
  length-operate s i holds = length-set s.threads i _
  length-operate s i will_subtract = length-set s.threads i _
  length-operate s i (has_dropped result) = refl

  operate-Right :
      (s : State) (i : ℕ) (x : Phase)
      → get_elem? s.threads i ≡ some x
      → 0 < n
      → parent_pid ≢ this_pid
      → Right s
      → Right (operate this_pid s i x)
  operate-Right s i x here some_left other (small, inl h) =
      (omega (arith, length-operate s i x), operate-Fresh s i x here some_left other h)
  operate-Right s i x here some_left other (small, inr h) = (
    omega (arith, length-operate s i x),
    inr ((operate-Counted this_pid parent_pid n) s i x here small h),
  )

  step-Right :
      (s : State) (i : ℕ) → 0 < n → parent_pid ≢ this_pid → Right s → Right (step this_pid s i)
  unfolding step
  step-Right s i some_left other h = elim (Option-cases (get_elem? s.threads i)) [
    | inl missing ↦ rw missing h
    | inr (x, here) ↦ rw here (operate-Right s i x here some_left other h)
  ]

  run-Right :
      (s : State) (picks : List ℕ)
      → 0 < n
      → parent_pid ≢ this_pid
      → Right s
      → Right (run this_pid s picks)
  unfolding run
  run-Right s [] some_left other h = h
  run-Right s (i ∷ picks) some_left other h =
      run-Right (step this_pid s i) picks some_left other (step-Right s i some_left other h)

abbrev pub all_start : ℕ → List Phase
all_start zero = []
all_start (suc k) = starts ∷ all_start k

-- so many threads of a child, whose counter is that of its parent
abbrev pub forked : ℕ → ℕ → ℕ → State
forked parent_pid n k = record { counter = n; pid = parent_pid; threads = all_start k }

all_start-Early : (n k : ℕ) → All (Early n) (all_start k)
all_start-Early n zero = tt
all_start-Early n (suc k) = (tt, all_start-Early n k)

length-all_start : (k : ℕ) → length (all_start k) ≡ k
length-all_start zero = refl
length-all_start (suc k) = omega (arith, length-all_start k)

-- Before the first swap of the pid the counter is what the parent has left, and after it the references
-- that are held and those still to be taken off; no thread has panicked.
abbrev pub IsRight : ℕ → ℕ → State → Type 0
IsRight this_pid n s =
    (s.counter
      ≡ (if s.pid == this_pid then sum_of held s.threads + sum_of pending s.threads else n))
    × All Stands s.threads

counter_of :
    (this_pid parent_pid n : ℕ) (s : State)
    → parent_pid ≢ this_pid
    → Right this_pid parent_pid n s
    → IsRight this_pid n s
counter_of this_pid parent_pid n s other (small, inl h) = (
  (let elsewhere : (s.pid == this_pid) ≡ false = ground (arith, h.pid, other) in
      rw elsewhere h.counter),
  All-mono (Early n) Stands s.threads (Early-Stands this_pid parent_pid n) h.early,
)
counter_of this_pid parent_pid n s other (small, inr h) =
    (rw (same_pid this_pid parent_pid n s h) h.counter, h.stands)

-- In a process that was forked from another one, with at least one reference in the counter of
-- its parent and room in it, any number of threads that each clone a reference and then drop
-- it, one atomic operation at a time and under any schedule: as long as no thread has swapped
-- the pid, the counter is what the parent has left; afterwards it is the number of references
-- that the threads hold, together with the number that a thread which is about to reset it has
-- loaded; and no thread panics.
pub run-IsRight :
    (this_pid parent_pid n k : ℕ) (picks : List ℕ)
    → 0 < n
    → parent_pid ≢ this_pid
    → n + k < usize_mod
    → IsRight this_pid n (run this_pid (forked parent_pid n k) picks)
run-IsRight this_pid parent_pid n k picks some_left other small =
    counter_of this_pid parent_pid n (run this_pid (forked parent_pid n k) picks) other (
      run-Right this_pid parent_pid n (forked parent_pid n k) picks some_left other (
        omega (arith, length-all_start k),
        inl (record { pid = refl; counter = refl; early = all_start-Early n k }),
      ))
