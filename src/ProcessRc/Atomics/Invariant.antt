-- ===== src/ProcessRc/Atomics/Invariant.antt =====
-- What holds of the counter once a thread has swapped the pid.
use shmem_util.Prelude.{
  ℕ, ◌+◌, ◌≤◌, ◌<◌, ◌≡◌, refl, true, some, List, [], ◌∷◌, ◌==◌, length, get_elem?, set, All,
  All-set, All-get_elem?, sum_of, sum_of-set, sum_of-ge, usize_mod, arith,
}
use shmem_util.ProcessRc.Atomics.{
  Phase, starts, has_loaded, will_add, will_reset, panicked, holds, will_subtract, has_dropped,
  State, told, operate,
}

-- whether a thread has a reference
abbrev pub held : Phase → ℕ
held starts = 0
held (has_loaded count) = 0
held will_add = 0
held (will_reset count) = 0
held panicked = 0
held holds = 1
held will_subtract = 1
held (has_dropped result) = 0

-- the references of the parent that the counter still has, and the one of the thread that resets it
abbrev pub pending : Phase → ℕ
pending starts = 0
pending (has_loaded count) = 0
pending will_add = 0
pending (will_reset count) = count
pending panicked = 0
pending holds = 0
pending will_subtract = 0
pending (has_dropped result) = 0

abbrev adding : Phase → ℕ
adding starts = 0
adding (has_loaded count) = 0
adding will_add = 1
adding (will_reset count) = 0
adding panicked = 0
adding holds = 0
adding will_subtract = 0
adding (has_dropped result) = 0

-- Nobody has swapped the pid.
abbrev pub Early : ℕ → Phase → Type 0
Early n starts = Unit
Early n (has_loaded count) = count ≡ n
Early n will_add = ⊥
Early n (will_reset count) = ⊥
Early n panicked = ⊥
Early n holds = ⊥
Early n will_subtract = ⊥
Early n (has_dropped result) = ⊥

abbrev pub Stands : Phase → Type 0
Stands starts = Unit
Stands (has_loaded count) = Unit
Stands will_add = Unit
Stands (will_reset count) = 0 < count
Stands panicked = ⊥
Stands holds = Unit
Stands will_subtract = Unit
Stands (has_dropped result) = Unit

module _ (this_pid parent_pid n : ℕ) where
  pub record Fresh (s : State) : Type 0 where
    pub pid : s.pid ≡ parent_pid
    pub counter : s.counter ≡ n
    pub early : All (Early n) s.threads

  pub record Counted (s : State) : Type 0 where
    pub pid : s.pid ≡ this_pid
    pub counter : s.counter ≡ sum_of held s.threads + sum_of pending s.threads
    pub few : sum_of pending s.threads ≤ n
    pub stands : All Stands s.threads

  room : (xs : List Phase) → sum_of held xs + sum_of adding xs ≤ length xs
  room [] = omega arith
  room (x ∷ xs) = ground (arith, room xs)

  pub none_yet :
      (xs : List Phase) → All (Early n) xs → (sum_of held xs ≡ 0) × (sum_of pending xs ≡ 0)
  none_yet [] h = (refl, refl)
  none_yet (x ∷ xs) (h, hs) = ground (arith, none_yet xs hs)

  pub Early-Stands : (x : Phase) → Early n x → Stands x
  Early-Stands x h = ground arith

  -- The other places stay as they are.
  keeps-Counted :
      (s : State) (i : ℕ) (x y : Phase) (counter pid : ℕ)
      → get_elem? s.threads i ≡ some x
      → Counted s
      → pid ≡ this_pid
      → counter + held x + pending x ≡ s.counter + held y + pending y
      → pending y ≤ pending x
      → Stands y
      → Counted (record { counter = counter; pid = pid; threads = set s.threads i y })
  keeps-Counted s i x y counter pid here h mine change less stands =
      let holding = sum_of-set held s.threads i y {x = x} here in
      let waiting = sum_of-set pending s.threads i y {x = x} here in
      record {
        pid = mine;
        counter = omega (arith, h.counter);
        few = omega (arith, h.few);
        stands = All-set Stands s.threads i y stands h.stands;
      }

  abbrev pub Small : State → Type 0
  Small s = n + length s.threads < usize_mod

  -- the counter is below its bound, by one where a thread will add
  below :
      (s : State) (i : ℕ) (x : Phase)
      → get_elem? s.threads i ≡ some x
      → Counted s
      → s.counter + adding x ≤ n + length s.threads
  below s i x here h =
      omega (arith, h.counter, h.few, room s.threads, sum_of-ge adding s.threads i {x = x} here)

  at_least :
      (s : State) (i : ℕ) (x : Phase)
      → get_elem? s.threads i ≡ some x
      → Counted s
      → held x + pending x ≤ s.counter
  at_least s i x here h = omega (
    arith,
    h.counter,
    sum_of-ge held s.threads i {x = x} here,
    sum_of-ge pending s.threads i {x = x} here,
  )

  pub same_pid : (s : State) → Counted s → (s.pid == this_pid) ≡ true
  same_pid s h = ground (arith, h.pid)

  pub operate-Counted :
      (s : State) (i : ℕ) (x : Phase)
      → get_elem? s.threads i ≡ some x
      → Small s
      → Counted s
      → Counted (operate this_pid s i x)
  unfolding operate
  operate-Counted s i starts here small h =
      keeps-Counted s i starts _ _ _ here h h.pid refl (omega arith) tt
  operate-Counted s i (has_loaded count) here small h =
      rw (same_pid s h)
        (keeps-Counted s i (has_loaded count) will_add _ _ here h refl refl (omega arith) tt)
  operate-Counted s i will_add here small h =
      let bound = below s i will_add here h in
      keeps-Counted s i will_add holds _ _ here h h.pid (ground arith) (omega arith) tt
  operate-Counted s i (will_reset count) here small h =
      let some_left : 0 < count =
        All-get_elem? Stands s.threads i {x = will_reset count} here h.stands in
      let enough = at_least s i (will_reset count) here h in
      let bound = below s i (will_reset count) here h in
      keeps-Counted s i (will_reset count) holds _ _ here h h.pid (ground arith) (omega arith) tt
  operate-Counted s i panicked here small h =
      absurd (All-get_elem? Stands s.threads i {x = panicked} here h.stands)
  operate-Counted s i holds here small h =
      rw (same_pid s h)
        (keeps-Counted s i holds will_subtract _ _ here h refl refl (omega arith) tt)
  operate-Counted s i will_subtract here small h =
      let enough = at_least s i will_subtract here h in
      let bound = below s i will_subtract here h in
      keeps-Counted s i will_subtract (has_dropped (told s.counter)) _ _ here h h.pid (ground arith)
        (omega arith) tt
  operate-Counted s i (has_dropped result) here small h = h
