-- ===== src/ProcessRc/Laws.antt =====
-- Within one process the counter is the number of references, and the last one to go is told so.
use shmem_util.Prelude.{
  ℕ, zero, suc, ◌+◌, ◌<◌, ◌≡◌, ◌≢◌, refl, List, [], ◌∷◌, Option, none, some, Exec, done, ◌>>=◌,
  length, true, false, ◌==◌, sub_usize, usize_mod, arith,
}
use shmem_util.ProcessRc.{
  PerProcessReferences, DecreaseResult, you_are_the_last_one, move_along, increase, decrease,
}

-- What a process does with its references: it clones one, or drops one.
pub data Use : Type 0 where
  clones drops : Use

pub same_pid : (p : ℕ) → (p == p) ≡ true
same_pid p = ground arith

-- The counter through such a history, with the answers to the drops.
pub run : ℕ → PerProcessReferences → List Use → Exec (PerProcessReferences × List DecreaseResult)
run this_pid r [] = done (r, [])
run this_pid r (clones ∷ us) = do r' ← increase r this_pid; run this_pid r' us
run this_pid r (drops ∷ us) = do
  rest ← run this_pid (decrease r this_pid).0 us
  done (rest.0, (decrease r this_pid).1 ∷ rest.1)

-- The references themselves: nothing is cloned or dropped once none is left.
abbrev pub references : ℕ → List Use → Option ℕ
references n [] = some n
references zero (u ∷ us) = none
references (suc n) (clones ∷ us) = references (suc (suc n)) us
references (suc n) (drops ∷ us) = references n us

abbrev pub count_drops : List Use → ℕ
count_drops [] = 0
count_drops (clones ∷ us) = count_drops us
count_drops (drops ∷ us) = suc (count_drops us)

-- every drop but the last is told to move along
abbrev pub answers : ℕ → ℕ → List DecreaseResult
answers left zero = []
answers zero (suc zero) = you_are_the_last_one ∷ []
answers left (suc d) = move_along ∷ answers left d

abbrev pub at_count : ℕ → ℕ → PerProcessReferences
at_count n p = record { counter = n; pid = p }

pub increase_same :
    (p n : ℕ) → n + 1 < usize_mod → increase (at_count n p) p ≡ done (at_count (suc n) p)
unfolding increase
increase_same p n h = ground arith

pub decrease_last : (p : ℕ) → decrease (at_count 1 p) p ≡ (at_count 0 p, you_are_the_last_one)
unfolding decrease
decrease_last p = rw (same_pid p)

pub decrease_other :
    (p n : ℕ)
    → n + 2 < usize_mod
    → decrease (at_count (suc (suc n)) p) p ≡ (at_count (suc n) p, move_along)
unfolding decrease
decrease_other p n h =
    let test : (suc (suc n) == 1) ≡ false = ground arith in
    let less : sub_usize (suc (suc n)) 1 ≡ suc n = omega arith in rw (same_pid p, test, less)

answers_more :
    (m n d : ℕ) (us : List Use)
    → references (suc n) us ≡ some m
    → d ≡ count_drops us
    → answers m (suc d) ≡ move_along ∷ answers m d
answers_more (suc m) n d us e h = refl
answers_more zero n (suc d) us e h = refl
answers_more zero n zero [] e h = absurd (ground arith)
answers_more zero n zero (clones ∷ us) e h = answers_more zero (suc n) zero us e h
answers_more zero n zero (drops ∷ us) e h = absurd (omega arith)

-- Within one process, through any history of clones and drops that clones and drops no
-- reference once none is left, without an overflow of the counter, the counter is the number of
-- references, and every drop is told to move along, save the one that leaves none, which is
-- told that it is the last one.
pub run-references :
    (this_pid n m : ℕ) (us : List Use)
    → n + length us < usize_mod
    → references n us ≡ some m
    → run this_pid (record { counter = n; pid = this_pid }) us
      ≡ done (record { counter = m; pid = this_pid }, answers m (count_drops us))
unfolding run
run-references p n m [] h e = ground arith
run-references p zero m (u ∷ us) h e = absurd (ground arith)
run-references p (suc n) m (clones ∷ us) h e =
    rw (increase_same p (suc n) (omega arith)) (run-references p (suc (suc n)) m us (omega arith) e)
run-references p (suc zero) m (drops ∷ []) h e = rw (decrease_last p) (ground arith)
run-references p (suc zero) m (drops ∷ u ∷ us) h e = absurd (ground arith)
run-references p (suc (suc n)) m (drops ∷ us) h e = rw (
  decrease_other p n (omega arith),
  run-references p (suc n) m us (omega arith) e,
  answers_more m n (count_drops us) us e refl,
)

-- In a process whose pid is not the one that is stored, with a positive counter that fits, the
-- first clone sets the counter to 1, and a drop before any clone leaves the counter and is told
-- that it is the last one.
pub forked :
    (parent child n : ℕ)
    → parent ≢ child
    → 0 < n
    → n < usize_mod
    → (increase (at_count n parent) child ≡ done (at_count 1 child))
      × (decrease (at_count n parent) child ≡ (at_count n child, you_are_the_last_one))
unfolding increase decrease
forked parent child n other pos small = ground arith
