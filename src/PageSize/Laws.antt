-- ===== src/PageSize/Laws.antt =====
-- All callers, in any threads, are told the same size.
use shmem_util.Prelude.{
  ℕ, ◌≡◌, refl, Bool, Option, none, some, List, [], ◌∷◌, Result, ok, err, All, if◌then◌else◌, arith,
}
use shmem_util.Prelude.{pos, negsuc}
use shmem_util.PageSize.{Error, Answer, get_pagesize}

-- Calls in the order in which they end: for each whether it had looked at the cell before that was
-- filled, and what the system answers.
abbrev pub results : Option ℕ → List (Bool × Answer) → List (Result ℕ Error)
results cell [] = []
results cell ((early, answer) ∷ calls) =
    (get_pagesize (if early then none else cell) answer cell).0
    ∷ results ((get_pagesize (if early then none else cell) answer cell).1) calls

abbrev pub Tells : ℕ → Result ℕ Error → Type 0
Tells n (ok k) = k ≡ n
Tells n (err e) = Unit

filled :
    (n : ℕ) (seen : Option ℕ) (answer : Answer)
    → ((k : ℕ) → seen ≡ some k → k ≡ n)
    → Tells n (get_pagesize seen answer (some n)).0
      × ((get_pagesize seen answer (some n)).1 ≡ some n)
unfolding get_pagesize
filled n (some k) answer h = (h k refl, refl)
filled n none (err e) h = (tt, refl)
filled n none (ok none) h = (tt, refl)
filled n none (ok (some (pos m))) h = (refl, refl)
filled n none (ok (some (negsuc m))) h = (tt, refl)

results-filled : (n : ℕ) (calls : List (Bool × Answer)) → All (Tells n) (results (some n) calls)
results-filled n [] = tt
results-filled n ((early, answer) ∷ calls) =
    let (told, kept) = filled n (if early then none else some n) answer (seen early) in
    (told, rw kept (results-filled n calls))
  where
    seen : (early : Bool) (k : ℕ) → (if early then none else some n) ≡ some k → k ≡ n
    seen early k e = ground arith

first :
    (answer : Answer) (calls : List (Bool × Answer))
    → ((n : ℕ) × All (Tells n) (results none calls))
    → (n : ℕ) × All
        (Tells n)
        ((get_pagesize none answer none).0 ∷ results ((get_pagesize none answer none).1) calls)
unfolding get_pagesize
first (err e) calls (n, h) = (n, (tt, h))
first (ok none) calls (n, h) = (n, (tt, h))
first (ok (some (pos m))) calls (n, h) = (m, (refl, results-filled m calls))
first (ok (some (negsuc m))) calls (n, h) = (n, (tt, h))

unseen : (early : Bool) → if◌then◌else◌ {A = Option ℕ} early none none ≡ none
unseen early = ground arith

-- All the calls of `get_pagesize` that succeed, whatever the system answers and whichever of
-- them looked at the cell before it was filled, are told the same size.
pub results-same : (calls : List (Bool × Answer)) → (n : ℕ) × All (Tells n) (results none calls)
results-same [] = (0, tt)
results-same ((early, answer) ∷ calls) = rw (unseen early) (first answer calls (results-same calls))
