-- ===== src/ProcessRc/Atomics/Alone.antt =====
-- A thread that is alone: the atomic operations of a method come to what it does in one step.
use shmem_util.Prelude.{ℕ, ◌≡◌, inl, inr, refl, List, [], ◌∷◌, ◌==◌, Bool-cases, Exec, done, panic}
use shmem_util.ProcessRc.{PerProcessReferences, increase, decrease}
use shmem_util.ProcessRc.Atomics.{
  Phase, starts, panicked, holds, has_dropped, State, operate, step, run,
}

-- A thread that nobody interrupts does what the method does in one step.
abbrev pub outcome : State → List Phase → Exec PerProcessReferences
outcome s [] = done (record { counter = s.counter; pid = s.pid })
outcome s (phase ∷ others) = elim phase [
  | panicked ↦ panic
  | _ ↦ done (record { counter = s.counter; pid = s.pid })
]

abbrev alone : PerProcessReferences → Phase → State
alone r phase = record { counter = r.counter; pid = r.pid; threads = phase ∷ [] }

pub increase-alone :
    (this_pid : ℕ) (r : PerProcessReferences)
    → increase r this_pid
      ≡ outcome
          (run this_pid (alone r starts) (0 ∷ 0 ∷ 0 ∷ []))
          (run this_pid (alone r starts) (0 ∷ 0 ∷ 0 ∷ [])).threads
unfolding increase run step operate
increase-alone this_pid r = elim (Bool-cases (r.pid == this_pid)) [
  | inl same ↦ rw same refl
  | inr other ↦ elim (Bool-cases (r.counter == 0)) [
    | inl none_left ↦ rw (other, none_left) refl
    | inr some_left ↦ rw (other, some_left) refl
  ]
]

pub decrease-alone :
    (this_pid : ℕ) (r : PerProcessReferences)
    → run this_pid (alone r holds) (0 ∷ 0 ∷ []) ≡ record {
      counter = (decrease r this_pid).0.counter;
      pid = (decrease r this_pid).0.pid;
      threads = has_dropped (decrease r this_pid).1 ∷ [];
    }
unfolding decrease run step operate
decrease-alone this_pid r = elim (Bool-cases (r.pid == this_pid)) [
  | inl same ↦ rw same refl
  | inr other ↦ rw other refl
]
