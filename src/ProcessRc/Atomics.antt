-- ===== src/ProcessRc/Atomics.antt =====
-- src/process_rc.rs, one atomic operation at a time: threads of one process that each clone a reference
-- and then drop it. `increase` loads the counter, swaps the pid, and adds or subtracts; `decrease` swaps
-- the pid and subtracts.
pub mod Invariant
pub mod Laws
pub mod Alone
use shmem_util.Prelude.{
  ℕ, ◌-◌, Bool, Option, none, some, List, [], ◌∷◌, ◌==◌, if◌then◌else◌, get_elem?, set, add_usize,
  sub_usize,
}
use shmem_util.ProcessRc.{DecreaseResult, you_are_the_last_one, move_along}

-- Where a thread stands: before `increase`, with the counter that it has loaded, before its `fetch_add`,
-- before its `fetch_sub` of that number less one, in the panic, with its reference, before the `fetch_sub`
-- of `decrease`, and after it.
pub data Phase : Type 0 where
  starts : Phase
  has_loaded : ℕ → Phase
  will_add : Phase
  will_reset : ℕ → Phase
  panicked : Phase
  holds : Phase
  will_subtract : Phase
  has_dropped : DecreaseResult → Phase

pub record State : Type 0 where
  pub counter : ℕ
  pub pid : ℕ
  pub threads : List Phase

abbrev pub swapped : Bool → ℕ → Phase
swapped same count = if same then will_add else if count == 0 then panicked else will_reset count

abbrev pub told : ℕ → DecreaseResult
told counter = if counter == 1 then you_are_the_last_one else move_along

module _ (this_pid : ℕ) where
  -- the next atomic operation of the thread at that place
  unfoldable pub operate : State → ℕ → Phase → State
  operate s i starts = record s { threads = set s.threads i (has_loaded s.counter) }
  operate s i (has_loaded count) = record s {
    pid = this_pid;
    threads = set s.threads i (swapped (s.pid == this_pid) count);
  }
  operate s i will_add = record s {
    counter = add_usize s.counter 1;
    threads = set s.threads i holds;
  }
  operate s i (will_reset count) = record s {
    counter = sub_usize s.counter (count - 1);
    threads = set s.threads i holds;
  }
  operate s i panicked = s
  operate s i holds = record s {
    pid = this_pid;
    threads =
        set s.threads i
          (if s.pid == this_pid then will_subtract else has_dropped you_are_the_last_one);
  }
  operate s i will_subtract = record s {
    counter = sub_usize s.counter 1;
    threads = set s.threads i (has_dropped (told s.counter));
  }
  operate s i (has_dropped result) = s

  abbrev pub operate_on : State → ℕ → Option Phase → State
  operate_on s i none = s
  operate_on s i (some phase) = operate s i phase

  unfoldable pub step : State → ℕ → State
  step s i = operate_on s i (get_elem? s.threads i)

  unfoldable pub run : State → List ℕ → State
  run s [] = s
  run s (i ∷ picks) = run (step s i) picks
