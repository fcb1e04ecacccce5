-- ===== src/ProcessRc.antt =====
-- src/process_rc.rs: a reference counter that knows its process. Each method is taken as one step here;
-- ProcessRc/Atomics takes them apart, since the threads of a process share its counter.
pub mod Laws
pub mod Atomics
use shmem_util.Prelude.{ℕ, ◌-◌, Exec, done, panic, ◌>>=◌, ◌==◌, if◌then◌else◌, add_usize, sub_usize}

pub record PerProcessReferences : Type 0 where
  pub counter : ℕ
  pub pid : ℕ

pub data DecreaseResult : Type 0 where
  you_are_the_last_one move_along : DecreaseResult

unfoldable pub new : ℕ → PerProcessReferences
new this_pid = record { counter = 1; pid = this_pid }

unfoldable pub increase : PerProcessReferences → ℕ → Exec PerProcessReferences
increase r this_pid =
    let count = r.counter in
    if r.pid == this_pid
    then done (record { counter = add_usize r.counter 1; pid = this_pid })
    else if count == 0
    then panic
    else done (record { counter = sub_usize r.counter (count - 1); pid = this_pid })

unfoldable pub decrease : PerProcessReferences → ℕ → PerProcessReferences × DecreaseResult
decrease r current_pid =
    if r.pid == current_pid
    then (
      record { counter = sub_usize r.counter 1; pid = current_pid },
      if r.counter == 1 then you_are_the_last_one else move_along,
    )
    else (record { counter = r.counter; pid = current_pid }, you_are_the_last_one)
