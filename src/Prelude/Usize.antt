-- ===== src/Prelude/Usize.antt =====
-- `usize` on a 64-bit target. Plain `+` and `*` wrap, as in the release build.
use Prim.Native.Nat.{ℕ, ◌+◌, ◌-◌, ◌*◌, ◌%◌, ◌^◌}
use mathlib.Core.Option.{Option, none, some}
use shmem_util.Prelude.Tests.{ltb, if◌then◌else◌}

abbrev pub usize_mod : ℕ
usize_mod = 2 ^ 64

abbrev pub add_usize : ℕ → ℕ → ℕ
add_usize a b = (a + b) % usize_mod

abbrev pub mul_usize : ℕ → ℕ → ℕ
mul_usize a b = (a * b) % usize_mod

abbrev pub sub_usize : ℕ → ℕ → ℕ
sub_usize a b = (a + usize_mod - b) % usize_mod

-- `checked_add` and `checked_sub`
abbrev pub checked_add : ℕ → ℕ → Option ℕ
checked_add a b = if ltb (a + b) usize_mod then some (a + b) else none

abbrev pub checked_sub : ℕ → ℕ → Option ℕ
checked_sub a b = if ltb a b then none else some (a - b)
