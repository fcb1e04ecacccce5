-- ===== src/PageSize.antt =====
-- src/pagesize.rs: the cached size of a page. `sysconf` answers with an error number, or with a number
-- where the system has one. The cell of a `OnceCell` is an option.
pub mod Laws
use shmem_util.Prelude.{ℕ, Option, none, some, Result, ok, err}
use shmem_util.Prelude.{ℤ, pos, negsuc}

pub data Error : Type 0 where
  page_size : (source : ℕ) → Error
  incorrect_page_size : (size : Option ℤ) → Error

abbrev pub Answer : Type 0
Answer = Result (Option ℤ) ℕ

-- `usize::try_from` of an `i64`
abbrev pub try_from : ℤ → Option ℕ
try_from (pos n) = some n
try_from (negsuc n) = none

abbrev pub and_then : {A B : Type 0} → Option A → (A → Option B) → Option B
and_then none f = none
and_then (some a) f = f a

-- what the cell holds after `get_or_init`
abbrev pub get_or_init : Option ℕ → ℕ → ℕ
get_or_init none pagesize = pagesize
get_or_init (some n) pagesize = n

-- `seen` is the cell when the call looks first, and `cell` at its `get_or_init`, since other threads
-- may have filled it in between. The result has the cell after the call.
unfoldable pub get_pagesize : Option ℕ → Answer → Option ℕ → Result ℕ Error × Option ℕ
get_pagesize (some pagesize) answer cell = (ok pagesize, cell)
get_pagesize none (err source) cell = (err (page_size source), cell)
get_pagesize none (ok maybe_pagesize) cell = elim (and_then maybe_pagesize try_from) [
  | none ↦ (err (incorrect_page_size maybe_pagesize), cell)
  | some pagesize ↦ (ok (get_or_init cell pagesize), some (get_or_init cell pagesize))
]
