-- ===== src/Allocator/FreeChunk/Quick.antt =====
-- src/allocator/free_chunk.rs: the property tests of the module, for all inputs at which no sum
-- overflows; the test build would panic at others.
use shmem_util.Prelude.{
  is_none, ℕ, zero, suc, ◌+◌, ◌-◌, ◌<◌, ◌≡◌, ◌≢◌, refl, Bool, true, false, not, ◌&&◌, Exec, done,
  ◌>>=◌, ◌>>◌, assert, expect, usize_mod, add_usize, ◌==◌, if◌then◌else◌, arith,
}
use shmem_util.Allocator.FreeChunk.{FreeSpace, are_contiguous, split}
use shmem_util.Allocator.FreeChunk

pub data TestResult : Type 0 where
  discard passed failed : TestResult

abbrev pub from_bool : Bool → TestResult
from_bool true = passed
from_bool false = failed

unfoldable pub same : ℕ → ℕ → TestResult
same begin count =
    if count == 0
    then discard
    else from_bool (not (are_contiguous (FreeChunk.new begin count) (FreeChunk.new begin count)))

unfoldable pub contiguous : ℕ → ℕ → TestResult
contiguous begin count1 =
    if count1 == 0
    then discard
    else from_bool
        (are_contiguous (FreeChunk.new begin count1) (FreeChunk.new (add_usize begin count1) 10))

unfoldable pub non_contiguous : ℕ → ℕ → ℕ → TestResult
non_contiguous begin count additional_shift =
    if count == 0
    then discard
    else if additional_shift == 0
    then discard
    else from_bool (
        not (
          are_contiguous (FreeChunk.new begin count)
            (FreeChunk.new (add_usize (add_usize begin count) additional_shift) 10)))

unfoldable pub check_contiguous : Exec (Unit {0})
check_contiguous = do
  assert (are_contiguous (FreeChunk.new 0 3) (FreeChunk.new 3 10))
  assert (not (are_contiguous (FreeChunk.new 3 10) (FreeChunk.new 14 10)))

check_contiguous-done : check_contiguous ≡ done tt
unfolding check_contiguous are_contiguous
check_contiguous-done = refl

-- the derived `PartialEq`
abbrev pub equal : FreeSpace → FreeSpace → Bool
equal s t = (s.relative_beginning == t.relative_beginning) && (s.count == t.count)

-- the body of the loop of `split`
unfoldable pub check_parts : FreeSpace → ℕ → Exec (Unit {0})
check_parts first required = do
  parts ← split first required
  free ← expect parts.1
  assert (first.relative_beginning == parts.0.relative_beginning)
  assert (are_contiguous parts.0 free)
  assert (add_usize parts.0.count free.count == first.count)

-- the loop over `required`, up to a last value
unfoldable pub check_up_to : FreeSpace → ℕ → Exec (Unit {0})
check_up_to first zero = done tt
check_up_to first (suc required) = do check_up_to first required; check_parts first (suc required)

unfoldable pub split_test : ℕ → Exec TestResult
split_test count = if count == 0 then done discard else (do
  let first = FreeChunk.new 0 count
  parts ← split first count
  assert (equal parts.0 first)
  assert (is_none parts.1)
  check_up_to first (count - 1)
  done passed)

-- None of the three tests of `are_contiguous` fails, where the sum of its numbers is below 2^64.
pub contiguity-passes :
    (begin count shift : ℕ)
    → begin + count + shift < usize_mod
    → (same begin count ≢ failed)
      × (contiguous begin count ≢ failed)
      × (non_contiguous begin count shift ≢ failed)
unfolding same contiguous non_contiguous are_contiguous
contiguity-passes begin count shift small =
    (λ e. ground arith, λ e. ground arith, λ e. ground arith)

check_parts-passes :
    (count required : ℕ)
    → count < usize_mod
    → 0 < required
    → required < count
    → check_parts (FreeChunk.new 0 count) required ≡ done tt
unfolding check_parts split are_contiguous
check_parts-passes count required small pos less = ground arith

check_up_to-passes :
    (count required : ℕ)
    → count < usize_mod
    → required < count
    → check_up_to (FreeChunk.new 0 count) required ≡ done tt
unfolding check_up_to
check_up_to-passes count zero small less = refl
check_up_to-passes count (suc required) small less =
    rw (check_up_to-passes count required small (omega arith))
      (check_parts-passes count (suc required) small (omega arith) less)

-- The test of `split` passes for any positive count below 2^64.
pub split_test-passes : (count : ℕ) → 0 < count → count < usize_mod → split_test count ≡ done passed
unfolding split_test split
split_test-passes count pos small =
    let loop = check_up_to-passes count (count - 1) small (omega arith) in ground arith
