-- ===== src/Allocator/FreeChunk/Cover.antt =====
-- Which elementary chunks a free space holds, as a count: the view of the memory by which
-- splitting, merging and handing out are described.
use shmem_util.Prelude.{
  ℕ, zero, suc, ◌+◌, ◌-◌, ◌≤◌, ◌<◌, ◌≡◌, refl, List, [], ◌∷◌, Option, none, some, leb, ltb,
  if◌then◌else◌, All, length, get_elem?, insert_at, remove_at, arith,
}
use shmem_util.Allocator.FreeChunk.{FreeSpace}

-- 1 if the elementary chunk `u` belongs to the space, and 0 otherwise
abbrev pub covers : ℕ → FreeSpace → ℕ
covers u s =
    if leb s.relative_beginning u
    then (if ltb u (s.relative_beginning + s.count) then 1 else 0)
    else 0

abbrev pub covers_opt : ℕ → Option FreeSpace → ℕ
covers_opt u none = 0
covers_opt u (some s) = covers u s

-- how many spaces of the list hold the elementary chunk `u`
abbrev pub cover : ℕ → List FreeSpace → ℕ
cover u [] = 0
cover u (s ∷ xs) = covers u s + cover u xs

-- a space that is not empty and lies among the first `n` chunks
abbrev pub Fits : ℕ → FreeSpace → Type 0
Fits n s = (0 < s.count) × (s.relative_beginning + s.count ≤ n)

pub cover-insert_at :
    (u : ℕ) (xs : List FreeSpace) (i : ℕ) (s : FreeSpace)
    → cover u (insert_at xs i s) ≡ covers u s + cover u xs
cover-insert_at u [] i s = refl
cover-insert_at u (x ∷ xs) zero s = refl
cover-insert_at u (x ∷ xs) (suc i) s = omega (arith, cover-insert_at u xs i s)

pub cover-remove_at :
    (u : ℕ) (xs : List FreeSpace) (i : ℕ) (s : FreeSpace)
    → get_elem? xs i ≡ some s
    → covers u s + cover u (remove_at xs i) ≡ cover u xs
cover-remove_at u [] i s e = ground arith
cover-remove_at u (x ∷ xs) zero s e = ground arith
cover-remove_at u (x ∷ xs) (suc i) s e = omega (arith, cover-remove_at u xs i s e)

-- the sum of `f` over the numbers below `n`
total : ℕ → (ℕ → ℕ) → ℕ
total zero f = 0
total (suc n) f = total n f + f n

total-add : (n : ℕ) (f g : ℕ → ℕ) → total n (λ u. f u + g u) ≡ total n f + total n g
unfolding total
total-add zero f g = refl
total-add (suc n) f g = omega (arith, total-add n f g)

total-le : (n : ℕ) (f : ℕ → ℕ) → ((u : ℕ) → f u ≤ 1) → total n f ≤ n
unfolding total
total-le zero f h = omega arith
total-le (suc n) f h = omega (arith, h n, total-le n f h)

total-zero : (n : ℕ) → total n (λ _. 0) ≡ 0
unfolding total
total-zero zero = refl
total-zero (suc n) = omega (arith, total-zero n)

-- the part of a space that lies below `n`
abbrev clipped : ℕ → FreeSpace → ℕ
clipped n s =
    if leb n s.relative_beginning
    then 0
    else if leb n (s.relative_beginning + s.count)
    then n - s.relative_beginning
    else s.count

total-covers : (n : ℕ) (s : FreeSpace) → total n (λ u. covers u s) ≡ clipped n s
unfolding total
total-covers zero s = ground arith
total-covers (suc n) s = ground (arith, total-covers n s)

clipped_pos : (n : ℕ) (s : FreeSpace) → Fits n s → 0 < clipped n s
clipped_pos n s h = ground arith

-- a list of non-empty spaces below `n` is no longer than the chunks that it holds
length-le-total :
    (n : ℕ) (xs : List FreeSpace) → All (Fits n) xs → length xs ≤ total n (λ u. cover u xs)
length-le-total n [] h = omega arith
length-le-total n (x ∷ xs) h = omega (
  arith,
  total-add n (λ u. covers u x) (λ u. cover u xs),
  total-covers n x,
  clipped_pos n x h.0,
  length-le-total n xs h.1,
)

-- Disjoint non-empty spaces below `n` are `n` at most.
pub length-le :
    (n : ℕ) (xs : List FreeSpace) → All (Fits n) xs → ((u : ℕ) → cover u xs ≤ 1) → length xs ≤ n
length-le n xs h d = omega (arith, length-le-total n xs h, total-le n (λ u. cover u xs) d)

twice-le-total :
    (n : ℕ) (xs : List FreeSpace)
    → All (λ s. (1 < s.count) × (s.relative_beginning + s.count ≤ n)) xs
    → length xs + length xs ≤ total n (λ u. cover u xs)
twice-le-total n [] h = omega arith
twice-le-total n (x ∷ xs) ((long, fits), h) =
    let two : 2 ≤ clipped n x = ground arith in
    omega (
      arith,
      total-add n (λ u. covers u x) (λ u. cover u xs),
      total-covers n x,
      two,
      twice-le-total n xs h,
    )

-- Disjoint spaces below `n` of two chunks or more are half as many as `n` at most.
pub twice-le :
    (n : ℕ) (xs : List FreeSpace)
    → All (λ s. (1 < s.count) × (s.relative_beginning + s.count ≤ n)) xs
    → ((u : ℕ) → cover u xs ≤ 1)
    → length xs + length xs ≤ n
twice-le n xs h d = omega (arith, twice-le-total n xs h, total-le n (λ u. cover u xs) d)
