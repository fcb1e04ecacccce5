-- ===== src/Prelude/Lists.antt =====
-- Lists measured and indexed by native numbers, and two predicates on them by recursion.
use Prim.Native.Nat.{ℕ, zero, suc, ◌+◌, ◌≤◌, ◌<◌}
use mathlib.Core.Path.{◌≡◌, refl, ap}
use mathlib.Core.Logic.{◌≢◌}
use mathlib.Core.List.{List, [], ◌∷◌, ◌++◌}
use mathlib.Core.Option.{Option, none, some}
use native.Mathlib.Omega.{arith}

module _ {ℓ} {A : Type ℓ} where
  abbrev pub length : List A → ℕ
  length [] = 0
  length (x ∷ xs) = suc (length xs)

  abbrev pub get_elem? : List A → ℕ → Option A
  get_elem? [] i = none
  get_elem? (x ∷ xs) zero = some x
  get_elem? (x ∷ xs) (suc i) = get_elem? xs i

  abbrev pub take : ℕ → List A → List A
  take zero xs = []
  take (suc n) [] = []
  take (suc n) (x ∷ xs) = x ∷ take n xs

  abbrev pub drop : ℕ → List A → List A
  drop zero xs = xs
  drop (suc n) [] = []
  drop (suc n) (x ∷ xs) = drop n xs

  -- The list with one more item before position `i`; past the end it goes to the back.
  abbrev pub insert_at : List A → ℕ → A → List A
  insert_at [] i v = v ∷ []
  insert_at (x ∷ xs) zero v = v ∷ x ∷ xs
  insert_at (x ∷ xs) (suc i) v = x ∷ insert_at xs i v

  -- The list without the item at position `i`.
  abbrev pub remove_at : List A → ℕ → List A
  remove_at [] i = []
  remove_at (x ∷ xs) zero = xs
  remove_at (x ∷ xs) (suc i) = x ∷ remove_at xs i

  -- A write out of range changes nothing.
  abbrev pub set : List A → ℕ → A → List A
  set [] i v = []
  set (x ∷ xs) zero v = v ∷ xs
  set (x ∷ xs) (suc i) v = x ∷ set xs i v

  pub get_elem?-set_ne :
      (xs : List A) (i j : ℕ) (v : A) → i ≢ j → get_elem? (set xs i v) j ≡ get_elem? xs j
  get_elem?-set_ne [] i j v ne = refl
  get_elem?-set_ne (x ∷ xs) zero zero v ne = absurd (ne refl)
  get_elem?-set_ne (x ∷ xs) zero (suc j) v ne = refl
  get_elem?-set_ne (x ∷ xs) (suc i) zero v ne = refl
  get_elem?-set_ne (x ∷ xs) (suc i) (suc j) v ne = get_elem?-set_ne xs i j v (λ e. ne (ap suc e))

  pub get_elem?-set_self :
      (xs : List A) (i : ℕ) (v : A) {x : A}
      → get_elem? xs i ≡ some x
      → get_elem? (set xs i v) i ≡ some v
  get_elem?-set_self [] i v e = absurd (ground arith)
  get_elem?-set_self (x ∷ xs) zero v e = refl
  get_elem?-set_self (x ∷ xs) (suc i) v {x = y} e = get_elem?-set_self xs i v {x = y} e

  pub length-append : (xs ys : List A) → length (xs ++ ys) ≡ length xs + length ys
  length-append [] ys = omega arith
  length-append (x ∷ xs) ys = omega (arith, length-append xs ys)

  pub length-insert_at : (xs : List A) (i : ℕ) (v : A) → length (insert_at xs i v) ≡ length xs + 1
  length-insert_at [] i v = omega arith
  length-insert_at (x ∷ xs) zero v = omega arith
  length-insert_at (x ∷ xs) (suc i) v = omega (arith, length-insert_at xs i v)

  pub length-remove_at :
      (xs : List A) (i : ℕ) → i < length xs → length (remove_at xs i) + 1 ≡ length xs
  length-remove_at [] i h = elim h [ ]
  length-remove_at (x ∷ xs) zero h = omega arith
  length-remove_at (x ∷ xs) (suc i) h = omega (arith, length-remove_at xs i (omega arith))

  pub get_elem?-lt : (xs : List A) (i : ℕ) {x : A} → get_elem? xs i ≡ some x → i < length xs
  get_elem?-lt [] i e = ground arith
  get_elem?-lt (x ∷ xs) zero e = omega arith
  get_elem?-lt (x ∷ xs) (suc i) e = omega (arith, get_elem?-lt xs i e)

  pub get_elem?_of_lt : (xs : List A) (i : ℕ) → i < length xs → (x : A) × (get_elem? xs i ≡ some x)
  get_elem?_of_lt [] i h = elim h [ ]
  get_elem?_of_lt (x ∷ xs) zero h = (x, refl)
  get_elem?_of_lt (x ∷ xs) (suc i) h = get_elem?_of_lt xs i (omega arith)

module _ {ℓ κ} {A : Type ℓ} where
  -- Every item satisfies `P`.
  abbrev pub All : (A → Type κ) → List A → Type κ
  All P [] = Unit
  All P (x ∷ xs) = P x × All P xs

  -- Every item stands in `R` to every later one.
  abbrev pub AllPairs : (A → A → Type κ) → List A → Type κ
  AllPairs R [] = Unit
  AllPairs R (x ∷ xs) = All (R x) xs × AllPairs R xs

module _ {ℓ κ} {A : Type ℓ} (P : A → Type κ) where
  pub All-insert_at : (xs : List A) (i : ℕ) (v : A) → P v → All P xs → All P (insert_at xs i v)
  All-insert_at [] i v p h = (p, tt)
  All-insert_at (x ∷ xs) zero v p h = (p, h)
  All-insert_at (x ∷ xs) (suc i) v p h = (h.0, All-insert_at xs i v p h.1)

  pub All-remove_at : (xs : List A) (i : ℕ) → All P xs → All P (remove_at xs i)
  All-remove_at [] i h = tt
  All-remove_at (x ∷ xs) zero h = h.1
  All-remove_at (x ∷ xs) (suc i) h = (h.0, All-remove_at xs i h.1)

  pub All-set : (xs : List A) (i : ℕ) (v : A) → P v → All P xs → All P (set xs i v)
  All-set [] i v p h = tt
  All-set (x ∷ xs) zero v p h = (p, h.1)
  All-set (x ∷ xs) (suc i) v p h = (h.0, All-set xs i v p h.1)

  pub All-from_get_elem? :
      (xs : List A) → ((i : ℕ) (x : A) → get_elem? xs i ≡ some x → P x) → All P xs
  All-from_get_elem? [] h = tt
  All-from_get_elem? (x ∷ xs) h = (h 0 x refl, All-from_get_elem? xs (λ i y e. h (suc i) y e))

  pub All-append : (xs ys : List A) → All P xs → All P ys → All P (xs ++ ys)
  All-append [] ys h k = k
  All-append (x ∷ xs) ys (p, h) k = (p, All-append xs ys h k)

  pub All-get_elem? : (xs : List A) (i : ℕ) {x : A} → get_elem? xs i ≡ some x → All P xs → P x
  All-get_elem? [] i e h = absurd (ground arith)
  All-get_elem? (y ∷ xs) zero {x} e h = ground (arith, h.0)
  All-get_elem? (y ∷ xs) (suc i) e h = All-get_elem? xs i e h.1

  pub All-take : (n : ℕ) (xs : List A) → All P xs → All P (take n xs)
  All-take zero xs h = tt
  All-take (suc n) [] h = tt
  All-take (suc n) (x ∷ xs) h = (h.0, All-take n xs h.1)

  pub All-drop : (n : ℕ) (xs : List A) → All P xs → All P (drop n xs)
  All-drop zero xs h = h
  All-drop (suc n) [] h = tt
  All-drop (suc n) (x ∷ xs) h = All-drop n xs h.1

pub All-mono {ℓ κ ι} :
    {A : Type ℓ} (P : A → Type κ) (Q : A → Type ι) (xs : List A)
    → ((x : A) → P x → Q x)
    → All P xs
    → All Q xs
All-mono P Q [] f h = tt
All-mono P Q (x ∷ xs) f h = (f x h.0, All-mono P Q xs f h.1)

module _ {ℓ κ} {A : Type ℓ} (R : A → A → Type κ) where
  pub AllPairs-insert_at :
      (xs : List A) (i : ℕ) (v : A)
      → All (λ y. R y v) (take i xs)
      → All (R v) (drop i xs)
      → AllPairs R xs
      → AllPairs R (insert_at xs i v)
  AllPairs-insert_at [] i v b a h = (tt, tt)
  AllPairs-insert_at (x ∷ xs) zero v b a h = (a, h)
  AllPairs-insert_at (x ∷ xs) (suc i) v b a h =
      (All-insert_at (R x) xs i v b.0 h.0, AllPairs-insert_at xs i v b.1 a h.1)

  pub AllPairs-remove_at : (xs : List A) (i : ℕ) → AllPairs R xs → AllPairs R (remove_at xs i)
  AllPairs-remove_at [] i h = tt
  AllPairs-remove_at (x ∷ xs) zero h = h.1
  AllPairs-remove_at (x ∷ xs) (suc i) h =
      (All-remove_at (R x) xs i h.0, AllPairs-remove_at xs i h.1)

pub AllPairs-mono {ℓ κ ι} :
    {A : Type ℓ} (R : A → A → Type κ) (S : A → A → Type ι) (xs : List A)
    → ((x y : A) → R x y → S x y)
    → AllPairs R xs
    → AllPairs S xs
AllPairs-mono R S [] f h = tt
AllPairs-mono R S (x ∷ xs) f h = (All-mono (R x) (S x) xs (f x) h.0, AllPairs-mono R S xs f h.1)

module _ {ℓ} {A : Type ℓ} (f : A → ℕ) where
  -- the sum of `f` over the items
  abbrev pub sum_of : List A → ℕ
  sum_of [] = 0
  sum_of (x ∷ xs) = f x + sum_of xs

  pub sum_of-set :
      (xs : List A) (i : ℕ) (v : A) {x : A}
      → get_elem? xs i ≡ some x
      → sum_of (set xs i v) + f x ≡ sum_of xs + f v
  sum_of-set [] i v e = absurd (ground arith)
  sum_of-set (y ∷ xs) zero v {x} e = let same : y ≡ x = ground arith in rw same (omega arith)
  sum_of-set (y ∷ xs) (suc i) v {x} e = omega (arith, sum_of-set xs i v {x = x} e)

  pub sum_of-ge : (xs : List A) (i : ℕ) {x : A} → get_elem? xs i ≡ some x → f x ≤ sum_of xs
  sum_of-ge [] i e = absurd (ground arith)
  sum_of-ge (y ∷ xs) zero {x} e = let same : y ≡ x = ground arith in rw same (omega arith)
  sum_of-ge (y ∷ xs) (suc i) {x} e = omega (arith, sum_of-ge xs i {x = x} e)
