-- ===== src/Prelude/Runs.antt =====
-- How a run of Rust code ends: with a value, in a panic, or (in the model alone) out of fuel.
use mathlib.Core.Path.{◌≡◌, refl, subst}
use mathlib.Core.Bool.{Bool, true, false}
use mathlib.Core.Option.{Option, none, some}

pub data Exec {ℓ} (A : Type ℓ) : Type ℓ where
  done : A → Exec A
  panic : Exec A
  hang : Exec A

infixl 5 ◌>>=◌ ◌>>◌
abbrev pub ◌>>=◌ {ℓ κ} : {A : Type ℓ} {B : Type κ} → Exec A → (A → Exec B) → Exec B
done a >>= f = f a
panic >>= f = panic
hang >>= f = hang

abbrev pub ◌>>◌ {ℓ} : {B : Type ℓ} → Exec (Unit {0}) → Exec B → Exec B
m >> k = m >>= λ _. k

-- `assert!`
abbrev pub assert : Bool → Exec (Unit {0})
assert true = done tt
assert false = panic

-- `expect` and `unwrap`
abbrev pub expect {ℓ} : {A : Type ℓ} → Option A → Exec A
expect none = panic
expect (some a) = done a

-- `r` ends with a value, and that value satisfies `P`.
abbrev pub Ends {ℓ κ} : {A : Type ℓ} → Exec A → (A → Type κ) → Type (ℓ ⊔ κ)
Ends {A} r P = (a : A) × (r ≡ done a) × P a

pub Ends-bind {ℓ κ ι} :
    {A : Type ℓ} {B : Type κ} (r : Exec A) (f : A → Exec B) (P : A → Type ι) (Q : B → Type ι)
    → Ends r P
    → ((a : A) → P a → Ends (f a) Q)
    → Ends (r >>= f) Q
Ends-bind r f P Q (a, e, p) next = rw e (next a p)

-- `Result`, with the error type of the call
pub data Result {ℓ κ} (A : Type ℓ) (E : Type κ) : Type (ℓ ⊔ κ) where
  ok : A → Result A E
  err : E → Result A E

-- `expect` on a `Result`
abbrev pub expect_ok {ℓ κ} : {A : Type ℓ} {E : Type κ} → Result A E → Exec A
expect_ok (ok a) = done a
expect_ok (err e) = panic

-- What holds of the value that a run ends with.
pub Ends-value {ℓ κ} :
    {A : Type ℓ} (r : Exec A) (P : A → Type κ) (a : A) → Ends r P → r ≡ done a → P a
Ends-value r P a (b, e, p) h = let same : b ≡ a = cc in subst P same p

-- A chain that ends with a value: so does its first part.
pub >>=-eq-done {ℓ κ} :
    {A : Type ℓ} {B : Type κ} (r : Exec A) (f : A → Exec B) {b : B}
    → (r >>= f) ≡ done b
    → (a : A) × (r ≡ done a) × (f a ≡ done b)
>>=-eq-done (done a) f h = (a, refl, h)
>>=-eq-done panic f h = cc
>>=-eq-done hang f h = cc

pub done-injective {ℓ} : {A : Type ℓ} {a b : A} → done a ≡ done b → a ≡ b
done-injective h = cc
