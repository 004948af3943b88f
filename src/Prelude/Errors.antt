-- ===== src/Prelude/Errors.antt =====
-- Python's exceptions as values: `ValueError`, and `LRSError` with its code (errors.py).
use Prim.Native.String.{String}
use mathlib.Core.Path.{◌≡◌, refl, subst}
use mathlib.Core.Logic.{◌⊎◌, inl, inr}
use mathlib.Core.Bool.{Bool, true, false}

pub data Exception : Type 0 where
  value_error key_error : Exception
  lrs_error : String → Exception

pub data Result {ℓ} (A : Type ℓ) : Type ℓ where
  ok : A → Result A
  err : Exception → Result A

-- A computation that raises raises on, one that returns hands its value to the next.
infixl 5 ◌>>=◌
abbrev pub ◌>>=◌ {ℓ₁ ℓ₂} :
    {Value : Type ℓ₁} {Next : Type ℓ₂} → Result Value → (Value → Result Next) → Result Next
ok value >>= next = next value
err raised >>= next = err raised

-- A check before a computation.
infixl 5 ◌>>◌
abbrev pub ◌>>◌ {κ} : {Next : Type κ} → Result (Unit {0}) → Result Next → Result Next
check >> next = check >>= (λ (_ : Unit {0}). next)

-- `if condition: raise error`
abbrev pub raise_if : Bool → Exception → Result (Unit {0})
raise_if true e = err e
raise_if false e = ok tt

pub Result-cases {ℓ} :
    {A : Type ℓ} (r : Result A) → ((a : A) × (r ≡ ok a)) ⊎ ((e : Exception) × (r ≡ err e))
Result-cases (ok a) = inl (a, refl)
Result-cases (err e) = inr (e, refl)

pub ok_injective {ℓ} : {A : Type ℓ} {a b : A} → ok a ≡ ok b → a ≡ b
ok_injective h = cc

-- Whatever a computation returns has the property; it may raise.
pub data Ensures {κ ℓ} {Value : Type ℓ} (Holds : Value → Type κ) : Result Value → Type (ℓ ⊔ κ) where
  returns : {value : Value} → Holds value → Ensures Holds (ok value)
  raises : {raised : Exception} → Ensures Holds (err raised)

pub Ensures-bind {ℓ ℓ' κ κ'} :
    {A : Type ℓ} {B : Type ℓ'} (Q : A → Type κ) (P : B → Type κ') {m : Result A} {f : A → Result B}
    → Ensures Q m
    → ((a : A) → Q a → Ensures P (f a))
    → Ensures P (m >>= f)
Ensures-bind Q P (returns q) k = k _ q
Ensures-bind Q P raises k = raises

pub Ensures-any {ℓ} : {A : Type ℓ} (r : Result A) → Ensures (λ _. Unit {0}) r
Ensures-any (ok a) = returns tt
Ensures-any (err e) = raises

pub Ensures-ok {ℓ κ} :
    {A : Type ℓ} (P : A → Type κ) {r : Result A} {a : A} → Ensures P r → r ≡ ok a → P a
Ensures-ok P (returns p) h = subst P (ok_injective h) p
Ensures-ok P raises h = cc

-- Where the computation raises nothing, for every result.
pub Ensures-of_ok {ℓ κ} :
    {A : Type ℓ} (P : A → Type κ) (r : Result A) → ((a : A) → r ≡ ok a → P a) → Ensures P r
Ensures-of_ok P (ok a) h = returns (h a refl)
Ensures-of_ok P (err e) h = raises
