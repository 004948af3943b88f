-- ===== src/Prelude/Lists.antt =====
-- Lists measured by native numbers, and predicates by recursion on a list.
use Prim.Native.Nat.{ℕ, suc, ◌+◌}
use mathlib.Core.Path.{◌≡◌, refl}
use mathlib.Core.List.{List, [], ◌∷◌, ◌++◌, reverse, reverse-cons}
use native.Mathlib.Omega.{arith}

module _ {ℓ} {A : Type ℓ} where
  abbrev pub length : List A → ℕ
  length [] = 0
  length (_ ∷ xs) = suc (length xs)

  -- `xs[:-1]` and `xs[-1]` of the list `x ∷ xs`
  abbrev pub all_but_last : A → List A → List A
  all_but_last x [] = []
  all_but_last x (y ∷ ys) = x ∷ all_but_last y ys

  abbrev pub last_of : A → List A → A
  last_of x [] = x
  last_of x (y ∷ ys) = last_of y ys

  abbrev pub All {κ} : (A → Type κ) → List A → Type κ
  All P [] = Unit
  All P (x ∷ xs) = P x × All P xs

  pub length-append : (xs ys : List A) → length (xs ++ ys) ≡ length xs + length ys
  length-append [] ys = omega arith
  length-append (x ∷ xs) ys = omega (arith, length-append xs ys)

  pub All-append {κ} : (P : A → Type κ) (xs ys : List A) → All P xs → All P ys → All P (xs ++ ys)
  All-append P [] ys h k = k
  All-append P (x ∷ xs) ys h k = (h.0, All-append P xs ys h.1 k)

  pub All-split {κ} : (P : A → Type κ) (xs ys : List A) → All P (xs ++ ys) → All P xs × All P ys
  All-split P [] ys h = (tt, h)
  All-split P (x ∷ xs) ys h = ((h.0, (All-split P xs ys h.1).0), (All-split P xs ys h.1).1)

  pub All-reverse {κ} : (P : A → Type κ) (xs : List A) → All P xs → All P (reverse xs)
  All-reverse P [] h = h
  All-reverse P (x ∷ xs) h =
      rw (reverse-cons x xs) (All-append P (reverse xs) (x ∷ []) (All-reverse P xs h.1) (h.0, tt))

  pub All-last_of {κ} : (P : A → Type κ) (x : A) (xs : List A) → All P (x ∷ xs) → P (last_of x xs)
  All-last_of P x [] h = h.0
  All-last_of P x (y ∷ ys) h = All-last_of P y ys h.1

  pub All-all_but_last {κ} :
      (P : A → Type κ) (x : A) (xs : List A) → All P (x ∷ xs) → All P (all_but_last x xs)
  All-all_but_last P x [] h = tt
  All-all_but_last P x (y ∷ ys) h = (h.0, All-all_but_last P y ys h.1)

  pub append-all_but_last : (x : A) (xs : List A) → all_but_last x xs ++ last_of x xs ∷ [] ≡ x ∷ xs
  append-all_but_last x [] = refl
  append-all_but_last x (y ∷ ys) = λ i. x ∷ append-all_but_last y ys i
