-- ===== src/Dict/Totals.antt =====
-- How the sum of a dict of credits moves under each update.
use maibot_lunagentic_resear.Prelude.{
  if◌then◌else◌, ℤ, ◌+ℤ◌, ◌-ℤ◌, int_laws, String, ◌≡◌, refl, false, some, [], ◌∷◌, ◌++◌, arith,
  ◌==◌, eq_iff,
}
use maibot_lunagentic_resear.Dict.{Dict, lookup, insert, erase, get_or_zero, total}

module _ {ℓ} {V : Type ℓ} where
  pub lookup-insert :
      (k j : String) (v : V) (d : Dict V)
      → lookup j (insert k v d) ≡ (if k == j then some v else lookup j d)
  unfolding lookup insert
  lookup-insert k j v [] = refl
  lookup-insert k j v ((i, w) ∷ d) =
      ground (arith, eq_iff k j, eq_iff i k, eq_iff i j, lookup-insert k j v d)

  pub lookup-erase_ne :
      (k j : String) (d : Dict V) → (k == j) ≡ false → lookup j (erase k d) ≡ lookup j d
  unfolding lookup erase
  lookup-erase_ne k j [] h = refl
  lookup-erase_ne k j ((i, w) ∷ d) h =
      ground (arith, eq_iff k j, eq_iff i k, eq_iff i j, lookup-erase_ne k j d h)

pub total-insert :
    (k : String) (v : ℤ) (d : Dict ℤ) → total (insert k v d) ≡ total d -ℤ get_or_zero k d +ℤ v
unfolding total insert lookup
total-insert k v [] = omega int_laws
total-insert k v ((j, w) ∷ d) = grind (int_laws, total-insert k v d)

pub total-erase : (k : String) (d : Dict ℤ) → total (erase k d) ≡ total d -ℤ get_or_zero k d
unfolding total erase lookup
total-erase k [] = omega int_laws
total-erase k ((j, w) ∷ d) = grind (int_laws, total-erase k d)

pub total-append : (d e : Dict ℤ) → total (d ++ e) ≡ total d +ℤ total e
unfolding total
total-append [] e = omega int_laws
total-append ((k, v) ∷ d) e = grind (int_laws, total-append d e)
