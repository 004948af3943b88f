-- ===== src/Credits/Scaled/Absorb.antt =====
-- Taking an excess back never leaves a negative share, and takes exactly the excess.
use maibot_lunagentic_resear.Prelude.{
  Bool-cases, All, ℤ, pos, ◌+ℤ◌, ◌-ℤ◌, ◌≤ℤ◌, ltb_ℤ, int_laws, String, ◌≡◌, refl, inl, inr, List, [],
  ◌∷◌, arith, eq_iff,
}
use maibot_lunagentic_resear.Dict.{Dict, lookup, insert, get_or_zero, total}
use maibot_lunagentic_resear.Dict.Totals.{lookup-insert, total-insert}
use maibot_lunagentic_resear.Dict.Keys.{Absent, HasDistinctKeys}
use maibot_lunagentic_resear.Credits.Scaled.{absorb}

abbrev pub IsNonneg : String × ℤ → Type 0
IsNonneg item = pos 0 ≤ℤ item.1

-- No stored amount is negative.
abbrev pub IsNonnegDict : Dict ℤ → Type 0
IsNonnegDict = All IsNonneg

-- What the listed keys hold together.
unfoldable pub held : Dict ℤ → List (String × ℤ) → ℤ
held d [] = pos 0
held d ((k, _) ∷ items) = get_or_zero k d +ℤ held d items

pub held-insert-Absent :
    (k : String) (v : ℤ) (d : Dict ℤ) (items : List (String × ℤ))
    → Absent k items
    → held (insert k v d) items ≡ held d items
unfolding held
held-insert-Absent k v d [] h = refl
held-insert-Absent k v d ((j, w) ∷ items) h =
    ground
      (arith, eq_iff k j, eq_iff j k, lookup-insert k j v d, held-insert-Absent k v d items h.1)

pub get_or_zero-nonneg : (k : String) (d : Dict ℤ) → IsNonnegDict d → pos 0 ≤ℤ get_or_zero k d
unfolding lookup
get_or_zero-nonneg k [] h = omega arith
get_or_zero-nonneg k ((j, v) ∷ d) h = ground (arith, get_or_zero-nonneg k d h.1)

pub insert-IsNonneg :
    (k : String) (v : ℤ) (d : Dict ℤ) → pos 0 ≤ℤ v → IsNonnegDict d → IsNonnegDict (insert k v d)
unfolding insert
insert-IsNonneg k v [] p h = (p, tt)
insert-IsNonneg k v ((j, w) ∷ d) p h = ground (arith, insert-IsNonneg k v d p h.1)

-- The excess that the keys can give is taken in full.
pub total-absorb :
    (d : Dict ℤ) (deficit : ℤ) (items : List (String × ℤ))
    → IsNonnegDict d
    → HasDistinctKeys items
    → pos 0 ≤ℤ deficit
    → deficit ≤ℤ held d items
    → (total (absorb d deficit items) ≡ total d -ℤ deficit) × IsNonnegDict (absorb d deficit items)
unfolding absorb held
total-absorb d deficit [] h u p q = (omega int_laws, h)
total-absorb d deficit ((k, w) ∷ items) h u p q =
    elim (Bool-cases (ltb_ℤ deficit (get_or_zero k d))) [
      | inl covered ↦
          rw (covered, absorb)
            (grind (
              int_laws,
              total-insert k (get_or_zero k d -ℤ deficit) d,
              insert-IsNonneg k (get_or_zero k d -ℤ deficit) d,
            ))
      | inr short ↦
          rw (short, absorb)
            (grind (
              int_laws,
              total-insert k (get_or_zero k d -ℤ get_or_zero k d) d,
              insert-IsNonneg k (get_or_zero k d -ℤ get_or_zero k d) d,
              held-insert-Absent k (get_or_zero k d -ℤ get_or_zero k d) d items u.0,
              total-absorb (insert k (get_or_zero k d -ℤ get_or_zero k d) d)
                  (deficit -ℤ get_or_zero k d) items,
            ))
    ]
