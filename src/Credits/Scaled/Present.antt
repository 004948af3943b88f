-- ===== src/Credits/Scaled/Present.antt =====
-- Writing only under the keys of the leaves: what the leaves' keys hold stays the whole sum.
use maibot_lunagentic_resear.Prelude.{
  if◌then◌else◌, Bool-cases, All, ℤ, pos, ◌+ℤ◌, ◌-ℤ◌, leb_ℤ, min_ℤ, int_laws, String, ◌≡◌, refl,
  sym, ap, ◌∙◌, ◌⊎◌, inl, inr, Bool, true, false, List, [], ◌∷◌, ◌==◌, eq_iff, eq_refl,
}
use maibot_lunagentic_resear.Dict.{Dict, lookup, insert, update, get_or_zero, total}
use maibot_lunagentic_resear.Dict.Totals.{lookup-insert, total-insert}
use maibot_lunagentic_resear.Dict.Keys.{HasDistinctKeys}
use maibot_lunagentic_resear.Credits.Scaled.{absorb}
use maibot_lunagentic_resear.Credits.Scaled.Absorb.{held, held-insert-Absent}

abbrev pub Present : String → List (String × ℤ) → Type 0
Present k [] = ⊥
Present k ((j, _) ∷ items) = ((j == k) ≡ true) ⊎ Present k items

-- Every key of the items is a key of the leaves.
abbrev pub AllPresent : List (String × ℤ) → List (String × ℤ) → Type 0
AllPresent items leaves = All (λ item. Present item.0 leaves) items

held-insert-Present :
    (k : String) (v : ℤ) (d : Dict ℤ) (leaves : List (String × ℤ))
    → HasDistinctKeys leaves
    → Present k leaves
    → held (insert k v d) leaves ≡ held d leaves -ℤ get_or_zero k d +ℤ v
unfolding held
held-insert-Present k v d [] u p = absurd p
held-insert-Present k v d ((j, w) ∷ leaves) u (inl e) =
    let same : j ≡ k = (eq_iff j k).0 e in
    rw same (
      grind (
        int_laws,
        eq_refl k,
        lookup-insert k k v d,
        held-insert-Absent k v d leaves (rw same at u.0),
      ))
held-insert-Present k v d ((j, w) ∷ leaves) u (inr p) = elim (Bool-cases (k == j)) [
  | inl e ↦
      let same : k ≡ j = (eq_iff k j).0 e in
      rw (← same) (
        grind (
          int_laws,
          eq_refl k,
          lookup-insert k k v d,
          held-insert-Absent k v d leaves (rw (← same) at u.0),
        ))
  | inr ne ↦ grind (int_laws, ne, lookup-insert k j v d, held-insert-Present k v d leaves u.1 p)
]

pub AllPresent-cons :
    (leaf : String × ℤ) (items leaves : List (String × ℤ))
    → AllPresent items leaves
    → AllPresent items (leaf ∷ leaves)
AllPresent-cons leaf [] leaves h = tt
AllPresent-cons leaf (item ∷ items) leaves h = (inr h.0, AllPresent-cons leaf items leaves h.1)

pub AllPresent-refl : (leaves : List (String × ℤ)) → AllPresent leaves leaves
AllPresent-refl [] = tt
AllPresent-refl (leaf ∷ leaves) =
    (inl (eq_refl leaf.0), AllPresent-cons leaf leaves leaves (AllPresent-refl leaves))

-- Only keys of the leaves hold anything.
abbrev pub IsWithin : List (String × ℤ) → Dict ℤ → Type 0
IsWithin leaves d = held d leaves ≡ total d

module _ (leaves : List (String × ℤ)) (distinct : HasDistinctKeys leaves) where
  held_nil : (items : List (String × ℤ)) → held [] items ≡ pos 0
  unfolding held lookup
  held_nil [] = refl
  held_nil ((k, v) ∷ items) = grind (int_laws, held_nil items)

  pub nil-IsWithin : IsWithin leaves []
  unfolding total
  nil-IsWithin = held_nil leaves

  pub insert-IsWithin :
      (k : String) (v : ℤ) (d : Dict ℤ)
      → Present k leaves
      → IsWithin leaves d
      → IsWithin leaves (insert k v d)
  insert-IsWithin k v d p h =
      held-insert-Present k v d leaves distinct p
      ∙ ap (λ (t : ℤ). t -ℤ get_or_zero k d +ℤ v) h
      ∙ sym (total-insert k v d)

  pub update-IsWithin :
      (d : Dict ℤ) (items : List (String × ℤ))
      → AllPresent items leaves
      → IsWithin leaves d
      → IsWithin leaves (update d items)
  unfolding update
  update-IsWithin d [] p h = h
  update-IsWithin d ((k, v) ∷ items) p h =
      update-IsWithin (insert k v d) items p.1 (insert-IsWithin k v d p.0 h)

  pub absorb-IsWithin :
      (d : Dict ℤ) (deficit : ℤ) (items : List (String × ℤ))
      → AllPresent items leaves
      → IsWithin leaves d
      → IsWithin leaves (absorb d deficit items)
  unfolding absorb
  absorb-IsWithin d deficit [] p h = h
  absorb-IsWithin d deficit ((k, w) ∷ items) p h =
      let taken : ℤ = min_ℤ (get_or_zero k d) deficit in
      let v : ℤ = get_or_zero k d -ℤ taken in
      let reduced : IsWithin leaves (insert k v d) = insert-IsWithin k v d p.0 h in
      elim (leb_ℤ (deficit -ℤ taken) (pos 0))
        as (λ (b : Bool).
          IsWithin leaves
            (if b then insert k v d else absorb (insert k v d) (deficit -ℤ taken) items)) [
              | true ↦ reduced
              | false ↦ absorb-IsWithin (insert k v d) (deficit -ℤ taken) items p.1 reduced
            ]
