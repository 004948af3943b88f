-- ===== src/Credits/Scaled/Sum.antt =====
-- The shares add up to the target, and no share is negative.
use mathlib.Core.List.{reverse-cons}
use maibot_lunagentic_resear.Prelude.{
  if◌then◌else◌, all_but_last, last_of, All-all_but_last, ℤ, pos, ◌+ℤ◌, ◌-ℤ◌, ◌≤ℤ◌, min_ℤ, max_ℤ,
  int_laws, String, ◌≡◌, refl, none, List, [], ◌∷◌, ◌++◌, reverse, arith, eq_iff, eq_refl,
}
use maibot_lunagentic_resear.Dict.{Dict, lookup, insert, get_or_zero, total}
use maibot_lunagentic_resear.Dict.Totals.{lookup-insert, total-insert}
use maibot_lunagentic_resear.Dict.Keys.{
  Absent, HasDistinctKeys, lookup-Absent, update-nil, Absent-reverse, HasDistinctKeys-reverse,
  HasDistinctKeys-all_but_last, Absent-last_of,
}
use maibot_lunagentic_resear.Credits.Scaled.{
  Scale, FloatArithmetic, is_nonneg, absorb, scaled_items, front_shares,
  scaled_with_last_item_remainder,
}
use maibot_lunagentic_resear.Credits.Scaled.Absorb.{
  IsNonneg, IsNonnegDict, held, insert-IsNonneg, total-absorb,
}

held-append : (d : Dict ℤ) (xs ys : List (String × ℤ)) → held d (xs ++ ys) ≡ held d xs +ℤ held d ys
unfolding held
held-append d [] ys = omega int_laws
held-append d ((k, v) ∷ xs) ys = grind (int_laws, held-append d xs ys)

held-reverse : (d : Dict ℤ) (xs : List (String × ℤ)) → held d (reverse xs) ≡ held d xs
unfolding held
held-reverse d [] = refl
held-reverse d ((k, v) ∷ xs) =
    rw (reverse-cons (k, v) xs)
      (grind (int_laws, held-append d (reverse xs) ((k, v) ∷ []), held-reverse d xs))

held-cons-Absent :
    (k : String) (v : ℤ) (d : Dict ℤ) (items : List (String × ℤ))
    → Absent k items
    → held ((k, v) ∷ d) items ≡ held d items
unfolding held lookup
held-cons-Absent k v d [] h = refl
held-cons-Absent k v d ((j, w) ∷ items) h =
    ground (arith, eq_iff k j, eq_iff j k, held-cons-Absent k v d items h.1)

lookup-absorb-Absent :
    (j : String) (d : Dict ℤ) (deficit : ℤ) (items : List (String × ℤ))
    → Absent j items
    → lookup j (absorb d deficit items) ≡ lookup j d
unfolding absorb
lookup-absorb-Absent j d deficit [] h = refl
lookup-absorb-Absent j d deficit ((k, w) ∷ items) h =
    let taken : ℤ = min_ℤ (get_or_zero k d) deficit in
    let v : ℤ = get_or_zero k d -ℤ taken in
    ground (
      arith,
      lookup-insert k j v d,
      lookup-absorb-Absent j (insert k v d) (deficit -ℤ taken) items h.1,
    )

module _ (float : FloatArithmetic) (scale : Scale) where
  Absent-scaled :
      (k : String) (items : List (String × ℤ))
      → Absent k items
      → Absent k (scaled_items float scale items)
  unfolding scaled_items
  Absent-scaled k [] h = tt
  Absent-scaled k ((j, v) ∷ items) h = (h.0, Absent-scaled k items h.1)

  HasDistinctKeys-scaled :
      (items : List (String × ℤ))
      → HasDistinctKeys items
      → HasDistinctKeys (scaled_items float scale items)
  unfolding scaled_items
  HasDistinctKeys-scaled [] u = tt
  HasDistinctKeys-scaled ((j, v) ∷ items) u =
      (Absent-scaled j items u.0, HasDistinctKeys-scaled items u.1)

  scaled-IsNonneg :
      (items : List (String × ℤ))
      → pos 0 ≤ℤ scale.numerator
      → IsNonnegDict items
      → IsNonnegDict (scaled_items float scale items)
  unfolding scaled_items
  scaled-IsNonneg [] s h = tt
  scaled-IsNonneg ((j, v) ∷ items) s h =
      (float.times_nonneg v scale h.0 s, scaled-IsNonneg items s h.1)

  held-scaled :
      (items : List (String × ℤ))
      → HasDistinctKeys items
      → held (scaled_items float scale items) items ≡ total (scaled_items float scale items)
  unfolding scaled_items total held lookup
  held-scaled [] u = refl
  held-scaled ((j, v) ∷ items) u = ground (
    arith,
    eq_refl j,
    held-cons-Absent j (float.times v scale) (scaled_items float scale items) items u.0,
    held-scaled items u.1,
  )

  -- The shares of all items but the last: within the target, and none negative.
  pub front_shares-le :
      (target : ℤ) (front : List (String × ℤ))
      → HasDistinctKeys front
      → pos 0 ≤ℤ scale.numerator
      → pos 0 ≤ℤ target
      → IsNonnegDict front
      → (total (front_shares float scale target front) ≤ℤ target)
        × IsNonnegDict (front_shares float scale target front)
  unfolding front_shares
  front_shares-le target front u s p h =
      let shares : Dict ℤ = scaled_items float scale front in
      rw (update-nil shares (HasDistinctKeys-scaled front u)) (
        grind (
          int_laws,
          scaled-IsNonneg front s h,
          held-reverse shares front,
          held-scaled front u,
          total-absorb shares (pos 0 -ℤ (target -ℤ total shares)) (reverse front),
          HasDistinctKeys-reverse front u,
        ))

  pub lookup-front_shares :
      (k : String) (target : ℤ) (front : List (String × ℤ))
      → HasDistinctKeys front
      → Absent k front
      → lookup k (front_shares float scale target front) ≡ none
  unfolding front_shares
  lookup-front_shares k target front u h =
      let shares : Dict ℤ = scaled_items float scale front in
      rw (update-nil shares (HasDistinctKeys-scaled front u)) (
        ground (
          arith,
          lookup-absorb-Absent k shares (pos 0 -ℤ (target -ℤ total shares)) (reverse front)
              (Absent-reverse k front h),
          lookup-Absent k shares (Absent-scaled k front h),
        ))

  -- The shares of distinct items add up to the target exactly, whatever the products rounded to;
  -- where the scale is not negative, neither the target nor an item may be.
  pub total-scaled :
      (item : String × ℤ) (items : List (String × ℤ)) (target : ℤ)
      → HasDistinctKeys (item ∷ items)
      → (pos 0 ≤ℤ scale.numerator → (pos 0 ≤ℤ target) × IsNonnegDict (item ∷ items))
      → total (scaled_with_last_item_remainder float (item ∷ items) scale target) ≡ target
  unfolding scaled_with_last_item_remainder
  total-scaled item items target u h =
      let front : List (String × ℤ) = all_but_last item items in
      let shares : Dict ℤ = front_shares float scale target front in
      let remainder : ℤ = target -ℤ total shares in
      let last : ℤ = if is_nonneg scale then max_ℤ (pos 0) remainder else remainder in
      grind (
        int_laws,
        total-insert (last_of item items).0 last shares,
        lookup-front_shares (last_of item items).0 target front
            (HasDistinctKeys-all_but_last item items u) (Absent-last_of item items u),
        front_shares-le target front (HasDistinctKeys-all_but_last item items u),
        λ (n : IsNonnegDict (item ∷ items)). All-all_but_last IsNonneg item items n,
      )

  -- No share is negative.
  pub scaled_with_last-IsNonneg :
      (item : String × ℤ) (items : List (String × ℤ)) (target : ℤ)
      → HasDistinctKeys (item ∷ items)
      → pos 0 ≤ℤ scale.numerator
      → pos 0 ≤ℤ target
      → IsNonnegDict (item ∷ items)
      → IsNonnegDict (scaled_with_last_item_remainder float (item ∷ items) scale target)
  unfolding scaled_with_last_item_remainder
  scaled_with_last-IsNonneg item items target u s p h =
      let front : List (String × ℤ) = all_but_last item items in
      let shares : Dict ℤ = front_shares float scale target front in
      let remainder : ℤ = target -ℤ total shares in
      let last : ℤ = if is_nonneg scale then max_ℤ (pos 0) remainder else remainder in
      insert-IsNonneg (last_of item items).0 last shares (grind int_laws)
        (front_shares-le target front (HasDistinctKeys-all_but_last item items u) s p
          (All-all_but_last IsNonneg item items h)).1
