-- ===== src/Credits/Scaled.antt =====
-- `_scaled_with_last_item_remainder`: every item but the last gets its scaled share, and the last
-- one what is left of the target, so that rounding cannot create or destroy credits.
pub mod Absorb
pub mod Sum
pub mod Present
pub mod Within
use maibot_lunagentic_resear.Prelude.{
  if◌then◌else◌, all_but_last, last_of, ℤ, pos, ◌-ℤ◌, ◌≤ℤ◌, ltb_ℤ, leb_ℤ, min_ℤ, max_ℤ, ℕ, String,
  ◌≡◌, Bool, ◌&&◌, List, [], ◌∷◌, reverse,
}
use maibot_lunagentic_resear.Dict.{Dict, insert, update, get_or_zero, total}

-- The quotient `numerator / denominator` that Python holds as one rounded float.
pub record Scale : Type 0 where
  pub numerator : ℤ
  pub denominator : ℕ

abbrev pub unscaled : Scale
unscaled = record { numerator = pos 1; denominator = 1 }

-- What the code relies on in the rounded float product `value * scale`; `steps_per_credit` is the
-- number of steps in one credit.
pub record FloatArithmetic : Type 0 where
  pub steps_per_credit : ℕ
  pub times : ℤ → Scale → ℤ
  pub times_nonneg :
      (value : ℤ) (scale : Scale)
      → pos 0 ≤ℤ value
      → pos 0 ≤ℤ scale.numerator
      → pos 0 ≤ℤ times value scale
  pub times_unscaled : (value : ℤ) → times value unscaled ≡ value

-- `scale >= 0`
abbrev pub is_nonneg : Scale → Bool
is_nonneg scale = leb_ℤ (pos 0) scale.numerator

-- The loop over the reversed items that takes the excess back from the latest shares.
unfoldable pub absorb : Dict ℤ → ℤ → List (String × ℤ) → Dict ℤ
absorb allocations deficit [] = allocations
absorb allocations deficit ((key, _) ∷ items) =
    let reducible = min_ℤ (get_or_zero key allocations) deficit in
    let reduced = insert key (get_or_zero key allocations -ℤ reducible) allocations in
    let rest = absorb reduced (deficit -ℤ reducible) items in
    if leb_ℤ (deficit -ℤ reducible) (pos 0) then reduced else rest

module _ (float : FloatArithmetic) where
  -- `{key: value * scale for key, value in items}`
  unfoldable pub scaled_items : Scale → List (String × ℤ) → List (String × ℤ)
  scaled_items scale [] = []
  scaled_items scale ((key, value) ∷ items) =
      (key, float.times value scale) ∷ scaled_items scale items

  -- The shares of all items but the last.
  unfoldable pub front_shares : Scale → ℤ → List (String × ℤ) → Dict ℤ
  front_shares scale target front =
      let allocations = update [] (scaled_items scale front) in
      let remainder = target -ℤ total allocations in
      if ltb_ℤ remainder (pos 0) && is_nonneg scale
      then absorb allocations (pos 0 -ℤ remainder) (reverse front)
      else allocations

  unfoldable pub scaled_with_last_item_remainder : List (String × ℤ) → Scale → ℤ → Dict ℤ
  scaled_with_last_item_remainder [] scale target = []
  scaled_with_last_item_remainder (item ∷ items) scale target =
      let allocations = front_shares scale target (all_but_last item items) in
      let remainder = target -ℤ total allocations in
      insert (last_of item items).0 (if is_nonneg scale then max_ℤ (pos 0) remainder else remainder)
        allocations
