-- ===== src/Credits/Allocation.antt =====
-- `allocate_children`: how a branch's balance is split over the children that it asks for, and
-- `settle_branch`.
pub mod Conservation
pub mod Within
use maibot_lunagentic_resear.Prelude.{
  leb, max_ℕ, if◌then◌else◌, ℤ, pos, pos_part, ◌+ℤ◌, ◌-ℤ◌, ltb_ℤ, eqb_ℤ, min_ℤ, abs_ℕ, value_error,
  Result, ok, err, ◌>>=◌, ◌>>◌, ◌*◌, String, Bool, true, false, List, [], ◌∷◌,
}
use maibot_lunagentic_resear.Dict.{Dict, update, total}
use maibot_lunagentic_resear.Credits.Scaled.{
  Scale, unscaled, FloatArithmetic, scaled_with_last_item_remainder,
}

pub record AllocationResult : Type 0 where
  pub allocations : Dict ℤ
  pub returned_to_pool : ℤ
  pub launch_allowed : Bool
  pub scale : Scale

-- `_nonnegative_finite`
abbrev pub nonnegative_finite : ℤ → Result ℤ
nonnegative_finite value = if ltb_ℤ value (pos 0) then err value_error else ok value

-- `[(str(key), _nonnegative_finite(value, ...)) for key, value in requests]`
unfoldable pub normalized_requests : List (String × ℤ) → Result (List (String × ℤ))
normalized_requests [] = ok []
normalized_requests ((key, value) ∷ requests) = do
  amount ← nonnegative_finite value
  rest ← normalized_requests requests
  ok ((key, amount) ∷ rest)

-- `{key: 0.0 for key, _ in requests}`
unfoldable pub zeros : List (String × ℤ) → List (String × ℤ)
zeros [] = []
zeros ((key, _) ∷ requests) = (key, pos 0) ∷ zeros requests

module _ (float : FloatArithmetic) where
  -- `abs(amount) <= 1e-12 * max(1.0, abs(balance))`
  unfoldable pub is_negligible : ℤ → ℤ → Bool
  is_negligible amount balance =
      leb (abs_ℕ amount * 1_000_000_000_000) (max_ℕ float.steps_per_credit (abs_ℕ balance))

  -- `min(1.0, balance / requested_total)`
  unfoldable pub allocation_scale : ℤ → ℤ → Scale
  allocation_scale balance requested_total =
      if ltb_ℤ balance requested_total
      then (record { numerator = balance; denominator = pos_part requested_total })
      else unscaled

  -- The branch with a positive requested total.
  unfoldable pub allocate_scaled : ℤ → List (String × ℤ) → ℤ → AllocationResult
  allocate_scaled balance requests requested_total =
      let scale = allocation_scale balance requested_total in
      let allocations =
        scaled_with_last_item_remainder float requests scale (min_ℤ balance requested_total) in
      let returned = balance -ℤ total allocations in
      record {
        allocations = allocations;
        returned_to_pool = if is_negligible returned balance then pos 0 else returned;
        launch_allowed = true;
        scale = scale;
      }

  unfoldable pub allocate_normalized : ℤ → List (String × ℤ) → AllocationResult
  allocate_normalized balance requests =
      if ltb_ℤ balance (pos 0)
      then (record {
        allocations = [];
        returned_to_pool = pos 0;
        launch_allowed = false;
        scale = record { numerator = pos 0; denominator = 1 };
      })
      else if eqb_ℤ (total requests) (pos 0)
      then (record {
        allocations = update [] (zeros requests);
        returned_to_pool = balance;
        launch_allowed = true;
        scale = unscaled;
      })
      else allocate_scaled balance requests (total requests)

  unfoldable pub allocate_children : ℤ → List (String × ℤ) → Result AllocationResult
  allocate_children balance requests = do
    normalized ← normalized_requests requests
    ok (allocate_normalized balance normalized)

unfoldable pub settle_branch : ℤ → ℤ → ℤ
settle_branch balance pool = pool +ℤ balance
