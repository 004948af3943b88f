-- ===== src/Credits/Redistribution.antt =====
-- `redistribute_pool`: at a continue barrier the dormant pool and a signed adjustment go to the
-- live branches ("leaves").
pub mod Conservation
use maibot_lunagentic_resear.Prelude.{
  if◌then◌else◌, length, ℤ, pos, pos_part, ◌+ℤ◌, ltb_ℤ, leb_ℤ, ◌*◌, String, Bool, false, Option,
  none, some, List, [], ◌∷◌,
}
use maibot_lunagentic_resear.Dict.{Dict, get_or_zero, total}
use maibot_lunagentic_resear.Credits.Scaled.{FloatArithmetic, scaled_with_last_item_remainder}

pub record RedistributionResult : Type 0 where
  pub balances : Dict ℤ
  pub pool_after : ℤ
  pub restart_balance : Option ℤ
  pub can_start_root : Bool
  pub finish_reason : Option String

-- `[(key, balance) for key, balance in leaves.items() if balance > 0]`
unfoldable pub positive_leaves : Dict ℤ → List (String × ℤ)
positive_leaves [] = []
positive_leaves ((key, balance) ∷ leaves) =
    if ltb_ℤ (pos 0) balance
    then (key, balance) ∷ positive_leaves leaves
    else positive_leaves leaves

-- `{key: balance + changes.get(key, 0.0) for key, balance in leaves.items()}`
unfoldable pub with_changes : Dict ℤ → Dict ℤ → Dict ℤ
with_changes changes [] = []
with_changes changes ((key, balance) ∷ leaves) =
    (key, balance +ℤ get_or_zero key changes) ∷ with_changes changes leaves

module _ (float : FloatArithmetic) where
  -- `[(key, 1.0) for key in leaves]`
  unfoldable pub equal_weights : Dict ℤ → List (String × ℤ)
  equal_weights [] = []
  equal_weights ((key, _) ∷ leaves) = (key, pos float.steps_per_credit) ∷ equal_weights leaves

  -- Proportional to the positive balances.
  unfoldable pub proportional_changes : ℤ → List (String × ℤ) → Dict ℤ
  proportional_changes available positive =
      scaled_with_last_item_remainder float positive
        (record { numerator = available; denominator = pos_part (total positive) }) available

  -- The same for every leaf: the scale is `available / len(leaves)` as a plain number.
  unfoldable pub even_changes : ℤ → Dict ℤ → Dict ℤ
  even_changes available leaves =
      scaled_with_last_item_remainder float (equal_weights leaves)
        (record { numerator = available; denominator = length leaves * float.steps_per_credit })
        available

  unfoldable pub pool_changes : ℤ → Dict ℤ → Dict ℤ
  pool_changes available leaves = elim (positive_leaves leaves) [
    | [] ↦ even_changes available leaves
    | leaf ∷ positive ↦ proportional_changes available (leaf ∷ positive)
  ]

  unfoldable pub redistribute_pool : ℤ → ℤ → Dict ℤ → RedistributionResult
  redistribute_pool pool adjustment [] =
      let available = pool +ℤ adjustment in
      let can_start_root = leb_ℤ (pos 0) available in
      record {
        balances = [];
        pool_after = available;
        restart_balance = some available;
        can_start_root = can_start_root;
        finish_reason = if can_start_root then none else some "task_finished_insufficient_funds";
      }
  redistribute_pool pool adjustment (leaf ∷ leaves) = record {
    balances = with_changes (pool_changes (pool +ℤ adjustment) (leaf ∷ leaves)) (leaf ∷ leaves);
    pool_after = pos 0;
    restart_balance = none;
    can_start_root = false;
    finish_reason = none;
  }
