-- ===== src/Tests/Credits.antt =====
-- Splits and redistributions at concrete balances, in hundredths of a credit.
use maibot_lunagentic_resear.Prelude.{
  ℤ, pos, negsuc, ◌+ℤ◌, ◌-ℤ◌, ◌≤ℤ◌, ok, String, ◌≡◌, refl, true, some, List, [], ◌∷◌, arith,
}
use maibot_lunagentic_resear.Dict.{Dict, lookup, insert, update, total}
use maibot_lunagentic_resear.Credits.Scaled.{
  Scale, absorb, scaled_items, front_shares, scaled_with_last_item_remainder,
}
use maibot_lunagentic_resear.Credits.Allocation.{
  AllocationResult, normalized_requests, zeros, is_negligible, allocation_scale, allocate_scaled,
  allocate_normalized, allocate_children,
}
use maibot_lunagentic_resear.Credits.Allocation.Conservation.{
  SplitOutcome, allocate_children-SplitOutcome,
}
use maibot_lunagentic_resear.Credits.Redistribution.{redistribute_pool}
use maibot_lunagentic_resear.Credits.Redistribution.Conservation.{
  total-redistribute_pool, redistribute_pool-no_loss,
}
use maibot_lunagentic_resear.Tests.Data.{cents}

abbrev two_requests : List (String × ℤ)
two_requests = ("0", pos 600) ∷ ("1", pos 300) ∷ []

abbrev thirds : Scale
thirds = record { numerator = pos 100; denominator = 900 }

abbrev halved : AllocationResult
halved = record {
  allocations = ("0", pos 66) ∷ ("1", pos 34) ∷ [];
  returned_to_pool = pos 0;
  launch_allowed = true;
  scale = thirds;
}

allocated : allocate_children cents (pos 100) two_requests ≡ ok halved
unfolding allocate_children normalized_requests allocate_normalized allocate_scaled total zeros
    is_negligible allocation_scale scaled_with_last_item_remainder front_shares scaled_items absorb
    insert update lookup ◌+ℤ◌ ◌-ℤ◌
allocated = refl

allocate_children-SplitOutcome_example : SplitOutcome cents (pos 100) halved
allocate_children-SplitOutcome_example =
    allocate_children-SplitOutcome cents (pos 100) two_requests ((refl, tt), (tt, tt)) allocated

abbrev three_leaves : Dict ℤ
three_leaves = ("a", pos 50) ∷ ("b", negsuc 9) ∷ ("c", pos 100) ∷ []

total-redistribute_pool_example :
    total (redistribute_pool cents (pos 40) (pos 60) three_leaves).balances
      +ℤ (redistribute_pool cents (pos 40) (pos 60) three_leaves).pool_after
    ≡ total three_leaves +ℤ (pos 40 +ℤ pos 60)
total-redistribute_pool_example =
    total-redistribute_pool cents (pos 40) (pos 60) three_leaves
      ((refl, (refl, tt)), ((refl, tt), (tt, tt)))

redistribute_pool-no_loss_example :
    (b' : ℤ) × (lookup "b" (redistribute_pool cents (pos 40) (pos 60) three_leaves).balances
      ≡ some b')
    × (negsuc 9 ≤ℤ b')
unfolding lookup ◌+ℤ◌
redistribute_pool-no_loss_example =
    redistribute_pool-no_loss cents (pos 40) (pos 60) three_leaves "b" (negsuc 9)
      ((refl, (refl, tt)), ((refl, tt), (tt, tt))) (ground arith) found
  where
    found : lookup "b" three_leaves ≡ some (negsuc 9)
    found = refl
