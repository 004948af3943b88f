-- ===== src/Reducer/Handover.antt =====
-- A branch hands over to the children of its plan.
use maibot_lunagentic_resear.Prelude.{
  All, ℤ, pos, ◌+ℤ◌, ◌-ℤ◌, ◌≤ℤ◌, int_laws, ok, ℕ, ◌≡◌, refl, ◌≢◌, ◌⊎◌, inl, inr, true, some, List,
  [], ◌∷◌,
}
use maibot_lunagentic_resear.Dict.{lookup}
use maibot_lunagentic_resear.Delegation.{
  DelegationRequest, PlannedChild, DelegationPlan, PlanContext, plan_delegations,
}
use maibot_lunagentic_resear.Delegation.Edges.{total_pool_return}
use maibot_lunagentic_resear.Delegation.Funds.{total_credits, plan_delegations-IsFunded}
use maibot_lunagentic_resear.Delegation.Retirement.{RetiresFirst, plan_delegations-RetiresFirst}
use maibot_lunagentic_resear.Credits.Scaled.{FloatArithmetic}
use maibot_lunagentic_resear.Credits.Allocation.{is_negligible}
use maibot_lunagentic_resear.Credits.Allocation.Conservation.{IsConserved}
use maibot_lunagentic_resear.Events.{RuntimeEvent}
use maibot_lunagentic_resear.Reducer.State.{RuntimeState}
use maibot_lunagentic_resear.Reducer.Transitions.{is_in_flight}
use maibot_lunagentic_resear.Reducer.Worth.{worth}
use maibot_lunagentic_resear.Reducer.Children.{
  materialize_children, AreFresh, IsAdmitted, materialize_children-worth,
}

-- A branch that is not in debt hands over to the children of its plan, materialized one after the
-- other in a round in flight under ids that are new: the task is worth what it was before, up to a
-- remainder within the tolerance that the code drops, and which then was not paid into the pool.
pub plan_delegations-materialize_children :
    (float : FloatArithmetic) (ctx : PlanContext) (delegations : List DelegationRequest)
    (state : RuntimeState) (event : RuntimeEvent) {plan : DelegationPlan}
    → plan_delegations float ctx delegations ≡ ok plan
    → plan.children ≢ []
    → pos 0 ≤ℤ ctx.parent_credits
    → lookup ctx.parent_branch_id state.active_leaves ≡ some ctx.parent_credits
    → is_in_flight state.status ≡ true
    → All (IsAdmitted ctx.parent_branch_id) plan.children
    → AreFresh state.active_leaves plan.children
    → (remainder : ℤ) × (worth (
            materialize_children state event ctx.parent_branch_id plan.calls_after_reservation
              plan.children)
          +ℤ remainder
        ≡ worth state)
      × ((remainder ≡ pos 0) ⊎ (is_negligible float remainder ctx.parent_credits ≡ true))
plan_delegations-materialize_children float ctx delegations state event {plan} h some_child funds
      leaf live fields fresh =
    let funded = plan_delegations-IsFunded float ctx delegations funds h some_child in
    go plan.children some_child fields fresh (plan_delegations-RetiresFirst float ctx delegations h)
      funded.conserved
  where
    calls : ℕ
    calls = plan.calls_after_reservation

    go :
        (children : List PlannedChild)
        → children ≢ []
        → All (IsAdmitted ctx.parent_branch_id) children
        → AreFresh state.active_leaves children
        → RetiresFirst children
        → IsConserved float ctx.parent_credits (total_credits children) (total_pool_return children)
        → (remainder : ℤ) × (worth
                (materialize_children state event ctx.parent_branch_id calls children)
              +ℤ remainder
            ≡ worth state)
          × ((remainder ≡ pos 0) ⊎ (is_negligible float remainder ctx.parent_credits ≡ true))
    go [] some_child fields fresh shape kept = absurd (some_child refl)
    go (child ∷ children) some_child fields fresh shape kept =
        let sum =
          materialize_children-worth event ctx.parent_branch_id calls state child children live
            fields fresh shape in
        elim kept [
          | inl exact ↦ (pos 0, grind (int_laws, sum, exact, leaf), inl refl)
          | inr (nothing, small) ↦ (
            ctx.parent_credits -ℤ total_credits (child ∷ children),
            grind (int_laws, sum, nothing, leaf),
            inr small,
          )
        ]
