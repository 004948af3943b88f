-- ===== src/Delegation/Retirement.antt =====
-- Which child of a plan retires the parent.
use mathlib.Core.Path.{subst}
use maibot_lunagentic_resear.Prelude.{
  if◌then◌else◌, Option-cases, is_none, some_injective, pos, ok, ℕ, suc, ◌<◌, ◌≡◌, sym, inl, inr,
  true, Option, none, some, List, [], ◌∷◌, arith,
}
use maibot_lunagentic_resear.Credits.Scaled.{FloatArithmetic}
use maibot_lunagentic_resear.Credits.Allocation.{AllocationResult}
use maibot_lunagentic_resear.Delegation.{
  EdgeReason, DelegationRequest, PlannedChild, DelegationPlan, PlanContext, Edge, first_live_index,
  child_of, planned_children, plan_of_edges, plan_delegations,
}
use maibot_lunagentic_resear.Delegation.Edges.{
  IsIndexed, judged_edges-ok, retiring, total_pool_return, none_after,
}
use maibot_lunagentic_resear.Delegation.Calls.{plan_delegations-inv}
use maibot_lunagentic_resear.Delegation.Funds.{planned_children-nobody}

-- The first child retires the parent; the others do not, and carry no part of the pool.
abbrev pub RetiresFirst : List PlannedChild → Type 0
RetiresFirst [] = Unit {0}
RetiresFirst (child ∷ children) =
    (child.retire_parent ≡ true) × (retiring children ≡ 0) × (total_pool_return children ≡ pos 0)

module _ (ctx : PlanContext) (allocation : AllocationResult) where
  planned_children-RetiresFirst :
      (i first : ℕ) (edges : List Edge)
      → IsIndexed i edges
      → first_live_index edges ≡ some first
      → RetiresFirst (planned_children ctx allocation (some first) edges)
  unfolding planned_children first_live_index
  planned_children-RetiresFirst i first [] x h = tt
  planned_children-RetiresFirst i first (edge ∷ edges) x h =
      go edge.reason h (planned_children-RetiresFirst (suc i) first edges x.1)
        (none_after ctx allocation (suc i) first edges x.1)
    where
      rest : List PlannedChild
      rest = planned_children ctx allocation (some first) edges

      go :
          (reason : Option EdgeReason)
          → (if is_none reason then some edge.index else first_live_index edges) ≡ some first
          → (first_live_index edges ≡ some first → RetiresFirst rest)
          → (first < suc i → (retiring rest ≡ 0) × (total_pool_return rest ≡ pos 0))
          → RetiresFirst (elim reason [
            | none ↦ child_of ctx allocation (some first) edge ∷ rest
            | some _ ↦ rest
          ])
      go none h later after =
          let same : edge.index ≡ first = some_injective h in
          let (nobody, nothing) = after (omega (arith, x.0)) in (ground arith, nobody, nothing)
      go (some reason) h later after = later h

  plan_of_edges-RetiresFirst :
      (edges : List Edge)
      → IsIndexed 0 edges
      → RetiresFirst (plan_of_edges ctx allocation edges).children
  unfolding plan_of_edges
  plan_of_edges-RetiresFirst edges x = elim (Option-cases (first_live_index edges)) [
    | inl nobody ↦
        subst RetiresFirst
          (sym (planned_children-nobody ctx allocation (first_live_index edges) edges nobody)) tt
    | inr (first, f) ↦ rw f (planned_children-RetiresFirst 0 first edges x f)
  ]

pub plan_delegations-RetiresFirst :
    (float : FloatArithmetic) (ctx : PlanContext) (delegations : List DelegationRequest)
    {plan : DelegationPlan}
    → plan_delegations float ctx delegations ≡ ok plan
    → RetiresFirst plan.children
plan_delegations-RetiresFirst float ctx delegations h =
    let (edges, allocation, judged, _, same) = plan_delegations-inv float ctx delegations h in
    rw same (
      plan_of_edges-RetiresFirst ctx allocation edges
        (judged_edges-ok ctx 0 0 delegations judged).1)
