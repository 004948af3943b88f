-- ===== src/Delegation/Funds.antt =====
-- The parent's balance goes to the children and the pool, and nowhere else.
use maibot_lunagentic_resear.Prelude.{
  Option-cases, All, ℤ, pos, ◌+ℤ◌, ◌≤ℤ◌, ok, ℕ, suc, ◌<◌, ◌≡◌, refl, ap, ◌∙◌, ◌≢◌, inl, inr, false,
  Option, none, some, List, [], ◌∷◌, arith, ◌==◌, eq_iff,
}
use maibot_lunagentic_resear.Dict.{total}
use maibot_lunagentic_resear.Dict.Keys.{Absent, HasDistinctKeys}
use maibot_lunagentic_resear.Credits.Scaled.{FloatArithmetic}
use maibot_lunagentic_resear.Credits.Scaled.Absorb.{IsNonnegDict, held, get_or_zero-nonneg}
use maibot_lunagentic_resear.Credits.Scaled.Present.{IsWithin}
use maibot_lunagentic_resear.Credits.Allocation.{AllocationResult}
use maibot_lunagentic_resear.Credits.Allocation.Conservation.{
  IsConserved, IsFairSplit, allocate_children-SplitOutcome,
}
use maibot_lunagentic_resear.Credits.Allocation.Within.{allocate_children-IsWithin}
use maibot_lunagentic_resear.Text.{str}
use maibot_lunagentic_resear.Text.Decimal.{str_injective}
use maibot_lunagentic_resear.Delegation.{
  EdgeReason, DelegationRequest, PlannedChild, DelegationPlan, PlanContext, Edge, allocatable,
  first_live_index, child_of, planned_children, plan_of_edges, plan_delegations,
}
use maibot_lunagentic_resear.Delegation.Edges.{
  IsIndexed, judged_edges-ok, retiring, total_pool_return, first-retires,
}
use maibot_lunagentic_resear.Delegation.Calls.{plan_delegations-inv}

str-ne : (i j : ℕ) → i < j → (str j == str i) ≡ false
str-ne i j h = ground (arith, eq_iff (str j) (str i), str_injective j i)

allocatable-Absent :
    (i j : ℕ) (edges : List Edge) → i < j → IsIndexed j edges → Absent (str i) (allocatable edges)
unfolding allocatable
allocatable-Absent i j [] h x = tt
allocatable-Absent i j (edge ∷ edges) h x =
    ground (arith, str-ne i j h, allocatable-Absent i (suc j) edges)

allocatable-HasDistinctKeys :
    (i : ℕ) (edges : List Edge) → IsIndexed i edges → HasDistinctKeys (allocatable edges)
unfolding allocatable
allocatable-HasDistinctKeys i [] x = tt
allocatable-HasDistinctKeys i (edge ∷ edges) x = ground (
  arith,
  allocatable-Absent i (suc i) edges (omega arith) x.1,
  allocatable-HasDistinctKeys (suc i) edges x.1,
)

-- What the children get together.
unfoldable pub total_credits : List PlannedChild → ℤ
total_credits [] = pos 0
total_credits (child ∷ children) = child.credits +ℤ total_credits children

module _ (ctx : PlanContext) (allocation : AllocationResult) (first : Option ℕ) where
  total_credits-planned :
      (edges : List Edge)
      → total_credits (planned_children ctx allocation first edges)
        ≡ held allocation.allocations (allocatable edges)
  unfolding total_credits planned_children held allocatable
  total_credits-planned [] = refl
  total_credits-planned (edge ∷ edges) = ground (arith, total_credits-planned edges)

  planned_children-nonneg :
      (edges : List Edge)
      → IsNonnegDict allocation.allocations
      → All
          (λ (child : PlannedChild). pos 0 ≤ℤ child.credits)
          (planned_children ctx allocation first edges)
  unfolding planned_children
  planned_children-nonneg [] h = tt
  planned_children-nonneg (edge ∷ edges) h = go edge.reason (planned_children-nonneg edges h)
    where
      go :
          (reason : Option EdgeReason)
          → All
              (λ (child : PlannedChild). pos 0 ≤ℤ child.credits)
              (planned_children ctx allocation first edges)
          → All
              (λ (child : PlannedChild). pos 0 ≤ℤ child.credits)
              (elim reason [
                | none ↦
                    child_of ctx allocation first edge ∷ planned_children ctx allocation first edges
                | some _ ↦ planned_children ctx allocation first edges
              ])
      go none rest = (get_or_zero-nonneg (str edge.index) allocation.allocations h, rest)
      go (some reason) rest = rest

-- The children of a plan with funds: exactly one retires the parent, no child starts in debt, and
-- the children's credits and what goes back to the pool make up the parent's balance, up to the
-- tolerance that the code drops.
pub record IsFunded (float : FloatArithmetic) (balance : ℤ) (plan : DelegationPlan) : Type 0 where
  pub one_retires : retiring plan.children ≡ 1
  pub no_debts : All (λ (child : PlannedChild). pos 0 ≤ℤ child.credits) plan.children
  pub conserved :
      IsConserved float balance (total_credits plan.children) (total_pool_return plan.children)

plan_of_edges-IsFunded :
    (float : FloatArithmetic) (ctx : PlanContext) (allocation : AllocationResult)
    (edges : List Edge) (first : ℕ)
    → IsIndexed 0 edges
    → first_live_index edges ≡ some first
    → IsFairSplit float ctx.parent_credits allocation
    → IsWithin (allocatable edges) allocation.allocations
    → IsFunded float ctx.parent_credits (plan_of_edges ctx allocation edges)
unfolding plan_of_edges
plan_of_edges-IsFunded float ctx allocation edges first x f split within =
    let (one, returned) = first-retires ctx allocation 0 first edges x f in
    let paid : total_credits (planned_children ctx allocation (some first) edges)
        ≡ total allocation.allocations =
      total_credits-planned ctx allocation (some first) edges ∙ within in
    rw f (record {
      one_retires = one;
      no_debts = planned_children-nonneg ctx allocation (some first) edges split.no_debts;
      conserved = rw (paid, returned) split.kept;
    })

pub planned_children-nobody :
    (ctx : PlanContext) (allocation : AllocationResult) (first : Option ℕ) (edges : List Edge)
    → first_live_index edges ≡ none
    → planned_children ctx allocation first edges ≡ []
unfolding planned_children first_live_index
planned_children-nobody ctx allocation first [] h = refl
planned_children-nobody ctx allocation first (edge ∷ edges) h =
    ground (arith, planned_children-nobody ctx allocation first edges)

plan_of_edges-nobody :
    (ctx : PlanContext) (allocation : AllocationResult) (edges : List Edge)
    → first_live_index edges ≡ none
    → (plan_of_edges ctx allocation edges).children ≡ []
unfolding plan_of_edges
plan_of_edges-nobody ctx allocation edges h =
    planned_children-nobody ctx allocation (first_live_index edges) edges h

-- A plan that raises nothing, for a parent that is not in debt: if it has children, exactly one
-- retires the parent, none starts in debt, and the children's credits and the pool's part make up
-- the parent's balance, up to the tolerance that the code drops.
pub plan_delegations-IsFunded :
    (float : FloatArithmetic) (ctx : PlanContext) (delegations : List DelegationRequest)
    {plan : DelegationPlan}
    → pos 0 ≤ℤ ctx.parent_credits
    → plan_delegations float ctx delegations ≡ ok plan
    → plan.children ≢ []
    → IsFunded float ctx.parent_credits plan
plan_delegations-IsFunded float ctx delegations {plan} funds h some_child =
    let (edges, allocation, judged, split, same) = plan_delegations-inv float ctx delegations h in
    let indexed = (judged_edges-ok ctx 0 0 delegations judged).1 in
    let distinct = allocatable-HasDistinctKeys 0 edges indexed in
    elim (Option-cases (first_live_index edges)) [
      | inl nobody ↦ absurd (
          some_child (
            ap (λ (p : DelegationPlan). p.children) same
            ∙ plan_of_edges-nobody ctx allocation edges nobody))
      | inr (first, f) ↦
          elim (allocate_children-SplitOutcome float ctx.parent_credits (allocatable edges) distinct
            split) [
              | inl (debt, _, _, _) ↦ absurd (ground arith)
              | inr (_, fair) ↦ rw same (
                  plan_of_edges-IsFunded float ctx allocation edges first indexed f fair (
                    allocate_children-IsWithin float ctx.parent_credits (allocatable edges) distinct
                      split))
            ]
    ]
