-- ===== src/Delegation/Calls.antt =====
-- The structural limits: no plan exceeds the width, depth or call limits of its task.
use mathlib.Core.Path.{subst}
use maibot_lunagentic_resear.Prelude.{
  Option-cases, length, All, pos, ◌+ℤ◌, ◌≤ℤ◌, ok, Result-cases, ok_injective, ℕ, suc, ◌+◌, ◌-◌, ◌≤◌,
  ◌<◌, String, ◌≡◌, refl, ◌∙◌, inl, inr, false, Option, none, some, List, [], ◌∷◌, arith,
}
use maibot_lunagentic_resear.Credits.Scaled.{FloatArithmetic}
use maibot_lunagentic_resear.Credits.Allocation.{AllocationResult, allocate_children}
use maibot_lunagentic_resear.Delegation.{
  EdgeReason, DelegationRequest, PlannedChild, DelegationPlan, PlanContext, Edge, is_offline,
  edge_reason, judged_edges, allocatable, reserved_calls, first_live_index, child_of,
  planned_children, plan_of_edges, plan_delegations,
}
use maibot_lunagentic_resear.Delegation.Edges.{
  next_reserved, judged_edge, judged_edges-inv, judged_edges-ok, length-planned,
  length-planned_children, first_live_index-none,
}

module _ (float : FloatArithmetic) (ctx : PlanContext) where
  -- What an accepted plan was built from.
  pub plan_delegations-inv :
      (delegations : List DelegationRequest) {plan : DelegationPlan}
      → plan_delegations float ctx delegations ≡ ok plan
      → (edges : List Edge) × (allocation : AllocationResult) × (judged_edges ctx 0 0 delegations
          ≡ ok edges)
        × (allocate_children float ctx.parent_credits (allocatable edges) ≡ ok allocation)
        × (plan ≡ plan_of_edges ctx allocation edges)
  unfolding plan_delegations
  plan_delegations-inv delegations h = elim (Result-cases (judged_edges ctx 0 0 delegations)) [
    | inr (x, e) ↦ absurd (ground arith)
    | inl (edges, e) ↦
        elim (Result-cases (allocate_children float ctx.parent_credits (allocatable edges))) [
          | inr (x, a) ↦ absurd (ground arith)
          | inl (allocation, a) ↦ (edges, allocation, e, a, ground arith)
        ]
  ]

module _ (ctx : PlanContext) where
  -- What the tests of an edge that passes have established.
  pub record IsAllowed (agent_id : String) : Type 0 where
    pub shallow : ctx.parent_depth +ℤ pos 1 ≤ℤ pos ctx.max_branch_depth
    pub live : is_offline ctx.live_agent_ids agent_id ≡ false

  edge_reason-none :
      (index : ℕ) (agent_id : String) (reserved : ℕ)
      → edge_reason ctx index agent_id reserved ≡ none
      → IsAllowed agent_id
        × (index < ctx.max_delegations_per_turn)
        × (ctx.agent_calls_started + reserved < ctx.max_agent_calls_per_task)
  unfolding edge_reason ◌+ℤ◌
  edge_reason-none index agent_id reserved h = ground arith

  abbrev PassesAllowed : Edge → Type 0
  PassesAllowed edge = edge.reason ≡ none → IsAllowed edge.agent_id

  -- The edges that pass are allowed, and no more in number than the limits leave.
  record IsWithinLimits (i reserved : ℕ) (edges : List Edge) : Type 0 where
    allowed : All PassesAllowed edges
    width : reserved_calls edges ≤ ctx.max_delegations_per_turn - i
    calls :
        ctx.agent_calls_started + reserved ≤ ctx.max_agent_calls_per_task
        → ctx.agent_calls_started + reserved + reserved_calls edges ≤ ctx.max_agent_calls_per_task

  nil-IsWithinLimits : (i reserved : ℕ) → IsWithinLimits i reserved []
  unfolding reserved_calls
  nil-IsWithinLimits i reserved = record {
    allowed = tt;
    width = omega arith;
    calls = λ h. omega arith;
  }

  cons-IsWithinLimits :
      (i reserved : ℕ) (raw : DelegationRequest) (rest : List Edge)
      → IsWithinLimits (suc i) (next_reserved ctx i reserved raw) rest
      → IsWithinLimits i reserved (judged_edge ctx i reserved raw ∷ rest)
  unfolding reserved_calls
  cons-IsWithinLimits i reserved raw rest w =
      elim (Option-cases (edge_reason ctx i raw.agent_id reserved)) [
        | inl passed ↦ record {
          allowed = ((λ h. (edge_reason-none i raw.agent_id reserved passed).0), w.allowed);
          width = ground (arith, w.width, edge_reason-none i raw.agent_id reserved passed);
          calls = λ h. ground (arith, w.calls, edge_reason-none i raw.agent_id reserved passed);
        }
        | inr (reason, refused) ↦ record {
          allowed = ((λ h. absurd (ground arith)), w.allowed);
          width = ground (arith, w.width);
          calls = λ h. ground (arith, w.calls);
        }
      ]

  judged_edges-IsWithinLimits :
      (i reserved : ℕ) (delegations : List DelegationRequest) {edges : List Edge}
      → judged_edges ctx i reserved delegations ≡ ok edges
      → IsWithinLimits i reserved edges
  unfolding judged_edges
  judged_edges-IsWithinLimits i reserved [] h =
      subst (IsWithinLimits i reserved) (ok_injective h) (nil-IsWithinLimits i reserved)
  judged_edges-IsWithinLimits i reserved (raw ∷ delegations) h =
      let (rest, e, same) = judged_edges-inv ctx i reserved raw delegations h in
      rw same (
        cons-IsWithinLimits i reserved raw rest
          (judged_edges-IsWithinLimits (suc i) (next_reserved ctx i reserved raw) delegations e))

  abbrev pub IsAllowedChild : PlannedChild → Type 0
  IsAllowedChild child = IsAllowed child.agent_id × (child.depth ≡ ctx.parent_depth +ℤ pos 1)

  planned_children-IsAllowed :
      (allocation : AllocationResult) (first : Option ℕ) (edges : List Edge)
      → All PassesAllowed edges
      → All IsAllowedChild (planned_children ctx allocation first edges)
  unfolding planned_children
  planned_children-IsAllowed allocation first [] h = tt
  planned_children-IsAllowed allocation first (edge ∷ edges) h =
      go edge.reason refl (planned_children-IsAllowed allocation first edges h.1)
    where
      go :
          (reason : Option EdgeReason)
          → edge.reason ≡ reason
          → All IsAllowedChild (planned_children ctx allocation first edges)
          → All IsAllowedChild (elim reason [
            | none ↦
                child_of ctx allocation first edge ∷ planned_children ctx allocation first edges
            | some _ ↦ planned_children ctx allocation first edges
          ])
      go none e rest = ((h.0 e, refl), rest)
      go (some reason) e rest = rest

-- An accepted plan: every request becomes a child or a rejected edge; there are at most
-- `max_delegations_per_turn` children, all of live agents and one level below the parent, within
-- `max_branch_depth`; and a task within `max_agent_calls_per_task` stays within it.
pub record IsBounded (ctx : PlanContext) (requests : ℕ) (plan : DelegationPlan) : Type 0 where
  pub accounted : length plan.children + length plan.rejected ≡ requests
  pub width : length plan.children ≤ ctx.max_delegations_per_turn
  pub allowed : All (IsAllowedChild ctx) plan.children
  pub calls :
      ctx.agent_calls_started ≤ ctx.max_agent_calls_per_task
      → plan.calls_after_reservation ≤ ctx.max_agent_calls_per_task
  pub counted : ctx.agent_calls_started + length plan.children ≤ plan.calls_after_reservation

plan_of_edges-calls :
    (ctx : PlanContext) (allocation : AllocationResult) (edges : List Edge)
    → let after = (plan_of_edges ctx allocation edges).calls_after_reservation in
      (ctx.agent_calls_started + reserved_calls edges ≤ after)
      × (ctx.agent_calls_started + reserved_calls edges ≤ ctx.max_agent_calls_per_task
          → after ≤ ctx.max_agent_calls_per_task)
unfolding plan_of_edges
plan_of_edges-calls ctx allocation edges = ground (arith, first_live_index-none edges)

-- A plan that raises nothing: every request becomes a child or a rejected edge; the children are
-- at most `max_delegations_per_turn`, all of live agents, one level below the parent and within
-- `max_branch_depth`; every child is counted as a call; and a task that is within
-- `max_agent_calls_per_task` stays within it.
pub plan_delegations-IsBounded :
    (float : FloatArithmetic) (ctx : PlanContext) (delegations : List DelegationRequest)
    {plan : DelegationPlan}
    → plan_delegations float ctx delegations ≡ ok plan
    → IsBounded ctx (length delegations) plan
plan_delegations-IsBounded float ctx delegations h =
    let (edges, allocation, judged, _, same) = plan_delegations-inv float ctx delegations h in
    let limits = judged_edges-IsWithinLimits ctx 0 0 delegations judged in
    let first = first_live_index edges in
    let calls = plan_of_edges-calls ctx allocation edges in
    rw same (
      unfold plan_of_edges in
      record {
        accounted =
            length-planned ctx allocation first edges
            ∙ (judged_edges-ok ctx 0 0 delegations judged).0;
        width = omega (arith, length-planned_children ctx allocation first edges, limits.width);
        allowed = planned_children-IsAllowed ctx allocation first edges limits.allowed;
        calls = λ within. calls.1 (omega (arith, limits.calls (omega arith)));
        counted = omega (arith, length-planned_children ctx allocation first edges, calls.0);
      })
