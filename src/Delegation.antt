-- ===== src/Delegation.antt =====
-- lunagentic_research_swarm/runtime/delegation.py: which of a turn's delegations become branches,
-- with what credits, and what becomes of the parent.
mod Types
pub use Types.*
pub mod Edges
pub mod Calls
pub mod Funds
pub mod Retirement
use maibot_lunagentic_resear.Prelude.{
  ltb, leb, nat_eq, if◌then◌else◌, is_empty, text_or, is_none, or_default, length, ℤ, pos, ◌+ℤ◌,
  ltb_ℤ, leb_ℤ, value_error, Result, ok, ◌>>=◌, ◌>>◌, raise_if, ℕ, suc, ◌+◌, ◌*◌, String, Bool,
  true, false, not, ◌&&◌, ◌||◌, Option, none, some, List, [], ◌∷◌, ◌++◌, ◌==◌,
}
use maibot_lunagentic_resear.Dict.{get_or_zero}
use maibot_lunagentic_resear.Credits.Scaled.{FloatArithmetic}
use maibot_lunagentic_resear.Credits.Allocation.{AllocationResult, allocate_children}
use maibot_lunagentic_resear.Text.{str, child_branch_id}

-- `item in frozenset(...)`
unfoldable pub is_listed : String → List String → Bool
is_listed id [] = false
is_listed id (other ∷ ids) = other == id || is_listed id ids

-- `live_agents is not None and agent_id not in live_agents`
abbrev pub is_offline : Option (List String) → String → Bool
is_offline none agent_id = false
is_offline (some ids) agent_id = not (is_listed agent_id ids)

-- The chain of tests for one edge; `reserved` counts the edges that passed before it.
unfoldable pub edge_reason : PlanContext → ℕ → String → ℕ → Option EdgeReason
edge_reason ctx index agent_id reserved =
    if leb ctx.max_delegations_per_turn index
    then some delegation_limit_exceeded
    else if leb_ℤ (pos ctx.max_branch_depth) ctx.parent_depth
    then some branch_depth_exceeded
    else if is_offline ctx.live_agent_ids agent_id
    then some agent_unavailable
    else if leb ctx.max_agent_calls_per_task (ctx.agent_calls_started + reserved)
    then some agent_call_limit_exceeded
    else none

-- `raw.get("task", raw.get("assignment"))`, empty where both are missing
abbrev pub assignment_of : DelegationRequest → String
assignment_of raw = or_default raw.task (or_default raw.assignment "")

-- `str(raw.get("branch_id") or f"{parent_branch_id}:{index + 1}")`
abbrev pub branch_id_of : PlanContext → ℕ → DelegationRequest → String
branch_id_of ctx index raw = text_or raw.branch_id (child_branch_id ctx.parent_branch_id index)

abbrev pub edge_of : PlanContext → ℕ → DelegationRequest → Option EdgeReason → Edge
edge_of ctx index raw reason = record {
  index = index;
  branch_id = branch_id_of ctx index raw;
  agent_id = raw.agent_id;
  assignment = assignment_of raw;
  requested_credits = raw.credits;
  reason = reason;
}

-- The loop over the requests, with the next index and the calls reserved so far.
unfoldable pub judged_edges : PlanContext → ℕ → ℕ → List DelegationRequest → Result (List Edge)
judged_edges ctx index reserved [] = ok []
judged_edges ctx index reserved (raw ∷ delegations) =
    let reason = edge_reason ctx index raw.agent_id reserved in
    raise_if (is_empty raw.agent_id) value_error
    >> (raise_if (is_empty (assignment_of raw)) value_error
        >> (judged_edges ctx (suc index) (if is_none reason then suc reserved else reserved)
              delegations
            >>= λ edges. ok (edge_of ctx index raw reason ∷ edges)))

-- The edges that passed, as the requests of `allocate_children` keyed by `str(index)`.
unfoldable pub allocatable : List Edge → List (String × ℤ)
allocatable [] = []
allocatable (edge ∷ edges) =
    if is_none edge.reason
    then (str edge.index, edge.requested_credits) ∷ allocatable edges
    else allocatable edges

-- `reserved_calls` after the loop
unfoldable pub reserved_calls : List Edge → ℕ
reserved_calls [] = 0
reserved_calls (edge ∷ edges) =
    if is_none edge.reason then suc (reserved_calls edges) else reserved_calls edges

-- `next((index for index, *_, reason in normalized if reason is None), None)`
unfoldable pub first_live_index : List Edge → Option ℕ
first_live_index [] = none
first_live_index (edge ∷ edges) =
    if is_none edge.reason then some edge.index else first_live_index edges

abbrev pub is_first : Option ℕ → ℕ → Bool
is_first none index = false
is_first (some first) index = nat_eq index first

module _ (ctx : PlanContext) (allocation : AllocationResult) (first : Option ℕ) where
  abbrev pub child_of : Edge → PlannedChild
  child_of edge = record {
    branch_id = edge.branch_id;
    agent_id = edge.agent_id;
    assignment = edge.assignment;
    credits = get_or_zero (str edge.index) allocation.allocations;
    depth = ctx.parent_depth +ℤ pos 1;
    messages = ctx.parent_messages ++ assignment_message edge.assignment ∷ [];
    retire_parent = is_first first edge.index;
    pool_return = if is_first first edge.index then allocation.returned_to_pool else pos 0;
  }

  unfoldable pub planned_children : List Edge → List PlannedChild
  planned_children [] = []
  planned_children (edge ∷ edges) = elim edge.reason [
    | none ↦ child_of edge ∷ planned_children edges
    | some _ ↦ planned_children edges
  ]

module _ (ctx : PlanContext) where
  unfoldable pub rejected_edges : List Edge → List RejectedEdge
  rejected_edges [] = []
  rejected_edges (edge ∷ edges) = elim edge.reason [
    | none ↦ rejected_edges edges
    | some reason ↦
        record {
          branch_id = edge.branch_id;
          agent_id = edge.agent_id;
          assignment = edge.assignment;
          reason = reason;
          depth = ctx.parent_depth +ℤ pos 1;
          messages = ctx.parent_messages ++ edge_finalized_message edge.assignment reason ∷ [];
        }
        ∷ rejected_edges edges
  ]

-- `reason in reasons`
abbrev pub same_reason : EdgeReason → EdgeReason → Bool
same_reason delegation_limit_exceeded delegation_limit_exceeded = true
same_reason branch_depth_exceeded branch_depth_exceeded = true
same_reason agent_unavailable agent_unavailable = true
same_reason agent_call_limit_exceeded agent_call_limit_exceeded = true
same_reason _ _ = false

unfoldable pub has_reason : EdgeReason → List RejectedEdge → Bool
has_reason reason [] = false
has_reason reason (edge ∷ edges) = same_reason reason edge.reason || has_reason reason edges

-- The alphabetically first reason that no retry can change.
unfoldable pub deterministic_reason : List RejectedEdge → Option EdgeReason
deterministic_reason rejected =
    if has_reason agent_call_limit_exceeded rejected
    then some agent_call_limit_exceeded
    else if has_reason branch_depth_exceeded rejected
    then some branch_depth_exceeded
    else if has_reason delegation_limit_exceeded rejected
    then some delegation_limit_exceeded
    else none

unfoldable pub plan_of_edges : PlanContext → AllocationResult → List Edge → DelegationPlan
plan_of_edges ctx allocation edges =
    let first = first_live_index edges in
    let rejected = rejected_edges ctx edges in
    let all_rejected = is_none first && ltb 0 (length edges) in
    let blocking =
      if not all_rejected
      then none
      else if not (is_none (deterministic_reason rejected))
      then deterministic_reason rejected
      else if ltb ctx.max_agent_calls_per_task (ctx.agent_calls_started + 1)
      then some agent_call_limit_exceeded
      else none in
    record {
      children = planned_children ctx allocation first edges;
      rejected = rejected;
      calls_after_reservation =
          if all_rejected && is_none blocking
          then ctx.agent_calls_started + 1
          else ctx.agent_calls_started + reserved_calls edges;
      all_rejected = all_rejected;
      blocking_reason = blocking;
    }

unfoldable pub plan_delegations :
    FloatArithmetic → PlanContext → List DelegationRequest → Result DelegationPlan
plan_delegations float ctx delegations = do
  raise_if (ltb ctx.max_delegations_per_turn 1) value_error
  raise_if (ltb ctx.max_branch_depth 1) value_error
  raise_if (ltb ctx.max_agent_calls_per_task 1) value_error
  raise_if (ltb_ℤ ctx.parent_depth (pos 0)) value_error
  edges ← judged_edges ctx 0 0 delegations
  allocation ← allocate_children float ctx.parent_credits (allocatable edges)
  ok (plan_of_edges ctx allocation edges)
