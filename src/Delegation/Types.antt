-- ===== src/Delegation/Types.antt =====
-- The requests, the plan and the messages of a delegation (delegation.py).
use maibot_lunagentic_resear.Prelude.{ℤ, ℕ, String, Bool, Option, List}

-- Why an edge does not become a branch.
pub data EdgeReason : Type 0 where
  delegation_limit_exceeded branch_depth_exceeded : EdgeReason
  agent_unavailable agent_call_limit_exceeded : EdgeReason

-- A message to an agent. The texts that the code renders are kept as what they are rendered from.
pub data Message : Type 0 where
  message : String → String → Message
  assignment_message : String → Message
  edge_finalized_message : String → EdgeReason → Message
  rejected_edge_notice : List (String × String × EdgeReason) → Option (List String) → Message
  correction_message : String → List String → Message

-- One requested delegation; a missing text field is empty, missing credits are zero.
pub record DelegationRequest : Type 0 where
  pub agent_id : String
  pub task : Option String
  pub assignment : Option String
  pub credits : ℤ
  pub branch_id : String

pub record PlannedChild : Type 0 where
  pub branch_id : String
  pub agent_id : String
  pub assignment : String
  pub credits : ℤ
  pub depth : ℤ
  pub messages : List Message
  pub retire_parent : Bool
  pub pool_return : ℤ

pub record RejectedEdge : Type 0 where
  pub branch_id : String
  pub agent_id : String
  pub assignment : String
  pub reason : EdgeReason
  pub depth : ℤ
  pub messages : List Message

pub record DelegationPlan : Type 0 where
  pub children : List PlannedChild
  pub rejected : List RejectedEdge
  pub calls_after_reservation : ℕ
  pub all_rejected : Bool
  pub blocking_reason : Option EdgeReason

-- The keyword arguments of `plan_delegations`.
pub record PlanContext : Type 0 where
  pub parent_branch_id : String
  pub parent_depth : ℤ
  pub parent_credits : ℤ
  pub parent_messages : List Message
  pub live_agent_ids : Option (List String)
  pub agent_calls_started : ℕ
  pub max_delegations_per_turn : ℕ
  pub max_branch_depth : ℕ
  pub max_agent_calls_per_task : ℕ

-- A row of `normalized`.
pub record Edge : Type 0 where
  pub index : ℕ
  pub branch_id : String
  pub agent_id : String
  pub assignment : String
  pub requested_credits : ℤ
  pub reason : Option EdgeReason
