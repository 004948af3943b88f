-- ===== src/Events/Branches.antt =====
-- The events of a branch's procedures and of its children (events.py).
use maibot_lunagentic_resear.Prelude.{ℤ, ℕ, String, Bool, Option, List}
use maibot_lunagentic_resear.Json.{JsonFields}
use maibot_lunagentic_resear.Delegation.{Message, DelegationRequest}

-- What is read of a `ProcedureExecutionResult` and of the result inside it.
pub record ProcedureItem : Type 0 where
  pub procedure_id : String
  pub request_id : String
  pub call_id : String
  pub provider_plugin_id : String
  pub api_name : String
  pub api_version : String
  pub attempts : ℤ
  pub duration_ms : ℤ
  pub success : Bool
  -- the code of the error, if there is an error, and it may be empty
  pub error : Option String
  pub research_credits_charged : Option ℤ
  -- entries of the metadata
  pub agent_id : Option String
  pub budget_hint : Option ℤ
  pub external_cost : Option JsonFields

pub record Controls : Type 0 where
  pub terminate : Bool
  pub checkpoint : Bool

pub record ProcedureBatchCompleted : Type 0 where
  pub branch_id : String
  pub call_id : String
  pub result_id : String
  pub results : List ProcedureItem
  pub controls : Controls
  pub report : String
  pub delegations : List DelegationRequest
  pub credits_after : ℤ
  pub parent_messages : List Message
  pub parent_depth : ℤ
  pub agent_id : String
  pub live_agent_ids : Option (List String)
  pub max_delegations_per_turn : ℕ
  pub max_branch_depth : ℕ
  pub max_agent_calls_per_task : ℕ
  pub agent_calls_started : ℕ

pub record ChildMaterialized : Type 0 where
  pub agent_calls_started : ℕ
  pub branch_id : String
  pub parent_branch_id : String
  pub agent_id : String
  pub credits : ℤ
  pub depth : ℤ
  pub retire_parent : Bool
  pub pool_return : ℤ
  pub parent_credits_after : Option ℤ
