-- ===== src/Events/Agents.antt =====
-- The events of an agent call (events.py).
use maibot_lunagentic_resear.Prelude.{ℤ, ℕ, String, Bool, Option, List, []}
use maibot_lunagentic_resear.Delegation.{Message, DelegationRequest}
use maibot_lunagentic_resear.Credits.Usage.{UsageArg}

-- The last fields of the agent events: the depth of the branch and the limits of a turn.
pub record TurnLimits : Type 0 where
  pub branch_depth : ℤ
  pub live_agent_ids : Option (List String)
  pub max_delegations_per_turn : ℕ
  pub max_branch_depth : ℕ
  pub max_agent_calls_per_task : ℕ
  pub agent_calls_started : ℕ

pub record AgentCallRequested : Type 0 where
  pub branch_id : String
  pub call_id : String
  pub agent_id : String
  pub selector : String
  pub protocol : String
  pub messages : List Message
  pub prompt_tokens : ℤ
  pub cache_hit_tokens : ℤ
  pub cache_miss_tokens : ℤ
  pub estimated_charge : ℤ
  pub balance_before : ℤ
  pub usage_id : String
  pub ledger_id : String
  pub price_source : String
  pub price_fingerprint : String
  pub estimated_model_name : String
  pub correction_count : ℕ
  pub pinning_supported : Bool
  pub limits : TurnLimits

pub record AgentCallReserved : Type 0 where
  pub branch_id : String
  pub call_id : String
  pub ledger_id : String
  pub reserved_credits : ℤ

-- What is read of a parsed turn; a missing entry is empty.
pub record ProtocolResult : Type 0 where
  pub report : String
  pub procedures : List String
  pub delegations : List DelegationRequest

abbrev pub no_protocol_result : ProtocolResult
no_protocol_result = record { report = ""; procedures = []; delegations = [] }

-- The message and the error mappings, each kept as the text it is rendered to.
pub record ProtocolFault : Type 0 where
  pub message : String
  pub errors : List String

pub record AgentCallCompleted : Type 0 where
  pub branch_id : String
  pub call_id : String
  pub result_id : String
  pub usage : UsageArg
  pub actual_model_name : String
  pub actual_charge : Option ℤ
  pub estimated_charge : ℤ
  pub balance_before_reconciliation : ℤ
  pub protocol : String
  pub protocol_result : Option ProtocolResult
  pub protocol_error : Option ProtocolFault
  pub correction_count : ℕ
  pub correction_call_id : String
  pub correction_usage_id : String
  pub correction_ledger_id : String
  pub correction_estimated_charge : ℤ
  pub max_correction_turns : ℤ
  pub pinning_supported : Bool
  pub messages : List Message
  pub limits : TurnLimits

pub record AgentCallFailed : Type 0 where
  pub branch_id : String
  pub call_id : String
  pub error_code : String
  pub error_message : String
  pub usage : UsageArg
  pub actual_model_name : String
  pub actual_charge : Option ℤ
  pub estimated_charge : ℤ
  pub balance_before_reconciliation : ℤ
  pub selector : String
