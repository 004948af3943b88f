-- ===== src/Reducer/State.antt =====
-- The reducer's state, the effects it asks for and the transition it returns.
use maibot_lunagentic_resear.Prelude.{ℤ, ℕ, String, Bool, true, false, Option, none, some, List, []}
use maibot_lunagentic_resear.Dict.{Dict}
use maibot_lunagentic_resear.Models.{TaskStatus, FormalizedTask}
use maibot_lunagentic_resear.Commands.{StoreCommand}
use maibot_lunagentic_resear.Delegation.{Message, DelegationRequest, PlannedChild, RejectedEdge}
use maibot_lunagentic_resear.Events.Agents.{TurnLimits}

pub record RuntimeState : Type 0 where
  pub task_id : String
  pub status : TaskStatus
  pub formalized_task : Option FormalizedTask
  pub generation : ℕ
  pub active_round_id : Option String
  pub failure_code : Option String
  pub credit_pool : ℤ
  pub active_leaves : Dict ℤ
  pub inflight_count : ℕ
  pub report_epoch : ℕ
  pub raw_context_released : Bool
  pub continue_barrier : Bool
  pub agent_calls_started : ℕ

pub data Priority : Type 0 where
  normal barrier : Priority

pub data EpochKind : Type 0 where
  intermediate final : EpochKind

pub record AgentCall : Type 0 where
  pub branch_id : String
  pub call_id : String
  pub agent_id : Option String
  pub selector : String
  pub protocol : String
  pub messages : List Message
  pub estimated_charge : ℤ
  pub credits_after_reservation : ℤ
  pub correction_count : ℕ
  pub max_correction_turns : Option ℤ
  pub pinning_supported : Bool
  pub limits : TurnLimits

pub record ProcedureBatch : Type 0 where
  pub branch_id : String
  pub call_id : String
  pub result_id : String
  pub report : String
  pub requests : List String
  pub delegations : List DelegationRequest
  pub credits_after : ℤ
  pub messages : List Message
  pub limits : TurnLimits
  pub protocol : String

-- A missing entry is empty.
pub record BranchSummary : Type 0 where
  pub branch_id : String
  pub reason : String
  pub held_delegations : List DelegationRequest
  pub appended_messages : List Message
  pub messages : List Message

pub record RetryCall : Type 0 where
  pub branch_id : String
  pub appended_messages : List Message
  pub limits : TurnLimits

pub record EdgeFinalization : Type 0 where
  pub edge : RejectedEdge
  pub parent_branch_id : String
  pub credits : ℤ

pub record ChildRequest : Type 0 where
  pub child : PlannedChild
  pub parent_branch_id : String
  pub limits : TurnLimits

-- The classes below `Effect` with the payloads that the reducer gives them.
pub data Action : Type 0 where
  -- `PerformAgentCall` of a root, with the formalized text or with the balance
  call_root : String → Action
  restart_root : ℤ → Action
  perform_agent_call : AgentCall → Action
  retry_parent : RetryCall → Action
  perform_procedure_batch : ProcedureBatch → Action
  perform_branch_summary : BranchSummary → Action
  -- `PerformBranchSummary` with `edge_finalization`
  finalize_edge : EdgeFinalization → Action
  open_report_epoch : ℕ → EpochKind → Action
  deliver_outbox : String → Action
  arm_deadline : ℕ → Action
  arm_pause_expiry : ℕ → Action
  release_raw_context : Action
  -- `NotifyToolWaiter` with an error, a code and a message, a code, or a child
  notify_invalid : TaskStatus → String → Action
  notify_failure : String → String → Action
  notify_code : String → Action
  materialize_child : ChildRequest → Action

pub record Effect : Type 0 where
  pub task_id : String
  pub round_id : Option String
  pub generation : ℕ
  pub priority : Priority
  pub event_id : String
  pub action : Action

-- The code of the error stands for the error.
pub record Transition : Type 0 where
  pub next_state : RuntimeState
  pub commands : List StoreCommand
  pub effects : List Effect
  pub ignored : Bool
  pub reason : Option String
  pub error : Option String

-- `Transition(state, commands, effects)`
abbrev pub transition : RuntimeState → List StoreCommand → List Effect → Transition
transition state commands effects = record {
  next_state = state;
  commands = commands;
  effects = effects;
  ignored = false;
  reason = none;
  error = none;
}

abbrev pub unchanged : RuntimeState → Transition
unchanged state = transition state [] []

abbrev pub from_ignored : RuntimeState → String → Transition
from_ignored state reason = record {
  next_state = state;
  commands = [];
  effects = [];
  ignored = true;
  reason = some reason;
  error = none;
}
