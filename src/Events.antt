-- ===== src/Events.antt =====
-- lunagentic_research_swarm/runtime/events.py: the events of a task, and what they carry.
pub mod Agents
pub mod Branches
use maibot_lunagentic_resear.Prelude.{ℤ, ℕ, String, Option}
use maibot_lunagentic_resear.Dict.{Dict}
use maibot_lunagentic_resear.Events.Agents.{
  AgentCallRequested, AgentCallReserved, AgentCallCompleted, AgentCallFailed,
}
use maibot_lunagentic_resear.Events.Branches.{ProcedureBatchCompleted, ChildMaterialized}

-- The times are seconds.
pub record ContinueRequested : Type 0 where
  pub adjustment : ℤ
  pub active_leaves : Option (Dict ℤ)
  pub next_round_id : Option String
  pub next_generation : Option ℕ
  pub round_number : ℕ
  pub time_budget_seconds : ℕ
  pub grace_period_seconds : ℕ
  pub catalog_fingerprint : Option String

-- The classes below `Event`, one constructor for each. Texts that no operation reads (the reason of
-- a stop, a summary's id) are kept, as the code keeps them, for the record.
pub data EventBody : Type 0 where
  task_created : String → EventBody
  -- text and sha256
  formalization_succeeded : String → String → EventBody
  -- code and message
  formalization_failed : String → String → EventBody
  agent_call_requested : AgentCallRequested → EventBody
  agent_call_reserved : AgentCallReserved → EventBody
  agent_call_completed : AgentCallCompleted → EventBody
  agent_call_failed : AgentCallFailed → EventBody
  procedure_batch_completed : ProcedureBatchCompleted → EventBody
  child_materialized : ChildMaterialized → EventBody
  -- branch and summary
  summary_completed : String → String → EventBody
  -- branch, code and message
  summary_failed : String → String → String → EventBody
  -- branch and checkpoint
  branch_checkpointed : String → String → EventBody
  -- branch, summary and reason
  branch_finalized : String → String → String → EventBody
  -- an epoch, or none
  report_deadline_reached : Option ℕ → EventBody
  final_epoch_committed : Option ℕ → EventBody
  grace_expired : Option ℕ → EventBody
  -- the report
  report_completed : String → EventBody
  final_report_completed : String → EventBody
  -- code and message
  final_report_failed : String → String → EventBody
  all_inflight_settled : EventBody
  -- when the pause ends
  pause_requested : Option ℕ → EventBody
  pause_expired : EventBody
  pause_expiry_reached : EventBody
  continue_requested : ContinueRequested → EventBody
  stop_requested : String → EventBody
  context_supplied : String → EventBody
  feedback_submitted : String → EventBody
  outbox_delivered : String → EventBody
  -- code and message
  persistence_failed : String → String → EventBody

pub record RuntimeEvent : Type 0 where
  pub event_id : String
  pub task_id : String
  pub round_id : String
  pub generation : ℕ
  pub occurred_at : ℕ
  pub body : EventBody

-- `type(event).__name__`
abbrev pub event_type : EventBody → String
event_type (task_created _) = "TaskCreated"
event_type (formalization_succeeded _ _) = "FormalizationSucceeded"
event_type (formalization_failed _ _) = "FormalizationFailed"
event_type (agent_call_requested _) = "AgentCallRequested"
event_type (agent_call_reserved _) = "AgentCallReserved"
event_type (agent_call_completed _) = "AgentCallCompleted"
event_type (agent_call_failed _) = "AgentCallFailed"
event_type (procedure_batch_completed _) = "ProcedureBatchCompleted"
event_type (child_materialized _) = "ChildMaterialized"
event_type (summary_completed _ _) = "SummaryCompleted"
event_type (summary_failed _ _ _) = "SummaryFailed"
event_type (branch_checkpointed _ _) = "BranchCheckpointed"
event_type (branch_finalized _ _ _) = "BranchFinalized"
event_type (report_deadline_reached _) = "ReportDeadlineReached"
event_type (final_epoch_committed _) = "FinalEpochCommitted"
event_type (grace_expired _) = "GraceExpired"
event_type (report_completed _) = "ReportCompleted"
event_type (final_report_completed _) = "FinalReportCompleted"
event_type (final_report_failed _ _) = "FinalReportFailed"
event_type all_inflight_settled = "AllInflightSettled"
event_type (pause_requested _) = "PauseRequested"
event_type pause_expired = "PauseExpired"
event_type pause_expiry_reached = "PauseExpiryReached"
event_type (continue_requested _) = "ContinueRequested"
event_type (stop_requested _) = "StopRequested"
event_type (context_supplied _) = "ContextSupplied"
event_type (feedback_submitted _) = "FeedbackSubmitted"
event_type (outbox_delivered _) = "OutboxDelivered"
event_type (persistence_failed _ _) = "PersistenceFailed"
