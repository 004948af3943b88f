-- ===== src/Commands.antt =====
-- lunagentic_research_swarm/storage/sqlite.py: the store commands that the runtime emits, one
-- constructor for each kind, with the values that the code gives it.
use maibot_lunagentic_resear.Prelude.{ℤ, pos, ◌+ℤ◌, ℕ, String, Bool, Option, List, [], ◌∷◌}
use maibot_lunagentic_resear.Json.{JsonFields}
use maibot_lunagentic_resear.Models.{TaskStatus, CreditLedgerEntry}

-- A row of `llm_usage`.
pub record LlmUsage : Type 0 where
  pub usage_id : String
  pub task_id : String
  pub round_id : String
  pub branch_id : Option String
  pub call_id : String
  pub role : String
  pub selector : String
  pub estimated_model_name : Option String
  pub actual_model_name : Option String
  pub price_source : String
  pub price_fingerprint : String
  pub prompt_tokens : ℤ
  pub completion_tokens : ℤ
  pub cache_hit_tokens : ℤ
  pub cache_miss_tokens : ℤ
  pub estimated_charge : ℤ
  pub actual_charge : Option ℤ
  pub adjustment : Option ℤ
  pub reconciliation_status : String
  pub duration_ms : ℤ
  pub created_at : ℕ

pub record RoundStatus : Type 0 where
  pub round_id : String
  pub status : TaskStatus
  pub report_deadline_at : Option ℕ
  pub ended_at : Option ℕ

-- A row of `lifecycle_events`, without the text of its metadata.
pub record LifecycleEvent : Type 0 where
  pub event_id : String
  pub task_id : String
  pub round_id : String
  pub event_type : String
  pub from_status : TaskStatus
  pub to_status : TaskStatus
  pub created_at : ℕ

pub record RoundContinuation : Type 0 where
  pub round_id : String
  pub credit_pool : ℤ
  pub time_budget_seconds : ℕ
  pub report_deadline_at : Option ℕ

pub record NewRound : Type 0 where
  pub round_id : String
  pub task_id : String
  pub round_number : ℕ
  pub generation : ℕ
  pub status : TaskStatus
  pub time_budget_seconds : ℕ
  pub grace_period_seconds : ℕ
  pub credit_pool : ℤ
  pub catalog_fingerprint : Option String
  pub started_at : ℕ
  pub report_deadline_at : Option ℕ
  pub ended_at : Option ℕ

pub record ProcedureCall : Type 0 where
  pub request_id : String
  pub task_id : String
  pub round_id : String
  pub branch_id : String
  pub turn_id : String
  pub agent_id : String
  pub procedure_id : String
  pub provider_plugin_id : String
  pub succeeded : Bool
  pub duration_ms : ℤ
  pub error_code : Option String
  pub provenance : JsonFields
  pub external_cost : Option JsonFields
  pub created_at : ℕ

pub data BranchLifecycle : Type 0 where
  ready waiting_report_with_checkpoint finalized : BranchLifecycle
  in_flight waiting_procedures branch_paused branch_finalizing : BranchLifecycle

pub record NewBranch : Type 0 where
  pub branch_id : String
  pub round_id : String
  pub parent_branch_id : String
  pub agent_id : String
  pub lifecycle : BranchLifecycle
  pub depth : ℤ
  pub credit_balance : ℤ
  pub generation : ℕ
  pub created_at : ℕ

pub data StoreCommand : Type 0 where
  insert_llm_usage : LlmUsage → StoreCommand
  insert_credit_ledger : CreditLedgerEntry → StoreCommand
  update_round_status : RoundStatus → StoreCommand
  insert_lifecycle_event : LifecycleEvent → StoreCommand
  -- task, text, sha256 and time
  update_task_formalization : String → String → String → ℕ → StoreCommand
  update_round_continuation : RoundContinuation → StoreCommand
  -- branch, balance and lifecycle
  update_branch_balance : String → ℤ → BranchLifecycle → StoreCommand
  insert_round : NewRound → StoreCommand
  -- task, round number and time
  set_task_current_round : String → ℕ → ℕ → StoreCommand
  -- round and generation
  update_round_generation : String → ℕ → StoreCommand
  insert_procedure_call : ProcedureCall → StoreCommand
  insert_branch : NewBranch → StoreCommand
  -- round, branch, amount returned to the pool, lifecycle and time
  settle_delegating_parent : String → String → ℤ → BranchLifecycle → ℕ → StoreCommand
  -- round, branch, balance, lifecycle and time
  settle_branch : String → String → ℤ → BranchLifecycle → ℕ → StoreCommand

-- What a command books in the credit ledger.
abbrev pub ledger_amount : StoreCommand → ℤ
ledger_amount (insert_credit_ledger entry) = entry.amount
ledger_amount _ = pos 0

unfoldable pub ledger_total : List StoreCommand → ℤ
ledger_total [] = pos 0
ledger_total (command ∷ commands) = ledger_amount command +ℤ ledger_total commands
