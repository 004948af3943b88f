-- ===== src/Models.antt =====
-- lunagentic_research_swarm/models.py: the task statuses, the ledger entry and the formalized task.
use maibot_lunagentic_resear.Prelude.{ℤ, ℕ, String, Bool, true, false, Option}
use maibot_lunagentic_resear.Json.{JsonFields}

pub data TaskStatus : Type 0 where
  formalizing running reporting pausing paused finalizing : TaskStatus
  completed completed_with_errors stopped expired interrupted failed : TaskStatus

pub record FormalizedTask : Type 0 where
  pub text : String
  pub sha256 : String

-- One row of `credit_ledger`; the metadata are kept as the fields that the JSON text encodes.
pub record CreditLedgerEntry : Type 0 where
  pub ledger_id : String
  pub task_id : String
  pub round_id : String
  pub branch_id : Option String
  pub call_id : Option String
  pub entry_kind : String
  pub amount : ℤ
  pub balance_after : Option ℤ
  pub metadata : JsonFields
  pub created_at : ℕ

-- `_TERMINAL_STATUSES` (reducer.py)
abbrev pub is_terminal : TaskStatus → Bool
is_terminal completed = true
is_terminal completed_with_errors = true
is_terminal stopped = true
is_terminal expired = true
is_terminal interrupted = true
is_terminal failed = true
is_terminal _ = false
