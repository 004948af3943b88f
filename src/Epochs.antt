-- ===== src/Epochs.antt =====
-- lunagentic_research_swarm/runtime/epochs.py: the report epochs of a round. A call runs to its end;
-- what it awaits (the summarizer, the store, the callbacks) is its argument or its log. The synthesis of
-- a report is a task of its own: it is armed here, and Synthesis has its end. The manager never removes a
-- branch, so the KeyError of `_summarize_branch` for a branch of a frontier is left out.
pub mod Opening
pub mod Synthesis
pub mod Turns
pub mod Sound
pub mod Runs
pub mod Retries
pub mod Stuck
use maibot_lunagentic_resear.Prelude.{
  leb, if◌then◌else◌, is_empty, is_none, length, ℕ, suc, String, Bool, true, false, not, ◌&&◌, ◌||◌,
  Option, none, some, List, [], ◌∷◌, ◌++◌,
}
use maibot_lunagentic_resear.Dict.{Dict, lookup, insert}
use maibot_lunagentic_resear.Text.{strip}
use maibot_lunagentic_resear.Json.{Json}
use maibot_lunagentic_resear.Commands.{BranchLifecycle, finalized}
use maibot_lunagentic_resear.Coverage.{
  SummaryKind, ReportKind, CoverageSummary, CoverageSet, has_checkpoint, build_coverage,
  freeze_report_kind,
}

pub record EpochBranch : Type 0 where
  pub messages : List Json
  pub latest_checkpoint_id : Option String
  pub lifecycle : BranchLifecycle

pub record FrontierEntry : Type 0 where
  pub stable_history : List Json
  pub checkpoint_requested : Bool
  pub checkpoint_summary_id : Option String
  pub terminal_summary_id : Option String
  pub failed : Bool

-- `FrontierEntry.ready`
abbrev pub is_ready : FrontierEntry → Bool
is_ready entry =
    not (is_none entry.checkpoint_summary_id)
    || not (is_none entry.terminal_summary_id)
    || entry.failed

pub record ReportEpoch : Type 0 where
  pub epoch : ℕ
  pub frozen_at : ℕ
  pub frontier : Dict FrontierEntry
  pub kind : ReportKind
  pub grace_deadline_at : ℕ
  pub synthesis_started : Bool
  pub synthesis_finished : Bool
  pub frozen_coverage : Option CoverageSet
  pub synthesis_attempts : ℕ

pub data ReportStatus : Type 0 where
  report_degraded report_succeeded report_failed : ReportStatus

pub record ReportRecord : Type 0 where
  pub report_epoch : ℕ
  pub report_kind : ReportKind
  pub report_status : ReportStatus
  pub coverage : CoverageSet
  pub reported_at : ℕ

-- What the coordinator calls, which the manager gives it: `launch_delegation`, with the epoch of the
-- children, `release_held_delegations`, `broadcast_summary` and `on_synthesis_complete`.
pub data CoordinatorCall : Type 0 where
  launches : String → List Json → Option ℕ → CoordinatorCall
  releases : String → List Json → CoordinatorCall
  broadcasts : CoverageSummary → CoordinatorCall
  completes : ReportRecord → CoordinatorCall

-- `epochs` without the current one are `past_epochs`; `tasks` counts `_synthesis_tasks`.
pub record Coordinator : Type 0 where
  pub time_budget_seconds : ℕ
  pub grace_period_seconds : ℕ
  pub branches : Dict EpochBranch
  pub current_epoch : Option ReportEpoch
  pub past_epochs : List ReportEpoch
  pub reports : List ReportRecord
  pub summaries : List CoverageSummary
  pub held : Dict (List Json)
  pub deadline_at : ℕ
  pub tasks : ℕ
  pub calls : List CoordinatorCall

-- What the summarizer answers for a branch, with the new id and the time.
pub record Summarized : Type 0 where
  pub summary_id : String
  pub text : String
  pub success : Bool
  pub created_at : ℕ

abbrev pub is_active_branch : EpochBranch → Bool
is_active_branch branch = elim branch.lifecycle [ finalized ↦ false | _ ↦ true ]

-- `active_branch_ids`
unfoldable pub active_of : Dict EpochBranch → List String
active_of [] = []
active_of ((id, branch) ∷ branches) =
    if is_active_branch branch then id ∷ active_of branches else active_of branches

abbrev pub active_branch_ids : Coordinator → List String
active_branch_ids c = active_of c.branches

-- `all(entry.ready for entry in epoch.frontier.values())`
unfoldable pub all_ready : Dict FrontierEntry → Bool
all_ready [] = true
all_ready ((_, entry) ∷ frontier) = is_ready entry && all_ready frontier

-- `_MAX_SYNTHESIS_ATTEMPTS`
abbrev pub max_synthesis_attempts : ℕ
max_synthesis_attempts = 3

-- `_arm_synthesis_task`: the coverage and the kind are frozen.
abbrev pub armed : CoverageSet → ℕ → ReportEpoch → ReportEpoch
armed coverage active_count epoch = record epoch {
  synthesis_started = true;
  synthesis_attempts = suc epoch.synthesis_attempts;
  kind = freeze_report_kind active_count (has_checkpoint coverage);
  frozen_coverage = some coverage;
}

unfoldable pub arm_synthesis_task : ReportEpoch → Coordinator → Coordinator
arm_synthesis_task epoch c =
    if leb max_synthesis_attempts epoch.synthesis_attempts
    then record c { current_epoch = some epoch }
    else record c {
      current_epoch = some (
          armed (build_coverage c.summaries (active_branch_ids c)) (length (active_branch_ids c))
            epoch);
      tasks = suc c.tasks;
    }

-- `_maybe_start_synthesis`, for the current epoch
unfoldable pub maybe_start_synthesis : ReportEpoch → Coordinator → Coordinator
maybe_start_synthesis epoch c =
    if epoch.synthesis_started || not (all_ready epoch.frontier)
    then record c { current_epoch = some epoch }
    else arm_synthesis_task epoch c

-- `_summarize_branch`: the summary of the branch is kept, and broadcast if there is one.
abbrev pub has_text : Summarized → Bool
has_text result = result.success && not (is_empty (strip result.text))

abbrev pub id_of : Summarized → Option String
id_of result = if has_text result then some result.summary_id else none

abbrev epoch_number : Option ReportEpoch → Option ℕ
epoch_number none = none
epoch_number (some epoch) = some epoch.epoch

abbrev summary_of : String → SummaryKind → Option ReportEpoch → Summarized → CoverageSummary
summary_of branch_id kind current result = record {
  summary_id = result.summary_id;
  branch_id = branch_id;
  kind = kind;
  epoch = epoch_number current;
  text = if has_text result then some result.text else none;
  created_at = result.created_at;
  succeeded = has_text result;
}

unfoldable pub summarize_branch : String → SummaryKind → Summarized → Coordinator → Coordinator
summarize_branch branch_id kind result c =
    let summary = summary_of branch_id kind c.current_epoch result in
    record c {
      summaries = c.summaries ++ summary ∷ [];
      calls = if has_text result then c.calls ++ broadcasts summary ∷ [] else c.calls;
    }

-- `branch.latest_checkpoint_id = summary_id`, if there is a summary.
abbrev pub with_checkpoint : Option String → EpochBranch → EpochBranch
with_checkpoint none branch = branch
with_checkpoint (some id) branch = record branch { latest_checkpoint_id = some id }

unfoldable pub change_branch : (EpochBranch → EpochBranch) → String → Coordinator → Coordinator
change_branch change branch_id c = elim (lookup branch_id c.branches) [
  | none ↦ c
  | some branch ↦ record c { branches = insert branch_id (change branch) c.branches }
]

abbrev pub set_checkpoint : String → Summarized → Coordinator → Coordinator
set_checkpoint branch_id result c = change_branch (with_checkpoint (id_of result)) branch_id c
