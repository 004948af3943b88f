-- ===== src/Epochs/Synthesis.antt =====
-- lunagentic_research_swarm/runtime/epochs.py: how a synthesis ends.
use maibot_lunagentic_resear.Prelude.{
  nat_eq, if◌then◌else◌, or_default, length, ℕ, ◌+◌, ◌-◌, String, Bool, true, false, ◌&&◌, ◌||◌,
  Option, none, some, List, [], ◌∷◌, ◌++◌,
}
use maibot_lunagentic_resear.Coverage.{
  ReportKind, intermediate_report, final_report, CoverageSummary, CoverageSet, has_checkpoint,
  build_coverage, freeze_report_kind,
}
use maibot_lunagentic_resear.Epochs.{
  ReportEpoch, ReportStatus, report_degraded, report_succeeded, report_failed, ReportRecord,
  completes, Coordinator, active_branch_ids, all_ready, arm_synthesis_task,
}
use maibot_lunagentic_resear.Epochs.Opening.{open_epoch}

-- What the task summarizer answers, if it is asked.
abbrev pub synthesis_status : List CoverageSummary → Bool → ReportStatus
synthesis_status [] answered = report_degraded
synthesis_status (_ ∷ []) answered = report_succeeded
synthesis_status (_ ∷ _ ∷ _) answered = if answered then report_succeeded else report_failed

-- The frozen coverage and kind, or those of a caller that comes before they are frozen.
abbrev pub frozen_by : Option CoverageSet → Coordinator → ReportEpoch → ReportEpoch
frozen_by (some coverage) c epoch = record epoch {
  synthesis_started = true;
  frozen_coverage = some coverage;
}
frozen_by none c epoch =
    let coverage = build_coverage c.summaries (active_branch_ids c) in
    record epoch {
      synthesis_started = true;
      frozen_coverage = some coverage;
      kind = freeze_report_kind (length (active_branch_ids c)) (has_checkpoint coverage);
    }

abbrev pub frozen : Coordinator → ReportEpoch → ReportEpoch
frozen c epoch = frozen_by epoch.frozen_coverage c epoch

abbrev pub no_coverage : CoverageSet
no_coverage = record { items = []; unavailable_count = 0 }

abbrev pub record_of : ReportEpoch → Bool → ℕ → ReportRecord
record_of epoch answered now =
    let coverage = or_default epoch.frozen_coverage no_coverage in
    record {
      report_epoch = epoch.epoch;
      report_kind = epoch.kind;
      report_status = synthesis_status coverage.items answered;
      coverage = coverage;
      reported_at = now;
    }

abbrev pub is_intermediate : ReportKind → Bool
is_intermediate intermediate_report = true
is_intermediate final_report = false

abbrev pub has_none : List String → Bool
has_none [] = true
has_none (_ ∷ _) = false

-- The table of reports has UNIQUE(round_id, epoch).
unfoldable pub has_report : ℕ → List ReportRecord → Bool
has_report epoch [] = false
has_report epoch (report ∷ reports) = nat_eq report.report_epoch epoch || has_report epoch reports

-- `synthesize`, once the summarizer has answered: the report is stored and told of.
abbrev pub reported : ReportEpoch → Bool → ℕ → Coordinator → Coordinator
reported epoch answered now c =
    let report = record_of epoch answered now in
    record c {
      reports = c.reports ++ report ∷ [];
      deadline_at = now + c.time_budget_seconds;
      calls = c.calls ++ completes report ∷ [];
    }

abbrev pub completed : ReportEpoch → Bool → ℕ → Coordinator → Coordinator
completed epoch answered now c = record (reported epoch answered now c) {
  current_epoch = some (record epoch { synthesis_finished = true });
}

unfoldable pub synthesize : ReportEpoch → Bool → ℕ → Coordinator → Coordinator
synthesize epoch answered now c =
    if epoch.synthesis_finished
    then c
    else let ended = frozen c epoch in
      if is_intermediate ended.kind && has_none (active_branch_ids c)
      then open_epoch none now (completed ended answered now c)
      else completed ended answered now c

-- `_on_synthesis_done` after an exception or a cancellation
abbrev pub disarmed : ReportEpoch → ReportEpoch
disarmed epoch = record epoch { synthesis_started = false; frozen_coverage = none }

abbrev pub rearm : ReportEpoch → Coordinator → Coordinator
rearm epoch c =
    if epoch.synthesis_finished
    then c
    else if all_ready epoch.frontier
    then arm_synthesis_task (disarmed epoch) c
    else record c { current_epoch = some (disarmed epoch) }

abbrev pub ended_task : Coordinator → Coordinator
ended_task c = record c { tasks = c.tasks - 1 }

-- The end of the task, whose report the table may refuse.
unfoldable pub finish_synthesis : Bool → ℕ → Coordinator → Coordinator
finish_synthesis answered now c = elim c.current_epoch [
  | none ↦ c
  | some epoch ↦
      if has_report epoch.epoch c.reports
      then rearm epoch (ended_task c)
      else synthesize epoch answered now (ended_task c)
]

-- A crash comes before the report is stored, or, with what it was, from `on_synthesis_complete`.
abbrev pub reported_before : Option (Bool × ℕ) → ReportEpoch → Coordinator → Coordinator
reported_before none epoch c = c
reported_before (some (answered, now)) epoch c =
    if has_report epoch.epoch c.reports then c else reported (frozen c epoch) answered now c

unfoldable pub fail_synthesis : Option (Bool × ℕ) → Coordinator → Coordinator
fail_synthesis late c = elim c.current_epoch [
  | none ↦ c
  | some epoch ↦ rearm epoch (reported_before late epoch (ended_task c))
]
