-- ===== src/Tests/Reports.antt =====
-- A branch that is late for a report, and the report that is made without it.
use maibot_lunagentic_resear.Prelude.{
  ℕ, ◌<◌, String, ◌≡◌, refl, ◌↔◌, ◌⊎◌, Bool, true, false, Option, none, some, List, [], ◌∷◌, arith,
}
use maibot_lunagentic_resear.Dict.{lookup, insert}
use maibot_lunagentic_resear.Text.{strip_left, strip_right, strip}
use maibot_lunagentic_resear.Commands.{in_flight}
use maibot_lunagentic_resear.Coverage.{
  checkpoint_summary, branch_final_summary, final_report, CoverageSummary, CoverageSet,
  has_checkpoint, insert_by_time, by_time, listed, terminal_items, latest_checkpoints, values_of,
  missing, build_coverage, freeze_report_kind,
}
use maibot_lunagentic_resear.Coverage.Kinds.{freeze_report_kind-build_coverage}
use maibot_lunagentic_resear.Coverage.Counts.{without_checkpoint, build_coverage-unavailable}
use maibot_lunagentic_resear.Epochs.{
  EpochBranch, ReportEpoch, Coordinator, Summarized, all_ready, max_synthesis_attempts,
  arm_synthesis_task, maybe_start_synthesis, summarize_branch, change_branch,
}
use maibot_lunagentic_resear.Epochs.Opening.{
  launch_all, release_held, frontier_of, new_epoch, open_epoch,
}
use maibot_lunagentic_resear.Epochs.Synthesis.{has_report, finish_synthesis, fail_synthesis}
use maibot_lunagentic_resear.Epochs.Turns.{summarize_late, record_late, on_grace_expired}
use maibot_lunagentic_resear.Epochs.Sound.{IsSound}
use maibot_lunagentic_resear.Epochs.Runs.{
  opens_epoch, ends_grace, reports_epoch, new_coordinator, CoordinatorRun, starts, continues,
  CoordinatorRun-IsSound, on_grace_expired-starts,
}
use maibot_lunagentic_resear.Epochs.Retries.{crash_times, crash_times-gives_up}
use maibot_lunagentic_resear.Epochs.Stuck.{IsStuckEpoch}
use maibot_lunagentic_resear.Epochs.Stuck.Forever.{stays, moves_on, fail_synthesis-forever}

abbrev busy_branch : EpochBranch
busy_branch = record { messages = []; latest_checkpoint_id = none; lifecycle = in_flight }

abbrev new_round : Coordinator
new_round = new_coordinator 0 120 60 (("b1", busy_branch) ∷ [])

-- The summarizer fails for the branch that is late.
abbrev no_summary : String → Summarized
no_summary branch_id = record { summary_id = "sum_1"; text = ""; success = false; created_at = 180 }

abbrev opened : Coordinator
opened = open_epoch none 120 new_round

abbrev after_grace : Coordinator
after_grace = on_grace_expired none no_summary opened

opened_run : CoordinatorRun opened
opened_run = continues (starts 0 120 60 (("b1", busy_branch) ∷ [])) (opens_epoch none 120)

grace_run : CoordinatorRun after_grace
grace_run = continues opened_run (ends_grace none no_summary)

synthesis_runs : 0 < after_grace.tasks
unfolding on_grace_expired open_epoch maybe_start_synthesis arm_synthesis_task all_ready frontier_of
    release_held launch_all summarize_late record_late summarize_branch change_branch lookup
synthesis_runs = omega arith

CoordinatorRun-IsSound_example : IsSound (finish_synthesis true 190 after_grace)
CoordinatorRun-IsSound_example =
    CoordinatorRun-IsSound (continues grace_run (reports_epoch true 190 synthesis_runs))

abbrev opened_at : ReportEpoch
opened_at = new_epoch 1 120 new_round

opens_at : opened.current_epoch ≡ some opened_at
unfolding open_epoch maybe_start_synthesis arm_synthesis_task all_ready frontier_of release_held
    launch_all
opens_at = refl

on_grace_expired-starts_example :
    (after : ReportEpoch) × (after_grace.current_epoch ≡ some after)
    × (all_ready after.frontier ≡ true)
    × ((after.synthesis_started ≡ true) ⊎ (after.synthesis_attempts ≡ max_synthesis_attempts))
on_grace_expired-starts_example = on_grace_expired-starts no_summary opened_at opened_run opens_at

-- The first crash comes after the report is stored, so the table refuses the others.
abbrev crashes : List (Option (Bool × ℕ))
crashes = some (true, 190) ∷ none ∷ none ∷ []

crash_times-gives_up_example : (crash_times crashes after_grace).tasks ≡ 0
crash_times-gives_up_example = crash_times-gives_up crashes grace_run (omega arith)

-- The report is stored, the callback raises, and the next attempt is refused.
abbrev late_crash : Coordinator
late_crash = fail_synthesis (some (true, 190)) after_grace

retry_runs : 0 < late_crash.tasks
unfolding fail_synthesis has_report on_grace_expired open_epoch maybe_start_synthesis
    arm_synthesis_task all_ready frontier_of release_held launch_all summarize_late record_late
    summarize_branch change_branch lookup
retry_runs = omega arith

fail_synthesis-forever_example :
    ((finish_synthesis true 200 late_crash).reports ≡ late_crash.reports)
    × IsStuckEpoch late_crash.reports (finish_synthesis true 200 late_crash).current_epoch
fail_synthesis-forever_example =
    fail_synthesis-forever true 190 grace_run synthesis_runs
      (moves_on stays (reports_epoch true 200 retry_runs))

abbrev first_checkpoint : CoverageSummary
first_checkpoint = record {
  summary_id = "sum_2";
  branch_id = "b1";
  kind = checkpoint_summary;
  epoch = some 1;
  text = some "so far";
  created_at = 100;
  succeeded = true;
}

abbrev last_summary : CoverageSummary
last_summary = record first_checkpoint {
  summary_id = "sum_3";
  branch_id = "b2";
  kind = branch_final_summary;
  created_at = 90;
}

abbrev live_branches : List String
live_branches = "b1" ∷ "b3" ∷ []

abbrev both_covered : CoverageSet
both_covered = record { items = last_summary ∷ first_checkpoint ∷ []; unavailable_count = 1 }

-- The checkpoint and the final summary are covered, the third branch has nothing.
coverage_is : build_coverage (first_checkpoint ∷ last_summary ∷ []) live_branches ≡ both_covered
unfolding build_coverage by_time insert_by_time terminal_items latest_checkpoints values_of missing
    listed lookup insert strip strip_right strip_left
coverage_is = refl

freeze_report_kind-build_coverage_example :
    (freeze_report_kind 2
        (has_checkpoint (build_coverage (first_checkpoint ∷ last_summary ∷ []) live_branches))
      ≡ final_report)
    ↔ (live_branches ≡ [])
freeze_report_kind-build_coverage_example =
    freeze_report_kind-build_coverage (first_checkpoint ∷ last_summary ∷ []) live_branches

build_coverage-unavailable_example :
    (build_coverage (first_checkpoint ∷ last_summary ∷ []) live_branches).unavailable_count
    ≡ without_checkpoint (first_checkpoint ∷ last_summary ∷ []) live_branches
build_coverage-unavailable_example =
    build_coverage-unavailable (first_checkpoint ∷ last_summary ∷ []) live_branches
