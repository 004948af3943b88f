-- ===== src/Coverage.antt =====
-- lunagentic_research_swarm/reporting.py: which summaries a report covers, and its kind.
use Prim.Native.Nat.{Ordering}
use Prim.Native.String.{compare as compare_text}
pub mod Kinds
pub mod Counts
use maibot_lunagentic_resear.Prelude.{
  ltb, nat_eq, if◌then◌else◌, is_empty, or_default, ℕ, suc, String, Bool, true, false, not, ◌&&◌,
  ◌||◌, Option, none, some, List, [], ◌∷◌, ◌++◌, ◌==◌,
}
use maibot_lunagentic_resear.Dict.{Dict, lookup, contains, insert}
use maibot_lunagentic_resear.Text.{strip}

pub data SummaryKind : Type 0 where
  formalization_summary checkpoint_summary branch_final_summary task_final_summary : SummaryKind

pub data ReportKind : Type 0 where
  intermediate_report final_report : ReportKind

-- A summary of a branch; `status` is told as `succeeded`.
pub record CoverageSummary : Type 0 where
  pub summary_id : String
  pub branch_id : String
  pub kind : SummaryKind
  pub epoch : Option ℕ
  pub text : Option String
  pub created_at : ℕ
  pub succeeded : Bool

abbrev pub is_checkpoint : SummaryKind → Bool
is_checkpoint checkpoint_summary = true
is_checkpoint _ = false

abbrev pub is_branch_final : SummaryKind → Bool
is_branch_final branch_final_summary = true
is_branch_final _ = false

-- `CoverageSummary.terminal` and `CoverageSummary.available`
abbrev pub is_terminal_summary : CoverageSummary → Bool
is_terminal_summary summary = is_branch_final summary.kind

abbrev pub is_available : CoverageSummary → Bool
is_available summary = summary.succeeded && not (is_empty (strip (or_default summary.text "")))

pub record CoverageSet : Type 0 where
  pub items : List CoverageSummary
  pub unavailable_count : ℕ

unfoldable pub any_checkpoint : List CoverageSummary → Bool
any_checkpoint [] = false
any_checkpoint (summary ∷ summaries) = is_checkpoint summary.kind || any_checkpoint summaries

-- `CoverageSet.has_checkpoint`
abbrev pub has_checkpoint : CoverageSet → Bool
has_checkpoint coverage = any_checkpoint coverage.items

-- `sorted(…, key=lambda item: (item.created_at, item.summary_id))`, which is stable
abbrev pub is_no_later : CoverageSummary → CoverageSummary → Bool
is_no_later a b =
    ltb a.created_at b.created_at
    || (nat_eq a.created_at b.created_at
        && elim (compare_text a.summary_id b.summary_id) [ Ordering.gt ↦ false | _ ↦ true ])

unfoldable pub insert_by_time : CoverageSummary → List CoverageSummary → List CoverageSummary
insert_by_time summary [] = summary ∷ []
insert_by_time summary (other ∷ summaries) =
    if is_no_later summary other
    then summary ∷ other ∷ summaries
    else other ∷ insert_by_time summary summaries

unfoldable pub by_time : List CoverageSummary → List CoverageSummary
by_time [] = []
by_time (summary ∷ summaries) = insert_by_time summary (by_time summaries)

unfoldable pub listed : String → List String → Bool
listed name [] = false
listed name (other ∷ names) = other == name || listed name names

unfoldable pub terminal_items : List CoverageSummary → List CoverageSummary
terminal_items [] = []
terminal_items (summary ∷ summaries) =
    if is_terminal_summary summary && is_available summary
    then summary ∷ terminal_items summaries
    else terminal_items summaries

-- `previous is None or (item.created_at, item.summary_id) >= (previous.…)`
abbrev pub replaces : CoverageSummary → Option CoverageSummary → Bool
replaces summary none = true
replaces summary (some previous) = is_no_later previous summary

-- A usable checkpoint of an active branch.
abbrev pub is_candidate : List String → CoverageSummary → Bool
is_candidate active summary =
    listed summary.branch_id active && is_checkpoint summary.kind && is_available summary

abbrev pub with_latest : List String → CoverageSummary → Dict CoverageSummary → Dict CoverageSummary
with_latest active summary latest =
    if is_candidate active summary && replaces summary (lookup summary.branch_id latest)
    then insert summary.branch_id summary latest
    else latest

unfoldable pub latest_checkpoints :
    List String → Dict CoverageSummary → List CoverageSummary → Dict CoverageSummary
latest_checkpoints active latest [] = latest
latest_checkpoints active latest (summary ∷ summaries) =
    latest_checkpoints active (with_latest active summary latest) summaries

unfoldable pub values_of : Dict CoverageSummary → List CoverageSummary
values_of [] = []
values_of ((_, summary) ∷ latest) = summary ∷ values_of latest

-- `sum(1 for branch_id in active if branch_id not in latest)`
unfoldable pub missing : Dict CoverageSummary → List String → ℕ
missing latest [] = 0
missing latest (branch_id ∷ active) =
    if contains branch_id latest then missing latest active else suc (missing latest active)

-- `build_coverage`; `active` is a set, the keys of a dict.
unfoldable pub build_coverage : List CoverageSummary → List String → CoverageSet
build_coverage summaries active =
    let ordered = by_time summaries in
    let latest = latest_checkpoints active [] ordered in
    record {
      items = by_time (terminal_items ordered ++ values_of latest);
      unavailable_count = missing latest active;
    }

-- `freeze_report_kind`
unfoldable pub freeze_report_kind : ℕ → Bool → ReportKind
freeze_report_kind active_branch_count coverage_has_checkpoint =
    if ltb 0 active_branch_count || coverage_has_checkpoint
    then intermediate_report
    else final_report
