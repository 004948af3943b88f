-- ===== src/Epochs/Opening.antt =====
-- lunagentic_research_swarm/runtime/epochs.py: held children are released, and an epoch is opened.
use maibot_lunagentic_resear.Prelude.{
  if◌then◌else◌, is_none, or_default, ℕ, ◌+◌, String, Bool, false, not, Option, none, some, List,
  [], ◌∷◌, ◌++◌,
}
use maibot_lunagentic_resear.Dict.{Dict, lookup, erase}
use maibot_lunagentic_resear.Json.{Json}
use maibot_lunagentic_resear.Commands.{ready, waiting_report_with_checkpoint}
use maibot_lunagentic_resear.Coverage.{intermediate_report}
use maibot_lunagentic_resear.Epochs.{
  EpochBranch, FrontierEntry, ReportEpoch, releases, Coordinator, is_active_branch,
  maybe_start_synthesis, change_branch,
}

-- `_launch_held`
abbrev pub as_resumed : EpochBranch → EpochBranch
as_resumed branch = elim branch.lifecycle [
  | waiting_report_with_checkpoint ↦ record branch { lifecycle = ready }
  | _ ↦ branch
]

unfoldable pub launch_held : String → List Json → Coordinator → Coordinator
launch_held branch_id delegations c =
    let resumed = change_branch as_resumed branch_id c in
    record resumed { calls = resumed.calls ++ releases branch_id delegations ∷ [] }

-- `_release_held`
unfoldable pub launch_all : Dict (List Json) → Coordinator → Coordinator
launch_all [] c = c
launch_all ((branch_id, delegations) ∷ held) c =
    launch_all held (launch_held branch_id delegations c)

unfoldable pub release_held : Coordinator → Coordinator
release_held c = launch_all c.held (record c { held = [] })

-- `_release_held_branch`
unfoldable pub release_held_branch : String → Coordinator → Coordinator
release_held_branch branch_id c = elim (lookup branch_id c.held) [
  | none ↦ change_branch as_resumed branch_id c
  | some delegations ↦
      launch_held branch_id delegations (record c { held = erase branch_id c.held })
]

-- `open_epoch`
abbrev entry_of : EpochBranch → FrontierEntry
entry_of branch = record {
  stable_history = branch.messages;
  checkpoint_requested = not (is_none branch.latest_checkpoint_id);
  checkpoint_summary_id = branch.latest_checkpoint_id;
  terminal_summary_id = none;
  failed = false;
}

-- The code sorts the branches by id, which changes only the order of the entries.
unfoldable pub frontier_of : Dict EpochBranch → Dict FrontierEntry
frontier_of [] = []
frontier_of ((id, branch) ∷ branches) =
    if is_active_branch branch
    then (id, entry_of branch) ∷ frontier_of branches
    else frontier_of branches

abbrev pub is_open : Option ReportEpoch → Bool
is_open none = false
is_open (some epoch) = not epoch.synthesis_finished

abbrev pub next_number : Option ReportEpoch → ℕ
next_number none = 1
next_number (some epoch) = epoch.epoch + 1

abbrev pub with_past : Option ReportEpoch → List ReportEpoch → List ReportEpoch
with_past none past = past
with_past (some epoch) past = past ++ epoch ∷ []

abbrev pub new_epoch : ℕ → ℕ → Coordinator → ReportEpoch
new_epoch at now c = record {
  epoch = at;
  frozen_at = now;
  frontier = frontier_of c.branches;
  kind = intermediate_report;
  grace_deadline_at = now + c.grace_period_seconds;
  synthesis_started = false;
  synthesis_finished = false;
  frozen_coverage = none;
  synthesis_attempts = 0;
}

unfoldable pub open_epoch : Option ℕ → ℕ → Coordinator → Coordinator
open_epoch given now c =
    let epoch = new_epoch (or_default given (next_number c.current_epoch)) now c in
    if is_open c.current_epoch
    then c
    else maybe_start_synthesis epoch (
        release_held (record c {
          current_epoch = some epoch;
          past_epochs = with_past c.current_epoch c.past_epochs;
        }))
