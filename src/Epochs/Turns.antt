-- ===== src/Epochs/Turns.antt =====
-- lunagentic_research_swarm/runtime/epochs.py: what a branch's safe point, the end of the grace period
-- and a retired parent do to the current epoch.
use maibot_lunagentic_resear.Prelude.{
  nat_eq, if◌then◌else◌, is_none, ℕ, ◌+◌, String, Bool, true, false, not, ◌&&◌, ◌||◌, Option, none,
  some, List, [], ◌∷◌, ◌++◌,
}
use maibot_lunagentic_resear.Dict.{Dict, lookup, contains, insert}
use maibot_lunagentic_resear.Json.{Json}
use maibot_lunagentic_resear.Commands.{BranchLifecycle, waiting_report_with_checkpoint, finalized}
use maibot_lunagentic_resear.Coverage.{checkpoint_summary, branch_final_summary}
use maibot_lunagentic_resear.Epochs.{
  EpochBranch, FrontierEntry, is_ready, ReportEpoch, launches, Coordinator, Summarized,
  is_active_branch, active_branch_ids, maybe_start_synthesis, id_of, summarize_branch,
  change_branch, set_checkpoint,
}
use maibot_lunagentic_resear.Epochs.Opening.{release_held_branch, open_epoch}

abbrev pub set_lifecycle : BranchLifecycle → EpochBranch → EpochBranch
set_lifecycle lifecycle branch = record branch { lifecycle = lifecycle }

abbrev pub no_branch_is_active : Coordinator → Bool
no_branch_is_active c = elim (active_branch_ids c) [ [] ↦ true | _ ∷ _ ↦ false ]

-- `epoch.frontier[branch_id]` is a new entry.
abbrev pub with_entry : String → FrontierEntry → ReportEpoch → ReportEpoch
with_entry branch_id entry epoch = record epoch { frontier = insert branch_id entry epoch.frontier }

abbrev pub terminal_entry : Option String → FrontierEntry → FrontierEntry
terminal_entry id entry = record entry { terminal_summary_id = id; failed = is_none id }

abbrev pub checkpoint_entry : Option String → FrontierEntry → FrontierEntry
checkpoint_entry id entry = record entry {
  checkpoint_requested = true;
  checkpoint_summary_id = id;
  failed = is_none id;
}

abbrev pub open_if_done : ℕ → ReportEpoch → Coordinator → Coordinator
open_if_done now epoch c =
    if epoch.synthesis_finished && no_branch_is_active c then open_epoch none now c else c

-- With its entry settled an epoch may be ready, or was reported before.
abbrev pub settle_changed : Bool → ℕ → ReportEpoch → Coordinator → Coordinator
settle_changed true now changed c =
    open_if_done now changed (record c { current_epoch = some changed })
settle_changed false now changed c = maybe_start_synthesis changed c

-- A terminal return, after its summary: the entry of the frontier, if there is one.
abbrev pub settle_entry :
    ℕ → String → Option String → ReportEpoch → Option FrontierEntry → Coordinator → Coordinator
settle_entry now branch_id id epoch none c = open_if_done now epoch c
settle_entry now branch_id id epoch (some entry) c =
    settle_changed epoch.synthesis_finished now
      (with_entry branch_id (terminal_entry id entry) epoch) c

unfoldable pub terminal_return : ℕ → String → Summarized → Coordinator → Coordinator
terminal_return now branch_id result c =
    let ended =
      change_branch (set_lifecycle finalized) branch_id
        (summarize_branch branch_id branch_final_summary result c) in
    elim c.current_epoch [
      | none ↦ open_epoch none now ended
      | some epoch ↦
          settle_entry now branch_id (id_of result) epoch (lookup branch_id epoch.frontier) ended
    ]

-- `_all_active_checkpointed`
unfoldable pub are_checkpointed : Dict EpochBranch → Bool
are_checkpointed [] = true
are_checkpointed ((_, branch) ∷ branches) =
    (not (is_active_branch branch) || not (is_none branch.latest_checkpoint_id))
    && are_checkpointed branches

-- The entry of a frontier that is still open.
abbrev pub open_entry : String → Option ReportEpoch → Option FrontierEntry
open_entry branch_id none = none
open_entry branch_id (some epoch) =
    if epoch.synthesis_finished then none else lookup branch_id epoch.frontier

-- A summary for an entry of the current epoch.
abbrev pub checkpointed_epoch : String → Option String → FrontierEntry → ReportEpoch → ReportEpoch
checkpointed_epoch branch_id id entry epoch = with_entry branch_id (checkpoint_entry id entry) epoch

abbrev pub on_epoch : (ReportEpoch → Coordinator) → Option ReportEpoch → Coordinator → Coordinator
on_epoch act none c = c
on_epoch act (some epoch) c = act epoch

unfoldable pub checkpoint_return : ℕ → String → List Json → Summarized → Coordinator → Coordinator
checkpoint_return now branch_id delegations result c =
    let waiting =
      change_branch (set_lifecycle waiting_report_with_checkpoint) branch_id (
        set_checkpoint branch_id result (summarize_branch branch_id checkpoint_summary result c)) in
    let holding = record waiting { held = insert branch_id delegations waiting.held } in
    elim (open_entry branch_id c.current_epoch) [
      | some entry ↦ release_held_branch branch_id (
          on_epoch
            (λ epoch.
              maybe_start_synthesis (checkpointed_epoch branch_id (id_of result) entry epoch)
                holding)
            c.current_epoch holding)
      | none ↦
          if not (no_branch_is_active holding) && are_checkpointed holding.branches
          then open_epoch none now holding
          else holding
    ]

-- `_launch`
abbrev pub launched_for : Option ℕ → String → List Json → Coordinator → Coordinator
launched_for epoch branch_id delegations c = record c {
  calls = c.calls ++ launches branch_id delegations epoch ∷ [];
}

abbrev pub next_epoch_of : Option ReportEpoch → Option ℕ
next_epoch_of none = none
next_epoch_of (some epoch) = some (epoch.epoch + 1)

unfoldable pub plain_return : String → List Json → Summarized → Coordinator → Coordinator
plain_return branch_id delegations result c = elim (open_entry branch_id c.current_epoch) [
  | none ↦ launched_for none branch_id delegations c
  | some entry ↦
      let summarized = set_checkpoint branch_id result (
        summarize_branch branch_id checkpoint_summary result
          (launched_for (next_epoch_of c.current_epoch) branch_id delegations c)) in
      on_epoch
        (λ epoch.
          maybe_start_synthesis (checkpointed_epoch branch_id (id_of result) entry epoch)
            summarized)
        c.current_epoch summarized
]

-- How a turn has ended.
pub data TurnEnd : Type 0 where
  terminal_turn checkpoint_turn plain_turn : TurnEnd

abbrev pub turn_end : TurnEnd → ℕ → String → List Json → Summarized → Coordinator → Coordinator
turn_end terminal_turn now branch_id delegations result c = terminal_return now branch_id result c
turn_end checkpoint_turn now branch_id delegations result c =
    checkpoint_return now branch_id delegations result c
turn_end plain_turn now branch_id delegations result c = plain_return branch_id delegations result c

-- `on_branch_safe_point`; an unknown branch raises a KeyError.
unfoldable pub on_branch_safe_point :
    TurnEnd → ℕ → String → List Json → Summarized → Coordinator → Coordinator
on_branch_safe_point how now branch_id delegations result c =
    if contains branch_id c.branches then turn_end how now branch_id delegations result c else c

-- The loop of `on_grace_expired`: each entry that is not ready is summarized from its frozen history.
unfoldable pub summarize_late : (String → Summarized) → Dict FrontierEntry → Dict FrontierEntry
summarize_late results [] = []
summarize_late results ((branch_id, entry) ∷ frontier) =
    (
      branch_id,
      if is_ready entry then entry else checkpoint_entry (id_of (results branch_id)) entry,
    )
    ∷ summarize_late results frontier

unfoldable pub record_late : (String → Summarized) → Dict FrontierEntry → Coordinator → Coordinator
record_late results [] c = c
record_late results ((branch_id, entry) ∷ frontier) c = record_late results frontier (
    if is_ready entry
    then c
    else set_checkpoint branch_id (results branch_id)
        (summarize_branch branch_id checkpoint_summary (results branch_id) c))

abbrev pub is_other_epoch : Option ℕ → ReportEpoch → Bool
is_other_epoch none epoch = false
is_other_epoch (some given) epoch = not (nat_eq epoch.epoch given)

abbrev pub end_grace :
    Option ℕ → (String → Summarized) → Option ReportEpoch → Coordinator → Coordinator
end_grace given results none c = c
end_grace given results (some epoch) c =
    if is_other_epoch given epoch
    then c
    else maybe_start_synthesis (record epoch { frontier = summarize_late results epoch.frontier })
        (record_late results epoch.frontier c)

unfoldable pub on_grace_expired : Option ℕ → (String → Summarized) → Coordinator → Coordinator
on_grace_expired given results c = end_grace given results c.current_epoch c

abbrev pub retire_entry :
    String → Summarized → ReportEpoch → FrontierEntry → Coordinator → Coordinator
retire_entry branch_id result epoch entry c =
    if is_ready entry
    then c
    else maybe_start_synthesis (checkpointed_epoch branch_id (id_of result) entry epoch)
        (set_checkpoint branch_id result (summarize_branch branch_id checkpoint_summary result c))

-- `on_parent_retired`
unfoldable pub on_parent_retired : String → Summarized → Coordinator → Coordinator
on_parent_retired branch_id result c =
    let ended = change_branch (set_lifecycle finalized) branch_id c in
    elim (open_entry branch_id c.current_epoch) [
      | none ↦ ended
      | some entry ↦
          on_epoch (λ epoch. retire_entry branch_id result epoch entry ended) c.current_epoch ended
    ]
