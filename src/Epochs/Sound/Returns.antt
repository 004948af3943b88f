-- ===== src/Epochs/Sound/Returns.antt =====
-- The safe points of branches keep the coordinator sound.
use maibot_lunagentic_resear.Prelude.{
  if◌then◌else◌, ℕ, String, ◌≡◌, refl, Bool, true, false, not, ◌&&◌, Option, none, some, List,
  arith,
}
use maibot_lunagentic_resear.Dict.{lookup, contains, insert, erase}
use maibot_lunagentic_resear.Json.{Json}
use maibot_lunagentic_resear.Commands.{waiting_report_with_checkpoint, finalized}
use maibot_lunagentic_resear.Coverage.{SummaryKind, checkpoint_summary, branch_final_summary}
use maibot_lunagentic_resear.Epochs.{
  FrontierEntry, ReportEpoch, Coordinator, Summarized, maybe_start_synthesis, id_of,
  summarize_branch, with_checkpoint, change_branch, set_checkpoint,
}
use maibot_lunagentic_resear.Epochs.Opening.{
  as_resumed, launch_held, release_held_branch, open_epoch,
}
use maibot_lunagentic_resear.Epochs.Turns.{
  set_lifecycle, no_branch_is_active, checkpoint_entry, settle_entry, terminal_return,
  are_checkpointed, open_entry, checkpointed_epoch, on_epoch, checkpoint_return, launched_for,
  next_epoch_of, plain_return, TurnEnd, terminal_turn, checkpoint_turn, plain_turn, turn_end,
  on_branch_safe_point,
}
use maibot_lunagentic_resear.Epochs.Sound.{
  IsSound, Frame, summarize_branch-Frame, change_branch-Frame, Frame-trans, launch_held-Frame,
}
use maibot_lunagentic_resear.Epochs.Sound.Kept.{
  rest_of, Frame-IsSound, current_of, start-IsSound, open_epoch-IsSound, with_entry-IsSoundEpoch,
  settle_entry-IsSound,
}

-- A summary that is kept, and the branch's checkpoint.
pub set_checkpoint-Frame :
    (branch_id : String) (kind : SummaryKind) (result : Summarized) (c : Coordinator)
    → Frame c (set_checkpoint branch_id result (summarize_branch branch_id kind result c))
set_checkpoint-Frame branch_id kind result c =
    Frame-trans (summarize_branch-Frame c branch_id kind result) (
      change_branch-Frame (summarize_branch branch_id kind result c)
        (with_checkpoint (id_of result)) branch_id)

terminal_return-IsSound :
    (now : ℕ) (branch_id : String) (result : Summarized) (c : Coordinator)
    → IsSound c
    → IsSound (terminal_return now branch_id result c)
unfolding terminal_return
terminal_return-IsSound now branch_id result c s = go c.current_epoch refl
  where
    ended : Coordinator
    ended =
        change_branch (set_lifecycle finalized) branch_id
          (summarize_branch branch_id branch_final_summary result c)

    f : Frame c ended
    f = Frame-trans (summarize_branch-Frame c branch_id branch_final_summary result) (
        change_branch-Frame (summarize_branch branch_id branch_final_summary result c)
          (set_lifecycle finalized) branch_id)

    go :
        (current : Option ReportEpoch)
        → c.current_epoch ≡ current
        → IsSound (elim current [
          | none ↦ open_epoch none now ended
          | some epoch ↦
              settle_entry now branch_id
                (id_of result)
                epoch
                (lookup branch_id epoch.frontier)
                ended
        ])
    go none e = open_epoch-IsSound none now ended (Frame-IsSound f s)
    go (some epoch) e =
        settle_entry-IsSound now branch_id (id_of result) epoch (lookup branch_id epoch.frontier) f
          e s

pub release_held_branch-Frame :
    (branch_id : String) (c : Coordinator) → Frame c (release_held_branch branch_id c)
unfolding release_held_branch
release_held_branch-Frame branch_id c = go (lookup branch_id c.held)
  where
    go :
        (found : Option (List Json))
        → Frame c (elim found [
          | none ↦ change_branch as_resumed branch_id c
          | some delegations ↦
              launch_held branch_id delegations (record c { held = erase branch_id c.held })
        ])
    go none = change_branch-Frame c as_resumed branch_id
    go (some delegations) =
        let f =
          launch_held-Frame branch_id delegations (record c { held = erase branch_id c.held }) in
        record {
          same_epoch = f.same_epoch;
          same_tasks = f.same_tasks;
          same_past = f.same_past;
          same_reports = f.same_reports;
        }

-- A checkpoint of an entry of the current epoch.
checkpointed-IsSound :
    {c after : Coordinator} (branch_id : String) (result : Summarized) (entry : FrontierEntry)
    → Frame c after
    → IsSound c
    → IsSound (
        on_epoch
          (λ epoch.
            maybe_start_synthesis (checkpointed_epoch branch_id (id_of result) entry epoch) after)
          c.current_epoch
          after)
checkpointed-IsSound {c} {after} branch_id result entry f s = go c.current_epoch refl
  where
    go :
        (current : Option ReportEpoch)
        → c.current_epoch ≡ current
        → IsSound (
            on_epoch
              (λ epoch.
                maybe_start_synthesis
                  (checkpointed_epoch branch_id (id_of result) entry epoch)
                  after)
              current
              after)
    go none e = Frame-IsSound f s
    go (some epoch) e =
        start-IsSound (checkpointed_epoch branch_id (id_of result) entry epoch) f
          (with_entry-IsSoundEpoch branch_id (checkpoint_entry (id_of result) entry) epoch c.tasks
            (ground arith) (current_of epoch e s).0)
          (rest_of s)

checkpoint_return-IsSound :
    (now : ℕ) (branch_id : String) (delegations : List Json) (result : Summarized) (c : Coordinator)
    → IsSound c
    → IsSound (checkpoint_return now branch_id delegations result c)
unfolding checkpoint_return
checkpoint_return-IsSound now branch_id delegations result c s =
    go (open_entry branch_id c.current_epoch)
  where
    noted : Coordinator
    noted = set_checkpoint branch_id result (summarize_branch branch_id checkpoint_summary result c)

    waiting : Coordinator
    waiting = change_branch (set_lifecycle waiting_report_with_checkpoint) branch_id noted

    holding : Coordinator
    holding = record waiting { held = insert branch_id delegations waiting.held }

    f : Frame c holding
    f =
        let g =
          Frame-trans (set_checkpoint-Frame branch_id checkpoint_summary result c)
            (change_branch-Frame noted (set_lifecycle waiting_report_with_checkpoint) branch_id) in
        record {
          same_epoch = g.same_epoch;
          same_tasks = g.same_tasks;
          same_past = g.same_past;
          same_reports = g.same_reports;
        }

    open_early : (opens : Bool) → IsSound (if opens then open_epoch none now holding else holding)
    open_early true = open_epoch-IsSound none now holding (Frame-IsSound f s)
    open_early false = Frame-IsSound f s

    go :
        (found : Option FrontierEntry)
        → IsSound (elim found [
          | some entry ↦ release_held_branch branch_id (
              on_epoch
                (λ epoch.
                  maybe_start_synthesis
                    (checkpointed_epoch branch_id (id_of result) entry epoch)
                    holding)
                c.current_epoch
                holding)
          | none ↦
              if not (no_branch_is_active holding) && are_checkpointed holding.branches
              then open_epoch none now holding
              else holding
        ])
    go none = open_early (not (no_branch_is_active holding) && are_checkpointed holding.branches)
    go (some entry) =
        Frame-IsSound (release_held_branch-Frame branch_id _)
          (checkpointed-IsSound branch_id result entry f s)

pub launched_for-Frame :
    (epoch : Option ℕ) (branch_id : String) (delegations : List Json) (c : Coordinator)
    → Frame c (launched_for epoch branch_id delegations c)
launched_for-Frame epoch branch_id delegations c = record {
  same_epoch = refl;
  same_tasks = refl;
  same_past = refl;
  same_reports = refl;
}

plain_return-IsSound :
    (branch_id : String) (delegations : List Json) (result : Summarized) (c : Coordinator)
    → IsSound c
    → IsSound (plain_return branch_id delegations result c)
unfolding plain_return
plain_return-IsSound branch_id delegations result c s = go (open_entry branch_id c.current_epoch)
  where
    launched : Coordinator
    launched = launched_for (next_epoch_of c.current_epoch) branch_id delegations c

    summarized : Coordinator
    summarized =
        set_checkpoint branch_id result
          (summarize_branch branch_id checkpoint_summary result launched)

    go :
        (found : Option FrontierEntry)
        → IsSound (elim found [
          | none ↦ launched_for none branch_id delegations c
          | some entry ↦
              on_epoch
                (λ epoch.
                  maybe_start_synthesis
                    (checkpointed_epoch branch_id (id_of result) entry epoch)
                    summarized)
                c.current_epoch
                summarized
        ])
    go none = Frame-IsSound (launched_for-Frame none branch_id delegations c) s
    go (some entry) =
        checkpointed-IsSound branch_id result entry
          (Frame-trans (launched_for-Frame (next_epoch_of c.current_epoch) branch_id delegations c)
            (set_checkpoint-Frame branch_id checkpoint_summary result launched))
          s

pub on_branch_safe_point-IsSound :
    (how : TurnEnd) (now : ℕ) (branch_id : String) (delegations : List Json) (result : Summarized)
    (c : Coordinator)
    → IsSound c
    → IsSound (on_branch_safe_point how now branch_id delegations result c)
unfolding on_branch_safe_point
on_branch_safe_point-IsSound how now branch_id delegations result c s =
    go (contains branch_id c.branches) how
  where
    go :
        (known : Bool) (how : TurnEnd)
        → IsSound (if known then turn_end how now branch_id delegations result c else c)
    go false how = s
    go true terminal_turn = terminal_return-IsSound now branch_id result c s
    go true checkpoint_turn = checkpoint_return-IsSound now branch_id delegations result c s
    go true plain_turn = plain_return-IsSound branch_id delegations result c s
