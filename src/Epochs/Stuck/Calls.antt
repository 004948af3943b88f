-- ===== src/Epochs/Stuck/Calls.antt =====
-- No call of the coordinator, and no end of a task, frees an epoch that is stuck.
use maibot_lunagentic_resear.Prelude.{
  if◌then◌else◌, Bool-cases, ℕ, String, ◌≡◌, ◌∙◌, inl, inr, Bool, true, false, not, ◌&&◌, Option,
  none, some, List, arith,
}
use maibot_lunagentic_resear.Dict.{Dict, lookup, contains, insert}
use maibot_lunagentic_resear.Json.{Json}
use maibot_lunagentic_resear.Commands.{waiting_report_with_checkpoint, finalized}
use maibot_lunagentic_resear.Coverage.{checkpoint_summary, branch_final_summary}
use maibot_lunagentic_resear.Epochs.{
  FrontierEntry, is_ready, ReportEpoch, ReportRecord, Coordinator, Summarized,
  maybe_start_synthesis, id_of, summarize_branch, change_branch, set_checkpoint,
}
use maibot_lunagentic_resear.Epochs.Opening.{release_held_branch, open_epoch}
use maibot_lunagentic_resear.Epochs.Turns.{
  set_lifecycle, no_branch_is_active, terminal_entry, checkpoint_entry, open_if_done,
  settle_changed, settle_entry, terminal_return, are_checkpointed, open_entry, checkpointed_epoch,
  on_epoch, checkpoint_return, launched_for, next_epoch_of, plain_return, TurnEnd, terminal_turn,
  checkpoint_turn, plain_turn, turn_end, on_branch_safe_point, summarize_late, record_late,
  is_other_epoch, end_grace, on_grace_expired, retire_entry, on_parent_retired,
}
use maibot_lunagentic_resear.Epochs.Sound.{
  Frame, summarize_branch-Frame, change_branch-Frame, Frame-trans,
}
use maibot_lunagentic_resear.Epochs.Sound.Returns.{
  set_checkpoint-Frame, release_held_branch-Frame, launched_for-Frame,
}
use maibot_lunagentic_resear.Epochs.Sound.Grace.{record_late-Frame}
use maibot_lunagentic_resear.Epochs.Runs.{
  CoordinatorStep, turns, opens_epoch, ends_grace, retires, reports_epoch, fails_synthesis,
  changes_branches,
}
use maibot_lunagentic_resear.Epochs.Stuck.{
  IsStuckEpoch, IsStuck, Frame-IsStuck, maybe_start_synthesis-IsStuck, open_epoch-IsStuck,
  finish_synthesis-IsStuck, fail_synthesis-IsStuck,
}

module _ (reports : List ReportRecord) where
  -- The current epoch with another frontier, after calls that leave the rest alone.
  changed-IsStuck :
      {c after : Coordinator} (frontier : Dict FrontierEntry) (epoch : ReportEpoch)
      → Frame c after
      → IsStuck reports c
      → IsStuckEpoch reports (some epoch)
      → IsStuck reports (maybe_start_synthesis (record epoch { frontier = frontier }) after)
  changed-IsStuck {after = after} frontier epoch f s stuck =
      maybe_start_synthesis-IsStuck reports (record epoch { frontier = frontier }) after
        (f.same_reports ∙ s.0) stuck

  open_if_done-IsStuck :
      (now : ℕ) (epoch : ReportEpoch) (c : Coordinator)
      → IsStuck reports c
      → IsStuck reports (open_if_done now epoch c)
  open_if_done-IsStuck now epoch c s =
      elim (Bool-cases (epoch.synthesis_finished && no_branch_is_active c)) [
        | inl e ↦ rw e (open_epoch-IsStuck reports none now c s)
        | inr e ↦ rw e s
      ]

  settle_changed-IsStuck :
      {c after : Coordinator} (finished : Bool) (now : ℕ) (frontier : Dict FrontierEntry)
      (epoch : ReportEpoch)
      → finished ≡ false
      → Frame c after
      → IsStuck reports c
      → IsStuckEpoch reports (some epoch)
      → IsStuck reports (settle_changed finished now (record epoch { frontier = frontier }) after)
  settle_changed-IsStuck true now frontier epoch h f s stuck = absurd (ground (arith, h))
  settle_changed-IsStuck false now frontier epoch h f s stuck =
      changed-IsStuck frontier epoch f s stuck

  terminal_return-IsStuck :
      (now : ℕ) (branch_id : String) (result : Summarized) (c : Coordinator)
      → IsStuck reports c
      → IsStuck reports (terminal_return now branch_id result c)
  unfolding terminal_return
  terminal_return-IsStuck now branch_id result c s = go c.current_epoch s.1
    where
      summarized : Coordinator
      summarized = summarize_branch branch_id branch_final_summary result c

      ended : Coordinator
      ended = change_branch (set_lifecycle finalized) branch_id summarized

      f : Frame c ended
      f =
          Frame-trans (summarize_branch-Frame c branch_id branch_final_summary result)
            (change_branch-Frame summarized (set_lifecycle finalized) branch_id)

      settles :
          (epoch : ReportEpoch) (entry : Option FrontierEntry)
          → IsStuckEpoch reports (some epoch)
          → IsStuck reports (settle_entry now branch_id (id_of result) epoch entry ended)
      settles epoch none stuck = open_if_done-IsStuck now epoch ended (Frame-IsStuck reports f s)
      settles epoch (some entry) stuck =
          settle_changed-IsStuck epoch.synthesis_finished now
            (insert branch_id (terminal_entry (id_of result) entry) epoch.frontier) epoch stuck.0 f
            s stuck

      go :
          (current : Option ReportEpoch)
          → IsStuckEpoch reports current
          → IsStuck reports (elim current [
            | none ↦ open_epoch none now ended
            | some epoch ↦
                settle_entry now branch_id
                  (id_of result)
                  epoch
                  (lookup branch_id epoch.frontier)
                  ended
          ])
      go none stuck = absurd stuck
      go (some epoch) stuck = settles epoch (lookup branch_id epoch.frontier) stuck

  checkpointed-IsStuck :
      {c after : Coordinator} (branch_id : String) (result : Summarized) (entry : FrontierEntry)
      (current : Option ReportEpoch)
      → Frame c after
      → IsStuck reports c
      → IsStuckEpoch reports current
      → IsStuck reports (
          on_epoch
            (λ epoch.
              maybe_start_synthesis (checkpointed_epoch branch_id (id_of result) entry epoch) after)
            current
            after)
  checkpointed-IsStuck branch_id result entry none f s stuck = absurd stuck
  checkpointed-IsStuck branch_id result entry (some epoch) f s stuck =
      changed-IsStuck (insert branch_id (checkpoint_entry (id_of result) entry) epoch.frontier)
        epoch f s stuck

  checkpoint_return-IsStuck :
      (now : ℕ) (branch_id : String) (delegations : List Json) (result : Summarized)
      (c : Coordinator)
      → IsStuck reports c
      → IsStuck reports (checkpoint_return now branch_id delegations result c)
  unfolding checkpoint_return
  checkpoint_return-IsStuck now branch_id delegations result c s =
      go (open_entry branch_id c.current_epoch)
    where
      noted : Coordinator
      noted =
          set_checkpoint branch_id result (summarize_branch branch_id checkpoint_summary result c)

      waiting : Coordinator
      waiting = change_branch (set_lifecycle waiting_report_with_checkpoint) branch_id noted

      holding : Coordinator
      holding = record waiting { held = insert branch_id delegations waiting.held }

      f : Frame c holding
      f =
          let g =
            Frame-trans (set_checkpoint-Frame branch_id checkpoint_summary result c) (
              change_branch-Frame noted (set_lifecycle waiting_report_with_checkpoint) branch_id) in
          record {
            same_epoch = g.same_epoch;
            same_tasks = g.same_tasks;
            same_past = g.same_past;
            same_reports = g.same_reports;
          }

      opens :
          (early : Bool) → IsStuck reports (if early then open_epoch none now holding else holding)
      opens true = open_epoch-IsStuck reports none now holding (Frame-IsStuck reports f s)
      opens false = Frame-IsStuck reports f s

      go :
          (found : Option FrontierEntry)
          → IsStuck reports (elim found [
            | some entry ↦ release_held_branch branch_id (
                on_epoch
                  (λ epoch.
                    maybe_start_synthesis
                      (checkpointed_epoch branch_id (id_of result) entry epoch)
                      holding)
                  c.current_epoch
                  holding)
            | none ↦
                if not (no_branch_is_active holding) && are_checkpointed holding.branches
                then open_epoch none now holding
                else holding
          ])
      go none = opens (not (no_branch_is_active holding) && are_checkpointed holding.branches)
      go (some entry) =
          Frame-IsStuck reports (release_held_branch-Frame branch_id _)
            (checkpointed-IsStuck branch_id result entry c.current_epoch f s s.1)

  plain_return-IsStuck :
      (branch_id : String) (delegations : List Json) (result : Summarized) (c : Coordinator)
      → IsStuck reports c
      → IsStuck reports (plain_return branch_id delegations result c)
  unfolding plain_return
  plain_return-IsStuck branch_id delegations result c s = go (open_entry branch_id c.current_epoch)
    where
      launched : Coordinator
      launched = launched_for (next_epoch_of c.current_epoch) branch_id delegations c

      summarized : Coordinator
      summarized =
          set_checkpoint branch_id result
            (summarize_branch branch_id checkpoint_summary result launched)

      go :
          (found : Option FrontierEntry)
          → IsStuck reports (elim found [
            | none ↦ launched_for none branch_id delegations c
            | some entry ↦
                on_epoch
                  (λ epoch.
                    maybe_start_synthesis
                      (checkpointed_epoch branch_id (id_of result) entry epoch)
                      summarized)
                  c.current_epoch
                  summarized
          ])
      go none = s
      go (some entry) =
          checkpointed-IsStuck branch_id result entry c.current_epoch
            (Frame-trans
              (launched_for-Frame (next_epoch_of c.current_epoch) branch_id delegations c)
              (set_checkpoint-Frame branch_id checkpoint_summary result launched))
            s s.1

  on_branch_safe_point-IsStuck :
      (how : TurnEnd) (now : ℕ) (branch_id : String) (delegations : List Json) (result : Summarized)
      (c : Coordinator)
      → IsStuck reports c
      → IsStuck reports (on_branch_safe_point how now branch_id delegations result c)
  unfolding on_branch_safe_point
  on_branch_safe_point-IsStuck how now branch_id delegations result c s =
      go (contains branch_id c.branches) how
    where
      go :
          (known : Bool) (how : TurnEnd)
          → IsStuck reports (if known then turn_end how now branch_id delegations result c else c)
      go false how = s
      go true terminal_turn = terminal_return-IsStuck now branch_id result c s
      go true checkpoint_turn = checkpoint_return-IsStuck now branch_id delegations result c s
      go true plain_turn = plain_return-IsStuck branch_id delegations result c s

  on_grace_expired-IsStuck :
      (given : Option ℕ) (results : String → Summarized) (c : Coordinator)
      → IsStuck reports c
      → IsStuck reports (on_grace_expired given results c)
  unfolding on_grace_expired
  on_grace_expired-IsStuck given results c s = go c.current_epoch s.1
    where
      late :
          (epoch : ReportEpoch)
          → IsStuckEpoch reports (some epoch)
          → (is_other : Bool)
          → IsStuck reports (
              if is_other
              then c
              else maybe_start_synthesis
                  (record epoch { frontier = summarize_late results epoch.frontier })
                  (record_late results epoch.frontier c))
      late epoch stuck true = s
      late epoch stuck false =
          changed-IsStuck (summarize_late results epoch.frontier) epoch
            (record_late-Frame results epoch.frontier c) s stuck

      go :
          (current : Option ReportEpoch)
          → IsStuckEpoch reports current
          → IsStuck reports (end_grace given results current c)
      go none stuck = absurd stuck
      go (some epoch) stuck = late epoch stuck (is_other_epoch given epoch)

  on_parent_retired-IsStuck :
      (branch_id : String) (result : Summarized) (c : Coordinator)
      → IsStuck reports c
      → IsStuck reports (on_parent_retired branch_id result c)
  unfolding on_parent_retired
  on_parent_retired-IsStuck branch_id result c s = go (open_entry branch_id c.current_epoch)
    where
      ended : Coordinator
      ended = change_branch (set_lifecycle finalized) branch_id c

      f : Frame c ended
      f = change_branch-Frame c (set_lifecycle finalized) branch_id

      noted : Coordinator
      noted =
          set_checkpoint branch_id result
            (summarize_branch branch_id checkpoint_summary result ended)

      retiring :
          (epoch : ReportEpoch)
          → IsStuckEpoch reports (some epoch)
          → (entry : FrontierEntry) (done : Bool)
          → IsStuck reports (
              if done
              then ended
              else maybe_start_synthesis
                  (checkpointed_epoch branch_id (id_of result) entry epoch)
                  noted)
      retiring epoch stuck entry true = Frame-IsStuck reports f s
      retiring epoch stuck entry false =
          changed-IsStuck (insert branch_id (checkpoint_entry (id_of result) entry) epoch.frontier)
            epoch (Frame-trans f (set_checkpoint-Frame branch_id checkpoint_summary result ended)) s
            stuck

      acts :
          (entry : FrontierEntry) (current : Option ReportEpoch)
          → IsStuckEpoch reports current
          → IsStuck reports
              (on_epoch (λ epoch. retire_entry branch_id result epoch entry ended) current ended)
      acts entry none stuck = absurd stuck
      acts entry (some epoch) stuck = retiring epoch stuck entry (is_ready entry)

      go :
          (found : Option FrontierEntry)
          → IsStuck reports (elim found [
            | none ↦ ended
            | some entry ↦
                on_epoch
                  (λ epoch. retire_entry branch_id result epoch entry ended)
                  c.current_epoch
                  ended
          ])
      go none = Frame-IsStuck reports f s
      go (some entry) = acts entry c.current_epoch s.1

pub CoordinatorStep-IsStuck :
    {c next : Coordinator} (reports : List ReportRecord)
    → CoordinatorStep c next
    → IsStuck reports c
    → IsStuck reports next
CoordinatorStep-IsStuck {c} reports (turns how now branch_id delegations result) s =
    on_branch_safe_point-IsStuck reports how now branch_id delegations result c s
CoordinatorStep-IsStuck {c} reports (opens_epoch given now) s =
    open_epoch-IsStuck reports given now c s
CoordinatorStep-IsStuck {c} reports (ends_grace given results) s =
    on_grace_expired-IsStuck reports given results c s
CoordinatorStep-IsStuck {c} reports (retires branch_id result) s =
    on_parent_retired-IsStuck reports branch_id result c s
CoordinatorStep-IsStuck {c} reports (reports_epoch answered now running) s =
    finish_synthesis-IsStuck reports answered now c s
CoordinatorStep-IsStuck {c} reports (fails_synthesis late running) s =
    fail_synthesis-IsStuck reports late c s
CoordinatorStep-IsStuck reports (changes_branches branches kept) s = s
