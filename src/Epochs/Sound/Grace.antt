-- ===== src/Epochs/Sound/Grace.antt =====
-- The end of the grace period and a retired parent keep the coordinator sound.
use maibot_lunagentic_resear.Prelude.{
  if◌then◌else◌, ℕ, String, ◌≡◌, refl, Bool, true, false, Option, none, some, [], ◌∷◌, arith,
}
use maibot_lunagentic_resear.Dict.{Dict}
use maibot_lunagentic_resear.Commands.{finalized}
use maibot_lunagentic_resear.Coverage.{checkpoint_summary}
use maibot_lunagentic_resear.Epochs.{
  FrontierEntry, is_ready, ReportEpoch, Coordinator, Summarized, all_ready, maybe_start_synthesis,
  id_of, summarize_branch, change_branch, set_checkpoint,
}
use maibot_lunagentic_resear.Epochs.Turns.{
  set_lifecycle, checkpoint_entry, open_entry, checkpointed_epoch, on_epoch, summarize_late,
  record_late, is_other_epoch, end_grace, on_grace_expired, retire_entry, on_parent_retired,
}
use maibot_lunagentic_resear.Epochs.Sound.{
  IsSoundEpoch, IsSound, Frame, change_branch-Frame, Frame-trans,
}
use maibot_lunagentic_resear.Epochs.Sound.Kept.{
  rest_of, Frame-IsSound, current_of, start-IsSound, with_entry-IsSoundEpoch,
}
use maibot_lunagentic_resear.Epochs.Sound.Returns.{set_checkpoint-Frame}

-- After the loop of `on_grace_expired` every entry is ready.
pub all_ready-summarize_late :
    (results : String → Summarized) (frontier : Dict FrontierEntry)
    → all_ready (summarize_late results frontier) ≡ true
unfolding all_ready summarize_late
all_ready-summarize_late results [] = refl
all_ready-summarize_late results ((branch_id, entry) ∷ frontier) =
    ground (arith, all_ready-summarize_late results frontier)

pub record_late-Frame :
    (results : String → Summarized) (frontier : Dict FrontierEntry) (c : Coordinator)
    → Frame c (record_late results frontier c)
unfolding record_late
record_late-Frame results [] c = record {
  same_epoch = refl;
  same_tasks = refl;
  same_past = refl;
  same_reports = refl;
}
record_late-Frame results ((branch_id, entry) ∷ frontier) c =
    go (is_ready entry) (record_late-Frame results frontier c)
      (record_late-Frame results frontier (noted c))
  where
    noted : Coordinator → Coordinator
    noted before =
        set_checkpoint branch_id (results branch_id)
          (summarize_branch branch_id checkpoint_summary (results branch_id) before)

    go :
        (done : Bool)
        → Frame c (record_late results frontier c)
        → Frame (noted c) (record_late results frontier (noted c))
        → Frame c (record_late results frontier (if done then c else noted c))
    go true kept late = kept
    go false kept late =
        Frame-trans (set_checkpoint-Frame branch_id checkpoint_summary (results branch_id) c) late

late-IsSoundEpoch :
    (results : String → Summarized) (epoch : ReportEpoch) (tasks : ℕ)
    → IsSoundEpoch epoch tasks
    → IsSoundEpoch (record epoch { frontier = summarize_late results epoch.frontier }) tasks
late-IsSoundEpoch results epoch tasks s = record {
  finished_started = s.finished_started;
  started_ready = λ h. all_ready-summarize_late results epoch.frontier;
  one_task = s.one_task;
  attempted = s.attempted;
  bounded = s.bounded;
  final_covers = s.final_covers;
}

pub on_grace_expired-IsSound :
    (given : Option ℕ) (results : String → Summarized) (c : Coordinator)
    → IsSound c
    → IsSound (on_grace_expired given results c)
unfolding on_grace_expired
on_grace_expired-IsSound given results c s = go c.current_epoch refl
  where
    late :
        (epoch : ReportEpoch)
        → c.current_epoch ≡ some epoch
        → (is_other : Bool)
        → IsSound (
            if is_other
            then c
            else maybe_start_synthesis
                (record epoch { frontier = summarize_late results epoch.frontier })
                (record_late results epoch.frontier c))
    late epoch e true = s
    late epoch e false =
        start-IsSound (record epoch { frontier = summarize_late results epoch.frontier })
          (record_late-Frame results epoch.frontier c)
          (late-IsSoundEpoch results epoch c.tasks (current_of epoch e s).0) (rest_of s)

    go :
        (current : Option ReportEpoch)
        → c.current_epoch ≡ current
        → IsSound (end_grace given results current c)
    go none e = s
    go (some epoch) e = late epoch e (is_other_epoch given epoch)

pub on_parent_retired-IsSound :
    (branch_id : String) (result : Summarized) (c : Coordinator)
    → IsSound c
    → IsSound (on_parent_retired branch_id result c)
unfolding on_parent_retired
on_parent_retired-IsSound branch_id result c s = go (open_entry branch_id c.current_epoch)
  where
    ended : Coordinator
    ended = change_branch (set_lifecycle finalized) branch_id c

    f : Frame c ended
    f = change_branch-Frame c (set_lifecycle finalized) branch_id

    noted : Coordinator
    noted =
        set_checkpoint branch_id result (summarize_branch branch_id checkpoint_summary result ended)

    retires :
        (epoch : ReportEpoch)
        → c.current_epoch ≡ some epoch
        → (entry : FrontierEntry) (done : Bool)
        → IsSound (
            if done
            then ended
            else maybe_start_synthesis
                (checkpointed_epoch branch_id (id_of result) entry epoch)
                noted)
    retires epoch e entry true = Frame-IsSound f s
    retires epoch e entry false =
        start-IsSound (checkpointed_epoch branch_id (id_of result) entry epoch)
          (Frame-trans f (set_checkpoint-Frame branch_id checkpoint_summary result ended))
          (with_entry-IsSoundEpoch branch_id (checkpoint_entry (id_of result) entry) epoch c.tasks
            (ground arith) (current_of epoch e s).0)
          (rest_of s)

    acts :
        (entry : FrontierEntry) (current : Option ReportEpoch)
        → c.current_epoch ≡ current
        → IsSound
            (on_epoch (λ epoch. retire_entry branch_id result epoch entry ended) current ended)
    acts entry none e = Frame-IsSound f s
    acts entry (some epoch) e = retires epoch e entry (is_ready entry)

    go :
        (found : Option FrontierEntry)
        → IsSound (elim found [
          | none ↦ ended
          | some entry ↦
              on_epoch
                (λ epoch. retire_entry branch_id result epoch entry ended)
                c.current_epoch
                ended
        ])
    go none = Frame-IsSound f s
    go (some entry) = acts entry c.current_epoch refl
