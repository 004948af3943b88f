-- ===== src/Epochs/Runs.antt =====
-- Runs of the coordinator, in any order of its calls and of the ends of its tasks.
use maibot_lunagentic_resear.Prelude.{
  leb, Bool-cases, some_injective, length, ℕ, ◌+◌, ◌<◌, String, ◌≡◌, refl, ap, ◌∙◌, ◌⊎◌, inl, inr,
  Bool, true, not, ◌||◌, Option, none, some, List, [], arith,
}
use maibot_lunagentic_resear.Dict.{Dict, contains}
use maibot_lunagentic_resear.Json.{Json}
use maibot_lunagentic_resear.Coverage.{build_coverage}
use maibot_lunagentic_resear.Epochs.{
  EpochBranch, ReportEpoch, Coordinator, Summarized, active_branch_ids, all_ready,
  max_synthesis_attempts, armed, arm_synthesis_task, maybe_start_synthesis,
}
use maibot_lunagentic_resear.Epochs.Opening.{open_epoch}
use maibot_lunagentic_resear.Epochs.Synthesis.{finish_synthesis, fail_synthesis}
use maibot_lunagentic_resear.Epochs.Turns.{
  TurnEnd, on_branch_safe_point, summarize_late, record_late, end_grace, on_grace_expired,
  on_parent_retired,
}
use maibot_lunagentic_resear.Epochs.Sound.{IsSound}
use maibot_lunagentic_resear.Epochs.Sound.Kept.{current_of, open_epoch-IsSound}
use maibot_lunagentic_resear.Epochs.Sound.Returns.{on_branch_safe_point-IsSound}
use maibot_lunagentic_resear.Epochs.Sound.Grace.{
  all_ready-summarize_late, on_grace_expired-IsSound, on_parent_retired-IsSound,
}
use maibot_lunagentic_resear.Epochs.Sound.Failures.{
  finish_synthesis-IsSound, fail_synthesis-IsSound,
}

pub data CoordinatorStep (c : Coordinator) : Coordinator → Type 0 where
  turns :
      (how : TurnEnd) (now : ℕ) (branch_id : String) (delegations : List Json) (result : Summarized)
      → CoordinatorStep c (on_branch_safe_point how now branch_id delegations result c)
  opens_epoch : (given : Option ℕ) (now : ℕ) → CoordinatorStep c (open_epoch given now c)
  ends_grace :
      (given : Option ℕ) (results : String → Summarized)
      → CoordinatorStep c (on_grace_expired given results c)
  retires :
      (branch_id : String) (result : Summarized)
      → CoordinatorStep c (on_parent_retired branch_id result c)
  reports_epoch :
      (answered : Bool) (now : ℕ)
      → 0 < c.tasks
      → CoordinatorStep c (finish_synthesis answered now c)
  fails_synthesis :
      (late : Option (Bool × ℕ)) → 0 < c.tasks → CoordinatorStep c (fail_synthesis late c)
  -- The manager adds branches, and keeps their messages.
  changes_branches :
      (branches : Dict EpochBranch)
      (kept : (id : String) → contains id c.branches ≡ true → contains id branches ≡ true)
      → CoordinatorStep c (record c { branches = branches })

-- `__init__`
abbrev pub new_coordinator : ℕ → ℕ → ℕ → Dict EpochBranch → Coordinator
new_coordinator started_at time_budget_seconds grace_period_seconds branches = record {
  time_budget_seconds = time_budget_seconds;
  grace_period_seconds = grace_period_seconds;
  branches = branches;
  current_epoch = none;
  past_epochs = [];
  reports = [];
  summaries = [];
  held = [];
  deadline_at = started_at + time_budget_seconds;
  tasks = 0;
  calls = [];
}

pub data CoordinatorRun : Coordinator → Type 0 where
  starts :
      (started_at time_budget_seconds grace_period_seconds : ℕ) (branches : Dict EpochBranch)
      → CoordinatorRun
          (new_coordinator started_at time_budget_seconds grace_period_seconds branches)
  continues :
      {c next : Coordinator} → CoordinatorRun c → CoordinatorStep c next → CoordinatorRun next

step-IsSound : {c next : Coordinator} → CoordinatorStep c next → IsSound c → IsSound next
step-IsSound {c} (turns how now branch_id delegations result) s =
    on_branch_safe_point-IsSound how now branch_id delegations result c s
step-IsSound {c} (opens_epoch given now) s = open_epoch-IsSound given now c s
step-IsSound {c} (ends_grace given results) s = on_grace_expired-IsSound given results c s
step-IsSound {c} (retires branch_id result) s = on_parent_retired-IsSound branch_id result c s
step-IsSound {c} (reports_epoch answered now running) s =
    finish_synthesis-IsSound answered now c running s
step-IsSound {c} (fails_synthesis late running) s = fail_synthesis-IsSound late c running s
step-IsSound (changes_branches branches kept) s = record {
  current = s.current;
  past = s.past;
  honest = s.honest;
}

-- In every state that a new coordinator reaches, at most one synthesis runs, and only for the current
-- epoch, whose frontier is ready then; an epoch whose frontier is ready is being reported, is reported,
-- or has used its three attempts; the earlier epochs are reported; and no final report covers a mere
-- checkpoint.
pub CoordinatorRun-IsSound : {c : Coordinator} → CoordinatorRun c → IsSound c
CoordinatorRun-IsSound (starts _ _ _ _) = record { current = refl; past = tt; honest = tt }
CoordinatorRun-IsSound (continues run step) = step-IsSound step (CoordinatorRun-IsSound run)

maybe_start_synthesis-frontier :
    (epoch : ReportEpoch) (c : Coordinator)
    → (after : ReportEpoch) × ((maybe_start_synthesis epoch c).current_epoch ≡ some after)
      × (after.frontier ≡ epoch.frontier)
unfolding maybe_start_synthesis arm_synthesis_task
maybe_start_synthesis-frontier epoch c =
    elim (Bool-cases (epoch.synthesis_started || not (all_ready epoch.frontier))) [
      | inl e ↦ (epoch, rw e refl, refl)
      | inr e ↦ elim (Bool-cases (leb max_synthesis_attempts epoch.synthesis_attempts)) [
        | inl many ↦ (epoch, rw (e, many) refl, refl)
        | inr few ↦ (
          armed (build_coverage c.summaries (active_branch_ids c)) (length (active_branch_ids c))
              epoch,
          rw (e, few) refl,
          refl,
        )
      ]
    ]

on_grace_expired-frontier :
    (results : String → Summarized) (c : Coordinator) (epoch : ReportEpoch)
    → c.current_epoch ≡ some epoch
    → (after : ReportEpoch) × ((on_grace_expired none results c).current_epoch ≡ some after)
      × (after.frontier ≡ summarize_late results epoch.frontier)
unfolding on_grace_expired
on_grace_expired-frontier results c epoch e = go c.current_epoch e
  where
    go :
        (current : Option ReportEpoch)
        → current ≡ some epoch
        → (after : ReportEpoch) × ((end_grace none results current c).current_epoch ≡ some after)
          × (after.frontier ≡ summarize_late results epoch.frontier)
    go none h = absurd (ground (arith, h))
    go (some found) h =
        let (after, is_current, same) =
          maybe_start_synthesis-frontier
            (record found { frontier = summarize_late results found.frontier })
            (record_late results found.frontier c) in
        (after, is_current, same ∙ ap (λ f. summarize_late results f.frontier) (some_injective h))

-- When the grace period of the current epoch ends, in a state that a new coordinator reaches and
-- whatever the summarizer answers for the branches that are late, the frontier is ready, and the report
-- is under way or made or has used its three attempts: no branch holds a report back for longer.
pub on_grace_expired-starts :
    {c : Coordinator} (results : String → Summarized) (epoch : ReportEpoch)
    → CoordinatorRun c
    → c.current_epoch ≡ some epoch
    → (after : ReportEpoch) × ((on_grace_expired none results c).current_epoch ≡ some after)
      × (all_ready after.frontier ≡ true)
      × ((after.synthesis_started ≡ true) ⊎ (after.synthesis_attempts ≡ max_synthesis_attempts))
on_grace_expired-starts {c} results epoch run e =
    let (after, is_current, same) = on_grace_expired-frontier results c epoch e in
    let is_all_ready : all_ready after.frontier ≡ true =
      ap all_ready same ∙ all_ready-summarize_late results epoch.frontier in
    let (_, progress) =
      current_of after is_current
        (on_grace_expired-IsSound none results c (CoordinatorRun-IsSound run)) in
    (
      after,
      is_current,
      is_all_ready,
      elim (Bool-cases after.synthesis_started) [
        | inl started ↦ inl started
        | inr idle ↦ inr (progress is_all_ready idle)
      ],
    )
