-- ===== src/Epochs/Sound.antt =====
-- What holds of the coordinator between calls, and how arming and opening keep it.
pub mod Kept
pub mod Returns
pub mod Grace
pub mod Tasks
pub mod Failures
use maibot_lunagentic_resear.Prelude.{
  leb, if◌then◌else◌, Bool-cases, All, ℕ, ◌≤◌, ◌<◌, String, ◌≡◌, refl, ◌∙◌, inl, inr, Bool, true,
  false, not, ◌&&◌, ◌||◌, Option, none, some, List, [], ◌∷◌, arith,
}
use maibot_lunagentic_resear.Dict.{Dict}
use maibot_lunagentic_resear.Json.{Json}
use maibot_lunagentic_resear.Coverage.{
  SummaryKind, final_report, CoverageSet, has_checkpoint, freeze_report_kind,
}
use maibot_lunagentic_resear.Epochs.{
  EpochBranch, ReportEpoch, ReportRecord, Coordinator, Summarized, all_ready,
  max_synthesis_attempts, arm_synthesis_task, maybe_start_synthesis, summarize_branch,
  change_branch,
}
use maibot_lunagentic_resear.Epochs.Opening.{as_resumed, launch_held, launch_all, release_held}

abbrev pub covers_checkpoint : Option CoverageSet → Bool
covers_checkpoint none = true
covers_checkpoint (some coverage) = has_checkpoint coverage

-- An epoch, and the number of its synthesis tasks.
pub record IsSoundEpoch (epoch : ReportEpoch) (tasks : ℕ) : Type 0 where
  pub finished_started : epoch.synthesis_finished ≡ true → epoch.synthesis_started ≡ true
  pub started_ready : epoch.synthesis_started ≡ true → all_ready epoch.frontier ≡ true
  pub one_task : tasks ≡ (if epoch.synthesis_started && not epoch.synthesis_finished then 1 else 0)
  pub attempted : epoch.synthesis_started ≡ true → 0 < epoch.synthesis_attempts
  pub bounded : epoch.synthesis_attempts ≤ max_synthesis_attempts
  pub final_covers :
      epoch.synthesis_started ≡ true
      → epoch.kind ≡ final_report
      → covers_checkpoint epoch.frozen_coverage ≡ false

-- An epoch that is ready is in synthesis, reported, or out of attempts.
abbrev pub HasProgress : ReportEpoch → Type 0
HasProgress epoch =
    all_ready epoch.frontier ≡ true
    → epoch.synthesis_started ≡ false
    → epoch.synthesis_attempts ≡ max_synthesis_attempts

abbrev pub IsSoundCurrent : Option ReportEpoch → ℕ → Type 0
IsSoundCurrent none tasks = tasks ≡ 0
IsSoundCurrent (some epoch) tasks = IsSoundEpoch epoch tasks × HasProgress epoch

-- A final report covers no mere checkpoint.
abbrev pub IsHonest : ReportRecord → Type 0
IsHonest report = report.report_kind ≡ final_report → has_checkpoint report.coverage ≡ false

abbrev pub AreFinished : List ReportEpoch → Type 0
AreFinished epochs = All (λ (epoch : ReportEpoch). epoch.synthesis_finished ≡ true) epochs

pub record IsSound (c : Coordinator) : Type 0 where
  pub current : IsSoundCurrent c.current_epoch c.tasks
  pub past : AreFinished c.past_epochs
  pub honest : All IsHonest c.reports

-- What the calls besides the synthesis leave alone.
pub record Frame (c after : Coordinator) : Type 0 where
  pub same_epoch : after.current_epoch ≡ c.current_epoch
  pub same_tasks : after.tasks ≡ c.tasks
  pub same_past : after.past_epochs ≡ c.past_epochs
  pub same_reports : after.reports ≡ c.reports

module _ (c : Coordinator) where
  pub summarize_branch-Frame :
      (branch_id : String) (kind : SummaryKind) (result : Summarized)
      → Frame c (summarize_branch branch_id kind result c)
  unfolding summarize_branch
  summarize_branch-Frame branch_id kind result = record {
    same_epoch = refl;
    same_tasks = refl;
    same_past = refl;
    same_reports = refl;
  }

  pub change_branch-Frame :
      (change : EpochBranch → EpochBranch) (branch_id : String)
      → Frame c (change_branch change branch_id c)
  unfolding change_branch
  change_branch-Frame change branch_id = ground arith

pub Frame-trans : {a b c : Coordinator} → Frame a b → Frame b c → Frame a c
Frame-trans f g = record {
  same_epoch = g.same_epoch ∙ f.same_epoch;
  same_tasks = g.same_tasks ∙ f.same_tasks;
  same_past = g.same_past ∙ f.same_past;
  same_reports = g.same_reports ∙ f.same_reports;
}

pub launch_held-Frame :
    (branch_id : String) (delegations : List Json) (c : Coordinator)
    → Frame c (launch_held branch_id delegations c)
unfolding launch_held
launch_held-Frame branch_id delegations c =
    let f = change_branch-Frame c as_resumed branch_id in
    record {
      same_epoch = f.same_epoch;
      same_tasks = f.same_tasks;
      same_past = f.same_past;
      same_reports = f.same_reports;
    }

launch_all-Frame : (held : Dict (List Json)) (c : Coordinator) → Frame c (launch_all held c)
unfolding launch_all
launch_all-Frame [] c = record {
  same_epoch = refl;
  same_tasks = refl;
  same_past = refl;
  same_reports = refl;
}
launch_all-Frame ((branch_id, delegations) ∷ held) c =
    Frame-trans (launch_held-Frame branch_id delegations c)
      (launch_all-Frame held (launch_held branch_id delegations c))

pub release_held-Frame : (c : Coordinator) → Frame c (release_held c)
unfolding release_held
release_held-Frame c =
    let f = launch_all-Frame c.held (record c { held = [] }) in
    record {
      same_epoch = f.same_epoch;
      same_tasks = f.same_tasks;
      same_past = f.same_past;
      same_reports = f.same_reports;
    }

-- The rest of the coordinator is sound for an epoch that is about to be armed.
pub record IsSoundRest (c : Coordinator) : Type 0 where
  pub rest_past : AreFinished c.past_epochs
  pub rest_honest : All IsHonest c.reports

pub arm_synthesis_task-IsSound :
    (epoch : ReportEpoch) (c : Coordinator)
    → IsSoundEpoch epoch c.tasks
    → epoch.synthesis_started ≡ false
    → all_ready epoch.frontier ≡ true
    → IsSoundRest c
    → IsSound (arm_synthesis_task epoch c)
unfolding arm_synthesis_task freeze_report_kind
arm_synthesis_task-IsSound epoch c s idle ready rest =
    elim (Bool-cases (leb max_synthesis_attempts epoch.synthesis_attempts)) [
      | inl e ↦ rw e (record {
        current = (s, λ h k. ground (arith, e, s.bounded));
        past = rest.rest_past;
        honest = rest.rest_honest;
      })
      | inr e ↦ rw e (record {
        current = (
          record {
            finished_started = λ h. refl;
            started_ready = λ h. ready;
            one_task = ground (arith, s.one_task, s.finished_started, idle);
            attempted = λ h. omega arith;
            bounded = ground (arith, e);
            final_covers = λ h k. ground (arith, k);
          },
          λ h k. absurd (ground (arith, k)),
        );
        past = rest.rest_past;
        honest = rest.rest_honest;
      })
    ]

pub maybe_start_synthesis-IsSound :
    (epoch : ReportEpoch) (c : Coordinator)
    → IsSoundEpoch epoch c.tasks
    → IsSoundRest c
    → IsSound (maybe_start_synthesis epoch c)
unfolding maybe_start_synthesis
maybe_start_synthesis-IsSound epoch c s rest =
    elim (Bool-cases (epoch.synthesis_started || not (all_ready epoch.frontier))) [
      | inl e ↦ rw e (record {
        current = (s, λ h k. absurd (ground (arith, e, h, k)));
        past = rest.rest_past;
        honest = rest.rest_honest;
      })
      | inr e ↦
          rw e (arm_synthesis_task-IsSound epoch c s (ground (arith, e)) (ground (arith, e)) rest)
    ]
