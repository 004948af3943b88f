-- ===== src/Epochs/Sound/Tasks.antt =====
-- A synthesis that reports keeps the coordinator sound.
use maibot_lunagentic_resear.Prelude.{
  if◌then◌else◌, or_default, All-append, ℕ, suc, ◌-◌, ◌<◌, ◌≡◌, refl, ◌∙◌, ◌≢◌, Bool, true, false,
  ◌&&◌, Option, none, some, [], ◌∷◌, arith,
}
use maibot_lunagentic_resear.Coverage.{
  final_report, CoverageSet, has_checkpoint, freeze_report_kind,
}
use maibot_lunagentic_resear.Epochs.{ReportEpoch, Coordinator, active_branch_ids, all_ready}
use maibot_lunagentic_resear.Epochs.Opening.{open_epoch}
use maibot_lunagentic_resear.Epochs.Synthesis.{
  frozen_by, frozen, no_coverage, record_of, is_intermediate, has_none, completed, synthesize,
}
use maibot_lunagentic_resear.Epochs.Sound.{
  covers_checkpoint, IsSoundEpoch, IsHonest, IsSound, IsSoundRest,
}
use maibot_lunagentic_resear.Epochs.Sound.Kept.{open_epoch-IsSound}

-- While a task of the synthesis runs, the epoch is started and not reported, and the task is the one.
pub is_running :
    (epoch : ReportEpoch) (tasks : ℕ)
    → IsSoundEpoch epoch tasks
    → 0 < tasks
    → (epoch.synthesis_started ≡ true) × (epoch.synthesis_finished ≡ false) × (tasks - 1 ≡ 0)
is_running epoch tasks s running = (
  ground (arith, s.one_task, running),
  ground (arith, s.one_task, running),
  ground (arith, s.one_task),
)

frozen_by-covers :
    (o : Option CoverageSet) (c : Coordinator) (epoch : ReportEpoch)
    → (epoch.kind ≡ final_report → covers_checkpoint o ≡ false)
    → (frozen_by o c epoch).kind ≡ final_report
    → has_checkpoint (or_default (frozen_by o c epoch).frozen_coverage no_coverage) ≡ false
unfolding freeze_report_kind
frozen_by-covers (some coverage) c epoch honest h = honest h
frozen_by-covers none c epoch honest h = ground (arith, h)

frozen_by-frontier :
    (o : Option CoverageSet) (c : Coordinator) (epoch : ReportEpoch)
    → (all_ready (frozen_by o c epoch).frontier ≡ all_ready epoch.frontier)
      × ((frozen_by o c epoch).synthesis_started ≡ true)
      × ((frozen_by o c epoch).synthesis_attempts ≡ epoch.synthesis_attempts)
      × ((frozen_by o c epoch).frozen_coverage ≢ none)
frozen_by-frontier (some coverage) c epoch = (refl, refl, refl, λ h. cc)
frozen_by-frontier none c epoch = (refl, refl, refl, λ h. cc)

covers-of_default :
    (o : Option CoverageSet)
    → o ≢ none
    → has_checkpoint (or_default o no_coverage) ≡ false
    → covers_checkpoint o ≡ false
covers-of_default none ne h = absurd (ne refl)
covers-of_default (some coverage) ne h = h

-- What a report covers, when its epoch is final.
pub frozen-IsHonest :
    (epoch : ReportEpoch) (answered : Bool) (now tasks : ℕ) (c : Coordinator)
    → IsSoundEpoch epoch tasks
    → epoch.synthesis_started ≡ true
    → IsHonest (record_of (frozen c epoch) answered now)
frozen-IsHonest epoch answered now tasks c s started =
    frozen_by-covers epoch.frozen_coverage c epoch (s.final_covers started)

completed-IsSound :
    (epoch : ReportEpoch) (answered : Bool) (now : ℕ) (c : Coordinator)
    → IsSoundEpoch epoch (suc c.tasks)
    → epoch.synthesis_started ≡ true
    → c.tasks ≡ 0
    → IsSoundRest c
    → IsSound (completed (frozen c epoch) answered now c)
completed-IsSound epoch answered now c s started idle rest =
    let ended = frozen c epoch in
    let (same, is_started, attempts, has_coverage) =
      frozen_by-frontier epoch.frozen_coverage c epoch in
    let covers = frozen-IsHonest epoch answered now (suc c.tasks) c s started in
    record {
      current = (
        record {
          finished_started = λ h. is_started;
          started_ready = λ h. same ∙ s.started_ready started;
          one_task = ground (arith, idle, is_started);
          attempted = λ h. omega (arith, attempts, s.attempted started);
          bounded = omega (arith, attempts, s.bounded);
          final_covers = λ h k. covers-of_default ended.frozen_coverage has_coverage (covers k);
        },
        λ h k. absurd (ground (arith, is_started, k)),
      );
      past = rest.rest_past;
      honest =
          All-append _ c.reports (record_of ended answered now ∷ []) rest.rest_honest (covers, tt);
    }

pub synthesize-IsSound :
    (epoch : ReportEpoch) (answered : Bool) (now : ℕ) (c : Coordinator)
    → IsSoundEpoch epoch (suc c.tasks)
    → epoch.synthesis_started ≡ true
    → epoch.synthesis_finished ≡ false
    → c.tasks ≡ 0
    → IsSoundRest c
    → IsSound (synthesize epoch answered now c)
unfolding synthesize
synthesize-IsSound epoch answered now c s started going idle rest =
    by_finish epoch.synthesis_finished going
  where
    made : IsSound (completed (frozen c epoch) answered now c)
    made = completed-IsSound epoch answered now c s started idle rest

    ends :
        (opens : Bool)
        → IsSound (
            if opens
            then open_epoch none now (completed (frozen c epoch) answered now c)
            else completed (frozen c epoch) answered now c)
    ends true = open_epoch-IsSound none now (completed (frozen c epoch) answered now c) made
    ends false = made

    by_finish :
        (finished : Bool)
        → finished ≡ false
        → IsSound (
            if finished
            then c
            else if is_intermediate (frozen c epoch).kind && has_none (active_branch_ids c)
            then open_epoch none now (completed (frozen c epoch) answered now c)
            else completed (frozen c epoch) answered now c)
    by_finish true h = absurd (ground (arith, h))
    by_finish false h =
        ends (is_intermediate (frozen c epoch).kind && has_none (active_branch_ids c))
