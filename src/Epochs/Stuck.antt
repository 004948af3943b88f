-- ===== src/Epochs/Stuck.antt =====
-- An epoch whose report is stored, but which a crash has kept from being finished.
pub mod Calls
pub mod Forever
use mathlib.Core.Path.{subst}
use maibot_lunagentic_resear.Prelude.{
  leb, if◌then◌else◌, Bool-cases, ℕ, ◌≡◌, refl, sym, ap, ◌∙◌, inl, inr, Bool, true, false, not,
  ◌||◌, Option, none, some, List, arith,
}
use maibot_lunagentic_resear.Epochs.{
  ReportEpoch, ReportRecord, Coordinator, all_ready, max_synthesis_attempts, arm_synthesis_task,
  maybe_start_synthesis,
}
use maibot_lunagentic_resear.Epochs.Opening.{is_open, open_epoch}
use maibot_lunagentic_resear.Epochs.Synthesis.{
  has_report, synthesize, disarmed, rearm, ended_task, finish_synthesis, reported_before,
  fail_synthesis,
}
use maibot_lunagentic_resear.Epochs.Sound.{Frame}

abbrev pub IsStuckEpoch : List ReportRecord → Option ReportEpoch → Type 0
IsStuckEpoch reports none = ⊥
IsStuckEpoch reports (some epoch) =
    (epoch.synthesis_finished ≡ false) × (has_report epoch.epoch reports ≡ true)

abbrev pub IsStuck : List ReportRecord → Coordinator → Type 0
IsStuck reports c = (c.reports ≡ reports) × IsStuckEpoch reports c.current_epoch

module _ (reports : List ReportRecord) where
  pub Frame-IsStuck :
      {c after : Coordinator} → Frame c after → IsStuck reports c → IsStuck reports after
  Frame-IsStuck f s = (f.same_reports ∙ s.0, subst (IsStuckEpoch reports) (sym f.same_epoch) s.1)

  arm_synthesis_task-IsStuck :
      (epoch : ReportEpoch) (c : Coordinator)
      → c.reports ≡ reports
      → IsStuckEpoch reports (some epoch)
      → IsStuck reports (arm_synthesis_task epoch c)
  unfolding arm_synthesis_task
  arm_synthesis_task-IsStuck epoch c same s =
      elim (Bool-cases (leb max_synthesis_attempts epoch.synthesis_attempts)) [
        | inl e ↦ rw e (same, s)
        | inr e ↦ rw e (same, s)
      ]

  pub maybe_start_synthesis-IsStuck :
      (epoch : ReportEpoch) (c : Coordinator)
      → c.reports ≡ reports
      → IsStuckEpoch reports (some epoch)
      → IsStuck reports (maybe_start_synthesis epoch c)
  unfolding maybe_start_synthesis
  maybe_start_synthesis-IsStuck epoch c same s =
      elim (Bool-cases (epoch.synthesis_started || not (all_ready epoch.frontier))) [
        | inl e ↦ rw e (same, s)
        | inr e ↦ rw e (arm_synthesis_task-IsStuck epoch c same s)
      ]

  stuck_is_open :
      (current : Option ReportEpoch) → IsStuckEpoch reports current → is_open current ≡ true
  stuck_is_open none s = absurd s
  stuck_is_open (some epoch) s = ap not s.0

  pub open_epoch-IsStuck :
      (given : Option ℕ) (now : ℕ) (c : Coordinator)
      → IsStuck reports c
      → IsStuck reports (open_epoch given now c)
  unfolding open_epoch
  open_epoch-IsStuck given now c s = rw (stuck_is_open c.current_epoch s.1) s

  pub rearm-IsStuck :
      (epoch : ReportEpoch) (c : Coordinator)
      → c.reports ≡ reports
      → IsStuckEpoch reports (some epoch)
      → IsStuck reports (rearm epoch c)
  rearm-IsStuck epoch c same s = go epoch.synthesis_finished s.0 (all_ready epoch.frontier)
    where
      go :
          (finished : Bool)
          → finished ≡ false
          → (is_all_ready : Bool)
          → IsStuck reports (
              if finished
              then c
              else if is_all_ready
              then arm_synthesis_task (disarmed epoch) c
              else record c { current_epoch = some (disarmed epoch) })
      go true h is_all_ready = absurd (ground (arith, h))
      go false h true = arm_synthesis_task-IsStuck (disarmed epoch) c same s
      go false h false = (same, s)

  -- The ends of a synthesis task.
  pub finish_synthesis-IsStuck :
      (answered : Bool) (now : ℕ) (c : Coordinator)
      → IsStuck reports c
      → IsStuck reports (finish_synthesis answered now c)
  unfolding finish_synthesis
  finish_synthesis-IsStuck answered now c s = go c.current_epoch s.1
    where
      go :
          (current : Option ReportEpoch)
          → IsStuckEpoch reports current
          → IsStuck reports (elim current [
            | none ↦ c
            | some epoch ↦
                if has_report epoch.epoch c.reports
                then rearm epoch (ended_task c)
                else synthesize epoch answered now (ended_task c)
          ])
      go none stuck = absurd stuck
      go (some epoch) stuck =
          rw (ap (has_report epoch.epoch) s.0 ∙ stuck.1)
            (rearm-IsStuck epoch (ended_task c) s.0 stuck)

  reported_before-refused :
      (late : Option (Bool × ℕ)) (epoch : ReportEpoch) (c : Coordinator)
      → has_report epoch.epoch c.reports ≡ true
      → reported_before late epoch c ≡ c
  reported_before-refused none epoch c h = refl
  reported_before-refused (some (answered, now)) epoch c h = rw h refl

  pub fail_synthesis-IsStuck :
      (late : Option (Bool × ℕ)) (c : Coordinator)
      → IsStuck reports c
      → IsStuck reports (fail_synthesis late c)
  unfolding fail_synthesis
  fail_synthesis-IsStuck late c s = go c.current_epoch s.1
    where
      go :
          (current : Option ReportEpoch)
          → IsStuckEpoch reports current
          → IsStuck reports (elim current [
            | none ↦ c
            | some epoch ↦ rearm epoch (reported_before late epoch (ended_task c))
          ])
      go none stuck = absurd stuck
      go (some epoch) stuck =
          subst (λ before. IsStuck reports (rearm epoch before))
            (sym (
              reported_before-refused late epoch (ended_task c)
                (ap (has_report epoch.epoch) s.0 ∙ stuck.1)))
            (rearm-IsStuck epoch (ended_task c) s.0 stuck)
