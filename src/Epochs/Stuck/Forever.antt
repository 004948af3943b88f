-- ===== src/Epochs/Stuck/Forever.antt =====
-- A synthesis that raises once its report is stored.
use mathlib.Core.Path.{subst}
use maibot_lunagentic_resear.Prelude.{
  Bool-cases, ℕ, ◌<◌, ◌≡◌, refl, sym, inl, inr, Bool, true, Option, none, some, List, [], ◌∷◌, ◌++◌,
  arith,
}
use maibot_lunagentic_resear.Coverage.{CoverageSet}
use maibot_lunagentic_resear.Epochs.{ReportEpoch, ReportRecord, Coordinator}
use maibot_lunagentic_resear.Epochs.Synthesis.{
  frozen_by, frozen, record_of, has_report, reported, rearm, ended_task, reported_before,
  fail_synthesis,
}
use maibot_lunagentic_resear.Epochs.Sound.{IsSoundCurrent, IsSound}
use maibot_lunagentic_resear.Epochs.Sound.Kept.{current_of}
use maibot_lunagentic_resear.Epochs.Sound.Tasks.{is_running}
use maibot_lunagentic_resear.Epochs.Runs.{CoordinatorStep, CoordinatorRun, CoordinatorRun-IsSound}
use maibot_lunagentic_resear.Epochs.Stuck.{IsStuckEpoch, IsStuck, rearm-IsStuck}
use maibot_lunagentic_resear.Epochs.Stuck.Calls.{CoordinatorStep-IsStuck}

-- Any steps, from a given state.
pub data CoordinatorPath (c : Coordinator) : Coordinator → Type 0 where
  stays : CoordinatorPath c c
  moves_on :
      {before next : Coordinator}
      → CoordinatorPath c before
      → CoordinatorStep before next
      → CoordinatorPath c next

has_report-append :
    (report : ReportRecord) (reports : List ReportRecord)
    → has_report report.report_epoch (reports ++ report ∷ []) ≡ true
unfolding has_report
has_report-append report [] = ground arith
has_report-append report (other ∷ reports) = ground (arith, has_report-append report reports)

frozen_by-epoch :
    (coverage : Option CoverageSet) (c : Coordinator) (epoch : ReportEpoch)
    → (frozen_by coverage c epoch).epoch ≡ epoch.epoch
frozen_by-epoch none c epoch = refl
frozen_by-epoch (some coverage) c epoch = refl

reported_before-has_report :
    (answered : Bool) (now : ℕ) (epoch : ReportEpoch) (c : Coordinator)
    → has_report epoch.epoch (reported_before (some (answered, now)) epoch c).reports ≡ true
reported_before-has_report answered now epoch c =
    elim (Bool-cases (has_report epoch.epoch c.reports)) [
      | inl e ↦ rw e e
      | inr e ↦ rw e (
          subst
            (λ number. has_report number (reported (frozen c epoch) answered now c).reports ≡ true)
            (frozen_by-epoch epoch.frozen_coverage c epoch)
            (has_report-append (record_of (frozen c epoch) answered now) c.reports))
    ]

IsStuck-fail_synthesis :
    (answered : Bool) (now : ℕ) (c : Coordinator)
    → 0 < c.tasks
    → IsSound c
    → IsStuck
        (fail_synthesis (some (answered, now)) c).reports
        (fail_synthesis (some (answered, now)) c)
unfolding fail_synthesis
IsStuck-fail_synthesis answered now c running s = go c.current_epoch refl
  where
    after : Option ReportEpoch → Coordinator
    after current = elim current [
      | none ↦ c
      | some epoch ↦ rearm epoch (reported_before (some (answered, now)) epoch (ended_task c))
    ]

    go :
        (current : Option ReportEpoch)
        → c.current_epoch ≡ current
        → IsStuck (after current).reports (after current)
    go none e =
        let idle : c.tasks ≡ 0 = subst (λ o. IsSoundCurrent o c.tasks) e s.current in
        absurd (omega (arith, idle, running))
    go (some epoch) e =
        let (known, _) = current_of epoch e s in
        let (started, going, idle) = is_running epoch c.tasks known running in
        let before = reported_before (some (answered, now)) epoch (ended_task c) in
        let stuck =
          rearm-IsStuck before.reports epoch before refl
            (going, reported_before-has_report answered now epoch (ended_task c)) in
        (
          refl,
          subst (λ reports. IsStuckEpoch reports (after (some epoch)).current_epoch) (sym stuck.0)
              stuck.1,
        )

CoordinatorPath-IsStuck :
    {c next : Coordinator} (reports : List ReportRecord)
    → CoordinatorPath c next
    → IsStuck reports c
    → IsStuck reports next
CoordinatorPath-IsStuck reports stays s = s
CoordinatorPath-IsStuck reports (moves_on path step) s =
    CoordinatorStep-IsStuck reports step (CoordinatorPath-IsStuck reports path s)

-- When a synthesis runs, in a state that a new coordinator reaches, and `on_synthesis_complete` raises
-- once the report is stored, its epoch is never finished: from then on, whatever the coordinator is
-- called with and however its tasks end, no further report is made, and an epoch that has its report
-- already stays the current one and open.
pub fail_synthesis-forever :
    {c next : Coordinator} (answered : Bool) (now : ℕ)
    → CoordinatorRun c
    → 0 < c.tasks
    → CoordinatorPath (fail_synthesis (some (answered, now)) c) next
    → (next.reports ≡ (fail_synthesis (some (answered, now)) c).reports)
      × IsStuckEpoch (fail_synthesis (some (answered, now)) c).reports next.current_epoch
fail_synthesis-forever {c} answered now run running path =
    CoordinatorPath-IsStuck (fail_synthesis (some (answered, now)) c).reports path
      (IsStuck-fail_synthesis answered now c running (CoordinatorRun-IsSound run))
