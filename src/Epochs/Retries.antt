-- ===== src/Epochs/Retries.antt =====
-- A synthesis that keeps crashing is given up.
use mathlib.Core.Path.{subst}
use maibot_lunagentic_resear.Prelude.{
  ltb, leb, if◌then◌else◌, Bool-cases, length, ℕ, suc, ◌+◌, ◌≤◌, ◌<◌, ◌≡◌, refl, ◌∙◌, ◌⊎◌, inl, inr,
  Bool, true, false, Option, none, some, List, [], ◌∷◌, arith,
}
use maibot_lunagentic_resear.Coverage.{build_coverage}
use maibot_lunagentic_resear.Epochs.{
  ReportEpoch, Coordinator, active_branch_ids, all_ready, max_synthesis_attempts, armed,
  arm_synthesis_task,
}
use maibot_lunagentic_resear.Epochs.Synthesis.{
  disarmed, rearm, ended_task, reported_before, fail_synthesis,
}
use maibot_lunagentic_resear.Epochs.Sound.{IsSoundCurrent, IsSound}
use maibot_lunagentic_resear.Epochs.Sound.Kept.{current_of}
use maibot_lunagentic_resear.Epochs.Sound.Tasks.{is_running}
use maibot_lunagentic_resear.Epochs.Sound.Failures.{fail_synthesis-IsSound}
use maibot_lunagentic_resear.Epochs.Runs.{CoordinatorRun, CoordinatorRun-IsSound}

-- How often the synthesis of the current epoch was tried.
abbrev attempts_of : Option ReportEpoch → ℕ
attempts_of none = 0
attempts_of (some epoch) = epoch.synthesis_attempts

-- A synthesis that crashes, if one runs, and does so again.
unfoldable pub crash : Option (Bool × ℕ) → Coordinator → Coordinator
crash late c = if ltb 0 c.tasks then fail_synthesis late c else c

unfoldable pub crash_times : List (Option (Bool × ℕ)) → Coordinator → Coordinator
crash_times [] c = c
crash_times (late ∷ crashes) c = crash_times crashes (crash late c)

rearm-attempts :
    (epoch : ReportEpoch) (c : Coordinator)
    → c.tasks ≡ 0
    → epoch.synthesis_finished ≡ false
    → ((rearm epoch c).tasks ≡ 0)
      ⊎ (attempts_of (rearm epoch c).current_epoch ≡ suc epoch.synthesis_attempts)
unfolding arm_synthesis_task
rearm-attempts epoch c idle going =
    by_finish epoch.synthesis_finished going (all_ready epoch.frontier)
      (leb max_synthesis_attempts epoch.synthesis_attempts)
  where
    by_finish :
        (finished : Bool)
        → finished ≡ false
        → (is_all_ready is_last : Bool)
        → let after : Coordinator =
            if finished
            then c
            else if is_all_ready
            then (if is_last then record c { current_epoch = some (disarmed epoch) } else record c {
              current_epoch = some (
                  armed
                    (build_coverage c.summaries (active_branch_ids c))
                    (length (active_branch_ids c))
                    (disarmed epoch));
              tasks = suc c.tasks;
            })
            else record c { current_epoch = some (disarmed epoch) } in
          (after.tasks ≡ 0) ⊎ (attempts_of after.current_epoch ≡ suc epoch.synthesis_attempts)
    by_finish true h is_all_ready is_last = absurd (ground (arith, h))
    by_finish false h true true = inl idle
    by_finish false h true false = inr refl
    by_finish false h false is_last = inl idle

reported_before-tasks :
    (late : Option (Bool × ℕ)) (epoch : ReportEpoch) (c : Coordinator)
    → (reported_before late epoch c).tasks ≡ c.tasks
reported_before-tasks none epoch c = refl
reported_before-tasks (some (answered, now)) epoch c = ground arith

fail_synthesis-attempts :
    (late : Option (Bool × ℕ)) (c : Coordinator)
    → 0 < c.tasks
    → IsSound c
    → ((fail_synthesis late c).tasks ≡ 0)
      ⊎ (attempts_of (fail_synthesis late c).current_epoch ≡ suc (attempts_of c.current_epoch))
unfolding fail_synthesis
fail_synthesis-attempts late c running s = go c.current_epoch refl
  where
    go :
        (current : Option ReportEpoch)
        → c.current_epoch ≡ current
        → let after : Coordinator = elim current [
          | none ↦ c
          | some epoch ↦ rearm epoch (reported_before late epoch (ended_task c))
        ] in
          (after.tasks ≡ 0) ⊎ (attempts_of after.current_epoch ≡ suc (attempts_of current))
    go none e =
        let idle : c.tasks ≡ 0 = subst (λ o. IsSoundCurrent o c.tasks) e s.current in inl idle
    go (some epoch) e =
        let (known, _) = current_of epoch e s in
        let (started, going, idle) = is_running epoch c.tasks known running in
        rearm-attempts epoch (reported_before late epoch (ended_task c))
          (reported_before-tasks late epoch (ended_task c) ∙ idle) going

crash-IsSound : (late : Option (Bool × ℕ)) (c : Coordinator) → IsSound c → IsSound (crash late c)
unfolding crash
crash-IsSound late c s = elim (Bool-cases (ltb 0 c.tasks)) [
  | inl e ↦ rw e (fail_synthesis-IsSound late c (ground (arith, e)) s)
  | inr e ↦ rw e s
]

crash-attempts :
    (late : Option (Bool × ℕ)) (c : Coordinator)
    → IsSound c
    → ((crash late c).tasks ≡ 0)
      ⊎ (attempts_of (crash late c).current_epoch ≡ suc (attempts_of c.current_epoch))
unfolding crash
crash-attempts late c s = elim (Bool-cases (ltb 0 c.tasks)) [
  | inl e ↦ rw e (fail_synthesis-attempts late c (ground (arith, e)) s)
  | inr e ↦ inl (rw e (ground (arith, e)))
]

attempts_bounds :
    (c : Coordinator)
    → IsSound c
    → (attempts_of c.current_epoch ≤ max_synthesis_attempts)
      × ((c.tasks ≡ 0) ⊎ (0 < attempts_of c.current_epoch))
attempts_bounds c s = go c.current_epoch s.current
  where
    go :
        (current : Option ReportEpoch)
        → IsSoundCurrent current c.tasks
        → (attempts_of current ≤ max_synthesis_attempts)
          × ((c.tasks ≡ 0) ⊎ (0 < attempts_of current))
    go none h = (omega arith, inl h)
    go (some epoch) h = (
      h.0.bounded,
      elim (Bool-cases epoch.synthesis_started) [
        | inl started ↦ inr (h.0.attempted started)
        | inr idle ↦ inl (ground (arith, h.0.one_task, idle))
      ],
    )

crash_times-idle :
    (crashes : List (Option (Bool × ℕ))) (c : Coordinator)
    → c.tasks ≡ 0
    → (crash_times crashes c).tasks ≡ 0
unfolding crash_times crash
crash_times-idle [] c h = h
crash_times-idle (late ∷ crashes) c h = crash_times-idle crashes (crash late c) (ground (arith, h))

crash_times-end :
    (crashes : List (Option (Bool × ℕ))) (c : Coordinator)
    → IsSound c
    → max_synthesis_attempts < attempts_of c.current_epoch + length crashes
    → (crash_times crashes c).tasks ≡ 0
unfolding crash_times
crash_times-end [] c s enough = absurd (omega (arith, enough, (attempts_bounds c s).0))
crash_times-end (late ∷ crashes) c s enough = elim (crash-attempts late c s) [
  | inl idle ↦ crash_times-idle crashes (crash late c) idle
  | inr more ↦
      crash_times-end crashes (crash late c) (crash-IsSound late c s) (omega (arith, enough, more))
]

-- A synthesis that keeps crashing or being cancelled, before its report is stored or after, ends: from
-- any state that a new coordinator reaches, after three crashes or more in a row no synthesis runs.
pub crash_times-gives_up :
    {c : Coordinator} (crashes : List (Option (Bool × ℕ)))
    → CoordinatorRun c
    → max_synthesis_attempts ≤ length crashes
    → (crash_times crashes c).tasks ≡ 0
crash_times-gives_up {c} crashes run enough =
    let s = CoordinatorRun-IsSound run in
    elim (attempts_bounds c s).1 [
      | inl idle ↦ crash_times-idle crashes c idle
      | inr tried ↦ crash_times-end crashes c s (omega (arith, tried, enough))
    ]
