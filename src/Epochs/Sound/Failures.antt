-- ===== src/Epochs/Sound/Failures.antt =====
-- A synthesis that fails, and with it every end of the task, keeps the coordinator sound.
use mathlib.Core.Path.{subst}
use maibot_lunagentic_resear.Prelude.{
  if◌then◌else◌, Bool-cases, All-append, ℕ, suc, ◌<◌, ◌≡◌, refl, sym, ◌∙◌, inl, inr, Bool, true,
  false, Option, none, some, [], ◌∷◌, arith,
}
use maibot_lunagentic_resear.Epochs.{ReportEpoch, Coordinator, all_ready, arm_synthesis_task}
use maibot_lunagentic_resear.Epochs.Synthesis.{
  frozen, record_of, has_report, synthesize, disarmed, rearm, ended_task, finish_synthesis,
  reported_before, fail_synthesis,
}
use maibot_lunagentic_resear.Epochs.Sound.{
  IsSoundEpoch, IsSound, IsSoundRest, arm_synthesis_task-IsSound,
}
use maibot_lunagentic_resear.Epochs.Sound.Kept.{current_of}
use maibot_lunagentic_resear.Epochs.Sound.Tasks.{is_running, frozen-IsHonest, synthesize-IsSound}

disarmed-IsSoundEpoch :
    (epoch : ReportEpoch) (tasks : ℕ)
    → IsSoundEpoch epoch tasks
    → epoch.synthesis_finished ≡ false
    → IsSoundEpoch (disarmed epoch) 0
disarmed-IsSoundEpoch epoch tasks s going = record {
  finished_started = λ h. absurd (ground (arith, going, h));
  started_ready = λ h. absurd (ground (arith, h));
  one_task = refl;
  attempted = λ h. absurd (ground (arith, h));
  bounded = s.bounded;
  final_covers = λ h k. absurd (ground (arith, h));
}

rearm-IsSound :
    (epoch : ReportEpoch) (c : Coordinator)
    → IsSoundEpoch epoch (suc c.tasks)
    → epoch.synthesis_finished ≡ false
    → c.tasks ≡ 0
    → IsSoundRest c
    → IsSound (rearm epoch c)
rearm-IsSound epoch c s going idle rest = by_finish epoch.synthesis_finished going
  where
    known : IsSoundEpoch (disarmed epoch) c.tasks
    known =
        subst (IsSoundEpoch (disarmed epoch)) (sym idle)
          (disarmed-IsSoundEpoch epoch (suc c.tasks) s going)

    again :
        (is_all_ready : Bool)
        → all_ready epoch.frontier ≡ is_all_ready
        → IsSound (
            if is_all_ready
            then arm_synthesis_task (disarmed epoch) c
            else record c { current_epoch = some (disarmed epoch) })
    again true e = arm_synthesis_task-IsSound (disarmed epoch) c known refl e rest
    again false e = record {
      current = (known, λ h k. absurd (ground (arith, h, e)));
      past = rest.rest_past;
      honest = rest.rest_honest;
    }

    by_finish :
        (finished : Bool)
        → finished ≡ false
        → IsSound (
            if finished
            then c
            else if all_ready epoch.frontier
            then arm_synthesis_task (disarmed epoch) c
            else record c { current_epoch = some (disarmed epoch) })
    by_finish true h = absurd (ground (arith, h))
    by_finish false h = again (all_ready epoch.frontier) refl

pub finish_synthesis-IsSound :
    (answered : Bool) (now : ℕ) (c : Coordinator)
    → 0 < c.tasks
    → IsSound c
    → IsSound (finish_synthesis answered now c)
unfolding finish_synthesis
finish_synthesis-IsSound answered now c running s = go c.current_epoch refl
  where
    rest : IsSoundRest (ended_task c)
    rest = record { rest_past = s.past; rest_honest = s.honest }

    ends :
        (epoch : ReportEpoch)
        → IsSoundEpoch epoch (suc (ended_task c).tasks)
        → (epoch.synthesis_started ≡ true)
          × (epoch.synthesis_finished ≡ false)
          × ((ended_task c).tasks ≡ 0)
        → (refused : Bool)
        → IsSound (
            if refused
            then rearm epoch (ended_task c)
            else synthesize epoch answered now (ended_task c))
    ends epoch known (started, going, idle) true =
        rearm-IsSound epoch (ended_task c) known going idle rest
    ends epoch known (started, going, idle) false =
        synthesize-IsSound epoch answered now (ended_task c) known started going idle rest

    go :
        (current : Option ReportEpoch)
        → c.current_epoch ≡ current
        → IsSound (elim current [
          | none ↦ c
          | some epoch ↦
              if has_report epoch.epoch c.reports
              then rearm epoch (ended_task c)
              else synthesize epoch answered now (ended_task c)
        ])
    go none e = s
    go (some epoch) e =
        let (known, _) = current_of epoch e s in
        ends epoch (subst (IsSoundEpoch epoch) (omega (arith, running)) known)
          (is_running epoch c.tasks known running) (has_report epoch.epoch c.reports)

-- A report that is kept before the crash is as honest as any.
reported_before-rest :
    (late : Option (Bool × ℕ)) (epoch : ReportEpoch) (tasks : ℕ) (c : Coordinator)
    → IsSoundEpoch epoch tasks
    → epoch.synthesis_started ≡ true
    → IsSoundRest c
    → IsSoundRest (reported_before late epoch c) × ((reported_before late epoch c).tasks ≡ c.tasks)
reported_before-rest none epoch tasks c s started rest = (rest, refl)
reported_before-rest (some (answered, now)) epoch tasks c s started rest =
    elim (Bool-cases (has_report epoch.epoch c.reports)) [
      | inl e ↦ rw e (rest, refl)
      | inr e ↦ rw e (
        record {
          rest_past = rest.rest_past;
          rest_honest =
              All-append _ c.reports (record_of (frozen c epoch) answered now ∷ []) rest.rest_honest
                (frozen-IsHonest epoch answered now tasks c s started, tt);
        },
        refl,
      )
    ]

pub fail_synthesis-IsSound :
    (late : Option (Bool × ℕ)) (c : Coordinator)
    → 0 < c.tasks
    → IsSound c
    → IsSound (fail_synthesis late c)
unfolding fail_synthesis
fail_synthesis-IsSound late c running s = go c.current_epoch refl
  where
    go :
        (current : Option ReportEpoch)
        → c.current_epoch ≡ current
        → IsSound (elim current [
          | none ↦ c
          | some epoch ↦ rearm epoch (reported_before late epoch (ended_task c))
        ])
    go none e = s
    go (some epoch) e =
        let (known, _) = current_of epoch e s in
        let (started, going, idle) = is_running epoch c.tasks known running in
        let (rest, same) =
          reported_before-rest late epoch c.tasks (ended_task c) known started
            (record { rest_past = s.past; rest_honest = s.honest }) in
        rearm-IsSound epoch (reported_before late epoch (ended_task c))
          (subst (IsSoundEpoch epoch) (omega (arith, running, same)) known) going (same ∙ idle) rest
