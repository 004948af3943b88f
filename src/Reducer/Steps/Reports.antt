-- ===== src/Reducer/Steps/Reports.antt =====
-- The handlers of the report epochs keep to `IsStep`.
use maibot_lunagentic_resear.Prelude.{
  ltb, leb, nat_eq, if◌then◌else◌, Bool-cases, or_default, some_injective, ℕ, suc, ◌+◌, String, ◌≡◌,
  refl, sym, ◌∙◌, ◌⊎◌, inl, inr, Bool, true, false, not, Option, none, some, List, arith,
}
use maibot_lunagentic_resear.Models.{running, finalizing}
use maibot_lunagentic_resear.Commands.{StoreCommand}
use maibot_lunagentic_resear.Events.{EventBody, RuntimeEvent}
use maibot_lunagentic_resear.Reducer.State.{RuntimeState, Transition, unchanged, from_ignored}
use maibot_lunagentic_resear.Reducer.Transitions.{is_reporting, is_finalizing, is_committing}
use maibot_lunagentic_resear.Reducer.Reports.{
  change, ignore, resolve_report_epoch_update, enter_finalizing, no_leaves, open_epoch,
  reach_deadline, apply_epoch_update, commit_final_epoch, complete_report, grace_ignored,
  expire_grace, complete_final_report, fail_final_report,
}
use maibot_lunagentic_resear.Reducer.Steps.{
  StatusEdge, reports, goes_on, wraps_up_running, wraps_up_reporting, completes,
  completes_with_errors, IsStep, unchanged-IsStep, ignored-IsStep, guarded-IsStep,
  transition_status-IsStep, move-IsStep,
}
use maibot_lunagentic_resear.Reducer.Steps.Edges.{
  is_running_eq, is_reporting_eq, is_finalizing_eq, from_status, committing_to_finalizing,
}

module _ (state : RuntimeState) (event : RuntimeEvent) where
  abbrev Steps : EventBody → Transition → Type 0
  Steps = IsStep state event

  module _ {body : EventBody} where
    pub enter_finalizing-IsStep :
        (report_epoch : Option ℕ) (opens : Bool) (extra : List StoreCommand)
        (changed : RuntimeState)
        → StatusEdge state.status finalizing
        → (or_default report_epoch changed.report_epoch ≡ state.report_epoch)
          ⊎ (or_default report_epoch changed.report_epoch ≡ suc state.report_epoch)
        → state.agent_calls_started ≡ changed.agent_calls_started
        → changed.generation ≡ state.generation
        → changed.task_id ≡ state.task_id
        → Steps body (enter_finalizing state event report_epoch opens extra changed)
    unfolding enter_finalizing
    enter_finalizing-IsStep report_epoch opens extra changed edge epoch calls generation task =
        transition_status-IsStep _ _ _ edge epoch (omega arith) (inl generation) task

    open_epoch-IsStep :
        (epoch : ℕ)
        → state.status ≡ running
        → epoch ≡ suc state.report_epoch
        → Steps body (open_epoch state event epoch)
    unfolding open_epoch
    open_epoch-IsStep epoch at next = elim (Bool-cases (no_leaves state.active_leaves)) [
      | inl none_left ↦ rw none_left (
          enter_finalizing-IsStep _ _ _ _ (from_status at wraps_up_running) (inr next) refl refl
            refl)
      | inr some_left ↦ rw some_left (
          transition_status-IsStep _ _ _ (from_status at reports) (inr next) (omega arith)
            (inl refl) refl)
    ]

    pub reach_deadline-IsStep :
        (requested : Option ℕ) → Steps body (reach_deadline state event requested)
    unfolding reach_deadline
    reach_deadline-IsStep requested =
        let epoch = or_default requested (state.report_epoch + 1) in
        guarded-IsStep _ λ h.
          go epoch (is_running_eq _ h) (leb epoch state.report_epoch)
            (nat_eq epoch (state.report_epoch + 1)) (ground arith)
      where
        go :
            (epoch : ℕ)
            → state.status ≡ running
            → (stale next : Bool) → (next ≡ true → epoch ≡ suc state.report_epoch)
            → Steps body (
                if stale
                then from_ignored state "stale_report_epoch"
                else if not next
                then from_ignored state "future_report_epoch"
                else open_epoch state event epoch)
        go epoch at true next e = ignored-IsStep _
        go epoch at false false e = ignored-IsStep _
        go epoch at false true e = open_epoch-IsStep epoch at (e refl)

    apply_epoch_update-IsStep :
        (epoch : Option ℕ)
        → is_committing state.status ≡ true
        → ((n : ℕ) → epoch ≡ some n → n ≡ suc state.report_epoch)
        → Steps body (apply_epoch_update state event (change epoch))
    unfolding apply_epoch_update
    apply_epoch_update-IsStep none h next = elim (Bool-cases (is_finalizing state.status)) [
      | inl at ↦ rw at unchanged-IsStep
      | inr at ↦
          rw at
            (enter_finalizing-IsStep _ _ _ _ (committing_to_finalizing h) (inl refl) refl refl refl)
    ]
    apply_epoch_update-IsStep (some n) h next = elim (Bool-cases (is_finalizing state.status)) [
      | inl at ↦ rw at (
          enter_finalizing-IsStep _ _ _ _ (committing_to_finalizing h) (inr (next n refl)) refl refl
            refl)
      | inr at ↦ rw at (
          enter_finalizing-IsStep _ _ _ _ (committing_to_finalizing h) (inr (next n refl)) refl refl
            refl)
    ]

    pub commit_final_epoch-IsStep :
        (requested : Option ℕ) → Steps body (commit_final_epoch state event requested)
    unfolding commit_final_epoch resolve_report_epoch_update apply_epoch_update
    commit_final_epoch-IsStep none =
        guarded-IsStep _ λ h. apply_epoch_update-IsStep none h (λ n e. cc)
    commit_final_epoch-IsStep (some requested) = guarded-IsStep _ λ h.
        go h (nat_eq requested state.report_epoch) (nat_eq requested (state.report_epoch + 1))
          (leb requested state.report_epoch) (ground arith)
      where
        go :
            is_committing state.status ≡ true
            → (same next stale : Bool) → (next ≡ true → requested ≡ suc state.report_epoch)
            → Steps body (
                apply_epoch_update state event (
                  if same
                  then change none
                  else if next
                  then change (some requested)
                  else if stale
                  then ignore "stale_report_epoch"
                  else ignore "future_report_epoch"))
        go h true next stale e = apply_epoch_update-IsStep none h (λ n e. cc)
        go h false true stale e =
            apply_epoch_update-IsStep (some requested) h (λ n s. sym (some_injective s) ∙ e refl)
        go h false false true e = ignored-IsStep _
        go h false false false e = ignored-IsStep _

    pub complete_report-IsStep : Steps body (complete_report state event)
    unfolding complete_report
    complete_report-IsStep = guarded-IsStep (is_reporting state.status) λ h.
        elim (Bool-cases (no_leaves state.active_leaves)) [
          | inl none_left ↦ rw none_left (
              enter_finalizing-IsStep _ _ _ _ (from_status (is_reporting_eq _ h) wraps_up_reporting)
                (inl refl) refl refl refl)
          | inr some_left ↦
              rw some_left
                (move-IsStep _ _ _ (from_status (is_reporting_eq _ h) goes_on) refl refl refl refl)
        ]

    grace_ignored-IsStep : (epoch : Option ℕ) → Steps body (grace_ignored state epoch)
    grace_ignored-IsStep none = unchanged-IsStep
    grace_ignored-IsStep (some epoch) =
        go (ltb epoch state.report_epoch) (ltb state.report_epoch epoch)
      where
        go :
            (stale future : Bool)
            → Steps body (
                if stale
                then from_ignored state "stale_report_epoch"
                else if future
                then from_ignored state "future_report_epoch"
                else unchanged state)
        go true future = ignored-IsStep _
        go false true = ignored-IsStep _
        go false false = unchanged-IsStep

    pub expire_grace-IsStep : (epoch : Option ℕ) → Steps body (expire_grace state event epoch)
    unfolding expire_grace
    expire_grace-IsStep epoch = elim (Bool-cases (is_finalizing state.status)) [
      | inl at ↦ rw at (ignored-IsStep _)
      | inr at ↦ rw at (guarded-IsStep (is_reporting state.status) λ h. grace_ignored-IsStep epoch)
    ]

    pub complete_final_report-IsStep :
        (report_id : String) → Steps body (complete_final_report state event report_id)
    unfolding complete_final_report
    complete_final_report-IsStep report_id =
        guarded-IsStep _
          λ h. move-IsStep _ _ _ (from_status (is_finalizing_eq _ h) completes) refl refl refl refl

    pub fail_final_report-IsStep :
        (code message : String) → Steps body (fail_final_report state event code message)
    unfolding fail_final_report
    fail_final_report-IsStep code message = guarded-IsStep _ λ h.
        move-IsStep _ _ _ (from_status (is_finalizing_eq _ h) completes_with_errors) refl refl refl
          refl
