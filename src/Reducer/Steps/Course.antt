-- ===== src/Reducer/Steps/Course.antt =====
-- What every event does to the course of a task.
use maibot_lunagentic_resear.Prelude.{
  ok, Ensures, returns, Ensures-ok, String, ◌≡◌, Option, none, some,
}
use maibot_lunagentic_resear.Events.{
  EventBody, task_created, formalization_succeeded, formalization_failed, agent_call_requested,
  agent_call_reserved, agent_call_completed, agent_call_failed, procedure_batch_completed,
  child_materialized, summary_completed, summary_failed, branch_checkpointed, branch_finalized,
  report_deadline_reached, final_epoch_committed, grace_expired, report_completed,
  final_report_completed, final_report_failed, all_inflight_settled, pause_requested, pause_expired,
  pause_expiry_reached, continue_requested, stop_requested, context_supplied, feedback_submitted,
  outbox_delivered, persistence_failed, RuntimeEvent,
}
use maibot_lunagentic_resear.Credits.Scaled.{FloatArithmetic}
use maibot_lunagentic_resear.Reducer.State.{RuntimeState, Transition, from_ignored}
use maibot_lunagentic_resear.Reducer.Transitions.{
  identity_reason, is_formalizing, is_settling, is_delivered,
}
use maibot_lunagentic_resear.Reducer.Calls.{IdSupply}
use maibot_lunagentic_resear.Reducer.Dispatch.{handle, reduce_event}
use maibot_lunagentic_resear.Reducer.Steps.{
  IsStep, unchanged-IsStep, ignored-IsStep, invalid-IsStep, guarded-IsStep,
}
use maibot_lunagentic_resear.Reducer.Steps.Lifecycle.{
  formalization_done-IsStep, formalization_gave_up-IsStep, pause-IsStep, settle_inflight-IsStep,
  expire_pause-IsStep, persistence_gave_up-IsStep, stop-IsStep,
}
use maibot_lunagentic_resear.Reducer.Steps.Reports.{
  reach_deadline-IsStep, commit_final_epoch-IsStep, complete_report-IsStep, expire_grace-IsStep,
  complete_final_report-IsStep, fail_final_report-IsStep,
}
use maibot_lunagentic_resear.Reducer.Steps.Rounds.{
  continue_round-IsStep, materialize-IsStep, finalize_branch-IsStep,
}
use maibot_lunagentic_resear.Reducer.Steps.Calls.{
  request_call-Steps, reserve_call-IsStep, complete_call-Steps, fail_call-Steps,
  complete_batch-Steps,
}

module _ (float : FloatArithmetic) (ids : IdSupply) (state : RuntimeState)
    (event : RuntimeEvent) where
  handle-Steps :
      (body : EventBody) → Ensures (IsStep state event body) (handle float ids state event body)
  unfolding handle
  handle-Steps (task_created _) =
      returns (guarded-IsStep (is_formalizing state.status) λ _. unchanged-IsStep)
  handle-Steps (formalization_succeeded text sha256) =
      returns (formalization_done-IsStep state event text sha256)
  handle-Steps (formalization_failed code message) =
      returns (formalization_gave_up-IsStep state event code message)
  handle-Steps (agent_call_requested call) = request_call-Steps ids state event _ call
  handle-Steps (agent_call_reserved call) = returns (reserve_call-IsStep ids state event _ call)
  handle-Steps (agent_call_completed call) = complete_call-Steps ids state event _ float call
  handle-Steps (agent_call_failed call) = fail_call-Steps ids state event _ float call
  handle-Steps (procedure_batch_completed batch) =
      complete_batch-Steps ids state event _ float batch
  handle-Steps (child_materialized child) = returns (materialize-IsStep state event child)
  handle-Steps (summary_completed _ _) =
      returns (guarded-IsStep (is_settling state.status) λ _. unchanged-IsStep)
  handle-Steps (summary_failed _ _ _) =
      returns (guarded-IsStep (is_settling state.status) λ _. unchanged-IsStep)
  handle-Steps (branch_checkpointed _ _) =
      returns (guarded-IsStep (is_settling state.status) λ _. unchanged-IsStep)
  handle-Steps (branch_finalized branch_id _ _) =
      returns (finalize_branch-IsStep state event branch_id)
  handle-Steps (report_deadline_reached epoch) = returns (reach_deadline-IsStep state event epoch)
  handle-Steps (final_epoch_committed epoch) = returns (commit_final_epoch-IsStep state event epoch)
  handle-Steps (grace_expired epoch) = returns (expire_grace-IsStep state event epoch)
  handle-Steps (report_completed _) = returns (complete_report-IsStep state event)
  handle-Steps (final_report_completed report_id) =
      returns (complete_final_report-IsStep state event report_id)
  handle-Steps (final_report_failed code message) =
      returns (fail_final_report-IsStep state event code message)
  handle-Steps all_inflight_settled = returns (settle_inflight-IsStep state event)
  handle-Steps (pause_requested expires_at) = returns (pause-IsStep state event expires_at)
  handle-Steps pause_expired = returns (expire_pause-IsStep state event)
  handle-Steps pause_expiry_reached = returns (expire_pause-IsStep state event)
  handle-Steps (continue_requested request) =
      returns (continue_round-IsStep state event float request)
  handle-Steps (stop_requested reason) = returns (stop-IsStep state event reason)
  handle-Steps (context_supplied _) = returns invalid-IsStep
  handle-Steps (feedback_submitted _) = returns invalid-IsStep
  handle-Steps (outbox_delivered _) =
      returns (guarded-IsStep (is_delivered state.status) λ _. unchanged-IsStep)
  handle-Steps (persistence_failed code _) = returns (persistence_gave_up-IsStep state event code)

  pub reduce_event-IsStep :
      {t : Transition} → reduce_event float ids state event ≡ ok t → IsStep state event event.body t
  unfolding reduce_event
  reduce_event-IsStep h =
      Ensures-ok (IsStep state event event.body) (go (identity_reason state event)) h
    where
      go :
          (reason : Option String)
          → Ensures (IsStep state event event.body) (elim reason [
            | some reason ↦ ok (from_ignored state reason)
            | none ↦ handle float ids state event event.body
          ])
      go none = handle-Steps event.body
      go (some reason) = returns (ignored-IsStep reason)
