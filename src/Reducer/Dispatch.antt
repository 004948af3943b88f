-- ===== src/Reducer/Dispatch.antt =====
-- `reduce_event` (reducer.py): identity first, then the handler of the event.
use maibot_lunagentic_resear.Prelude.{Result, ok, none, some}
use maibot_lunagentic_resear.Events.{
  EventBody, task_created, formalization_succeeded, formalization_failed, agent_call_requested,
  agent_call_reserved, agent_call_completed, agent_call_failed, procedure_batch_completed,
  child_materialized, summary_completed, summary_failed, branch_checkpointed, branch_finalized,
  report_deadline_reached, final_epoch_committed, grace_expired, report_completed,
  final_report_completed, final_report_failed, all_inflight_settled, pause_requested, pause_expired,
  pause_expiry_reached, continue_requested, stop_requested, context_supplied, feedback_submitted,
  outbox_delivered, persistence_failed, RuntimeEvent,
}
use maibot_lunagentic_resear.Credits.Scaled.{FloatArithmetic}
use maibot_lunagentic_resear.Reducer.State.{RuntimeState, Transition, unchanged, from_ignored}
use maibot_lunagentic_resear.Reducer.Transitions.{
  invalid, guarded, identity_reason, is_formalizing, is_settling, is_delivered,
}
use maibot_lunagentic_resear.Reducer.Lifecycle.{
  formalization_done, formalization_gave_up, pause, settle_inflight, expire_pause, stop,
  persistence_gave_up,
}
use maibot_lunagentic_resear.Reducer.Reports.{
  reach_deadline, commit_final_epoch, complete_report, expire_grace, complete_final_report,
  fail_final_report,
}
use maibot_lunagentic_resear.Reducer.Continue.{continue_round}
use maibot_lunagentic_resear.Reducer.Calls.{IdSupply}
use maibot_lunagentic_resear.Reducer.Agents.{request_call, reserve_call, complete_call, fail_call}
use maibot_lunagentic_resear.Reducer.Batch.{complete_batch}
use maibot_lunagentic_resear.Reducer.Branches.{materialize, finalize_branch}

module _ (float : FloatArithmetic) (ids : IdSupply) (state : RuntimeState)
    (event : RuntimeEvent) where
  -- The chain of `isinstance` tests.
  unfoldable pub handle : EventBody → Result Transition
  handle (task_created _) = ok (guarded (is_formalizing state.status) state event (unchanged state))
  handle (formalization_succeeded text sha256) = ok (
      guarded (is_formalizing state.status) state event
        (formalization_done state event text sha256))
  handle (formalization_failed code message) = ok (
      guarded (is_formalizing state.status) state event
        (formalization_gave_up state event code message))
  handle (agent_call_requested call) = request_call ids state event call
  handle (agent_call_reserved call) = ok (reserve_call ids state event call)
  handle (agent_call_completed call) = complete_call ids state event float call
  handle (agent_call_failed call) = fail_call ids state event float call
  handle (procedure_batch_completed batch) = complete_batch ids float state event batch
  handle (child_materialized child) = ok (materialize state event child)
  handle (summary_completed _ _) =
      ok (guarded (is_settling state.status) state event (unchanged state))
  handle (summary_failed _ _ _) =
      ok (guarded (is_settling state.status) state event (unchanged state))
  handle (branch_checkpointed _ _) =
      ok (guarded (is_settling state.status) state event (unchanged state))
  handle (branch_finalized branch_id _ _) = ok (finalize_branch state event branch_id)
  handle (report_deadline_reached epoch) = ok (reach_deadline state event epoch)
  handle (final_epoch_committed epoch) = ok (commit_final_epoch state event epoch)
  handle (grace_expired epoch) = ok (expire_grace state event epoch)
  handle (report_completed _) = ok (complete_report state event)
  handle (final_report_completed report_id) = ok (complete_final_report state event report_id)
  handle (final_report_failed code message) = ok (fail_final_report state event code message)
  handle all_inflight_settled = ok (settle_inflight state event)
  handle (pause_requested expires_at) = ok (pause state event expires_at)
  handle pause_expired = ok (expire_pause state event)
  handle pause_expiry_reached = ok (expire_pause state event)
  handle (continue_requested request) = ok (continue_round float state event request)
  handle (stop_requested _) = ok (stop state event)
  handle (context_supplied _) = ok (invalid state event)
  handle (feedback_submitted _) = ok (invalid state event)
  handle (outbox_delivered _) =
      ok (guarded (is_delivered state.status) state event (unchanged state))
  handle (persistence_failed code _) = ok (persistence_gave_up state event code)

  unfoldable pub reduce_event : Result Transition
  reduce_event = elim (identity_reason state event) [
    | some reason ↦ ok (from_ignored state reason)
    | none ↦ handle event.body
  ]
