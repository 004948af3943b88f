-- ===== src/Reducer/Closed.antt =====
-- A finished round is closed.
use maibot_lunagentic_resear.Prelude.{
  if◌then◌else◌, Result, ok, Ensures, returns, Ensures-ok, ℕ, String, ◌≡◌, refl, Bool, true, false,
  Option, none, some, [], arith,
}
use maibot_lunagentic_resear.Models.{TaskStatus, is_terminal}
use maibot_lunagentic_resear.Events.{
  EventBody, task_created, formalization_succeeded, formalization_failed, agent_call_requested,
  agent_call_reserved, agent_call_completed, agent_call_failed, procedure_batch_completed,
  child_materialized, summary_completed, summary_failed, branch_checkpointed, branch_finalized,
  report_deadline_reached, final_epoch_committed, grace_expired, report_completed,
  final_report_completed, final_report_failed, all_inflight_settled, pause_requested, pause_expired,
  pause_expiry_reached, continue_requested, stop_requested, context_supplied, feedback_submitted,
  outbox_delivered, persistence_failed, RuntimeEvent,
}
use maibot_lunagentic_resear.Credits.Scaled.{FloatArithmetic}
use maibot_lunagentic_resear.Reducer.State.{RuntimeState, Transition, unchanged, from_ignored}
use maibot_lunagentic_resear.Reducer.Transitions.{
  invalid, guarded, identity_reason, is_formalizing, is_running, is_reporting, is_pausing,
  is_paused, is_finalizing, is_calling, is_in_flight, is_settling, is_committing,
}
use maibot_lunagentic_resear.Reducer.Lifecycle.{
  pause, settle_inflight, expire_pause, is_active, stop,
}
use maibot_lunagentic_resear.Reducer.Reports.{
  reach_deadline, commit_final_epoch, complete_report, expire_grace, complete_final_report,
  fail_final_report,
}
use maibot_lunagentic_resear.Reducer.Calls.{IdSupply}
use maibot_lunagentic_resear.Reducer.Agents.{request_call, reserve_call, complete_call, fail_call}
use maibot_lunagentic_resear.Reducer.Batch.{complete_batch}
use maibot_lunagentic_resear.Reducer.Branches.{materialize, finalize_branch}
use maibot_lunagentic_resear.Reducer.Dispatch.{handle, reduce_event}

-- `ContinueRequested` and `PersistenceFailed`
abbrev pub reopens : EventBody → Bool
reopens (continue_requested _) = true
reopens (persistence_failed _ _) = true
reopens _ = false

-- Nothing changes and nothing is written.
pub record IsInert (state : RuntimeState) (t : Transition) : Type 0 where
  pub next : t.next_state ≡ state
  pub commands : t.commands ≡ []

-- The guards that no terminal status passes.
not_formalizing : (s : TaskStatus) → is_terminal s ≡ true → is_formalizing s ≡ false
not_formalizing s h = ground arith

not_running : (s : TaskStatus) → is_terminal s ≡ true → is_running s ≡ false
not_running s h = ground arith

not_reporting : (s : TaskStatus) → is_terminal s ≡ true → is_reporting s ≡ false
not_reporting s h = ground arith

not_pausing : (s : TaskStatus) → is_terminal s ≡ true → is_pausing s ≡ false
not_pausing s h = ground arith

not_paused : (s : TaskStatus) → is_terminal s ≡ true → is_paused s ≡ false
not_paused s h = ground arith

not_finalizing : (s : TaskStatus) → is_terminal s ≡ true → is_finalizing s ≡ false
not_finalizing s h = ground arith

not_calling : (s : TaskStatus) → is_terminal s ≡ true → is_calling s ≡ false
not_calling s h = ground arith

not_in_flight : (s : TaskStatus) → is_terminal s ≡ true → is_in_flight s ≡ false
not_in_flight s h = ground arith

not_settling : (s : TaskStatus) → is_terminal s ≡ true → is_settling s ≡ false
not_settling s h = ground arith

not_committing : (s : TaskStatus) → is_terminal s ≡ true → is_committing s ≡ false
not_committing s h = ground arith

not_active : (s : TaskStatus) → is_terminal s ≡ true → is_active s ≡ false
not_active s h = ground arith

module _ (float : FloatArithmetic) (ids : IdSupply) (state : RuntimeState)
    (event : RuntimeEvent) where
  invalid-IsInert : IsInert state (invalid state event)
  unfolding invalid
  invalid-IsInert = record { next = refl; commands = refl }

  -- A guard that the status fails, or one before an inert transition.
  refused-IsInert :
      (allowed : Bool) (t : Transition)
      → allowed ≡ false
      → IsInert state (guarded allowed state event t)
  refused-IsInert true t h = cc
  refused-IsInert false t h = invalid-IsInert

  guarded-IsInert :
      (allowed : Bool) (t : Transition)
      → IsInert state t
      → IsInert state (guarded allowed state event t)
  guarded-IsInert true t inert = inert
  guarded-IsInert false t inert = invalid-IsInert

  refused-Inert :
      (allowed : Bool) (m : Result Transition)
      → allowed ≡ false
      → Ensures (IsInert state) (if allowed then m else ok (invalid state event))
  refused-Inert true m h = cc
  refused-Inert false m h = returns invalid-IsInert

  unchanged-IsInert : IsInert state (unchanged state)
  unchanged-IsInert = record { next = refl; commands = refl }

  expire_grace-IsInert :
      (epoch : Option ℕ)
      → is_terminal state.status ≡ true
      → IsInert state (expire_grace state event epoch)
  unfolding expire_grace
  expire_grace-IsInert epoch h =
      rw (not_finalizing state.status h) (refused-IsInert _ _ (not_reporting _ h))

  handle-IsInert :
      (body : EventBody)
      → is_terminal state.status ≡ true
      → reopens body ≡ false
      → Ensures (IsInert state) (handle float ids state event body)
  unfolding handle request_call reserve_call complete_call fail_call complete_batch materialize
      finalize_branch reach_deadline commit_final_epoch complete_report complete_final_report
      fail_final_report settle_inflight pause expire_pause stop
  handle-IsInert (task_created _) h r = returns (refused-IsInert _ _ (not_formalizing _ h))
  handle-IsInert (formalization_succeeded _ _) h r =
      returns (refused-IsInert _ _ (not_formalizing _ h))
  handle-IsInert (formalization_failed _ _) h r =
      returns (refused-IsInert _ _ (not_formalizing _ h))
  handle-IsInert (agent_call_requested call) h r = refused-Inert _ _ (not_calling _ h)
  handle-IsInert (agent_call_reserved call) h r = returns (refused-IsInert _ _ (not_in_flight _ h))
  handle-IsInert (agent_call_completed call) h r = refused-Inert _ _ (not_in_flight _ h)
  handle-IsInert (agent_call_failed call) h r = refused-Inert _ _ (not_in_flight _ h)
  handle-IsInert (procedure_batch_completed batch) h r = refused-Inert _ _ (not_in_flight _ h)
  handle-IsInert (child_materialized child) h r = returns (refused-IsInert _ _ (not_in_flight _ h))
  handle-IsInert (summary_completed _ _) h r = returns (guarded-IsInert _ _ unchanged-IsInert)
  handle-IsInert (summary_failed _ _ _) h r = returns (guarded-IsInert _ _ unchanged-IsInert)
  handle-IsInert (branch_checkpointed _ _) h r = returns (guarded-IsInert _ _ unchanged-IsInert)
  handle-IsInert (branch_finalized _ _ _) h r = returns (refused-IsInert _ _ (not_settling _ h))
  handle-IsInert (report_deadline_reached _) h r = returns (refused-IsInert _ _ (not_running _ h))
  handle-IsInert (final_epoch_committed _) h r = returns (refused-IsInert _ _ (not_committing _ h))
  handle-IsInert (grace_expired epoch) h r = returns (expire_grace-IsInert epoch h)
  handle-IsInert (report_completed _) h r = returns (refused-IsInert _ _ (not_reporting _ h))
  handle-IsInert (final_report_completed _) h r = returns (refused-IsInert _ _ (not_finalizing _ h))
  handle-IsInert (final_report_failed _ _) h r = returns (refused-IsInert _ _ (not_finalizing _ h))
  handle-IsInert all_inflight_settled h r = returns (refused-IsInert _ _ (not_pausing _ h))
  handle-IsInert (pause_requested _) h r = returns (refused-IsInert _ _ (not_calling _ h))
  handle-IsInert pause_expired h r = returns (refused-IsInert _ _ (not_paused _ h))
  handle-IsInert pause_expiry_reached h r = returns (refused-IsInert _ _ (not_paused _ h))
  handle-IsInert (continue_requested _) h r = cc
  handle-IsInert (stop_requested _) h r = returns (refused-IsInert _ _ (not_active _ h))
  handle-IsInert (context_supplied _) h r = returns invalid-IsInert
  handle-IsInert (feedback_submitted _) h r = returns invalid-IsInert
  handle-IsInert (outbox_delivered _) h r = returns (guarded-IsInert _ _ unchanged-IsInert)
  handle-IsInert (persistence_failed _ _) h r = cc

  -- In a terminal status every event but a continuation and a failure of the store leaves the state
  -- as it is and writes nothing.
  pub reduce_event-IsInert :
      {t : Transition}
      → is_terminal state.status ≡ true
      → reopens event.body ≡ false
      → reduce_event float ids state event ≡ ok t
      → IsInert state t
  unfolding reduce_event
  reduce_event-IsInert h r e = Ensures-ok (IsInert state) (go (identity_reason state event)) e
    where
      go :
          (reason : Option String)
          → Ensures (IsInert state) (elim reason [
            | some reason ↦ ok (from_ignored state reason)
            | none ↦ handle float ids state event event.body
          ])
      go none = handle-IsInert event.body h r
      go (some reason) = returns (record { next = refl; commands = refl })
