-- ===== src/Tests/Events.antt =====
-- Single events and short runs of the reducer.
use maibot_lunagentic_resear.Prelude.{ok, ◌≤◌, ◌≡◌, refl, ◌⊎◌, inr, none, [], ◌∷◌, arith}
use maibot_lunagentic_resear.Models.{running, finalizing, completed, stopped}
use maibot_lunagentic_resear.Events.{
  branch_finalized, report_deadline_reached, stop_requested, RuntimeEvent,
}
use maibot_lunagentic_resear.Reducer.State.{
  RuntimeState, barrier, final, open_report_epoch, Transition, transition, from_ignored,
}
use maibot_lunagentic_resear.Reducer.Transitions.{
  effect, invalid, identity_reason, lifecycle_commands, transition_status,
}
use maibot_lunagentic_resear.Reducer.Lifecycle.{stop}
use maibot_lunagentic_resear.Reducer.Reports.{enter_finalizing, open_epoch, reach_deadline}
use maibot_lunagentic_resear.Reducer.Branches.{finalize_branch}
use maibot_lunagentic_resear.Reducer.Dispatch.{handle, reduce_event}
use maibot_lunagentic_resear.Reducer.Closed.{IsInert, reduce_event-IsInert}
use maibot_lunagentic_resear.Reducer.Identity.{
  IsAddressed, IdentityOutcome, reduce_event-IsAddressed, stop-late,
}
use maibot_lunagentic_resear.Reducer.Runs.{Run, done, step, GoesBack, Run-monotone}
use maibot_lunagentic_resear.Tests.Data.{cents, sample_ids, idle, busy, event_of}

abbrev deadline : RuntimeEvent
deadline = event_of (report_deadline_reached none)

abbrev wrapped_up : RuntimeState
wrapped_up = record idle { status = finalizing; report_epoch = 1 }

abbrev after_deadline : Transition
after_deadline =
    transition wrapped_up (lifecycle_commands deadline running finalizing)
      (effect deadline barrier (open_report_epoch 1 final) ∷ [])

deadline_is_reached : reduce_event cents sample_ids idle deadline ≡ ok after_deadline
unfolding reduce_event identity_reason handle reach_deadline open_epoch enter_finalizing
    transition_status
deadline_is_reached = refl

reduce_event-IsAddressed_example : IdentityOutcome cents sample_ids idle deadline
reduce_event-IsAddressed_example = reduce_event-IsAddressed cents sample_ids idle deadline

-- A branch that reports its end after the round is over.
abbrev over : RuntimeState
over = record idle { status = completed }

abbrev late_end : RuntimeEvent
late_end = event_of (branch_finalized "b1" "s1" "")

late_end_is_refused : reduce_event cents sample_ids over late_end ≡ ok (invalid over late_end)
unfolding reduce_event identity_reason handle finalize_branch
late_end_is_refused = refl

reduce_event-IsInert_example : IsInert over (invalid over late_end)
reduce_event-IsInert_example =
    reduce_event-IsInert cents sample_ids over late_end refl refl late_end_is_refused

abbrev stop_now : RuntimeEvent
stop_now = event_of (stop_requested "user")

busy-IsAddressed : IsAddressed busy stop_now
busy-IsAddressed = record { task = refl; generation = refl; round = inr refl }

stop_is_taken : reduce_event cents sample_ids busy stop_now ≡ ok (stop busy stop_now)
unfolding reduce_event identity_reason handle
stop_is_taken = refl

stop-late_example :
    ((stop busy stop_now).next_state.status ≡ stopped)
    × (reduce_event cents sample_ids (stop busy stop_now).next_state late_end
        ≡ ok (from_ignored (stop busy stop_now).next_state "late_generation"))
stop-late_example =
    stop-late cents sample_ids busy stop_now late_end refl refl busy-IsAddressed stop_is_taken refl
      (omega arith)

abbrev deadline_run : Run cents idle wrapped_up
deadline_run = step sample_ids deadline deadline_is_reached done

Run-monotone_example :
    (wrapped_up.task_id ≡ idle.task_id)
    × (idle.report_epoch ≤ wrapped_up.report_epoch)
    × (idle.agent_calls_started ≤ wrapped_up.agent_calls_started)
    × ((idle.generation ≤ wrapped_up.generation) ⊎ GoesBack deadline_run)
Run-monotone_example = Run-monotone deadline_run
