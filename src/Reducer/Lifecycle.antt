-- ===== src/Reducer/Lifecycle.antt =====
-- The events of a round's life (reducer.py): formalization, pause, stop, failure.
use maibot_lunagentic_resear.Prelude.{
  text_or, ℕ, suc, String, Bool, true, not, Option, none, some, List, [], ◌∷◌,
}
use maibot_lunagentic_resear.Models.{
  TaskStatus, running, pausing, paused, stopped, expired, failed, is_terminal,
}
use maibot_lunagentic_resear.Commands.{update_task_formalization, update_round_generation}
use maibot_lunagentic_resear.Events.{RuntimeEvent}
use maibot_lunagentic_resear.Reducer.State.{
  RuntimeState, normal, barrier, call_root, arm_pause_expiry, release_raw_context, notify_failure,
  notify_code, Effect, Transition,
}
use maibot_lunagentic_resear.Reducer.Transitions.{
  effect_at, effect, guarded, transition_status, is_pausing, is_paused, is_calling,
}

-- `_formalization_succeeded`
unfoldable pub formalization_done : RuntimeState → RuntimeEvent → String → String → Transition
formalization_done state event text sha256 =
    transition_status state event running (effect event normal (call_root text) ∷ [])
      (update_task_formalization event.task_id text sha256 event.occurred_at ∷ [])
      (record state {
        formalized_task = some (record { text = text; sha256 = sha256 });
        failure_code = none;
      })

-- `_formalization_failed`
unfoldable pub formalization_gave_up : RuntimeState → RuntimeEvent → String → String → Transition
formalization_gave_up state event code message =
    transition_status state event failed (effect event barrier (notify_failure code message) ∷ [])
      [] (record state { failure_code = some (text_or code "formalization_failed") })

abbrev pub pause_effects : RuntimeEvent → Option ℕ → List Effect
pause_effects event none = []
pause_effects event (some due_at) = effect event barrier (arm_pause_expiry due_at) ∷ []

unfoldable pub pause : RuntimeState → RuntimeEvent → Option ℕ → Transition
pause state event expires_at =
    guarded (is_calling state.status) state event
      (transition_status state event pausing (pause_effects event expires_at) [] state)

unfoldable pub settle_inflight : RuntimeState → RuntimeEvent → Transition
settle_inflight state event =
    guarded (is_pausing state.status) state event
      (transition_status state event paused [] [] (record state { inflight_count = 0 }))

unfoldable pub expire_pause : RuntimeState → RuntimeEvent → Transition
expire_pause state event = guarded (is_paused state.status) state event (
    transition_status state event expired (effect event barrier release_raw_context ∷ []) []
      (record state { raw_context_released = true }))

-- The round's six live statuses.
abbrev pub is_active : TaskStatus → Bool
is_active status = not (is_terminal status)

unfoldable pub stop : RuntimeState → RuntimeEvent → Transition
stop state event =
    let next_generation = suc state.generation in
    guarded (is_active state.status) state event (
      transition_status state event stopped
        (effect_at (some event.round_id) next_generation event barrier release_raw_context ∷ [])
        (update_round_generation event.round_id next_generation ∷ [])
        (record state {
          generation = next_generation;
          raw_context_released = true;
          inflight_count = 0;
        }))

unfoldable pub persistence_gave_up : RuntimeState → RuntimeEvent → String → Transition
persistence_gave_up state event code =
    transition_status state event failed
      (effect event barrier (notify_code "storage_commit_failed") ∷ []) []
      (record state { failure_code = some (text_or code "storage_commit_failed") })
