-- ===== src/Reducer/Transitions.antt =====
-- The pieces that every handler is built of (reducer.py): identity, refusal, change of status.
use maibot_lunagentic_resear.Prelude.{
  ltb, if◌then◌else◌, or_default, ℤ, ℕ, String, Bool, true, false, not, ◌||◌, Option, none, some,
  List, [], ◌∷◌, ◌++◌, ◌==◌,
}
use maibot_lunagentic_resear.Dict.{Dict, contains, insert}
use maibot_lunagentic_resear.Models.{
  TaskStatus, formalizing, running, reporting, pausing, paused, finalizing, completed,
  completed_with_errors, is_terminal,
}
use maibot_lunagentic_resear.Commands.{StoreCommand, update_round_status, insert_lifecycle_event}
use maibot_lunagentic_resear.Events.{RuntimeEvent, event_type}
use maibot_lunagentic_resear.Reducer.State.{
  RuntimeState, Priority, barrier, Action, notify_invalid, Effect, Transition, transition,
}

-- `_effect` without and with its optional arguments
abbrev pub effect_at : Option String → ℕ → RuntimeEvent → Priority → Action → Effect
effect_at round_id generation event priority action = record {
  task_id = event.task_id;
  round_id = round_id;
  generation = generation;
  priority = priority;
  event_id = event.event_id;
  action = action;
}

abbrev pub effect : RuntimeEvent → Priority → Action → Effect
effect event priority action =
    effect_at (some event.round_id) event.generation event priority action

-- `_invalid`; without a round in the state the effect goes to the event's.
unfoldable pub invalid : RuntimeState → RuntimeEvent → Transition
invalid state event = record {
  next_state = state;
  commands = [];
  effects =
      effect_at (some (or_default state.active_round_id event.round_id)) state.generation event
        barrier (notify_invalid state.status (event_type event.body))
      ∷ [];
  ignored = false;
  reason = some "invalid_state";
  error = some "invalid_state";
}

-- `if status not in ...: return _invalid(...)`
abbrev pub guarded : Bool → RuntimeState → RuntimeEvent → Transition → Transition
guarded allowed state event t = if allowed then t else invalid state event

abbrev pub is_other_round : Option String → String → Bool
is_other_round none round_id = false
is_other_round (some current) round_id = not (round_id == current)

-- `_validate_identity`: the reason to ignore the event, if there is one.
unfoldable pub identity_reason : RuntimeState → RuntimeEvent → Option String
identity_reason state event =
    if not (event.task_id == state.task_id)
    then some "task_mismatch"
    else if ltb event.generation state.generation
    then some "late_generation"
    else if ltb state.generation event.generation
    then some "future_generation"
    else if is_other_round state.active_round_id event.round_id
    then some "round_mismatch"
    else none

-- `_lifecycle_event_command`, the event's own fields as JSON left out
abbrev pub lifecycle_event : RuntimeEvent → TaskStatus → TaskStatus → String → StoreCommand
lifecycle_event event old new round_id = insert_lifecycle_event (record {
  event_id = event.event_id;
  task_id = event.task_id;
  round_id = round_id;
  event_type = event_type event.body;
  from_status = old;
  to_status = new;
  created_at = event.occurred_at;
})

-- `_lifecycle_commands`
unfoldable pub lifecycle_commands : RuntimeEvent → TaskStatus → TaskStatus → List StoreCommand
lifecycle_commands event old new =
    update_round_status (record {
      round_id = event.round_id;
      status = new;
      report_deadline_at = none;
      ended_at = if is_terminal new then some event.occurred_at else none;
    })
    ∷ lifecycle_event event old new event.round_id
    ∷ []

-- `_transition_status`: `changed` is the state with the other changes made.
unfoldable pub transition_status :
    RuntimeState
    → RuntimeEvent
    → TaskStatus
    → List Effect
    → List StoreCommand
    → RuntimeState
    → Transition
transition_status state event new_status effects extra changed =
    transition (record changed { status = new_status })
      (extra ++ lifecycle_commands event state.status new_status) effects

-- `d[key] = value` where the key is in the dict
unfoldable pub insert_present : String → ℤ → Dict ℤ → Dict ℤ
insert_present k v d = if contains k d then insert k v d else d

-- Statuses in which an event is accepted.
abbrev pub is_formalizing : TaskStatus → Bool
is_formalizing formalizing = true
is_formalizing _ = false

abbrev pub is_running : TaskStatus → Bool
is_running running = true
is_running _ = false

abbrev pub is_reporting : TaskStatus → Bool
is_reporting reporting = true
is_reporting _ = false

abbrev pub is_pausing : TaskStatus → Bool
is_pausing pausing = true
is_pausing _ = false

abbrev pub is_paused : TaskStatus → Bool
is_paused paused = true
is_paused _ = false

abbrev pub is_finalizing : TaskStatus → Bool
is_finalizing finalizing = true
is_finalizing _ = false

-- `{RUNNING, REPORTING}`
abbrev pub is_calling : TaskStatus → Bool
is_calling status = is_running status || is_reporting status

-- `{RUNNING, REPORTING, PAUSING}`
abbrev pub is_in_flight : TaskStatus → Bool
is_in_flight status = is_calling status || is_pausing status

-- `{RUNNING, REPORTING, PAUSING, FINALIZING}`
abbrev pub is_settling : TaskStatus → Bool
is_settling status = is_in_flight status || is_finalizing status

-- `{RUNNING, REPORTING, FINALIZING}`
abbrev pub is_committing : TaskStatus → Bool
is_committing status = is_calling status || is_finalizing status

-- `{COMPLETED, COMPLETED_WITH_ERRORS}`
abbrev pub is_delivered : TaskStatus → Bool
is_delivered completed = true
is_delivered completed_with_errors = true
is_delivered _ = false
