-- ===== src/Reducer/Steps.antt =====
-- What a transition of the reducer keeps to, and how the pieces of a handler keep to it.
pub mod Edges
pub mod Lifecycle
pub mod Reports
pub mod Rounds
pub mod Calls
pub mod Course
use mathlib.Core.Path.{subst}
use maibot_lunagentic_resear.Prelude.{
  or_default, ℕ, suc, ◌+◌, ◌≤◌, String, ◌≡◌, refl, sym, ◌⊎◌, inl, Bool, true, false, some, List, [],
  ◌∷◌, ◌++◌, arith,
}
use maibot_lunagentic_resear.Models.{
  TaskStatus, formalizing, running, reporting, pausing, paused, finalizing, completed,
  completed_with_errors, stopped, expired, failed, is_terminal,
}
use maibot_lunagentic_resear.Commands.{NewRound, StoreCommand, insert_round, set_task_current_round}
use maibot_lunagentic_resear.Events.{EventBody, continue_requested, stop_requested, RuntimeEvent}
use maibot_lunagentic_resear.Reducer.State.{
  RuntimeState, Effect, Transition, unchanged, from_ignored,
}
use maibot_lunagentic_resear.Reducer.Transitions.{
  invalid, guarded, lifecycle_event, lifecycle_commands, transition_status,
}

-- From which status to which a round moves.
pub data StatusEdge : TaskStatus → TaskStatus → Type 0 where
  stays : {s : TaskStatus} → StatusEdge s s
  formalizes : StatusEdge formalizing running
  pauses_running : StatusEdge running pausing
  pauses_reporting : StatusEdge reporting pausing
  settles : StatusEdge pausing paused
  expires : StatusEdge paused expired
  stops : {s : TaskStatus} → is_terminal s ≡ false → StatusEdge s stopped
  reports : StatusEdge running reporting
  goes_on : StatusEdge reporting running
  wraps_up_running : StatusEdge running finalizing
  wraps_up_reporting : StatusEdge reporting finalizing
  completes : StatusEdge finalizing completed
  completes_with_errors : StatusEdge finalizing completed_with_errors
  continues : StatusEdge paused running
  restarts : {s : TaskStatus} → is_terminal s ≡ true → StatusEdge s running
  fails : {s : TaskStatus} → StatusEdge s failed

-- A change of status is written with its rows in the same commands; a new round is inserted in it.
pub data IsLogged (event : RuntimeEvent) (old : TaskStatus) (next : RuntimeState)
    (commands : List StoreCommand) : Type 0 where
  quiet : next.status ≡ old → IsLogged event old next commands
  moved :
      (extra : List StoreCommand)
      → commands ≡ extra ++ lifecycle_commands event old next.status
      → IsLogged event old next commands
  opened :
      (row : NewRound)
      → next.active_round_id ≡ some row.round_id
      → next.status ≡ row.status
      → next.generation ≡ row.generation
      → commands
        ≡ insert_round row
          ∷ set_task_current_round event.task_id row.round_number event.occurred_at
          ∷ lifecycle_event event old next.status row.round_id
          ∷ []
      → IsLogged event old next commands

-- The events that renew the generation, and to what.
abbrev pub Renews : EventBody → ℕ → ℕ → Type 0
Renews (stop_requested _) old new = new ≡ suc old
Renews (continue_requested request) old new = new ≡ or_default request.next_generation (old + 1)
Renews _ old new = ⊥

pub record IsStep (state : RuntimeState) (event : RuntimeEvent) (body : EventBody) (t : Transition)
    : Type 0 where
  pub edge : StatusEdge state.status t.next_state.status
  pub epoch :
      (t.next_state.report_epoch ≡ state.report_epoch)
      ⊎ (t.next_state.report_epoch ≡ suc state.report_epoch)
  pub calls : state.agent_calls_started ≤ t.next_state.agent_calls_started
  pub generation :
      (t.next_state.generation ≡ state.generation)
      ⊎ Renews body state.generation t.next_state.generation
  pub logged : IsLogged event state.status t.next_state t.commands
  pub task : t.next_state.task_id ≡ state.task_id

module _ {state : RuntimeState} {event : RuntimeEvent} {body : EventBody} where
  -- A transition that only moves credits or counts calls.
  pub quiet-IsStep :
      {t : Transition}
      → t.next_state.status ≡ state.status
      → t.next_state.report_epoch ≡ state.report_epoch
      → state.agent_calls_started ≤ t.next_state.agent_calls_started
      → t.next_state.generation ≡ state.generation
      → t.next_state.task_id ≡ state.task_id
      → IsStep state event body t
  quiet-IsStep {t} status epoch calls generation task = record {
    edge = subst (λ s. StatusEdge state.status s) (sym status) stays;
    epoch = inl epoch;
    calls = calls;
    generation = inl generation;
    logged = quiet status;
    task = task;
  }

  pub unchanged-IsStep : IsStep state event body (unchanged state)
  unchanged-IsStep = quiet-IsStep refl refl (omega arith) refl refl

  pub ignored-IsStep : (reason : String) → IsStep state event body (from_ignored state reason)
  ignored-IsStep reason = quiet-IsStep refl refl (omega arith) refl refl

  pub invalid-IsStep : IsStep state event body (invalid state event)
  unfolding invalid
  invalid-IsStep = quiet-IsStep refl refl (omega arith) refl refl

  pub guarded-IsStep :
      (allowed : Bool) {t : Transition}
      → (allowed ≡ true → IsStep state event body t)
      → IsStep state event body (guarded allowed state event t)
  guarded-IsStep true step = step refl
  guarded-IsStep false step = invalid-IsStep

  pub transition_status-IsStep :
      {new : TaskStatus} (effects : List Effect) (extra : List StoreCommand)
      (changed : RuntimeState)
      → StatusEdge state.status new
      → (changed.report_epoch ≡ state.report_epoch)
        ⊎ (changed.report_epoch ≡ suc state.report_epoch)
      → state.agent_calls_started ≤ changed.agent_calls_started
      → (changed.generation ≡ state.generation) ⊎ Renews body state.generation changed.generation
      → changed.task_id ≡ state.task_id
      → IsStep state event body (transition_status state event new effects extra changed)
  unfolding transition_status
  transition_status-IsStep effects extra changed edge epoch calls generation task = record {
    edge = edge;
    epoch = epoch;
    calls = calls;
    generation = generation;
    logged = moved extra refl;
    task = task;
  }

  -- A change of status that keeps counters and generation.
  pub move-IsStep :
      {new : TaskStatus} (effects : List Effect) (extra : List StoreCommand)
      (changed : RuntimeState)
      → StatusEdge state.status new
      → changed.report_epoch ≡ state.report_epoch
      → state.agent_calls_started ≡ changed.agent_calls_started
      → changed.generation ≡ state.generation
      → changed.task_id ≡ state.task_id
      → IsStep state event body (transition_status state event new effects extra changed)
  move-IsStep effects extra changed edge epoch calls generation task =
      transition_status-IsStep effects extra changed edge (inl epoch) (omega arith) (inl generation)
        task
