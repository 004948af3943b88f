-- ===== src/Reducer/Runs.antt =====
-- Sequences of events: what holds along every run of the reducer.
use maibot_lunagentic_resear.Prelude.{
  ltb, Bool-cases, or_default, ok, ℕ, suc, ◌+◌, ◌≤◌, ◌<◌, ◌≡◌, refl, ◌∙◌, ◌⊎◌, inl, inr, arith,
}
use maibot_lunagentic_resear.Events.{EventBody, continue_requested, stop_requested, RuntimeEvent}
use maibot_lunagentic_resear.Credits.Scaled.{FloatArithmetic}
use maibot_lunagentic_resear.Reducer.State.{RuntimeState, Transition}
use maibot_lunagentic_resear.Reducer.Calls.{IdSupply}
use maibot_lunagentic_resear.Reducer.Dispatch.{reduce_event}
use maibot_lunagentic_resear.Reducer.Steps.{Renews}
use maibot_lunagentic_resear.Reducer.Steps.Course.{reduce_event-IsStep}

-- The states that events lead to, in any order and number; ignored and refused events are steps too.
pub data Run (float : FloatArithmetic) : RuntimeState → RuntimeState → Type 0 where
  done : {s : RuntimeState} → Run float s s
  step :
      {s end : RuntimeState} (ids : IdSupply) (event : RuntimeEvent) {t : Transition}
      → reduce_event float ids s event ≡ ok t
      → Run float t.next_state end
      → Run float s end

-- A continuation that names a generation before the one that the task is in.
abbrev pub NamesOlder : RuntimeState → EventBody → Type 0
NamesOlder state (continue_requested request) =
    or_default request.next_generation (state.generation + 1) < state.generation
NamesOlder state _ = ⊥

-- Some event of the run is one.
abbrev pub GoesBack : {float : FloatArithmetic} {s end : RuntimeState} → Run float s end → Type 0
GoesBack done = ⊥
GoesBack {s = s} (step ids event h rest) = NamesOlder s event.body ⊎ GoesBack rest

renewed :
    (state : RuntimeState) (body : EventBody) (new : ℕ)
    → (new ≡ state.generation) ⊎ Renews body state.generation new
    → (state.generation ≤ new) ⊎ NamesOlder state body
renewed state body new (inl same) = inl (omega (arith, same))
renewed state (stop_requested reason) new (inr h) = inl (omega (arith, h))
renewed state (continue_requested request) new (inr h) =
    elim (Bool-cases (ltb new state.generation)) [
      | inl older ↦ inr (ground (arith, older, h))
      | inr later ↦ inl (ground (arith, later))
    ]
renewed state _ new (inr h) = absurd h

epoch_rises : {old new end : ℕ} → (new ≡ old) ⊎ (new ≡ suc old) → new ≤ end → old ≤ end
epoch_rises (inl same) later = omega (arith, same, later)
epoch_rises (inr next) later = omega (arith, next, later)

-- Along every run a task keeps its id, and its report epoch and its count of agent calls never fall; nor
-- does its generation, unless some continuation of the run names a generation before the one that the
-- task is in then.
pub Run-monotone :
    {float : FloatArithmetic} {s end : RuntimeState} (run : Run float s end)
    → (end.task_id ≡ s.task_id)
      × (s.report_epoch ≤ end.report_epoch)
      × (s.agent_calls_started ≤ end.agent_calls_started)
      × ((s.generation ≤ end.generation) ⊎ GoesBack run)
Run-monotone done = (refl, omega arith, omega arith, inl (omega arith))
Run-monotone {float} {s} {end} (step ids event {t} h rest) =
    let one = reduce_event-IsStep float ids s event h in
    let (task, epoch, calls, generation) = Run-monotone rest in
    (
      task ∙ one.task,
      epoch_rises one.epoch epoch,
      omega (arith, one.calls, calls),
      rises (renewed s event.body t.next_state.generation one.generation) generation,
    )
  where
    rises :
        {older later : Type 0} {between : ℕ}
        → (s.generation ≤ between) ⊎ older
        → (between ≤ end.generation) ⊎ later
        → (s.generation ≤ end.generation) ⊎ (older ⊎ later)
    rises (inl first) (inl second) = inl (omega (arith, first, second))
    rises (inl first) (inr back) = inr (inr back)
    rises (inr back) _ = inr (inl back)
