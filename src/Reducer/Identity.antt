-- ===== src/Reducer/Identity.antt =====
-- Which events a task takes: those of its task, its generation and its round.
use maibot_lunagentic_resear.Prelude.{
  some_injective, ok, ok_injective, suc, ◌≤◌, ◌<◌, String, ◌≡◌, refl, sym, ap, ◌∙◌, ◌⊎◌, inl, inr,
  true, false, not, Option, none, some, arith, eq_iff, eq_refl,
}
use maibot_lunagentic_resear.Models.{stopped, is_terminal}
use maibot_lunagentic_resear.Events.{stop_requested, RuntimeEvent}
use maibot_lunagentic_resear.Credits.Scaled.{FloatArithmetic}
use maibot_lunagentic_resear.Reducer.State.{RuntimeState, Transition, from_ignored}
use maibot_lunagentic_resear.Reducer.Transitions.{
  is_other_round, identity_reason, transition_status,
}
use maibot_lunagentic_resear.Reducer.Lifecycle.{stop}
use maibot_lunagentic_resear.Reducer.Calls.{IdSupply}
use maibot_lunagentic_resear.Reducer.Dispatch.{handle, reduce_event}

pub record IsAddressed (state : RuntimeState) (event : RuntimeEvent) : Type 0 where
  pub task : event.task_id ≡ state.task_id
  pub generation : event.generation ≡ state.generation
  pub round : (state.active_round_id ≡ none) ⊎ (state.active_round_id ≡ some event.round_id)

round_cases :
    (current : Option String) (round_id : String)
    → is_other_round current round_id ≡ false
    → (current ≡ none) ⊎ (current ≡ some round_id)
round_cases none round_id h = inl refl
round_cases (some current) round_id h = inr (ground (arith, eq_iff round_id current))

not_other_round :
    (current : Option String) (round_id : String)
    → (current ≡ none) ⊎ (current ≡ some round_id)
    → is_other_round current round_id ≡ false
not_other_round none round_id h = refl
not_other_round (some current) round_id (inl h) = cc
not_other_round (some current) round_id (inr h) = rw (some_injective h) (ap not (eq_refl round_id))

module _ (state : RuntimeState) (event : RuntimeEvent) where
  identity_reason_sound : identity_reason state event ≡ none → IsAddressed state event
  unfolding identity_reason
  identity_reason_sound h = record {
    task = ground (arith, eq_iff event.task_id state.task_id);
    generation = ground arith;
    round = round_cases state.active_round_id event.round_id (ground arith);
  }

  identity_reason_complete : IsAddressed state event → identity_reason state event ≡ none
  unfolding identity_reason
  identity_reason_complete a = ground (
    arith,
    eq_iff event.task_id state.task_id,
    a.task,
    a.generation,
    not_other_round state.active_round_id event.round_id a.round,
  )

late-identity_reason :
    (state : RuntimeState) (event : RuntimeEvent)
    → event.task_id ≡ state.task_id
    → event.generation < state.generation
    → identity_reason state event ≡ some "late_generation"
unfolding identity_reason
late-identity_reason state event task late = ground (arith, eq_iff event.task_id state.task_id)

module _ (float : FloatArithmetic) (ids : IdSupply) (state : RuntimeState)
    (event : RuntimeEvent) where
  abbrev pub IdentityOutcome : Type 0
  IdentityOutcome =
      (IsAddressed state event
        × (reduce_event float ids state event ≡ handle float ids state event event.body))
      ⊎ (¬ IsAddressed state event
          × ((reason : String) × (reduce_event float ids state event
                ≡ ok (from_ignored state reason))))

  -- An event of another task, another generation or, where the task has a round, another round is
  -- ignored: the state stays, nothing is written and nothing is started. Any other event goes to its
  -- handler.
  pub reduce_event-IsAddressed : IdentityOutcome
  unfolding reduce_event
  reduce_event-IsAddressed = go (identity_reason state event) refl
    where
      go :
          (reason : Option String)
          → identity_reason state event ≡ reason
          → (IsAddressed state event
              × (elim reason [
                | some reason ↦ ok (from_ignored state reason)
                | none ↦ handle float ids state event event.body
              ]
                  ≡ handle float ids state event event.body))
            ⊎ (¬ IsAddressed state event
                × ((ignored : String) × (elim reason [
                  | some reason ↦ ok (from_ignored state reason)
                  | none ↦ handle float ids state event event.body
                ]
                      ≡ ok (from_ignored state ignored))))
      go none at = inl (identity_reason_sound state event at, refl)
      go (some reason) at =
          inr ((λ a. differs (identity_reason_complete state event a)), (reason, refl))
        where
          differs : identity_reason state event ≡ none → ⊥
          differs h = cc

  stop_accepted :
      is_terminal state.status ≡ false
      → (stop state event).next_state ≡ record state {
        status = stopped;
        generation = suc state.generation;
        raw_context_released = true;
        inflight_count = 0;
      }
  unfolding stop transition_status
  stop_accepted live = rw live refl

  late_is_ignored :
      event.task_id ≡ state.task_id
      → event.generation < state.generation
      → reduce_event float ids state event ≡ ok (from_ignored state "late_generation")
  unfolding reduce_event
  late_is_ignored task late = rw (reduce_event, late-identity_reason state event task late) refl

module _ (float : FloatArithmetic) (ids : IdSupply) (state : RuntimeState) where
  stop-effect :
      (event : RuntimeEvent) {reason : String} {t : Transition}
      → event.body ≡ stop_requested reason
      → IsAddressed state event
      → reduce_event float ids state event ≡ ok t
      → t ≡ stop state event
  unfolding handle
  stop-effect event {reason} body addressed h =
      elim (reduce_event-IsAddressed float ids state event) [
        | inl (_, handled) ↦ ok_injective (sym h ∙ handled ∙ ap (handle float ids state event) body)
        | inr (other, _) ↦ absurd (other addressed)
      ]

  -- Once a live round has taken a stop, it is stopped, and whatever a worker of the generation
  -- before, or of an older one, still reports for the task is ignored as late.
  pub stop-late :
      (event late : RuntimeEvent) {reason : String} {t : Transition}
      → is_terminal state.status ≡ false
      → event.body ≡ stop_requested reason
      → IsAddressed state event
      → reduce_event float ids state event ≡ ok t
      → late.task_id ≡ state.task_id
      → late.generation ≤ state.generation
      → (t.next_state.status ≡ stopped)
        × (reduce_event float ids t.next_state late
            ≡ ok (from_ignored t.next_state "late_generation"))
  stop-late event late {t} live body addressed h task old =
      let after =
        ap (λ (t : Transition). t.next_state) (stop-effect event body addressed h)
        ∙ stop_accepted float ids state event live in
      rw after (refl, late_is_ignored float ids _ late task (omega arith))
