-- ===== src/Reducer/Steps/Calls.antt =====
-- The handlers of agent calls and procedure batches keep to `IsStep`, where they return.
use maibot_lunagentic_resear.Prelude.{
  if◌then◌else◌, ℤ, pos, ◌-ℤ◌, ltb_ℤ, value_error, key_error, lrs_error, Result, ok, err, ◌>>=◌,
  Ensures, returns, raises, Ensures-bind, Ensures-any, Ensures-ok, Ensures-of_ok, ℕ, ◌≤◌, String,
  ◌≡◌, refl, Bool, true, false, not, Option, none, some, List, [], ◌∷◌, arith,
}
use maibot_lunagentic_resear.Commands.{StoreCommand}
use maibot_lunagentic_resear.Delegation.{DelegationRequest, DelegationPlan, plan_delegations}
use maibot_lunagentic_resear.Events.{EventBody, RuntimeEvent}
use maibot_lunagentic_resear.Events.Agents.{
  AgentCallRequested, AgentCallReserved, ProtocolFault, AgentCallCompleted, AgentCallFailed,
}
use maibot_lunagentic_resear.Events.Branches.{ProcedureBatchCompleted}
use maibot_lunagentic_resear.Credits.Scaled.{FloatArithmetic}
use maibot_lunagentic_resear.Credits.Usage.Reservation.{ReservationResult, reserve_input}
use maibot_lunagentic_resear.Credits.Usage.Settlement.{reconcile_usage}
use maibot_lunagentic_resear.Reducer.State.{RuntimeState, barrier, Effect, Transition, transition}
use maibot_lunagentic_resear.Reducer.Transitions.{effect, invalid, is_calling, is_in_flight}
use maibot_lunagentic_resear.Reducer.Calls.{
  IdSupply, caught, request_reservation, completion_args, failure_args, correction_reservation,
}
use maibot_lunagentic_resear.Reducer.Agents.{
  with_leaf, summary, request_call, reserve_call, can_correct, to_procedures, correction_id,
  corrected, correct_turn, after_turn, complete_call, fail_call,
}
use maibot_lunagentic_resear.Reducer.Procedures.{batch_commands}
use maibot_lunagentic_resear.Reducer.Batch.{
  plan_context, delegation_effects, Booked, NextStep, summarize, hand_on, calls_started, book_batch,
  delegate, next_step, take_step, complete_batch,
}
use maibot_lunagentic_resear.Reducer.Steps.{IsStep, quiet-IsStep, invalid-IsStep, guarded-IsStep}
use maibot_lunagentic_resear.Delegation.Calls.{plan_delegations-IsBounded}

module _ (ids : IdSupply) (state : RuntimeState) (event : RuntimeEvent) (body : EventBody) where
  abbrev Steps : Result Transition → Type 0
  Steps = Ensures (IsStep state event body)

  refused-Steps : Steps (ok (invalid state event))
  refused-Steps = returns invalid-IsStep

  caught-Steps :
      {A : Type 0} (r : Result A) (refused : Transition) (continue : A → Result Transition)
      → IsStep state event body refused
      → ((a : A) → r ≡ ok a → Steps (continue a))
      → Steps (caught r refused continue)
  unfolding caught
  caught-Steps (ok a) t next refused continue = continue a refl
  caught-Steps (err value_error) t next refused continue = returns refused
  caught-Steps (err key_error) t next refused continue = raises
  caught-Steps (err (lrs_error code)) t next refused continue = raises

  accepted-Steps :
      (accepted : Bool) (m : Result Transition)
      → Steps m
      → Steps (if accepted then m else ok (invalid state event))
  accepted-Steps true m steps = steps
  accepted-Steps false m steps = refused-Steps

  pub request_call-Steps : (call : AgentCallRequested) → Steps (request_call ids state event call)
  unfolding request_call
  request_call-Steps call = accepted-Steps (is_calling state.status) _ (
      caught-Steps (reserve_input (request_reservation ids event call)) _ _ invalid-IsStep
        λ reservation _. returns (quiet-IsStep refl refl (omega arith) refl refl))

  pub reserve_call-IsStep :
      (call : AgentCallReserved) → IsStep state event body (reserve_call ids state event call)
  unfolding reserve_call
  reserve_call-IsStep call =
      guarded-IsStep (is_in_flight state.status) λ _. quiet-IsStep refl refl (omega arith) refl refl

  correct_turn-Steps :
      (branch_id : String) (balance : ℤ) (commands : List StoreCommand) (call : AgentCallCompleted)
      (after : ℤ) (fault : ProtocolFault)
      → Steps (
          correct_turn ids state event
            (with_leaf state branch_id balance)
            commands
            call
            after
            fault)
  unfolding correct_turn
  correct_turn-Steps branch_id balance commands call after fault =
      go (ltb_ℤ after (pos 0)) (not (can_correct ids state event call)) (
        reserve_input (
          correction_reservation ids event call (correction_id ids state event call)
            (after -ℤ call.correction_estimated_charge)))
    where
      reconciled : RuntimeState
      reconciled = with_leaf state branch_id balance

      go :
          (debt uncorrectable : Bool) (reserved : Result ReservationResult)
          → Steps (
              if debt
              then ok (
                  transition reconciled commands
                    (effect event barrier (summary call.branch_id "negative_credit") ∷ []))
              else if uncorrectable
              then ok (
                  transition reconciled commands
                    (effect event barrier (summary call.branch_id "protocol_invalid") ∷ []))
              else (reserved >>= λ reservation. ok (
                  corrected ids state event reconciled commands call
                    (after -ℤ call.correction_estimated_charge)
                    fault
                    reservation)))
      go true uncorrectable reserved = returns (quiet-IsStep refl refl (omega arith) refl refl)
      go false true reserved = returns (quiet-IsStep refl refl (omega arith) refl refl)
      go false false (ok reservation) = returns (quiet-IsStep refl refl (ground arith) refl refl)
      go false false (err e) = raises

  after_turn-Steps :
      (branch_id : String) (balance : ℤ) (commands : List StoreCommand) (call : AgentCallCompleted)
      (after : ℤ)
      → Steps (after_turn ids state event (with_leaf state branch_id balance) commands call after)
  unfolding after_turn
  after_turn-Steps branch_id balance commands call after = go call.protocol_error
    where
      go :
          (fault : Option ProtocolFault)
          → Steps (elim fault [
            | none ↦ ok (
                to_procedures ids state event
                  (with_leaf state branch_id balance)
                  commands
                  call
                  after)
            | some fault ↦
                correct_turn ids state event
                  (with_leaf state branch_id balance)
                  commands
                  call
                  after
                  fault
          ])
      go none = returns (quiet-IsStep refl refl (omega arith) refl refl)
      go (some fault) = correct_turn-Steps branch_id balance commands call after fault

  pub complete_call-Steps :
      (float : FloatArithmetic) (call : AgentCallCompleted)
      → Steps (complete_call ids state event float call)
  unfolding complete_call
  complete_call-Steps float call = accepted-Steps (is_in_flight state.status) _ (
      caught-Steps (reconcile_usage float none (completion_args ids event call _ _)) _ _
        invalid-IsStep λ settled _. after_turn-Steps _ _ _ call _)

  pub fail_call-Steps :
      (float : FloatArithmetic) (call : AgentCallFailed)
      → Steps (fail_call ids state event float call)
  unfolding fail_call
  fail_call-Steps float call = accepted-Steps (is_in_flight state.status) _ (
      caught-Steps (reconcile_usage float none (failure_args ids event call _ _)) _ _ invalid-IsStep
        λ settled _. returns (quiet-IsStep refl refl (omega arith) refl refl))

  -- The booked state keeps status, epoch, generation and task, and counts the calls of the batch.
  record IsBooked (next : RuntimeState) : Type 0 where
    status : next.status ≡ state.status
    epoch : next.report_epoch ≡ state.report_epoch
    generation : next.generation ≡ state.generation
    task : next.task_id ≡ state.task_id
    counted : state.agent_calls_started ≤ next.agent_calls_started

  booked-IsStep :
      {next : RuntimeState} (commands : List StoreCommand) (effects : List Effect) (calls : ℕ)
      → IsBooked next
      → state.agent_calls_started ≤ calls
      → IsStep state event body
          (transition (record next { agent_calls_started = calls }) commands effects)
  booked-IsStep commands effects calls b counted =
      quiet-IsStep b.status b.epoch counted b.generation b.task

  booked_invalid-IsStep :
      {next : RuntimeState} → IsBooked next → IsStep state event body (invalid next event)
  unfolding invalid
  booked_invalid-IsStep b = quiet-IsStep b.status b.epoch b.counted b.generation b.task

  either-IsBooked :
      (b : Bool) (x y : Booked)
      → IsBooked x.next_state
      → IsBooked y.next_state
      → IsBooked (if b then x else y).next_state
  either-IsBooked true x y p q = p
  either-IsBooked false x y p q = q

  module _ (float : FloatArithmetic) (batch : ProcedureBatchCompleted) where
    book_batch-IsBooked : IsBooked (book_batch ids float state event batch).next_state
    unfolding book_batch
    book_batch-IsBooked =
        either-IsBooked state.continue_barrier _ _
          (record {
            status = refl;
            epoch = refl;
            generation = refl;
            task = refl;
            counted = ground arith;
          })
          (record {
            status = refl;
            epoch = refl;
            generation = refl;
            task = refl;
            counted = ground arith;
          })

    delegation_effects-counts :
        (delegations : List DelegationRequest) (credits : ℤ) (calls : ℕ) {planned : List Effect × ℕ}
        → delegation_effects event batch float delegations credits calls ≡ ok planned
        → calls ≤ planned.1
    unfolding delegation_effects
    delegation_effects-counts delegations credits calls h =
        Ensures-ok (λ planned. calls ≤ planned.1)
          (Ensures-bind (λ (plan : DelegationPlan). calls ≤ plan.calls_after_reservation) _
            {m = plan_delegations float (plan_context event batch credits calls) delegations}
            (Ensures-of_ok _ _
              λ plan at. omega (arith, (plan_delegations-IsBounded float _ delegations at).counted))
            λ plan counted. returns counted)
          h

    delegate-Steps :
        (booked : Booked) (commands : List StoreCommand) (delegations : List DelegationRequest)
        → IsBooked booked.next_state
        → Steps (delegate ids float state event batch booked commands delegations)
    unfolding delegate
    delegate-Steps booked commands delegations b =
        caught-Steps
          (delegation_effects event batch float delegations booked.credits_after
            (calls_started ids float state event batch))
          _ _ (booked_invalid-IsStep b)
          λ planned h. returns (
            booked-IsStep _ _ planned.1 b
              (ground (arith, delegation_effects-counts delegations _ _ h)))

    pub complete_batch-Steps : Steps (complete_batch ids float state event batch)
    unfolding complete_batch take_step
    complete_batch-Steps = accepted-Steps (is_in_flight state.status) _ (
        Ensures-bind _ (IsStep state event body) {m = batch_commands ids event batch}
          (Ensures-any _)
          λ commands _. go commands (
            next_step ids float state event batch
              (book_batch ids float state event batch).credits_after))
      where
        booked : Booked
        booked = book_batch ids float state event batch

        go :
            (commands : List StoreCommand) (step : NextStep)
            → Steps (take_step ids float state event batch booked commands step)
        go commands (summarize reason held) = returns (
            booked-IsStep commands _ booked.next_state.agent_calls_started book_batch-IsBooked
              book_batch-IsBooked.counted)
        go commands (hand_on delegations) =
            delegate-Steps booked commands delegations book_batch-IsBooked
