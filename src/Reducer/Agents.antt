-- ===== src/Reducer/Agents.antt =====
-- `AgentCallRequested`, `AgentCallReserved`, `AgentCallCompleted` and `AgentCallFailed` (reducer.py).
use maibot_lunagentic_resear.Prelude.{
  max_ℕ, if◌then◌else◌, is_empty, text_or, is_none, or_default, ℤ, pos, ◌+ℤ◌, ◌-ℤ◌, ltb_ℤ, max_ℤ,
  Result, ok, ◌>>=◌, ◌+◌, String, Bool, true, not, ◌&&◌, Option, none, some, List, [], ◌∷◌, ◌++◌,
}
use maibot_lunagentic_resear.Dict.{get_or_zero}
use maibot_lunagentic_resear.Commands.{StoreCommand}
use maibot_lunagentic_resear.Delegation.{correction_message}
use maibot_lunagentic_resear.Credits.Scaled.{FloatArithmetic}
use maibot_lunagentic_resear.Credits.Usage.Reservation.{
  ReservationResult, reservation_commands, reserve_input,
}
use maibot_lunagentic_resear.Credits.Usage.Reconciliation.{reconciliation_commands}
use maibot_lunagentic_resear.Credits.Usage.Settlement.{is_reported, reconcile_usage}
use maibot_lunagentic_resear.Text.{with_suffix, pinned_selector}
use maibot_lunagentic_resear.Events.{RuntimeEvent}
use maibot_lunagentic_resear.Events.Agents.{
  AgentCallRequested, AgentCallReserved, no_protocol_result, ProtocolFault, AgentCallCompleted,
  AgentCallFailed,
}
use maibot_lunagentic_resear.Reducer.State.{
  RuntimeState, normal, barrier, Action, perform_agent_call, perform_procedure_batch,
  perform_branch_summary, Transition, transition,
}
use maibot_lunagentic_resear.Reducer.Transitions.{
  effect, invalid, guarded, lifecycle_event, insert_present, is_calling, is_in_flight,
}
use maibot_lunagentic_resear.Reducer.Calls.{
  IdSupply, caught, request_reservation, completion_args, failure_args, correction_reservation,
}

abbrev pub with_leaf : RuntimeState → String → ℤ → RuntimeState
with_leaf state branch_id balance = record state {
  active_leaves = insert_present branch_id balance state.active_leaves;
}

abbrev pub summary : String → String → Action
summary branch_id reason = perform_branch_summary (record {
  branch_id = branch_id;
  reason = reason;
  held_delegations = [];
  appended_messages = [];
  messages = [];
})

module _ (ids : IdSupply) (state : RuntimeState) (event : RuntimeEvent) where
  abbrev pub launched : AgentCallRequested → ReservationResult → Transition
  launched call reservation =
      let balance = call.balance_before -ℤ call.estimated_charge in
      transition (with_leaf state call.branch_id balance)
        (reservation_commands reservation
          ++ lifecycle_event event state.status state.status event.round_id ∷ [])
        (effect event normal (
            perform_agent_call (record {
              branch_id = call.branch_id;
              call_id = call.call_id;
              agent_id = some call.agent_id;
              selector = call.selector;
              protocol = call.protocol;
              messages = call.messages;
              estimated_charge = call.estimated_charge;
              credits_after_reservation = balance;
              correction_count = call.correction_count;
              max_correction_turns = none;
              pinning_supported = call.pinning_supported;
              limits = call.limits;
            }))
          ∷ [])

  unfoldable pub request_call : AgentCallRequested → Result Transition
  request_call call =
      if is_calling state.status
      then caught (reserve_input (request_reservation ids event call)) (invalid state event)
          (λ reservation. ok (launched call reservation))
      else ok (invalid state event)

  unfoldable pub reserve_call : AgentCallReserved → Transition
  reserve_call call =
      let balance = get_or_zero call.branch_id state.active_leaves -ℤ call.reserved_credits in
      guarded (is_in_flight state.status) state event
        (transition (with_leaf state call.branch_id balance) [] [])

  -- `can_correct`
  abbrev pub can_correct : AgentCallCompleted → Bool
  can_correct call =
      (ltb_ℤ (pos call.correction_count) (max_ℤ (pos 0) call.max_correction_turns)
        && call.pinning_supported)
      && not (is_empty call.actual_model_name)

  -- The turn goes on to its procedures.
  abbrev pub to_procedures : RuntimeState → List StoreCommand → AgentCallCompleted → ℤ → Transition
  to_procedures reconciled commands call balance =
      let result = or_default call.protocol_result no_protocol_result in
      transition reconciled commands (
        effect event normal (
          perform_procedure_batch (record {
            branch_id = call.branch_id;
            call_id = call.call_id;
            result_id = call.result_id;
            report = result.report;
            requests = result.procedures;
            delegations = result.delegations;
            credits_after = balance;
            messages = call.messages;
            limits = call.limits;
            protocol = text_or call.protocol "json_envelope";
          }))
        ∷ [])

  abbrev pub correction_id : AgentCallCompleted → String
  correction_id call = text_or call.correction_call_id (with_suffix call.call_id "correction")

  abbrev pub corrected :
      RuntimeState
      → List StoreCommand
      → AgentCallCompleted
      → ℤ
      → ProtocolFault
      → ReservationResult
      → Transition
  corrected reconciled commands call balance fault reservation =
      let calls_started = max_ℕ state.agent_calls_started call.limits.agent_calls_started + 1 in
      transition
        (record reconciled {
          active_leaves = insert_present call.branch_id balance reconciled.active_leaves;
          agent_calls_started = calls_started;
        })
        (commands ++ reservation_commands reservation)
        (effect event normal (
            perform_agent_call (record {
              branch_id = call.branch_id;
              call_id = correction_id call;
              agent_id = none;
              selector = pinned_selector call.actual_model_name;
              protocol = text_or call.protocol "json_envelope";
              messages = call.messages ++ correction_message fault.message fault.errors ∷ [];
              estimated_charge = call.correction_estimated_charge;
              credits_after_reservation = balance;
              correction_count = call.correction_count + 1;
              max_correction_turns = some call.max_correction_turns;
              pinning_supported = true;
              limits = record call.limits { agent_calls_started = calls_started };
            }))
          ∷ [])

  -- A turn that is not of the protocol: the branch ends, or its model is asked once more. The
  -- reservation of the correction stands outside the `try`.
  unfoldable pub correct_turn :
      RuntimeState → List StoreCommand → AgentCallCompleted → ℤ → ProtocolFault → Result Transition
  correct_turn reconciled commands call balance fault =
      let correction_balance = balance -ℤ call.correction_estimated_charge in
      if ltb_ℤ balance (pos 0)
      then ok (
          transition reconciled commands
            (effect event barrier (summary call.branch_id "negative_credit") ∷ []))
      else if not (can_correct call)
      then ok (
          transition reconciled commands
            (effect event barrier (summary call.branch_id "protocol_invalid") ∷ []))
      else (reserve_input
            (correction_reservation ids event call (correction_id call) correction_balance)
          >>= λ reservation.
              ok (corrected reconciled commands call correction_balance fault reservation))

  unfoldable pub after_turn :
      RuntimeState → List StoreCommand → AgentCallCompleted → ℤ → Result Transition
  after_turn reconciled commands call balance = elim call.protocol_error [
    | none ↦ ok (to_procedures reconciled commands call balance)
    | some fault ↦ correct_turn reconciled commands call balance fault
  ]

  -- `balance_after` of a completed call
  abbrev pub completed_balance : AgentCallCompleted → ℤ
  completed_balance call =
      call.balance_before_reconciliation
      +ℤ call.estimated_charge
      -ℤ or_default call.actual_charge call.estimated_charge

  unfoldable pub complete_call : FloatArithmetic → AgentCallCompleted → Result Transition
  complete_call float call =
      let balance = completed_balance call in
      let actual_charge = or_default call.actual_charge call.estimated_charge in
      if is_in_flight state.status
      then caught
          (reconcile_usage float none (completion_args ids event call actual_charge balance))
          (invalid state event)
          (λ reconciliation.
            after_turn (with_leaf state call.branch_id balance)
              (reconciliation_commands reconciliation) call balance)
      else ok (invalid state event)

  -- `actual_charge` of a failed call
  abbrev pub failed_charge : AgentCallFailed → Option ℤ
  failed_charge call =
      if is_reported call.usage && is_none call.actual_charge
      then some call.estimated_charge
      else call.actual_charge

  abbrev pub failed_balance : AgentCallFailed → ℤ
  failed_balance call =
      if is_reported call.usage
      then call.balance_before_reconciliation
        +ℤ (call.estimated_charge -ℤ or_default (failed_charge call) (pos 0))
      else call.balance_before_reconciliation

  unfoldable pub fail_call : FloatArithmetic → AgentCallFailed → Result Transition
  fail_call float call =
      let balance = failed_balance call in
      if is_in_flight state.status
      then caught
          (reconcile_usage float none (failure_args ids event call (failed_charge call) balance))
          (invalid state event)
          (λ reconciliation. ok (
            transition (with_leaf state call.branch_id balance)
              (reconciliation_commands reconciliation)
              (effect event barrier
                  (summary call.branch_id (text_or call.error_code "agent_failed"))
                ∷ [])))
      else ok (invalid state event)
