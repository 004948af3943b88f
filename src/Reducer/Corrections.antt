-- ===== src/Reducer/Corrections.antt =====
-- A turn that is not of the protocol is corrected a bounded number of times.
use maibot_lunagentic_resear.Prelude.{
  if◌then◌else◌, or_default, All, ℤ, pos, ◌+ℤ◌, ◌-ℤ◌, ◌≤ℤ◌, ltb_ℤ, max_ℤ, int_laws, value_error,
  key_error, lrs_error, Result, ok, err, ◌>>=◌, Ensures, returns, raises, Ensures-ok, suc, ◌+◌, ◌≡◌,
  refl, Bool, true, false, not, Option, none, some, List, [], ◌∷◌, arith,
}
use maibot_lunagentic_resear.Commands.{StoreCommand}
use maibot_lunagentic_resear.Credits.Scaled.{FloatArithmetic}
use maibot_lunagentic_resear.Credits.Usage.Reservation.{ReservationResult, reserve_input}
use maibot_lunagentic_resear.Credits.Usage.Reconciliation.{reconciliation_commands}
use maibot_lunagentic_resear.Credits.Usage.Settlement.{reconcile_usage}
use maibot_lunagentic_resear.Events.{RuntimeEvent}
use maibot_lunagentic_resear.Events.Agents.{ProtocolFault, AgentCallCompleted}
use maibot_lunagentic_resear.Reducer.State.{
  RuntimeState, barrier, Action, perform_agent_call, Effect, Transition, transition,
}
use maibot_lunagentic_resear.Reducer.Transitions.{effect, invalid, is_in_flight}
use maibot_lunagentic_resear.Reducer.Calls.{
  IdSupply, caught, completion_args, correction_reservation,
}
use maibot_lunagentic_resear.Reducer.Agents.{
  with_leaf, summary, can_correct, to_procedures, correction_id, corrected, correct_turn,
  after_turn, completed_balance, complete_call,
}

-- An agent call that the effect starts is the next correction of the same branch, on the same model,
-- and no later than the last one allowed.
abbrev pub IsNextCorrection : AgentCallCompleted → Action → Type 0
IsNextCorrection call (perform_agent_call next) =
    (next.branch_id ≡ call.branch_id)
    × (next.correction_count ≡ suc call.correction_count)
    × (pos next.correction_count ≤ℤ max_ℤ (pos 0) call.max_correction_turns)
    × (pos 0 ≤ℤ next.credits_after_reservation +ℤ next.estimated_charge)
IsNextCorrection call _ = Unit {0}

abbrev pub StartsCorrections : AgentCallCompleted → Transition → Type 0
StartsCorrections call t = All (λ (e : Effect). IsNextCorrection call e.action) t.effects

module _ (ids : IdSupply) (state : RuntimeState) (event : RuntimeEvent)
    (call : AgentCallCompleted) where
  can_correct-bound :
      can_correct ids state event call ≡ true
      → pos (call.correction_count + 1) ≤ℤ max_ℤ (pos 0) call.max_correction_turns
  can_correct-bound h = ground arith

  correct_turn-corrects :
      (reconciled : RuntimeState) (commands : List StoreCommand) (balance : ℤ)
      (fault : ProtocolFault)
      → Ensures
          (StartsCorrections call)
          (correct_turn ids state event reconciled commands call balance fault)
  unfolding correct_turn
  correct_turn-corrects reconciled commands balance fault =
      go (ltb_ℤ balance (pos 0)) (can_correct ids state event call) (λ h. ground arith)
        can_correct-bound
        (reserve_input (
          correction_reservation ids event call (correction_id ids state event call)
            (balance -ℤ call.correction_estimated_charge)))
    where
      go :
          (debt correctable : Bool)
          → (debt ≡ false → pos 0 ≤ℤ balance)
          → (correctable ≡ true
              → pos (call.correction_count + 1) ≤ℤ max_ℤ (pos 0) call.max_correction_turns)
          → (reserved : Result ReservationResult)
          → Ensures (StartsCorrections call) (
              if debt
              then ok (
                  transition reconciled commands
                    (effect event barrier (summary call.branch_id "negative_credit") ∷ []))
              else if not correctable
              then ok (
                  transition reconciled commands
                    (effect event barrier (summary call.branch_id "protocol_invalid") ∷ []))
              else (reserved >>= λ reservation. ok (
                  corrected ids state event reconciled commands call
                    (balance -ℤ call.correction_estimated_charge)
                    fault
                    reservation)))
      go true correctable funds bound reserved = returns (tt, tt)
      go false false funds bound reserved = returns (tt, tt)
      go false true funds bound (ok reservation) =
          returns ((refl, omega arith, bound refl, grind (int_laws, funds refl)), tt)
      go false true funds bound (err e) = raises

  after_turn-corrects :
      (reconciled : RuntimeState) (commands : List StoreCommand) (balance : ℤ)
      → Ensures
          (StartsCorrections call)
          (after_turn ids state event reconciled commands call balance)
  unfolding after_turn
  after_turn-corrects reconciled commands balance = go call.protocol_error
    where
      go :
          (fault : Option ProtocolFault)
          → Ensures (StartsCorrections call) (elim fault [
            | none ↦ ok (to_procedures ids state event reconciled commands call balance)
            | some fault ↦ correct_turn ids state event reconciled commands call balance fault
          ])
      go none = returns (tt, tt)
      go (some fault) = correct_turn-corrects reconciled commands balance fault

  invalid-corrects : StartsCorrections call (invalid state event)
  unfolding invalid
  invalid-corrects = (tt, tt)

  caught-corrects :
      {A : Type 0} (r : Result A) (next : A → Result Transition)
      → ((a : A) → Ensures (StartsCorrections call) (next a))
      → Ensures (StartsCorrections call) (caught r (invalid state event) next)
  unfolding caught
  caught-corrects (ok a) next k = k a
  caught-corrects (err value_error) next k = returns invalid-corrects
  caught-corrects (err key_error) next k = raises
  caught-corrects (err (lrs_error code)) next k = raises

  -- An agent call that a completed call starts is a correction: it is for the same branch, its count
  -- is the next one and at most `max_correction_turns`, and the balance before its reservation is not
  -- negative.
  pub complete_call-corrects :
      (float : FloatArithmetic) {t : Transition}
      → complete_call ids state event float call ≡ ok t
      → StartsCorrections call t
  unfolding complete_call
  complete_call-corrects float h =
      Ensures-ok (StartsCorrections call) (go (is_in_flight state.status)) h
    where
      go :
          (allowed : Bool)
          → Ensures (StartsCorrections call) (
              if allowed
              then caught
                  (reconcile_usage float none (
                    completion_args ids event call
                      (or_default call.actual_charge call.estimated_charge)
                      (completed_balance ids state event call)))
                  (invalid state event)
                  (λ reconciliation.
                    after_turn ids state event
                      (with_leaf state call.branch_id (completed_balance ids state event call))
                      (reconciliation_commands reconciliation)
                      call
                      (completed_balance ids state event call))
              else ok (invalid state event))
      go true = caught-corrects _ _ λ settled. after_turn-corrects _ _ _
      go false = returns invalid-corrects
