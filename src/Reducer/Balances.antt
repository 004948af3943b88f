-- ===== src/Reducer/Balances.antt =====
-- What a completed call books in the credit ledger, against the balance of its branch.
use maibot_lunagentic_resear.Prelude.{
  if◌then◌else◌, or_default, some_injective, ℤ, pos, ◌-ℤ◌, ltb_ℤ, int_laws, value_error, key_error,
  lrs_error, Result, ok, err, ◌>>=◌, Ensures, returns, raises, Ensures-ok, Ensures-of_ok, String,
  ◌≡◌, refl, sym, ap, ◌∙◌, Bool, true, false, not, Option, none, some, List, [], ◌∷◌, arith,
  eq_refl,
}
use maibot_lunagentic_resear.Dict.{Dict, lookup}
use maibot_lunagentic_resear.Commands.{StoreCommand, ledger_total}
use maibot_lunagentic_resear.Credits.Scaled.{FloatArithmetic}
use maibot_lunagentic_resear.Credits.Usage.Reservation.{
  ReservationResult, reservation_commands, reserve_input,
}
use maibot_lunagentic_resear.Credits.Usage.Reconciliation.{
  ReconciliationResult, reconciliation_commands,
}
use maibot_lunagentic_resear.Credits.Usage.Settlement.{is_reported, reconcile_usage}
use maibot_lunagentic_resear.Credits.Usage.Balance.{ledger_total-append, reserve_input-Ensures}
use maibot_lunagentic_resear.Credits.Usage.Given.{is_research_role-agent, reconcile_usage-Books}
use maibot_lunagentic_resear.Dict.Totals.{lookup-insert}
use maibot_lunagentic_resear.Events.{RuntimeEvent}
use maibot_lunagentic_resear.Events.Agents.{ProtocolFault, AgentCallCompleted}
use maibot_lunagentic_resear.Reducer.State.{RuntimeState, barrier, Transition, transition}
use maibot_lunagentic_resear.Reducer.Transitions.{effect, invalid, insert_present, is_in_flight}
use maibot_lunagentic_resear.Reducer.Calls.{
  IdSupply, caught, completion_args, correction_reservation,
}
use maibot_lunagentic_resear.Reducer.Agents.{
  with_leaf, summary, can_correct, to_procedures, correction_id, corrected, correct_turn,
  after_turn, completed_balance, complete_call,
}

pub lookup-insert_present :
    (k : String) (v : ℤ) (d : Dict ℤ) {w : ℤ}
    → lookup k d ≡ some w
    → lookup k (insert_present k v d) ≡ some v
unfolding insert_present
lookup-insert_present k v d h = ground (arith, lookup-insert k k v d, eq_refl k)

-- Where the event is accepted, the branch's new balance is the one before it and what the commands
-- book.
abbrev pub IsBalanced : String → ℤ → Transition → Type 0
IsBalanced branch_id before t =
    t.error ≡ none
    → (balance : ℤ) × (lookup branch_id t.next_state.active_leaves ≡ some balance)
      × (ledger_total t.commands ≡ balance -ℤ before)

module _ (ids : IdSupply) (state : RuntimeState) (event : RuntimeEvent) where
  invalid-IsBalanced :
      (branch_id : String) (before : ℤ) → IsBalanced branch_id before (invalid state event)
  unfolding invalid
  invalid-IsBalanced branch_id before h = cc

  pub caught-Ensures :
      {A : Type 0} (P : A → Type 0) (Q : Transition → Type 0) (r : Result A)
      (next : A → Result Transition)
      → Q (invalid state event)
      → Ensures P r
      → ((a : A) → P a → Ensures Q (next a))
      → Ensures Q (caught r (invalid state event) next)
  unfolding caught
  caught-Ensures P Q (ok a) next refused (returns p) k = k a p
  caught-Ensures P Q (err value_error) next refused r k = returns refused
  caught-Ensures P Q (err key_error) next refused r k = raises
  caught-Ensures P Q (err (lrs_error code)) next refused r k = raises

  correction-Books :
      (call : AgentCallCompleted) (call_id : String) (balance : ℤ)
      → Ensures
          (λ (r : ReservationResult).
            ledger_total (reservation_commands r) ≡ pos 0 -ℤ call.correction_estimated_charge)
          (reserve_input (correction_reservation ids event call call_id balance))
  correction-Books call call_id balance = Ensures-of_ok _ _ λ r h.
      let (_, at, _, booked) = Ensures-ok _ (reserve_input-Ensures _) h in
      booked
      ∙ ap (λ (b : Bool). if b then pos 0 -ℤ r.usage.estimated_charge else pos 0)
          is_research_role-agent
      ∙ ap (λ (x : ℤ). pos 0 -ℤ x) (sym (some_injective at))

  module _ (call : AgentCallCompleted) {b : ℤ} where
    correct_turn-Balanced :
        (balance : ℤ) (commands : List StoreCommand) (fault : ProtocolFault)
        → lookup call.branch_id state.active_leaves ≡ some b
        → ledger_total commands ≡ balance -ℤ call.balance_before_reconciliation
        → Ensures (IsBalanced call.branch_id call.balance_before_reconciliation) (
            correct_turn ids state event
              (with_leaf state call.branch_id balance)
              commands
              call
              balance
              fault)
    unfolding correct_turn
    correct_turn-Balanced balance commands fault leaf booked =
        go (ltb_ℤ balance (pos 0)) (not (can_correct ids state event call))
          (reserve_input (
            correction_reservation ids event call (correction_id ids state event call)
              (balance -ℤ call.correction_estimated_charge)))
          (correction-Books call _ _)
      where
        reconciled : RuntimeState
        reconciled = with_leaf state call.branch_id balance

        held : lookup call.branch_id reconciled.active_leaves ≡ some balance
        held = lookup-insert_present call.branch_id balance state.active_leaves leaf

        go :
            (debt uncorrectable : Bool) (reserved : Result ReservationResult)
            → Ensures
                (λ (r : ReservationResult).
                  ledger_total (reservation_commands r) ≡ pos 0 -ℤ call.correction_estimated_charge)
                reserved
            → Ensures (IsBalanced call.branch_id call.balance_before_reconciliation) (
                if debt
                then ok (
                    transition reconciled commands
                      (effect event barrier (summary call.branch_id "negative_credit") ∷ []))
                else if uncorrectable
                then ok (
                    transition reconciled commands
                      (effect event barrier (summary call.branch_id "protocol_invalid") ∷ []))
                else (reserved >>= λ reservation. ok (
                    corrected ids state event reconciled commands call
                      (balance -ℤ call.correction_estimated_charge)
                      fault
                      reservation)))
        go true uncorrectable reserved r = returns λ _. (balance, held, booked)
        go false true reserved r = returns λ _. (balance, held, booked)
        go false false (ok reservation) (returns r) = returns λ _. (
          balance -ℤ call.correction_estimated_charge,
          lookup-insert_present call.branch_id _ reconciled.active_leaves held,
          rw (ledger_total-append commands (reservation_commands reservation), booked, r)
              (grind int_laws),
        )
        go false false (err e) raises = raises

    after_turn-Balanced :
        (balance : ℤ) (commands : List StoreCommand)
        → lookup call.branch_id state.active_leaves ≡ some b
        → ledger_total commands ≡ balance -ℤ call.balance_before_reconciliation
        → Ensures (IsBalanced call.branch_id call.balance_before_reconciliation) (
            after_turn ids state event
              (with_leaf state call.branch_id balance)
              commands
              call
              balance)
    unfolding after_turn
    after_turn-Balanced balance commands leaf booked = go call.protocol_error
      where
        go :
            (fault : Option ProtocolFault)
            → Ensures (IsBalanced call.branch_id call.balance_before_reconciliation) (elim fault [
              | none ↦ ok (
                  to_procedures ids state event
                    (with_leaf state call.branch_id balance)
                    commands
                    call
                    balance)
              | some fault ↦
                  correct_turn ids state event
                    (with_leaf state call.branch_id balance)
                    commands
                    call
                    balance
                    fault
            ])
        go none = returns λ _.
            (balance, lookup-insert_present call.branch_id balance state.active_leaves leaf, booked)
        go (some fault) = correct_turn-Balanced balance commands fault leaf booked

    pub complete_call-ledger_total :
        (float : FloatArithmetic) {t : Transition}
        → is_reported call.usage ≡ true
        → lookup call.branch_id state.active_leaves ≡ some b
        → complete_call ids state event float call ≡ ok t
        → t.error ≡ none
        → (balance : ℤ) × (lookup call.branch_id t.next_state.active_leaves ≡ some balance)
          × (ledger_total t.commands ≡ balance -ℤ call.balance_before_reconciliation)
    unfolding complete_call
    complete_call-ledger_total float reported leaf h accepted =
        Ensures-ok (IsBalanced call.branch_id call.balance_before_reconciliation)
          (go (is_in_flight state.status)) h accepted
      where
        balance : ℤ
        balance = completed_balance ids state event call

        spent : ℤ
        spent = or_default call.actual_charge call.estimated_charge

        settled :
            Ensures
              (λ (result : ReconciliationResult).
                ledger_total (reconciliation_commands result) ≡ call.estimated_charge -ℤ spent)
              (reconcile_usage float none (completion_args ids event call spent balance))
        settled = reconcile_usage-Books float _ call.estimated_charge spent refl refl refl reported

        go :
            (allowed : Bool)
            → Ensures (IsBalanced call.branch_id call.balance_before_reconciliation) (
                if allowed
                then caught
                    (reconcile_usage float none (completion_args ids event call spent balance))
                    (invalid state event)
                    (λ reconciliation.
                      after_turn ids state event
                        (with_leaf state call.branch_id balance)
                        (reconciliation_commands reconciliation)
                        call
                        balance)
                else ok (invalid state event))
        go false = returns (invalid-IsBalanced call.branch_id call.balance_before_reconciliation)
        go true =
            caught-Ensures _ _ _ _
              (invalid-IsBalanced call.branch_id call.balance_before_reconciliation) settled
              λ result booked.
                after_turn-Balanced balance (reconciliation_commands result) leaf
                  (booked ∙ grind int_laws)
