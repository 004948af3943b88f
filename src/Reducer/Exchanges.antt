-- ===== src/Reducer/Exchanges.antt =====
-- An agent call from its request to its completion, against the balance of its branch.
use maibot_lunagentic_resear.Prelude.{
  if◌then◌else◌, some_injective, ℤ, pos, ◌-ℤ◌, int_laws, ok, Ensures, returns, Ensures-ok,
  Ensures-of_ok, String, ◌≡◌, sym, ap, ◌∙◌, Bool, true, false, none, some, [], ◌∷◌, ◌++◌,
}
use maibot_lunagentic_resear.Dict.{lookup}
use maibot_lunagentic_resear.Commands.{ledger_total}
use maibot_lunagentic_resear.Credits.Scaled.{FloatArithmetic}
use maibot_lunagentic_resear.Credits.Usage.Reservation.{
  ReservationResult, reservation_commands, reserve_input,
}
use maibot_lunagentic_resear.Credits.Usage.Settlement.{is_reported}
use maibot_lunagentic_resear.Credits.Usage.Balance.{ledger_total-append, reserve_input-Ensures}
use maibot_lunagentic_resear.Credits.Usage.Given.{is_research_role-agent}
use maibot_lunagentic_resear.Events.{RuntimeEvent}
use maibot_lunagentic_resear.Events.Agents.{AgentCallRequested, AgentCallCompleted}
use maibot_lunagentic_resear.Reducer.State.{RuntimeState, Transition}
use maibot_lunagentic_resear.Reducer.Transitions.{invalid, lifecycle_event, is_calling}
use maibot_lunagentic_resear.Reducer.Calls.{IdSupply, caught, request_reservation}
use maibot_lunagentic_resear.Reducer.Agents.{launched, request_call, complete_call}
use maibot_lunagentic_resear.Reducer.Balances.{
  lookup-insert_present, caught-Ensures, complete_call-ledger_total,
}

-- Where the request is accepted: the balance that is left, and what the commands book.
abbrev IsReserved : AgentCallRequested → Transition → Type 0
IsReserved request t =
    t.error ≡ none
    → (lookup request.branch_id t.next_state.active_leaves
        ≡ some (request.balance_before -ℤ request.estimated_charge))
      × (ledger_total t.commands ≡ pos 0 -ℤ request.estimated_charge)

module _ (ids : IdSupply) (state : RuntimeState) (event : RuntimeEvent) where
  request-Books :
      (request : AgentCallRequested)
      → Ensures
          (λ (r : ReservationResult).
            ledger_total (reservation_commands r) ≡ pos 0 -ℤ request.estimated_charge)
          (reserve_input (request_reservation ids event request))
  request-Books request = Ensures-of_ok _ _ λ r h.
      let (_, at, _, booked) = Ensures-ok _ (reserve_input-Ensures _) h in
      booked
      ∙ ap (λ (b : Bool). if b then pos 0 -ℤ r.usage.estimated_charge else pos 0)
          is_research_role-agent
      ∙ ap (λ (x : ℤ). pos 0 -ℤ x) (sym (some_injective at))

  launched-IsReserved :
      (request : AgentCallRequested) (reservation : ReservationResult) {b : ℤ}
      → lookup request.branch_id state.active_leaves ≡ some b
      → ledger_total (reservation_commands reservation) ≡ pos 0 -ℤ request.estimated_charge
      → IsReserved request (launched ids state event request reservation)
  unfolding ledger_total
  launched-IsReserved request reservation leaf booked accepted = (
    lookup-insert_present request.branch_id _ state.active_leaves leaf,
    rw
        (
          ledger_total-append (reservation_commands reservation)
              (lifecycle_event event state.status state.status event.round_id ∷ []),
          booked,
        )
        (grind int_laws),
  )

  request_call-IsReserved :
      (request : AgentCallRequested) {b : ℤ}
      → lookup request.branch_id state.active_leaves ≡ some b
      → Ensures (IsReserved request) (request_call ids state event request)
  unfolding request_call
  request_call-IsReserved request leaf = go (is_calling state.status)
    where
      refused : IsReserved request (invalid state event)
      refused h = unfold invalid in cc

      go :
          (allowed : Bool)
          → Ensures (IsReserved request) (
              if allowed
              then caught
                  (reserve_input (request_reservation ids event request))
                  (invalid state event)
                  (λ reservation. ok (launched ids state event request reservation))
              else ok (invalid state event))
      go false = returns refused
      go true =
          caught-Ensures ids state event _ _ _ _ refused (request-Books request)
            λ reservation booked. returns (launched-IsReserved request reservation leaf booked)

-- A call of a branch whose balance the request states, and that is answered with a reported usage and
-- the balance that the reservation left, in any later state that still has the branch: where both events
-- are accepted, the request leaves the branch that balance, and after the completion, whether the turn goes
-- on to its procedures, ends or is corrected, the balance is the one before the request and what the
-- commands of the two events book in the ledger, the reservation of a correction included.
pub request_call-complete_call :
    (ids later_ids : IdSupply) (state later : RuntimeState) (asked answered : RuntimeEvent)
    (float : FloatArithmetic) (request : AgentCallRequested) (call : AgentCallCompleted)
    {started t : Transition} {b : ℤ}
    → call.branch_id ≡ request.branch_id
    → call.balance_before_reconciliation ≡ request.balance_before -ℤ request.estimated_charge
    → is_reported call.usage ≡ true
    → lookup request.branch_id state.active_leaves ≡ some request.balance_before
    → request_call ids state asked request ≡ ok started
    → started.error ≡ none
    → lookup call.branch_id later.active_leaves ≡ some b
    → complete_call later_ids later answered float call ≡ ok t
    → t.error ≡ none
    → (lookup request.branch_id started.next_state.active_leaves
        ≡ some call.balance_before_reconciliation)
      × ((balance : ℤ) × (lookup request.branch_id t.next_state.active_leaves ≡ some balance)
          × (ledger_total (started.commands ++ t.commands) ≡ balance -ℤ request.balance_before))
request_call-complete_call ids later_ids state later asked answered float request call {started} {t}
      same left reported leaf asks accepted kept answers taken =
    let (reserved, first) =
      Ensures-ok (IsReserved request) (request_call-IsReserved ids state asked request leaf) asks
        accepted in
    let (balance, held, second) =
      complete_call-ledger_total later_ids later answered call float reported kept answers taken in
    (
      reserved ∙ ap some (sym left),
      (
        balance,
        ap (λ (id : String). lookup id t.next_state.active_leaves) (sym same) ∙ held,
        rw (ledger_total-append started.commands t.commands, first, second, left) (grind int_laws),
      ),
    )
