-- ===== src/Reducer/Reports.antt =====
-- The events of the report epochs (reducer.py).
use maibot_lunagentic_resear.Prelude.{
  ltb, leb, nat_eq, if◌then◌else◌, text_or, is_none, or_default, ℤ, ℕ, ◌+◌, String, Bool, true,
  false, not, ◌&&◌, Option, none, some, List, [], ◌∷◌,
}
use maibot_lunagentic_resear.Dict.{Dict}
use maibot_lunagentic_resear.Models.{
  running, reporting, finalizing, completed, completed_with_errors,
}
use maibot_lunagentic_resear.Commands.{StoreCommand}
use maibot_lunagentic_resear.Events.{RuntimeEvent}
use maibot_lunagentic_resear.Reducer.State.{
  RuntimeState, barrier, intermediate, final, open_report_epoch, deliver_outbox, notify_failure,
  Effect, Transition, unchanged, from_ignored,
}
use maibot_lunagentic_resear.Reducer.Transitions.{
  effect, guarded, transition_status, is_running, is_reporting, is_finalizing, is_committing,
}

-- The outcome of `_resolve_report_epoch_update`.
pub data EpochUpdate : Type 0 where
  -- the new epoch, or none where it stays
  change : Option ℕ → EpochUpdate
  ignore : String → EpochUpdate

-- `_resolve_report_epoch_update`
unfoldable pub resolve_report_epoch_update : RuntimeState → Option ℕ → EpochUpdate
resolve_report_epoch_update state none = change none
resolve_report_epoch_update state (some requested) =
    if nat_eq requested state.report_epoch
    then change none
    else if nat_eq requested (state.report_epoch + 1)
    then change (some requested)
    else if leb requested state.report_epoch
    then ignore "stale_report_epoch"
    else ignore "future_report_epoch"

abbrev pub final_effects : RuntimeEvent → ℕ → Bool → List Effect
final_effects event epoch false = []
final_effects event epoch true = effect event barrier (open_report_epoch epoch final) ∷ []

-- `_enter_finalizing`: `changed` is the state with the other changes made.
unfoldable pub enter_finalizing :
    RuntimeState → RuntimeEvent → Option ℕ → Bool → List StoreCommand → RuntimeState → Transition
enter_finalizing state event report_epoch open_epoch extra changed =
    let epoch = or_default report_epoch state.report_epoch in
    transition_status state event finalizing (final_effects event epoch open_epoch) extra
      (record changed { report_epoch = or_default report_epoch changed.report_epoch })

-- `if not leaves`
abbrev pub no_leaves : Dict ℤ → Bool
no_leaves [] = true
no_leaves _ = false

unfoldable pub open_epoch : RuntimeState → RuntimeEvent → ℕ → Transition
open_epoch state event epoch =
    if no_leaves state.active_leaves
    then enter_finalizing state event (some epoch) true [] state
    else transition_status state event reporting
        (effect event barrier (open_report_epoch epoch intermediate) ∷ []) []
        (record state { report_epoch = epoch })

unfoldable pub reach_deadline : RuntimeState → RuntimeEvent → Option ℕ → Transition
reach_deadline state event requested =
    let epoch = or_default requested (state.report_epoch + 1) in
    guarded (is_running state.status) state event (
      if leb epoch state.report_epoch
      then from_ignored state "stale_report_epoch"
      else if not (nat_eq epoch (state.report_epoch + 1))
      then from_ignored state "future_report_epoch"
      else open_epoch state event epoch)

unfoldable pub apply_epoch_update : RuntimeState → RuntimeEvent → EpochUpdate → Transition
apply_epoch_update state event (ignore reason) = from_ignored state reason
apply_epoch_update state event (change epoch) =
    if is_finalizing state.status && is_none epoch
    then unchanged state
    else enter_finalizing state event epoch false [] state

unfoldable pub commit_final_epoch : RuntimeState → RuntimeEvent → Option ℕ → Transition
commit_final_epoch state event requested =
    guarded (is_committing state.status) state event
      (apply_epoch_update state event (resolve_report_epoch_update state requested))

unfoldable pub complete_report : RuntimeState → RuntimeEvent → Transition
complete_report state event = guarded (is_reporting state.status) state event (
    if no_leaves state.active_leaves
    then enter_finalizing state event none false [] state
    else transition_status state event running [] [] state)

abbrev pub grace_ignored : RuntimeState → Option ℕ → Transition
grace_ignored state none = unchanged state
grace_ignored state (some epoch) =
    if ltb epoch state.report_epoch
    then from_ignored state "stale_report_epoch"
    else if ltb state.report_epoch epoch
    then from_ignored state "future_report_epoch"
    else unchanged state

unfoldable pub expire_grace : RuntimeState → RuntimeEvent → Option ℕ → Transition
expire_grace state event epoch =
    if is_finalizing state.status
    then from_ignored state "grace_during_finalizing"
    else guarded (is_reporting state.status) state event (grace_ignored state epoch)

unfoldable pub complete_final_report : RuntimeState → RuntimeEvent → String → Transition
complete_final_report state event report_id = guarded (is_finalizing state.status) state event (
    transition_status state event completed (effect event barrier (deliver_outbox report_id) ∷ [])
      [] state)

unfoldable pub fail_final_report : RuntimeState → RuntimeEvent → String → String → Transition
fail_final_report state event code message = guarded (is_finalizing state.status) state event (
    transition_status state event completed_with_errors
      (effect event barrier (notify_failure code message) ∷ []) []
      (record state { failure_code = some (text_or code "final_report_failed") }))
