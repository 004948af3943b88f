-- ===== src/Reducer/Worth.antt =====
-- What a task is worth: its dormant pool and the balances of its live branches.
use maibot_lunagentic_resear.Prelude.{
  if◌then◌else◌, ℤ, pos, ◌+ℤ◌, leb_ℤ, int_laws, String, ◌≡◌, refl, Bool, true, false, ◌&&◌, none,
  List, [], ◌∷◌,
}
use maibot_lunagentic_resear.Dict.{Dict, erase, get_or_zero, total}
use maibot_lunagentic_resear.Dict.Totals.{total-erase}
use maibot_lunagentic_resear.Commands.{finalized, StoreCommand, settle_branch}
use maibot_lunagentic_resear.Credits.Scaled.{FloatArithmetic}
use maibot_lunagentic_resear.Credits.Redistribution.{redistribute_pool}
use maibot_lunagentic_resear.Credits.Redistribution.Conservation.{total-redistribute_pool}
use maibot_lunagentic_resear.Dict.Keys.{HasDistinctKeys}
use maibot_lunagentic_resear.Events.{ContinueRequested, RuntimeEvent}
use maibot_lunagentic_resear.Reducer.State.{RuntimeState, transition}
use maibot_lunagentic_resear.Reducer.Transitions.{
  invalid, guarded, transition_status, is_running, is_settling,
}
use maibot_lunagentic_resear.Reducer.Reports.{enter_finalizing, no_leaves}
use maibot_lunagentic_resear.Reducer.Continue.{
  nonnegative_leaves, barrier_leaves, resume_leaves, continue_terminal,
}
use maibot_lunagentic_resear.Reducer.Branches.{retire_branch, finalize_branch}

abbrev pub worth : RuntimeState → ℤ
worth state = state.credit_pool +ℤ total state.active_leaves

module _ (state : RuntimeState) (event : RuntimeEvent) where
  -- Finalizing a branch moves its balance, or its debt, into the pool: the task's worth stays,
  -- whatever the status and whether the branch is known.
  pub finalize_branch-worth :
      (branch_id : String) → worth (finalize_branch state event branch_id).next_state ≡ worth state
  unfolding finalize_branch retire_branch enter_finalizing transition_status invalid
  finalize_branch-worth branch_id =
      go (is_settling state.status)
        (no_leaves (erase branch_id state.active_leaves) && is_running state.status)
    where
      changed : RuntimeState
      changed = record state {
        active_leaves = erase branch_id state.active_leaves;
        credit_pool = state.credit_pool +ℤ get_or_zero branch_id state.active_leaves;
      }

      settle : List StoreCommand
      settle =
          settle_branch event.round_id branch_id (get_or_zero branch_id state.active_leaves)
            finalized event.occurred_at
          ∷ []

      kept : worth changed ≡ worth state
      kept = grind (int_laws, total-erase branch_id state.active_leaves)

      go :
          (allowed last : Bool)
          → worth
              (guarded allowed state event (
                if last
                then enter_finalizing state event none false settle changed
                else transition changed settle [])).next_state
            ≡ worth state
      go true true = kept
      go true false = kept
      go false last = refl

-- What the branches dropped at a barrier were in debt with.
unfoldable pub dropped : Dict ℤ → ℤ
dropped [] = pos 0
dropped ((key, value) ∷ balances) =
    if leb_ℤ (pos 0) value then dropped balances else value +ℤ dropped balances

total-nonnegative_leaves :
    (balances : Dict ℤ) → total (nonnegative_leaves balances) +ℤ dropped balances ≡ total balances
unfolding total nonnegative_leaves dropped
total-nonnegative_leaves [] = omega int_laws
total-nonnegative_leaves ((key, value) ∷ balances) =
    grind (int_laws, total-nonnegative_leaves balances)

total-no_leaves : (d : Dict ℤ) → no_leaves d ≡ true → total d ≡ pos 0
unfolding total
total-no_leaves [] h = refl
total-no_leaves (leaf ∷ d) h = cc

module _ (float : FloatArithmetic) (state : RuntimeState) (event : RuntimeEvent) where
  -- A continuation with live branches shares the pool and the adjustment out: the task is worth that
  -- much more, once the debts of the branches that it drops are counted in.
  pub continue_terminal-worth :
      (request : ContinueRequested)
      → let leaves = barrier_leaves state request in
        let balances =
          (redistribute_pool float state.credit_pool request.adjustment leaves).balances in
        no_leaves leaves ≡ false
        → HasDistinctKeys leaves
        → worth (continue_terminal float state event request).next_state +ℤ dropped balances
          ≡ state.credit_pool +ℤ total leaves +ℤ request.adjustment
  unfolding continue_terminal resume_leaves transition_status
  continue_terminal-worth request some_left distinct =
      let leaves = barrier_leaves state request in
      let shared = redistribute_pool float state.credit_pool request.adjustment leaves in
      rw some_left (
        grind (
          int_laws,
          total-nonnegative_leaves shared.balances,
          total-redistribute_pool float state.credit_pool request.adjustment leaves distinct,
        ))
