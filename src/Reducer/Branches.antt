-- ===== src/Reducer/Branches.antt =====
-- A branch begins and ends (reducer.py): `ChildMaterialized` and `BranchFinalized`.
use maibot_lunagentic_resear.Prelude.{
  max_ℕ, if◌then◌else◌, is_empty, ℤ, pos, ◌+ℤ◌, ltb_ℤ, leb_ℤ, String, Bool, false, not, ◌&&◌, ◌||◌,
  Option, none, some, List, [], ◌∷◌,
}
use maibot_lunagentic_resear.Dict.{Dict, insert, erase, get_or_zero}
use maibot_lunagentic_resear.Commands.{
  ready, finalized, StoreCommand, update_branch_balance, insert_branch, settle_delegating_parent,
  settle_branch,
}
use maibot_lunagentic_resear.Events.{RuntimeEvent}
use maibot_lunagentic_resear.Events.Branches.{ChildMaterialized}
use maibot_lunagentic_resear.Reducer.State.{RuntimeState, Transition, transition}
use maibot_lunagentic_resear.Reducer.Transitions.{guarded, is_running, is_in_flight, is_settling}
use maibot_lunagentic_resear.Reducer.Reports.{enter_finalizing, no_leaves}

-- `parent_credits_after is not None and (retire_parent or parent_credits_after < 0)`
abbrev pub is_bad_parent_balance : Bool → Option ℤ → Bool
is_bad_parent_balance retire none = false
is_bad_parent_balance retire (some balance) = retire || ltb_ℤ balance (pos 0)

abbrev pub has_identity : ChildMaterialized → Bool
has_identity child =
    (not (is_empty child.branch_id) && not (is_empty child.parent_branch_id))
    && not (is_empty child.agent_id)

abbrev pub has_amounts : ChildMaterialized → Bool
has_amounts child =
    (leb_ℤ (pos 0) child.depth && leb_ℤ (pos 0) child.credits) && leb_ℤ (pos 0) child.pool_return

-- The leaves without or with the parent, before the child joins.
abbrev pub parent_leaves : ChildMaterialized → Dict ℤ → Dict ℤ
parent_leaves child leaves =
    if child.retire_parent
    then erase child.parent_branch_id leaves
    else elim child.parent_credits_after [
      | none ↦ leaves
      | some balance ↦ insert child.parent_branch_id balance leaves
    ]

abbrev pub parent_commands : RuntimeEvent → ChildMaterialized → List StoreCommand
parent_commands event child =
    if child.retire_parent
    then settle_delegating_parent event.round_id child.parent_branch_id child.pool_return finalized
        event.occurred_at
      ∷ []
    else elim child.parent_credits_after [
      | none ↦ []
      | some balance ↦ update_branch_balance child.parent_branch_id balance ready ∷ []
    ]

unfoldable pub add_child : RuntimeState → RuntimeEvent → ChildMaterialized → Transition
add_child state event child =
    transition
      (record state {
        active_leaves =
            insert child.branch_id child.credits (parent_leaves child state.active_leaves);
        credit_pool =
            if child.retire_parent
            then state.credit_pool +ℤ child.pool_return
            else state.credit_pool;
        agent_calls_started = max_ℕ state.agent_calls_started child.agent_calls_started;
      })
      (insert_branch (record {
        branch_id = child.branch_id;
        round_id = event.round_id;
        parent_branch_id = child.parent_branch_id;
        agent_id = child.agent_id;
        lifecycle = ready;
        depth = child.depth;
        credit_balance = child.credits;
        generation = event.generation;
        created_at = event.occurred_at;
      })
        ∷ parent_commands event child)
      []

unfoldable pub materialize : RuntimeState → RuntimeEvent → ChildMaterialized → Transition
materialize state event child = guarded (is_in_flight state.status) state event (
    guarded (has_identity child) state event (
      guarded (has_amounts child) state event (
        guarded (not (is_bad_parent_balance child.retire_parent child.parent_credits_after)) state
          event (add_child state event child))))

unfoldable pub retire_branch : RuntimeState → RuntimeEvent → String → Transition
retire_branch state event branch_id =
    let leaves = erase branch_id state.active_leaves in
    let balance = get_or_zero branch_id state.active_leaves in
    let changed : RuntimeState = record state {
      active_leaves = leaves;
      credit_pool = state.credit_pool +ℤ balance;
    } in
    let settle = settle_branch event.round_id branch_id balance finalized event.occurred_at in
    if no_leaves leaves && is_running state.status
    then enter_finalizing state event none false (settle ∷ []) changed
    else transition changed (settle ∷ []) []

unfoldable pub finalize_branch : RuntimeState → RuntimeEvent → String → Transition
finalize_branch state event branch_id =
    guarded (is_settling state.status) state event (retire_branch state event branch_id)
