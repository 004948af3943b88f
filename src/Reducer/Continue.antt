-- ===== src/Reducer/Continue.antt =====
-- The continue barrier (reducer.py, `_continue_terminal`): live branches share the pool, or a new
-- round starts with it.
use maibot_lunagentic_resear.Prelude.{
  if◌then◌else◌, is_empty, or_default, ℤ, pos, leb_ℤ, ◌+◌, String, false, not, ◌||◌, none, some,
  List, [], ◌∷◌,
}
use maibot_lunagentic_resear.Dict.{Dict}
use maibot_lunagentic_resear.Models.{running, is_terminal}
use maibot_lunagentic_resear.Commands.{
  ready, finalized, StoreCommand, update_round_continuation, update_branch_balance, insert_round,
  set_task_current_round,
}
use maibot_lunagentic_resear.Events.{ContinueRequested, RuntimeEvent}
use maibot_lunagentic_resear.Credits.Scaled.{FloatArithmetic}
use maibot_lunagentic_resear.Credits.Redistribution.{RedistributionResult, redistribute_pool}
use maibot_lunagentic_resear.Reducer.State.{
  RuntimeState, normal, barrier, restart_root, arm_deadline, Transition, transition,
}
use maibot_lunagentic_resear.Reducer.Transitions.{
  effect_at, effect, invalid, guarded, lifecycle_event, transition_status, is_paused,
}
use maibot_lunagentic_resear.Reducer.Reports.{no_leaves}

-- `{key: value for key, value in balances.items() if value >= 0}`
unfoldable pub nonnegative_leaves : Dict ℤ → Dict ℤ
nonnegative_leaves [] = []
nonnegative_leaves ((key, value) ∷ balances) =
    if leb_ℤ (pos 0) value
    then (key, value) ∷ nonnegative_leaves balances
    else nonnegative_leaves balances

-- The `update_branch_balance` commands.
unfoldable pub balance_commands : Dict ℤ → List StoreCommand
balance_commands [] = []
balance_commands ((branch_id, balance) ∷ balances) =
    update_branch_balance branch_id balance (if leb_ℤ (pos 0) balance then ready else finalized)
    ∷ balance_commands balances

-- `event.active_leaves`, or the state's where the caller omitted them
abbrev pub barrier_leaves : RuntimeState → ContinueRequested → Dict ℤ
barrier_leaves state request = or_default request.active_leaves state.active_leaves

unfoldable pub resume_leaves :
    RuntimeState → RuntimeEvent → ContinueRequested → RedistributionResult → Transition
resume_leaves state event request redistribution =
    let due_at = event.occurred_at + request.time_budget_seconds in
    transition_status state event running (effect event barrier (arm_deadline due_at) ∷ [])
      (update_round_continuation (record {
        round_id = event.round_id;
        credit_pool = redistribution.pool_after;
        time_budget_seconds = request.time_budget_seconds;
        report_deadline_at = some due_at;
      })
        ∷ balance_commands redistribution.balances)
      (record state {
        active_leaves = nonnegative_leaves redistribution.balances;
        credit_pool = redistribution.pool_after;
        continue_barrier = false;
      })

unfoldable pub insufficient_funds :
    RuntimeState → RuntimeEvent → ContinueRequested → RedistributionResult → Transition
insufficient_funds state event request redistribution = record {
  next_state = record state {
    failure_code = some "task_finished_insufficient_funds";
    credit_pool = redistribution.pool_after;
  };
  commands =
      update_round_continuation (record {
        round_id = event.round_id;
        credit_pool = redistribution.pool_after;
        time_budget_seconds = request.time_budget_seconds;
        report_deadline_at = none;
      })
      ∷ [];
  effects = [];
  ignored = false;
  reason = some "task_finished_insufficient_funds";
  error = some "task_finished_insufficient_funds";
}

unfoldable pub next_round :
    RuntimeState → RuntimeEvent → ContinueRequested → ℤ → String → Transition
next_round state event request balance round_id =
    let generation = or_default request.next_generation (state.generation + 1) in
    transition
      (record state {
        status = running;
        active_round_id = some round_id;
        generation = generation;
        credit_pool = pos 0;
        active_leaves = [];
        failure_code = none;
        continue_barrier = false;
      })
      (insert_round (record {
        round_id = round_id;
        task_id = event.task_id;
        round_number = request.round_number;
        generation = generation;
        status = running;
        time_budget_seconds = request.time_budget_seconds;
        grace_period_seconds = request.grace_period_seconds;
        credit_pool = pos 0;
        catalog_fingerprint = request.catalog_fingerprint;
        started_at = event.occurred_at;
        report_deadline_at = none;
        ended_at = none;
      })
        ∷ set_task_current_round event.task_id request.round_number event.occurred_at
        ∷ lifecycle_event event state.status running round_id
        ∷ [])
      (effect_at (some round_id) generation event normal (restart_root balance) ∷ [])

-- Without leaves: a new round if the pool allows it and the event names the round.
unfoldable pub restart_round :
    RuntimeState → RuntimeEvent → ContinueRequested → RedistributionResult → Transition
restart_round state event request redistribution = elim redistribution.restart_balance [
  | none ↦ insufficient_funds state event request redistribution
  | some balance ↦
      if not redistribution.can_start_root
      then insufficient_funds state event request redistribution
      else if is_empty (or_default request.next_round_id "")
      then invalid state event
      else next_round state event request balance (or_default request.next_round_id "")
]

unfoldable pub continue_terminal :
    FloatArithmetic → RuntimeState → RuntimeEvent → ContinueRequested → Transition
continue_terminal float state event request =
    let leaves = barrier_leaves state request in
    let redistribution = redistribute_pool float state.credit_pool request.adjustment leaves in
    if no_leaves leaves
    then restart_round state event request redistribution
    else resume_leaves state event request redistribution

unfoldable pub continue_round :
    FloatArithmetic → RuntimeState → RuntimeEvent → ContinueRequested → Transition
continue_round float state event request =
    guarded (is_paused state.status || is_terminal state.status) state event
      (continue_terminal float state event request)
