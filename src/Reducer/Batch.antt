-- ===== src/Reducer/Batch.antt =====
-- `ProcedureBatchCompleted` (reducer.py): what becomes of the branch after its procedures.
use maibot_lunagentic_resear.Prelude.{
  max_ℕ, if◌then◌else◌, is_empty, or_default, ℤ, pos, ltb_ℤ, Result, ok, ◌>>=◌, ℕ, String, Bool,
  true, false, not, ◌&&◌, ◌||◌, Option, none, some, List, [], ◌∷◌, ◌++◌, map,
}
use maibot_lunagentic_resear.Dict.{lookup, insert}
use maibot_lunagentic_resear.Commands.{StoreCommand}
use maibot_lunagentic_resear.Delegation.{
  EdgeReason, delegation_limit_exceeded, branch_depth_exceeded, agent_unavailable,
  agent_call_limit_exceeded, Message, rejected_edge_notice, DelegationRequest, PlannedChild,
  RejectedEdge, DelegationPlan, PlanContext, plan_delegations,
}
use maibot_lunagentic_resear.Credits.Scaled.{FloatArithmetic}
use maibot_lunagentic_resear.Credits.Redistribution.{redistribute_pool}
use maibot_lunagentic_resear.Text.{strip}
use maibot_lunagentic_resear.Events.{RuntimeEvent}
use maibot_lunagentic_resear.Events.Agents.{TurnLimits}
use maibot_lunagentic_resear.Events.Branches.{ProcedureBatchCompleted}
use maibot_lunagentic_resear.Reducer.State.{
  RuntimeState, normal, barrier, retry_parent, perform_branch_summary, finalize_edge,
  materialize_child, Effect, Transition, transition,
}
use maibot_lunagentic_resear.Reducer.Transitions.{
  effect, invalid, insert_present, is_reporting, is_in_flight,
}
use maibot_lunagentic_resear.Reducer.Continue.{nonnegative_leaves}
use maibot_lunagentic_resear.Reducer.Calls.{IdSupply, caught}
use maibot_lunagentic_resear.Reducer.Procedures.{batch_commands, has_non_control_procedure_results}

abbrev pub reason_text : EdgeReason → String
reason_text delegation_limit_exceeded = "delegation_limit_exceeded"
reason_text branch_depth_exceeded = "branch_depth_exceeded"
reason_text agent_unavailable = "agent_unavailable"
reason_text agent_call_limit_exceeded = "agent_call_limit_exceeded"

-- `_implicit_self_continue_delegation`; the task's text is a constant of the code.
unfoldable pub implicit_self_continue_delegation :
    ProcedureBatchCompleted → ℤ → Option DelegationRequest
implicit_self_continue_delegation batch credits_after =
    let agent_id = strip batch.agent_id in
    if is_empty agent_id || ltb_ℤ credits_after (pos 0)
    then none
    else if not (has_non_control_procedure_results batch.results)
    then none
    else some (record {
      agent_id = agent_id;
      task = some "self_continue";
      assignment = none;
      credits = credits_after;
      branch_id = "";
    })

-- The turn limits that the batch hands on.
abbrev pub batch_limits : ProcedureBatchCompleted → ℕ → TurnLimits
batch_limits batch calls_started = record {
  branch_depth = batch.parent_depth;
  live_agent_ids = batch.live_agent_ids;
  max_delegations_per_turn = batch.max_delegations_per_turn;
  max_branch_depth = batch.max_branch_depth;
  max_agent_calls_per_task = batch.max_agent_calls_per_task;
  agent_calls_started = calls_started;
}

abbrev pub rejected_triples : List RejectedEdge → List (String × String × EdgeReason)
rejected_triples edges =
    map (λ (edge : RejectedEdge). (edge.agent_id, edge.assignment, edge.reason)) edges

module _ (event : RuntimeEvent) (batch : ProcedureBatchCompleted) where
  abbrev pub batch_summary : String → List DelegationRequest → List Message → List Message → Effect
  batch_summary reason held appended messages = effect event barrier (
      perform_branch_summary (record {
        branch_id = batch.branch_id;
        reason = reason;
        held_delegations = held;
        appended_messages = appended;
        messages = messages;
      }))

  -- `_all_delegations_rejected`
  unfoldable pub all_delegations_rejected : DelegationPlan → List Effect
  all_delegations_rejected plan =
      let notice = rejected_edge_notice (rejected_triples plan.rejected) batch.live_agent_ids in
      elim plan.blocking_reason [
        | some reason ↦ batch_summary (reason_text reason) [] (notice ∷ []) [] ∷ []
        | none ↦
            effect event normal (
              retry_parent (record {
                branch_id = batch.branch_id;
                appended_messages = notice ∷ [];
                limits = batch_limits batch plan.calls_after_reservation;
              }))
            ∷ []
      ]

  unfoldable pub edge_effects : List RejectedEdge → List Effect
  edge_effects [] = []
  edge_effects (edge ∷ edges) =
      effect event barrier (
        finalize_edge (record { edge = edge; parent_branch_id = batch.branch_id; credits = pos 0 }))
      ∷ edge_effects edges

  unfoldable pub child_effects : ℕ → List PlannedChild → List Effect
  child_effects calls [] = []
  child_effects calls (child ∷ children) =
      effect event barrier (
        materialize_child (record {
          child = child;
          parent_branch_id = batch.branch_id;
          limits = batch_limits batch calls;
        }))
      ∷ child_effects calls children

  abbrev pub plan_context : ℤ → ℕ → PlanContext
  plan_context credits_after calls_started = record {
    parent_branch_id = batch.branch_id;
    parent_depth = batch.parent_depth;
    parent_credits = credits_after;
    parent_messages = batch.parent_messages;
    live_agent_ids = batch.live_agent_ids;
    agent_calls_started = calls_started;
    max_delegations_per_turn = batch.max_delegations_per_turn;
    max_branch_depth = batch.max_branch_depth;
    max_agent_calls_per_task = batch.max_agent_calls_per_task;
  }

  -- `_delegation_effects`
  unfoldable pub delegation_effects :
      FloatArithmetic → List DelegationRequest → ℤ → ℕ → Result (List Effect × ℕ)
  delegation_effects float delegations credits_after calls_started =
      plan_delegations float (plan_context credits_after calls_started) delegations >>= λ plan. ok (
        (if plan.all_rejected
            then all_delegations_rejected plan
            else edge_effects plan.rejected
              ++ child_effects plan.calls_after_reservation plan.children),
        plan.calls_after_reservation,
      )

-- The state once the batch is booked, and the credits that the branch has then.
pub record Booked : Type 0 where
  pub next_state : RuntimeState
  pub credits_after : ℤ

-- What the branch does next: it ends with a reason and the delegations held back for a release, or
-- it delegates.
pub data NextStep : Type 0 where
  summarize : String → List DelegationRequest → NextStep
  hand_on : List DelegationRequest → NextStep

module _ (ids : IdSupply) (float : FloatArithmetic) (state : RuntimeState) (event : RuntimeEvent)
    (batch : ProcedureBatchCompleted) where
  -- `authoritative_calls_started`
  abbrev pub calls_started : ℕ
  calls_started = max_ℕ state.agent_calls_started batch.agent_calls_started

  -- Under a continue barrier the pool is shared at once, the branch back among the leaves.
  unfoldable pub book_batch : Booked
  book_batch =
      let redistribution =
        redistribute_pool float state.credit_pool (pos 0)
          (insert batch.branch_id batch.credits_after state.active_leaves) in
      if state.continue_barrier
      then record {
        next_state = record state {
          agent_calls_started = calls_started;
          active_leaves = nonnegative_leaves redistribution.balances;
          credit_pool = redistribution.pool_after;
          continue_barrier = false;
        };
        credits_after =
            or_default (lookup batch.branch_id redistribution.balances) batch.credits_after;
      }
      else record {
        next_state = record state {
          agent_calls_started = calls_started;
          active_leaves = insert_present batch.branch_id batch.credits_after state.active_leaves;
        };
        credits_after = batch.credits_after;
      }

  -- The grace window's clone of a branch that goes on.
  abbrev pub grace_effects : List Effect
  grace_effects =
      if is_reporting state.status
      then batch_summary event batch "grace_clone" [] [] batch.parent_messages ∷ []
      else []

  -- A refused plan refuses the event, in the state that is booked and without the commands.
  unfoldable pub delegate : Booked → List StoreCommand → List DelegationRequest → Result Transition
  delegate booked commands delegations =
      caught (delegation_effects event batch float delegations booked.credits_after calls_started)
        (invalid booked.next_state event)
        (λ planned. ok (
          transition (record booked.next_state { agent_calls_started = planned.1 }) commands
            (planned.0 ++ grace_effects)))

  abbrev pub no_delegations : Bool
  no_delegations = elim batch.delegations [ [] ↦ true | _ ↦ false ]

  unfoldable pub next_step : ℤ → NextStep
  next_step credits_after =
      if batch.controls.terminate
      then summarize "terminate" []
      else if ltb_ℤ credits_after (pos 0)
      then summarize "negative_credit" []
      else if batch.controls.checkpoint && not no_delegations
      then summarize "checkpoint" batch.delegations
      else if not no_delegations
      then hand_on batch.delegations
      else if batch.controls.checkpoint
      then summarize "no_further_work" []
      else elim (implicit_self_continue_delegation batch credits_after) [
        | none ↦ summarize "no_further_work" []
        | some synthetic ↦ hand_on (synthetic ∷ [])
      ]

  unfoldable pub take_step : Booked → List StoreCommand → NextStep → Result Transition
  take_step booked commands (summarize reason held) =
      ok (transition booked.next_state commands (batch_summary event batch reason held [] [] ∷ []))
  take_step booked commands (hand_on delegations) = delegate booked commands delegations

  unfoldable pub complete_batch : Result Transition
  complete_batch =
      if is_in_flight state.status
      then (batch_commands ids event batch >>= λ commands.
          take_step book_batch commands (next_step book_batch.credits_after))
      else ok (invalid state event)
