-- ===== src/Tests/Rounds.antt =====
-- Delegation and the continue barrier in a round with live branches.
use maibot_lunagentic_resear.Prelude.{
  ℤ, pos, negsuc, ◌+ℤ◌, ◌-ℤ◌, ok, ◌≡◌, refl, ◌⊎◌, true, false, none, some, List, [], ◌∷◌, arith,
}
use maibot_lunagentic_resear.Dict.{lookup, insert, update, total}
use maibot_lunagentic_resear.Models.{paused}
use maibot_lunagentic_resear.Delegation.{
  agent_unavailable, message, assignment_message, edge_finalized_message, DelegationRequest,
  PlannedChild, DelegationPlan, PlanContext, is_listed, edge_reason, judged_edges, allocatable,
  reserved_calls, first_live_index, planned_children, rejected_edges, has_reason,
  deterministic_reason, plan_of_edges, plan_delegations,
}
use maibot_lunagentic_resear.Delegation.Calls.{IsBounded, plan_delegations-IsBounded}
use maibot_lunagentic_resear.Delegation.Funds.{IsFunded, plan_delegations-IsFunded}
use maibot_lunagentic_resear.Credits.Scaled.{
  absorb, scaled_items, front_shares, scaled_with_last_item_remainder,
}
use maibot_lunagentic_resear.Credits.Allocation.{
  normalized_requests, zeros, is_negligible, allocation_scale, allocate_scaled, allocate_normalized,
  allocate_children,
}
use maibot_lunagentic_resear.Credits.Redistribution.{redistribute_pool}
use maibot_lunagentic_resear.Text.{decimal, str, child_branch_id}
use maibot_lunagentic_resear.Events.{
  ContinueRequested, branch_finalized, all_inflight_settled, continue_requested,
}
use maibot_lunagentic_resear.Reducer.State.{RuntimeState}
use maibot_lunagentic_resear.Reducer.Continue.{continue_terminal}
use maibot_lunagentic_resear.Reducer.Branches.{finalize_branch}
use maibot_lunagentic_resear.Reducer.Worth.{
  worth, finalize_branch-worth, dropped, continue_terminal-worth,
}
use maibot_lunagentic_resear.Reducer.Children.{materialize_children, AreFresh}
use maibot_lunagentic_resear.Reducer.Handover.{plan_delegations-materialize_children}
use maibot_lunagentic_resear.Tests.Data.{cents, idle, busy, event_of}

abbrev hand_over : List DelegationRequest
hand_over =
    (record {
      agent_id = "a1";
      task = some "read";
      assignment = none;
      credits = pos 30;
      branch_id = "";
    })
    ∷ (record {
      agent_id = "gone";
      task = some "x";
      assignment = none;
      credits = pos 5;
      branch_id = "";
    })
    ∷ (record {
      agent_id = "a2";
      task = none;
      assignment = some "sum up";
      credits = pos 50;
      branch_id = "";
    })
    ∷ []

abbrev busy_context : PlanContext
busy_context = record {
  parent_branch_id = "b1";
  parent_depth = pos 0;
  parent_credits = pos 100;
  parent_messages = message "user" "hello" ∷ [];
  live_agent_ids = some ("a1" ∷ "a2" ∷ []);
  agent_calls_started = 2;
  max_delegations_per_turn = 8;
  max_branch_depth = 32;
  max_agent_calls_per_task = 256;
}

abbrev first_child : PlannedChild
first_child = record {
  branch_id = "b1:1";
  agent_id = "a1";
  assignment = "read";
  credits = pos 30;
  depth = pos 1;
  messages = message "user" "hello" ∷ assignment_message "read" ∷ [];
  retire_parent = true;
  pool_return = pos 20;
}

abbrev second_child : PlannedChild
second_child = record {
  branch_id = "b1:3";
  agent_id = "a2";
  assignment = "sum up";
  credits = pos 50;
  depth = pos 1;
  messages = message "user" "hello" ∷ assignment_message "sum up" ∷ [];
  retire_parent = false;
  pool_return = pos 0;
}

abbrev two_children : DelegationPlan
two_children = record {
  children = first_child ∷ second_child ∷ [];
  rejected =
      (record {
        branch_id = "b1:2";
        agent_id = "gone";
        assignment = "x";
        reason = agent_unavailable;
        depth = pos 1;
        messages = message "user" "hello" ∷ edge_finalized_message "x" agent_unavailable ∷ [];
      })
      ∷ [];
  calls_after_reservation = 4;
  all_rejected = false;
  blocking_reason = none;
}

busy_is_planned : plan_delegations cents busy_context hand_over ≡ ok two_children
unfolding plan_delegations judged_edges edge_reason is_listed allocatable reserved_calls
    first_live_index planned_children rejected_edges has_reason deterministic_reason plan_of_edges
    allocate_children normalized_requests allocate_normalized allocate_scaled total zeros
    is_negligible allocation_scale scaled_with_last_item_remainder front_shares scaled_items absorb
    insert update lookup str decimal child_branch_id ◌+ℤ◌ ◌-ℤ◌
busy_is_planned = refl

plan_delegations-IsBounded_example : IsBounded busy_context 3 two_children
plan_delegations-IsBounded_example =
    plan_delegations-IsBounded cents busy_context hand_over busy_is_planned

plan_delegations-IsFunded_example : IsFunded cents (pos 100) two_children
plan_delegations-IsFunded_example =
    plan_delegations-IsFunded cents busy_context hand_over (ground arith) busy_is_planned (λ h. cc)

busy_children-AreFresh : AreFresh busy.active_leaves (first_child ∷ second_child ∷ [])
unfolding insert lookup
busy_children-AreFresh = (refl, (refl, tt))

plan_delegations-materialize_children_example :
    (remainder : ℤ) × (worth (
          materialize_children busy
            (event_of all_inflight_settled)
            "b1"
            4
            (first_child ∷ second_child ∷ []))
        +ℤ remainder
      ≡ worth busy)
    × ((remainder ≡ pos 0) ⊎ (is_negligible cents remainder (pos 100) ≡ true))
unfolding lookup
plan_delegations-materialize_children_example =
    plan_delegations-materialize_children cents busy_context hand_over busy
      (event_of all_inflight_settled) busy_is_planned (λ h. cc) (ground arith) refl refl
      ((refl, refl), ((refl, refl), tt)) busy_children-AreFresh

-- A continuation of a paused round with a branch in debt.
abbrev paused_round : RuntimeState
paused_round = record idle {
  status = paused;
  active_leaves = ("b1", pos 50) ∷ ("b2", negsuc 99) ∷ [];
}

abbrev top_up : ContinueRequested
top_up = record {
  adjustment = pos 60;
  active_leaves = none;
  next_round_id = none;
  next_generation = none;
  round_number = 1;
  time_budget_seconds = 120;
  grace_period_seconds = 60;
  catalog_fingerprint = none;
}

continue_terminal-worth_example :
    worth
        (continue_terminal cents paused_round
          (event_of (continue_requested top_up))
          top_up).next_state
      +ℤ dropped (redistribute_pool cents (pos 40) (pos 60) paused_round.active_leaves).balances
    ≡ pos 40 +ℤ total paused_round.active_leaves +ℤ pos 60
continue_terminal-worth_example =
    continue_terminal-worth cents paused_round (event_of (continue_requested top_up)) top_up refl
      ((refl, tt), (tt, tt))

finalize_branch-worth_example :
    worth (finalize_branch busy (event_of (branch_finalized "b1" "s1" "")) "b1").next_state
    ≡ worth busy
finalize_branch-worth_example =
    finalize_branch-worth busy (event_of (branch_finalized "b1" "s1" "")) "b1"
