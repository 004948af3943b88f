-- ===== src/Reducer/Steps/Rounds.antt =====
-- The handlers of the continue barrier and of the branches keep to `IsStep`.
use maibot_lunagentic_resear.Prelude.{
  if◌then◌else◌, is_empty, Bool-cases, or_default, ℤ, String, refl, inl, inr, Bool, true, false,
  not, ◌&&◌, ◌||◌, Option, none, some, arith,
}
use maibot_lunagentic_resear.Dict.{erase}
use maibot_lunagentic_resear.Models.{running, is_terminal}
use maibot_lunagentic_resear.Events.{ContinueRequested, EventBody, continue_requested, RuntimeEvent}
use maibot_lunagentic_resear.Events.Branches.{ChildMaterialized}
use maibot_lunagentic_resear.Credits.Scaled.{FloatArithmetic}
use maibot_lunagentic_resear.Credits.Redistribution.{RedistributionResult}
use maibot_lunagentic_resear.Reducer.State.{RuntimeState}
use maibot_lunagentic_resear.Reducer.Transitions.{
  invalid, is_running, is_paused, is_in_flight, is_settling,
}
use maibot_lunagentic_resear.Reducer.Reports.{no_leaves}
use maibot_lunagentic_resear.Reducer.Continue.{
  barrier_leaves, resume_leaves, insufficient_funds, next_round, restart_round, continue_terminal,
  continue_round,
}
use maibot_lunagentic_resear.Reducer.Branches.{
  is_bad_parent_balance, has_identity, has_amounts, add_child, materialize, retire_branch,
  finalize_branch,
}
use maibot_lunagentic_resear.Reducer.Steps.{
  StatusEdge, wraps_up_running, opened, IsStep, quiet-IsStep, invalid-IsStep, guarded-IsStep,
  move-IsStep,
}
use maibot_lunagentic_resear.Reducer.Steps.Edges.{is_running_eq, from_status, continuing_edge}
use maibot_lunagentic_resear.Reducer.Steps.Reports.{enter_finalizing-IsStep}

module _ (state : RuntimeState) (event : RuntimeEvent) where
  next_round-IsStep :
      (request : ContinueRequested) (balance : ℤ) (round_id : String)
      → StatusEdge state.status running
      → IsStep state event
          (continue_requested request)
          (next_round state event request balance round_id)
  unfolding next_round
  next_round-IsStep request balance round_id edge = record {
    edge = edge;
    epoch = inl refl;
    calls = omega arith;
    generation = inr refl;
    logged = opened _ refl refl refl refl;
    task = refl;
  }

  insufficient_funds-IsStep :
      (request : ContinueRequested) (shared : RedistributionResult)
      → IsStep state event
          (continue_requested request)
          (insufficient_funds state event request shared)
  unfolding insufficient_funds
  insufficient_funds-IsStep request shared = quiet-IsStep refl refl (omega arith) refl refl

  restart_round-IsStep :
      (request : ContinueRequested) (shared : RedistributionResult)
      → StatusEdge state.status running
      → IsStep state event (continue_requested request) (restart_round state event request shared)
  unfolding restart_round
  restart_round-IsStep request shared edge =
      go shared.restart_balance (not shared.can_start_root)
        (is_empty (or_default request.next_round_id ""))
    where
      go :
          (balance : Option ℤ) (poor unnamed : Bool)
          → IsStep state event (continue_requested request) (elim balance [
            | none ↦ insufficient_funds state event request shared
            | some balance ↦
                if poor
                then insufficient_funds state event request shared
                else if unnamed
                then invalid state event
                else next_round state event request balance (or_default request.next_round_id "")
          ])
      go none poor unnamed = insufficient_funds-IsStep request shared
      go (some balance) true unnamed = insufficient_funds-IsStep request shared
      go (some balance) false true = invalid-IsStep
      go (some balance) false false = next_round-IsStep request balance _ edge

  pub continue_round-IsStep :
      (float : FloatArithmetic) (request : ContinueRequested)
      → IsStep state event (continue_requested request) (continue_round float state event request)
  unfolding continue_round continue_terminal resume_leaves
  continue_round-IsStep float request =
      guarded-IsStep (is_paused state.status || is_terminal state.status) λ h.
        elim (Bool-cases (no_leaves (barrier_leaves state request))) [
          | inl none_left ↦ rw none_left (restart_round-IsStep request _ (continuing_edge h))
          | inr some_left ↦ rw some_left (move-IsStep _ _ _ (continuing_edge h) refl refl refl refl)
        ]

  module _ {body : EventBody} where
    add_child-IsStep :
        (child : ChildMaterialized) → IsStep state event body (add_child state event child)
    unfolding add_child
    add_child-IsStep child = quiet-IsStep refl refl (ground arith) refl refl

    pub materialize-IsStep :
        (child : ChildMaterialized) → IsStep state event body (materialize state event child)
    unfolding materialize
    materialize-IsStep child = guarded-IsStep (is_in_flight state.status) λ _.
        guarded-IsStep (has_identity child) λ _. guarded-IsStep (has_amounts child) λ _.
          guarded-IsStep
            (not (is_bad_parent_balance child.retire_parent child.parent_credits_after))
            λ _. add_child-IsStep child

    pub finalize_branch-IsStep :
        (branch_id : String) → IsStep state event body (finalize_branch state event branch_id)
    unfolding finalize_branch retire_branch
    finalize_branch-IsStep branch_id = guarded-IsStep (is_settling state.status) λ _.
        elim (Bool-cases
          (no_leaves (erase branch_id state.active_leaves) && is_running state.status)) [
            | inl last ↦ rw last (
                enter_finalizing-IsStep state event _ _ _ _
                  (from_status (is_running_eq _ (ground arith)) wraps_up_running) (inl refl) refl
                  refl refl)
            | inr more ↦ rw more (quiet-IsStep refl refl (omega arith) refl refl)
          ]
