-- ===== src/Reducer/Steps/Lifecycle.antt =====
-- The handlers of formalization, pause, stop and failure keep to `IsStep`.
use maibot_lunagentic_resear.Prelude.{ℕ, String, refl, inl, inr, Option, arith}
use maibot_lunagentic_resear.Events.{EventBody, stop_requested, RuntimeEvent}
use maibot_lunagentic_resear.Reducer.State.{RuntimeState, Transition}
use maibot_lunagentic_resear.Reducer.Transitions.{guarded, is_formalizing}
use maibot_lunagentic_resear.Reducer.Lifecycle.{
  formalization_done, formalization_gave_up, pause, settle_inflight, expire_pause, stop,
  persistence_gave_up,
}
use maibot_lunagentic_resear.Reducer.Steps.{
  formalizes, settles, expires, stops, fails, IsStep, guarded-IsStep, transition_status-IsStep,
  move-IsStep,
}
use maibot_lunagentic_resear.Reducer.Steps.Edges.{
  is_formalizing_eq, is_pausing_eq, is_paused_eq, from_status, calling_to_pausing, is_active_eq,
}

module _ (state : RuntimeState) (event : RuntimeEvent) where
  abbrev Steps : EventBody → Transition → Type 0
  Steps = IsStep state event

  module _ {body : EventBody} where
    pub formalization_done-IsStep :
        (text sha256 : String)
        → Steps body (
            guarded
              (is_formalizing state.status)
              state
              event
              (formalization_done state event text sha256))
    unfolding formalization_done
    formalization_done-IsStep text sha256 =
        guarded-IsStep _ λ h.
          move-IsStep _ _ _ (from_status (is_formalizing_eq _ h) formalizes) refl refl refl refl

    pub formalization_gave_up-IsStep :
        (code message : String)
        → Steps body (
            guarded
              (is_formalizing state.status)
              state
              event
              (formalization_gave_up state event code message))
    unfolding formalization_gave_up
    formalization_gave_up-IsStep code message =
        guarded-IsStep (is_formalizing state.status)
          λ h. move-IsStep _ _ _ fails refl refl refl refl

    pub pause-IsStep : (expires_at : Option ℕ) → Steps body (pause state event expires_at)
    unfolding pause
    pause-IsStep expires_at =
        guarded-IsStep _ λ h. move-IsStep _ _ _ (calling_to_pausing h) refl refl refl refl

    pub settle_inflight-IsStep : Steps body (settle_inflight state event)
    unfolding settle_inflight
    settle_inflight-IsStep =
        guarded-IsStep _
          λ h. move-IsStep _ _ _ (from_status (is_pausing_eq _ h) settles) refl refl refl refl

    pub expire_pause-IsStep : Steps body (expire_pause state event)
    unfolding expire_pause
    expire_pause-IsStep =
        guarded-IsStep _
          λ h. move-IsStep _ _ _ (from_status (is_paused_eq _ h) expires) refl refl refl refl

    pub persistence_gave_up-IsStep :
        (code : String) → Steps body (persistence_gave_up state event code)
    unfolding persistence_gave_up
    persistence_gave_up-IsStep code = move-IsStep _ _ _ fails refl refl refl refl

  pub stop-IsStep : (reason : String) → Steps (stop_requested reason) (stop state event)
  unfolding stop
  stop-IsStep reason = guarded-IsStep _ λ h.
      transition_status-IsStep _ _ _ (stops (is_active_eq _ h)) (inl refl) (omega arith) (inr refl)
        refl
