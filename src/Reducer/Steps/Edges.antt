-- ===== src/Reducer/Steps/Edges.antt =====
-- The edges that each test of the status allows.
use mathlib.Core.Path.{subst}
use maibot_lunagentic_resear.Prelude.{Bool-cases, ◌≡◌, sym, ◌⊎◌, inl, inr, true, false, ◌||◌, arith}
use maibot_lunagentic_resear.Models.{
  TaskStatus, formalizing, running, reporting, pausing, paused, finalizing, is_terminal,
}
use maibot_lunagentic_resear.Reducer.Transitions.{
  is_formalizing, is_running, is_reporting, is_pausing, is_paused, is_finalizing, is_calling,
  is_committing,
}
use maibot_lunagentic_resear.Reducer.Lifecycle.{is_active}
use maibot_lunagentic_resear.Reducer.Steps.{
  StatusEdge, stays, pauses_running, pauses_reporting, wraps_up_running, wraps_up_reporting,
  continues, restarts,
}

pub calling_cases : (s : TaskStatus) → is_calling s ≡ true → (s ≡ running) ⊎ (s ≡ reporting)
calling_cases s h = ground arith

pub is_formalizing_eq : (s : TaskStatus) → is_formalizing s ≡ true → s ≡ formalizing
is_formalizing_eq s h = ground arith

pub is_running_eq : (s : TaskStatus) → is_running s ≡ true → s ≡ running
is_running_eq s h = ground arith

pub is_reporting_eq : (s : TaskStatus) → is_reporting s ≡ true → s ≡ reporting
is_reporting_eq s h = ground arith

pub is_pausing_eq : (s : TaskStatus) → is_pausing s ≡ true → s ≡ pausing
is_pausing_eq s h = ground arith

pub is_paused_eq : (s : TaskStatus) → is_paused s ≡ true → s ≡ paused
is_paused_eq s h = ground arith

pub is_finalizing_eq : (s : TaskStatus) → is_finalizing s ≡ true → s ≡ finalizing
is_finalizing_eq s h = ground arith

pub committing_cases :
    (s : TaskStatus) → is_committing s ≡ true → (is_calling s ≡ true) ⊎ (s ≡ finalizing)
committing_cases s h = ground arith

-- An edge from the status that the guard found.
pub from_status : {s old new : TaskStatus} → s ≡ old → StatusEdge old new → StatusEdge s new
from_status {new} e edge = subst (λ s. StatusEdge s new) (sym e) edge

pub calling_to_finalizing : {s : TaskStatus} → is_calling s ≡ true → StatusEdge s finalizing
calling_to_finalizing {s} h = elim (calling_cases s h) [
  | inl e ↦ from_status e wraps_up_running
  | inr e ↦ from_status e wraps_up_reporting
]

pub calling_to_pausing : {s : TaskStatus} → is_calling s ≡ true → StatusEdge s pausing
calling_to_pausing {s} h = elim (calling_cases s h) [
  | inl e ↦ from_status e pauses_running
  | inr e ↦ from_status e pauses_reporting
]

pub committing_to_finalizing : {s : TaskStatus} → is_committing s ≡ true → StatusEdge s finalizing
committing_to_finalizing {s} h = elim (committing_cases s h) [
  | inl c ↦ calling_to_finalizing c
  | inr e ↦ from_status e stays
]

pub is_active_eq : (s : TaskStatus) → is_active s ≡ true → is_terminal s ≡ false
is_active_eq s h = ground arith

pub continuing_edge :
    {s : TaskStatus} → (is_paused s || is_terminal s) ≡ true → StatusEdge s running
continuing_edge {s} h = elim (Bool-cases (is_terminal s)) [
  | inl ended ↦ restarts ended
  | inr live ↦ from_status (is_paused_eq s (ground arith)) continues
]
