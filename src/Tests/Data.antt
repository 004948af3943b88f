-- ===== src/Tests/Data.antt =====
-- The inputs that the tests share.

use maibot_lunagentic_resear.Prelude.{
  ℤ, pos, negsuc, ◌-ℤ◌, ◌≤ℤ◌, int_laws, suc, ◌*◌, ◌/◌, ◌≡◌, ap, false, none, some, [], ◌∷◌, arith,
}
use maibot_lunagentic_resear.Models.{running}
use maibot_lunagentic_resear.Credits.Scaled.{Scale, unscaled, FloatArithmetic}
use maibot_lunagentic_resear.Events.{EventBody, RuntimeEvent}
use maibot_lunagentic_resear.Reducer.State.{RuntimeState}
use maibot_lunagentic_resear.Reducer.Calls.{IdSupply}

-- Products rounded toward zero, with a hundredth of a credit as the step.
abbrev pub truncated : ℤ → Scale → ℤ
truncated (pos v) scale = elim scale.numerator [
  | pos n ↦ pos (v * n / scale.denominator)
  | negsuc n ↦ pos 0 -ℤ pos (v * suc n / scale.denominator)
]
truncated (negsuc v) scale = elim scale.numerator [
  | pos n ↦ pos 0 -ℤ pos (suc v * n / scale.denominator)
  | negsuc n ↦ pos (suc v * suc n / scale.denominator)
]

pub truncated_nonneg :
    (value : ℤ) (scale : Scale)
    → pos 0 ≤ℤ value
    → pos 0 ≤ℤ scale.numerator
    → pos 0 ≤ℤ truncated value scale
truncated_nonneg value scale v s = ground arith

pub truncated-unscaled : (value : ℤ) → truncated value unscaled ≡ value
truncated-unscaled (pos v) = ap pos (omega arith)
truncated-unscaled (negsuc v) = omega int_laws

abbrev pub cents : FloatArithmetic
cents = record {
  steps_per_credit = 100;
  times = truncated;
  times_nonneg = truncated_nonneg;
  times_unscaled = truncated-unscaled;
}

abbrev pub sample_ids : IdSupply
sample_ids n = "id"

-- A task in its first round, without live branches.
abbrev pub idle : RuntimeState
idle = record {
  task_id = "t1";
  status = running;
  formalized_task = none;
  generation = 3;
  active_round_id = some "r1";
  failure_code = none;
  credit_pool = pos 40;
  active_leaves = [];
  inflight_count = 0;
  report_epoch = 0;
  raw_context_released = false;
  continue_barrier = false;
  agent_calls_started = 2;
}

-- With one live branch of a hundred steps.
abbrev pub busy : RuntimeState
busy = record idle { active_leaves = ("b1", pos 100) ∷ [] }

abbrev pub event_of : EventBody → RuntimeEvent
event_of body = record {
  event_id = "e1";
  task_id = "t1";
  round_id = "r1";
  generation = 3;
  occurred_at = 50;
  body = body;
}
