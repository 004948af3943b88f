-- ===== src/Reducer/Calls.antt =====
-- The events of agent calls (reducer.py). The ids that the credit commands draw come from a supply.
use maibot_lunagentic_resear.Prelude.{
  if◌then◌else◌, is_empty, text_or, ℤ, pos, ◌-ℤ◌, value_error, Result, ok, err, ℕ, ◌+◌, String,
  true, false, Option, none, some,
}
use maibot_lunagentic_resear.Json.{Json, number, end_fields, field}
use maibot_lunagentic_resear.Credits.Usage.{no_usage, no_tokens}
use maibot_lunagentic_resear.Credits.Usage.Reservation.{amount, ReserveArgs}
use maibot_lunagentic_resear.Credits.Usage.Reconciliation.{ReconcileArgs}
use maibot_lunagentic_resear.Text.{pinned_selector}
use maibot_lunagentic_resear.Events.{RuntimeEvent}
use maibot_lunagentic_resear.Events.Agents.{AgentCallRequested, AgentCallCompleted, AgentCallFailed}
use maibot_lunagentic_resear.Reducer.State.{Transition}

-- The random ids that one transition may draw, by number.
abbrev pub IdSupply : Type 0
IdSupply = ℕ → String

-- `try: ... except (TypeError, ValueError)`: any other exception goes on to the caller.
unfoldable pub caught {ℓ} :
    {A : Type ℓ} → Result A → Transition → (A → Result Transition) → Result Transition
caught (ok a) refused continue = continue a
caught (err value_error) refused continue = ok refused
caught (err e) refused continue = err e

-- `text or None`
abbrev pub non_empty : String → Option String
non_empty s = if is_empty s then none else some s

module _ (ids : IdSupply) (event : RuntimeEvent) where
  abbrev pub request_reservation : AgentCallRequested → ReserveArgs
  request_reservation call = record {
    estimated_charge = amount call.estimated_charge;
    task_id = event.task_id;
    round_id = event.round_id;
    branch_id = some call.branch_id;
    call_id = call.call_id;
    usage_id = call.usage_id;
    ledger_id = call.ledger_id;
    role = "agent";
    selector = call.selector;
    estimated_model_name = non_empty call.estimated_model_name;
    price_source = call.price_source;
    price_fingerprint = call.price_fingerprint;
    estimated_usage = no_usage;
    catalog = none;
    tokens = record {
      prompt = call.prompt_tokens;
      completion = pos 0;
      hit = call.cache_hit_tokens;
      miss = call.cache_miss_tokens;
    };
    balance_after = some (call.balance_before -ℤ call.estimated_charge);
    metadata =
        field "event_type" (Json.text "AgentCallReserved")
          (field "agent_id" (Json.text call.agent_id) end_fields);
    duration_ms = pos 0;
    created_at = event.occurred_at;
    fresh_usage_id = ids 0;
    fresh_ledger_id = ids 1;
  }

  abbrev pub completion_args : AgentCallCompleted → ℤ → ℤ → ReconcileArgs
  completion_args call actual_charge balance_after = record {
    catalog = none;
    actual_model_name = non_empty call.actual_model_name;
    usage = call.usage;
    success = true;
    estimated_charge = some call.estimated_charge;
    actual_charge = some actual_charge;
    task_id = event.task_id;
    round_id = event.round_id;
    branch_id = some call.branch_id;
    call_id = call.call_id;
    role = "agent";
    selector = "";
    estimated_model_name = none;
    price_source = "host_config";
    price_fingerprint = "";
    usage_id = none;
    balance_after = some balance_after;
    metadata = end_fields;
    duration_ms = none;
    created_at = event.occurred_at;
    fresh_usage_id = ids 0;
    fresh_ledger_id = ids 1;
  }

  abbrev pub failure_args : AgentCallFailed → Option ℤ → ℤ → ReconcileArgs
  failure_args call actual_charge balance_after = record {
    catalog = none;
    actual_model_name = non_empty call.actual_model_name;
    usage = call.usage;
    success = false;
    estimated_charge = some call.estimated_charge;
    actual_charge = actual_charge;
    task_id = event.task_id;
    round_id = event.round_id;
    branch_id = some call.branch_id;
    call_id = call.call_id;
    role = "agent";
    selector = call.selector;
    estimated_model_name = none;
    price_source = "host_config";
    price_fingerprint = "";
    usage_id = none;
    balance_after = some balance_after;
    metadata = field "error_code" (Json.text (text_or call.error_code "agent_failed")) end_fields;
    duration_ms = none;
    created_at = event.occurred_at;
    fresh_usage_id = ids 0;
    fresh_ledger_id = ids 1;
  }

  abbrev pub correction_reservation : AgentCallCompleted → String → ℤ → ReserveArgs
  correction_reservation call call_id balance = record {
    estimated_charge = amount call.correction_estimated_charge;
    task_id = event.task_id;
    round_id = event.round_id;
    branch_id = some call.branch_id;
    call_id = call_id;
    usage_id = call.correction_usage_id;
    ledger_id = call.correction_ledger_id;
    role = "agent";
    selector = pinned_selector call.actual_model_name;
    estimated_model_name = some call.actual_model_name;
    price_source = "host_config";
    price_fingerprint = "";
    estimated_usage = no_usage;
    catalog = none;
    tokens = no_tokens;
    balance_after = some balance;
    metadata =
        field "event_type" (Json.text "AgentCallReserved")
          (field "correction_count" (number (pos (call.correction_count + 1))) end_fields);
    duration_ms = pos 0;
    created_at = event.occurred_at;
    fresh_usage_id = ids 2;
    fresh_ledger_id = ids 3;
  }
