-- ===== src/Tests/Usages.antt =====
-- One agent call, reserved and reconciled.
use maibot_lunagentic_resear.Prelude.{
  pos, negsuc, ◌+ℤ◌, ◌-ℤ◌, ok, ◌≡◌, refl, true, none, some, ◌++◌,
}
use maibot_lunagentic_resear.Json.{
  Json, null, number, JsonFields, end_fields, field, contains_reasoning, any_contains_reasoning,
  fields_contain_reasoning, put_field, merge_fields, metadata_json,
}
use maibot_lunagentic_resear.Commands.{ledger_total}
use maibot_lunagentic_resear.Pricing.{actual, normalize_actual_usage}
use maibot_lunagentic_resear.Credits.Usage.{
  no_usage, of_tokens, token_fields, same_codes, is_role_of, is_summarizer_role,
}
use maibot_lunagentic_resear.Credits.Usage.Reservation.{
  amount, ReserveArgs, ReservationResult, reservation_commands, reservation_metadata, reserve_input,
}
use maibot_lunagentic_resear.Credits.Usage.Reconciliation.{
  ReconcileArgs, ReconciliationResult, reconciliation_commands, call_of, actual_charge_of,
  provenance, settle_reported, settle_usage,
}
use maibot_lunagentic_resear.Credits.Usage.Settlement.{settle_call, reconcile_usage}
use maibot_lunagentic_resear.Credits.Usage.Balance.{reserve_input-reconcile_usage}
use maibot_lunagentic_resear.Text.{with_suffix}
use maibot_lunagentic_resear.Tests.Data.{cents}

abbrev agent_reservation : ReserveArgs
agent_reservation = record {
  estimated_charge = amount (pos 40);
  task_id = "t1";
  round_id = "r1";
  branch_id = some "b1";
  call_id = "c1";
  usage_id = "u1";
  ledger_id = "l1";
  role = "agent";
  selector = "auto";
  estimated_model_name = some "small";
  price_source = "host_config";
  price_fingerprint = "f1";
  estimated_usage = no_usage;
  catalog = none;
  tokens = record { prompt = pos 100; completion = pos 0; hit = pos 0; miss = pos 100 };
  balance_after = some (pos 60);
  metadata = end_fields;
  duration_ms = pos 0;
  created_at = 7;
  fresh_usage_id = "u9";
  fresh_ledger_id = "l9";
}

abbrev agent_settlement : ReconcileArgs
agent_settlement = record {
  catalog = none;
  actual_model_name = some "small";
  usage = of_tokens (record {
    prompt_tokens = pos 100;
    completion_tokens = pos 20;
    cache_hit_tokens = pos 30;
    cache_miss_tokens = pos 70;
    source = actual;
  });
  success = true;
  estimated_charge = none;
  actual_charge = some (pos 25);
  task_id = "";
  round_id = "";
  branch_id = none;
  call_id = "";
  role = "agent";
  selector = "";
  estimated_model_name = none;
  price_source = "host_config";
  price_fingerprint = "";
  usage_id = none;
  balance_after = some (pos 75);
  metadata = end_fields;
  duration_ms = none;
  created_at = 9;
  fresh_usage_id = "u8";
  fresh_ledger_id = "l8";
}

abbrev reservation_metadata_written : JsonFields
reservation_metadata_written = field "estimated_model_name" (Json.text "small") (
    field "actual_model_name" null (
      field "price_source" (Json.text "host_config") (
        field "price_fingerprint" (Json.text "f1")
          (field "reconciliation_status" (Json.text "reserved") end_fields))))

abbrev agent_reserved : ReservationResult
agent_reserved = record {
  usage = record {
    usage_id = "u1";
    task_id = "t1";
    round_id = "r1";
    branch_id = some "b1";
    call_id = "c1";
    role = "agent";
    selector = "auto";
    estimated_model_name = some "small";
    actual_model_name = none;
    price_source = "host_config";
    price_fingerprint = "f1";
    prompt_tokens = pos 100;
    completion_tokens = pos 0;
    cache_hit_tokens = pos 0;
    cache_miss_tokens = pos 100;
    estimated_charge = pos 40;
    actual_charge = none;
    adjustment = none;
    reconciliation_status = "reserved";
    duration_ms = pos 0;
    created_at = 7;
  };
  ledger_entry = some (record {
    ledger_id = "l1";
    task_id = "t1";
    round_id = "r1";
    branch_id = some "b1";
    call_id = some "c1";
    entry_kind = "input_reservation";
    amount = negsuc 39;
    balance_after = some (pos 60);
    metadata = reservation_metadata_written;
    created_at = 7;
  });
}

agent_is_reserved : reserve_input agent_reservation ≡ ok agent_reserved
unfolding reserve_input token_fields reservation_metadata merge_fields put_field metadata_json
    contains_reasoning any_contains_reasoning fields_contain_reasoning is_summarizer_role is_role_of
    same_codes ◌-ℤ◌ ◌+ℤ◌
agent_is_reserved = refl

abbrev agent_reconciled : ReconciliationResult
agent_reconciled = record {
  usage = record {
    usage_id = "u1:reconciled";
    task_id = "t1";
    round_id = "r1";
    branch_id = some "b1";
    call_id = "c1";
    role = "agent";
    selector = "auto";
    estimated_model_name = some "small";
    actual_model_name = some "small";
    price_source = "host_config";
    price_fingerprint = "f1";
    prompt_tokens = pos 100;
    completion_tokens = pos 20;
    cache_hit_tokens = pos 30;
    cache_miss_tokens = pos 70;
    estimated_charge = pos 40;
    actual_charge = some (pos 25);
    adjustment = some (pos 15);
    reconciliation_status = "actual";
    duration_ms = pos 0;
    created_at = 9;
  };
  ledger_entry = some (record {
    ledger_id = "l8";
    task_id = "t1";
    round_id = "r1";
    branch_id = some "b1";
    call_id = some "c1";
    entry_kind = "input_reconciliation";
    amount = pos 15;
    balance_after = some (pos 75);
    metadata = field "estimated_model_name" (Json.text "small") (
        field "actual_model_name" (Json.text "small") (
          field "price_source" (Json.text "host_config") (
            field "price_fingerprint" (Json.text "f1") (
              field "reconciliation_status" (Json.text "actual") (
                field "estimated_charge" (number (pos 40)) (
                  field "actual_charge" (number (pos 25))
                    (field "adjustment" (number (pos 15)) end_fields)))))));
    created_at = 9;
  });
  adjustment = pos 15;
  charged = none;
}

agent_is_reconciled :
    reconcile_usage cents (some agent_reserved) agent_settlement ≡ ok agent_reconciled
unfolding reconcile_usage call_of settle_call settle_usage settle_reported token_fields
    normalize_actual_usage actual_charge_of provenance merge_fields put_field metadata_json
    contains_reasoning any_contains_reasoning fields_contain_reasoning is_summarizer_role is_role_of
    same_codes with_suffix ◌-ℤ◌ ◌+ℤ◌
agent_is_reconciled = refl

reserve_input-reconcile_usage_example :
    ledger_total (reservation_commands agent_reserved ++ reconciliation_commands agent_reconciled)
    ≡ negsuc 24
unfolding is_summarizer_role is_role_of same_codes ◌-ℤ◌ ◌+ℤ◌
reserve_input-reconcile_usage_example =
    reserve_input-reconcile_usage cents agent_reservation agent_settlement agent_is_reserved
      agent_is_reconciled
