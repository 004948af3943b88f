-- ===== src/Tests/Turns.antt =====
-- A turn that is not of the protocol, and a batch that charges.
use maibot_lunagentic_resear.Prelude.{
  pos, negsuc, ◌+ℤ◌, ◌-ℤ◌, ok, ◌≡◌, refl, true, false, none, some, List, [], ◌∷◌,
}
use maibot_lunagentic_resear.Json.{
  Json, null, number, end_fields, field, contains_reasoning, any_contains_reasoning,
  fields_contain_reasoning, put_field, merge_fields, metadata_json,
}
use maibot_lunagentic_resear.Commands.{
  StoreCommand, insert_credit_ledger, insert_procedure_call, ledger_total,
}
use maibot_lunagentic_resear.Pricing.{actual, normalize_actual_usage}
use maibot_lunagentic_resear.Credits.Usage.{
  of_tokens, token_fields, same_codes, is_role_of, is_summarizer_role,
}
use maibot_lunagentic_resear.Credits.Usage.Reservation.{
  ReservationResult, reservation_metadata, reserve_input,
}
use maibot_lunagentic_resear.Credits.Usage.Reconciliation.{
  ReconciliationResult, reconciliation_commands, call_of, actual_charge_of, provenance,
  settle_reported, settle_usage,
}
use maibot_lunagentic_resear.Credits.Usage.Settlement.{settle_call, reconcile_usage}
use maibot_lunagentic_resear.Credits.Usage.Procedure.{procedure_entry, charge_procedure_usage}
use maibot_lunagentic_resear.Text.{with_suffix, pinned_selector}
use maibot_lunagentic_resear.Events.{agent_call_completed, procedure_batch_completed, RuntimeEvent}
use maibot_lunagentic_resear.Events.Agents.{AgentCallCompleted}
use maibot_lunagentic_resear.Events.Branches.{ProcedureBatchCompleted}
use maibot_lunagentic_resear.Reducer.State.{RuntimeState, Transition}
use maibot_lunagentic_resear.Reducer.Calls.{caught}
use maibot_lunagentic_resear.Reducer.Agents.{
  with_leaf, corrected, correct_turn, after_turn, complete_call,
}
use maibot_lunagentic_resear.Reducer.Procedures.{
  procedure_call_rows, extract_research_credits_charged, charge_items, total_charged,
  charge_commands, batch_commands,
}
use maibot_lunagentic_resear.Reducer.Ledger.{stated_total, batch_commands-ledger_total}
use maibot_lunagentic_resear.Reducer.Corrections.{StartsCorrections, complete_call-corrects}
use maibot_lunagentic_resear.Tests.Data.{cents, sample_ids, busy, event_of}

abbrev pub bad_turn : AgentCallCompleted
bad_turn = record {
  branch_id = "b1";
  call_id = "c1";
  result_id = "x1";
  usage = of_tokens (record {
    prompt_tokens = pos 100;
    completion_tokens = pos 20;
    cache_hit_tokens = pos 30;
    cache_miss_tokens = pos 70;
    source = actual;
  });
  actual_model_name = "small";
  actual_charge = some (pos 25);
  estimated_charge = pos 40;
  balance_before_reconciliation = pos 60;
  protocol = "json_envelope";
  protocol_result = none;
  protocol_error = some (record { message = "invalid"; errors = [] });
  correction_count = 0;
  correction_call_id = "";
  correction_usage_id = "u2";
  correction_ledger_id = "l2";
  correction_estimated_charge = pos 30;
  max_correction_turns = pos 1;
  pinning_supported = true;
  messages = [];
  limits = record {
    branch_depth = pos 0;
    live_agent_ids = none;
    max_delegations_per_turn = 8;
    max_branch_depth = 32;
    max_agent_calls_per_task = 256;
    agent_calls_started = 2;
  };
}

abbrev pub bad_event : RuntimeEvent
bad_event = event_of (agent_call_completed bad_turn)

abbrev bad_settled : ReconciliationResult
bad_settled = record {
  usage = record {
    usage_id = "id:reconciled";
    task_id = "t1";
    round_id = "r1";
    branch_id = some "b1";
    call_id = "c1";
    role = "agent";
    selector = "";
    estimated_model_name = none;
    actual_model_name = some "small";
    price_source = "host_config";
    price_fingerprint = "";
    prompt_tokens = pos 100;
    completion_tokens = pos 20;
    cache_hit_tokens = pos 30;
    cache_miss_tokens = pos 70;
    estimated_charge = pos 40;
    actual_charge = some (pos 25);
    adjustment = some (pos 15);
    reconciliation_status = "actual";
    duration_ms = pos 0;
    created_at = 50;
  };
  ledger_entry = some (record {
    ledger_id = "id";
    task_id = "t1";
    round_id = "r1";
    branch_id = some "b1";
    call_id = some "c1";
    entry_kind = "input_reconciliation";
    amount = pos 15;
    balance_after = some (pos 75);
    metadata = field "estimated_model_name" null (
        field "actual_model_name" (Json.text "small") (
          field "price_source" (Json.text "host_config") (
            field "price_fingerprint" (Json.text "") (
              field "reconciliation_status" (Json.text "actual") (
                field "estimated_charge" (number (pos 40)) (
                  field "actual_charge" (number (pos 25))
                    (field "adjustment" (number (pos 15)) end_fields)))))));
    created_at = 50;
  });
  adjustment = pos 15;
  charged = none;
}

abbrev correction_reserved : ReservationResult
correction_reserved = record {
  usage = record {
    usage_id = "u2";
    task_id = "t1";
    round_id = "r1";
    branch_id = some "b1";
    call_id = "c1:correction";
    role = "agent";
    selector = "model:small";
    estimated_model_name = some "small";
    actual_model_name = none;
    price_source = "host_config";
    price_fingerprint = "";
    prompt_tokens = pos 0;
    completion_tokens = pos 0;
    cache_hit_tokens = pos 0;
    cache_miss_tokens = pos 0;
    estimated_charge = pos 30;
    actual_charge = none;
    adjustment = none;
    reconciliation_status = "reserved";
    duration_ms = pos 0;
    created_at = 50;
  };
  ledger_entry = some (record {
    ledger_id = "l2";
    task_id = "t1";
    round_id = "r1";
    branch_id = some "b1";
    call_id = some "c1:correction";
    entry_kind = "input_reservation";
    amount = negsuc 29;
    balance_after = some (pos 45);
    metadata = field "estimated_model_name" (Json.text "small") (
        field "actual_model_name" null (
          field "price_source" (Json.text "host_config") (
            field "price_fingerprint" (Json.text "") (
              field "reconciliation_status" (Json.text "reserved") (
                field "event_type" (Json.text "AgentCallReserved")
                  (field "correction_count" (number (pos 1)) end_fields))))));
    created_at = 50;
  });
}

-- The branch after the reservation of the call.
abbrev pub waiting : RuntimeState
waiting = with_leaf busy "b1" (pos 60)

abbrev pub corrected_turn : Transition
corrected_turn =
    corrected sample_ids waiting bad_event (with_leaf waiting "b1" (pos 75))
      (reconciliation_commands bad_settled) bad_turn (pos 45)
      (record { message = "invalid"; errors = [] }) correction_reserved

pub turn_is_corrected :
    complete_call sample_ids waiting bad_event cents bad_turn ≡ ok corrected_turn
unfolding complete_call caught after_turn correct_turn reserve_input token_fields
    reservation_metadata merge_fields put_field metadata_json contains_reasoning
    any_contains_reasoning fields_contain_reasoning is_summarizer_role is_role_of same_codes
    reconcile_usage call_of settle_call settle_usage settle_reported normalize_actual_usage
    actual_charge_of provenance with_suffix pinned_selector ◌-ℤ◌ ◌+ℤ◌
turn_is_corrected = refl

complete_call-corrects_example : StartsCorrections bad_turn corrected_turn
complete_call-corrects_example =
    complete_call-corrects sample_ids waiting bad_event bad_turn cents turn_is_corrected

abbrev search_batch : ProcedureBatchCompleted
search_batch = record {
  branch_id = "b1";
  call_id = "c1";
  result_id = "x1";
  results =
      (record {
        procedure_id = "web.search";
        request_id = "q1";
        call_id = "";
        provider_plugin_id = "web";
        api_name = "search";
        api_version = "1";
        attempts = pos 1;
        duration_ms = pos 3;
        success = true;
        error = none;
        research_credits_charged = some (pos 5);
        agent_id = some "a1";
        budget_hint = none;
        external_cost = none;
      })
      ∷ [];
  controls = record { terminate = false; checkpoint = false };
  report = "";
  delegations = [];
  credits_after = pos 95;
  parent_messages = [];
  parent_depth = pos 0;
  agent_id = "a1";
  live_agent_ids = none;
  max_delegations_per_turn = 8;
  max_branch_depth = 32;
  max_agent_calls_per_task = 256;
  agent_calls_started = 2;
}

abbrev batch_event : RuntimeEvent
batch_event = event_of (procedure_batch_completed search_batch)

abbrev search_commands : List StoreCommand
search_commands =
    insert_procedure_call (record {
      request_id = "q1";
      task_id = "t1";
      round_id = "r1";
      branch_id = "b1";
      turn_id = "c1";
      agent_id = "a1";
      procedure_id = "web.search";
      provider_plugin_id = "web";
      succeeded = true;
      duration_ms = pos 3;
      error_code = none;
      provenance =
          field "api_name" (Json.text "search")
            (field "api_version" (Json.text "1") (field "attempts" (number (pos 1)) end_fields));
      external_cost = none;
      created_at = 50;
    })
    ∷ insert_credit_ledger (record {
      ledger_id = "id";
      task_id = "t1";
      round_id = "r1";
      branch_id = some "b1";
      call_id = some "c1";
      entry_kind = "procedure_charge";
      amount = negsuc 4;
      balance_after = some (pos 95);
      metadata = field "procedure_id" (Json.text "web.search") (
          field "call_id" (Json.text "c1")
            (field "request_id" (Json.text "q1") (field "charged" (number (pos 5)) end_fields)));
      created_at = 50;
    })
    ∷ []

search_is_booked : batch_commands sample_ids batch_event search_batch ≡ ok search_commands
unfolding batch_commands charge_items extract_research_credits_charged total_charged charge_commands
    charge_procedure_usage procedure_entry procedure_call_rows merge_fields put_field metadata_json
    contains_reasoning any_contains_reasoning fields_contain_reasoning ◌-ℤ◌ ◌+ℤ◌
search_is_booked = refl

batch_commands-ledger_total_example :
    ledger_total search_commands ≡ pos 0 -ℤ stated_total search_batch.results
batch_commands-ledger_total_example =
    batch_commands-ledger_total sample_ids batch_event search_batch search_is_booked
