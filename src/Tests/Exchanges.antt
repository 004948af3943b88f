-- ===== src/Tests/Exchanges.antt =====
-- A call that is requested, and whose answer is corrected.
use maibot_lunagentic_resear.Prelude.{
  ℤ, pos, negsuc, ◌+ℤ◌, ◌-ℤ◌, ok, ◌≡◌, refl, true, none, some, [], ◌++◌,
}
use maibot_lunagentic_resear.Dict.{lookup}
use maibot_lunagentic_resear.Json.{
  Json, null, end_fields, field, contains_reasoning, any_contains_reasoning,
  fields_contain_reasoning, put_field, merge_fields, metadata_json,
}
use maibot_lunagentic_resear.Commands.{ledger_total}
use maibot_lunagentic_resear.Credits.Usage.{
  token_fields, same_codes, is_role_of, is_summarizer_role,
}
use maibot_lunagentic_resear.Credits.Usage.Reservation.{
  ReservationResult, reservation_metadata, reserve_input,
}
use maibot_lunagentic_resear.Events.{agent_call_requested, RuntimeEvent}
use maibot_lunagentic_resear.Events.Agents.{AgentCallRequested}
use maibot_lunagentic_resear.Reducer.State.{Transition}
use maibot_lunagentic_resear.Reducer.Calls.{caught}
use maibot_lunagentic_resear.Reducer.Agents.{launched, request_call}
use maibot_lunagentic_resear.Reducer.Balances.{lookup-insert_present}
use maibot_lunagentic_resear.Reducer.Exchanges.{request_call-complete_call}
use maibot_lunagentic_resear.Tests.Data.{cents, sample_ids, busy, event_of}
use maibot_lunagentic_resear.Tests.Turns.{
  bad_turn, bad_event, waiting, corrected_turn, turn_is_corrected,
}

abbrev request : AgentCallRequested
request = record {
  branch_id = "b1";
  call_id = "c1";
  agent_id = "a1";
  selector = "model:small";
  protocol = "json_envelope";
  messages = [];
  prompt_tokens = pos 100;
  cache_hit_tokens = pos 30;
  cache_miss_tokens = pos 70;
  estimated_charge = pos 40;
  balance_before = pos 100;
  usage_id = "u1";
  ledger_id = "l1";
  price_source = "host_config";
  price_fingerprint = "";
  estimated_model_name = "small";
  correction_count = 0;
  pinning_supported = true;
  limits = bad_turn.limits;
}

abbrev request_event : RuntimeEvent
request_event = event_of (agent_call_requested request)

abbrev reserved : ReservationResult
reserved = record {
  usage = record {
    usage_id = "u1";
    task_id = "t1";
    round_id = "r1";
    branch_id = some "b1";
    call_id = "c1";
    role = "agent";
    selector = "model:small";
    estimated_model_name = some "small";
    actual_model_name = none;
    price_source = "host_config";
    price_fingerprint = "";
    prompt_tokens = pos 100;
    completion_tokens = pos 0;
    cache_hit_tokens = pos 30;
    cache_miss_tokens = pos 70;
    estimated_charge = pos 40;
    actual_charge = none;
    adjustment = none;
    reconciliation_status = "reserved";
    duration_ms = pos 0;
    created_at = 50;
  };
  ledger_entry = some (record {
    ledger_id = "l1";
    task_id = "t1";
    round_id = "r1";
    branch_id = some "b1";
    call_id = some "c1";
    entry_kind = "input_reservation";
    amount = negsuc 39;
    balance_after = some (pos 60);
    metadata = field "estimated_model_name" (Json.text "small") (
        field "actual_model_name" null (
          field "price_source" (Json.text "host_config") (
            field "price_fingerprint" (Json.text "") (
              field "reconciliation_status" (Json.text "reserved") (
                field "event_type" (Json.text "AgentCallReserved")
                  (field "agent_id" (Json.text "a1") end_fields))))));
    created_at = 50;
  });
}

abbrev started_turn : Transition
started_turn = launched sample_ids busy request_event request reserved

turn_is_started : request_call sample_ids busy request_event request ≡ ok started_turn
unfolding request_call caught reserve_input token_fields reservation_metadata merge_fields put_field
    metadata_json contains_reasoning any_contains_reasoning fields_contain_reasoning
    is_summarizer_role is_role_of same_codes ◌-ℤ◌ ◌+ℤ◌
turn_is_started = refl

reservation_is_left : pos 60 ≡ pos 100 -ℤ pos 40
unfolding ◌-ℤ◌
reservation_is_left = refl

busy_leaf : lookup "b1" busy.active_leaves ≡ some (pos 100)
unfolding lookup
busy_leaf = refl

waiting_leaf : lookup "b1" waiting.active_leaves ≡ some (pos 60)
waiting_leaf = lookup-insert_present "b1" (pos 60) busy.active_leaves busy_leaf

request_call-complete_call_example :
    (lookup "b1" started_turn.next_state.active_leaves ≡ some (pos 60))
    × ((balance : ℤ) × (lookup "b1" corrected_turn.next_state.active_leaves ≡ some balance)
        × (ledger_total (started_turn.commands ++ corrected_turn.commands) ≡ balance -ℤ pos 100))
request_call-complete_call_example =
    request_call-complete_call sample_ids sample_ids busy waiting request_event bad_event cents
      request bad_turn refl reservation_is_left refl busy_leaf turn_is_started refl waiting_leaf
      turn_is_corrected refl
