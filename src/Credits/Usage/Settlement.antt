-- ===== src/Credits/Usage/Settlement.antt =====
-- The rest of `reconcile_usage`: the rows that a settled call writes.
use maibot_lunagentic_resear.Prelude.{
  if◌then◌else◌, text_or, Result, ok, ◌>>=◌, Bool, true, false, ◌&&◌, Option, none, some,
}
use maibot_lunagentic_resear.Json.{
  Json, number, JsonFields, end_fields, field, merge_fields, optional_text, optional_number,
  metadata_json,
}
use maibot_lunagentic_resear.Credits.Scaled.{FloatArithmetic}
use maibot_lunagentic_resear.Text.{with_suffix}
use maibot_lunagentic_resear.Credits.Usage.{UsageArg, no_usage, nonnegative, is_research_role}
use maibot_lunagentic_resear.Credits.Usage.Reservation.{ReservationResult}
use maibot_lunagentic_resear.Credits.Usage.Reconciliation.{
  ReconcileArgs, ReconciliationResult, Call, call_of, Settled, settle_usage,
}

abbrev pub is_reported : UsageArg → Bool
is_reported no_usage = false
is_reported _ = true

-- The audit fields of a reconciliation, before the caller's own.
abbrev pub reconciliation_metadata : ReconcileArgs → Call → Settled → JsonFields
reconciliation_metadata args call settled =
    field "estimated_model_name" (optional_text call.estimated_model_name) (
      field "actual_model_name" (optional_text args.actual_model_name) (
        field "price_source" (Json.text settled.price_source) (
          field "price_fingerprint" (Json.text settled.price_fingerprint) (
            field "reconciliation_status" (Json.text settled.status) (
              field "estimated_charge" (number call.estimated) (
                field "actual_charge" (optional_number settled.actual)
                  (field "adjustment" (number settled.adjustment) end_fields)))))))

module _ (float : FloatArithmetic) where
  unfoldable pub settle_call : ReconcileArgs → Call → Result ReconciliationResult
  settle_call args call = do
    duration ← nonnegative call.duration_ms
    let usage_key = text_or call.usage_id args.fresh_usage_id
    settled ← settle_usage float args call
    metadata ←
        metadata_json (merge_fields (reconciliation_metadata args call settled) args.metadata)
    ok (record {
      usage = record {
        usage_id = with_suffix usage_key "reconciled";
        task_id = call.task_id;
        round_id = call.round_id;
        branch_id = call.branch_id;
        call_id = text_or call.call_id usage_key;
        role = call.role;
        selector = call.selector;
        estimated_model_name = call.estimated_model_name;
        actual_model_name = args.actual_model_name;
        price_source = settled.price_source;
        price_fingerprint = settled.price_fingerprint;
        prompt_tokens = settled.tokens.prompt;
        completion_tokens = settled.tokens.completion;
        cache_hit_tokens = settled.tokens.hit;
        cache_miss_tokens = settled.tokens.miss;
        estimated_charge = call.estimated;
        actual_charge = settled.actual;
        adjustment = some settled.adjustment;
        reconciliation_status = settled.status;
        duration_ms = duration;
        created_at = call.created_at;
      };
      ledger_entry =
          if is_reported args.usage && is_research_role call.role
          then some (record {
            ledger_id = args.fresh_ledger_id;
            task_id = call.task_id;
            round_id = call.round_id;
            branch_id = call.branch_id;
            call_id = some (text_or call.call_id usage_key);
            entry_kind = "input_reconciliation";
            amount = settled.adjustment;
            balance_after = args.balance_after;
            metadata = metadata;
            created_at = call.created_at;
          })
          else none;
      adjustment = settled.adjustment;
      charged = settled.charged;
    })

  unfoldable pub reconcile_usage :
      Option ReservationResult → ReconcileArgs → Result ReconciliationResult
  reconcile_usage reservation args = do call ← call_of reservation args; settle_call args call
