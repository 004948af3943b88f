-- ===== src/Credits/Usage/Reservation.antt =====
-- `reserve_input`: the usage row of a call before it is made, and for a research role the ledger
-- entry that takes the estimate off the branch. Ids that the code would draw are arguments.
use maibot_lunagentic_resear.Prelude.{
  if◌then◌else◌, is_empty, text_or, ℤ, pos, ◌-ℤ◌, value_error, Result, ok, err, ◌>>=◌, ◌>>◌,
  raise_if, ℕ, String, ◌||◌, Option, none, some, List, ◌∷◌, ◌==◌,
}
use maibot_lunagentic_resear.Json.{
  Json, null, JsonFields, end_fields, field, merge_fields, optional_text, metadata_json,
}
use maibot_lunagentic_resear.Models.{CreditLedgerEntry}
use maibot_lunagentic_resear.Commands.{LlmUsage, StoreCommand, insert_llm_usage}
use maibot_lunagentic_resear.Pricing.{ChargedUsage, PriceCatalog, charge}
use maibot_lunagentic_resear.Credits.Usage.{
  UsageArg, of_charged, Tokens, nonnegative, token_fields, is_research_role, source_name,
  ledger_commands,
}

pub data ChargeArg : Type 0 where
  unset : ChargeArg
  amount : ℤ → ChargeArg
  from_charged : ChargedUsage → ChargeArg

pub record ReserveArgs : Type 0 where
  pub estimated_charge : ChargeArg
  pub task_id : String
  pub round_id : String
  pub branch_id : Option String
  pub call_id : String
  pub usage_id : String
  pub ledger_id : String
  pub role : String
  pub selector : String
  pub estimated_model_name : Option String
  pub price_source : String
  pub price_fingerprint : String
  pub estimated_usage : UsageArg
  pub catalog : Option PriceCatalog
  pub tokens : Tokens
  pub balance_after : Option ℤ
  pub metadata : JsonFields
  pub duration_ms : ℤ
  pub created_at : ℕ
  -- what `_new_usage_id()` and `new_ledger_id()` return
  pub fresh_usage_id : String
  pub fresh_ledger_id : String

-- The fields of the result besides those of the usage row repeat the row's.
pub record ReservationResult : Type 0 where
  pub usage : LlmUsage
  pub ledger_entry : Option CreditLedgerEntry

abbrev pub reservation_commands : ReservationResult → List StoreCommand
reservation_commands r = insert_llm_usage r.usage ∷ ledger_commands r.ledger_entry

-- `charged_estimate`
abbrev pub charged_estimate : ChargeArg → UsageArg → Option ChargedUsage
charged_estimate charge (of_charged usage) = some usage
charged_estimate (from_charged charged) _ = some charged
charged_estimate _ _ = none

abbrev pub estimate_value : ChargeArg → UsageArg → Option ℤ
estimate_value (amount value) usage = some value
estimate_value (from_charged charged) usage = some charged.credits
estimate_value unset (of_charged charged) = some charged.credits
estimate_value unset _ = none

abbrev pub required : Option ℤ → Result ℤ
required none = err value_error
required (some value) = ok value

abbrev pub reserved_model : Option String → Option ChargedUsage → Option String
reserved_model none (some charged) = some charged.price.model_name
reserved_model name _ = name

abbrev pub reserved_source : String → Option ChargedUsage → String
reserved_source source none = source
reserved_source source (some charged) =
    if is_empty source || source == "host_config" then source_name charged.price.source else source

abbrev pub reserved_fingerprint : String → Option PriceCatalog → String
reserved_fingerprint fingerprint none = fingerprint
reserved_fingerprint fingerprint (some catalog) =
    if is_empty fingerprint then catalog.fingerprint else fingerprint

unfoldable pub reservation_metadata : Option String → String → String → JsonFields → JsonFields
reservation_metadata model source fingerprint metadata =
    merge_fields
      (field "estimated_model_name" (optional_text model) (
        field "actual_model_name" null (
          field "price_source" (Json.text source) (
            field "price_fingerprint" (Json.text fingerprint)
              (field "reconciliation_status" (Json.text "reserved") end_fields)))))
      metadata

unfoldable pub reserve_input : ReserveArgs → Result ReservationResult
reserve_input args = do
  let charged = charged_estimate args.estimated_charge args.estimated_usage
  given ← required (estimate_value args.estimated_charge args.estimated_usage)
  estimate ← nonnegative given
  tokens ← token_fields args.estimated_usage args.tokens
  let model = reserved_model args.estimated_model_name charged
  let source = reserved_source args.price_source charged
  let fingerprint = reserved_fingerprint args.price_fingerprint args.catalog
  raise_if (is_empty args.role) value_error
  duration ← nonnegative args.duration_ms
  let usage_key = text_or args.usage_id args.fresh_usage_id
  let call_key = text_or args.call_id usage_key
  metadata ← metadata_json (reservation_metadata model source fingerprint args.metadata)
  ok (record {
    usage = record {
      usage_id = usage_key;
      task_id = args.task_id;
      round_id = args.round_id;
      branch_id = args.branch_id;
      call_id = call_key;
      role = args.role;
      selector = args.selector;
      estimated_model_name = model;
      actual_model_name = none;
      price_source = source;
      price_fingerprint = fingerprint;
      prompt_tokens = tokens.prompt;
      completion_tokens = tokens.completion;
      cache_hit_tokens = tokens.hit;
      cache_miss_tokens = tokens.miss;
      estimated_charge = estimate;
      actual_charge = none;
      adjustment = none;
      reconciliation_status = "reserved";
      duration_ms = duration;
      created_at = args.created_at;
    };
    ledger_entry =
        if is_research_role args.role
        then some (record {
          ledger_id = text_or args.ledger_id args.fresh_ledger_id;
          task_id = args.task_id;
          round_id = args.round_id;
          branch_id = args.branch_id;
          call_id = some call_key;
          entry_kind = "input_reservation";
          amount = pos 0 -ℤ estimate;
          balance_after = args.balance_after;
          metadata = metadata;
          created_at = args.created_at;
        })
        else none;
  })
