-- ===== src/Credits/Usage/Reconciliation.antt =====
-- `reconcile_usage`: the usage row of a finished call, and for a research role with a reported
-- usage the ledger entry that corrects the estimate.
use maibot_lunagentic_resear.Prelude.{
  nat_eq, if◌then◌else◌, is_empty, text_or, or_default, ℤ, pos, ◌-ℤ◌, value_error, Result, ok, err,
  ◌>>=◌, ℕ, String, Bool, not, Option, none, some, List, ◌∷◌,
}
use maibot_lunagentic_resear.Json.{JsonFields}
use maibot_lunagentic_resear.Models.{CreditLedgerEntry}
use maibot_lunagentic_resear.Commands.{LlmUsage, StoreCommand, insert_llm_usage}
use maibot_lunagentic_resear.Credits.Scaled.{FloatArithmetic}
use maibot_lunagentic_resear.Pricing.{
  TokenUsage, ChargedUsage, normalize_actual_usage, PriceCatalog, resolve_model, charge_actual,
}
use maibot_lunagentic_resear.Credits.Usage.{
  UsageArg, no_usage, Tokens, no_tokens, nonnegative, token_fields, source_name, ledger_commands,
}
use maibot_lunagentic_resear.Credits.Usage.Reservation.{ReservationResult, required}

pub record ReconcileArgs : Type 0 where
  pub catalog : Option PriceCatalog
  pub actual_model_name : Option String
  pub usage : UsageArg
  pub success : Bool
  pub estimated_charge : Option ℤ
  pub actual_charge : Option ℤ
  pub task_id : String
  pub round_id : String
  pub branch_id : Option String
  pub call_id : String
  pub role : String
  pub selector : String
  pub estimated_model_name : Option String
  pub price_source : String
  pub price_fingerprint : String
  pub usage_id : Option String
  pub balance_after : Option ℤ
  pub metadata : JsonFields
  pub duration_ms : Option ℤ
  pub created_at : ℕ
  -- what `_new_usage_id()` and `new_ledger_id()` return
  pub fresh_usage_id : String
  pub fresh_ledger_id : String

pub record ReconciliationResult : Type 0 where
  pub usage : LlmUsage
  pub ledger_entry : Option CreditLedgerEntry
  pub adjustment : ℤ
  pub charged : Option ChargedUsage

abbrev pub reconciliation_commands : ReconciliationResult → List StoreCommand
reconciliation_commands r = insert_llm_usage r.usage ∷ ledger_commands r.ledger_entry

-- `actual_credits`
abbrev pub actual_credits : ReconciliationResult → ℤ
actual_credits r = or_default r.usage.actual_charge r.usage.estimated_charge

-- The call that is settled: a reservation's fields replace the arguments.
pub record Call : Type 0 where
  pub estimated : ℤ
  pub task_id : String
  pub round_id : String
  pub branch_id : Option String
  pub call_id : String
  pub role : String
  pub selector : String
  pub estimated_model_name : Option String
  pub price_source : String
  pub price_fingerprint : String
  pub reserved_tokens : Tokens
  pub usage_id : String
  pub duration_ms : ℤ
  pub created_at : ℕ

abbrev pub reserved_call : ReservationResult → ReconcileArgs → Call
reserved_call reservation args = record {
  estimated = reservation.usage.estimated_charge;
  task_id = reservation.usage.task_id;
  round_id = reservation.usage.round_id;
  branch_id = reservation.usage.branch_id;
  call_id = reservation.usage.call_id;
  role = reservation.usage.role;
  selector = reservation.usage.selector;
  estimated_model_name = reservation.usage.estimated_model_name;
  price_source = reservation.usage.price_source;
  price_fingerprint = reservation.usage.price_fingerprint;
  reserved_tokens = record {
    prompt = reservation.usage.prompt_tokens;
    completion = reservation.usage.completion_tokens;
    hit = reservation.usage.cache_hit_tokens;
    miss = reservation.usage.cache_miss_tokens;
  };
  usage_id = or_default args.usage_id reservation.usage.usage_id;
  duration_ms = or_default args.duration_ms reservation.usage.duration_ms;
  created_at = if nat_eq args.created_at 0 then reservation.usage.created_at else args.created_at;
}

unfoldable pub call_of : Option ReservationResult → ReconcileArgs → Result Call
call_of (some reservation) args = ok (reserved_call reservation args)
call_of none args = do
  given ← required args.estimated_charge
  estimated ← nonnegative given
  ok (record {
    estimated = estimated;
    task_id = args.task_id;
    round_id = args.round_id;
    branch_id = args.branch_id;
    call_id = args.call_id;
    role = args.role;
    selector = args.selector;
    estimated_model_name = args.estimated_model_name;
    price_source = args.price_source;
    price_fingerprint = args.price_fingerprint;
    reserved_tokens = no_tokens;
    usage_id = or_default args.usage_id "";
    duration_ms = or_default args.duration_ms (pos 0);
    created_at = args.created_at;
  })

-- What the usage settles.
pub record Settled : Type 0 where
  pub status : String
  pub actual : Option ℤ
  pub adjustment : ℤ
  pub tokens : Tokens
  pub charged : Option ChargedUsage
  pub price_source : String
  pub price_fingerprint : String

-- `actual_model_name or estimated_model_name or ""`
abbrev pub billed_model : Option String → Option String → String
billed_model actual_name estimated_name =
    text_or (or_default actual_name "") (or_default estimated_name "")

module _ (float : FloatArithmetic) where
  -- `charged` and `actual`: a given charge counts before the catalog's.
  unfoldable pub actual_charge_of :
      ReconcileArgs → String → TokenUsage → Result (ℤ × Option ChargedUsage)
  actual_charge_of args model usage = elim args.actual_charge [
    | some given ↦ (nonnegative given >>= λ actual. ok (actual, none))
    | none ↦ elim args.catalog [
      | none ↦ err value_error
      | some catalog ↦
          (charge_actual float catalog model usage.prompt_tokens usage.completion_tokens
              usage.cache_hit_tokens usage.cache_miss_tokens
            >>= λ charged. ok (charged.credits, some charged))
    ]
  ]

  -- The price source and fingerprint of the snapshot that was billed.
  unfoldable pub provenance : ReconcileArgs → Call → Option ChargedUsage → Result (String × String)
  provenance args call charged = elim args.catalog [
    | none ↦ ok (call.price_source, call.price_fingerprint)
    | some catalog ↦
        (resolve_model catalog (billed_model args.actual_model_name call.estimated_model_name)
            (not (is_empty (or_default args.actual_model_name "")))
          >>= λ resolved. ok (
            (elim charged [
              | none ↦ source_name resolved.source
              | some c ↦ source_name c.price.source
            ]),
            catalog.fingerprint,
          ))
  ]

  unfoldable pub settle_reported : ReconcileArgs → Call → Result Settled
  settle_reported args call = do
    tokens ← token_fields args.usage no_tokens
    normalized ← normalize_actual_usage tokens.prompt tokens.completion tokens.hit tokens.miss
    (actual, charged) ←
        actual_charge_of args (billed_model args.actual_model_name call.estimated_model_name)
          normalized
    (source, fingerprint) ← provenance args call charged
    ok (record {
      status = if is_empty (or_default args.actual_model_name "") then "estimated" else "actual";
      actual = some actual;
      adjustment = call.estimated -ℤ actual;
      tokens = tokens;
      charged = charged;
      price_source = source;
      price_fingerprint = fingerprint;
    })

  unfoldable pub settle_usage : ReconcileArgs → Call → Result Settled
  settle_usage args call = elim args.usage [
    | no_usage ↦ ok (record {
      status = if args.success then "estimated" else "estimated_unreconciled";
      actual = none;
      adjustment = pos 0;
      tokens = call.reserved_tokens;
      charged = none;
      price_source = call.price_source;
      price_fingerprint = call.price_fingerprint;
    })
    | _ ↦ settle_reported args call
  ]
