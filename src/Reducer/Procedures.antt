-- ===== src/Reducer/Procedures.antt =====
-- `ProcedureBatchCompleted` (reducer.py): the rows of the batch and what it charges.
use maibot_lunagentic_resear.Prelude.{
  if◌then◌else◌, is_empty, text_or, or_default, ℤ, pos, ◌+ℤ◌, ◌-ℤ◌, ltb_ℤ, max_ℤ, Result, ok, ◌>>=◌,
  ℕ, suc, String, Bool, false, not, ◌&&◌, ◌||◌, Option, none, some, List, [], ◌∷◌, ◌++◌, ◌==◌,
}
use maibot_lunagentic_resear.Json.{Json, number, JsonFields, end_fields, field}
use maibot_lunagentic_resear.Commands.{StoreCommand, insert_procedure_call}
use maibot_lunagentic_resear.Credits.Usage.Procedure.{ProcedureChargeArgs, charge_procedure_usage}
use maibot_lunagentic_resear.Events.{RuntimeEvent}
use maibot_lunagentic_resear.Events.Branches.{ProcedureItem, ProcedureBatchCompleted}
use maibot_lunagentic_resear.Reducer.Calls.{IdSupply}

abbrev pub error_code_of : Option String → Option String
error_code_of none = none
error_code_of (some code) = some (text_or code "procedure_failed")

abbrev pub procedure_call_row :
    RuntimeEvent → ProcedureBatchCompleted → ProcedureItem → StoreCommand
procedure_call_row event batch result = insert_procedure_call (record {
  request_id = result.request_id;
  task_id = event.task_id;
  round_id = event.round_id;
  branch_id = batch.branch_id;
  turn_id = batch.call_id;
  agent_id = or_default result.agent_id "lrs.executor";
  procedure_id = result.procedure_id;
  provider_plugin_id = result.provider_plugin_id;
  succeeded = result.success;
  duration_ms = result.duration_ms;
  error_code = error_code_of result.error;
  provenance = field "api_name" (Json.text result.api_name) (
      field "api_version" (Json.text result.api_version)
        (field "attempts" (number result.attempts) end_fields));
  external_cost = result.external_cost;
  created_at = event.occurred_at;
})

unfoldable pub procedure_call_rows :
    RuntimeEvent → ProcedureBatchCompleted → List ProcedureItem → List StoreCommand
procedure_call_rows event batch [] = []
procedure_call_rows event batch (result ∷ results) =
    procedure_call_row event batch result ∷ procedure_call_rows event batch results

-- `extract_research_credits_charged` (procedures/billing.py)
unfoldable pub extract_research_credits_charged : ProcedureItem → ℤ
extract_research_credits_charged result =
    max_ℤ (pos 0) (or_default result.research_credits_charged (pos 0))

-- `charge_items`
unfoldable pub charge_items : List ProcedureItem → List (ProcedureItem × ℤ)
charge_items [] = []
charge_items (result ∷ results) =
    let charged = extract_research_credits_charged result in
    if ltb_ℤ (pos 0) charged then (result, charged) ∷ charge_items results else charge_items results

-- `sum(amount for _, amount in charge_items)`
unfoldable pub total_charged : List (ProcedureItem × ℤ) → ℤ
total_charged [] = pos 0
total_charged ((_, charged) ∷ results) = charged +ℤ total_charged results

abbrev pub request_call_field : String → JsonFields
request_call_field call_id =
    if is_empty call_id then end_fields else field "request_call_id" (Json.text call_id) end_fields

module _ (ids : IdSupply) (event : RuntimeEvent) (batch : ProcedureBatchCompleted) where
  abbrev pub charge_args : ℕ → ProcedureItem → ℤ → ℤ → ProcedureChargeArgs
  charge_args index result charged balance = record {
    charged = charged;
    task_id = event.task_id;
    round_id = event.round_id;
    branch_id = some batch.branch_id;
    call_id = batch.call_id;
    procedure_id = result.procedure_id;
    request_id = result.request_id;
    budget_hint = result.budget_hint;
    balance_after = some balance;
    metadata = field "procedure_id" (Json.text result.procedure_id) (
        field "call_id" (Json.text batch.call_id)
          (field "request_id" (Json.text result.request_id) (request_call_field result.call_id)));
    ledger_id = "";
    created_at = event.occurred_at;
    fresh_ledger_id = ids index;
  }

  -- The loop over the charged results, with the number of the next id and the running balance.
  unfoldable pub charge_commands : ℕ → ℤ → List (ProcedureItem × ℤ) → Result (List StoreCommand)
  charge_commands index balance [] = ok []
  charge_commands index balance ((result, charged) ∷ results) =
      charge_procedure_usage (charge_args index result charged (balance -ℤ charged)) >>= λ commands.
      (charge_commands (suc index) (balance -ℤ charged) results >>= λ rest. ok (commands ++ rest))

  -- All the commands of the batch.
  unfoldable pub batch_commands : Result (List StoreCommand)
  batch_commands =
      let charged = charge_items batch.results in
      charge_commands 0 (batch.credits_after +ℤ total_charged charged) charged >>= λ commands.
      ok (procedure_call_rows event batch batch.results ++ commands)

abbrev pub is_core_procedure : String → Bool
is_core_procedure id = (id == "core.compact" || id == "core.checkpoint") || id == "core.terminate"

-- `_has_non_control_procedure_results`
unfoldable pub has_non_control_procedure_results : List ProcedureItem → Bool
has_non_control_procedure_results [] = false
has_non_control_procedure_results (result ∷ results) =
    (not (is_empty result.procedure_id) && not (is_core_procedure result.procedure_id))
    || has_non_control_procedure_results results
