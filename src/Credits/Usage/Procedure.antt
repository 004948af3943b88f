-- ===== src/Credits/Usage/Procedure.antt =====
-- `charge_procedure_usage`: the ledger entry of a procedure batch, none for a charge of zero.
use maibot_lunagentic_resear.Prelude.{
  if◌then◌else◌, is_empty, text_or, ℤ, pos, ◌-ℤ◌, eqb_ℤ, Result, ok, ◌>>=◌, ℕ, String, Option, none,
  some, List, [], ◌∷◌,
}
use maibot_lunagentic_resear.Json.{
  Json, number, JsonFields, end_fields, field, put_field, merge_fields, metadata_json,
}
use maibot_lunagentic_resear.Models.{CreditLedgerEntry}
use maibot_lunagentic_resear.Commands.{StoreCommand, insert_credit_ledger}
use maibot_lunagentic_resear.Credits.Usage.{nonnegative}

pub record ProcedureChargeArgs : Type 0 where
  pub charged : ℤ
  pub task_id : String
  pub round_id : String
  pub branch_id : Option String
  pub call_id : String
  pub procedure_id : String
  pub request_id : String
  pub budget_hint : Option ℤ
  pub balance_after : Option ℤ
  pub metadata : JsonFields
  pub ledger_id : String
  pub created_at : ℕ
  -- what `new_ledger_id()` returns
  pub fresh_ledger_id : String

-- `budget_hint`, checked, behind the other metadata
abbrev pub with_budget_hint : JsonFields → Option ℤ → Result JsonFields
with_budget_hint metadata none = ok metadata
with_budget_hint metadata (some hint) =
    nonnegative hint >>= λ checked. ok (put_field "budget_hint" (number checked) metadata)

-- `call_id or None`
abbrev pub text_or_none : String → Option String
text_or_none s = if is_empty s then none else some s

unfoldable pub procedure_entry : ProcedureChargeArgs → ℤ → Result CreditLedgerEntry
procedure_entry args charged = do
  hinted ←
      with_budget_hint
        (field "procedure_id" (Json.text args.procedure_id) (
          field "call_id" (Json.text args.call_id) (
            field "request_id" (Json.text args.request_id)
              (field "charged" (number charged) end_fields))))
        args.budget_hint
  metadata ← metadata_json (merge_fields hinted args.metadata)
  ok (record {
    ledger_id = text_or args.ledger_id args.fresh_ledger_id;
    task_id = args.task_id;
    round_id = args.round_id;
    branch_id = args.branch_id;
    call_id = text_or_none args.call_id;
    entry_kind = "procedure_charge";
    amount = pos 0 -ℤ charged;
    balance_after = args.balance_after;
    metadata = metadata;
    created_at = args.created_at;
  })

-- The commands of the result.
unfoldable pub charge_procedure_usage : ProcedureChargeArgs → Result (List StoreCommand)
charge_procedure_usage args = do
  charged ← nonnegative args.charged
  let entry = procedure_entry args charged
  if eqb_ℤ charged (pos 0) then ok [] else (entry >>= λ e. ok (insert_credit_ledger e ∷ []))
