-- ===== src/Reducer/Ledger.antt =====
-- What a procedure batch books in the credit ledger.
use maibot_lunagentic_resear.Prelude.{
  if◌then◌else◌, Bool-cases, or_default, ℤ, pos, negsuc, ◌+ℤ◌, ◌-ℤ◌, ltb_ℤ, eqb_ℤ, max_ℤ, int_laws,
  zero_add, ok, Ensures, returns, Ensures-bind, Ensures-any, Ensures-ok, Ensures-of_ok, ℕ, zero,
  suc, ◌≡◌, refl, sym, ap, ◌∙◌, inl, inr, Option, none, some, List, [], ◌∷◌, arith,
}
use maibot_lunagentic_resear.Json.{merge_fields, metadata_json}
use maibot_lunagentic_resear.Models.{CreditLedgerEntry}
use maibot_lunagentic_resear.Commands.{StoreCommand, ledger_total}
use maibot_lunagentic_resear.Credits.Usage.{nonnegative}
use maibot_lunagentic_resear.Credits.Usage.Procedure.{
  ProcedureChargeArgs, with_budget_hint, procedure_entry, charge_procedure_usage,
}
use maibot_lunagentic_resear.Credits.Usage.Balance.{ledger_total-append}
use maibot_lunagentic_resear.Events.{RuntimeEvent}
use maibot_lunagentic_resear.Events.Branches.{ProcedureItem, ProcedureBatchCompleted}
use maibot_lunagentic_resear.Reducer.Calls.{IdSupply}
use maibot_lunagentic_resear.Reducer.Procedures.{
  procedure_call_rows, extract_research_credits_charged, charge_items, total_charged, charge_args,
  charge_commands, batch_commands,
}

abbrev Books : ℤ → List StoreCommand → Type 0
Books booked commands = ledger_total commands ≡ booked

procedure_entry-amount :
    (args : ProcedureChargeArgs) (charged : ℤ)
    → Ensures
        (λ (entry : CreditLedgerEntry). entry.amount ≡ pos 0 -ℤ charged)
        (procedure_entry args charged)
unfolding procedure_entry
procedure_entry-amount args charged =
    Ensures-bind _ _ {m = with_budget_hint _ args.budget_hint} (Ensures-any _) λ hinted _.
      Ensures-bind _ _ {m = metadata_json (merge_fields hinted args.metadata)} (Ensures-any _)
        λ metadata _. returns refl

charge_procedure_usage-Books :
    (args : ProcedureChargeArgs)
    → Ensures (Books (pos 0 -ℤ args.charged)) (charge_procedure_usage args)
unfolding charge_procedure_usage ledger_total
charge_procedure_usage-Books args =
    Ensures-bind (λ charged. charged ≡ args.charged) _ {m = nonnegative args.charged}
      (Ensures-of_ok _ _ λ a h. ground arith)
      λ charged same. elim (Bool-cases (eqb_ℤ charged (pos 0))) [
        | inl free ↦ rw free (returns (grind int_laws))
        | inr paid ↦ rw paid (
            Ensures-bind _ _ {m = procedure_entry args charged}
              (procedure_entry-amount args charged) λ entry e. returns (grind int_laws))
      ]

module _ (ids : IdSupply) (event : RuntimeEvent) (batch : ProcedureBatchCompleted) where
  charge_commands-Books :
      (index : ℕ) (balance : ℤ) (results : List (ProcedureItem × ℤ))
      → Ensures
          (Books (pos 0 -ℤ total_charged results))
          (charge_commands ids event batch index balance results)
  unfolding charge_commands total_charged ledger_total
  charge_commands-Books index balance [] = returns (omega int_laws)
  charge_commands-Books index balance ((result, charged) ∷ results) =
      Ensures-bind (Books (pos 0 -ℤ charged)) _
        {m = charge_procedure_usage
          (charge_args ids event batch index result charged (balance -ℤ charged))}
        (charge_procedure_usage-Books
          (charge_args ids event batch index result charged (balance -ℤ charged)))
        λ commands booked.
          Ensures-bind (Books (pos 0 -ℤ total_charged results)) _
            {m = charge_commands ids event batch (suc index) (balance -ℤ charged) results}
            (charge_commands-Books (suc index) (balance -ℤ charged) results)
            λ rest later.
              returns (rw (ledger_total-append commands rest, booked, later) (grind int_laws))

  ledger_total-rows :
      (results : List ProcedureItem)
      → ledger_total (procedure_call_rows event batch results) ≡ pos 0
  unfolding ledger_total procedure_call_rows
  ledger_total-rows [] = refl
  ledger_total-rows (result ∷ results) = rw (ledger_total-rows results) (omega int_laws)

  charged_commands-Books :
      {commands : List StoreCommand}
      → batch_commands ids event batch ≡ ok commands
      → ledger_total commands ≡ pos 0 -ℤ total_charged (charge_items batch.results)
  unfolding batch_commands
  charged_commands-Books h =
      Ensures-ok (Books (pos 0 -ℤ total_charged (charge_items batch.results)))
        (Ensures-bind (Books (pos 0 -ℤ total_charged (charge_items batch.results))) _
          {m = charge_commands ids event batch 0
            (batch.credits_after +ℤ total_charged (charge_items batch.results))
            (charge_items batch.results)}
          (charge_commands-Books 0 _ (charge_items batch.results))
          λ commands booked. returns (
            rw
              (
                ledger_total-append (procedure_call_rows event batch batch.results) commands,
                ledger_total-rows batch.results,
                booked,
              )
              (grind int_laws)))
        h

-- What a result says that it costs, where that is more than nothing.
abbrev pub stated_cost : Option ℤ → ℤ
stated_cost none = pos 0
stated_cost (some (pos n)) = pos n
stated_cost (some (negsuc n)) = pos 0

-- The sum over all results of a batch.
unfoldable pub stated_total : List ProcedureItem → ℤ
stated_total [] = pos 0
stated_total (result ∷ results) =
    stated_cost result.research_credits_charged +ℤ stated_total results

cost_charged :
    (cost : Option ℤ) (result : ProcedureItem) (rest : List (ProcedureItem × ℤ))
    → let charged = max_ℤ (pos 0) (or_default cost (pos 0)) in
      total_charged (if ltb_ℤ (pos 0) charged then (result, charged) ∷ rest else rest)
      ≡ stated_cost cost +ℤ total_charged rest
unfolding total_charged
cost_charged none result rest = sym (zero_add (total_charged rest))
cost_charged (some (negsuc n)) result rest = ground (arith, zero_add (total_charged rest))
cost_charged (some (pos zero)) result rest = sym (zero_add (total_charged rest))
cost_charged (some (pos (suc n))) result rest = ground arith

total_charged-charge_items :
    (results : List ProcedureItem) → total_charged (charge_items results) ≡ stated_total results
unfolding charge_items extract_research_credits_charged total_charged stated_total
total_charged-charge_items [] = refl
total_charged-charge_items (result ∷ results) =
    cost_charged result.research_credits_charged result (charge_items results)
    ∙ ap (λ (rest : ℤ). stated_cost result.research_credits_charged +ℤ rest)
        (total_charged-charge_items results)

-- The commands of a procedure batch, where building them raises nothing, take from the ledger the sum of
-- what all its results say that they cost, where a cost below zero, or none, counts as nothing.
pub batch_commands-ledger_total :
    (ids : IdSupply) (event : RuntimeEvent) (batch : ProcedureBatchCompleted)
    {commands : List StoreCommand}
    → batch_commands ids event batch ≡ ok commands
    → ledger_total commands ≡ pos 0 -ℤ stated_total batch.results
batch_commands-ledger_total ids event batch h =
    charged_commands-Books ids event batch h
    ∙ ap (λ (sum : ℤ). pos 0 -ℤ sum) (total_charged-charge_items batch.results)
