-- ===== src/Credits/Usage/Given.antt =====
-- A reconciliation for which the caller gives the charge.
use mathlib.Core.Path.{subst}
use maibot_lunagentic_resear.Prelude.{
  if◌then◌else◌, ℤ, pos, ◌-ℤ◌, ok, Ensures, returns, Ensures-bind, Ensures-any, String, ◌≡◌, refl,
  ap, ◌∙◌, Bool, true, ◌&&◌, Option, none, some,
}
use maibot_lunagentic_resear.Json.{merge_fields, metadata_json}
use maibot_lunagentic_resear.Commands.{ledger_total}
use maibot_lunagentic_resear.Pricing.{TokenUsage, ChargedUsage, normalize_actual_usage}
use maibot_lunagentic_resear.Credits.Scaled.{FloatArithmetic}
use maibot_lunagentic_resear.Credits.Usage.{
  UsageArg, no_usage, of_charged, of_tokens, of_mapping, no_tokens, nonnegative, token_fields,
  same_codes, is_role_of, is_summarizer_role, is_research_role,
}
use maibot_lunagentic_resear.Credits.Usage.Reconciliation.{
  ReconcileArgs, ReconciliationResult, reconciliation_commands, Call, call_of, Settled,
  billed_model, actual_charge_of, provenance, settle_reported, settle_usage,
}
use maibot_lunagentic_resear.Credits.Usage.Settlement.{
  is_reported, reconciliation_metadata, settle_call, reconcile_usage,
}
use maibot_lunagentic_resear.Credits.Usage.Balance.{Checks, nonnegative-Ensures, ledger_total-entry}

pub is_research_role-agent : is_research_role "agent" ≡ true
unfolding is_summarizer_role is_role_of same_codes
is_research_role-agent = refl

module _ (float : FloatArithmetic) where
  abbrev Gives : Call → ℤ → Settled → Type 0
  Gives call given settled = settled.adjustment ≡ call.estimated -ℤ given

  actual_charge_of-given :
      (args : ReconcileArgs) (model : String) (usage : TokenUsage) (given : ℤ)
      → args.actual_charge ≡ some given
      → Ensures
          (λ (spent : ℤ × Option ChargedUsage). spent.0 ≡ given)
          (actual_charge_of float args model usage)
  unfolding actual_charge_of
  actual_charge_of-given args model usage given at = rw at (
      Ensures-bind (Checks given) _ {m = nonnegative given} (nonnegative-Ensures given)
        λ checked same. returns same.0)

  settle_reported-Gives :
      (args : ReconcileArgs) (call : Call) (given : ℤ)
      → args.actual_charge ≡ some given
      → Ensures (Gives call given) (settle_reported float args call)
  unfolding settle_reported
  settle_reported-Gives args call given at =
      Ensures-bind _ _ {m = token_fields args.usage no_tokens} (Ensures-any _) λ tokens _.
        Ensures-bind _ _
          {m = normalize_actual_usage tokens.prompt tokens.completion tokens.hit tokens.miss}
          (Ensures-any _)
          λ normalized _.
            Ensures-bind (λ (spent : ℤ × Option ChargedUsage). spent.0 ≡ given) _
              {m = actual_charge_of float args
                (billed_model args.actual_model_name call.estimated_model_name) normalized}
              (actual_charge_of-given args _ normalized given at)
              λ spent same.
                Ensures-bind _ _ {m = provenance float args call spent.1} (Ensures-any _)
                  λ source _. returns (ap (λ (x : ℤ). call.estimated -ℤ x) same)

  settle_usage-Gives :
      (args : ReconcileArgs) (call : Call) (given : ℤ)
      → args.actual_charge ≡ some given
      → is_reported args.usage ≡ true
      → Ensures (Gives call given) (settle_usage float args call)
  unfolding settle_usage
  settle_usage-Gives args call given at reported = go args.usage reported
    where
      go :
          (usage : UsageArg)
          → is_reported usage ≡ true
          → Ensures (Gives call given) (elim usage [
            | no_usage ↦ ok (record {
              status = if args.success then "estimated" else "estimated_unreconciled";
              actual = none;
              adjustment = pos 0;
              tokens = call.reserved_tokens;
              charged = none;
              price_source = call.price_source;
              price_fingerprint = call.price_fingerprint;
            })
            | _ ↦ settle_reported float args call
          ])
      go no_usage e = cc
      go (of_charged c) e = settle_reported-Gives args call given at
      go (of_tokens u) e = settle_reported-Gives args call given at
      go (of_mapping u) e = settle_reported-Gives args call given at

  agent_books :
      (args : ReconcileArgs) (call : Call)
      → call.role ≡ "agent"
      → is_reported args.usage ≡ true
      → (is_reported args.usage && is_research_role call.role) ≡ true
  agent_books args call role reported = rw (reported, role) is_research_role-agent

  settle_call-Books :
      (args : ReconcileArgs) (call : Call) (given : ℤ)
      → call.role ≡ "agent"
      → args.actual_charge ≡ some given
      → is_reported args.usage ≡ true
      → Ensures
          (λ (result : ReconciliationResult).
            ledger_total (reconciliation_commands result) ≡ call.estimated -ℤ given)
          (settle_call float args call)
  unfolding settle_call ledger_total
  settle_call-Books args call given role at reported =
      Ensures-bind _ _ {m = nonnegative call.duration_ms} (Ensures-any _) λ duration _.
        Ensures-bind (Gives call given) _ {m = settle_usage float args call}
          (settle_usage-Gives args call given at reported)
          λ settled adjusts.
            Ensures-bind _ _
              {m = metadata_json
                (merge_fields (reconciliation_metadata args call settled) args.metadata)}
              (Ensures-any _)
              λ metadata _. returns (
                ledger_total-entry (is_reported args.usage && is_research_role call.role) _
                ∙ ap (λ (b : Bool). if b then settled.adjustment else pos 0)
                    (agent_books args call role reported)
                ∙ adjusts)

  call_of-agent :
      (args : ReconcileArgs) (estimate : ℤ)
      → args.estimated_charge ≡ some estimate
      → Ensures
          (λ (call : Call). (call.estimated ≡ estimate) × (call.role ≡ args.role))
          (call_of none args)
  unfolding call_of
  call_of-agent args estimate at = rw at (
      Ensures-bind (Checks estimate) _ {m = nonnegative estimate} (nonnegative-Ensures estimate)
        λ checked same. returns (same.0, refl))

  -- An agent's call that reports its usage, with estimate and charge given: the ledger books what the
  -- estimate exceeds the charge by.
  pub reconcile_usage-Books :
      (args : ReconcileArgs) (estimate given : ℤ)
      → args.role ≡ "agent"
      → args.estimated_charge ≡ some estimate
      → args.actual_charge ≡ some given
      → is_reported args.usage ≡ true
      → Ensures
          (λ (result : ReconciliationResult).
            ledger_total (reconciliation_commands result) ≡ estimate -ℤ given)
          (reconcile_usage float none args)
  unfolding reconcile_usage
  reconcile_usage-Books args estimate given role at_estimate at_charge reported =
      Ensures-bind (λ (call : Call). (call.estimated ≡ estimate) × (call.role ≡ args.role)) _
        {m = call_of none args} (call_of-agent args estimate at_estimate)
        λ call known.
          subst
            (λ (x : ℤ).
              Ensures
                (λ (result : ReconciliationResult).
                  ledger_total (reconciliation_commands result) ≡ x -ℤ given)
                (settle_call float args call))
            known.0 (settle_call-Books args call given (known.1 ∙ role) at_charge reported)
