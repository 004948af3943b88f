-- ===== src/Credits/Usage/Balance.antt =====
-- What the ledger books for a call, from its reservation to its reconciliation.
use maibot_lunagentic_resear.Prelude.{
  if◌then◌else◌, is_empty, or_default, ℤ, pos, ◌+ℤ◌, ◌-ℤ◌, ◌≤ℤ◌, int_laws, value_error, ok,
  raise_if, Ensures, returns, raises, Ensures-bind, Ensures-any, Ensures-ok, Ensures-of_ok, String,
  ◌≡◌, refl, sym, ap, ◌∙◌, Bool, true, false, ◌&&◌, Option, none, some, List, [], ◌∷◌, ◌++◌, arith,
}
use maibot_lunagentic_resear.Json.{merge_fields, metadata_json}
use maibot_lunagentic_resear.Models.{CreditLedgerEntry}
use maibot_lunagentic_resear.Commands.{StoreCommand, ledger_total}
use maibot_lunagentic_resear.Pricing.{normalize_actual_usage}
use maibot_lunagentic_resear.Credits.Scaled.{FloatArithmetic}
use maibot_lunagentic_resear.Credits.Usage.{
  UsageArg, no_usage, of_charged, of_tokens, of_mapping, no_tokens, nonnegative, token_fields,
  is_research_role, ledger_commands,
}
use maibot_lunagentic_resear.Credits.Usage.Reservation.{
  ReserveArgs, ReservationResult, reservation_commands, charged_estimate, estimate_value, required,
  reserved_model, reserved_source, reserved_fingerprint, reservation_metadata, reserve_input,
}
use maibot_lunagentic_resear.Credits.Usage.Reconciliation.{
  ReconcileArgs, ReconciliationResult, reconciliation_commands, actual_credits, Call, reserved_call,
  call_of, Settled, billed_model, actual_charge_of, provenance, settle_reported, settle_usage,
}
use maibot_lunagentic_resear.Credits.Usage.Settlement.{
  is_reported, reconciliation_metadata, settle_call, reconcile_usage,
}

pub ledger_total-append :
    (xs ys : List StoreCommand) → ledger_total (xs ++ ys) ≡ ledger_total xs +ℤ ledger_total ys
unfolding ledger_total
ledger_total-append [] ys = omega int_laws
ledger_total-append (x ∷ xs) ys = grind (int_laws, ledger_total-append xs ys)

-- The checked value is the given one, and not negative.
abbrev pub Checks : ℤ → ℤ → Type 0
Checks value checked = (checked ≡ value) × (pos 0 ≤ℤ checked)

pub nonnegative-Ensures : (value : ℤ) → Ensures (Checks value) (nonnegative value)
nonnegative-Ensures value =
    Ensures-of_ok (Checks value) (nonnegative value) (λ a h. (ground arith, ground arith))

required-Ensures : (given : Option ℤ) → Ensures (λ value. given ≡ some value) (required given)
required-Ensures none = raises
required-Ensures (some value) = returns refl

pub ledger_total-entry :
    (books : Bool) (entry : CreditLedgerEntry)
    → pos 0 +ℤ ledger_total (ledger_commands (if books then some entry else none))
      ≡ (if books then entry.amount else pos 0)
unfolding ledger_total
ledger_total-entry true entry = omega int_laws
ledger_total-entry false entry = omega int_laws

-- A reservation keeps the role and the estimate, which it takes off for a research role, only.
abbrev pub Reserves : ReserveArgs → ReservationResult → Type 0
Reserves args r =
    (r.usage.role ≡ args.role)
    × (estimate_value args.estimated_charge args.estimated_usage ≡ some r.usage.estimated_charge)
    × (pos 0 ≤ℤ r.usage.estimated_charge)
    × (ledger_total (reservation_commands r)
        ≡ (if is_research_role args.role then pos 0 -ℤ r.usage.estimated_charge else pos 0))

pub reserve_input-Ensures : (args : ReserveArgs) → Ensures (Reserves args) (reserve_input args)
unfolding reserve_input ledger_total
reserve_input-Ensures args =
    let charged = charged_estimate args.estimated_charge args.estimated_usage in
    let metadata =
      reservation_metadata (reserved_model args.estimated_model_name charged)
        (reserved_source args.price_source charged)
        (reserved_fingerprint args.price_fingerprint args.catalog) args.metadata in
    Ensures-bind _ (Reserves args)
      {m = required (estimate_value args.estimated_charge args.estimated_usage)}
      (required-Ensures (estimate_value args.estimated_charge args.estimated_usage))
      λ given at.
        Ensures-bind (Checks given) (Reserves args) {m = nonnegative given}
          (nonnegative-Ensures given)
          λ estimate p.
            Ensures-bind _ (Reserves args) {m = token_fields args.estimated_usage args.tokens}
              (Ensures-any _)
              λ tokens _.
                Ensures-bind _ (Reserves args) {m = raise_if (is_empty args.role) value_error}
                  (Ensures-any _)
                  λ _ _.
                    Ensures-bind _ (Reserves args) {m = nonnegative args.duration_ms}
                      (Ensures-any _)
                      λ duration _.
                        Ensures-bind _ (Reserves args) {m = metadata_json metadata} (Ensures-any _)
                          λ written _. returns (
                            refl,
                            at ∙ ap some (sym p.0),
                            p.1,
                            ledger_total-entry (is_research_role args.role) _,
                          )

module _ (float : FloatArithmetic) where
  -- The adjustment is the estimate less what is counted as spent, and zero without a usage.
  abbrev Adjusts : ReconcileArgs → Call → Settled → Type 0
  Adjusts args call settled =
      (settled.adjustment ≡ call.estimated -ℤ or_default settled.actual call.estimated)
      × (is_reported args.usage ≡ false → settled.adjustment ≡ pos 0)

  settle_reported-Ensures :
      (args : ReconcileArgs) (call : Call)
      → is_reported args.usage ≡ true
      → Ensures (Adjusts args call) (settle_reported float args call)
  unfolding settle_reported
  settle_reported-Ensures args call reported =
      Ensures-bind _ (Adjusts args call) {m = token_fields args.usage no_tokens} (Ensures-any _)
        λ tokens _.
          Ensures-bind _ (Adjusts args call)
            {m = normalize_actual_usage tokens.prompt tokens.completion tokens.hit tokens.miss}
            (Ensures-any _)
            λ normalized _.
              Ensures-bind _ (Adjusts args call)
                {m = actual_charge_of float args
                  (billed_model args.actual_model_name call.estimated_model_name) normalized}
                (Ensures-any _)
                λ spent _.
                  Ensures-bind _ (Adjusts args call) {m = provenance float args call spent.1}
                    (Ensures-any _) λ source _. returns (refl, λ h. cc)

  settle_usage-Ensures :
      (args : ReconcileArgs) (call : Call)
      → Ensures (Adjusts args call) (settle_usage float args call)
  unfolding settle_usage
  settle_usage-Ensures args call = go args.usage refl
    where
      go :
          (usage : UsageArg)
          → args.usage ≡ usage
          → Ensures (Adjusts args call) (elim usage [
            | no_usage ↦ ok (record {
              status = if args.success then "estimated" else "estimated_unreconciled";
              actual = none;
              adjustment = pos 0;
              tokens = call.reserved_tokens;
              charged = none;
              price_source = call.price_source;
              price_fingerprint = call.price_fingerprint;
            })
            | _ ↦ settle_reported float args call
          ])
      go no_usage e = returns (omega int_laws, λ h. refl)
      go (of_charged c) e = settle_reported-Ensures args call (ap is_reported e)
      go (of_tokens u) e = settle_reported-Ensures args call (ap is_reported e)
      go (of_mapping u) e = settle_reported-Ensures args call (ap is_reported e)

  -- A reconciliation keeps role and estimate, and for a research role books what the estimate
  -- exceeds the spent credits by.
  abbrev pub Settles : Call → ReconciliationResult → Type 0
  Settles call result =
      (result.usage.estimated_charge ≡ call.estimated)
      × (ledger_total (reconciliation_commands result)
          ≡ (if is_research_role call.role then call.estimated -ℤ actual_credits result else pos 0))

  settle_call-Ensures :
      (args : ReconcileArgs) (call : Call) → Ensures (Settles call) (settle_call float args call)
  unfolding settle_call ledger_total
  settle_call-Ensures args call =
      Ensures-bind _ (Settles call) {m = nonnegative call.duration_ms} (Ensures-any _) λ duration _.
        Ensures-bind (Adjusts args call) (Settles call) {m = settle_usage float args call}
          (settle_usage-Ensures args call)
          λ settled adjusted.
            Ensures-bind _ (Settles call)
              {m = metadata_json
                (merge_fields (reconciliation_metadata args call settled) args.metadata)}
              (Ensures-any _)
              λ metadata _. returns (
                refl,
                ledger_total-entry (is_reported args.usage && is_research_role call.role) _
                    ∙ books (is_reported args.usage) (is_research_role call.role) _ _ adjusted.0
                        adjusted.1,
              )
    where
      books :
          (reported research : Bool) (adjustment difference : ℤ)
          → adjustment ≡ difference
          → (reported ≡ false → adjustment ≡ pos 0)
          → (if reported && research then adjustment else pos 0)
            ≡ (if research then difference else pos 0)
      books true true a d e z = e
      books true false a d e z = refl
      books false true a d e z = sym (z refl) ∙ e
      books false false a d e z = refl

  -- From its reservation to its reconciliation a call books, for a research role, what it spent, or
  -- its estimate where no usage was reported; a summarizer's call books nothing.
  pub reserve_input-reconcile_usage :
      (args : ReserveArgs) (settle : ReconcileArgs) {reservation : ReservationResult}
      {result : ReconciliationResult}
      → reserve_input args ≡ ok reservation
      → reconcile_usage float (some reservation) settle ≡ ok result
      → ledger_total (reservation_commands reservation ++ reconciliation_commands result)
        ≡ (if is_research_role args.role then pos 0 -ℤ actual_credits result else pos 0)
  unfolding reconcile_usage call_of
  reserve_input-reconcile_usage args settle {reservation} {result} r h =
      let call : Call = reserved_call reservation settle in
      let (role, _, _, reserved) = Ensures-ok (Reserves args) (reserve_input-Ensures args) r in
      let (_, settled) = Ensures-ok (Settles call) (settle_call-Ensures settle call) h in
      rw (ledger_total-append (reservation_commands reservation) (reconciliation_commands result)) (
        sum (is_research_role args.role) _ _ reserved (
          settled
          ∙ ap
              (λ (role : String).
                if is_research_role role
                then reservation.usage.estimated_charge -ℤ actual_credits result
                else pos 0)
              role))
    where
      sum :
          (research : Bool) (estimate spent : ℤ) {x y : ℤ}
          → x ≡ (if research then pos 0 -ℤ estimate else pos 0)
          → y ≡ (if research then estimate -ℤ spent else pos 0)
          → x +ℤ y ≡ (if research then pos 0 -ℤ spent else pos 0)
      sum true estimate spent e d = rw (e, d) (omega int_laws)
      sum false estimate spent e d = rw (e, d) (omega int_laws)
