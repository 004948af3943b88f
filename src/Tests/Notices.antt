-- ===== src/Tests/Notices.antt =====
-- A report that is queued, claimed and delivered.
use maibot_lunagentic_resear.Prelude.{
  length, ◌+◌, ◌≤◌, String, ◌≡◌, refl, inl, true, false, none, some, [], ◌∷◌, ◌++◌, arith,
}
use maibot_lunagentic_resear.Dict.{lookup, contains, insert}
use maibot_lunagentic_resear.Outbox.{
  append_report, pending, in_flight, OutboxRow, OutboxTable, has_key, insert_or_ignore, update_row,
  complete_outbox_append, due_rows, insert_in_order, in_order, limited, lease_rows, leased_rows,
  claim_due_outbox,
}
use maibot_lunagentic_resear.Outbox.Delivery.{
  Claim, with_trigger_suffix, trigger_row, accepts, deliver_row, deliver_claim, claims_of,
}
use maibot_lunagentic_resear.Outbox.Phases.{append_done, phase}
use maibot_lunagentic_resear.Outbox.Steps.{OutboxState}
use maibot_lunagentic_resear.Outbox.Leases.{claim_due_outbox-exclusive}
use maibot_lunagentic_resear.Outbox.Progress.{claim_due_outbox-claims}

abbrev report_row : OutboxRow
report_row = record {
  task_id = "t1";
  round_id = "r1";
  report_id = some "rep1";
  delivery_kind = append_report;
  idempotency_key = "lrs:t1:r1:rep1:append";
  payload = "{}";
  status = pending;
  attempt_count = 0;
  next_attempt_at = 10;
  last_error = none;
  created_at = 10;
  delivered_at = none;
}

abbrev no_payload : OutboxRow → String
no_payload row = "{}"

abbrev closed_outbox : OutboxState
closed_outbox = record { table = []; claims = [] }

abbrev queued_table : OutboxTable
queued_table = ("out_1", report_row) ∷ []

abbrev queued_outbox : OutboxState
queued_outbox = record { table = queued_table; claims = [] }

abbrev claimed_outbox : OutboxState
claimed_outbox = record {
  table = (claim_due_outbox 12 60 100 queued_table).0;
  claims = claims_of (12 + 60) (claim_due_outbox 12 60 100 queued_table).1 ++ [];
}

abbrev report_claim : Claim
report_claim = record {
  outbox_id = "out_1";
  row = record report_row { status = in_flight; next_attempt_at = 72 };
  lease_until = 72;
}

abbrev delivered_table : OutboxTable
delivered_table =
    deliver_claim no_payload "out_2" "delivery_failed" 20 false accepts report_claim
      claimed_outbox.table

-- The report is done with, and the trigger is due.
report_is_appended : phase "out_1" delivered_table ≡ append_done
unfolding phase deliver_claim deliver_row complete_outbox_append update_row insert_or_ignore
    trigger_row with_trigger_suffix has_key insert claim_due_outbox due_rows in_order
    insert_in_order limited lease_rows lookup
report_is_appended = refl

is_claimed : contains "out_1" (claim_due_outbox 12 60 100 queued_table).1 ≡ true
unfolding claim_due_outbox due_rows in_order insert_in_order limited lease_rows leased_rows lookup
is_claimed = refl

claim_due_outbox-exclusive_example :
    contains "out_1" (claim_due_outbox 40 60 100 (claim_due_outbox 12 60 100 queued_table).0).1
    ≡ false
claim_due_outbox-exclusive_example =
    claim_due_outbox-exclusive 12 60 100 40 60 100 queued_table "out_1" (tt, tt) (omega arith)
      is_claimed

one_is_due : length (due_rows 12 queued_table) ≤ 100
unfolding due_rows
one_is_due = omega arith

report_is_there : lookup "out_1" queued_table ≡ some report_row
unfolding lookup
report_is_there = refl

claim_due_outbox-claims_example :
    contains "out_1" (claim_due_outbox 12 60 100 queued_table).1 ≡ true
claim_due_outbox-claims_example =
    claim_due_outbox-claims 12 60 100 queued_table "out_1" report_row report_is_there (inl refl)
      (omega arith) one_is_due
