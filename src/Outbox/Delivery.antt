-- ===== src/Outbox/Delivery.antt =====
-- lunagentic_research_swarm/storage/outbox.py: one claimed notification is delivered.
use Prim.Native.String.{◌++◌ as ◌+text◌}
use text.Mathlib.Text.{starts_with}
use maibot_lunagentic_resear.Prelude.{
  min_ℕ, if◌then◌else◌, text_or, or_default, ℕ, zero, suc, ◌+◌, ◌*◌, String, Bool, true, false,
  ◌&&◌, ◌||◌, Option, none, some, List, [], ◌∷◌, ◌==◌,
}
use maibot_lunagentic_resear.Outbox.{
  DeliveryKind, append_report, trigger_report_review, unknown_delivery, pending, OutboxRow,
  OutboxTable, mark_outbox_delivered, mark_outbox_failed, complete_outbox_append,
}

-- A row as it was claimed, with the end of its lease.
pub record Claim : Type 0 where
  pub outbox_id : String
  pub row : OutboxRow
  pub lease_until : ℕ

-- `append_key[:-len(":append")] + ":trigger" if append_key.endswith(":append") else …`
unfoldable pub with_trigger_suffix : String → String
with_trigger_suffix String.[] = ":trigger"
with_trigger_suffix (String.◌∷◌ c rest) =
    if String.◌∷◌ c rest == ":append" then ":trigger" else String.◌∷◌ c (with_trigger_suffix rest)

abbrev append_key : OutboxRow → String
append_key row = text_or row.idempotency_key (
    "lrs:"
    +text row.task_id
    +text ":"
    +text row.round_id
    +text ":"
    +text or_default row.report_id "None"
    +text ":append")

abbrev pub trigger_key : OutboxRow → String
trigger_key row = with_trigger_suffix (append_key row)

-- `_trigger_row`; `render` is the payload's JSON.
unfoldable pub trigger_row : (OutboxRow → String) → ℕ → OutboxRow → OutboxRow
trigger_row render now row = record {
  task_id = row.task_id;
  round_id = row.round_id;
  report_id = row.report_id;
  delivery_kind = trigger_report_review;
  idempotency_key = trigger_key row;
  payload = render row;
  status = pending;
  attempt_count = 0;
  next_attempt_at = now;
  last_error = none;
  created_at = now;
  delivered_at = none;
}

-- `2 ** attempt`
abbrev power_of_two : ℕ → ℕ
power_of_two zero = 1
power_of_two (suc n) = 2 * power_of_two n

-- `min(300.0, 2 ** min(attempt, 8))`
unfoldable pub retry_delay : ℕ → ℕ
retry_delay attempt = min_ℕ 300 (power_of_two (min_ℕ attempt 8))

-- `_record_failure`
unfoldable pub record_failure : ℕ → String → Claim → OutboxTable → Option OutboxTable
record_failure now error claim table =
    let attempt = claim.row.attempt_count + 1 in
    mark_outbox_failed claim.outbox_id attempt (now + retry_delay attempt) error
      (some claim.lease_until) table

-- What Maisaka does with a call.
pub data Answer : Type 0 where
  accepts refuses : Answer

abbrev is_accepted : Answer → Bool
is_accepted accepts = true
is_accepted refuses = false

-- A reminder whose feedback has come is settled with no call.
abbrev pub is_settled : Bool → OutboxRow → Bool
is_settled has_feedback row =
    starts_with row.idempotency_key "lrs:feedback-reminder:" && has_feedback

-- `_deliver_row`: the table after it, if it returns. `render` is the payload's JSON, `trigger_id` the
-- random id of the new row.
abbrev pub delivered_row :
    (OutboxRow → String)
    → String
    → ℕ
    → Bool
    → Answer
    → Claim
    → DeliveryKind
    → OutboxTable
    → Option OutboxTable
delivered_row render trigger_id now has_feedback answer claim append_report table =
    if is_accepted answer
    then complete_outbox_append claim.outbox_id now (some claim.lease_until)
        (trigger_id, trigger_row render now claim.row) table
    else none
delivered_row render trigger_id now has_feedback answer claim trigger_report_review table =
    if is_settled has_feedback claim.row || is_accepted answer
    then mark_outbox_delivered claim.outbox_id now (some claim.lease_until) table
    else none
delivered_row render trigger_id now has_feedback answer claim unknown_delivery table = none

unfoldable pub deliver_row :
    (OutboxRow → String) → String → ℕ → Bool → Answer → Claim → OutboxTable → Option OutboxTable
deliver_row render trigger_id now has_feedback answer claim table =
    delivered_row render trigger_id now has_feedback answer claim claim.row.delivery_kind table

-- One round of the loop of `deliver_once`: what is raised is recorded, and where that raises too, since
-- the lease is lost, the table stays as it is.
unfoldable pub deliver_claim :
    (OutboxRow → String) → String → String → ℕ → Bool → Answer → Claim → OutboxTable → OutboxTable
deliver_claim render trigger_id error now has_feedback answer claim table =
    elim (deliver_row render trigger_id now has_feedback answer claim table) [
      | some after ↦ after
      | none ↦ or_default (record_failure now error claim table) table
    ]

-- The claims of a worker, after `claim_due_outbox`.
unfoldable pub claims_of : ℕ → OutboxTable → List Claim
claims_of lease_until [] = []
claims_of lease_until ((id, row) ∷ rows) =
    record { outbox_id = id; row = row; lease_until = lease_until } ∷ claims_of lease_until rows
