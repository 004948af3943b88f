-- ===== src/Outbox.antt =====
-- The table of notifications (lunagentic_research_swarm/storage/sqlite.py, `maisaka_outbox`) and what
-- the SQL statements on it do. A statement that raises, and with it its transaction, is `none`.
use Prim.Native.Nat.{Ordering}
use Prim.Native.String.{compare as compare_text}
pub mod Delivery
pub mod Rows
pub mod Phases
pub mod Moves
pub mod Tries
pub mod Claims
pub mod Leases
pub mod Progress
pub mod Held
pub mod Steps
pub mod Refines
use maibot_lunagentic_resear.Prelude.{
  ltb, leb, nat_eq, if◌then◌else◌, ℕ, zero, suc, ◌+◌, String, Bool, true, false, ◌&&◌, ◌||◌, Option,
  none, some, [], ◌∷◌, ◌++◌, ◌==◌,
}
use maibot_lunagentic_resear.Dict.{Dict, lookup, contains, insert}

-- `delivery_kind`, which is compared in lower case.
pub data DeliveryKind : Type 0 where
  append_report trigger_report_review unknown_delivery : DeliveryKind

-- `status`, which is compared in upper case.
pub data OutboxStatus : Type 0 where
  pending in_flight delivered cancelled : OutboxStatus

pub record OutboxRow : Type 0 where
  pub task_id : String
  pub round_id : String
  pub report_id : Option String
  pub delivery_kind : DeliveryKind
  pub idempotency_key : String
  pub payload : String
  pub status : OutboxStatus
  pub attempt_count : ℕ
  pub next_attempt_at : ℕ
  pub last_error : Option String
  pub created_at : ℕ
  pub delivered_at : Option ℕ

-- The rows under `outbox_id`, the primary key.
abbrev pub OutboxTable : Type 0
OutboxTable = Dict OutboxRow

abbrev pub is_pending : OutboxStatus → Bool
is_pending pending = true
is_pending _ = false

abbrev pub is_in_flight : OutboxStatus → Bool
is_in_flight in_flight = true
is_in_flight _ = false

abbrev pub is_delivered : OutboxStatus → Bool
is_delivered delivered = true
is_delivered _ = false

-- The UNIQUE constraint on `idempotency_key`.
unfoldable pub has_key : String → OutboxTable → Bool
has_key key [] = false
has_key key ((_, row) ∷ table) = row.idempotency_key == key || has_key key table

abbrev pub clashes : String → OutboxRow → OutboxTable → Bool
clashes id row table = contains id table || has_key row.idempotency_key table

-- `_insert_outbox`
unfoldable pub insert_outbox : String → OutboxRow → OutboxTable → Option OutboxTable
insert_outbox id row table = if clashes id row table then none else some (table ++ (id, row) ∷ [])

-- INSERT OR IGNORE
unfoldable pub insert_or_ignore : String → OutboxRow → OutboxTable → OutboxTable
insert_or_ignore id row table = if clashes id row table then table else table ++ (id, row) ∷ []

-- WHERE outbox_id = ? and, with a lease, AND status = 'IN_FLIGHT' AND next_attempt_at = ?
abbrev pub holds_lease : Option ℕ → OutboxRow → Bool
holds_lease none row = true
holds_lease (some lease_until) row =
    is_in_flight row.status && nat_eq row.next_attempt_at lease_until

-- An UPDATE of one row and `_require_single_target`.
unfoldable pub update_row :
    String → Option ℕ → (OutboxRow → OutboxRow) → OutboxTable → Option OutboxTable
update_row id lease change table = elim (lookup id table) [
  | none ↦ none
  | some row ↦ if holds_lease lease row then some (insert id (change row) table) else none
]

abbrev pub as_delivered : ℕ → OutboxRow → OutboxRow
as_delivered at row = record row { status = delivered; delivered_at = some at; last_error = none }

-- `_mark_outbox_delivered`
unfoldable pub mark_outbox_delivered : String → ℕ → Option ℕ → OutboxTable → Option OutboxTable
mark_outbox_delivered id at lease table = update_row id lease (as_delivered at) table

abbrev pub as_failed : ℕ → ℕ → String → OutboxRow → OutboxRow
as_failed attempt_count next_attempt_at error row = record row {
  status = pending;
  attempt_count = attempt_count;
  next_attempt_at = next_attempt_at;
  last_error = some error;
}

-- `_mark_outbox_failed`
unfoldable pub mark_outbox_failed :
    String → ℕ → ℕ → String → Option ℕ → OutboxTable → Option OutboxTable
mark_outbox_failed id attempt_count next_attempt_at error lease table =
    update_row id lease (as_failed attempt_count next_attempt_at error) table

-- `_complete_outbox_append`
unfoldable pub complete_outbox_append :
    String → ℕ → Option ℕ → String × OutboxRow → OutboxTable → Option OutboxTable
complete_outbox_append id at lease (trigger_id, trigger) table =
    elim (update_row id lease (as_delivered at) table) [
      | none ↦ none
      | some updated ↦ some (insert_or_ignore trigger_id trigger updated)
    ]

-- The cancellation of a reminder (feedback.py), which a row that is claimed escapes.
unfoldable pub cancel_reminder : String → String → OutboxTable → OutboxTable
cancel_reminder round_id key [] = []
cancel_reminder round_id key ((id, row) ∷ table) =
    (
      id,
      if (row.round_id == round_id) && (row.idempotency_key == key) && is_pending row.status
          then record row { status = cancelled; last_error = some "feedback_already_submitted" }
          else row,
    )
    ∷ cancel_reminder round_id key table

-- The rows that may be claimed: due, and pending or with a lease that has ended.
abbrev pub is_due : ℕ → OutboxRow → Bool
is_due now row =
    leb row.next_attempt_at now
    && (is_pending row.status || (is_in_flight row.status && leb row.next_attempt_at now))

unfoldable pub due_rows : ℕ → OutboxTable → OutboxTable
due_rows now [] = []
due_rows now ((id, row) ∷ table) =
    if is_due now row then (id, row) ∷ due_rows now table else due_rows now table

-- ORDER BY next_attempt_at, created_at, outbox_id
abbrev is_text_before : String → String → Bool
is_text_before a b = elim (compare_text a b) [ Ordering.gt ↦ false | _ ↦ true ]

abbrev pub comes_first : String × OutboxRow → String × OutboxRow → Bool
comes_first (id, row) (other_id, other) =
    ltb row.next_attempt_at other.next_attempt_at
    || (nat_eq row.next_attempt_at other.next_attempt_at
        && (ltb row.created_at other.created_at
            || (nat_eq row.created_at other.created_at && is_text_before id other_id)))

unfoldable pub insert_in_order : String × OutboxRow → OutboxTable → OutboxTable
insert_in_order entry [] = entry ∷ []
insert_in_order entry (other ∷ table) =
    if comes_first entry other then entry ∷ other ∷ table else other ∷ insert_in_order entry table

unfoldable pub in_order : OutboxTable → OutboxTable
in_order [] = []
in_order (entry ∷ table) = insert_in_order entry (in_order table)

-- LIMIT
unfoldable pub limited : ℕ → OutboxTable → OutboxTable
limited zero table = []
limited (suc limit) [] = []
limited (suc limit) (entry ∷ table) = entry ∷ limited limit table

abbrev pub leased : ℕ → OutboxRow → OutboxRow
leased lease_until row = record row { status = in_flight; next_attempt_at = lease_until }

-- UPDATE … WHERE outbox_id IN (…) AND the row may still be claimed
unfoldable pub lease_rows : OutboxTable → ℕ → ℕ → OutboxTable → OutboxTable
lease_rows chosen now lease_until [] = []
lease_rows chosen now lease_until ((id, row) ∷ table) =
    (id, if contains id chosen && is_due now row then leased lease_until row else row)
    ∷ lease_rows chosen now lease_until table

-- SELECT … WHERE outbox_id IN (…) AND status = 'IN_FLIGHT'
unfoldable pub leased_rows : OutboxTable → OutboxTable → OutboxTable
leased_rows chosen [] = []
leased_rows chosen ((id, row) ∷ table) =
    if contains id chosen && is_in_flight row.status
    then (id, row) ∷ leased_rows chosen table
    else leased_rows chosen table

abbrev pub chosen_rows : ℕ → ℕ → OutboxTable → OutboxTable
chosen_rows now limit table = limited limit (in_order (due_rows now table))

-- `_claim_due_outbox_sync`: the table, and the rows that are claimed. Each of them has its task, a
-- foreign key, so the join drops none.
unfoldable pub claim_due_outbox : ℕ → ℕ → ℕ → OutboxTable → OutboxTable × OutboxTable
claim_due_outbox now lease_seconds limit table =
    let chosen = chosen_rows now limit table in
    let after = lease_rows chosen now (now + lease_seconds) table in
    (after, in_order (leased_rows chosen after))
