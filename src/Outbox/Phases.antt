-- ===== src/Outbox/Phases.antt =====
-- What the outbox promises for a notification, as phases and the moves between them.
use maibot_lunagentic_resear.Prelude.{if◌then◌else◌, String, Bool, true, false, Option, none, some}
use maibot_lunagentic_resear.Dict.{lookup}
use maibot_lunagentic_resear.Outbox.{
  DeliveryKind, append_report, trigger_report_review, unknown_delivery, OutboxStatus, pending,
  in_flight, delivered, cancelled, OutboxRow, OutboxTable, has_key,
}
use maibot_lunagentic_resear.Outbox.Delivery.{trigger_key}

-- An appended report is done with once its trigger is queued; without, it would be lost.
pub data Phase : Type 0 where
  unsent append_due append_done append_lost trigger_due trigger_done dropped unsendable : Phase

-- The moves that are allowed, besides staying.
unfoldable pub allows : Phase → Phase → Bool
allows unsent unsent = true
allows unsent append_due = true
allows unsent trigger_due = true
allows unsent unsendable = true
allows append_due append_due = true
allows append_due append_done = true
allows append_due dropped = true
allows append_done append_done = true
allows append_lost append_lost = true
allows append_lost append_done = true
allows trigger_due trigger_due = true
allows trigger_due trigger_done = true
allows trigger_due dropped = true
allows trigger_done trigger_done = true
allows dropped dropped = true
allows unsendable unsendable = true
allows _ _ = false

abbrev append_phase : OutboxStatus → Bool → Phase
append_phase delivered queued = if queued then append_done else append_lost
append_phase cancelled queued = dropped
append_phase pending queued = append_due
append_phase in_flight queued = append_due

abbrev trigger_phase : OutboxStatus → Phase
trigger_phase delivered = trigger_done
trigger_phase cancelled = dropped
trigger_phase pending = trigger_due
trigger_phase in_flight = trigger_due

abbrev kind_phase : DeliveryKind → OutboxStatus → Bool → Phase
kind_phase append_report status queued = append_phase status queued
kind_phase trigger_report_review status queued = trigger_phase status
kind_phase unknown_delivery status queued = unsendable

abbrev pub row_phase : Option OutboxRow → (String → Bool) → Phase
row_phase none queued = unsent
row_phase (some row) queued = kind_phase row.delivery_kind row.status (queued (trigger_key row))

-- The phase of the notification under an id.
unfoldable pub phase : String → OutboxTable → Phase
phase id table = row_phase (lookup id table) (λ key. has_key key table)
