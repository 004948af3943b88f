-- ===== src/Outbox/Tries.antt =====
-- A try of a claimed notification makes a move that is allowed.
use mathlib.Core.Path.{subst}
use maibot_lunagentic_resear.Prelude.{
  Bool-cases, some_injective, ℕ, String, ◌≡◌, refl, sym, inl, inr, Bool, true, false, not, ◌&&◌,
  Option, none, some, arith, ◌==◌, eq_iff,
}
use maibot_lunagentic_resear.Dict.{lookup, contains, insert}
use maibot_lunagentic_resear.Dict.Totals.{lookup-insert}
use maibot_lunagentic_resear.Outbox.{
  DeliveryKind, append_report, trigger_report_review, unknown_delivery, pending, in_flight,
  OutboxRow, OutboxTable, has_key, clashes, insert_or_ignore, holds_lease, update_row, as_delivered,
  mark_outbox_delivered, as_failed, mark_outbox_failed, complete_outbox_append,
}
use maibot_lunagentic_resear.Outbox.Delivery.{
  Claim, trigger_key, trigger_row, Answer, delivered_row, deliver_row,
}
use maibot_lunagentic_resear.Outbox.Rows.{
  has_key-insert, update_row-eq-some, lookup-insert_or_ignore, has_key-insert_or_ignore,
  KeepsKeys-insert_or_ignore, fresh-insert,
}
use maibot_lunagentic_resear.Outbox.Phases.{allows, row_phase, phase}
use maibot_lunagentic_resear.Outbox.Moves.{allows-new, allows-write}

-- What of a row no statement changes.
abbrev pub SameNotice : OutboxRow → OutboxRow → Type 0
SameNotice row other =
    (row.delivery_kind ≡ other.delivery_kind) × (trigger_key row ≡ trigger_key other)

abbrev pub HasNotice : OutboxRow → Option OutboxRow → Type 0
HasNotice row none = ⊥
HasNotice row (some found) = SameNotice row found

pub HasNotice-found :
    (row found : OutboxRow) {o : Option OutboxRow}
    → HasNotice row o
    → o ≡ some found
    → SameNotice row found
HasNotice-found row found h e = subst (HasNotice row) e h

insert-allows :
    (id key : String) (old row : OutboxRow) (table : OutboxTable)
    → lookup key table ≡ some old
    → row.idempotency_key ≡ old.idempotency_key
    → allows
        (row_phase (some old) (λ name. has_key name table))
        (row_phase (some row) (λ name. has_key name (insert key row table)))
      ≡ true
    → allows (phase id table) (phase id (insert key row table)) ≡ true
unfolding phase
insert-allows id key old row table found same move = rw (lookup-insert key id row table) (
    allows-write id key old row table (λ name. has_key name table)
      (λ name. has_key name (insert key row table))
      (λ name. has_key-insert key old row table name found same) found move)

in_flight-of_lease :
    (lease_until : ℕ) (row : OutboxRow)
    → holds_lease (some lease_until) row ≡ true
    → row.status ≡ in_flight
in_flight-of_lease lease_until row h = ground (arith, h)

pub mark_outbox_failed-allows :
    (id key : String) (attempt next_attempt_at : ℕ) (error : String) (lease_until : ℕ)
    (table : OutboxTable) {after : OutboxTable}
    → mark_outbox_failed key attempt next_attempt_at error (some lease_until) table ≡ some after
    → allows (phase id table) (phase id after) ≡ true
unfolding mark_outbox_failed allows
mark_outbox_failed-allows id key attempt next_attempt_at error lease_until table h =
    let change = as_failed attempt next_attempt_at error in
    let (row, found, held, done) = update_row-eq-some key (some lease_until) change table h in
    rw done (
      insert-allows id key row (change row) table found refl (
        ground (
          arith,
          in_flight-of_lease lease_until row held,
          has_key-insert key row (change row) table (trigger_key row) found refl,
        )))

pub mark_outbox_delivered-allows :
    (id : String) (claim : Claim) (now : ℕ) (table : OutboxTable) {after : OutboxTable}
    → HasNotice claim.row (lookup claim.outbox_id table)
    → claim.row.delivery_kind ≡ trigger_report_review
    → mark_outbox_delivered claim.outbox_id now (some claim.lease_until) table ≡ some after
    → allows (phase id table) (phase id after) ≡ true
unfolding mark_outbox_delivered allows
mark_outbox_delivered-allows id claim now table known kind h =
    let change = as_delivered now in
    let (row, found, held, done) =
      update_row-eq-some claim.outbox_id (some claim.lease_until) change table h in
    let same = HasNotice-found claim.row row known found in
    rw done (
      insert-allows id claim.outbox_id row (change row) table found refl
        (ground (arith, in_flight-of_lease claim.lease_until row held, same.0, kind)))

-- The row of a completed append, beside the trigger that is queued with it.
append-allows :
    (id key trigger_id : String) (old row trigger : OutboxRow) (table : OutboxTable)
    → lookup key table ≡ some old
    → row.idempotency_key ≡ old.idempotency_key
    → trigger.status ≡ pending
    → allows (row_phase (some old) (λ name. has_key name table)) (
        row_phase
          (some row)
          (λ name. has_key name (insert_or_ignore trigger_id trigger (insert key row table))))
      ≡ true
    → allows
        (phase id table)
        (phase id (insert_or_ignore trigger_id trigger (insert key row table)))
      ≡ true
unfolding phase
append-allows id key trigger_id old row trigger table found same waits move =
    elim (Bool-cases (key == id)) [
      | inl e ↦
          rw
            (
              lookup-insert_or_ignore id trigger_id trigger (insert key row table),
              lookup-insert key id row table,
              e,
              ← ((eq_iff key id).0 e),
              found,
            )
            move
      | inr e ↦
          rw
            (
              lookup-insert_or_ignore id trigger_id trigger (insert key row table),
              lookup-insert key id row table,
              e,
            )
            (allows-new (lookup id table)
              (not (clashes trigger_id trigger (insert key row table)) && (trigger_id == id))
              trigger (λ name. has_key name table)
              (λ name. has_key name (insert_or_ignore trigger_id trigger (insert key row table)))
              (λ name h.
                KeepsKeys-insert_or_ignore trigger_id trigger (insert key row table) name
                  (has_key-insert key old row table name found same h))
              waits)
    ]

pub complete_outbox_append-eq-some :
    (id : String) (at : ℕ) (lease : Option ℕ) (trigger_id : String) (trigger : OutboxRow)
    (table : OutboxTable) {after : OutboxTable}
    → complete_outbox_append id at lease (trigger_id, trigger) table ≡ some after
    → (updated : OutboxTable) × (update_row id lease (as_delivered at) table ≡ some updated)
      × (after ≡ insert_or_ignore trigger_id trigger updated)
unfolding complete_outbox_append
complete_outbox_append-eq-some id at lease trigger_id trigger table {after} h =
    go (update_row id lease (as_delivered at) table) refl h
  where
    go :
        (o : Option OutboxTable)
        → update_row id lease (as_delivered at) table ≡ o
        → elim o [ none ↦ none | some updated ↦ some (insert_or_ignore trigger_id trigger updated) ]
          ≡ some after
        → (updated : OutboxTable) × (update_row id lease (as_delivered at) table ≡ some updated)
          × (after ≡ insert_or_ignore trigger_id trigger updated)
    go none e k = absurd (ground (arith, k))
    go (some updated) e k = (updated, e, sym (some_injective k))

pub complete_outbox_append-allows :
    (render : OutboxRow → String) (id trigger_id : String) (claim : Claim) (now : ℕ)
    (table : OutboxTable) {after : OutboxTable}
    → HasNotice claim.row (lookup claim.outbox_id table)
    → claim.row.delivery_kind ≡ append_report
    → contains trigger_id table ≡ false
    → complete_outbox_append claim.outbox_id now
        (some claim.lease_until)
        (trigger_id, trigger_row render now claim.row)
        table
      ≡ some after
    → allows (phase id table) (phase id after) ≡ true
unfolding trigger_row allows
complete_outbox_append-allows render id trigger_id claim now table known kind fresh h =
    let trigger = trigger_row render now claim.row in
    let (updated, success, done) =
      complete_outbox_append-eq-some claim.outbox_id now (some claim.lease_until) trigger_id trigger
        table h in
    let change = as_delivered now in
    let (row, found, held, same_table) =
      update_row-eq-some claim.outbox_id (some claim.lease_until) change table success in
    let same = HasNotice-found claim.row row known found in
    let written = insert claim.outbox_id (change row) table in
    rw (done, same_table)
      (append-allows id claim.outbox_id trigger_id row (change row) trigger table found refl refl (
        ground (
          arith,
          in_flight-of_lease claim.lease_until row held,
          same.0,
          same.1,
          kind,
          has_key-insert_or_ignore trigger_id trigger written
              (fresh-insert trigger_id claim.outbox_id row (change row) table found fresh),
        )))

-- One round of the delivery loop.
pub deliver_row-allows :
    (render : OutboxRow → String) (id trigger_id : String) (now : ℕ) (has_feedback : Bool)
    (answer : Answer) (claim : Claim) (table : OutboxTable) {after : OutboxTable}
    → HasNotice claim.row (lookup claim.outbox_id table)
    → contains trigger_id table ≡ false
    → deliver_row render trigger_id now has_feedback answer claim table ≡ some after
    → allows (phase id table) (phase id after) ≡ true
unfolding deliver_row
deliver_row-allows render id trigger_id now has_feedback answer claim table {after} known fresh h =
    go claim.row.delivery_kind refl h
  where
    go :
        (kind : DeliveryKind)
        → claim.row.delivery_kind ≡ kind
        → delivered_row render trigger_id now has_feedback answer claim kind table ≡ some after
        → allows (phase id table) (phase id after) ≡ true
    go append_report e k =
        complete_outbox_append-allows render id trigger_id claim now table known e fresh
          (ground (arith, k))
    go trigger_report_review e k =
        mark_outbox_delivered-allows id claim now table known e (ground (arith, k))
    go unknown_delivery e k = absurd (ground (arith, k))
