-- ===== src/Outbox/Steps.antt =====
-- Every step of the outbox makes a move that is allowed, for every notification.
use mathlib.Core.Path.{subst}
use maibot_lunagentic_resear.Prelude.{
  Bool-cases, or_default, some_injective, All-append, All-split, ℕ, ◌+◌, String, ◌≡◌, refl, inl,
  inr, Bool, true, false, Option, none, some, List, [], ◌∷◌, ◌++◌, arith, ◌==◌,
}
use maibot_lunagentic_resear.Dict.{lookup, contains}
use maibot_lunagentic_resear.Dict.Keys.{HasDistinctKeys}
use maibot_lunagentic_resear.Outbox.{
  DeliveryKind, append_report, trigger_report_review, unknown_delivery, pending, OutboxRow,
  OutboxTable, has_key, clashes, insert_outbox, as_delivered, mark_outbox_delivered, as_failed,
  mark_outbox_failed, cancel_reminder, chosen_rows, claim_due_outbox,
}
use maibot_lunagentic_resear.Outbox.Delivery.{
  Claim, trigger_row, retry_delay, record_failure, Answer, delivered_row, deliver_row,
  deliver_claim, claims_of,
}
use maibot_lunagentic_resear.Outbox.Rows.{
  lookup-append, lookup-lease_rows, lookup-cancel_reminder, KeepsKeys-append, KeepsKeys-lease_rows,
  KeepsKeys-cancel_reminder,
}
use maibot_lunagentic_resear.Outbox.Phases.{allows, phase}
use maibot_lunagentic_resear.Outbox.Moves.{allows-same, allows-new, allows-lease, allows-cancel}
use maibot_lunagentic_resear.Outbox.Tries.{HasNotice, mark_outbox_failed-allows, deliver_row-allows}
use maibot_lunagentic_resear.Outbox.Held.{
  AreHeld, AreHeld-KeepsNotices, Keeps, Keeps-lease_rows, Keeps-cancel_reminder,
  Keeps-insert_outbox, Keeps-update_row, Keeps-complete_outbox_append,
}
use maibot_lunagentic_resear.Outbox.Claims.{AreHeld-claim_due_outbox}

pub record OutboxState : Type 0 where
  pub table : OutboxTable
  pub claims : List Claim

-- A notification is queued, due ones are claimed, a claimed one is tried, perhaps long after its lease
-- has ended, a reminder is cancelled, and the process may lose what it has claimed.
pub data OutboxStep (render : OutboxRow → String) (state : OutboxState) : OutboxState → Type 0 where
  queues :
      (id : String) (row : OutboxRow) (table : OutboxTable)
      → row.status ≡ pending
      → insert_outbox id row state.table ≡ some table
      → OutboxStep render state (record state { table = table })
  claims_due :
      (now lease_seconds limit : ℕ)
      → OutboxStep render state (record {
        table = (claim_due_outbox now lease_seconds limit state.table).0;
        claims =
            claims_of (now + lease_seconds) (claim_due_outbox now lease_seconds limit state.table).1
            ++ state.claims;
      })
  tries :
      (before after : List Claim) (claim : Claim) (trigger_id error : String) (now : ℕ)
      (has_feedback : Bool) (answer : Answer)
      → state.claims ≡ before ++ claim ∷ after
      → contains trigger_id state.table ≡ false
      → OutboxStep render state (record state {
        table = deliver_claim render trigger_id error now has_feedback answer claim state.table;
      })
  cancels_reminder :
      (round_id key : String)
      → OutboxStep render state (record state { table = cancel_reminder round_id key state.table })
  crashes : OutboxStep render state (record state { claims = [] })

deliver_row-Keeps :
    (render : OutboxRow → String) (trigger_id : String) (now : ℕ) (has_feedback : Bool)
    (answer : Answer) (claim : Claim) (table : OutboxTable) {after : OutboxTable}
    → deliver_row render trigger_id now has_feedback answer claim table ≡ some after
    → Keeps table after
unfolding deliver_row mark_outbox_delivered
deliver_row-Keeps render trigger_id now has_feedback answer claim table {after} h =
    go claim.row.delivery_kind h
  where
    go :
        (kind : DeliveryKind)
        → delivered_row render trigger_id now has_feedback answer claim kind table ≡ some after
        → Keeps table after
    go append_report k =
        Keeps-complete_outbox_append claim.outbox_id now (some claim.lease_until) trigger_id
          (trigger_row render now claim.row) table (ground (arith, k))
    go trigger_report_review k =
        Keeps-update_row claim.outbox_id (some claim.lease_until) (as_delivered now) table
          (λ row. (refl, refl)) (ground (arith, k))
    go unknown_delivery k = absurd (ground (arith, k))

record_failure-Keeps :
    (now : ℕ) (error : String) (claim : Claim) (table : OutboxTable) {after : OutboxTable}
    → record_failure now error claim table ≡ some after
    → Keeps table after
unfolding record_failure mark_outbox_failed
record_failure-Keeps now error claim table h =
    Keeps-update_row claim.outbox_id (some claim.lease_until)
      (as_failed (claim.row.attempt_count + 1) (now + retry_delay (claim.row.attempt_count + 1))
        error)
      table (λ row. (refl, refl)) h

Keeps-refl : (table : OutboxTable) → Keeps table table
Keeps-refl table = record { notices = λ id row h. h; distinct = λ u. u }

phase-stays : (id : String) (table : OutboxTable) → allows (phase id table) (phase id table) ≡ true
unfolding phase
phase-stays id table =
    allows-same (lookup id table) (λ key. has_key key table) (λ key. has_key key table) (λ key h. h)

-- A statement as a move: it keeps what it must, and every notification moves as it may.
abbrev Moves : OutboxTable → OutboxTable → Type 0
Moves table after =
    Keeps table after × ((id : String) → allows (phase id table) (phase id after) ≡ true)

deliver_claim-Moves :
    (render : OutboxRow → String) (trigger_id error : String) (now : ℕ) (has_feedback : Bool)
    (answer : Answer) (claim : Claim) (table : OutboxTable)
    → HasNotice claim.row (lookup claim.outbox_id table)
    → contains trigger_id table ≡ false
    → Moves table (deliver_claim render trigger_id error now has_feedback answer claim table)
unfolding deliver_claim record_failure
deliver_claim-Moves render trigger_id error now has_feedback answer claim table known fresh =
    go (deliver_row render trigger_id now has_feedback answer claim table) refl
  where
    fails :
        (o : Option OutboxTable)
        → record_failure now error claim table ≡ o
        → Moves table (or_default o table)
    fails none e = (Keeps-refl table, λ id. phase-stays id table)
    fails (some after) e = (
      record_failure-Keeps now error claim table e,
      λ id.
          mark_outbox_failed-allows id claim.outbox_id (claim.row.attempt_count + 1)
            (now + retry_delay (claim.row.attempt_count + 1)) error claim.lease_until table e,
    )

    go :
        (o : Option OutboxTable)
        → deliver_row render trigger_id now has_feedback answer claim table ≡ o
        → Moves table (elim o [
          | some after ↦ after
          | none ↦ or_default (record_failure now error claim table) table
        ])
    go (some after) e = (
      deliver_row-Keeps render trigger_id now has_feedback answer claim table e,
      λ id.
          deliver_row-allows render id trigger_id now has_feedback answer claim table known fresh e,
    )
    go none e = fails (record_failure now error claim table) refl

pub record IsSound (state : OutboxState) : Type 0 where
  pub distinct : HasDistinctKeys state.table
  pub held : AreHeld state.claims state.table

held_claim :
    (before after : List Claim) (claim : Claim) (claims : List Claim) (table : OutboxTable)
    → claims ≡ before ++ claim ∷ after
    → AreHeld claims table
    → HasNotice claim.row (lookup claim.outbox_id table)
held_claim before after claim claims table e h =
    (All-split _ before (claim ∷ after) (subst (λ cs. AreHeld cs table) e h)).1.0

insert_outbox-allows :
    (id other : String) (row : OutboxRow) (table : OutboxTable) {after : OutboxTable}
    → row.status ≡ pending
    → insert_outbox id row table ≡ some after
    → allows (phase other table) (phase other after) ≡ true
unfolding insert_outbox phase
insert_outbox-allows id other row table {after} waits h = elim (Bool-cases (clashes id row table)) [
  | inl e ↦ absurd (ground (arith, h, e))
  | inr e ↦
      let done : table ++ (id, row) ∷ [] ≡ after = some_injective (rw e at h) in
      rw (← done, lookup-append other id row table)
        (allows-new (lookup other table) (id == other) row _ _
          (KeepsKeys-append ((id, row) ∷ []) table) waits)
]

pub OutboxStep-Moves :
    {render : OutboxRow → String} {state next : OutboxState}
    → OutboxStep render state next
    → IsSound state
    → Moves state.table next.table
unfolding claim_due_outbox phase
OutboxStep-Moves {state = state} (queues id row table waits h) sound = (
  Keeps-insert_outbox id row state.table h,
  λ other. insert_outbox-allows id other row state.table waits h,
)
OutboxStep-Moves {state = state} (claims_due now lease_seconds limit) sound = (
  Keeps-lease_rows (chosen_rows now limit state.table) now (now + lease_seconds) state.table,
  λ id.
      rw
        (lookup-lease_rows (chosen_rows now limit state.table) now (now + lease_seconds) id
          state.table)
        (allows-lease (chosen_rows now limit state.table) now (now + lease_seconds) id
          (lookup id state.table) _ _
          (KeepsKeys-lease_rows (chosen_rows now limit state.table) now (now + lease_seconds)
            state.table)),
)
OutboxStep-Moves {state = state}
      (tries before after claim trigger_id error now has_feedback answer e fresh) sound =
    deliver_claim-Moves _ trigger_id error now has_feedback answer claim state.table
      (held_claim before after claim state.claims state.table e sound.held) fresh
OutboxStep-Moves {state = state} (cancels_reminder round_id key) sound = (
  Keeps-cancel_reminder round_id key state.table,
  λ id. rw (lookup-cancel_reminder round_id key id state.table) (
      allows-cancel round_id key (lookup id state.table) _ _
        (KeepsKeys-cancel_reminder round_id key state.table)),
)
OutboxStep-Moves {state = state} crashes sound =
    (Keeps-refl state.table, λ id. phase-stays id state.table)

moved-IsSound :
    (state : OutboxState) (after : OutboxTable)
    → Keeps state.table after
    → IsSound state
    → IsSound (record state { table = after })
moved-IsSound state after keeps sound = record {
  distinct = keeps.distinct sound.distinct;
  held = AreHeld-KeepsNotices state.claims state.table after keeps.notices sound.held;
}

pub OutboxStep-IsSound :
    {render : OutboxRow → String} {state next : OutboxState}
    → OutboxStep render state next
    → IsSound state
    → IsSound next
OutboxStep-IsSound {render} {state} (claims_due now lease_seconds limit) sound =
    let after = (claim_due_outbox now lease_seconds limit state.table).0 in
    let keeps = (OutboxStep-Moves {render = render} (claims_due now lease_seconds limit) sound).0 in
    record {
      distinct = keeps.distinct sound.distinct;
      held =
          All-append _
            (claims_of (now + lease_seconds)
              (claim_due_outbox now lease_seconds limit state.table).1)
            state.claims
            (AreHeld-claim_due_outbox now lease_seconds limit state.table sound.distinct)
            (AreHeld-KeepsNotices state.claims state.table after keeps.notices sound.held);
    }
OutboxStep-IsSound {render} {state} (queues id row table waits h) sound =
    moved-IsSound state table
      (OutboxStep-Moves {render = render} (queues id row table waits h) sound).0 sound
OutboxStep-IsSound {render} {state}
      (tries before after claim trigger_id error now has_feedback answer e fresh) sound =
    moved-IsSound state
      (deliver_claim render trigger_id error now has_feedback answer claim state.table)
      (OutboxStep-Moves {render = render}
        (tries before after claim trigger_id error now has_feedback answer e fresh) sound).0
      sound
OutboxStep-IsSound {render} {state} (cancels_reminder round_id key) sound =
    moved-IsSound state (cancel_reminder round_id key state.table)
      (OutboxStep-Moves {render = render} (cancels_reminder round_id key) sound).0 sound
OutboxStep-IsSound crashes sound = record { distinct = sound.distinct; held = tt }
