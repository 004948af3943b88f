-- ===== src/Outbox/Rows.antt =====
-- What each statement makes of a single row, and that no key leaves the table.
use maibot_lunagentic_resear.Prelude.{
  if◌then◌else◌, Bool-cases, some_injective, ℕ, String, ◌≡◌, refl, sym, ap, ◌∙◌, inl, inr, Bool,
  true, false, not, ◌&&◌, Option, none, some, [], ◌∷◌, ◌++◌, arith, ◌==◌, eq_iff,
}
use maibot_lunagentic_resear.Dict.{lookup, contains, insert}
use maibot_lunagentic_resear.Dict.Totals.{lookup-insert}
use maibot_lunagentic_resear.Outbox.{
  cancelled, OutboxRow, OutboxTable, is_pending, has_key, clashes, insert_or_ignore, holds_lease,
  update_row, cancel_reminder, is_due, leased, lease_rows,
}

-- The row, or the new one where there is none.
abbrev pub or_new : Bool → OutboxRow → Option OutboxRow → Option OutboxRow
or_new is_new row none = if is_new then some row else none
or_new is_new row (some old) = some old

pub lookup-append :
    (id other : String) (row : OutboxRow) (table : OutboxTable)
    → lookup id (table ++ (other, row) ∷ []) ≡ or_new (other == id) row (lookup id table)
unfolding lookup
lookup-append id other row [] = refl
lookup-append id other row ((k, old) ∷ table) = ground (arith, lookup-append id other row table)

abbrev pub changed : (OutboxRow → OutboxRow) → Option OutboxRow → Option OutboxRow
changed change none = none
changed change (some row) = some (change row)

abbrev pub lease_change : OutboxTable → ℕ → ℕ → String → OutboxRow → OutboxRow
lease_change chosen now lease_until id row =
    if contains id chosen && is_due now row then leased lease_until row else row

pub lookup-lease_rows :
    (chosen : OutboxTable) (now lease_until : ℕ) (id : String) (table : OutboxTable)
    → lookup id (lease_rows chosen now lease_until table)
      ≡ changed (lease_change chosen now lease_until id) (lookup id table)
unfolding lookup lease_rows
lookup-lease_rows chosen now lease_until id [] = refl
lookup-lease_rows chosen now lease_until id ((k, row) ∷ table) = elim (Bool-cases (k == id)) [
  | inl e ↦
      rw e (ap (λ name. some (lease_change chosen now lease_until name row)) ((eq_iff k id).0 e))
  | inr e ↦ rw e (lookup-lease_rows chosen now lease_until id table)
]

abbrev pub cancel_change : String → String → OutboxRow → OutboxRow
cancel_change round_id key row =
    if (row.round_id == round_id) && (row.idempotency_key == key) && is_pending row.status
    then record row { status = cancelled; last_error = some "feedback_already_submitted" }
    else row

pub lookup-cancel_reminder :
    (round_id key id : String) (table : OutboxTable)
    → lookup id (cancel_reminder round_id key table)
      ≡ changed (cancel_change round_id key) (lookup id table)
unfolding lookup cancel_reminder
lookup-cancel_reminder round_id key id [] = refl
lookup-cancel_reminder round_id key id ((k, row) ∷ table) =
    ground (arith, lookup-cancel_reminder round_id key id table)

-- Keys stay.
abbrev pub KeepsKeys : OutboxTable → OutboxTable → Type 0
KeepsKeys table after = (key : String) → has_key key table ≡ true → has_key key after ≡ true

pub KeepsKeys-append : (more table : OutboxTable) → KeepsKeys table (table ++ more)
unfolding has_key
KeepsKeys-append more [] key h = absurd (ground (arith, h))
KeepsKeys-append more ((k, row) ∷ table) key h = ground (arith, KeepsKeys-append more table key)

pub has_key-append_self :
    (key : String) (id : String) (row : OutboxRow) (table : OutboxTable)
    → row.idempotency_key ≡ key
    → has_key key (table ++ (id, row) ∷ []) ≡ true
unfolding has_key
has_key-append_self key id row [] e = ground (arith, eq_iff row.idempotency_key key)
has_key-append_self key id row ((k, old) ∷ table) e =
    ground (arith, has_key-append_self key id row table e)

pub KeepsKeys-lease_rows :
    (chosen : OutboxTable) (now lease_until : ℕ) (table : OutboxTable)
    → KeepsKeys table (lease_rows chosen now lease_until table)
unfolding has_key lease_rows
KeepsKeys-lease_rows chosen now lease_until [] key h = h
KeepsKeys-lease_rows chosen now lease_until ((k, row) ∷ table) key h =
    ground (arith, KeepsKeys-lease_rows chosen now lease_until table key)

pub KeepsKeys-cancel_reminder :
    (round_id name : String) (table : OutboxTable)
    → KeepsKeys table (cancel_reminder round_id name table)
unfolding has_key cancel_reminder
KeepsKeys-cancel_reminder round_id name [] key h = h
KeepsKeys-cancel_reminder round_id name ((k, row) ∷ table) key h =
    ground (arith, KeepsKeys-cancel_reminder round_id name table key)

-- A row that is written over keeps its key.
pub has_key-insert :
    (id : String) (old row : OutboxRow) (table : OutboxTable) (key : String)
    → lookup id table ≡ some old
    → row.idempotency_key ≡ old.idempotency_key
    → has_key key table ≡ true
    → has_key key (insert id row table) ≡ true
unfolding has_key insert lookup
has_key-insert id old row [] key found same h = ground (arith, h)
has_key-insert id old row ((k, first) ∷ table) key found same h =
    ground (arith, found, has_key-insert id old row table key)

-- What an update that succeeds has done.
pub update_row-eq-some :
    (id : String) (lease : Option ℕ) (change : OutboxRow → OutboxRow) (table : OutboxTable)
    {after : OutboxTable}
    → update_row id lease change table ≡ some after
    → (row : OutboxRow) × (lookup id table ≡ some row)
      × (holds_lease lease row ≡ true)
      × (after ≡ insert id (change row) table)
unfolding update_row
update_row-eq-some id lease change table {after} h = go (lookup id table) refl h
  where
    go :
        (found : Option OutboxRow)
        → lookup id table ≡ found
        → elim found [
          | none ↦ none
          | some row ↦ if holds_lease lease row then some (insert id (change row) table) else none
        ]
          ≡ some after
        → (row : OutboxRow) × (lookup id table ≡ some row)
          × (holds_lease lease row ≡ true)
          × (after ≡ insert id (change row) table)
    go none e k = absurd (ground (arith, k))
    go (some row) e k = elim (Bool-cases (holds_lease lease row)) [
      | inl held ↦ (row, e, held, some_injective (sym k ∙ rw held))
      | inr lost ↦ absurd (ground (arith, k, lost))
    ]

pub lookup-insert_or_ignore :
    (id other : String) (row : OutboxRow) (table : OutboxTable)
    → lookup id (insert_or_ignore other row table)
      ≡ or_new (not (clashes other row table) && (other == id)) row (lookup id table)
unfolding insert_or_ignore
lookup-insert_or_ignore id other row table = ground (arith, lookup-append id other row table)

pub has_key-insert_or_ignore :
    (id : String) (row : OutboxRow) (table : OutboxTable)
    → contains id table ≡ false
    → has_key row.idempotency_key (insert_or_ignore id row table) ≡ true
unfolding insert_or_ignore
has_key-insert_or_ignore id row table fresh =
    ground (arith, has_key-append_self row.idempotency_key id row table refl)

pub KeepsKeys-insert_or_ignore :
    (id : String) (row : OutboxRow) (table : OutboxTable)
    → KeepsKeys table (insert_or_ignore id row table)
unfolding insert_or_ignore
KeepsKeys-insert_or_ignore id row table key h =
    ground (arith, h, KeepsKeys-append ((id, row) ∷ []) table key)

pub fresh-insert :
    (id key : String) (old row : OutboxRow) (table : OutboxTable)
    → lookup key table ≡ some old
    → contains id table ≡ false
    → contains id (insert key row table) ≡ false
fresh-insert id key old row table found fresh =
    ground (arith, lookup-insert key id row table, eq_iff key id, ap (λ name. lookup name table))
