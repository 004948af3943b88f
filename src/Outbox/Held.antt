-- ===== src/Outbox/Held.antt =====
-- What is claimed is in the table, and the ids of the table stay distinct.
use maibot_lunagentic_resear.Prelude.{
  Bool-cases, some_injective, All, ℕ, String, ◌≡◌, refl, ◌∙◌, inl, inr, Bool, false, not, ◌&&◌,
  Option, none, some, List, [], ◌∷◌, ◌++◌, arith, ◌==◌, eq_iff,
}
use maibot_lunagentic_resear.Dict.{lookup, contains, insert}
use maibot_lunagentic_resear.Dict.Totals.{lookup-insert}
use maibot_lunagentic_resear.Dict.Keys.{Absent, HasDistinctKeys, HasDistinctKeys-snoc}
use maibot_lunagentic_resear.Outbox.{
  OutboxRow, OutboxTable, clashes, insert_outbox, insert_or_ignore, update_row, as_delivered,
  complete_outbox_append, cancel_reminder, lease_rows,
}
use maibot_lunagentic_resear.Outbox.Delivery.{Claim}
use maibot_lunagentic_resear.Outbox.Rows.{
  or_new, lookup-append, changed, lease_change, lookup-lease_rows, cancel_change,
  lookup-cancel_reminder, update_row-eq-some, lookup-insert_or_ignore,
}
use maibot_lunagentic_resear.Outbox.Tries.{
  SameNotice, HasNotice, HasNotice-found, complete_outbox_append-eq-some,
}

-- The claimed notifications are in the table.
abbrev pub AreHeld : List Claim → OutboxTable → Type 0
AreHeld claims table =
    All (λ (claim : Claim). HasNotice claim.row (lookup claim.outbox_id table)) claims

-- No notification goes.
abbrev pub KeepsNotices : OutboxTable → OutboxTable → Type 0
KeepsNotices table after =
    (id : String) (row : OutboxRow)
    → HasNotice row (lookup id table)
    → HasNotice row (lookup id after)

pub AreHeld-KeepsNotices :
    (claims : List Claim) (table after : OutboxTable)
    → KeepsNotices table after
    → AreHeld claims table
    → AreHeld claims after
AreHeld-KeepsNotices [] table after keep h = tt
AreHeld-KeepsNotices (claim ∷ claims) table after keep h =
    (keep claim.outbox_id claim.row h.0, AreHeld-KeepsNotices claims table after keep h.1)

HasNotice-or_new :
    (is_new : Bool) (new row : OutboxRow) (o : Option OutboxRow)
    → HasNotice row o
    → HasNotice row (or_new is_new new o)
HasNotice-or_new is_new new row none h = absurd h
HasNotice-or_new is_new new row (some old) h = h

pub KeepsNotices-append :
    (id : String) (row : OutboxRow) (table : OutboxTable)
    → KeepsNotices table (table ++ (id, row) ∷ [])
KeepsNotices-append id row table key other h =
    rw (lookup-append key id row table)
      (HasNotice-or_new (id == key) row other (lookup key table) h)

pub KeepsNotices-insert_or_ignore :
    (id : String) (row : OutboxRow) (table : OutboxTable)
    → KeepsNotices table (insert_or_ignore id row table)
KeepsNotices-insert_or_ignore id row table key other h =
    rw (lookup-insert_or_ignore key id row table)
      (HasNotice-or_new (not (clashes id row table) && (id == key)) row other (lookup key table) h)

HasNotice-changed :
    (change : OutboxRow → OutboxRow) (row : OutboxRow) (o : Option OutboxRow)
    → ((other : OutboxRow) → SameNotice other (change other))
    → HasNotice row o
    → HasNotice row (changed change o)
HasNotice-changed change row none same h = absurd h
HasNotice-changed change row (some other) same h = (h.0 ∙ (same other).0, h.1 ∙ (same other).1)

pub KeepsNotices-lease_rows :
    (chosen : OutboxTable) (now lease_until : ℕ) (table : OutboxTable)
    → KeepsNotices table (lease_rows chosen now lease_until table)
KeepsNotices-lease_rows chosen now lease_until table key row h =
    rw (lookup-lease_rows chosen now lease_until key table) (
      HasNotice-changed (lease_change chosen now lease_until key) row (lookup key table)
        (λ other. ground arith) h)

pub KeepsNotices-cancel_reminder :
    (round_id name : String) (table : OutboxTable)
    → KeepsNotices table (cancel_reminder round_id name table)
KeepsNotices-cancel_reminder round_id name table key row h =
    rw (lookup-cancel_reminder round_id name key table) (
      HasNotice-changed (cancel_change round_id name) row (lookup key table) (λ other. ground arith)
        h)

KeepsNotices-insert :
    (id : String) (old row : OutboxRow) (table : OutboxTable)
    → lookup id table ≡ some old
    → SameNotice old row
    → KeepsNotices table (insert id row table)
KeepsNotices-insert id old row table found same key other h = elim (Bool-cases (id == key)) [
  | inl e ↦
      let known = HasNotice-found other old h (rw (← ((eq_iff id key).0 e)) found) in
      rw (lookup-insert id key row table, e) (known.0 ∙ same.0, known.1 ∙ same.1)
  | inr e ↦ rw (lookup-insert id key row table, e) h
]

pub Absent-of_contains :
    (id : String) (table : OutboxTable) → contains id table ≡ false → Absent id table
unfolding lookup
Absent-of_contains id [] h = tt
Absent-of_contains id ((k, row) ∷ table) h =
    (ground (arith, h), Absent-of_contains id table (ground (arith, h)))

Absent-insert :
    (other id : String) (old row : OutboxRow) (table : OutboxTable)
    → lookup id table ≡ some old
    → Absent other table
    → Absent other (insert id row table)
unfolding insert lookup
Absent-insert other id old row [] found h = absurd (ground (arith, found))
Absent-insert other id old row ((k, first) ∷ table) found h = elim (Bool-cases (k == id)) [
  | inl e ↦ rw e (h.0, h.1)
  | inr e ↦ rw e (h.0, Absent-insert other id old row table (rw e at found) h.1)
]

HasDistinctKeys-insert :
    (id : String) (old row : OutboxRow) (table : OutboxTable)
    → lookup id table ≡ some old
    → HasDistinctKeys table
    → HasDistinctKeys (insert id row table)
unfolding insert lookup
HasDistinctKeys-insert id old row [] found u = absurd (ground (arith, found))
HasDistinctKeys-insert id old row ((k, first) ∷ table) found u = elim (Bool-cases (k == id)) [
  | inl e ↦ rw e (u.0, u.1)
  | inr e ↦
      let later = rw e at found in
      rw e (
        Absent-insert k id old row table later u.0,
        HasDistinctKeys-insert id old row table later u.1,
      )
]

Absent-lease_rows :
    (id : String) (chosen : OutboxTable) (now lease_until : ℕ) (table : OutboxTable)
    → Absent id table
    → Absent id (lease_rows chosen now lease_until table)
unfolding lease_rows
Absent-lease_rows id chosen now lease_until [] h = tt
Absent-lease_rows id chosen now lease_until ((k, row) ∷ table) h =
    (h.0, Absent-lease_rows id chosen now lease_until table h.1)

HasDistinctKeys-lease_rows :
    (chosen : OutboxTable) (now lease_until : ℕ) (table : OutboxTable)
    → HasDistinctKeys table
    → HasDistinctKeys (lease_rows chosen now lease_until table)
unfolding lease_rows
HasDistinctKeys-lease_rows chosen now lease_until [] u = tt
HasDistinctKeys-lease_rows chosen now lease_until ((k, row) ∷ table) u = (
  Absent-lease_rows k chosen now lease_until table u.0,
  HasDistinctKeys-lease_rows chosen now lease_until table u.1,
)

Absent-cancel_reminder :
    (id round_id name : String) (table : OutboxTable)
    → Absent id table
    → Absent id (cancel_reminder round_id name table)
unfolding cancel_reminder
Absent-cancel_reminder id round_id name [] h = tt
Absent-cancel_reminder id round_id name ((k, row) ∷ table) h =
    (h.0, Absent-cancel_reminder id round_id name table h.1)

HasDistinctKeys-cancel_reminder :
    (round_id name : String) (table : OutboxTable)
    → HasDistinctKeys table
    → HasDistinctKeys (cancel_reminder round_id name table)
unfolding cancel_reminder
HasDistinctKeys-cancel_reminder round_id name [] u = tt
HasDistinctKeys-cancel_reminder round_id name ((k, row) ∷ table) u = (
  Absent-cancel_reminder k round_id name table u.0,
  HasDistinctKeys-cancel_reminder round_id name table u.1,
)

HasDistinctKeys-insert_or_ignore :
    (id : String) (row : OutboxRow) (table : OutboxTable)
    → HasDistinctKeys table
    → HasDistinctKeys (insert_or_ignore id row table)
unfolding insert_or_ignore
HasDistinctKeys-insert_or_ignore id row table u = elim (Bool-cases (clashes id row table)) [
  | inl e ↦ rw e u
  | inr e ↦
      rw e (HasDistinctKeys-snoc id row table u (Absent-of_contains id table (ground (arith, e))))
]

-- What each statement keeps: the notifications, and that ids are distinct.
pub record Keeps (table after : OutboxTable) : Type 0 where
  pub notices : KeepsNotices table after
  pub distinct : HasDistinctKeys table → HasDistinctKeys after

pub Keeps-lease_rows :
    (chosen : OutboxTable) (now lease_until : ℕ) (table : OutboxTable)
    → Keeps table (lease_rows chosen now lease_until table)
Keeps-lease_rows chosen now lease_until table = record {
  notices = KeepsNotices-lease_rows chosen now lease_until table;
  distinct = HasDistinctKeys-lease_rows chosen now lease_until table;
}

pub Keeps-cancel_reminder :
    (round_id name : String) (table : OutboxTable)
    → Keeps table (cancel_reminder round_id name table)
Keeps-cancel_reminder round_id name table = record {
  notices = KeepsNotices-cancel_reminder round_id name table;
  distinct = HasDistinctKeys-cancel_reminder round_id name table;
}

pub Keeps-insert_outbox :
    (id : String) (row : OutboxRow) (table : OutboxTable) {after : OutboxTable}
    → insert_outbox id row table ≡ some after
    → Keeps table after
unfolding insert_outbox
Keeps-insert_outbox id row table {after} h = elim (Bool-cases (clashes id row table)) [
  | inl e ↦ absurd (ground (arith, h, e))
  | inr e ↦
      let done : table ++ (id, row) ∷ [] ≡ after = some_injective (rw e at h) in
      rw (← done) (record {
        notices = KeepsNotices-append id row table;
        distinct = λ u.
            HasDistinctKeys-snoc id row table u (Absent-of_contains id table (ground (arith, e)));
      })
]

pub Keeps-update_row :
    (id : String) (lease : Option ℕ) (change : OutboxRow → OutboxRow) (table : OutboxTable)
    {after : OutboxTable}
    → ((row : OutboxRow) → SameNotice row (change row))
    → update_row id lease change table ≡ some after
    → Keeps table after
Keeps-update_row id lease change table {after} same h =
    let (row, found, _, done) = update_row-eq-some id lease change table h in
    rw done (record {
      notices = KeepsNotices-insert id row (change row) table found (same row);
      distinct = HasDistinctKeys-insert id row (change row) table found;
    })

pub Keeps-complete_outbox_append :
    (id : String) (at : ℕ) (lease : Option ℕ) (trigger_id : String) (trigger : OutboxRow)
    (table : OutboxTable) {after : OutboxTable}
    → complete_outbox_append id at lease (trigger_id, trigger) table ≡ some after
    → Keeps table after
Keeps-complete_outbox_append id at lease trigger_id trigger table {after} h =
    let (updated, success, done) =
      complete_outbox_append-eq-some id at lease trigger_id trigger table h in
    let keeps : Keeps table updated =
      Keeps-update_row id lease (as_delivered at) table (λ row. (refl, refl)) success in
    rw done (record {
      notices = λ key row n.
          KeepsNotices-insert_or_ignore trigger_id trigger updated key row
            (keeps.notices key row n);
      distinct =
          λ u. HasDistinctKeys-insert_or_ignore trigger_id trigger updated (keeps.distinct u);
    })
