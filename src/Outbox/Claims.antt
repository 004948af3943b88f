-- ===== src/Outbox/Claims.antt =====
-- What a claim hands out: rows of the table, and none twice before its lease ends.
use maibot_lunagentic_resear.Prelude.{
  Bool-cases, All, ℕ, zero, suc, ◌+◌, String, ◌≡◌, refl, inl, inr, ◌&&◌, some, [], ◌∷◌, arith,
  eq_iff, eq_refl,
}
use maibot_lunagentic_resear.Dict.{lookup, contains}
use maibot_lunagentic_resear.Dict.Keys.{Absent, HasDistinctKeys}
use maibot_lunagentic_resear.Outbox.{
  OutboxRow, OutboxTable, is_in_flight, comes_first, insert_in_order, in_order, limited, lease_rows,
  leased_rows, chosen_rows, claim_due_outbox,
}
use maibot_lunagentic_resear.Outbox.Delivery.{claims_of}
use maibot_lunagentic_resear.Outbox.Held.{AreHeld, Keeps, Keeps-lease_rows}

-- The entries of a table stand in it under their ids.
abbrev pub AreEntries : OutboxTable → OutboxTable → Type 0
AreEntries table entries =
    All (λ (entry : String × OutboxRow). lookup entry.0 table ≡ some entry.1) entries

AreEntries-cons :
    (id : String) (row : OutboxRow) (table entries : OutboxTable)
    → Absent id entries
    → AreEntries table entries
    → AreEntries ((id, row) ∷ table) entries
unfolding lookup
AreEntries-cons id row table [] absent h = tt
AreEntries-cons id row table ((k, other) ∷ entries) absent h = (
  ground (arith, h.0, absent.0, eq_iff id k, eq_iff k id),
  AreEntries-cons id row table entries absent.1 h.1,
)

pub AreEntries-self : (table : OutboxTable) → HasDistinctKeys table → AreEntries table table
unfolding lookup
AreEntries-self [] u = tt
AreEntries-self ((id, row) ∷ table) u =
    (rw (eq_refl id), AreEntries-cons id row table table u.0 (AreEntries-self table u.1))

module _ (P : String × OutboxRow → Type 0) where
  pub All-leased_rows :
      (chosen table : OutboxTable) → All P table → All P (leased_rows chosen table)
  unfolding leased_rows
  All-leased_rows chosen [] h = tt
  All-leased_rows chosen ((id, row) ∷ table) h =
      elim (Bool-cases (contains id chosen && is_in_flight row.status)) [
        | inl e ↦ rw e (h.0, All-leased_rows chosen table h.1)
        | inr e ↦ rw e (All-leased_rows chosen table h.1)
      ]

  All-insert_in_order :
      (entry : String × OutboxRow) (table : OutboxTable)
      → P entry
      → All P table
      → All P (insert_in_order entry table)
  unfolding insert_in_order
  All-insert_in_order entry [] p h = (p, tt)
  All-insert_in_order entry (other ∷ table) p h = elim (Bool-cases (comes_first entry other)) [
    | inl e ↦ rw e (p, h)
    | inr e ↦ rw e (h.0, All-insert_in_order entry table p h.1)
  ]

  pub All-in_order : (table : OutboxTable) → All P table → All P (in_order table)
  unfolding in_order
  All-in_order [] h = tt
  All-in_order (entry ∷ table) h =
      All-insert_in_order entry (in_order table) h.0 (All-in_order table h.1)

  pub All-limited : (limit : ℕ) (table : OutboxTable) → All P table → All P (limited limit table)
  unfolding limited
  All-limited zero table h = tt
  All-limited (suc limit) [] h = tt
  All-limited (suc limit) (entry ∷ table) h = (h.0, All-limited limit table h.1)

AreHeld-claims_of :
    (lease_until : ℕ) (rows table : OutboxTable)
    → AreEntries table rows
    → AreHeld (claims_of lease_until rows) table
unfolding claims_of
AreHeld-claims_of lease_until [] table h = tt
AreHeld-claims_of lease_until ((id, row) ∷ rows) table h =
    (rw h.0 (refl, refl), AreHeld-claims_of lease_until rows table h.1)

pub AreHeld-claim_due_outbox :
    (now lease_seconds limit : ℕ) (table : OutboxTable)
    → HasDistinctKeys table
    → AreHeld
        (claims_of (now + lease_seconds) (claim_due_outbox now lease_seconds limit table).1)
        (claim_due_outbox now lease_seconds limit table).0
unfolding claim_due_outbox
AreHeld-claim_due_outbox now lease_seconds limit table u =
    let chosen = chosen_rows now limit table in
    let after = lease_rows chosen now (now + lease_seconds) table in
    let keeps : Keeps table after = Keeps-lease_rows chosen now (now + lease_seconds) table in
    AreHeld-claims_of (now + lease_seconds) (in_order (leased_rows chosen after)) after (
      All-in_order _ (leased_rows chosen after)
        (All-leased_rows _ chosen after (AreEntries-self after (keeps.distinct u))))

pub claim_due_outbox-HasDistinctKeys :
    (now lease_seconds limit : ℕ) (table : OutboxTable)
    → HasDistinctKeys table
    → HasDistinctKeys (claim_due_outbox now lease_seconds limit table).0
unfolding claim_due_outbox
claim_due_outbox-HasDistinctKeys now lease_seconds limit table =
    (Keeps-lease_rows (chosen_rows now limit table) now (now + lease_seconds) table).distinct
