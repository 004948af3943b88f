-- ===== src/Outbox/Leases.antt =====
-- Two claims hand out no notification twice while the lease of the first lasts.
use mathlib.Core.Path.{subst}
use maibot_lunagentic_resear.Prelude.{
  Bool-cases, Option-cases, some_injective, All, ℕ, ◌+◌, ◌<◌, String, ◌≡◌, refl, sym, ap, ◌∙◌, inl,
  inr, true, false, ◌&&◌, some, [], ◌∷◌, arith, ◌==◌, eq_iff,
}
use maibot_lunagentic_resear.Dict.{lookup, contains}
use maibot_lunagentic_resear.Dict.Keys.{HasDistinctKeys}
use maibot_lunagentic_resear.Outbox.{
  OutboxRow, OutboxTable, is_in_flight, is_due, due_rows, in_order, leased, lease_rows, leased_rows,
  chosen_rows, claim_due_outbox,
}
use maibot_lunagentic_resear.Outbox.Rows.{lookup-lease_rows}
use maibot_lunagentic_resear.Outbox.Claims.{
  AreEntries, AreEntries-self, All-in_order, All-limited, claim_due_outbox-HasDistinctKeys,
}

All-lookup :
    (P : String × OutboxRow → Type 0) (id : String) (entries : OutboxTable) {row : OutboxRow}
    → All P entries
    → lookup id entries ≡ some row
    → P (id, row)
unfolding lookup
All-lookup P id [] h found = absurd (ground (arith, found))
All-lookup P id ((k, first) ∷ entries) {row} h found = elim (Bool-cases (k == id)) [
  | inl e ↦
      subst (λ name. P (name, row)) ((eq_iff k id).0 e)
        (subst (λ r. P (k, r)) (some_injective (rw e at found)) h.0)
  | inr e ↦ All-lookup P id entries h.1 (rw e at found)
]

contains-some :
    (id : String) (entries : OutboxTable)
    → contains id entries ≡ true
    → (row : OutboxRow) × (lookup id entries ≡ some row)
contains-some id entries h = elim (Option-cases (lookup id entries)) [
  | inl e ↦ absurd (ground (arith, h, e))
  | inr found ↦ found
]

-- A row that may be claimed, under its id.
abbrev IsClaimable : ℕ → OutboxTable → String × OutboxRow → Type 0
IsClaimable now table (id, row) = (lookup id table ≡ some row) × (is_due now row ≡ true)

due_rows-IsClaimable :
    (now : ℕ) (table entries : OutboxTable)
    → AreEntries table entries
    → All (IsClaimable now table) (due_rows now entries)
unfolding due_rows
due_rows-IsClaimable now table [] h = tt
due_rows-IsClaimable now table ((id, row) ∷ entries) h = elim (Bool-cases (is_due now row)) [
  | inl e ↦ rw e ((h.0, e), due_rows-IsClaimable now table entries h.1)
  | inr e ↦ rw e (due_rows-IsClaimable now table entries h.1)
]

leased_rows-chosen :
    (chosen table : OutboxTable)
    → All
        (λ (entry : String × OutboxRow). contains entry.0 chosen ≡ true)
        (leased_rows chosen table)
unfolding leased_rows
leased_rows-chosen chosen [] = tt
leased_rows-chosen chosen ((id, row) ∷ table) =
    elim (Bool-cases (contains id chosen && is_in_flight row.status)) [
      | inl e ↦ rw e (ground (arith, e), leased_rows-chosen chosen table)
      | inr e ↦ rw e (leased_rows-chosen chosen table)
    ]

-- A notification that a claim hands out could be claimed, and has the new lease after it.
claimed-IsClaimable :
    (now lease_seconds limit : ℕ) (table : OutboxTable) (id : String)
    → HasDistinctKeys table
    → contains id (claim_due_outbox now lease_seconds limit table).1 ≡ true
    → (row : OutboxRow) × IsClaimable now table (id, row)
      × (lookup id (claim_due_outbox now lease_seconds limit table).0
          ≡ some (leased (now + lease_seconds) row))
unfolding claim_due_outbox
claimed-IsClaimable now lease_seconds limit table id u h =
    let chosen = chosen_rows now limit table in
    let lease_until = now + lease_seconds in
    let after = lease_rows chosen now lease_until table in
    let (given, is_given) = contains-some id (in_order (leased_rows chosen after)) h in
    let is_chosen : contains id chosen ≡ true =
      All-lookup (λ entry. contains entry.0 chosen ≡ true) id (in_order (leased_rows chosen after))
        (All-in_order _ (leased_rows chosen after) (leased_rows-chosen chosen after)) is_given in
    let (row, at_id) = contains-some id chosen is_chosen in
    let claimable : IsClaimable now table (id, row) =
      All-lookup (IsClaimable now table) id chosen
        (All-limited _ limit (in_order (due_rows now table)) (
          All-in_order _ (due_rows now table)
            (due_rows-IsClaimable now table table (AreEntries-self table u))))
        at_id in
    (
      row,
      claimable,
      rw (lookup-lease_rows chosen now lease_until id table, claimable.0, is_chosen, claimable.1)
          refl,
    )

-- In a table whose ids are distinct, a second claim that comes right after a first one, and before the
-- lease of the first ends, hands out nothing that the first has handed out, whatever the limits.
pub claim_due_outbox-exclusive :
    (now lease_seconds limit later later_seconds later_limit : ℕ) (table : OutboxTable)
    (id : String)
    → HasDistinctKeys table
    → later < now + lease_seconds
    → contains id (claim_due_outbox now lease_seconds limit table).1 ≡ true
    → contains id
        (claim_due_outbox later later_seconds later_limit
          (claim_due_outbox now lease_seconds limit table).0).1
      ≡ false
claim_due_outbox-exclusive now lease_seconds limit later later_seconds later_limit table id u before
      h =
    let after = (claim_due_outbox now lease_seconds limit table).0 in
    elim (Bool-cases (contains id (claim_due_outbox later later_seconds later_limit after).1)) [
      | inr e ↦ e
      | inl again ↦
          let (row, _, held) = claimed-IsClaimable now lease_seconds limit table id u h in
          let (other, due, _) =
            claimed-IsClaimable later later_seconds later_limit after id
              (claim_due_outbox-HasDistinctKeys now lease_seconds limit table u) again in
          let same : leased (now + lease_seconds) row ≡ other = some_injective (sym held ∙ due.0) in
          absurd (ground (arith, before, ap (λ r. is_due later r) same, due.1))
    ]
