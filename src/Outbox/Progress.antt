-- ===== src/Outbox/Progress.antt =====
-- What is due is claimed.
use maibot_lunagentic_resear.Prelude.{
  Bool-cases, some_injective, length, ℕ, zero, suc, ◌+◌, ◌≤◌, String, ◌≡◌, refl, sym, ap, ◌∙◌, ◌⊎◌,
  inl, inr, Bool, true, ◌&&◌, ◌||◌, some, [], ◌∷◌, arith, ◌==◌, eq_iff,
}
use maibot_lunagentic_resear.Dict.{lookup, contains}
use maibot_lunagentic_resear.Outbox.{
  pending, in_flight, OutboxRow, OutboxTable, is_in_flight, is_due, due_rows, insert_in_order,
  in_order, limited, leased, lease_rows, leased_rows, chosen_rows, claim_due_outbox,
}
use maibot_lunagentic_resear.Outbox.Rows.{lookup-lease_rows}

abbrev entry_is : String → String × OutboxRow → Bool
entry_is id entry = entry.0 == id

contains-cons :
    (id : String) (entry : String × OutboxRow) (table : OutboxTable)
    → contains id (entry ∷ table) ≡ entry_is id entry || contains id table
unfolding lookup
contains-cons id (k, row) table = ground arith

contains-due_rows :
    (now : ℕ) (id : String) (table : OutboxTable) {row : OutboxRow}
    → lookup id table ≡ some row
    → is_due now row ≡ true
    → contains id (due_rows now table) ≡ true
unfolding lookup due_rows
contains-due_rows now id [] found due = absurd (ground (arith, found))
contains-due_rows now id ((k, first) ∷ table) {row} found due = elim (Bool-cases (k == id)) [
  | inl e ↦
      let same : first ≡ row = some_injective (rw e at found) in
      rw (ap (λ r. is_due now r) same ∙ due, contains-cons id (k, first) (due_rows now table), e)
        refl
  | inr e ↦
      let later = contains-due_rows now id table (rw e at found) due in
      ground (arith, later, contains-cons id (k, first) (due_rows now table))
]

contains-insert_in_order :
    (id : String) (entry : String × OutboxRow) (table : OutboxTable)
    → contains id (insert_in_order entry table) ≡ entry_is id entry || contains id table
unfolding insert_in_order
contains-insert_in_order id entry [] = contains-cons id entry []
contains-insert_in_order id entry (other ∷ table) = ground (
  arith,
  contains-insert_in_order id entry table,
  contains-cons id entry (other ∷ table),
  contains-cons id other table,
  contains-cons id other (insert_in_order entry table),
)

contains-in_order :
    (id : String) (table : OutboxTable) → contains id (in_order table) ≡ contains id table
unfolding in_order
contains-in_order id [] = refl
contains-in_order id (entry ∷ table) =
    contains-insert_in_order id entry (in_order table)
    ∙ ap (λ b. entry_is id entry || b) (contains-in_order id table)
    ∙ sym (contains-cons id entry table)

length-insert_in_order :
    (entry : String × OutboxRow) (table : OutboxTable)
    → length (insert_in_order entry table) ≡ suc (length table)
unfolding insert_in_order
length-insert_in_order entry [] = refl
length-insert_in_order entry (other ∷ table) = ground (arith, length-insert_in_order entry table)

length-in_order : (table : OutboxTable) → length (in_order table) ≡ length table
unfolding in_order
length-in_order [] = refl
length-in_order (entry ∷ table) =
    omega (arith, length-insert_in_order entry (in_order table), length-in_order table)

limited_enough :
    (limit : ℕ) (table : OutboxTable) → length table ≤ limit → limited limit table ≡ table
unfolding limited
limited_enough zero [] h = refl
limited_enough zero (entry ∷ table) h = absurd (omega (arith, h))
limited_enough (suc limit) [] h = refl
limited_enough (suc limit) (entry ∷ table) h =
    ap (λ rest. entry ∷ rest) (limited_enough limit table (omega (arith, h)))

contains-leased_rows :
    (chosen table : OutboxTable) (id : String) {row : OutboxRow}
    → contains id chosen ≡ true
    → lookup id table ≡ some row
    → row.status ≡ in_flight
    → contains id (leased_rows chosen table) ≡ true
unfolding lookup leased_rows
contains-leased_rows chosen [] id is_chosen found flies = absurd (ground (arith, found))
contains-leased_rows chosen ((k, first) ∷ table) id {row} is_chosen found flies =
    elim (Bool-cases (k == id)) [
      | inl e ↦
          let same : first ≡ row = some_injective (rw e at found) in
          let chosen_here : contains k chosen ≡ true =
            ap (λ name. contains name chosen) ((eq_iff k id).0 e) ∙ is_chosen in
          let kept : contains k chosen && is_in_flight first.status ≡ true =
            ground (arith, chosen_here, ap (λ (r : OutboxRow). r.status) same, flies) in
          rw kept (contains-cons id (k, first) (leased_rows chosen table) ∙ rw e)
      | inr e ↦
          let later = contains-leased_rows chosen table id is_chosen (rw e at found) flies in
          ground (arith, later, contains-cons id (k, first) (leased_rows chosen table))
    ]

-- A notification that is pending or in flight is handed out by a claim at or after its next attempt,
-- which in flight is the end of its lease, if no more rows are due than the limit: not even a
-- notification whose worker has died is forgotten.
pub claim_due_outbox-claims :
    (now lease_seconds limit : ℕ) (table : OutboxTable) (id : String) (row : OutboxRow)
    → lookup id table ≡ some row
    → (row.status ≡ pending) ⊎ (row.status ≡ in_flight)
    → row.next_attempt_at ≤ now
    → length (due_rows now table) ≤ limit
    → contains id (claim_due_outbox now lease_seconds limit table).1 ≡ true
unfolding claim_due_outbox
claim_due_outbox-claims now lease_seconds limit table id row found waits reached enough =
    let due : is_due now row ≡ true = elim waits [
      | inl e ↦ ground (arith, e, reached)
      | inr e ↦ ground (arith, e, reached)
    ] in
    let chosen = chosen_rows now limit table in
    let lease_until = now + lease_seconds in
    let after = lease_rows chosen now lease_until table in
    let is_chosen : contains id chosen ≡ true =
      ap (contains id) (
        limited_enough limit (in_order (due_rows now table))
          (omega (arith, enough, length-in_order (due_rows now table))))
      ∙ contains-in_order id (due_rows now table)
      ∙ contains-due_rows now id table found due in
    let held : lookup id after ≡ some (leased lease_until row) =
      rw (lookup-lease_rows chosen now lease_until id table, found, is_chosen, due) refl in
    contains-in_order id (leased_rows chosen after)
    ∙ contains-leased_rows chosen after id is_chosen held refl
