-- ===== src/Outbox/Moves.antt =====
-- Rows that change alone make moves that are allowed.
use maibot_lunagentic_resear.Prelude.{
  if◌then◌else◌, Bool-cases, ℕ, String, ◌≡◌, refl, inl, inr, Bool, true, Option, none, some, arith,
  ◌==◌, eq_iff,
}
use maibot_lunagentic_resear.Dict.{lookup}
use maibot_lunagentic_resear.Outbox.{pending, OutboxRow, OutboxTable}
use maibot_lunagentic_resear.Outbox.Delivery.{trigger_key}
use maibot_lunagentic_resear.Outbox.Rows.{or_new, changed, lease_change, cancel_change}
use maibot_lunagentic_resear.Outbox.Phases.{allows, row_phase}

pub allows-same :
    (o : Option OutboxRow) (f g : String → Bool)
    → ((key : String) → f key ≡ true → g key ≡ true)
    → allows (row_phase o f) (row_phase o g) ≡ true
unfolding allows
allows-same none f g keep = refl
allows-same (some row) f g keep = ground (arith, keep (trigger_key row))

pub allows-new :
    (o : Option OutboxRow) (is_new : Bool) (row : OutboxRow) (f g : String → Bool)
    → ((key : String) → f key ≡ true → g key ≡ true)
    → row.status ≡ pending
    → allows (row_phase o f) (row_phase (or_new is_new row o) g) ≡ true
unfolding allows
allows-new none is_new row f g keep e = ground arith
allows-new (some old) is_new row f g keep e = allows-same (some old) f g keep

pub allows-lease :
    (chosen : OutboxTable) (now lease_until : ℕ) (id : String) (o : Option OutboxRow)
    (f g : String → Bool)
    → ((key : String) → f key ≡ true → g key ≡ true)
    → allows (row_phase o f) (row_phase (changed (lease_change chosen now lease_until id) o) g)
      ≡ true
unfolding allows
allows-lease chosen now lease_until id none f g keep = refl
allows-lease chosen now lease_until id (some row) f g keep = ground (arith, keep (trigger_key row))

pub allows-cancel :
    (round_id key : String) (o : Option OutboxRow) (f g : String → Bool)
    → ((name : String) → f name ≡ true → g name ≡ true)
    → allows (row_phase o f) (row_phase (changed (cancel_change round_id key) o) g) ≡ true
unfolding allows
allows-cancel round_id key none f g keep = refl
allows-cancel round_id key (some row) f g keep = ground (arith, keep (trigger_key row))

-- Where one row is written.
pub allows-write :
    (id key : String) (old row : OutboxRow) (table : OutboxTable) (f g : String → Bool)
    → ((name : String) → f name ≡ true → g name ≡ true)
    → lookup key table ≡ some old
    → allows (row_phase (some old) f) (row_phase (some row) g) ≡ true
    → allows
        (row_phase (lookup id table) f)
        (row_phase (if key == id then some row else lookup id table) g)
      ≡ true
allows-write id key old row table f g keep found move = elim (Bool-cases (key == id)) [
  | inl e ↦ rw (e, ← ((eq_iff key id).0 e), found) move
  | inr e ↦ rw e (allows-same (lookup id table) f g keep)
]
