-- ===== src/Coverage/Counts.antt =====
-- How many branches a coverage set lacks.
use maibot_lunagentic_resear.Prelude.{
  if◌then◌else◌, Bool-cases, All, ℕ, suc, String, ◌≡◌, refl, ap, inl, inr, Bool, true, false, ◌&&◌,
  ◌||◌, List, [], ◌∷◌, arith, ◌==◌, eq_iff, eq_refl,
}
use maibot_lunagentic_resear.Dict.{Dict, lookup, contains}
use maibot_lunagentic_resear.Dict.Totals.{lookup-insert}
use maibot_lunagentic_resear.Coverage.{
  CoverageSummary, is_checkpoint, is_available, is_no_later, insert_by_time, by_time, listed,
  with_latest, latest_checkpoints, missing, build_coverage,
}

-- The active branches without a usable checkpoint, counted directly.
abbrev pub is_usable_for : String → CoverageSummary → Bool
is_usable_for branch_id summary =
    summary.branch_id == branch_id && is_checkpoint summary.kind && is_available summary

unfoldable pub has_checkpoint_of : String → List CoverageSummary → Bool
has_checkpoint_of branch_id [] = false
has_checkpoint_of branch_id (summary ∷ summaries) =
    is_usable_for branch_id summary || has_checkpoint_of branch_id summaries

unfoldable pub without_checkpoint : List CoverageSummary → List String → ℕ
without_checkpoint summaries [] = 0
without_checkpoint summaries (branch_id ∷ active) =
    if has_checkpoint_of branch_id summaries
    then without_checkpoint summaries active
    else suc (without_checkpoint summaries active)

or_swap : (a b c : Bool) → a || (b || c) ≡ b || (a || c)
or_swap false b c = refl
or_swap true true c = refl
or_swap true false c = refl

has_checkpoint_of-insert_by_time :
    (branch_id : String) (summary : CoverageSummary) (summaries : List CoverageSummary)
    → has_checkpoint_of branch_id (insert_by_time summary summaries)
      ≡ has_checkpoint_of branch_id (summary ∷ summaries)
unfolding has_checkpoint_of insert_by_time
has_checkpoint_of-insert_by_time branch_id summary [] = refl
has_checkpoint_of-insert_by_time branch_id summary (other ∷ summaries) =
    elim (Bool-cases (is_no_later summary other)) [
      | inl e ↦ rw e refl
      | inr e ↦
          rw (e, has_checkpoint_of-insert_by_time branch_id summary summaries)
            (or_swap (is_usable_for branch_id other) (is_usable_for branch_id summary)
              (has_checkpoint_of branch_id summaries))
    ]

has_checkpoint_of-by_time :
    (branch_id : String) (summaries : List CoverageSummary)
    → has_checkpoint_of branch_id (by_time summaries) ≡ has_checkpoint_of branch_id summaries
unfolding has_checkpoint_of by_time
has_checkpoint_of-by_time branch_id [] = refl
has_checkpoint_of-by_time branch_id (summary ∷ summaries) = ground (
  arith,
  has_checkpoint_of-insert_by_time branch_id summary (by_time summaries),
  has_checkpoint_of-by_time branch_id summaries,
)

contains-latest_checkpoints :
    (branch_id : String) (active : List String) (latest : Dict CoverageSummary)
    (summaries : List CoverageSummary)
    → listed branch_id active ≡ true
    → contains branch_id (latest_checkpoints active latest summaries)
      ≡ contains branch_id latest || has_checkpoint_of branch_id summaries
unfolding latest_checkpoints has_checkpoint_of
contains-latest_checkpoints branch_id active latest [] h = ground arith
contains-latest_checkpoints branch_id active latest (summary ∷ summaries) h = ground (
  arith,
  contains-latest_checkpoints branch_id active (with_latest active summary latest) summaries h,
  lookup-insert summary.branch_id branch_id summary latest,
  eq_iff summary.branch_id branch_id,
  ap (λ name. listed name active),
  ap (λ name. lookup name latest),
)

missing-eq :
    (active all : List String) (summaries : List CoverageSummary)
    → All (λ name. listed name all ≡ true) active
    → missing (latest_checkpoints all [] (by_time summaries)) active
      ≡ without_checkpoint summaries active
unfolding missing without_checkpoint lookup
missing-eq [] all summaries h = refl
missing-eq (branch_id ∷ active) all summaries h = ground (
  arith,
  contains-latest_checkpoints branch_id all [] (by_time summaries) h.0,
  has_checkpoint_of-by_time branch_id summaries,
  missing-eq active all summaries h.1,
)

All-listed_cons :
    (name : String) (names all : List String)
    → All (λ n. listed n all ≡ true) names
    → All (λ n. listed n (name ∷ all) ≡ true) names
unfolding listed
All-listed_cons name [] all h = tt
All-listed_cons name (n ∷ names) all h = (ground (arith, h.0), All-listed_cons name names all h.1)

All-listed : (names : List String) → All (λ n. listed n names ≡ true) names
unfolding listed
All-listed [] = tt
All-listed (name ∷ names) =
    (ground (arith, eq_refl name), All-listed_cons name names names (All-listed names))

-- The number of unavailable branches, which the code counts in the dict of the newest checkpoints, is
-- the number of active branches of which no summary is a usable checkpoint.
pub build_coverage-unavailable :
    (summaries : List CoverageSummary) (active : List String)
    → (build_coverage summaries active).unavailable_count ≡ without_checkpoint summaries active
unfolding build_coverage
build_coverage-unavailable summaries active = missing-eq active active summaries (All-listed active)
