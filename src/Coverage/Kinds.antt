-- ===== src/Coverage/Kinds.antt =====
-- What a coverage set holds, and the kind of its report.
use maibot_lunagentic_resear.Prelude.{
  Bool-cases, length, All, All-append, String, ◌≡◌, refl, sym, ◌↔◌, inl, inr, Bool, true, false,
  ◌&&◌, ◌||◌, List, [], ◌∷◌, ◌++◌, arith, ◌==◌,
}
use maibot_lunagentic_resear.Dict.{Dict, lookup, insert}
use maibot_lunagentic_resear.Coverage.{
  SummaryKind, formalization_summary, checkpoint_summary, branch_final_summary, task_final_summary,
  final_report, CoverageSummary, is_checkpoint, is_branch_final, is_terminal_summary, is_available,
  any_checkpoint, has_checkpoint, is_no_later, insert_by_time, by_time, listed, terminal_items,
  replaces, is_candidate, with_latest, latest_checkpoints, values_of, build_coverage,
  freeze_report_kind,
}

-- Usable, and either final or the checkpoint of an active branch.
abbrev pub is_covered : List String → CoverageSummary → Bool
is_covered active summary =
    is_available summary
    && (is_terminal_summary summary
        || (is_checkpoint summary.kind && listed summary.branch_id active))

module _ (P : CoverageSummary → Type 0) where
  All-insert_by_time :
      (summary : CoverageSummary) (summaries : List CoverageSummary)
      → P summary
      → All P summaries
      → All P (insert_by_time summary summaries)
  unfolding insert_by_time
  All-insert_by_time summary [] p h = (p, tt)
  All-insert_by_time summary (other ∷ summaries) p h =
      elim (Bool-cases (is_no_later summary other)) [
        | inl e ↦ rw e (p, h)
        | inr e ↦ rw e (h.0, All-insert_by_time summary summaries p h.1)
      ]

  All-by_time : (summaries : List CoverageSummary) → All P summaries → All P (by_time summaries)
  unfolding by_time
  All-by_time [] h = tt
  All-by_time (summary ∷ summaries) h =
      All-insert_by_time summary (by_time summaries) h.0 (All-by_time summaries h.1)

module _ (active : List String) where
  terminal_items-covered :
      (summaries : List CoverageSummary)
      → All (λ s. is_covered active s ≡ true) (terminal_items summaries)
  unfolding terminal_items
  terminal_items-covered [] = tt
  terminal_items-covered (summary ∷ summaries) =
      elim (Bool-cases (is_terminal_summary summary && is_available summary)) [
        | inl e ↦ rw e (ground (arith, e), terminal_items-covered summaries)
        | inr e ↦ rw e (terminal_items-covered summaries)
      ]

  values_of-insert :
      (key : String) (summary : CoverageSummary) (latest : Dict CoverageSummary)
      → is_covered active summary ≡ true
      → All (λ s. is_covered active s ≡ true) (values_of latest)
      → All (λ s. is_covered active s ≡ true) (values_of (insert key summary latest))
  unfolding values_of insert
  values_of-insert key summary [] p h = (p, tt)
  values_of-insert key summary ((k, old) ∷ latest) p h = elim (Bool-cases (k == key)) [
    | inl e ↦ rw e (p, h.1)
    | inr e ↦ rw e (h.0, values_of-insert key summary latest p h.1)
  ]

  with_latest-covered :
      (summary : CoverageSummary) (latest : Dict CoverageSummary)
      → All (λ s. is_covered active s ≡ true) (values_of latest)
      → All (λ s. is_covered active s ≡ true) (values_of (with_latest active summary latest))
  with_latest-covered summary latest h =
      elim (Bool-cases
        (is_candidate active summary && replaces summary (lookup summary.branch_id latest))) [
          | inl e ↦ rw e (values_of-insert summary.branch_id summary latest (ground (arith, e)) h)
          | inr e ↦ rw e h
        ]

  latest_checkpoints-covered :
      (latest : Dict CoverageSummary) (summaries : List CoverageSummary)
      → All (λ s. is_covered active s ≡ true) (values_of latest)
      → All
          (λ s. is_covered active s ≡ true)
          (values_of (latest_checkpoints active latest summaries))
  unfolding latest_checkpoints
  latest_checkpoints-covered latest [] h = h
  latest_checkpoints-covered latest (summary ∷ summaries) h =
      latest_checkpoints-covered (with_latest active summary latest) summaries
        (with_latest-covered summary latest h)

  -- Every item of a coverage set is usable, and is final or the checkpoint of an active branch.
  pub build_coverage-covered :
      (summaries : List CoverageSummary)
      → All (λ s. is_covered active s ≡ true) (build_coverage summaries active).items
  unfolding build_coverage
  build_coverage-covered summaries =
      All-by_time _ (terminal_items ordered ++ values_of (latest_checkpoints active [] ordered)) (
        All-append _ (terminal_items ordered) (values_of (latest_checkpoints active [] ordered))
          (terminal_items-covered ordered) (latest_checkpoints-covered [] ordered nothing))
    where
      ordered : List CoverageSummary
      ordered = by_time summaries

      nothing : All (λ s. is_covered active s ≡ true) (values_of [])
      nothing = unfold values_of in tt

final_or_checkpoint :
    (kind : SummaryKind) → is_branch_final kind ≡ true → is_checkpoint kind ≡ false
final_or_checkpoint formalization_summary h = refl
final_or_checkpoint checkpoint_summary h = sym h
final_or_checkpoint branch_final_summary h = refl
final_or_checkpoint task_final_summary h = refl

no_checkpoint :
    (items : List CoverageSummary)
    → All (λ s. is_covered [] s ≡ true) items
    → any_checkpoint items ≡ false
unfolding any_checkpoint listed
no_checkpoint [] h = refl
no_checkpoint (summary ∷ items) h =
    ground (arith, h.0, final_or_checkpoint summary.kind, no_checkpoint items h.1)

-- The kind that is frozen with a coverage set is FINAL exactly if no branch is active: the test for a
-- checkpoint in the coverage, which the code makes as well, never changes it.
pub freeze_report_kind-build_coverage :
    (summaries : List CoverageSummary) (active : List String)
    → (freeze_report_kind (length active) (has_checkpoint (build_coverage summaries active))
        ≡ final_report)
      ↔ (active ≡ [])
unfolding freeze_report_kind
freeze_report_kind-build_coverage summaries [] = (
  λ h. refl,
  λ h.
      rw (no_checkpoint (build_coverage summaries []).items (build_coverage-covered [] summaries))
        refl,
)
freeze_report_kind-build_coverage summaries (branch_id ∷ active) =
    (λ h. absurd (ground (arith, h)), λ h. cc)
