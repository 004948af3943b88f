-- ===== src/Delegation/Edges.antt =====
-- The judged edges: their indices, their order, and the parts that become children.
use mathlib.Core.Path.{subst}
use maibot_lunagentic_resear.Prelude.{
  if◌then◌else◌, is_none, length, ℤ, pos, ◌+ℤ◌, zero_add, add_zero, ok, Result-cases, ok_injective,
  ℕ, suc, ◌+◌, ◌<◌, ◌≡◌, refl, ap, inl, inr, Option, none, some, List, [], ◌∷◌, arith,
}
use maibot_lunagentic_resear.Credits.Allocation.{AllocationResult}
use maibot_lunagentic_resear.Delegation.{
  DelegationRequest, PlannedChild, PlanContext, Edge, edge_reason, edge_of, judged_edges,
  reserved_calls, first_live_index, planned_children, rejected_edges,
}

-- The edges are numbered from `i` on.
abbrev pub IsIndexed : ℕ → List Edge → Type 0
IsIndexed i [] = Unit {0}
IsIndexed i (edge ∷ edges) = (edge.index ≡ i) × IsIndexed (suc i) edges

module _ (ctx : PlanContext) where
  abbrev pub next_reserved : ℕ → ℕ → DelegationRequest → ℕ
  next_reserved i reserved raw =
      if is_none (edge_reason ctx i raw.agent_id reserved) then suc reserved else reserved

  abbrev pub judged_edge : ℕ → ℕ → DelegationRequest → Edge
  judged_edge i reserved raw = edge_of ctx i raw (edge_reason ctx i raw.agent_id reserved)

  pub judged_edges-inv :
      (i reserved : ℕ) (raw : DelegationRequest) (delegations : List DelegationRequest)
      {edges : List Edge}
      → judged_edges ctx i reserved (raw ∷ delegations) ≡ ok edges
      → (rest : List Edge) × (judged_edges ctx (suc i) (next_reserved i reserved raw) delegations
          ≡ ok rest)
        × (edges ≡ judged_edge i reserved raw ∷ rest)
  unfolding judged_edges
  judged_edges-inv i reserved raw delegations {edges} h =
      elim (Result-cases (judged_edges ctx (suc i) (next_reserved i reserved raw) delegations)) [
        | inl (rest, e) ↦ (rest, e, ground arith)
        | inr (x, e) ↦ absurd (ground arith)
      ]

  -- An accepted list of requests is judged request by request, in order.
  pub judged_edges-ok :
      (i reserved : ℕ) (delegations : List DelegationRequest) {edges : List Edge}
      → judged_edges ctx i reserved delegations ≡ ok edges
      → (length edges ≡ length delegations) × IsIndexed i edges
  unfolding judged_edges
  judged_edges-ok i reserved [] h = (ground arith, subst (IsIndexed i) (ok_injective h) tt)
  judged_edges-ok i reserved (raw ∷ delegations) {edges} h =
      let (rest, e, same) = judged_edges-inv i reserved raw delegations h in
      let (count, indexed) = judged_edges-ok (suc i) (next_reserved i reserved raw) delegations e in
      rw same (ap suc count, (refl, indexed))

module _ (ctx : PlanContext) (allocation : AllocationResult) (first : Option ℕ) where
  -- Every edge is a child or rejected, and none is both.
  pub length-planned :
      (edges : List Edge)
      → length (planned_children ctx allocation first edges) + length (rejected_edges ctx edges)
        ≡ length edges
  unfolding planned_children rejected_edges
  length-planned [] = omega arith
  length-planned (edge ∷ edges) = ground (arith, length-planned edges)

  pub length-planned_children :
      (edges : List Edge)
      → length (planned_children ctx allocation first edges) ≡ reserved_calls edges
  unfolding planned_children reserved_calls
  length-planned_children [] = refl
  length-planned_children (edge ∷ edges) = ground (arith, length-planned_children edges)

-- How many of the children retire the parent.
unfoldable pub retiring : List PlannedChild → ℕ
retiring [] = 0
retiring (child ∷ children) =
    if child.retire_parent then suc (retiring children) else retiring children

-- What the children return to the pool together.
unfoldable pub total_pool_return : List PlannedChild → ℤ
total_pool_return [] = pos 0
total_pool_return (child ∷ children) = child.pool_return +ℤ total_pool_return children

module _ (ctx : PlanContext) (allocation : AllocationResult) where
  pub none_after :
      (i first : ℕ) (edges : List Edge)
      → IsIndexed i edges
      → first < i
      → (retiring (planned_children ctx allocation (some first) edges) ≡ 0)
        × (total_pool_return (planned_children ctx allocation (some first) edges) ≡ pos 0)
  unfolding planned_children retiring total_pool_return
  none_after i first [] x h = (refl, refl)
  none_after i first (edge ∷ edges) x h = ground (
    arith,
    zero_add (total_pool_return (planned_children ctx allocation (some first) edges)),
    none_after (suc i) first edges x.1,
  )

  -- The first edge that passed retires the parent and carries what goes back to the pool; nobody
  -- else does.
  pub first-retires :
      (i first : ℕ) (edges : List Edge)
      → IsIndexed i edges
      → first_live_index edges ≡ some first
      → (retiring (planned_children ctx allocation (some first) edges) ≡ 1)
        × (total_pool_return (planned_children ctx allocation (some first) edges)
            ≡ allocation.returned_to_pool)
  unfolding planned_children retiring total_pool_return first_live_index
  first-retires i first [] x h = absurd (ground arith)
  first-retires i first (edge ∷ edges) x h = ground (
    arith,
    zero_add (total_pool_return (planned_children ctx allocation (some first) edges)),
    add_zero allocation.returned_to_pool,
    none_after (suc i) first edges x.1,
    first-retires (suc i) first edges x.1,
  )

pub first_live_index-none :
    (edges : List Edge) → first_live_index edges ≡ none → reserved_calls edges ≡ 0
unfolding first_live_index reserved_calls
first_live_index-none [] h = refl
first_live_index-none (edge ∷ edges) h = ground (arith, first_live_index-none edges)
