-- ===== src/Reducer/Children.antt =====
-- The children of a plan, materialized one after the other.
use mathlib.Core.Path.{subst}
use maibot_lunagentic_resear.Prelude.{
  All, ℤ, pos, ◌+ℤ◌, int_laws, ℕ, String, ◌≡◌, refl, sym, true, false, none, List, [], ◌∷◌, arith,
}
use maibot_lunagentic_resear.Dict.{Dict, lookup, insert, erase, get_or_zero}
use maibot_lunagentic_resear.Dict.Totals.{lookup-insert, total-insert, total-erase}
use maibot_lunagentic_resear.Delegation.{PlannedChild}
use maibot_lunagentic_resear.Delegation.Edges.{retiring, total_pool_return}
use maibot_lunagentic_resear.Delegation.Funds.{total_credits}
use maibot_lunagentic_resear.Delegation.Retirement.{RetiresFirst}
use maibot_lunagentic_resear.Events.{RuntimeEvent}
use maibot_lunagentic_resear.Events.Branches.{ChildMaterialized}
use maibot_lunagentic_resear.Reducer.State.{RuntimeState}
use maibot_lunagentic_resear.Reducer.Transitions.{is_in_flight}
use maibot_lunagentic_resear.Reducer.Branches.{has_identity, has_amounts, add_child, materialize}
use maibot_lunagentic_resear.Reducer.Worth.{worth}

-- The event that `materialize_child_effect` (runtime/manager.py) submits for a child of a plan.
abbrev pub child_event : String → ℕ → PlannedChild → ChildMaterialized
child_event parent calls child = record {
  agent_calls_started = calls;
  branch_id = child.branch_id;
  parent_branch_id = parent;
  agent_id = child.agent_id;
  credits = child.credits;
  depth = child.depth;
  retire_parent = child.retire_parent;
  pool_return = child.pool_return;
  parent_credits_after = none;
}

unfoldable pub materialize_children :
    RuntimeState → RuntimeEvent → String → ℕ → List PlannedChild → RuntimeState
materialize_children state event parent calls [] = state
materialize_children state event parent calls (child ∷ children) =
    materialize_children (materialize state event (child_event parent calls child)).next_state event
      parent calls children

-- The children's ids are new, also to one another.
abbrev pub AreFresh : Dict ℤ → List PlannedChild → Type 0
AreFresh leaves [] = Unit {0}
AreFresh leaves (child ∷ children) =
    (lookup child.branch_id leaves ≡ none)
    × AreFresh (insert child.branch_id child.credits leaves) children

-- The event passes the checks of its fields.
abbrev pub IsAdmitted : String → PlannedChild → Type 0
IsAdmitted parent child =
    (has_identity (child_event parent 0 child) ≡ true)
    × (has_amounts (child_event parent 0 child) ≡ true)

lookup-erase-none : (k j : String) (d : Dict ℤ) → lookup k d ≡ none → lookup k (erase j d) ≡ none
unfolding lookup erase
lookup-erase-none k j [] h = refl
lookup-erase-none k j ((i, v) ∷ d) h = ground (arith, lookup-erase-none k j d)

-- Fewer leaves leave the ids fresh.
AreFresh-mono :
    (d e : Dict ℤ) (children : List PlannedChild)
    → ((k : String) → lookup k d ≡ none → lookup k e ≡ none)
    → AreFresh d children
    → AreFresh e children
AreFresh-mono d e [] fewer fresh = tt
AreFresh-mono d e (child ∷ children) fewer fresh = (
  fewer child.branch_id fresh.0,
  AreFresh-mono (insert child.branch_id child.credits d) (insert child.branch_id child.credits e)
      children
      (λ k h. ground (
        arith,
        lookup-insert child.branch_id k child.credits d,
        lookup-insert child.branch_id k child.credits e,
        fewer k,
      ))
      fresh.1,
)

handed_over :
    (next before parent credits others share : ℤ) {final rest : ℤ}
    → final ≡ next +ℤ others
    → next +ℤ parent ≡ before +ℤ (credits +ℤ share)
    → rest ≡ pos 0
    → final +ℤ parent ≡ before +ℤ ((credits +ℤ others) +ℤ (share +ℤ rest))
handed_over next before parent credits others share a b c = rw (a, c) (grind (int_laws, b))

module _ (event : RuntimeEvent) (parent : String) (calls : ℕ) where
  admitted :
      (state : RuntimeState) (child : PlannedChild)
      → is_in_flight state.status ≡ true
      → IsAdmitted parent child
      → materialize state event (child_event parent calls child)
        ≡ add_child state event (child_event parent calls child)
  unfolding materialize
  admitted state child live ok_fields = rw (live, ok_fields.0, ok_fields.1) refl

  -- One child that leaves the parent alone.
  joining_child-leaves :
      (state : RuntimeState) (child : PlannedChild)
      → child.retire_parent ≡ false
      → (add_child state event (child_event parent calls child)).next_state.active_leaves
        ≡ insert child.branch_id child.credits state.active_leaves
  unfolding add_child
  joining_child-leaves state child joins = rw joins refl

  joining_child-worth :
      (state : RuntimeState) (child : PlannedChild)
      → child.retire_parent ≡ false
      → lookup child.branch_id state.active_leaves ≡ none
      → worth (add_child state event (child_event parent calls child)).next_state
        ≡ worth state +ℤ child.credits
  unfolding add_child
  joining_child-worth state child joins fresh =
      rw joins (grind (int_laws, total-insert child.branch_id child.credits state.active_leaves))

  -- The child that retires the parent.
  retiring_child-leaves :
      (state : RuntimeState) (child : PlannedChild)
      → child.retire_parent ≡ true
      → (add_child state event (child_event parent calls child)).next_state.active_leaves
        ≡ insert child.branch_id child.credits (erase parent state.active_leaves)
  unfolding add_child
  retiring_child-leaves state child retires = rw retires refl

  retiring_child-worth :
      (state : RuntimeState) (child : PlannedChild)
      → child.retire_parent ≡ true
      → lookup child.branch_id state.active_leaves ≡ none
      → worth (add_child state event (child_event parent calls child)).next_state
          +ℤ get_or_zero parent state.active_leaves
        ≡ worth state +ℤ (child.credits +ℤ child.pool_return)
  unfolding add_child
  retiring_child-worth state child retires fresh =
      let gone = lookup-erase-none child.branch_id parent state.active_leaves fresh in
      rw retires (
        grind (
          int_laws,
          gone,
          total-insert child.branch_id child.credits (erase parent state.active_leaves),
          total-erase parent state.active_leaves,
        ))

  add_child-status :
      (state : RuntimeState) (child : ChildMaterialized)
      → (add_child state event child).next_state.status ≡ state.status
  unfolding add_child
  add_child-status state child = refl

  -- Children that leave the parent alone bring in what they are given.
  joining-worth :
      (state : RuntimeState) (children : List PlannedChild)
      → is_in_flight state.status ≡ true
      → All (IsAdmitted parent) children
      → AreFresh state.active_leaves children
      → retiring children ≡ 0
      → worth (materialize_children state event parent calls children)
        ≡ worth state +ℤ total_credits children
  unfolding materialize_children total_credits retiring
  joining-worth state [] live fields fresh nobody = omega int_laws
  joining-worth state (child ∷ children) live fields fresh nobody =
      let joins : child.retire_parent ≡ false = ground arith in
      let next : RuntimeState =
        (add_child state event (child_event parent calls child)).next_state in
      let rest =
        joining-worth next children
          (subst (λ s. is_in_flight s ≡ true) (sym (add_child-status state _)) live) fields.1
          (subst (λ d. AreFresh d children) (sym (joining_child-leaves state child joins)) fresh.1)
          (ground arith) in
      rw (materialize_children, admitted state child live fields.0)
        (grind (int_laws, rest, joining_child-worth state child joins fresh.0))

  -- The children of a plan whose first child retires the parent.
  pub materialize_children-worth :
      (state : RuntimeState) (child : PlannedChild) (children : List PlannedChild)
      → is_in_flight state.status ≡ true
      → All (IsAdmitted parent) (child ∷ children)
      → AreFresh state.active_leaves (child ∷ children)
      → RetiresFirst (child ∷ children)
      → worth (materialize_children state event parent calls (child ∷ children))
          +ℤ get_or_zero parent state.active_leaves
        ≡ worth state +ℤ (total_credits (child ∷ children) +ℤ total_pool_return (child ∷ children))
  unfolding materialize_children total_credits total_pool_return
  materialize_children-worth state child children live fields fresh (retires, nobody, nothing) =
      let next : RuntimeState =
        (add_child state event (child_event parent calls child)).next_state in
      let fewer =
        AreFresh-mono (insert child.branch_id child.credits state.active_leaves)
          (insert child.branch_id child.credits (erase parent state.active_leaves)) children
          (λ k h. ground (
            arith,
            lookup-insert child.branch_id k child.credits state.active_leaves,
            lookup-insert child.branch_id k child.credits (erase parent state.active_leaves),
            lookup-erase-none k parent state.active_leaves,
          ))
          fresh.1 in
      let rest =
        joining-worth next children
          (subst (λ s. is_in_flight s ≡ true) (sym (add_child-status state _)) live) fields.1
          (subst (λ d. AreFresh d children) (sym (retiring_child-leaves state child retires)) fewer)
          nobody in
      rw (materialize_children, admitted state child live fields.0)
        (handed_over _ _ _ _ _ _ rest (retiring_child-worth state child retires fresh.0) nothing)
