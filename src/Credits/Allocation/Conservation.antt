-- ===== src/Credits/Allocation/Conservation.antt =====
-- A split hands out no more than the balance and returns the rest.
use mathlib.Core.Path.{subst}
use maibot_lunagentic_resear.Prelude.{
  if◌then◌else◌, Bool-cases, ℤ, pos, ◌+ℤ◌, ◌-ℤ◌, ◌≤ℤ◌, ltb_ℤ, eqb_ℤ, min_ℤ, int_laws, ok,
  Result-cases, ok_injective, String, ◌≡◌, refl, sym, ap, ◌∙◌, ◌⊎◌, inl, inr, true, false, List, [],
  ◌∷◌, arith,
}
use maibot_lunagentic_resear.Dict.{Dict, update, total, total_nil}
use maibot_lunagentic_resear.Dict.Keys.{Absent, HasDistinctKeys, update-nil}
use maibot_lunagentic_resear.Credits.Scaled.{
  Scale, unscaled, FloatArithmetic, scaled_with_last_item_remainder,
}
use maibot_lunagentic_resear.Credits.Scaled.Absorb.{IsNonnegDict}
use maibot_lunagentic_resear.Credits.Scaled.Sum.{total-scaled, scaled_with_last-IsNonneg}
use maibot_lunagentic_resear.Credits.Allocation.{
  AllocationResult, normalized_requests, zeros, is_negligible, allocation_scale, allocate_scaled,
  allocate_normalized, allocate_children,
}

-- `paid` and `returned` make up the balance, but for a remainder within the code's tolerance,
-- which is dropped.
abbrev pub IsConserved : FloatArithmetic → ℤ → ℤ → ℤ → Type 0
IsConserved float balance paid returned =
    (paid +ℤ returned ≡ balance)
    ⊎ ((returned ≡ pos 0) × (is_negligible float (balance -ℤ paid) balance ≡ true))

pub normalized_requests-ok :
    (requests : List (String × ℤ)) {normalized : List (String × ℤ)}
    → normalized_requests requests ≡ ok normalized
    → (normalized ≡ requests) × IsNonnegDict requests
unfolding normalized_requests
normalized_requests-ok [] h = (cc, tt)
normalized_requests-ok ((key, value) ∷ requests) h =
    elim (Result-cases (normalized_requests requests)) [
      | inl (rest, e) ↦ ground (arith, normalized_requests-ok requests e)
      | inr (x, e) ↦ ground arith
    ]

zeros-Absent :
    (k : String) (requests : List (String × ℤ)) → Absent k requests → Absent k (zeros requests)
unfolding zeros
zeros-Absent k [] h = tt
zeros-Absent k ((j, v) ∷ requests) h = (h.0, zeros-Absent k requests h.1)

zeros-HasDistinctKeys :
    (requests : List (String × ℤ)) → HasDistinctKeys requests → HasDistinctKeys (zeros requests)
unfolding zeros
zeros-HasDistinctKeys [] u = tt
zeros-HasDistinctKeys ((j, v) ∷ requests) u =
    (zeros-Absent j requests u.0, zeros-HasDistinctKeys requests u.1)

total-zeros : (requests : List (String × ℤ)) → total (zeros requests) ≡ pos 0
unfolding zeros total
total-zeros [] = refl
total-zeros ((j, v) ∷ requests) = grind (int_laws, total-zeros requests)

zeros-IsNonneg : (requests : List (String × ℤ)) → IsNonnegDict (zeros requests)
unfolding zeros
zeros-IsNonneg [] = tt
zeros-IsNonneg ((j, v) ∷ requests) = (omega arith, zeros-IsNonneg requests)

total-nonneg : (d : Dict ℤ) → IsNonnegDict d → pos 0 ≤ℤ total d
unfolding total
total-nonneg [] h = omega arith
total-nonneg ((k, v) ∷ d) h = omega (int_laws, total-nonneg d h.1)

module _ (float : FloatArithmetic) where
  -- What holds of a successful split of a balance that is not negative.
  pub record IsFairSplit (balance : ℤ) (result : AllocationResult) : Type 0 where
    pub launched : result.launch_allowed ≡ true
    pub no_debts : IsNonnegDict result.allocations
    pub covered : total result.allocations ≤ℤ balance
    pub kept : IsConserved float balance (total result.allocations) result.returned_to_pool

  allocation_scale-nonneg :
      (balance requested_total : ℤ)
      → pos 0 ≤ℤ balance
      → pos 0 ≤ℤ (allocation_scale float balance requested_total).numerator
  unfolding allocation_scale
  allocation_scale-nonneg balance requested_total p = ground arith

  kept-IsConserved :
      (balance paid : ℤ)
      → IsConserved float balance paid
          (if is_negligible float (balance -ℤ paid) balance then pos 0 else balance -ℤ paid)
  kept-IsConserved balance paid =
      elim (Bool-cases (is_negligible float (balance -ℤ paid) balance)) [
        | inl small ↦ rw small (inr (refl, refl))
        | inr big ↦ rw big (inl (omega int_laws))
      ]

  allocate_scaled-IsFairSplit :
      (balance : ℤ) (requests : List (String × ℤ))
      → HasDistinctKeys requests
      → IsNonnegDict requests
      → pos 0 ≤ℤ balance
      → (eqb_ℤ (total requests) (pos 0)) ≡ false
      → IsFairSplit balance (allocate_scaled float balance requests (total requests))
  unfolding allocate_scaled
  allocate_scaled-IsFairSplit balance [] u h p e = absurd (grind (int_laws, total_nil))
  allocate_scaled-IsFairSplit balance (item ∷ items) u h p e =
      let requested : ℤ = total (item ∷ items) in
      let scale : Scale = allocation_scale float balance requested in
      let target : ℤ = min_ℤ balance requested in
      let shares : Dict ℤ = scaled_with_last_item_remainder float (item ∷ items) scale target in
      let t : pos 0 ≤ℤ target = grind (int_laws, total-nonneg (item ∷ items) h) in
      let paid : total shares ≡ target =
        total-scaled float scale item items target u (λ _. (t, h)) in
      record {
        launched = refl;
        no_debts =
            scaled_with_last-IsNonneg float scale item items target u
              (allocation_scale-nonneg balance requested p) t h;
        covered = rw paid (grind int_laws);
        kept = kept-IsConserved balance (total shares);
      }

  -- What a split that raises nothing does with a balance.
  abbrev pub SplitOutcome : ℤ → AllocationResult → Type 0
  SplitOutcome balance result =
      ((ltb_ℤ balance (pos 0) ≡ true)
        × (result.launch_allowed ≡ false)
        × (result.allocations ≡ [])
        × (result.returned_to_pool ≡ pos 0))
      ⊎ ((pos 0 ≤ℤ balance) × IsFairSplit balance result)

  allocate_normalized-SplitOutcome :
      (balance : ℤ) (requests : List (String × ℤ))
      → HasDistinctKeys requests
      → IsNonnegDict requests
      → SplitOutcome balance (allocate_normalized float balance requests)
  unfolding allocate_normalized
  allocate_normalized-SplitOutcome balance requests u h =
      elim (Bool-cases (ltb_ℤ balance (pos 0))) [
        | inl debt ↦ rw debt (inl (refl, refl, refl, refl))
        | inr fund ↦ rw fund (inr (ground arith, launched fund))
      ]
    where
      launched :
          ltb_ℤ balance (pos 0) ≡ false
          → IsFairSplit balance (
              if eqb_ℤ (total requests) (pos 0)
              then (record {
                allocations = update [] (zeros requests);
                returned_to_pool = balance;
                launch_allowed = true;
                scale = unscaled;
              })
              else allocate_scaled float balance requests (total requests))
      launched fund = elim (Bool-cases (eqb_ℤ (total requests) (pos 0))) [
        | inl nothing ↦ rw nothing (
            rw (update-nil (zeros requests) (zeros-HasDistinctKeys requests u)) (record {
              launched = refl;
              no_debts = zeros-IsNonneg requests;
              covered = rw (total-zeros requests) (ground arith);
              kept = inl (grind (int_laws, total-zeros requests));
            }))
        | inr some_credits ↦
            rw some_credits
              (allocate_scaled-IsFairSplit balance requests u h (ground arith) some_credits)
      ]

  -- A split that raises nothing, over children with distinct keys: a negative balance launches
  -- nobody and hands out nothing; otherwise every share is non-negative, the shares stay within the
  -- balance, and shares and returned part make up the balance, up to the tolerance that the code
  -- drops.
  pub allocate_children-SplitOutcome :
      (balance : ℤ) (requests : List (String × ℤ)) {result : AllocationResult}
      → HasDistinctKeys requests
      → allocate_children float balance requests ≡ ok result
      → SplitOutcome balance result
  unfolding allocate_children
  allocate_children-SplitOutcome balance requests {result} u h =
      elim (Result-cases (normalized_requests requests)) [
        | inl (normalized, e) ↦
            subst (SplitOutcome balance)
              (ap (allocate_normalized float balance) (sym (normalized_requests-ok requests e).0)
                ∙ ok_injective (rw e at h))
              (allocate_normalized-SplitOutcome balance requests u
                (normalized_requests-ok requests e).1)
        | inr (x, e) ↦ absurd (ground arith)
      ]
