-- ===== src/Credits/Allocation/Within.antt =====
-- A split hands credits to the requesting children only.
use mathlib.Core.Path.{subst}
use maibot_lunagentic_resear.Prelude.{
  if◌then◌else◌, ℤ, pos, ltb_ℤ, eqb_ℤ, min_ℤ, ok, Result-cases, ok_injective, String, ◌≡◌, sym, ap,
  ◌∙◌, inl, inr, Bool, true, false, List, [], ◌∷◌, arith, eq_refl,
}
use maibot_lunagentic_resear.Dict.{total}
use maibot_lunagentic_resear.Dict.Keys.{HasDistinctKeys}
use maibot_lunagentic_resear.Credits.Scaled.{FloatArithmetic, scaled_with_last_item_remainder}
use maibot_lunagentic_resear.Credits.Scaled.Present.{
  AllPresent, AllPresent-cons, AllPresent-refl, IsWithin, nil-IsWithin, update-IsWithin,
}
use maibot_lunagentic_resear.Credits.Scaled.Within.{scaled_with_last-IsWithin}
use maibot_lunagentic_resear.Credits.Allocation.{
  AllocationResult, normalized_requests, zeros, allocation_scale, allocate_scaled,
  allocate_normalized, allocate_children,
}
use maibot_lunagentic_resear.Credits.Allocation.Conservation.{normalized_requests-ok}

zeros-AllPresent : (requests : List (String × ℤ)) → AllPresent (zeros requests) requests
unfolding zeros
zeros-AllPresent [] = tt
zeros-AllPresent (request ∷ requests) = (
  inl (eq_refl request.0),
  AllPresent-cons request (zeros requests) requests (zeros-AllPresent requests),
)

if-IsWithin :
    (requests : List (String × ℤ)) (b : Bool) (x y : AllocationResult)
    → IsWithin requests x.allocations
    → IsWithin requests y.allocations
    → IsWithin requests (if b then x else y).allocations
if-IsWithin requests true x y h k = h
if-IsWithin requests false x y h k = k

module _ (float : FloatArithmetic) where
  allocate_scaled-IsWithin :
      (balance requested : ℤ) (requests : List (String × ℤ))
      → HasDistinctKeys requests
      → IsWithin requests (allocate_scaled float balance requests requested).allocations
  unfolding allocate_scaled scaled_with_last_item_remainder
  allocate_scaled-IsWithin balance requested [] u = nil-IsWithin [] u
  allocate_scaled-IsWithin balance requested (item ∷ items) u =
      scaled_with_last-IsWithin float (item ∷ items) u item items
        (allocation_scale float balance requested) (min_ℤ balance requested)
        (AllPresent-refl (item ∷ items))

  allocate_normalized-IsWithin :
      (balance : ℤ) (requests : List (String × ℤ))
      → HasDistinctKeys requests
      → IsWithin requests (allocate_normalized float balance requests).allocations
  unfolding allocate_normalized
  allocate_normalized-IsWithin balance requests u =
      if-IsWithin requests (ltb_ℤ balance (pos 0)) _ _ (nil-IsWithin requests u) (
        if-IsWithin requests (eqb_ℤ (total requests) (pos 0)) _ _
          (update-IsWithin requests u [] (zeros requests) (zeros-AllPresent requests)
            (nil-IsWithin requests u))
          (allocate_scaled-IsWithin balance (total requests) requests u))

  -- What the requesting children hold is all that was handed out.
  pub allocate_children-IsWithin :
      (balance : ℤ) (requests : List (String × ℤ)) {result : AllocationResult}
      → HasDistinctKeys requests
      → allocate_children float balance requests ≡ ok result
      → IsWithin requests result.allocations
  unfolding allocate_children
  allocate_children-IsWithin balance requests {result} u h =
      elim (Result-cases (normalized_requests requests)) [
        | inl (normalized, e) ↦
            subst (λ (r : AllocationResult). IsWithin requests r.allocations)
              (ap (allocate_normalized float balance) (sym (normalized_requests-ok requests e).0)
                ∙ ok_injective (rw e at h))
              (allocate_normalized-IsWithin balance requests u)
        | inr (x, e) ↦ absurd (ground arith)
      ]
