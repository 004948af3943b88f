-- ===== src/Credits/Redistribution/Conservation.antt =====
-- A redistribution neither creates nor destroys credits, and takes nothing from a leaf unless
-- there is a debt to share.
use maibot_lunagentic_resear.Prelude.{
  if◌then◌else◌, length, ℤ, pos, pos_part, ◌+ℤ◌, ◌≤ℤ◌, ltb_ℤ, int_laws, ℕ, ◌*◌, String, ◌≡◌, refl,
  ◌≢◌, inl, Bool, true, false, some, List, [], ◌∷◌, arith, eq_iff, eq_refl,
}
use maibot_lunagentic_resear.Dict.{Dict, lookup, get_or_zero, total, total_nil, lookup_nil}
use maibot_lunagentic_resear.Dict.Keys.{Absent, HasDistinctKeys}
use maibot_lunagentic_resear.Credits.Scaled.{
  Scale, FloatArithmetic, scaled_with_last_item_remainder,
}
use maibot_lunagentic_resear.Credits.Scaled.Absorb.{IsNonnegDict, held, get_or_zero-nonneg}
use maibot_lunagentic_resear.Credits.Scaled.Sum.{total-scaled, scaled_with_last-IsNonneg}
use maibot_lunagentic_resear.Credits.Scaled.Present.{AllPresent, AllPresent-cons, IsWithin}
use maibot_lunagentic_resear.Credits.Scaled.Within.{scaled_with_last-IsWithin}
use maibot_lunagentic_resear.Credits.Redistribution.{
  positive_leaves, with_changes, equal_weights, proportional_changes, even_changes, pool_changes,
  redistribute_pool,
}

positive_leaves-Absent :
    (k : String) (leaves : Dict ℤ) → Absent k leaves → Absent k (positive_leaves leaves)
unfolding positive_leaves
positive_leaves-Absent k [] h = tt
positive_leaves-Absent k ((j, b) ∷ leaves) h = ground (arith, positive_leaves-Absent k leaves h.1)

positive_leaves-HasDistinctKeys :
    (leaves : Dict ℤ) → HasDistinctKeys leaves → HasDistinctKeys (positive_leaves leaves)
unfolding positive_leaves
positive_leaves-HasDistinctKeys [] u = tt
positive_leaves-HasDistinctKeys ((j, b) ∷ leaves) u =
    ground (arith, positive_leaves-Absent j leaves u.0, positive_leaves-HasDistinctKeys leaves u.1)

positive_leaves-IsNonneg : (leaves : Dict ℤ) → IsNonnegDict (positive_leaves leaves)
unfolding positive_leaves
positive_leaves-IsNonneg [] = tt
positive_leaves-IsNonneg ((j, b) ∷ leaves) = ground (arith, positive_leaves-IsNonneg leaves)

positive_leaves-AllPresent : (leaves : Dict ℤ) → AllPresent (positive_leaves leaves) leaves
unfolding positive_leaves
positive_leaves-AllPresent [] = tt
positive_leaves-AllPresent ((j, b) ∷ leaves) =
    let rest : AllPresent (positive_leaves leaves) ((j, b) ∷ leaves) =
      AllPresent-cons (j, b) (positive_leaves leaves) leaves (positive_leaves-AllPresent leaves) in
    elim (ltb_ℤ (pos 0) b)
      as (λ (t : Bool).
        AllPresent (if t then (j, b) ∷ positive_leaves leaves else positive_leaves leaves)
          ((j, b) ∷ leaves)) [ true ↦ (inl (eq_refl j), rest) | false ↦ rest ]

module _ (float : FloatArithmetic) where
  equal_weights-Absent :
      (k : String) (leaves : Dict ℤ) → Absent k leaves → Absent k (equal_weights float leaves)
  unfolding equal_weights
  equal_weights-Absent k [] h = tt
  equal_weights-Absent k ((j, b) ∷ leaves) h = (h.0, equal_weights-Absent k leaves h.1)

  equal_weights-HasDistinctKeys :
      (leaves : Dict ℤ) → HasDistinctKeys leaves → HasDistinctKeys (equal_weights float leaves)
  unfolding equal_weights
  equal_weights-HasDistinctKeys [] u = tt
  equal_weights-HasDistinctKeys ((j, b) ∷ leaves) u =
      (equal_weights-Absent j leaves u.0, equal_weights-HasDistinctKeys leaves u.1)

  equal_weights-IsNonneg : (leaves : Dict ℤ) → IsNonnegDict (equal_weights float leaves)
  unfolding equal_weights
  equal_weights-IsNonneg [] = tt
  equal_weights-IsNonneg ((j, b) ∷ leaves) = (omega arith, equal_weights-IsNonneg leaves)

  equal_weights-AllPresent : (leaves : Dict ℤ) → AllPresent (equal_weights float leaves) leaves
  unfolding equal_weights
  equal_weights-AllPresent [] = tt
  equal_weights-AllPresent ((j, b) ∷ leaves) = (
    inl (eq_refl j),
    AllPresent-cons (j, b) (equal_weights float leaves) leaves (equal_weights-AllPresent leaves),
  )

  -- The changes at the leaves' keys add up to what is available, and are no losses unless that is
  -- negative.
  record IsSharedOut (available : ℤ) (leaves changes : Dict ℤ) : Type 0 where
    within : IsWithin leaves changes
    whole : total changes ≡ available
    no_loss : pos 0 ≤ℤ available → IsNonnegDict changes

  shares-IsSharedOut :
      (available : ℤ) (leaves : Dict ℤ) (denominator : ℕ) (items : List (String × ℤ))
      → HasDistinctKeys leaves
      → items ≢ []
      → HasDistinctKeys items
      → IsNonnegDict items
      → AllPresent items leaves
      → IsSharedOut available leaves (
          scaled_with_last_item_remainder float items
            (record { numerator = available; denominator = denominator })
            available)
  shares-IsSharedOut available leaves denominator [] d ne u n p = absurd (ne refl)
  shares-IsSharedOut available leaves denominator (item ∷ items) d ne u n p =
      let scale : Scale = record { numerator = available; denominator = denominator } in
      record {
        within = scaled_with_last-IsWithin float leaves d item items scale available p;
        whole = total-scaled float scale item items available u (λ h. (h, n));
        no_loss = λ h. scaled_with_last-IsNonneg float scale item items available u h h n;
      }

  equal_weights-ne-nil :
      (leaf : String × ℤ) (leaves : Dict ℤ) → equal_weights float (leaf ∷ leaves) ≢ []
  unfolding equal_weights
  equal_weights-ne-nil leaf leaves h = cc

  pool_changes-IsSharedOut :
      (available : ℤ) (leaf : String × ℤ) (leaves : Dict ℤ)
      → HasDistinctKeys (leaf ∷ leaves)
      → IsSharedOut available (leaf ∷ leaves) (pool_changes float available (leaf ∷ leaves))
  unfolding pool_changes even_changes proportional_changes
  pool_changes-IsSharedOut available leaf leaves d =
      go (positive_leaves all) (positive_leaves-HasDistinctKeys all d)
        (positive_leaves-IsNonneg all) (positive_leaves-AllPresent all)
    where
      all : Dict ℤ
      all = leaf ∷ leaves

      go :
          (positive : List (String × ℤ))
          → HasDistinctKeys positive
          → IsNonnegDict positive
          → AllPresent positive all
          → IsSharedOut available all (elim positive [
            | [] ↦ even_changes float available all
            | x ∷ xs ↦ proportional_changes float available (x ∷ xs)
          ])
      go [] u n p =
          shares-IsSharedOut available all (length all * float.steps_per_credit)
            (equal_weights float all) d (equal_weights-ne-nil leaf leaves)
            (equal_weights-HasDistinctKeys all d) (equal_weights-IsNonneg all)
            (equal_weights-AllPresent all)
      go (x ∷ xs) u n p =
          shares-IsSharedOut available all (pos_part (total (x ∷ xs))) (x ∷ xs) d (λ e. cc) u n p

  total-with_changes :
      (changes leaves : Dict ℤ)
      → total (with_changes changes leaves) ≡ total leaves +ℤ held changes leaves
  unfolding with_changes total held
  total-with_changes changes [] = omega int_laws
  total-with_changes changes ((k, b) ∷ leaves) = grind (int_laws, total-with_changes changes leaves)

  -- Over leaves with distinct keys, the balances and the pool after a redistribution together are
  -- the balances before, the pool and the adjustment.
  pub total-redistribute_pool :
      (pool adjustment : ℤ) (leaves : Dict ℤ)
      → HasDistinctKeys leaves
      → let result = redistribute_pool float pool adjustment leaves in
        total result.balances +ℤ result.pool_after ≡ total leaves +ℤ (pool +ℤ adjustment)
  unfolding redistribute_pool
  total-redistribute_pool pool adjustment [] d = grind (int_laws, total_nil)
  total-redistribute_pool pool adjustment (leaf ∷ leaves) d =
      let all : Dict ℤ = leaf ∷ leaves in
      let changes : Dict ℤ = pool_changes float (pool +ℤ adjustment) all in
      let shared = pool_changes-IsSharedOut (pool +ℤ adjustment) leaf leaves d in
      grind (int_laws, total-with_changes changes all, shared.within, shared.whole)

  lookup-with_changes :
      (changes leaves : Dict ℤ) (k : String) {b : ℤ}
      → lookup k leaves ≡ some b
      → lookup k (with_changes changes leaves) ≡ some (b +ℤ get_or_zero k changes)
  unfolding with_changes lookup
  lookup-with_changes changes [] k h = cc
  lookup-with_changes changes ((j, c) ∷ leaves) k {b} h =
      ground (arith, eq_iff j k, lookup-with_changes changes leaves k {b = b})

  -- Where pool and adjustment together are no debt, every leaf is still there afterwards with at
  -- least its balance from before.
  pub redistribute_pool-no_loss :
      (pool adjustment : ℤ) (leaves : Dict ℤ) (k : String) (b : ℤ)
      → HasDistinctKeys leaves
      → pos 0 ≤ℤ pool +ℤ adjustment
      → lookup k leaves ≡ some b
      → (b' : ℤ) × (lookup k (redistribute_pool float pool adjustment leaves).balances ≡ some b')
        × (b ≤ℤ b')
  unfolding redistribute_pool
  redistribute_pool-no_loss pool adjustment [] k b d p h =
      absurd (grind (arith, lookup_nil {V = ℤ} k))
  redistribute_pool-no_loss pool adjustment (leaf ∷ leaves) k b d p h =
      let all : Dict ℤ = leaf ∷ leaves in
      let changes : Dict ℤ = pool_changes float (pool +ℤ adjustment) all in
      let shared = pool_changes-IsSharedOut (pool +ℤ adjustment) leaf leaves d in
      (
        b +ℤ get_or_zero k changes,
        lookup-with_changes changes all k h,
        grind (int_laws, get_or_zero-nonneg k changes (shared.no_loss p)),
      )
