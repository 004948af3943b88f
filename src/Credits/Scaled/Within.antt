-- ===== src/Credits/Scaled/Within.antt =====
-- The shares stand under the items' keys only.
use maibot_lunagentic_resear.Prelude.{
  if◌then◌else◌, all_but_last, All-reverse, All-last_of, All-all_but_last, ℤ, pos, ◌-ℤ◌, ltb_ℤ,
  String, Bool, true, false, ◌&&◌, List, [], ◌∷◌, reverse,
}
use maibot_lunagentic_resear.Dict.{Dict, update, total}
use maibot_lunagentic_resear.Dict.Keys.{HasDistinctKeys}
use maibot_lunagentic_resear.Credits.Scaled.{
  Scale, FloatArithmetic, is_nonneg, absorb, scaled_items, front_shares,
  scaled_with_last_item_remainder,
}
use maibot_lunagentic_resear.Credits.Scaled.Present.{
  AllPresent, IsWithin, nil-IsWithin, insert-IsWithin, update-IsWithin, absorb-IsWithin,
}

module _ (float : FloatArithmetic) where
  scaled-AllPresent :
      (scale : Scale) (items leaves : List (String × ℤ))
      → AllPresent items leaves
      → AllPresent (scaled_items float scale items) leaves
  unfolding scaled_items
  scaled-AllPresent scale [] leaves h = tt
  scaled-AllPresent scale ((k, v) ∷ items) leaves h =
      (h.0, scaled-AllPresent scale items leaves h.1)

  module _ (leaves : List (String × ℤ)) (distinct : HasDistinctKeys leaves) where
    front_shares-IsWithin :
        (scale : Scale) (target : ℤ) (front : List (String × ℤ))
        → AllPresent front leaves
        → IsWithin leaves (front_shares float scale target front)
    unfolding front_shares
    front_shares-IsWithin scale target front p =
        let shares : Dict ℤ = update [] (scaled_items float scale front) in
        let remainder : ℤ = target -ℤ total shares in
        let within : IsWithin leaves shares =
          update-IsWithin leaves distinct [] (scaled_items float scale front)
            (scaled-AllPresent scale front leaves p) (nil-IsWithin leaves distinct) in
        elim (ltb_ℤ remainder (pos 0) && is_nonneg scale)
          as (λ (b : Bool).
            IsWithin leaves
              (if b then absorb shares (pos 0 -ℤ remainder) (reverse front) else shares)) [
                | true ↦
                    absorb-IsWithin leaves distinct shares (pos 0 -ℤ remainder) (reverse front)
                      (All-reverse _ front p) within
                | false ↦ within
              ]

    pub scaled_with_last-IsWithin :
        (item : String × ℤ) (items : List (String × ℤ)) (scale : Scale) (target : ℤ)
        → AllPresent (item ∷ items) leaves
        → IsWithin leaves (scaled_with_last_item_remainder float (item ∷ items) scale target)
    unfolding scaled_with_last_item_remainder
    scaled_with_last-IsWithin item items scale target p =
        insert-IsWithin leaves distinct _ _ _ (All-last_of _ item items p) (
          front_shares-IsWithin scale target (all_but_last item items)
            (All-all_but_last _ item items p))
