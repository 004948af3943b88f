-- ===== src/Pricing/Charges.antt =====
-- A usage is charged as it was normalized, at the price of its model, and no charge is negative.
use maibot_lunagentic_resear.Prelude.{
  if◌then◌else◌, ℤ, pos, negsuc, ◌+ℤ◌, ◌≤ℤ◌, int_laws, lrs_error, ok, err, String, ◌≡◌, refl, sym,
  ap, ◌∙◌, ◌⊎◌, inl, inr, Bool, true, false, arith,
}
use maibot_lunagentic_resear.Credits.Scaled.{FloatArithmetic}
use maibot_lunagentic_resear.Pricing.{
  PriceProfile, UsageSource, actual, TokenUsage, ChargedUsage, normalize_actual_usage, ◌*ℤ◌,
  PriceCatalog, resolve_model, per_million, charge_normalized, charge, charge_actual,
}
use maibot_lunagentic_resear.Pricing.Usage.{
  IsNormalized, IsChargeable, normalized_usage, normalize_actual_usage_cases,
  normalize_actual_usage_idem,
}
use maibot_lunagentic_resear.Pricing.Catalog.{IsPriced, IsBuilt, IsPriceOf, Resolves}
use maibot_lunagentic_resear.Pricing.Built.{resolve_model_total}

*ℤ-nonneg : (a b : ℤ) → pos 0 ≤ℤ a → pos 0 ≤ℤ b → pos 0 ≤ℤ a *ℤ b
unfolding ◌*ℤ◌
*ℤ-nonneg (pos a) (pos b) h k = grind arith
*ℤ-nonneg (pos a) (negsuc b) h k = absurd (omega arith)
*ℤ-nonneg (negsuc a) b h k = absurd (omega arith)

module _ (float : FloatArithmetic) where
  charge_normalized-nonneg :
      (profile : PriceProfile) (usage : TokenUsage)
      → IsPriced profile
      → IsNormalized usage
      → pos 0 ≤ℤ charge_normalized float profile usage
  unfolding charge_normalized
  charge_normalized-nonneg profile usage p n =
      float.times_nonneg _ _ (grind (int_laws, input, output)) (omega arith)
    where
      tokens : (a b : ℤ) → pos 0 ≤ℤ a → pos 0 ≤ℤ b → pos 0 ≤ℤ per_million float (a *ℤ b)
      tokens a b h k = float.times_nonneg _ _ (*ℤ-nonneg a b h k) (omega arith)

      output : pos 0 ≤ℤ per_million float (usage.completion_tokens *ℤ profile.price_out)
      output = tokens _ _ n.completion p.price_out_nonneg

      input : pos 0 ≤ℤ (
          if profile.cache
          then per_million float (
              usage.cache_miss_tokens *ℤ profile.price_in
              +ℤ usage.cache_hit_tokens *ℤ profile.cache_price_in)
          else per_million float (usage.prompt_tokens *ℤ profile.price_in))
      input =
          elim profile.cache
            as (λ (cache : Bool). pos 0 ≤ℤ (
              if cache
              then per_million float (
                  usage.cache_miss_tokens *ℤ profile.price_in
                  +ℤ usage.cache_hit_tokens *ℤ profile.cache_price_in)
              else per_million float (usage.prompt_tokens *ℤ profile.price_in))) [
                | true ↦
                    float.times_nonneg _ _
                      (grind (
                        int_laws,
                        *ℤ-nonneg usage.cache_miss_tokens profile.price_in,
                        *ℤ-nonneg usage.cache_hit_tokens profile.cache_price_in,
                      ))
                      (omega arith)
                | false ↦ tokens _ _ n.prompt p.price_in_nonneg
              ]

charge-normalized :
    (float : FloatArithmetic) (profile : PriceProfile) (usage : TokenUsage)
    → IsNormalized usage
    → usage.source ≡ actual
    → charge float profile usage ≡ ok (charge_normalized float profile usage)
unfolding charge
charge-normalized float profile usage n s =
    let (again, accepted, same) = normalize_actual_usage_idem usage n in
    rw accepted (
      ap (λ (u : TokenUsage). ok (charge_normalized float profile u))
        (same ∙ ap (λ (o : UsageSource). record usage { source = o }) (sym s)))

-- The credits for a usage: a hundred times the price of its tokens per million, where a profile with a
-- cache has a price of its own for the hits, and one without counts the whole prompt.
pub data IsChargeOf (float : FloatArithmetic) (profile : PriceProfile) (usage : TokenUsage)
    : ℤ → Type 0 where
  cached :
      profile.cache ≡ true
      → IsChargeOf float profile usage (
          float.times
            (float.times
                (usage.cache_miss_tokens *ℤ profile.price_in
                  +ℤ usage.cache_hit_tokens *ℤ profile.cache_price_in)
                (record { numerator = pos 1; denominator = 1_000_000 })
              +ℤ float.times
                  (usage.completion_tokens *ℤ profile.price_out)
                  (record { numerator = pos 1; denominator = 1_000_000 }))
            (record { numerator = pos 100; denominator = 1 }))
  uncached :
      profile.cache ≡ false
      → IsChargeOf float profile usage (
          float.times
            (float.times
                (usage.prompt_tokens *ℤ profile.price_in)
                (record { numerator = pos 1; denominator = 1_000_000 })
              +ℤ float.times
                  (usage.completion_tokens *ℤ profile.price_out)
                  (record { numerator = pos 1; denominator = 1_000_000 }))
            (record { numerator = pos 100; denominator = 1 }))

charge_normalized-IsChargeOf :
    (float : FloatArithmetic) (profile : PriceProfile) (usage : TokenUsage)
    → IsChargeOf float profile usage (charge_normalized float profile usage)
unfolding charge_normalized
charge_normalized-IsChargeOf float profile usage = go profile.cache refl
  where
    go :
        (cache : Bool)
        → profile.cache ≡ cache
        → IsChargeOf float profile usage (
            float.times
              ((if cache
                  then per_million float (
                      usage.cache_miss_tokens *ℤ profile.price_in
                      +ℤ usage.cache_hit_tokens *ℤ profile.cache_price_in)
                  else per_million float (usage.prompt_tokens *ℤ profile.price_in))
                +ℤ per_million float (usage.completion_tokens *ℤ profile.price_out))
              (record { numerator = pos 100; denominator = 1 }))
    go true e = cached e
    go false e = uncached e

abbrev pub ChargeOutcome : FloatArithmetic → PriceCatalog → String → ℤ → ℤ → ℤ → ℤ → Type 0
ChargeOutcome float catalog name prompt completion hit miss =
    (IsChargeable prompt completion hit miss
      × ((charged : ChargedUsage) × (charge_actual float catalog name prompt completion hit miss
            ≡ ok charged)
          × IsPriceOf catalog name true charged.price
          × (charged.usage ≡ normalized_usage prompt completion hit miss)
          × IsChargeOf float charged.price.profile charged.usage charged.credits
          × (pos 0 ≤ℤ charged.credits)))
    ⊎ ((¬ IsChargeable prompt completion hit miss)
        × (charge_actual float catalog name prompt completion hit miss
            ≡ err (lrs_error "invalid_usage")))

-- With a catalog that its class methods have made, a chargeable usage is always charged: the usage is
-- normalized, the price is the one that the catalog has for the model, the credits are those of the
-- usage at that price, and they are not negative. Any other usage raises "invalid_usage".
pub charge_actual_cases :
    (float : FloatArithmetic) {catalog : PriceCatalog} (name : String)
    (prompt completion hit miss : ℤ)
    → IsBuilt catalog
    → ChargeOutcome float catalog name prompt completion hit miss
unfolding charge_actual
charge_actual_cases float {catalog} name prompt completion hit miss built =
    elim (normalize_actual_usage_cases prompt completion hit miss) [
      | inr (no_charge, refused) ↦ inr (no_charge, rw (refused, charge_actual))
      | inl (chargeable, accepted, normalized) ↦
          inl (
            chargeable,
            charged chargeable normalized accepted (resolve_model_total name true built),
          )
    ]
  where
    usage : TokenUsage
    usage = normalized_usage prompt completion hit miss

    charged :
        IsChargeable prompt completion hit miss
        → IsNormalized usage
        → normalize_actual_usage prompt completion hit miss ≡ ok usage
        → Resolves catalog name true (resolve_model catalog name true)
        → (charged : ChargedUsage) × (charge_actual float catalog name prompt completion hit miss
            ≡ ok charged)
          × IsPriceOf catalog name true charged.price
          × (charged.usage ≡ usage)
          × IsChargeOf float charged.price.profile charged.usage charged.credits
          × (pos 0 ≤ℤ charged.credits)
    charged chargeable normalized accepted (price, resolved, found, priced) = (
      record {
        price = price;
        usage = usage;
        credits = charge_normalized float price.profile usage;
      },
      rw accepted (rw resolved (rw (charge-normalized float price.profile usage normalized refl))),
      found,
      refl,
      charge_normalized-IsChargeOf float price.profile usage,
      charge_normalized-nonneg float price.profile usage priced normalized,
    )
