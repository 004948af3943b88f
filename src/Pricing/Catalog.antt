-- ===== src/Pricing/Catalog.antt =====
-- A catalog that is built resolves every model name, to the price that is configured for it.
use mathlib.Core.Path.{subst}
use maibot_lunagentic_resear.Prelude.{
  if◌then◌else◌, Bool-cases, Option-cases, some_injective, All, ℤ, pos, ◌≤ℤ◌, Result, ok, ◌>>=◌,
  String, ◌≡◌, refl, ◌⊎◌, inl, inr, Bool, true, false, not, ◌&&◌, Option, none, some, List, [], ◌∷◌,
  arith, ◌==◌,
}
use maibot_lunagentic_resear.Dict.{Dict, lookup, contains}
use maibot_lunagentic_resear.Pricing.{
  PriceProfile, price_profile, free_profile, plugin_override, host_config, host_unavailable_free,
  host_unpriced_free, actual_model_unknown_free, ResolvedPrice, PriceCatalog, is_member,
  priced_profile, resolve_host_model, resolve_model,
}
use maibot_lunagentic_resear.Pricing.Sources.{
  PriceFields, from_sources, from_host_snapshot, with_plugin_overrides, replace_host_snapshot,
}

-- The prices that `PriceProfile` accepts.
pub record IsPriced (profile : PriceProfile) : Type 0 where
  pub price_in_nonneg : pos 0 ≤ℤ profile.price_in
  pub cache_price_in_nonneg : pos 0 ≤ℤ profile.cache_price_in
  pub price_out_nonneg : pos 0 ≤ℤ profile.price_out

pub price_profile-IsPriced :
    (price_in : ℤ) (cache : Bool) (cache_price_in price_out : ℤ) {profile : PriceProfile}
    → price_profile price_in cache cache_price_in price_out ≡ ok profile
    → IsPriced profile
unfolding price_profile
price_profile-IsPriced price_in cache cache_price_in price_out h = ground arith

-- Every profile of the dict has accepted prices.
abbrev pub ArePriced : Dict PriceProfile → Type 0
ArePriced = All (λ (entry : String × PriceProfile). IsPriced entry.1)

-- A catalog whose prices are accepted, and with a profile for each priced model.
pub record IsCatalog (catalog : PriceCatalog) : Type 0 where
  pub overrides_priced : ArePriced catalog.plugin_overrides
  pub models_priced : ArePriced catalog.host_models
  pub priced_known :
      (name : String)
      → is_member name catalog.host_priced_models ≡ true
      → contains name catalog.host_models ≡ true

-- The catalogs that the class methods give, in any order and number.
pub data IsBuilt : PriceCatalog → Type 0 where
  of_sources :
      (overrides : Dict PriceFields) (models : Dict PriceFields) (fingerprint : String)
      {catalog : PriceCatalog}
      → from_sources overrides models fingerprint ≡ ok catalog
      → IsBuilt catalog
  of_snapshot :
      (snapshot : Option (List (String × PriceFields))) (overrides : Dict PriceFields)
      (fingerprint : String) {catalog : PriceCatalog}
      → from_host_snapshot snapshot overrides fingerprint ≡ ok catalog
      → IsBuilt catalog
  with_overrides :
      {before : PriceCatalog} {catalog : PriceCatalog} (overrides : Dict PriceFields)
      (fingerprint : String)
      → IsBuilt before
      → with_plugin_overrides before overrides fingerprint ≡ ok catalog
      → IsBuilt catalog
  with_snapshot :
      {before : PriceCatalog} {catalog : PriceCatalog}
      (snapshot : Option (List (String × PriceFields))) (fingerprint : String)
      → IsBuilt before
      → replace_host_snapshot before snapshot fingerprint ≡ ok catalog
      → IsBuilt catalog

lookup-IsPriced :
    (name : String) (models : Dict PriceProfile) {profile : PriceProfile}
    → ArePriced models
    → lookup name models ≡ some profile
    → IsPriced profile
unfolding lookup
lookup-IsPriced name [] h e = cc
lookup-IsPriced name ((other, p) ∷ models) h e = elim (Bool-cases (other == name)) [
  | inl same ↦ subst IsPriced (some_injective {a = p} (rw same at e)) h.0
  | inr differs ↦ lookup-IsPriced name models h.1 (rw differs at e)
]

-- The price of a name: an override goes first, then what the host configures; a name without a price
-- is free, and is told apart by the reason.
pub data IsPriceOf (catalog : PriceCatalog) (name : String) : Bool → ResolvedPrice → Type 0 where
  overridden :
      {is_actual : Bool} {profile : PriceProfile}
      → lookup name catalog.plugin_overrides ≡ some profile
      → IsPriceOf catalog name is_actual
          (record { model_name = name; profile = profile; source = plugin_override })
  unavailable :
      {is_actual : Bool}
      → lookup name catalog.plugin_overrides ≡ none
      → catalog.host_available ≡ false
      → IsPriceOf catalog name is_actual
          (record { model_name = name; profile = free_profile; source = host_unavailable_free })
  configured :
      {is_actual : Bool} {profile : PriceProfile}
      → lookup name catalog.plugin_overrides ≡ none
      → catalog.host_available ≡ true
      → is_member name catalog.host_priced_models ≡ true
      → lookup name catalog.host_models ≡ some profile
      → IsPriceOf catalog name is_actual
          (record { model_name = name; profile = profile; source = host_config })
  unknown :
      lookup name catalog.plugin_overrides ≡ none
      → catalog.host_available ≡ true
      → is_member name catalog.host_priced_models ≡ false
      → contains name catalog.host_models ≡ false
      → IsPriceOf catalog name true
          (record { model_name = name; profile = free_profile; source = actual_model_unknown_free })
  unpriced :
      {is_actual : Bool}
      → lookup name catalog.plugin_overrides ≡ none
      → catalog.host_available ≡ true
      → is_member name catalog.host_priced_models ≡ false
      → (is_actual ≡ false) ⊎ (contains name catalog.host_models ≡ true)
      → IsPriceOf catalog name is_actual
          (record { model_name = name; profile = free_profile; source = host_unpriced_free })

-- What a resolved name has.
abbrev pub Resolves : PriceCatalog → String → Bool → Result ResolvedPrice → Type 0
Resolves catalog name is_actual result =
    (price : ResolvedPrice) × (result ≡ ok price)
    × IsPriceOf catalog name is_actual price
    × IsPriced price.profile

pub free_profile-IsPriced : IsPriced free_profile
free_profile-IsPriced = omega arith

resolve_host_model_total :
    (catalog : PriceCatalog) (name : String) (is_actual : Bool)
    → IsCatalog catalog
    → lookup name catalog.plugin_overrides ≡ none
    → Resolves catalog name is_actual (resolve_host_model catalog name is_actual)
unfolding resolve_host_model
resolve_host_model_total catalog name is_actual c plain =
    go catalog.host_available refl (is_member name catalog.host_priced_models) refl
  where
    free :
        (is_actual : Bool)
        → catalog.host_available ≡ true
        → is_member name catalog.host_priced_models ≡ false
        → (is_known : Bool) → contains name catalog.host_models ≡ is_known
        → Resolves catalog name is_actual (
            ok (record {
              model_name = name;
              profile = free_profile;
              source =
                  if is_actual && not is_known
                  then actual_model_unknown_free
                  else host_unpriced_free;
            }))
    free true here bare true e = (_, refl, unpriced plain here bare (inr e), free_profile-IsPriced)
    free true here bare false e = (_, refl, unknown plain here bare e, free_profile-IsPriced)
    free false here bare is_known e =
        (_, refl, unpriced plain here bare (inl refl), free_profile-IsPriced)

    known :
        catalog.host_available ≡ true
        → is_member name catalog.host_priced_models ≡ true
        → (found : Option PriceProfile) → lookup name catalog.host_models ≡ found
        → contains name catalog.host_models ≡ true
        → Resolves catalog name is_actual (
            priced_profile found >>= λ profile.
            ok (record { model_name = name; profile = profile; source = host_config }))
    known here priced none e k = absurd (ground arith)
    known here priced (some profile) e k = (
      _,
      refl,
      configured plain here priced e,
      lookup-IsPriced name catalog.host_models c.models_priced e,
    )

    go :
        (here : Bool)
        → catalog.host_available ≡ here
        → (priced : Bool) → is_member name catalog.host_priced_models ≡ priced
        → Resolves catalog name is_actual (
            if not here
            then ok (record {
              model_name = name;
              profile = free_profile;
              source = host_unavailable_free;
            })
            else if priced
            then (priced_profile (lookup name catalog.host_models) >>= λ profile.
                ok (record { model_name = name; profile = profile; source = host_config }))
            else ok (record {
              model_name = name;
              profile = free_profile;
              source =
                  if is_actual && not (contains name catalog.host_models)
                  then actual_model_unknown_free
                  else host_unpriced_free;
            }))
    go false gone priced p = (_, refl, unavailable plain gone, free_profile-IsPriced)
    go true here true p =
        known here p (lookup name catalog.host_models) refl (c.priced_known name p)
    go true here false p = free is_actual here p (contains name catalog.host_models) refl

pub IsCatalog-Resolves :
    (catalog : PriceCatalog) (name : String) (is_actual : Bool)
    → IsCatalog catalog
    → Resolves catalog name is_actual (resolve_model catalog name is_actual)
unfolding resolve_model
IsCatalog-Resolves catalog name is_actual c =
    elim (Option-cases (lookup name catalog.plugin_overrides)) [
      | inl missing ↦
          rw (missing, resolve_model) (resolve_host_model_total catalog name is_actual c missing)
      | inr (profile, e) ↦
          rw (e, resolve_model)
            (
              _,
              refl,
              overridden e,
              lookup-IsPriced name catalog.plugin_overrides c.overrides_priced e,
            )
    ]
