-- ===== src/Pricing.antt =====
-- lunagentic_research_swarm/llm/pricing.py: price profiles, token usage and the price catalog.
-- Prices are non-negative multiples of the smallest step; the quotient by a million and the factor
-- 100 go through the rounded product of `FloatArithmetic`. Token counts are Python's integers.
pub mod Usage
pub mod Sources
pub mod Catalog
pub mod Built
pub mod Charges
use maibot_lunagentic_resear.Prelude.{
  if◌then◌else◌, ℤ, pos, pos_part, neg_part, sub_ℕ, ◌+ℤ◌, ◌-ℤ◌, ltb_ℤ, value_error, key_error,
  lrs_error, Result, ok, err, ◌>>=◌, ◌>>◌, raise_if, ◌+◌, ◌*◌, String, Bool, true, false, not, ◌&&◌,
  ◌||◌, Option, none, some, List, [], ◌∷◌, ◌==◌,
}
use maibot_lunagentic_resear.Dict.{Dict, lookup, contains}
use maibot_lunagentic_resear.Credits.Scaled.{FloatArithmetic}

pub record PriceProfile : Type 0 where
  pub price_in : ℤ
  pub cache : Bool
  pub cache_price_in : ℤ
  pub price_out : ℤ

-- `PriceProfile.__post_init__`
unfoldable pub price_profile : ℤ → Bool → ℤ → ℤ → Result PriceProfile
price_profile price_in cache cache_price_in price_out = do
  raise_if (ltb_ℤ price_in (pos 0)) value_error
  raise_if (ltb_ℤ cache_price_in (pos 0)) value_error
  raise_if (ltb_ℤ price_out (pos 0)) value_error
  ok (record {
    price_in = price_in;
    cache = cache;
    cache_price_in = cache_price_in;
    price_out = price_out;
  })

-- `PriceProfile()`
abbrev pub free_profile : PriceProfile
free_profile = record { price_in = pos 0; cache = false; cache_price_in = pos 0; price_out = pos 0 }

pub data UsageSource : Type 0 where
  actual estimated : UsageSource

pub record TokenUsage : Type 0 where
  pub prompt_tokens : ℤ
  pub completion_tokens : ℤ
  pub cache_hit_tokens : ℤ
  pub cache_miss_tokens : ℤ
  pub source : UsageSource

pub data PriceSource : Type 0 where
  plugin_override host_config host_unavailable_free host_unpriced_free : PriceSource
  actual_model_unknown_free : PriceSource

pub record ResolvedPrice : Type 0 where
  pub model_name : String
  pub profile : PriceProfile
  pub source : PriceSource

pub record ChargedUsage : Type 0 where
  pub price : ResolvedPrice
  pub usage : TokenUsage
  pub credits : ℤ

-- `_usage_integer`
abbrev pub usage_integer : ℤ → Result ℤ
usage_integer value = if ltb_ℤ value (pos 0) then err (lrs_error "invalid_usage") else ok value

-- Prompt tokens that are neither hit nor miss count as misses.
unfoldable pub normalize_actual_usage : ℤ → ℤ → ℤ → ℤ → Result TokenUsage
normalize_actual_usage prompt_tokens completion_tokens cache_hit_tokens cache_miss_tokens = do
  prompt ← usage_integer prompt_tokens
  completion ← usage_integer completion_tokens
  hit ← usage_integer cache_hit_tokens
  miss ← usage_integer cache_miss_tokens
  raise_if (ltb_ℤ prompt (hit +ℤ miss)) (lrs_error "invalid_usage")
  ok (record {
    prompt_tokens = prompt;
    completion_tokens = completion;
    cache_hit_tokens = hit;
    cache_miss_tokens = miss +ℤ (prompt -ℤ hit -ℤ miss);
    source = actual;
  })

-- A count of tokens times a price.
unfoldable pub ◌*ℤ◌ : ℤ → ℤ → ℤ
a *ℤ b =
    sub_ℕ (pos_part a * pos_part b + neg_part a * neg_part b)
      (pos_part a * neg_part b + neg_part a * pos_part b)

infixl 70 ◌*ℤ◌
pub record PriceCatalog : Type 0 where
  pub plugin_overrides : Dict PriceProfile
  pub host_models : Dict PriceProfile
  pub host_available : Bool
  pub host_priced_models : List String
  pub fingerprint : String

-- `model_name in self._host_priced_models`
unfoldable pub is_member : String → List String → Bool
is_member name [] = false
is_member name (other ∷ names) = other == name || is_member name names

-- `self._host_models[model_name]`, a `KeyError` where it is missing
abbrev pub priced_profile : Option PriceProfile → Result PriceProfile
priced_profile none = err key_error
priced_profile (some profile) = ok profile

-- The part of `resolve_model` behind the overrides.
unfoldable pub resolve_host_model : PriceCatalog → String → Bool → Result ResolvedPrice
resolve_host_model catalog model_name is_actual =
    if not catalog.host_available
    then ok
        (record { model_name = model_name; profile = free_profile; source = host_unavailable_free })
    else if is_member model_name catalog.host_priced_models
    then (do
      profile ← priced_profile (lookup model_name catalog.host_models)
      ok (record { model_name = model_name; profile = profile; source = host_config }))
    else ok (record {
      model_name = model_name;
      profile = free_profile;
      source =
          if is_actual && not (contains model_name catalog.host_models)
          then actual_model_unknown_free
          else host_unpriced_free;
    })

unfoldable pub resolve_model : PriceCatalog → String → Bool → Result ResolvedPrice
resolve_model catalog model_name is_actual = elim (lookup model_name catalog.plugin_overrides) [
  | some profile ↦
      ok (record { model_name = model_name; profile = profile; source = plugin_override })
  | none ↦ resolve_host_model catalog model_name is_actual
]

module _ (float : FloatArithmetic) where
  -- `value / 1_000_000`
  abbrev pub per_million : ℤ → ℤ
  per_million value = float.times value (record { numerator = pos 1; denominator = 1_000_000 })

  -- The charge for a usage that has passed `normalize_actual_usage`.
  unfoldable pub charge_normalized : PriceProfile → TokenUsage → ℤ
  charge_normalized profile usage =
      let input_units =
        if profile.cache
        then per_million (
            usage.cache_miss_tokens *ℤ profile.price_in
            +ℤ usage.cache_hit_tokens *ℤ profile.cache_price_in)
        else per_million (usage.prompt_tokens *ℤ profile.price_in) in
      let output_units = per_million (usage.completion_tokens *ℤ profile.price_out) in
      float.times (input_units +ℤ output_units) (record { numerator = pos 100; denominator = 1 })

  unfoldable pub charge : PriceProfile → TokenUsage → Result ℤ
  charge profile usage = do
    normalized ←
        normalize_actual_usage usage.prompt_tokens usage.completion_tokens usage.cache_hit_tokens
          usage.cache_miss_tokens
    ok (charge_normalized profile normalized)

  unfoldable pub charge_actual : PriceCatalog → String → ℤ → ℤ → ℤ → ℤ → Result ChargedUsage
  charge_actual catalog actual_model_name prompt completion hit miss = do
    usage ← normalize_actual_usage prompt completion hit miss
    resolved ← resolve_model catalog actual_model_name true
    credits ← charge resolved.profile usage
    ok (record { price = resolved; usage = usage; credits = credits })
