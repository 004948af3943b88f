-- ===== src/Tests/Prices.antt =====
-- Usages, prices and metadata at concrete values.
use maibot_lunagentic_resear.Prelude.{
  pos, ok, String, ◌≡◌, refl, true, false, none, some, List, [], ◌∷◌,
}
use maibot_lunagentic_resear.Dict.{insert}
use maibot_lunagentic_resear.Text.{strip_left, strip_right, strip}
use maibot_lunagentic_resear.Json.{Json, null, fields, end_fields, field}
use maibot_lunagentic_resear.Json.Reasoning.{MetadataOutcome, metadata_json_cases}
use maibot_lunagentic_resear.Pricing.{PriceProfile, price_profile, free_profile, PriceCatalog}
use maibot_lunagentic_resear.Pricing.Usage.{NormalizeOutcome, normalize_actual_usage_cases}
use maibot_lunagentic_resear.Pricing.Sources.{
  PriceFields, profiles_of, names_of, new_catalog, from_sources, sanitized, read_models,
  from_host_snapshot,
}
use maibot_lunagentic_resear.Pricing.Catalog.{IsBuilt, of_sources}
use maibot_lunagentic_resear.Pricing.Charges.{ChargeOutcome, charge_actual_cases}
use maibot_lunagentic_resear.Tests.Data.{cents}

normalize_actual_usage_cases_example : NormalizeOutcome (pos 100) (pos 20) (pos 30) (pos 50)
normalize_actual_usage_cases_example =
    normalize_actual_usage_cases (pos 100) (pos 20) (pos 30) (pos 50)

abbrev small_profile : PriceProfile
small_profile = record {
  price_in = pos 10;
  cache = true;
  cache_price_in = pos 2;
  price_out = pos 40;
}

abbrev large_profile : PriceProfile
large_profile = record {
  price_in = pos 30;
  cache = false;
  cache_price_in = pos 0;
  price_out = pos 90;
}

abbrev two_models : PriceCatalog
two_models = record {
  plugin_overrides = ("large", large_profile) ∷ [];
  host_models = ("small", small_profile) ∷ [];
  host_available = true;
  host_priced_models = "small" ∷ [];
  fingerprint = "f1";
}

abbrev given_profile : PriceProfile → PriceFields
given_profile profile = record {
  given_price_in = some profile.price_in;
  given_cache = some profile.cache;
  given_cache_price_in = some profile.cache_price_in;
  given_price_out = some profile.price_out;
}

two_models_are_built :
    from_sources
      (("large", given_profile large_profile) ∷ [])
      (("small", given_profile small_profile) ∷ [])
      "f1"
    ≡ ok two_models
unfolding from_sources new_catalog profiles_of price_profile names_of
two_models_are_built = refl

two_models-IsBuilt : IsBuilt two_models
two_models-IsBuilt = of_sources _ _ "f1" two_models_are_built

-- Of two entries of a snapshot only one has prices.
abbrev host_snapshot : List (String × PriceFields)
host_snapshot =
    (" small ", given_profile small_profile)
    ∷ (
      "bare",
      record {
        given_price_in = none;
        given_cache = none;
        given_cache_price_in = none;
        given_price_out = none;
      },
    )
    ∷ []

abbrev snapshot_catalog : PriceCatalog
snapshot_catalog = record {
  plugin_overrides = [];
  host_models = ("small", small_profile) ∷ ("bare", free_profile) ∷ [];
  host_available = true;
  host_priced_models = "small" ∷ [];
  fingerprint = "f2";
}

snapshot_is_read : from_host_snapshot (some host_snapshot) [] "f2" ≡ ok snapshot_catalog
unfolding from_host_snapshot sanitized strip strip_left strip_right read_models new_catalog
    profiles_of price_profile insert
snapshot_is_read = refl

charge_actual_cases_example :
    ChargeOutcome cents two_models "small" (pos 100) (pos 20) (pos 30) (pos 50)
charge_actual_cases_example =
    charge_actual_cases cents "small" (pos 100) (pos 20) (pos 30) (pos 50) two_models-IsBuilt

metadata_json_cases_example : MetadataOutcome (
    field "call_id"
      (Json.text "c1")
      (field "nested" (fields (field "reasoning" null end_fields)) end_fields))
metadata_json_cases_example = metadata_json_cases (
    field "call_id" (Json.text "c1")
      (field "nested" (fields (field "reasoning" null end_fields)) end_fields))
