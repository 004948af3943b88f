-- ===== src/Pricing/Sources.antt =====
-- lunagentic_research_swarm/llm/pricing.py: how a price catalog is built. The task models, which no
-- model name is resolved by, are left out; a fingerprint is the digest that `_refresh_fingerprint` makes.
use maibot_lunagentic_resear.Prelude.{
  if◌then◌else◌, is_empty, is_none, or_default, ℤ, pos, value_error, Result, ok, ◌>>=◌, ◌>>◌,
  raise_if, String, Bool, true, false, not, ◌&&◌, Option, none, some, List, [], ◌∷◌,
}
use maibot_lunagentic_resear.Dict.{Dict, insert}
use maibot_lunagentic_resear.Text.{strip}
use maibot_lunagentic_resear.Pricing.{PriceProfile, price_profile, free_profile, PriceCatalog}

-- What a mapping or an object gives of the fields of a profile.
pub record PriceFields : Type 0 where
  pub given_price_in : Option ℤ
  pub given_cache : Option Bool
  pub given_cache_price_in : Option ℤ
  pub given_price_out : Option ℤ

-- `_profile_from_source`
abbrev pub profile_from_source : PriceFields → Result PriceProfile
profile_from_source source =
    price_profile (or_default source.given_price_in (pos 0)) (or_default source.given_cache false)
      (or_default source.given_cache_price_in (pos 0)) (or_default source.given_price_out (pos 0))

-- `{str(name): _profile_from_source(value) for name, value in ….items()}`
unfoldable pub profiles_of : Dict PriceFields → Result (Dict PriceProfile)
profiles_of [] = ok []
profiles_of ((name, source) ∷ sources) = do
  profile ← profile_from_source source
  profiles ← profiles_of sources
  ok ((name, profile) ∷ profiles)

-- `set(host_models)`
unfoldable pub names_of : Dict PriceProfile → List String
names_of [] = []
names_of ((name, _) ∷ models) = name ∷ names_of models

-- `__init__`
unfoldable pub new_catalog :
    Dict PriceFields
    → Dict PriceProfile
    → Bool
    → Option (List String)
    → String
    → Result PriceCatalog
new_catalog plugin_overrides host_models host_available host_priced_models fingerprint = do
  overrides ← profiles_of plugin_overrides
  ok (record {
    plugin_overrides = overrides;
    host_models = host_models;
    host_available = host_available;
    host_priced_models = or_default host_priced_models (names_of host_models);
    fingerprint = fingerprint;
  })

unfoldable pub from_sources : Dict PriceFields → Dict PriceFields → String → Result PriceCatalog
from_sources plugin_overrides host_models fingerprint = do
  profiles ← profiles_of host_models
  new_catalog plugin_overrides profiles true (some (names_of profiles)) fingerprint

-- `len(raw) > 1`: an entry that gives more than its name
abbrev pub has_prices : PriceFields → Bool
has_prices source = not (
    is_none source.given_price_in
    && is_none source.given_cache
    && is_none source.given_cache_price_in
    && is_none source.given_price_out)

-- The entries of `sanitize_host_snapshot`.
abbrev pub sanitized_entry : String × PriceFields → Result (String × PriceFields)
sanitized_entry (name, source) = do
  raise_if (is_empty (strip name)) value_error
  checked ← if has_prices source then profile_from_source source else ok free_profile
  ok (strip name, source)

unfoldable pub sanitized : List (String × PriceFields) → Result (List (String × PriceFields))
sanitized [] = ok []
sanitized (entry ∷ entries) = do
  safe ← sanitized_entry entry
  others ← sanitized entries
  ok (safe ∷ others)

-- The loop of `from_host_snapshot`: the models, and the names of those with prices.
unfoldable pub read_models :
    List (String × PriceFields)
    → Dict PriceProfile
    → List String
    → Result (Dict PriceProfile × List String)
read_models [] models priced = ok (models, priced)
read_models ((name, source) ∷ entries) models priced =
    if has_prices source
    then (profile_from_source source >>= λ profile.
        read_models entries (insert name profile models) (name ∷ priced))
    else read_models entries (insert name free_profile models) priced

unfoldable pub from_host_snapshot :
    Option (List (String × PriceFields)) → Dict PriceFields → String → Result PriceCatalog
from_host_snapshot none plugin_overrides fingerprint =
    new_catalog plugin_overrides [] false none fingerprint
from_host_snapshot (some snapshot) plugin_overrides fingerprint = do
  safe ← sanitized snapshot
  (models, priced) ← read_models safe [] []
  new_catalog plugin_overrides models true (some priced) fingerprint

unfoldable pub with_plugin_overrides :
    PriceCatalog → Dict PriceFields → String → Result PriceCatalog
with_plugin_overrides catalog plugin_overrides fingerprint =
    new_catalog plugin_overrides catalog.host_models catalog.host_available
      (some catalog.host_priced_models) fingerprint

-- The overrides of a catalog as a source.
unfoldable pub fields_of : Dict PriceProfile → Dict PriceFields
fields_of [] = []
fields_of ((name, profile) ∷ profiles) =
    (
      name,
      record {
        given_price_in = some profile.price_in;
        given_cache = some profile.cache;
        given_cache_price_in = some profile.cache_price_in;
        given_price_out = some profile.price_out;
      },
    )
    ∷ fields_of profiles

-- `replace_host_snapshot`
unfoldable pub replace_host_snapshot :
    PriceCatalog → Option (List (String × PriceFields)) → String → Result PriceCatalog
replace_host_snapshot catalog snapshot fingerprint = do
  replacement ← from_host_snapshot snapshot (fields_of catalog.plugin_overrides) fingerprint
  ok (record catalog {
    host_models = replacement.host_models;
    host_available = replacement.host_available;
    host_priced_models = replacement.host_priced_models;
    fingerprint = fingerprint;
  })
