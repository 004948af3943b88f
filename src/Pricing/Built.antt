-- ===== src/Pricing/Built.antt =====
-- What the constructors of a price catalog promise, and what its names resolve to.
use maibot_lunagentic_resear.Prelude.{
  Bool-cases, or_default, Ensures, returns, Ensures-bind, Ensures-any, Ensures-ok, Ensures-of_ok,
  String, ◌≡◌, refl, inl, inr, Bool, true, false, Option, none, some, List, [], ◌∷◌, arith, ◌==◌,
}
use maibot_lunagentic_resear.Dict.{Dict, lookup, contains, insert}
use maibot_lunagentic_resear.Dict.Totals.{lookup-insert}
use maibot_lunagentic_resear.Pricing.{
  PriceProfile, free_profile, PriceCatalog, is_member, resolve_model,
}
use maibot_lunagentic_resear.Pricing.Sources.{
  PriceFields, profile_from_source, profiles_of, names_of, new_catalog, from_sources, has_prices,
  sanitized, read_models, from_host_snapshot, with_plugin_overrides, fields_of,
  replace_host_snapshot,
}
use maibot_lunagentic_resear.Pricing.Catalog.{
  IsPriced, price_profile-IsPriced, ArePriced, IsCatalog, IsBuilt, of_sources, of_snapshot,
  with_overrides, with_snapshot, Resolves, free_profile-IsPriced, IsCatalog-Resolves,
}

profiles_of-ArePriced : (sources : Dict PriceFields) → Ensures ArePriced (profiles_of sources)
unfolding profiles_of
profiles_of-ArePriced [] = returns tt
profiles_of-ArePriced ((name, source) ∷ sources) =
    Ensures-bind IsPriced ArePriced {m = profile_from_source source}
      (Ensures-of_ok IsPriced _ λ profile h. price_profile-IsPriced _ _ _ _ h)
      λ profile p.
        Ensures-bind ArePriced ArePriced {m = profiles_of sources} (profiles_of-ArePriced sources)
          λ profiles ps. returns (p, ps)

-- Each priced name has a profile.
abbrev AreKnown : List String → Dict PriceProfile → Type 0
AreKnown priced models =
    (name : String) → is_member name priced ≡ true → contains name models ≡ true

names_of-AreKnown : (models : Dict PriceProfile) → AreKnown (names_of models) models
unfolding is_member names_of lookup
names_of-AreKnown [] name h = absurd (ground (arith, h))
names_of-AreKnown ((other, profile) ∷ models) name h = elim (Bool-cases (other == name)) [
  | inl e ↦ rw e refl
  | inr e ↦ rw e (names_of-AreKnown models name (rw e at h))
]

ArePriced-insert :
    (name : String) (profile : PriceProfile) (models : Dict PriceProfile)
    → IsPriced profile
    → ArePriced models
    → ArePriced (insert name profile models)
unfolding insert
ArePriced-insert name profile [] p ps = (p, tt)
ArePriced-insert name profile ((other, old) ∷ models) p ps = elim (Bool-cases (other == name)) [
  | inl e ↦ rw e (p, ps.1)
  | inr e ↦ rw e (ps.0, ArePriced-insert name profile models p ps.1)
]

AreKnown-insert :
    (new : String) (profile : PriceProfile) (priced : List String) (models : Dict PriceProfile)
    → AreKnown priced models
    → AreKnown priced (insert new profile models)
AreKnown-insert new profile priced models known name h =
    ground (arith, lookup-insert new name profile models, known name h)

AreKnown-cons :
    (new : String) (profile : PriceProfile) (priced : List String) (models : Dict PriceProfile)
    → AreKnown priced models
    → AreKnown (new ∷ priced) (insert new profile models)
unfolding is_member
AreKnown-cons new profile priced models known name h =
    ground (arith, lookup-insert new name profile models, known name, h)

-- What the loop over a snapshot keeps.
abbrev AreRead : Dict PriceProfile × List String → Type 0
AreRead (models, priced) = ArePriced models × AreKnown priced models

read_models-AreRead :
    (entries : List (String × PriceFields)) (models : Dict PriceProfile) (priced : List String)
    → AreRead (models, priced)
    → Ensures AreRead (read_models entries models priced)
unfolding read_models
read_models-AreRead [] models priced r = returns r
read_models-AreRead ((name, source) ∷ entries) models priced r =
    elim (Bool-cases (has_prices source)) [
      | inl e ↦ rw e (
          Ensures-bind IsPriced AreRead {m = profile_from_source source}
            (Ensures-of_ok IsPriced _ λ profile h. price_profile-IsPriced _ _ _ _ h)
            λ profile p. read_models-AreRead entries (insert name profile models) (name ∷ priced) (
              ArePriced-insert name profile models p r.0,
              AreKnown-cons name profile priced models r.1,
            ))
      | inr e ↦ rw e (
          read_models-AreRead entries (insert name free_profile models) priced (
            ArePriced-insert name free_profile models free_profile-IsPriced r.0,
            AreKnown-insert name free_profile priced models r.1,
          ))
    ]

new_catalog-IsCatalog :
    (overrides : Dict PriceFields) (models : Dict PriceProfile) (is_available : Bool)
    (priced : Option (List String)) (fingerprint : String)
    → ArePriced models
    → AreKnown (or_default priced (names_of models)) models
    → Ensures IsCatalog (new_catalog overrides models is_available priced fingerprint)
unfolding new_catalog
new_catalog-IsCatalog overrides models is_available priced fingerprint ps known =
    Ensures-bind ArePriced IsCatalog {m = profiles_of overrides} (profiles_of-ArePriced overrides)
      λ given os.
        returns (record { overrides_priced = os; models_priced = ps; priced_known = known })

from_host_snapshot-IsCatalog :
    (snapshot : Option (List (String × PriceFields))) (overrides : Dict PriceFields)
    (fingerprint : String)
    → Ensures IsCatalog (from_host_snapshot snapshot overrides fingerprint)
unfolding from_host_snapshot
from_host_snapshot-IsCatalog none overrides fingerprint =
    new_catalog-IsCatalog overrides [] false none fingerprint tt (names_of-AreKnown [])
from_host_snapshot-IsCatalog (some snapshot) overrides fingerprint =
    Ensures-bind _ IsCatalog {m = sanitized snapshot} (Ensures-any _) λ safe _.
      Ensures-bind AreRead IsCatalog {m = read_models safe [] []}
        (read_models-AreRead safe [] [] (tt, nobody))
        λ (models, priced) r.
          new_catalog-IsCatalog overrides models true (some priced) fingerprint r.0 r.1
  where
    nobody : AreKnown [] []
    nobody name h = unfold is_member in absurd (ground (arith, h))

from_sources-IsCatalog :
    (overrides models : Dict PriceFields) (fingerprint : String)
    → Ensures IsCatalog (from_sources overrides models fingerprint)
unfolding from_sources
from_sources-IsCatalog overrides models fingerprint =
    Ensures-bind ArePriced IsCatalog {m = profiles_of models} (profiles_of-ArePriced models)
      λ profiles ps.
        new_catalog-IsCatalog overrides profiles true (some (names_of profiles)) fingerprint ps
          (names_of-AreKnown profiles)

with_plugin_overrides-IsCatalog :
    (before : PriceCatalog) (overrides : Dict PriceFields) (fingerprint : String)
    → IsCatalog before
    → Ensures IsCatalog (with_plugin_overrides before overrides fingerprint)
unfolding with_plugin_overrides
with_plugin_overrides-IsCatalog before overrides fingerprint c =
    new_catalog-IsCatalog overrides before.host_models before.host_available
      (some before.host_priced_models) fingerprint c.models_priced c.priced_known

replace_host_snapshot-IsCatalog :
    (before : PriceCatalog) (snapshot : Option (List (String × PriceFields))) (fingerprint : String)
    → IsCatalog before
    → Ensures IsCatalog (replace_host_snapshot before snapshot fingerprint)
unfolding replace_host_snapshot
replace_host_snapshot-IsCatalog before snapshot fingerprint c =
    Ensures-bind IsCatalog IsCatalog
      {m = from_host_snapshot snapshot (fields_of before.plugin_overrides) fingerprint}
      (from_host_snapshot-IsCatalog snapshot (fields_of before.plugin_overrides) fingerprint)
      λ replacement r. returns (record {
        overrides_priced = c.overrides_priced;
        models_priced = r.models_priced;
        priced_known = r.priced_known;
      })

pub IsBuilt-IsCatalog : {catalog : PriceCatalog} → IsBuilt catalog → IsCatalog catalog
IsBuilt-IsCatalog (of_sources overrides models fingerprint h) =
    Ensures-ok IsCatalog (from_sources-IsCatalog overrides models fingerprint) h
IsBuilt-IsCatalog (of_snapshot snapshot overrides fingerprint h) =
    Ensures-ok IsCatalog (from_host_snapshot-IsCatalog snapshot overrides fingerprint) h
IsBuilt-IsCatalog (with_overrides {before} overrides fingerprint built h) =
    let c = IsBuilt-IsCatalog built in
    Ensures-ok IsCatalog (with_plugin_overrides-IsCatalog before overrides fingerprint c) h
IsBuilt-IsCatalog (with_snapshot {before} snapshot fingerprint built h) =
    Ensures-ok IsCatalog
      (replace_host_snapshot-IsCatalog before snapshot fingerprint (IsBuilt-IsCatalog built)) h

pub resolve_model_total :
    {catalog : PriceCatalog} (name : String) (is_actual : Bool)
    → IsBuilt catalog
    → Resolves catalog name is_actual (resolve_model catalog name is_actual)
resolve_model_total {catalog} name is_actual built =
    IsCatalog-Resolves catalog name is_actual (IsBuilt-IsCatalog built)
