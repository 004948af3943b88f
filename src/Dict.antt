-- ===== src/Dict.antt =====
-- Python dicts with text keys, as association lists in insertion order.
pub mod Totals
pub mod Keys
use maibot_lunagentic_resear.Prelude.{
  if◌then◌else◌, is_none, or_default, ℤ, pos, ◌+ℤ◌, String, ◌≡◌, refl, Bool, not, Option, none,
  some, List, [], ◌∷◌, ◌==◌,
}

abbrev pub Dict {ℓ} : Type ℓ → Type ℓ
Dict V = List (String × V)

module _ {ℓ} {V : Type ℓ} where
  -- `d.get(k)`
  unfoldable pub lookup : String → Dict V → Option V
  lookup k [] = none
  lookup k ((j, v) ∷ d) = if j == k then some v else lookup k d

  -- `k in d`
  abbrev pub contains : String → Dict V → Bool
  contains key d = not (is_none (lookup key d))

  -- `d[k] = v`
  unfoldable pub insert : String → V → Dict V → Dict V
  insert k v [] = (k, v) ∷ []
  insert k v ((j, w) ∷ d) = if j == k then (j, v) ∷ d else (j, w) ∷ insert k v d

  -- `d.pop(k, None)`
  unfoldable pub erase : String → Dict V → Dict V
  erase k [] = []
  erase k ((j, w) ∷ d) = if j == k then d else (j, w) ∷ erase k d

  -- `d.update(items)`; a dict comprehension is an update of the empty dict.
  unfoldable pub update : Dict V → List (String × V) → Dict V
  update d [] = d
  update d ((k, v) ∷ items) = update (insert k v d) items

-- `d.get(k, 0.0)`
abbrev pub get_or_zero : String → Dict ℤ → ℤ
get_or_zero k d = or_default (lookup k d) (pos 0)

-- `math.fsum(d.values())`
unfoldable pub total : Dict ℤ → ℤ
total [] = pos 0
total ((_, v) ∷ d) = v +ℤ total d

pub total_nil : total [] ≡ pos 0
unfolding total
total_nil = refl

pub lookup_nil {ℓ} : {V : Type ℓ} (k : String) → lookup {V = V} k [] ≡ none
unfolding lookup
lookup_nil k = refl
