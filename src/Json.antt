-- ===== src/Json.antt =====
-- JSON values, and the check of credits.py and models.py that no metadata carries reasoning.
pub mod Reasoning
use maibot_lunagentic_resear.Prelude.{
  if◌then◌else◌, ℤ, value_error, Result, ok, err, String, Bool, false, ◌||◌, Option, none, some,
  ◌==◌,
}

-- A list or tuple is `items`, a mapping `fields`; numbers are credits or counts.
mutual
  pub data Json : Type 0 where
    null : Json
    flag : Bool → Json
    number : ℤ → Json
    text : String → Json
    items : JsonList → Json
    fields : JsonFields → Json

  pub data JsonList : Type 0 where
    end : JsonList
    item : Json → JsonList → JsonList

  pub data JsonFields : Type 0 where
    end_fields : JsonFields
    field : String → Json → JsonFields → JsonFields

-- `_contains_reasoning` and `_metadata_contains_reasoning`
unfoldable mutual
  pub contains_reasoning : Json → Bool
  contains_reasoning null = false
  contains_reasoning (flag b) = false
  contains_reasoning (number n) = false
  contains_reasoning (text s) = false
  contains_reasoning (items xs) = any_contains_reasoning xs
  contains_reasoning (fields fs) = fields_contain_reasoning fs

  pub any_contains_reasoning : JsonList → Bool
  any_contains_reasoning end = false
  any_contains_reasoning (item x xs) = contains_reasoning x || any_contains_reasoning xs

  pub fields_contain_reasoning : JsonFields → Bool
  fields_contain_reasoning end_fields = false
  fields_contain_reasoning (field key value fs) =
      (key == "reasoning" || contains_reasoning value) || fields_contain_reasoning fs

-- `{**base, **extra}`, key by key
unfoldable pub put_field : String → Json → JsonFields → JsonFields
put_field key value end_fields = field key value end_fields
put_field key value (field other w fs) =
    if other == key then field other value fs else field other w (put_field key value fs)

unfoldable pub merge_fields : JsonFields → JsonFields → JsonFields
merge_fields base end_fields = base
merge_fields base (field key value extra) = merge_fields (put_field key value base) extra

abbrev pub optional_text : Option String → Json
optional_text none = null
optional_text (some s) = text s

abbrev pub optional_number : Option ℤ → Json
optional_number none = null
optional_number (some n) = number n

-- `_metadata_json`: the metadata that may be written, here not yet rendered as text.
unfoldable pub metadata_json : JsonFields → Result JsonFields
metadata_json metadata = if fields_contain_reasoning metadata then err value_error else ok metadata
