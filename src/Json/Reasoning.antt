-- ===== src/Json/Reasoning.antt =====
-- What `_metadata_json` refuses: the key "reasoning" at any depth.
use maibot_lunagentic_resear.Prelude.{
  Bool-cases, value_error, ok, err, String, ◌≡◌, ◌⊎◌, inl, inr, true, arith, ◌==◌, eq_iff,
}
use maibot_lunagentic_resear.Json.{
  Json, null, flag, number, text, items, fields, JsonList, end, item, JsonFields, end_fields, field,
  contains_reasoning, any_contains_reasoning, fields_contain_reasoning, metadata_json,
}

-- The key stands somewhere in the value.
mutual
  pub data HasKey : String → Json → Type 0 where
    in_items : {key : String} {xs : JsonList} → ItemsHaveKey key xs → HasKey key (items xs)
    in_fields : {key : String} {fs : JsonFields} → FieldsHaveKey key fs → HasKey key (fields fs)

  pub data ItemsHaveKey : String → JsonList → Type 0 where
    in_item :
        {key : String} {x : Json} {xs : JsonList} → HasKey key x → ItemsHaveKey key (item x xs)
    in_rest :
        {key : String} {x : Json} {xs : JsonList}
        → ItemsHaveKey key xs
        → ItemsHaveKey key (item x xs)

  pub data FieldsHaveKey : String → JsonFields → Type 0 where
    here :
        {key name : String} {v : Json} {fs : JsonFields}
        → name ≡ key
        → FieldsHaveKey key (field name v fs)
    in_value :
        {key name : String} {v : Json} {fs : JsonFields}
        → HasKey key v
        → FieldsHaveKey key (field name v fs)
    in_others :
        {key name : String} {v : Json} {fs : JsonFields}
        → FieldsHaveKey key fs
        → FieldsHaveKey key (field name v fs)

mutual
  unfolding contains_reasoning

  contains_reasoning-HasKey :
      (value : Json) → contains_reasoning value ≡ true → HasKey "reasoning" value
  contains_reasoning-HasKey null h = absurd (ground arith)
  contains_reasoning-HasKey (flag b) h = absurd (ground arith)
  contains_reasoning-HasKey (number n) h = absurd (ground arith)
  contains_reasoning-HasKey (text s) h = absurd (ground arith)
  contains_reasoning-HasKey (items xs) h = in_items (any-ItemsHaveKey xs h)
  contains_reasoning-HasKey (fields fs) h = in_fields (fields-FieldsHaveKey fs h)

  any-ItemsHaveKey :
      (xs : JsonList) → any_contains_reasoning xs ≡ true → ItemsHaveKey "reasoning" xs
  any-ItemsHaveKey end h = absurd (ground arith)
  any-ItemsHaveKey (item x xs) h = elim (Bool-cases (contains_reasoning x)) [
    | inl e ↦ in_item (contains_reasoning-HasKey x e)
    | inr e ↦ in_rest (any-ItemsHaveKey xs (rw e at h))
  ]

  fields-FieldsHaveKey :
      (fs : JsonFields) → fields_contain_reasoning fs ≡ true → FieldsHaveKey "reasoning" fs
  fields-FieldsHaveKey end_fields h = absurd (ground arith)
  fields-FieldsHaveKey (field key value fs) h = elim (Bool-cases (key == "reasoning")) [
    | inl e ↦ FieldsHaveKey.here ((eq_iff key "reasoning").0 e)
    | inr other ↦ elim (Bool-cases (contains_reasoning value)) [
      | inl e ↦ in_value (contains_reasoning-HasKey value e)
      | inr e ↦ in_others (fields-FieldsHaveKey fs (rw (other, e) at h))
    ]
  ]

mutual
  unfolding contains_reasoning

  HasKey-contains_reasoning :
      {value : Json} → HasKey "reasoning" value → contains_reasoning value ≡ true
  HasKey-contains_reasoning (in_items h) = items-contains h
  HasKey-contains_reasoning (in_fields h) = fields-contain h

  items-contains : {xs : JsonList} → ItemsHaveKey "reasoning" xs → any_contains_reasoning xs ≡ true
  items-contains (in_item h) = rw (HasKey-contains_reasoning h)
  items-contains (in_rest {x = x} h) = ground (arith, items-contains h)

  fields-contain :
      {fs : JsonFields} → FieldsHaveKey "reasoning" fs → fields_contain_reasoning fs ≡ true
  fields-contain (FieldsHaveKey.here {name = name} e) = ground (arith, eq_iff name "reasoning")
  fields-contain (in_value h) = ground (arith, HasKey-contains_reasoning h)
  fields-contain (in_others h) = ground (arith, fields-contain h)

abbrev pub MetadataOutcome : JsonFields → Type 0
MetadataOutcome metadata =
    ((¬ FieldsHaveKey "reasoning" metadata) × (metadata_json metadata ≡ ok metadata))
    ⊎ (FieldsHaveKey "reasoning" metadata × (metadata_json metadata ≡ err value_error))

-- Metadata is written, unchanged, exactly if the key "reasoning" stands nowhere in it; otherwise
-- the writer raises `ValueError`.
pub metadata_json_cases : (metadata : JsonFields) → MetadataOutcome metadata
unfolding metadata_json
metadata_json_cases metadata = elim (Bool-cases (fields_contain_reasoning metadata)) [
  | inl e ↦ inr (fields-FieldsHaveKey metadata e, rw e)
  | inr e ↦ inl ((λ h. cc (e, fields-contain h)), rw e)
]
