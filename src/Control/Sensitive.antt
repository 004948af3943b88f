-- ===== src/Control/Sensitive.antt =====
-- Which keys are left in a frozen control request.
use mathlib.Core.Path.{subst}
use maibot_lunagentic_resear.Prelude.{Bool-cases, String, ◌≡◌, refl, ◌↔◌, inl, inr, false, arith}
use maibot_lunagentic_resear.Json.{
  Json, null, flag, number, text, items, fields, JsonList, end, item, JsonFields, end_fields, field,
}
use maibot_lunagentic_resear.Json.Reasoning.{
  HasKey, in_items, in_fields, ItemsHaveKey, in_item, in_rest, FieldsHaveKey, here, in_value,
  in_others,
}
use maibot_lunagentic_resear.Control.{
  is_sensitive, freeze_control_json, freeze_items, freeze_fields,
}
use maibot_lunagentic_resear.Control.Names.{
  IsSensitiveName, is_sensitive-name, is_sensitive-IsSensitiveName,
}

-- The key stands in the value under no key that is dropped, and is not dropped itself.
mutual
  pub data HasOpenKey (lower : String → String) : String → Json → Type 0 where
    open_items :
        {key : String} {xs : JsonList}
        → ItemsHaveOpenKey lower key xs
        → HasOpenKey lower key (items xs)
    open_fields :
        {key : String} {fs : JsonFields}
        → FieldsHaveOpenKey lower key fs
        → HasOpenKey lower key (fields fs)

  pub data ItemsHaveOpenKey (lower : String → String) : String → JsonList → Type 0 where
    open_item :
        {key : String} {x : Json} {xs : JsonList}
        → HasOpenKey lower key x
        → ItemsHaveOpenKey lower key (item x xs)
    open_rest :
        {key : String} {x : Json} {xs : JsonList}
        → ItemsHaveOpenKey lower key xs
        → ItemsHaveOpenKey lower key (item x xs)

  pub data FieldsHaveOpenKey (lower : String → String) : String → JsonFields → Type 0 where
    open_here :
        {key name : String} {v : Json} {fs : JsonFields}
        → name ≡ key
        → (¬ IsSensitiveName (lower name))
        → FieldsHaveOpenKey lower key (field name v fs)
    open_value :
        {key name : String} {v : Json} {fs : JsonFields}
        → (¬ IsSensitiveName (lower name))
        → HasOpenKey lower key v
        → FieldsHaveOpenKey lower key (field name v fs)
    open_others :
        {key name : String} {v : Json} {fs : JsonFields}
        → FieldsHaveOpenKey lower key fs
        → FieldsHaveOpenKey lower key (field name v fs)

module _ (lower : String → String) (key : String) where
  not_sensitive : (name : String) → is_sensitive lower name ≡ false → ¬ IsSensitiveName (lower name)
  not_sensitive name e sensitive =
      let dropped = is_sensitive-name lower name sensitive refl in
      absurd (ground (arith, e, dropped))

  kept_field :
      (name : String) {v : Json} {fs : JsonFields}
      → (¬ IsSensitiveName (lower name))
      → (HasKey key (freeze_control_json lower v) → HasOpenKey lower key v)
      → (FieldsHaveKey key (freeze_fields lower fs) → FieldsHaveOpenKey lower key fs)
      → FieldsHaveKey key (field name (freeze_control_json lower v) (freeze_fields lower fs))
      → FieldsHaveOpenKey lower key (field name v fs)
  kept_field name o in_v in_fs (here same) = open_here same o
  kept_field name o in_v in_fs (in_value h) = open_value o (in_v h)
  kept_field name o in_v in_fs (in_others h) = open_others (in_fs h)

  mutual
    unfolding freeze_control_json

    freeze-HasOpenKey :
        (value : Json) → HasKey key (freeze_control_json lower value) → HasOpenKey lower key value
    freeze-HasOpenKey null h = elim h [ ]
    freeze-HasOpenKey (flag _) h = elim h [ ]
    freeze-HasOpenKey (number _) h = elim h [ ]
    freeze-HasOpenKey (text _) h = elim h [ ]
    freeze-HasOpenKey (items xs) (in_items h) = open_items (freeze_items-HasOpenKey xs h)
    freeze-HasOpenKey (fields fs) (in_fields h) = open_fields (freeze_fields-HasOpenKey fs h)

    freeze_items-HasOpenKey :
        (xs : JsonList) → ItemsHaveKey key (freeze_items lower xs) → ItemsHaveOpenKey lower key xs
    freeze_items-HasOpenKey end h = elim h [ ]
    freeze_items-HasOpenKey (item x xs) (in_item h) = open_item (freeze-HasOpenKey x h)
    freeze_items-HasOpenKey (item x xs) (in_rest h) = open_rest (freeze_items-HasOpenKey xs h)

    freeze_fields-HasOpenKey :
        (fs : JsonFields)
        → FieldsHaveKey key (freeze_fields lower fs)
        → FieldsHaveOpenKey lower key fs
    freeze_fields-HasOpenKey end_fields h = elim h [ ]
    freeze_fields-HasOpenKey (field name v fs) h = elim (Bool-cases (is_sensitive lower name)) [
      | inl e ↦ open_others (freeze_fields-HasOpenKey fs (rw e at h))
      | inr e ↦
          kept_field name (not_sensitive name e) (freeze-HasOpenKey v) (freeze_fields-HasOpenKey fs)
            (rw e at h)
    ]

  dropped_field :
      (name : String) {v : Json} {fs : JsonFields}
      → IsSensitiveName (lower name)
      → (FieldsHaveOpenKey lower key fs → FieldsHaveKey key (freeze_fields lower fs))
      → FieldsHaveOpenKey lower key (field name v fs)
      → FieldsHaveKey key (freeze_fields lower fs)
  dropped_field name s in_fs (open_here same o) = absurd (o s)
  dropped_field name s in_fs (open_value o h) = absurd (o s)
  dropped_field name s in_fs (open_others h) = in_fs h

  open_field :
      (name : String) {v : Json} {fs : JsonFields}
      → (HasOpenKey lower key v → HasKey key (freeze_control_json lower v))
      → (FieldsHaveOpenKey lower key fs → FieldsHaveKey key (freeze_fields lower fs))
      → FieldsHaveOpenKey lower key (field name v fs)
      → FieldsHaveKey key (field name (freeze_control_json lower v) (freeze_fields lower fs))
  open_field name in_v in_fs (open_here same o) = here same
  open_field name in_v in_fs (open_value o h) = in_value (in_v h)
  open_field name in_v in_fs (open_others h) = in_others (in_fs h)

  mutual
    unfolding freeze_control_json

    HasOpenKey-freeze :
        (value : Json) → HasOpenKey lower key value → HasKey key (freeze_control_json lower value)
    HasOpenKey-freeze null h = elim h [ ]
    HasOpenKey-freeze (flag _) h = elim h [ ]
    HasOpenKey-freeze (number _) h = elim h [ ]
    HasOpenKey-freeze (text _) h = elim h [ ]
    HasOpenKey-freeze (items xs) (open_items h) = in_items (HasOpenKey-freeze_items xs h)
    HasOpenKey-freeze (fields fs) (open_fields h) = in_fields (HasOpenKey-freeze_fields fs h)

    HasOpenKey-freeze_items :
        (xs : JsonList) → ItemsHaveOpenKey lower key xs → ItemsHaveKey key (freeze_items lower xs)
    HasOpenKey-freeze_items end h = elim h [ ]
    HasOpenKey-freeze_items (item x xs) (open_item h) = in_item (HasOpenKey-freeze x h)
    HasOpenKey-freeze_items (item x xs) (open_rest h) = in_rest (HasOpenKey-freeze_items xs h)

    HasOpenKey-freeze_fields :
        (fs : JsonFields)
        → FieldsHaveOpenKey lower key fs
        → FieldsHaveKey key (freeze_fields lower fs)
    HasOpenKey-freeze_fields end_fields h = elim h [ ]
    HasOpenKey-freeze_fields (field name v fs) h = elim (Bool-cases (is_sensitive lower name)) [
      | inl e ↦ rw e (
          dropped_field name (is_sensitive-IsSensitiveName lower name e)
            (HasOpenKey-freeze_fields fs) h)
      | inr e ↦ rw e (open_field name (HasOpenKey-freeze v) (HasOpenKey-freeze_fields fs) h)
    ]

mutual
  open_not_sensitive :
      {lower : String → String} {key : String} {value : Json}
      → HasOpenKey lower key value
      → ¬ IsSensitiveName (lower key)
  open_not_sensitive (open_items h) = items_not_sensitive h
  open_not_sensitive (open_fields h) = fields_not_sensitive h

  items_not_sensitive :
      {lower : String → String} {key : String} {xs : JsonList}
      → ItemsHaveOpenKey lower key xs
      → ¬ IsSensitiveName (lower key)
  items_not_sensitive (open_item h) = open_not_sensitive h
  items_not_sensitive (open_rest h) = items_not_sensitive h

  fields_not_sensitive :
      {lower : String → String} {key : String} {fs : JsonFields}
      → FieldsHaveOpenKey lower key fs
      → ¬ IsSensitiveName (lower key)
  fields_not_sensitive {lower} (open_here same o) =
      subst (λ (k : String). ¬ IsSensitiveName (lower k)) same o
  fields_not_sensitive (open_value o h) = open_not_sensitive h
  fields_not_sensitive (open_others h) = fields_not_sensitive h

-- A frozen control request has the keys of the request, at any depth of mappings and lists, that neither
-- are nor stand below a key that `str.lower` turns into one of the ten sensitive names; so no key of it is
-- sensitive, in whatever case it is written.
pub freeze_control_json-no_sensitive :
    (lower : String → String) (key : String) (value : Json)
    → (HasKey key (freeze_control_json lower value) ↔ HasOpenKey lower key value)
      × (HasKey key (freeze_control_json lower value) → ¬ IsSensitiveName (lower key))
freeze_control_json-no_sensitive lower key value = (
  (freeze-HasOpenKey lower key value, HasOpenKey-freeze lower key value),
  λ h. open_not_sensitive (freeze-HasOpenKey lower key value h),
)
