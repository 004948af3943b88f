-- ===== src/Control.antt =====
-- lunagentic_research_swarm/procedures/core.py: what a control request may carry.
pub mod Names
pub mod Sensitive
use maibot_lunagentic_resear.Prelude.{if◌then◌else◌, String, Bool, ◌||◌, ◌==◌}
use maibot_lunagentic_resear.Json.{
  Json, null, flag, number, text, items, fields, JsonList, end, item, JsonFields, end_fields, field,
}

-- `str(key).lower() not in _SENSITIVE_CONTROL_KEYS`; `lower` is `str.lower`, a table of Unicode.
unfoldable pub is_sensitive : (String → String) → String → Bool
is_sensitive lower key =
    let name = lower key in
    name == "reasoning"
    || name == "raw_payload"
    || name == "raw_provenance"
    || name == "raw_payloads"
    || name == "raw_result"
    || name == "raw_arguments"
    || name == "provenance"
    || name == "payload"
    || name == "transcript"
    || name == "messages"

-- `_freeze_control_json`
unfoldable mutual
  pub freeze_control_json : (String → String) → Json → Json
  freeze_control_json lower null = null
  freeze_control_json lower (flag b) = flag b
  freeze_control_json lower (number n) = number n
  freeze_control_json lower (text s) = text s
  freeze_control_json lower (items xs) = items (freeze_items lower xs)
  freeze_control_json lower (fields fs) = fields (freeze_fields lower fs)

  pub freeze_items : (String → String) → JsonList → JsonList
  freeze_items lower end = end
  freeze_items lower (item x xs) = item (freeze_control_json lower x) (freeze_items lower xs)

  pub freeze_fields : (String → String) → JsonFields → JsonFields
  freeze_fields lower end_fields = end_fields
  freeze_fields lower (field key value fs) =
      if is_sensitive lower key
      then freeze_fields lower fs
      else field key (freeze_control_json lower value) (freeze_fields lower fs)
