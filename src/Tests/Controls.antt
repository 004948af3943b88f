-- ===== src/Tests/Controls.antt =====
-- A control request with a sensitive key, in a mixed case.
use Prim.Native.Char.{Char, code}
use maibot_lunagentic_resear.Prelude.{nat_eq, if◌then◌else◌, pos, String, ◌≡◌, refl, ◌↔◌}
use maibot_lunagentic_resear.Json.{Json, number, text, items, fields, end, item, end_fields, field}
use maibot_lunagentic_resear.Json.Reasoning.{HasKey}
use maibot_lunagentic_resear.Control.{is_sensitive, freeze_control_json}
use maibot_lunagentic_resear.Control.Names.{IsSensitiveName}
use maibot_lunagentic_resear.Control.Sensitive.{HasOpenKey, freeze_control_json-no_sensitive}

-- `str.lower` on the letters that the keys below have in upper case.
abbrev lower_char : Char → Char
lower_char c =
    if nat_eq (code c) 68
    then "d"
    else if nat_eq (code c) 76
    then "l"
    else if nat_eq (code c) 80
    then "p"
    else c

abbrev lower_case : String → String
lower_case String.[] = ""
lower_case (String.◌∷◌ c s) = String.◌∷◌ (lower_char c) (lower_case s)

-- `{"arguments": [{"Depth": 3, "PayLoad": "x"}]}`
abbrev nested_request : Json
nested_request = fields (
    field "arguments"
      (items (
        item (fields (field "Depth" (number (pos 3)) (field "PayLoad" (text "x") end_fields))) end))
      end_fields)

abbrev frozen_request : Json
frozen_request = fields (
    field "arguments" (items (item (fields (field "Depth" (number (pos 3)) end_fields)) end))
      end_fields)

payload_is_dropped : freeze_control_json lower_case nested_request ≡ frozen_request
unfolding freeze_control_json is_sensitive
payload_is_dropped = refl

freeze_control_json-no_sensitive_example :
    (HasKey "PayLoad" frozen_request ↔ HasOpenKey lower_case "PayLoad" nested_request)
    × (HasKey "PayLoad" frozen_request → ¬ IsSensitiveName (lower_case "PayLoad"))
unfolding freeze_control_json is_sensitive
freeze_control_json-no_sensitive_example =
    freeze_control_json-no_sensitive lower_case "PayLoad" nested_request
