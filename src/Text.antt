-- ===== src/Text.antt =====
-- Texts that the code builds: decimal numbers (`str(n)`) and the default ids of child branches.
use Prim.Native.Char.{Char, code}
use Prim.Native.String.{◌++◌ as ◌+text◌}
pub mod Decimal
use maibot_lunagentic_resear.Prelude.{
  ltb, leb, nat_eq, if◌then◌else◌, is_empty, ℕ, zero, suc, ◌+◌, ◌/◌, ◌%◌, String, Bool, ◌&&◌, ◌||◌,
  [], ◌∷◌, ◌++◌,
}

abbrev pub digit_char : ℕ → Char
digit_char d =
    if nat_eq d 0
    then "0"
    else if nat_eq d 1
    then "1"
    else if nat_eq d 2
    then "2"
    else if nat_eq d 3
    then "3"
    else if nat_eq d 4
    then "4"
    else if nat_eq d 5
    then "5"
    else if nat_eq d 6
    then "6"
    else if nat_eq d 7
    then "7"
    else if nat_eq d 8
    then "8"
    else "9"

-- The digits of `n` in front of `rest`, the last digit first; a fuel above `n` is enough.
unfoldable pub decimal : ℕ → ℕ → String → String
decimal zero n rest = rest
decimal (suc fuel) n rest =
    let longer = decimal fuel (n / 10) (String.◌∷◌ (digit_char (n % 10)) rest) in
    if ltb n 10 then String.◌∷◌ (digit_char n) rest else longer

-- `str(n)`
unfoldable pub str : ℕ → String
str n = decimal (suc n) n ""

-- f"{parent_branch_id}:{index + 1}"
unfoldable pub child_branch_id : String → ℕ → String
child_branch_id parent_branch_id index = parent_branch_id +text ":" +text str (index + 1)

-- f"{call_id}:correction", f"{usage_key}:reconciled"
unfoldable pub with_suffix : String → String → String
with_suffix id suffix = id +text ":" +text suffix

-- `str.isspace`, the blanks of `str.strip`
abbrev is_between : ℕ → ℕ → ℕ → Bool
is_between low high n = leb low n && leb n high

abbrev is_blank : Char → Bool
is_blank c =
    let n = code c in
    is_between 9 13 n
    || is_between 28 32 n
    || nat_eq n 133
    || nat_eq n 160
    || nat_eq n 5760
    || is_between 8192 8202 n
    || is_between 8232 8233 n
    || nat_eq n 8239
    || nat_eq n 8287
    || nat_eq n 12288

-- `str.strip`
unfoldable pub strip_left : String → String
strip_left String.[] = ""
strip_left (String.◌∷◌ c s) = let rest = strip_left s in if is_blank c then rest else String.◌∷◌ c s

unfoldable pub strip_right : String → String
strip_right String.[] = ""
strip_right (String.◌∷◌ c s) =
    let rest = strip_right s in if is_blank c && is_empty rest then "" else String.◌∷◌ c rest

unfoldable pub strip : String → String
strip s = strip_right (strip_left s)

-- f"model:{name}"
unfoldable pub pinned_selector : String → String
pinned_selector name = "model:" +text name
