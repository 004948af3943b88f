-- ===== src/Credits/Usage.antt =====
-- Token fields, roles and the ledger rows that the credit commands share.
use Prim.Native.Char.{code}
pub mod Reservation
pub mod Reconciliation
pub mod Settlement
pub mod Procedure
pub mod Balance
pub mod Given
use maibot_lunagentic_resear.Prelude.{
  leb, nat_eq, if◌then◌else◌, or_default, ℤ, pos, ltb_ℤ, value_error, Result, ok, err, ◌>>=◌, ◌>>◌,
  ℕ, ◌+◌, String, Bool, true, false, not, ◌&&◌, ◌||◌, Option, none, some, List, [], ◌∷◌,
}
use maibot_lunagentic_resear.Models.{CreditLedgerEntry}
use maibot_lunagentic_resear.Commands.{StoreCommand, insert_credit_ledger}
use maibot_lunagentic_resear.Pricing.{
  TokenUsage, PriceSource, plugin_override, host_config, host_unavailable_free, host_unpriced_free,
  actual_model_unknown_free, ChargedUsage,
}

-- A usage as a mapping, with what it holds under the four keys.
pub record UsageMapping : Type 0 where
  pub prompt_tokens : Option ℤ
  pub completion_tokens : Option ℤ
  pub cache_hit_tokens : Option ℤ
  pub cache_miss_tokens : Option ℤ

pub data UsageArg : Type 0 where
  no_usage : UsageArg
  of_charged : ChargedUsage → UsageArg
  of_tokens : TokenUsage → UsageArg
  of_mapping : UsageMapping → UsageArg

pub record Tokens : Type 0 where
  pub prompt : ℤ
  pub completion : ℤ
  pub hit : ℤ
  pub miss : ℤ

-- The fields that `_token_fields` reads, before they are checked.
abbrev pub raw_tokens : UsageArg → Tokens → Tokens
raw_tokens no_usage defaults = defaults
raw_tokens (of_charged charged) defaults = record {
  prompt = charged.usage.prompt_tokens;
  completion = charged.usage.completion_tokens;
  hit = charged.usage.cache_hit_tokens;
  miss = charged.usage.cache_miss_tokens;
}
raw_tokens (of_tokens usage) defaults = record {
  prompt = usage.prompt_tokens;
  completion = usage.completion_tokens;
  hit = usage.cache_hit_tokens;
  miss = usage.cache_miss_tokens;
}
raw_tokens (of_mapping usage) defaults = record {
  prompt = or_default usage.prompt_tokens defaults.prompt;
  completion = or_default usage.completion_tokens defaults.completion;
  hit = or_default usage.cache_hit_tokens defaults.hit;
  miss = or_default usage.cache_miss_tokens defaults.miss;
}

abbrev pub no_tokens : Tokens
no_tokens = record { prompt = pos 0; completion = pos 0; hit = pos 0; miss = pos 0 }

-- `_nonnegative_int` and `_nonnegative_finite`
abbrev pub nonnegative : ℤ → Result ℤ
nonnegative value = if ltb_ℤ value (pos 0) then err value_error else ok value

unfoldable pub token_fields : UsageArg → Tokens → Result Tokens
token_fields usage defaults = do
  let raw = raw_tokens usage defaults
  prompt ← nonnegative raw.prompt
  completion ← nonnegative raw.completion
  hit ← nonnegative raw.hit
  miss ← nonnegative raw.miss
  ok (record { prompt = prompt; completion = completion; hit = hit; miss = miss })

-- `str.casefold` on the code points, for ASCII letters.
abbrev pub folded : String → List ℕ
folded String.[] = []
folded (String.◌∷◌ c s) =
    (if leb b'A' (code c) && leb (code c) b'Z' then code c + 32 else code c) ∷ folded s

unfoldable pub same_codes : List ℕ → List ℕ → Bool
same_codes [] [] = true
same_codes (a ∷ s) (b ∷ t) = nat_eq a b && same_codes s t
same_codes _ _ = false

unfoldable pub is_role_of : String → List String → Bool
is_role_of role [] = false
is_role_of role (name ∷ names) = same_codes (folded role) (folded name) || is_role_of role names

abbrev pub summarizer_roles : List String
summarizer_roles =
    "summarizer" ∷ "summary" ∷ "formalizer" ∷ "formalization" ∷ "checkpoint_summarizer"
    ∷ "branch_summarizer" ∷ "task_summarizer" ∷ []

unfoldable pub is_summarizer_role : String → Bool
is_summarizer_role role = is_role_of role summarizer_roles

abbrev pub is_research_role : String → Bool
is_research_role role = not (is_summarizer_role role)

abbrev pub source_name : PriceSource → String
source_name plugin_override = "plugin_override"
source_name host_config = "host_config"
source_name host_unavailable_free = "host_unavailable_free"
source_name host_unpriced_free = "host_unpriced_free"
source_name actual_model_unknown_free = "actual_model_unknown_free"

-- The command bundle of a reservation, a reconciliation or a charge.
abbrev pub ledger_commands : Option CreditLedgerEntry → List StoreCommand
ledger_commands none = []
ledger_commands (some entry) = insert_credit_ledger entry ∷ []
