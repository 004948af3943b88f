-- ===== src/Control/Names.antt =====
-- The sensitive names of procedures/core.py, `_SENSITIVE_CONTROL_KEYS`, and the test for them.
use mathlib.Core.Path.{subst}
use maibot_lunagentic_resear.Prelude.{
  String, ◌≡◌, refl, sym, ◌⊎◌, inl, inr, Bool, true, false, ◌||◌, ◌==◌, eq_iff,
}
use maibot_lunagentic_resear.Control.{is_sensitive}

-- The keys that a control request does not keep, in lower case.
pub data IsSensitiveName : String → Type 0 where
  reasoning_name : IsSensitiveName "reasoning"
  raw_payload_name : IsSensitiveName "raw_payload"
  raw_provenance_name : IsSensitiveName "raw_provenance"
  raw_payloads_name : IsSensitiveName "raw_payloads"
  raw_result_name : IsSensitiveName "raw_result"
  raw_arguments_name : IsSensitiveName "raw_arguments"
  provenance_name : IsSensitiveName "provenance"
  payload_name : IsSensitiveName "payload"
  transcript_name : IsSensitiveName "transcript"
  messages_name : IsSensitiveName "messages"

pub is_sensitive-name :
    (lower : String → String) (key : String) {name : String}
    → IsSensitiveName name
    → lower key ≡ name
    → is_sensitive lower key ≡ true
unfolding is_sensitive
is_sensitive-name lower key reasoning_name h = rw h refl
is_sensitive-name lower key raw_payload_name h = rw h refl
is_sensitive-name lower key raw_provenance_name h = rw h refl
is_sensitive-name lower key raw_payloads_name h = rw h refl
is_sensitive-name lower key raw_result_name h = rw h refl
is_sensitive-name lower key raw_arguments_name h = rw h refl
is_sensitive-name lower key provenance_name h = rw h refl
is_sensitive-name lower key payload_name h = rw h refl
is_sensitive-name lower key transcript_name h = rw h refl
is_sensitive-name lower key messages_name h = rw h refl

or_true : (a b : Bool) → a || b ≡ true → (a ≡ true) ⊎ (b ≡ true)
or_true true b h = inl refl
or_true false b h = inr h

named :
    (name : String) {word : String}
    → IsSensitiveName word
    → name == word ≡ true
    → IsSensitiveName name
named name {word} s e = subst IsSensitiveName (sym ((eq_iff name word).0 e)) s

pub is_sensitive-IsSensitiveName :
    (lower : String → String) (key : String)
    → is_sensitive lower key ≡ true
    → IsSensitiveName (lower key)
unfolding is_sensitive
is_sensitive-IsSensitiveName lower key h = go (lower key) h
  where
    go :
        (name : String)
        → (name == "reasoning"
            || name == "raw_payload"
            || name == "raw_provenance"
            || name == "raw_payloads"
            || name == "raw_result"
            || name == "raw_arguments"
            || name == "provenance"
            || name == "payload"
            || name == "transcript"
            || name == "messages")
          ≡ true
        → IsSensitiveName name
    go name h9 = elim (or_true _ _ h9) [
      | inr e ↦ named name messages_name e
      | inl h8 ↦ elim (or_true _ _ h8) [
        | inr e ↦ named name transcript_name e
        | inl h7 ↦ elim (or_true _ _ h7) [
          | inr e ↦ named name payload_name e
          | inl h6 ↦ elim (or_true _ _ h6) [
            | inr e ↦ named name provenance_name e
            | inl h5 ↦ elim (or_true _ _ h5) [
              | inr e ↦ named name raw_arguments_name e
              | inl h4 ↦ elim (or_true _ _ h4) [
                | inr e ↦ named name raw_result_name e
                | inl h3 ↦ elim (or_true _ _ h3) [
                  | inr e ↦ named name raw_payloads_name e
                  | inl h2 ↦ elim (or_true _ _ h2) [
                    | inr e ↦ named name raw_provenance_name e
                    | inl h1 ↦ elim (or_true _ _ h1) [
                      | inr e ↦ named name raw_payload_name e
                      | inl h0 ↦ named name reasoning_name h0
                    ]
                  ]
                ]
              ]
            ]
          ]
        ]
      ]
    ]
