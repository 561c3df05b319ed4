-- ===== src/Policy/Redact.antt =====
-- internal/policy/pii.go: redaction of sensitive text.
use rune_mcp.Prelude.{
  ℕ, ◌≤◌, ◌≡◌, refl, List, [], ◌∷◌, ◌++◌, String, arith, All, length, length-take, take,
}
use rune_mcp.Prelude.Text.{Text, codes, decimal, join}
use rune_mcp.Policy.Regexp.{Regexp}
use rune_mcp.Policy.Truncate.{trunc_runes, trunc_runes-eq-take}

-- MaxInputChars of record_builder.go
abbrev pub max_input_chars : ℕ
max_input_chars = 12000

pub record SensitivePattern : Type 0 where
  pub regex : String
  pub replacement : String

abbrev pub sensitive_patterns : List SensitivePattern
sensitive_patterns =
    record {
      regex = "(?i)\\b[A-Za-z0-9._%+\\-]+@[A-Za-z0-9.\\-]+\\.[A-Za-z]{2,}\\b";
      replacement = "[EMAIL]";
    }
    ∷ record { regex = "\\b\\d{3}[-.]?\\d{3}[-.]?\\d{4}\\b"; replacement = "[PHONE]" }
    ∷ record {
      regex = "(?i)\\b(?:sk|pk|api|key|token|secret|password)[_\\-][a-zA-Z0-9_\\-]{15,}\\b";
      replacement = "[API_KEY]";
    }
    ∷ record { regex = "\\b[A-Za-z0-9]{32,}\\b"; replacement = "[API_KEY]" }
    ∷ record {
      regex = "\\b[0-9]{4}[-\\s]?[0-9]{4}[-\\s]?[0-9]{4}[-\\s]?[0-9]{4}\\b";
      replacement = "[CARD]";
    }
    ∷ []

module _ ⦃rx : Regexp⦄ where
  -- The loop over the patterns, from a text and the notes so far.
  unfoldable pub redact_loop : List SensitivePattern → Text → List Text → Text × List Text
  redact_loop [] redacted notes = (redacted, notes)
  redact_loop (sp ∷ sps) redacted notes =
      let found = length (rx.find_all sp.regex redacted) in
      let hit = redact_loop sps (rx.replace_all sp.regex redacted (codes sp.replacement)) (
        notes
        ++ (codes "Redacted " ++ (decimal found ++ (codes " " ++ codes sp.replacement))) ∷ []) in
      let miss = redact_loop sps redacted notes in
      elim (rx.find_all sp.regex redacted) [ [] ↦ miss | m ∷ ms ↦ hit ]

  -- The note of no redaction is the empty string, as `join` of no notes is.
  unfoldable pub redact_sensitive : Text → Text × Text
  redact_sensitive text =
      let result = redact_loop sensitive_patterns text [] in
      (trunc_runes result.0 max_input_chars, join result.1 (codes "; "))

  redact_loop_clean :
      (sps : List SensitivePattern) (text : Text) (notes : List Text)
      → All (λ sp. rx.find_all sp.regex text ≡ []) sps
      → redact_loop sps text notes ≡ (text, notes)
  unfolding redact_loop
  redact_loop_clean [] text notes h = refl
  redact_loop_clean (sp ∷ sps) text notes h =
      rw (h.0, redact_loop) (redact_loop_clean sps text notes h.1)

  -- The redacted text never has more than 12000 runes; a text in which no pattern occurs comes back
  -- as its first 12000 runes, with an empty note.
  pub redact_sensitive_clean :
      (text : Text)
      → (length (redact_sensitive text).0 ≤ 12000)
        × (All (λ sp. rx.find_all sp.regex text ≡ []) sensitive_patterns
            → redact_sensitive text ≡ (take 12000 text, []))
  unfolding redact_sensitive join
  redact_sensitive_clean text = (
    rw trunc_runes-eq-take
        (omega (arith, length-take 12000 (redact_loop sensitive_patterns text []).0)),
    λ h. rw (redact_loop_clean sensitive_patterns text [] h) (rw (trunc_runes-eq-take text 12000)),
  )
