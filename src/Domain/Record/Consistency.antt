-- ===== src/Domain/Record/Consistency.antt =====
-- The evidence rules of internal/domain/schema.go: a supported record has a quote, an accepted one
-- has evidence.
use rune_mcp.Prelude.{Bool, true, false, not, ◌&&◌, List, [], ◌∷◌, ◌++◌, ◌≡◌, arith, if◌then◌else◌}
use rune_mcp.Prelude.Text.{Text, codes, is_empty, member}
use rune_mcp.Domain.Record.{DecisionRecord, Evidence, Certainty, Status}

-- The loop for `hasQuotes`.
unfoldable pub has_quotes : List Evidence → Bool
has_quotes [] = false
has_quotes (e ∷ es) = if is_empty e.quote then has_quotes es else true

abbrev pub is_supported : Certainty → Bool
is_supported Certainty.supported = true
is_supported _ = false

abbrev pub is_accepted : Status → Bool
is_accepted Status.accepted = true
is_accepted _ = false

abbrev pub no_items {ℓ} : {A : Type ℓ} → List A → Bool
no_items [] = true
no_items (x ∷ xs) = false

abbrev pub no_quotes_marker : Text
no_quotes_marker = codes "No direct quotes found in evidence"

add_missing : Text → List Text → List Text
add_missing m xs = if member m xs then xs else xs ++ m ∷ []

module _ {F : Type 0} where
  -- The two rules in turn, on the record's fields.
  unfoldable pub ensure_evidence_certainty_consistency : DecisionRecord F → DecisionRecord F
  unfolding has_quotes add_missing
  ensure_evidence_certainty_consistency r =
      let r' =
        if not (has_quotes r.evidence) && is_supported r.why.certainty
        then record r {
          why = record r.why {
            certainty = Certainty.unknown;
            missing_info = add_missing no_quotes_marker r.why.missing_info;
          };
        }
        else r in
      if no_items r'.evidence && is_accepted r'.status
      then record r' { status = Status.proposed }
      else r'

  unfoldable pub validate_evidence_certainty : DecisionRecord F → Bool
  unfolding has_quotes
  validate_evidence_certainty r = not (is_supported r.why.certainty && not (has_quotes r.evidence))

  -- What the two rules ask of a record.
  pub record IsConsistent (r : DecisionRecord F) : Type 0 where
    pub quoted : is_supported r.why.certainty ≡ true → has_quotes r.evidence ≡ true
    pub evidenced : is_accepted r.status ≡ true → no_items r.evidence ≡ false

  pub ensure-IsConsistent :
      (r : DecisionRecord F) → IsConsistent (ensure_evidence_certainty_consistency r)
  unfolding ensure_evidence_certainty_consistency
  ensure-IsConsistent r = record { quoted = ground arith; evidenced = ground arith }

  -- After the rules have run, the read-only check accepts the record, an accepted record has
  -- evidence, and nothing but status, certainty and missing information has changed; a record that
  -- already met both rules is returned as it was.
  pub ensure-validates :
      (r : DecisionRecord F)
      → let r' = ensure_evidence_certainty_consistency r in
        (validate_evidence_certainty r' ≡ true)
        × (is_accepted r'.status ≡ true → no_items r'.evidence ≡ false)
        × (r'.evidence ≡ r.evidence)
        × (r'.why.rationale_summary ≡ r.why.rationale_summary)
        × (r'.payload ≡ r.payload)
        × (IsConsistent r → r' ≡ r)
  unfolding ensure_evidence_certainty_consistency validate_evidence_certainty
  ensure-validates r = (
    ground arith,
    (ensure-IsConsistent r).evidenced,
    ground arith,
    ground arith,
    ground arith,
    ground arith,
  )
