-- ===== src/Policy/Builder/Laws.antt =====
-- What BuildPhases guarantees of its records.
use rune_mcp.Prelude.{
  ℕ, ◌+◌, ◌≤◌, ◌<◌, ◌≡◌, refl, false, none, some, List, [], ◌∷◌, arith, length, ◌⊎◌, Option-cases,
  inl, inr,
}
use rune_mcp.Prelude.Float.{Float}
use rune_mcp.Prelude.Text.{Text, Unicode, contains, trim_space}
use rune_mcp.Domain.Calendar.{Time, Calendar}
use rune_mcp.Domain.Errors.{ok, err, invalid_input_error}
use rune_mcp.Domain.Extraction.{
  Detection, ExtractedFields, ExtractionResult, PhaseExtractedFields, is_multi_phase,
}
use rune_mcp.Domain.Record.{DecisionRecord, parse_domain}
use rune_mcp.Domain.Record.Consistency.{
  IsConsistent, ensure-IsConsistent, ensure_evidence_certainty_consistency,
}
use rune_mcp.Domain.Record.Identifier.{generate_group_id}
use rune_mcp.Policy.Builder.{
  build_multi_record, build_phase_records, build_phases, multi_group_title, phase_draft,
}
use rune_mcp.Policy.Draft.{build_single_record, finish_record, single_draft}
use rune_mcp.Policy.Evidence.{RawEvent}
use rune_mcp.Policy.Payload.Blank.{three_newlines}
use rune_mcp.Policy.Payload.Laws.{render_payload_text_clean}
use rune_mcp.Policy.Redact.{redact_sensitive}
use rune_mcp.Policy.Regexp.{Regexp}

-- A record that keeps the evidence rules and whose payload text has been cleaned up.
pub record IsSound {F : Type 0} (r : DecisionRecord F) : Type 0 where
  pub consistent : IsConsistent r
  pub no_blank_runs : contains r.payload.text three_newlines ≡ false
  pub trimmed : trim_space r.payload.text ≡ r.payload.text

-- The items of a list, numbered from `k`, satisfy `P`.
abbrev pub AllFrom {ℓ κ} : {A : Type ℓ} → (ℕ → A → Type κ) → ℕ → List A → Type κ
AllFrom P k [] = Unit
AllFrom P k (x ∷ xs) = P k x × AllFrom P (k + 1) xs

module _ ⦃u : Unicode⦄ ⦃cal : Calendar⦄ ⦃rx : Regexp⦄ ⦃fl : Float⦄ where
  finish_record-IsSound : (s : Text) (r : DecisionRecord fl.F) → IsSound (finish_record s r)
  unfolding finish_record
  finish_record-IsSound s r =
      let e = ensure_evidence_certainty_consistency r in
      let c = ensure-IsConsistent r in
      let t = render_payload_text_clean e in
      record {
        consistent = record { quoted = ground arith; evidenced = ground arith };
        no_blank_runs = ground (arith, t.0);
        trimmed = ground (arith, t.1);
      }

  -- What the builder sets for the group of a record stays through the last steps.
  finish_record_keeps :
      (s : Text) (r : DecisionRecord fl.F)
      → ((finish_record s r).phase_seq ≡ r.phase_seq)
        × ((finish_record s r).phase_total ≡ r.phase_total)
        × ((finish_record s r).group_id ≡ r.group_id)
        × ((finish_record s r).original_text ≡ r.original_text)
  unfolding finish_record ensure_evidence_certainty_consistency
  finish_record_keeps s r = (ground arith, ground arith, ground arith, ground arith)

  -- A sound record of the group, with its number and the number of the phases.
  pub record IsPhaseOf (extraction : ExtractionResult fl.F) (gid : Text) (raw : RawEvent) (k : ℕ)
      (r : DecisionRecord fl.F) : Type 0 where
    pub sound : IsSound r
    pub numbered : r.phase_seq ≡ some k
    pub total : r.phase_total ≡ some (length extraction.phases)
    pub grouped : r.group_id ≡ some gid
    pub original : r.original_text ≡ some raw.text

  module _ (extraction : ExtractionResult fl.F) (raw : RawEvent) (clean_text : Text)
      (detection : Detection fl.F) (notes : Text) (now : Time) where
    abbrev group_of : Text
    group_of =
        generate_group_id now (parse_domain detection.domain)
          (multi_group_title extraction clean_text)

    phase_record-IsPhaseOf :
        (k : ℕ) (p : PhaseExtractedFields)
        → IsPhaseOf extraction group_of raw k (
            finish_record extraction.group_summary
              (phase_draft extraction raw clean_text detection notes now k p))
    unfolding phase_draft
    phase_record-IsPhaseOf k p =
        let kept =
          finish_record_keeps extraction.group_summary
            (phase_draft extraction raw clean_text detection notes now k p) in
        record {
          sound =
              finish_record-IsSound extraction.group_summary
                (phase_draft extraction raw clean_text detection notes now k p);
          numbered = kept.0;
          total = kept.1;
          grouped = kept.2;
          original = kept.3;
        }

    phase_records-AllFrom :
        (k : ℕ) (ps : List PhaseExtractedFields)
        → AllFrom
            (IsPhaseOf extraction group_of raw)
            k
            (build_phase_records extraction raw clean_text detection notes now k ps)
    unfolding build_phase_records
    phase_records-AllFrom k [] = tt
    phase_records-AllFrom k (p ∷ ps) =
        (phase_record-IsPhaseOf k p, phase_records-AllFrom (k + 1) ps)

    length-phase_records :
        (k : ℕ) (ps : List PhaseExtractedFields)
        → length (build_phase_records extraction raw clean_text detection notes now k ps)
          ≡ length ps
    unfolding build_phase_records
    length-phase_records k [] = refl
    length-phase_records k (p ∷ ps) = omega (arith, length-phase_records (k + 1) ps)

  -- An extraction with more than one phase always gives records: one for each phase, in order and
  -- numbered from 0, all with one group identifier, the number of phases and the raw text, all
  -- consistent with their evidence and with a clean payload text.
  pub build_phases_multi :
      (raw : RawEvent) (detection : Detection fl.F) (extraction : ExtractionResult fl.F)
      (now : Time)
      → 1 < length extraction.phases
      → (gid : Text) × (records : List (DecisionRecord fl.F)) × (build_phases raw detection
            (some extraction)
            now
          ≡ ok records)
        × (length records ≡ length extraction.phases)
        × AllFrom (IsPhaseOf extraction gid raw) 0 records
  unfolding build_phases build_multi_record is_multi_phase
  build_phases_multi raw detection extraction now many =
      let clean = redact_sensitive raw.text in
      (
        group_of extraction raw clean.0 detection clean.1 now,
        build_phase_records extraction raw clean.0 detection clean.1 now 0 extraction.phases,
        ground arith,
        length-phase_records extraction raw clean.0 detection clean.1 now 0 extraction.phases,
        phase_records-AllFrom extraction raw clean.0 detection clean.1 now 0 extraction.phases,
      )

  single_record_keeps :
      (fields : ExtractedFields) (raw : RawEvent) (clean_text : Text) (detection : Detection fl.F)
      (extraction : ExtractionResult fl.F) (notes : Text) (now : Time)
      → let r = build_single_record fields raw clean_text detection extraction notes now in
        IsSound r × (r.group_id ≡ none) × (r.original_text ≡ some raw.text)
  unfolding build_single_record single_draft
  single_record_keeps fields raw clean_text detection extraction notes now =
      let draft = single_draft fields raw clean_text detection extraction notes now in
      let kept = finish_record_keeps extraction.group_summary draft in
      (finish_record-IsSound extraction.group_summary draft, kept.2, kept.3)

  -- Without a second phase the builder gives one sound record, of no group and with the raw text,
  -- if there are single fields, and INVALID_INPUT if there are none.
  pub build_phases_single :
      (raw : RawEvent) (detection : Detection fl.F) (extraction : ExtractionResult fl.F)
      (now : Time)
      → length extraction.phases ≤ 1
      → ((r : DecisionRecord fl.F) × (build_phases raw detection (some extraction) now
            ≡ ok (r ∷ []))
          × IsSound r
          × (r.group_id ≡ none)
          × (r.original_text ≡ some raw.text))
        ⊎ ((extraction.single ≡ none)
            × (build_phases raw detection (some extraction) now
                ≡ err (invalid_input_error "extraction has no single fields and no phases")))
  unfolding build_phases is_multi_phase
  build_phases_single raw detection extraction now few = elim (Option-cases extraction.single) [
    | inl none_given ↦ inr (none_given, ground arith)
    | inr (fields, given) ↦
        let clean = redact_sensitive raw.text in
        let kept = single_record_keeps fields raw clean.0 detection extraction clean.1 now in
        inl (
          build_single_record fields raw clean.0 detection extraction clean.1 now,
          ground arith,
          kept.0,
          kept.1,
          kept.2,
        )
  ]
