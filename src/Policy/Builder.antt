-- ===== src/Policy/Builder.antt =====
-- internal/policy/record_builder.go: the records of a capture of several phases, and BuildPhases.
pub mod Laws
use rune_mcp.Prelude.{
  ℕ, suc, ◌+◌, Bool, true, false, Option, none, some, List, [], ◌∷◌, ◌++◌, length, take,
  if◌then◌else◌,
}
use rune_mcp.Prelude.Float.{Float}
use rune_mcp.Prelude.Text.{Text, Unicode, codes, decimal, is_empty, teq}
use rune_mcp.Domain.Calendar.{Time, Calendar}
use rune_mcp.Domain.Errors.{Result, ok, err, rune, err_extraction_missing, invalid_input_error}
use rune_mcp.Domain.Extraction.{
  Detection, ExtractedFields, ExtractionResult, PhaseExtractedFields, is_multi_phase, no_text,
}
use rune_mcp.Domain.Record.{
  Certainty, Context, DecisionDetail, DecisionRecord, Domain, Evidence, Payload, Quality,
  ReviewState, Sensitivity, Status, Why, parse_domain,
}
use rune_mcp.Domain.Record.Consistency.{ensure_evidence_certainty_consistency}
use rune_mcp.Domain.Record.Identifier.{generate_group_id, generate_record_id}
use rune_mcp.Policy.Draft.{
  user_who, where_str, some_text, or_else, finish_record, single_title, single_draft,
  build_single_record,
}
use rune_mcp.Policy.Evidence.{RawEvent, determine_certainty, extract_evidence, status_from_hint}
use rune_mcp.Policy.Evidence.Title.{extract_title, first_non_empty}
use rune_mcp.Policy.Payload.{render_payload_text}
use rune_mcp.Policy.Redact.{redact_sensitive}
use rune_mcp.Policy.Regexp.{Regexp}
use rune_mcp.Policy.Truncate.{trunc_runes}

module _ ⦃u : Unicode⦄ ⦃cal : Calendar⦄ ⦃rx : Regexp⦄ ⦃fl : Float⦄ where
  -- The loop that looks for a title source while there is none.
  unfoldable pub title_source : Text → List PhaseExtractedFields → Text
  title_source src [] = src
  title_source src (p ∷ ps) =
      if is_empty src
      then title_source (first_non_empty (p.phase_title ∷ p.phase_decision ∷ [])) ps
      else src

  unfoldable pub multi_group_title : ExtractionResult fl.F → Text → Text
  unfolding title_source
  multi_group_title extraction clean_text =
      if is_empty extraction.group_title
      then extract_title (
          title_source (first_non_empty (clean_text ∷ extraction.group_summary ∷ []))
            extraction.phases)
      else extraction.group_title

  abbrev pub multi_group_type : ExtractionResult fl.F → Text
  multi_group_type extraction =
      if is_empty extraction.group_type then codes "phase_chain" else extraction.group_type

  abbrev phase_name : ℕ → PhaseExtractedFields → Text
  phase_name seq phase =
      if is_empty phase.phase_title then codes "Phase " ++ decimal (seq + 1) else phase.phase_title

  abbrev id_suffix : Text → ℕ → Text
  id_suffix group_type seq =
      if teq group_type (codes "bundle")
      then codes "_b" ++ decimal seq
      else codes "_p" ++ decimal seq

  -- One turn of the loop of buildMultiRecord, before the steps of `finish_record`.
  unfoldable pub phase_draft :
      ExtractionResult fl.F
      → RawEvent
      → Text
      → Detection fl.F
      → Text
      → Time
      → ℕ
      → PhaseExtractedFields
      → DecisionRecord fl.F
  unfolding multi_group_title
  phase_draft extraction raw clean_text detection redaction_notes now seq phase =
      let d = parse_domain detection.domain in
      let group_type = multi_group_type extraction in
      let evidence = extract_evidence raw clean_text in
      let (certainty, missing_info) = determine_certainty evidence phase.phase_rationale in
      record {
        schema_version = codes "2.1";
        id = generate_record_id now d (phase_name seq phase) ++ id_suffix group_type seq;
        record_type = codes "decision_record";
        domain = d;
        sensitivity = Sensitivity.internal;
        status = status_from_hint extraction.status_hint evidence clean_text;
        superseded_by = none;
        timestamp = now;
        title = phase_name seq phase;
        decision = record {
          what = trunc_runes phase.phase_decision 500;
          who = user_who raw;
          where_ = where_str raw;
          when = [];
        };
        context = record {
          problem = phase.phase_problem;
          scope = none;
          constraints = [];
          alternatives = take 5 phase.alternatives;
          chosen = [];
          trade_offs = take 5 phase.trade_offs;
          assumptions = [];
          risks = [];
        };
        why = record {
          rationale_summary = phase.phase_rationale;
          certainty = certainty;
          missing_info = missing_info;
        };
        evidence = evidence;
        links = [];
        tags = if no_text phase.tags then extraction.tags else phase.tags;
        group_id = some (generate_group_id now d (multi_group_title extraction clean_text));
        group_type = some group_type;
        phase_seq = some seq;
        phase_total = some (length extraction.phases);
        original_text = some raw.text;
        group_summary = some_text extraction.group_summary;
        reusable_insight = [];
        quality = record {
          scribe_confidence = or_else extraction.confidence detection.confidence;
          review_state = ReviewState.unreviewed;
          reviewed_by = none;
          review_notes = some_text redaction_notes;
        };
        payload = record { format = codes "markdown"; text = [] };
      }

  -- The loop over the phases, from number `seq` on.
  unfoldable pub build_phase_records :
      ExtractionResult fl.F
      → RawEvent
      → Text
      → Detection fl.F
      → Text
      → Time
      → ℕ
      → List PhaseExtractedFields
      → List (DecisionRecord fl.F)
  build_phase_records extraction raw clean_text detection notes now seq [] = []
  build_phase_records extraction raw clean_text detection notes now seq (p ∷ ps) =
      finish_record extraction.group_summary
        (phase_draft extraction raw clean_text detection notes now seq p)
      ∷ build_phase_records extraction raw clean_text detection notes now (seq + 1) ps

  unfoldable pub build_multi_record :
      ExtractionResult fl.F
      → RawEvent
      → Text
      → Detection fl.F
      → Text
      → Time
      → List (DecisionRecord fl.F)
  build_multi_record extraction raw clean_text detection notes now =
      build_phase_records extraction raw clean_text detection notes now 0 extraction.phases

  abbrev single_records :
      Option ExtractedFields
      → RawEvent
      → Text × Text
      → Detection fl.F
      → ExtractionResult fl.F
      → Time
      → Result (List (DecisionRecord fl.F))
  single_records none raw clean detection extraction now =
      err (invalid_input_error "extraction has no single fields and no phases")
  single_records (some fields) raw clean detection extraction now =
      ok (build_single_record fields raw clean.0 detection extraction clean.1 now ∷ [])

  -- A nil extraction is `none`.
  unfoldable pub build_phases :
      RawEvent
      → Detection fl.F
      → Option (ExtractionResult fl.F)
      → Time
      → Result (List (DecisionRecord fl.F))
  build_phases raw detection none now = err (rune err_extraction_missing)
  build_phases raw detection (some extraction) now =
      let clean = redact_sensitive raw.text in
      if is_multi_phase extraction
      then ok (build_multi_record extraction raw clean.0 detection clean.1 now)
      else single_records extraction.single raw clean detection extraction now
