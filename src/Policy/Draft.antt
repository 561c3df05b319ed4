-- ===== src/Policy/Draft.antt =====
-- internal/policy/record_builder.go: the parts of a record that both builders fill, and the record of a
-- single capture.
use rune_mcp.Prelude.{Option, none, some, List, [], ◌∷◌, ◌++◌, take, if◌then◌else◌}
use rune_mcp.Prelude.Float.{Float}
use rune_mcp.Prelude.Text.{Text, Unicode, codes, is_empty}
use rune_mcp.Domain.Calendar.{Time, Calendar}
use rune_mcp.Domain.Extraction.{Detection, ExtractedFields, ExtractionResult}
use rune_mcp.Domain.Record.{DecisionRecord, ReviewState, Sensitivity, parse_domain}
use rune_mcp.Domain.Record.Consistency.{ensure_evidence_certainty_consistency}
use rune_mcp.Domain.Record.Identifier.{generate_record_id}
use rune_mcp.Policy.Evidence.{RawEvent, determine_certainty, extract_evidence, status_from_hint}
use rune_mcp.Policy.Evidence.Title.{extract_title, first_non_empty}
use rune_mcp.Policy.Payload.{render_payload_text}
use rune_mcp.Policy.Regexp.{Regexp}
use rune_mcp.Policy.Truncate.{trunc_runes}

unfoldable pub user_who : RawEvent → List Text
user_who raw = if is_empty raw.user then [] else (codes "user:" ++ raw.user) ∷ []

unfoldable pub where_str : RawEvent → Text
where_str raw =
    if is_empty raw.channel then raw.source else raw.source ++ (codes ":" ++ raw.channel)

abbrev pub some_text : Text → Option Text
some_text [] = none
some_text (c ∷ s) = some (c ∷ s)

abbrev pub or_else {ℓ} : {A : Type ℓ} → Option A → A → A
or_else none d = d
or_else (some a) d = a

module _ ⦃u : Unicode⦄ ⦃cal : Calendar⦄ ⦃rx : Regexp⦄ ⦃fl : Float⦄ where
  -- The three steps that end the building of a record: the evidence rules, the rendering of the
  -- payload text, the reusable insight.
  unfoldable pub finish_record : Text → DecisionRecord fl.F → DecisionRecord fl.F
  finish_record group_summary record_ =
      let r = ensure_evidence_certainty_consistency record_ in
      let rendered = record r {
        payload = record { format = r.payload.format; text = render_payload_text r };
      } in
      if is_empty group_summary
      then rendered
      else record rendered { reusable_insight = group_summary }

  unfoldable pub single_title : ExtractedFields → Text → Text → Text
  single_title fields clean_text group_summary =
      if is_empty fields.title
      then extract_title
          (first_non_empty (clean_text ∷ group_summary ∷ fields.rationale ∷ fields.problem ∷ []))
      else fields.title

  -- The record of buildSingleRecord before the steps of `finish_record`.
  unfoldable pub single_draft :
      ExtractedFields
      → RawEvent
      → Text
      → Detection fl.F
      → ExtractionResult fl.F
      → Text
      → Time
      → DecisionRecord fl.F
  unfolding single_title
  single_draft fields raw clean_text detection extraction redaction_notes now =
      let title = single_title fields clean_text extraction.group_summary in
      let evidence = extract_evidence raw clean_text in
      let (certainty, missing_info) = determine_certainty evidence fields.rationale in
      let d = parse_domain detection.domain in
      record {
        schema_version = codes "2.1";
        id = generate_record_id now d title;
        record_type = codes "decision_record";
        domain = d;
        sensitivity = Sensitivity.internal;
        status = status_from_hint fields.status_hint evidence clean_text;
        superseded_by = none;
        timestamp = now;
        title = title;
        decision = record {
          what = trunc_runes clean_text 500;
          who = user_who raw;
          where_ = where_str raw;
          when = [];
        };
        context = record {
          problem = fields.problem;
          scope = none;
          constraints = [];
          alternatives = take 5 fields.alternatives;
          chosen = [];
          trade_offs = take 5 fields.trade_offs;
          assumptions = [];
          risks = [];
        };
        why = record {
          rationale_summary = fields.rationale;
          certainty = certainty;
          missing_info = missing_info;
        };
        evidence = evidence;
        links = [];
        tags = fields.tags;
        group_id = none;
        group_type = none;
        phase_seq = none;
        phase_total = none;
        original_text = some raw.text;
        group_summary = none;
        reusable_insight = [];
        quality = record {
          scribe_confidence = or_else extraction.confidence detection.confidence;
          review_state = ReviewState.unreviewed;
          reviewed_by = none;
          review_notes = some_text redaction_notes;
        };
        payload = record { format = codes "markdown"; text = [] };
      }

  unfoldable pub build_single_record :
      ExtractedFields
      → RawEvent
      → Text
      → Detection fl.F
      → ExtractionResult fl.F
      → Text
      → Time
      → DecisionRecord fl.F
  build_single_record fields raw clean_text detection extraction redaction_notes now =
      finish_record extraction.group_summary
        (single_draft fields raw clean_text detection extraction redaction_notes now)
