-- ===== src/Examples/Rules.antt =====
-- The pure rules at concrete inputs.
use rune_mcp.Prelude.{true, false, none, some, List, [], ◌∷◌, ◌≡◌, arith, length}
use rune_mcp.Prelude.Float.{fixed}
use rune_mcp.Prelude.Float.Fixed
use rune_mcp.Prelude.Json.{Json, Object, end, field}
use rune_mcp.Prelude.Text.{Text, ascii, codes, contains, trim_space}
use rune_mcp.Domain.Errors.{ok}
use rune_mcp.Domain.Extraction.{
  Detection, ExtractionResult, PhaseExtractedFields, parse_extraction_from_agent,
}
use rune_mcp.Domain.Extraction.Bounds.{IsBounded, parse-IsBounded}
use rune_mcp.Domain.Record.{Certainty, DecisionRecord, Domain, ReviewState, Sensitivity, Status}
use rune_mcp.Policy.Builder.{build_phases}
use rune_mcp.Policy.Builder.Laws.{AllFrom, IsPhaseOf, build_phases_multi}
use rune_mcp.Policy.Evidence.{RawEvent}
use rune_mcp.Policy.Payload.{render_payload_text}
use rune_mcp.Policy.Payload.Blank.{three_newlines}
use rune_mcp.Policy.Payload.Laws.{render_payload_text_clean}
use rune_mcp.Policy.Query.{parse}
use rune_mcp.Policy.Query.Bounds.{IsBoundedQuery, parse-IsBoundedQuery}
use rune_mcp.Examples.Setting.{half, no_patterns, one_day}

parse-IsBoundedQuery_example :
    IsBoundedQuery ⦃u = ascii⦄ ⦃rx = no_patterns⦄
      (parse ⦃u = ascii⦄ ⦃rx = no_patterns⦄ (codes "Why do we use Go"))
parse-IsBoundedQuery_example =
    parse-IsBoundedQuery ⦃u = ascii⦄ ⦃rx = no_patterns⦄ (codes "Why do we use Go")

abbrev demo_object : Object Fixed.Fixed
demo_object = field (codes "title") (Json.str (codes "Use Go")) end

parse-IsBounded_example :
    (d : Detection Fixed.Fixed) × (r : ExtractionResult Fixed.Fixed) × (parse_extraction_from_agent
        ⦃u = ascii⦄ ⦃fl = fixed⦄
        (some demo_object)
      ≡ ok (d, r))
    × (d.is_significant ≡ true)
    × (d.domain ≡ codes "general")
    × IsBounded ⦃fl = fixed⦄ d.confidence r
parse-IsBounded_example = parse-IsBounded ⦃u = ascii⦄ ⦃fl = fixed⦄ demo_object

abbrev demo_phase : PhaseExtractedFields
demo_phase = record {
  phase_title = codes "First";
  phase_decision = codes "Use Go";
  phase_rationale = codes "fast";
  phase_problem = [];
  alternatives = [];
  trade_offs = [];
  tags = [];
}

abbrev demo_extraction : List PhaseExtractedFields → ExtractionResult Fixed.Fixed
demo_extraction phases = record {
  group_title = codes "Group";
  group_type = [];
  group_summary = [];
  status_hint = [];
  tags = [];
  confidence = none;
  single = none;
  phases = phases;
}

abbrev demo_detection : Detection Fixed.Fixed
demo_detection = record { is_significant = true; confidence = half; domain = codes "general" }

abbrev demo_event : RawEvent
demo_event = record { text = codes "Use Go."; source = codes "s"; user = []; channel = [] }

abbrev two_phases : ExtractionResult Fixed.Fixed
two_phases = demo_extraction (demo_phase ∷ demo_phase ∷ [])

build_phases_multi_example :
    (gid : Text) × (records : List (DecisionRecord Fixed.Fixed)) × (build_phases ⦃u = ascii⦄
        ⦃cal = one_day⦄ ⦃rx = no_patterns⦄ ⦃fl = fixed⦄ demo_event demo_detection
        (some two_phases)
        5
      ≡ ok records)
    × (length records ≡ 2)
    × AllFrom
        (IsPhaseOf ⦃u = ascii⦄ ⦃cal = one_day⦄ ⦃rx = no_patterns⦄ ⦃fl = fixed⦄ two_phases gid
          demo_event)
        0
        records
build_phases_multi_example =
    build_phases_multi ⦃u = ascii⦄ ⦃cal = one_day⦄ ⦃rx = no_patterns⦄ ⦃fl = fixed⦄ demo_event
      demo_detection two_phases 5 (omega arith)

-- An accepted record without evidence.
abbrev demo_record : DecisionRecord Fixed.Fixed
demo_record = record {
  schema_version = codes "2.1";
  id = codes "dec_1";
  record_type = codes "decision_record";
  domain = Domain.product;
  sensitivity = Sensitivity.internal;
  status = Status.accepted;
  superseded_by = none;
  timestamp = 5;
  title = codes "Use Go";
  decision = record { what = codes "Use Go"; who = []; where_ = []; when = [] };
  context = record {
    problem = [];
    scope = none;
    constraints = [];
    alternatives = [];
    chosen = [];
    trade_offs = [];
    assumptions = [];
    risks = [];
  };
  why = record {
    rationale_summary = codes "fast";
    certainty = Certainty.supported;
    missing_info = [];
  };
  evidence = [];
  links = [];
  tags = [];
  group_id = none;
  group_type = none;
  phase_seq = none;
  phase_total = none;
  original_text = none;
  group_summary = none;
  reusable_insight = [];
  quality = record {
    scribe_confidence = half;
    review_state = ReviewState.unreviewed;
    reviewed_by = none;
    review_notes = none;
  };
  payload = record { format = codes "markdown"; text = [] };
}

render_payload_text_clean_example :
    (contains (render_payload_text ⦃u = ascii⦄ ⦃fl = fixed⦄ demo_record) three_newlines ≡ false)
    × (trim_space (render_payload_text ⦃u = ascii⦄ ⦃fl = fixed⦄ demo_record)
        ≡ render_payload_text ⦃u = ascii⦄ ⦃fl = fixed⦄ demo_record)
render_payload_text_clean_example = render_payload_text_clean ⦃u = ascii⦄ ⦃fl = fixed⦄ demo_record
