-- ===== src/Domain/Extraction.antt =====
-- internal/domain/extraction.go: the agent's flat JSON object, split into a detection and an
-- extraction. `F` is `float64`; a nil map is `none`.
pub mod Bounds
use rune_mcp.Prelude.{
  ℕ, suc, ◌+◌, Bool, true, false, not, ◌&&◌, ◌||◌, Option, none, some, List, [], ◌∷◌, map, length,
  take, ltb, leb, if◌then◌else◌,
}
use rune_mcp.Prelude.Float.{Float, fmax, fmin, fgt, fzero, fone}
use rune_mcp.Prelude.Json.{
  Json, Items, Object, get, items, as_string, as_float, as_array, as_object,
}
use rune_mcp.Prelude.Text.{Text, Unicode, codes, is_empty, to_lower}
use rune_mcp.Domain.Errors.{Result, ok, err, other}
use rune_mcp.Domain.Record.{max_title_len}

pub record ExtractedFields : Type 0 where
  pub title : Text
  pub rationale : Text
  pub problem : Text
  pub alternatives : List Text
  pub trade_offs : List Text
  pub status_hint : Text
  pub tags : List Text

pub record PhaseExtractedFields : Type 0 where
  pub phase_title : Text
  pub phase_decision : Text
  pub phase_rationale : Text
  pub phase_problem : Text
  pub alternatives : List Text
  pub trade_offs : List Text
  pub tags : List Text

pub record ExtractionResult (F : Type 0) : Type 0 where
  pub group_title : Text
  pub group_type : Text
  pub group_summary : Text
  pub status_hint : Text
  pub tags : List Text
  pub confidence : Option F
  pub single : Option ExtractedFields
  pub phases : List PhaseExtractedFields

-- Detection of internal/domain/query.go.
pub record Detection (F : Type 0) : Type 0 where
  pub is_significant : Bool
  pub confidence : F
  pub domain : Text

abbrev pub no_text {ℓ} : {A : Type ℓ} → List A → Bool
no_text [] = true
no_text (x ∷ xs) = false

-- IsMultiPhase
unfoldable pub is_multi_phase : {F : Type 0} → ExtractionResult F → Bool
is_multi_phase r = ltb 1 (length r.phases)

-- One disjunction of HasContent for the single fields, one for a phase.
unfoldable pub single_has_content : Option ExtractedFields → Bool
single_has_content none = false
single_has_content (some s) =
    not (is_empty s.title)
    || not (is_empty s.rationale)
    || not (is_empty s.problem)
    || not (no_text s.alternatives)
    || not (no_text s.trade_offs)

unfoldable pub phase_has_content : PhaseExtractedFields → Bool
phase_has_content p =
    not (is_empty p.phase_title)
    || not (is_empty p.phase_decision)
    || not (is_empty p.phase_rationale)
    || not (is_empty p.phase_problem)
    || not (no_text p.alternatives)
    || not (no_text p.trade_offs)

unfoldable pub some_phase_has_content : List PhaseExtractedFields → Bool
some_phase_has_content [] = false
some_phase_has_content (p ∷ ps) = if phase_has_content p then true else some_phase_has_content ps

-- HasContent, of an extraction that is not nil.
unfoldable pub has_content : {F : Type 0} → ExtractionResult F → Bool
unfolding single_has_content phase_has_content some_phase_has_content
has_content r =
    if not (is_empty r.group_title) || not (is_empty r.group_summary)
    then true
    else if single_has_content r.single
    then true
    else some_phase_has_content r.phases

-- `truncRunes` of this package: a conversion to runes and back.
unfoldable pub trunc_runes : Text → ℕ → Text
trunc_runes s max_runes = if ltb max_runes (length s) then take max_runes s else s

abbrev or_empty : Option Text → Text
or_empty none = []
or_empty (some s) = s

abbrev empty_fields : ExtractedFields
empty_fields = record {
  title = [];
  rationale = [];
  problem = [];
  alternatives = [];
  trade_offs = [];
  status_hint = [];
  tags = [];
}

module _ {F : Type 0} where
  unfoldable pub str_val : Object F → Text → Text
  str_val m key = or_empty (as_string (get m key))

  unfoldable pub str_val2 : Object F → Text → Text → Text
  str_val2 m key fallback = let v = str_val m key in if is_empty v then fallback else v

  -- The items that are strings and not empty.
  unfoldable pub strings_of : List (Json F) → List Text
  strings_of [] = []
  strings_of (Json.str s ∷ xs) = let rest = strings_of xs in if is_empty s then rest else s ∷ rest
  strings_of (x ∷ xs) = strings_of xs

  unfoldable pub str_slice : Object F → Text → List Text
  unfolding strings_of
  str_slice m key = elim (as_array (get m key)) [ none ↦ [] | some raw ↦ strings_of (items raw) ]

  module _ ⦃u : Unicode⦄ where
    unfoldable pub lower_str_slice : Object F → Text → List Text
    lower_str_slice m key = map to_lower (str_slice m key)

    unfoldable pub lower_str_slice_or : Object F → Text → List Text → List Text
    lower_str_slice_or m key fallback =
        let result = lower_str_slice m key in if no_text result then fallback else result

    unfoldable pub phase_fields : Object F → PhaseExtractedFields
    phase_fields p = record {
      phase_title = trunc_runes (str_val p (codes "phase_title")) max_title_len;
      phase_decision = str_val p (codes "phase_decision");
      phase_rationale = str_val p (codes "phase_rationale");
      phase_problem = str_val p (codes "phase_problem");
      alternatives = str_slice p (codes "alternatives");
      trade_offs = str_slice p (codes "trade_offs");
      tags = lower_str_slice p (codes "tags");
    }

    abbrev push_phase : Option (Object F) → List PhaseExtractedFields → List PhaseExtractedFields
    push_phase none ps = ps
    push_phase (some p) ps = phase_fields p ∷ ps

    -- The loop over the raw phases from index `i`: it ends at index 7, and passes over an item that
    -- is no object.
    unfoldable pub collect_phases : ℕ → List (Json F) → List PhaseExtractedFields
    collect_phases i [] = []
    collect_phases i (raw ∷ raws) =
        let rest = collect_phases (i + 1) raws in
        if leb 7 i then [] else push_phase (as_object (some raw)) rest

    unfoldable pub fields_of_phase : Option (Object F) → Object F → ExtractedFields
    fields_of_phase none extracted = empty_fields
    fields_of_phase (some p) extracted = record {
      title =
          trunc_runes (str_val2 p (codes "phase_title") (str_val extracted (codes "title")))
            max_title_len;
      rationale = str_val2 p (codes "phase_rationale") (str_val extracted (codes "rationale"));
      problem = str_val2 p (codes "phase_problem") (str_val extracted (codes "problem"));
      alternatives = str_slice p (codes "alternatives");
      trade_offs = str_slice p (codes "trade_offs");
      status_hint = to_lower (str_val extracted (codes "status_hint"));
      tags = lower_str_slice_or p (codes "tags") (lower_str_slice extracted (codes "tags"));
    }

    unfoldable pub flat_fields : Object F → ExtractedFields
    flat_fields extracted = record {
      title = trunc_runes (str_val extracted (codes "title")) max_title_len;
      rationale = str_val extracted (codes "rationale");
      problem = str_val extracted (codes "problem");
      alternatives = str_slice extracted (codes "alternatives");
      trade_offs = str_slice extracted (codes "trade_offs");
      status_hint = to_lower (str_val extracted (codes "status_hint"));
      tags = lower_str_slice extracted (codes "tags");
    }

    -- `phasesRaw`, as a list; it is empty too where the key holds no array (`hasPhases` false).
    abbrev pub raw_phases : Object F → List (Json F)
    raw_phases extracted = elim (as_array (get extracted (codes "phases"))) [
      | none ↦ []
      | some raw ↦ items raw
    ]

    -- The single record's fields: from the only phase, or from the object itself.
    unfoldable pub single_fields : List (Json F) → Object F → ExtractedFields
    unfolding fields_of_phase flat_fields
    single_fields (raw ∷ []) extracted = fields_of_phase (as_object (some raw)) extracted
    single_fields raws extracted = flat_fields extracted

    unfoldable pub multi_extraction : List (Json F) → Option F → Object F → ExtractionResult F
    unfolding collect_phases
    multi_extraction raws conf extracted =
        let insight = str_val extracted (codes "reusable_insight") in
        record {
          group_title = trunc_runes (str_val extracted (codes "group_title")) max_title_len;
          group_type = str_val extracted (codes "group_type");
          group_summary =
              if is_empty insight then str_val extracted (codes "group_title") else insight;
          status_hint = to_lower (str_val extracted (codes "status_hint"));
          tags = lower_str_slice extracted (codes "tags");
          confidence = conf;
          single = none;
          phases = collect_phases 0 raws;
        }

    unfoldable pub single_extraction : List (Json F) → Option F → Object F → ExtractionResult F
    unfolding single_fields
    single_extraction raws conf extracted =
        let single = single_fields raws extracted in
        record {
          group_title = single.title;
          group_type = [];
          group_summary = str_val extracted (codes "reusable_insight");
          status_hint = single.status_hint;
          tags = single.tags;
          confidence = conf;
          single = some single;
          phases = [];
        }

module _ ⦃u : Unicode⦄ ⦃fl : Float⦄ where
  abbrev clamped : Option fl.F → fl.F
  clamped none = fzero
  clamped (some c) = fmax fzero (fmin fone c)

  -- `agentConfidence`
  unfoldable pub agent_confidence : Object fl.F → fl.F
  agent_confidence extracted = clamped (as_float (get extracted (codes "confidence")))

  unfoldable pub extraction_of : Object fl.F → ExtractionResult fl.F
  unfolding agent_confidence multi_extraction single_extraction
  extraction_of extracted =
      let c = agent_confidence extracted in
      let conf = if fgt c fzero then some c else none in
      let raws = raw_phases extracted in
      if ltb 1 (length raws)
      then multi_extraction raws conf extracted
      else single_extraction raws conf extracted

  unfoldable pub parse_extraction_from_agent :
      Option (Object fl.F) → Result (Detection fl.F × ExtractionResult fl.F)
  unfolding extraction_of
  parse_extraction_from_agent none = err (other (codes "extracted JSON is nil"))
  parse_extraction_from_agent (some extracted) = ok (
    record {
      is_significant = true;
      confidence = agent_confidence extracted;
      domain = codes "general";
    },
    extraction_of extracted,
  )
