-- ===== src/Domain/Extraction/Bounds.antt =====
-- What ParseExtractionFromAgent guarantees of its result.
use rune_mcp.Prelude.{
  ℕ, ◌+◌, ◌-◌, ◌≤◌, ◌≡◌, refl, ◌⊎◌, inl, inr, true, Option, none, some, List, [], ◌∷◌, arith, All,
  length, length-take, leb, ltb, if-elim,
}
use rune_mcp.Prelude.Float.{Float, flt_irrefl, fge, fzero, fone}
use rune_mcp.Prelude.Json.{Json, Object, get, as_object, as_float}
use rune_mcp.Prelude.Text.{Text, Unicode, codes}
use rune_mcp.Domain.Errors.{ok}
use rune_mcp.Domain.Extraction
use rune_mcp.Domain.Extraction.{
  ExtractionResult, Detection, extraction_of, agent_confidence, raw_phases, fields_of_phase,
  single_fields, str_val2, single_extraction, multi_extraction, PhaseExtractedFields, str_val,
  collect_phases, phase_fields, push_phase, clamped, parse_extraction_from_agent,
}

-- What a parsed extraction satisfies, with the detection's confidence.
pub record IsBounded ⦃fl : Float⦄ (c : fl.F) (r : ExtractionResult fl.F) : Type 0 where
  pub title_short : length r.group_title ≤ 60
  pub phases_few : length r.phases ≤ 7
  pub phases_short : All (λ p. length p.phase_title ≤ 60) r.phases
  pub conf_low : fge c fzero ≡ true
  pub conf_high : fge fone c ≡ true
  pub one_kind : (r.single ≡ none) ⊎ (r.phases ≡ [])

pub length-trunc_runes : (s : Text) (n : ℕ) → length (Extraction.trunc_runes s n) ≤ n
unfolding Extraction.trunc_runes
length-trunc_runes s n = ground (arith, length-take n s)

module _ ⦃u : Unicode⦄ where
  length-collect_phases :
      {F : Type 0} (i : ℕ) (raws : List (Json F)) → length (collect_phases i raws) ≤ 7 - i
  unfolding collect_phases
  length-collect_phases i [] = omega arith
  length-collect_phases i (raw ∷ raws) = ground (arith, length-collect_phases (i + 1) raws)

  push_short :
      {F : Type 0} (p : Option (Object F)) (ps : List PhaseExtractedFields)
      → All (λ p. length p.phase_title ≤ 60) ps
      → All (λ p. length p.phase_title ≤ 60) (push_phase p ps)
  unfolding phase_fields
  push_short none ps h = h
  push_short (some p) ps h = (length-trunc_runes (str_val p (codes "phase_title")) 60, h)

  phases_short-collect_phases :
      {F : Type 0} (i : ℕ) (raws : List (Json F))
      → All (λ p. length p.phase_title ≤ 60) (collect_phases i raws)
  unfolding collect_phases phase_fields
  phases_short-collect_phases i [] = tt
  phases_short-collect_phases i (raw ∷ raws) =
      if-elim (All (λ p. length p.phase_title ≤ 60)) (leb 7 i) (λ _. tt)
        (λ _.
          push_short (as_object (some raw)) (collect_phases (i + 1) raws)
            (phases_short-collect_phases (i + 1) raws))

module _ ⦃u : Unicode⦄ ⦃fl : Float⦄ where
  phase_title_short :
      (p : Option (Object fl.F)) (extracted : Object fl.F)
      → length (fields_of_phase p extracted).title ≤ 60
  unfolding fields_of_phase
  phase_title_short none extracted = omega arith
  phase_title_short (some p) extracted =
      length-trunc_runes (str_val2 p (codes "phase_title") (str_val extracted (codes "title"))) 60

  single_fields-title :
      (raws : List (Json fl.F)) (extracted : Object fl.F)
      → length (single_fields raws extracted).title ≤ 60
  unfolding single_fields
  single_fields-title [] extracted = length-trunc_runes (str_val extracted (codes "title")) 60
  single_fields-title (raw ∷ []) extracted = phase_title_short (as_object (some raw)) extracted
  single_fields-title (raw ∷ raw' ∷ raws) extracted =
      length-trunc_runes (str_val extracted (codes "title")) 60

  extraction-IsBounded :
      (c : fl.F) (conf : Option fl.F)
      → (fge c fzero ≡ true) × (fge fone c ≡ true)
      → (raws : List (Json fl.F)) (extracted : Object fl.F)
      → IsBounded c (multi_extraction raws conf extracted)
        × IsBounded c (single_extraction raws conf extracted)
  unfolding multi_extraction single_extraction
  extraction-IsBounded c conf range raws extracted = (
    record {
      title_short = length-trunc_runes (str_val extracted (codes "group_title")) 60;
      phases_few = length-collect_phases 0 raws;
      phases_short = phases_short-collect_phases 0 raws;
      conf_low = range.0;
      conf_high = range.1;
      one_kind = inl refl;
    },
    record {
      title_short = single_fields-title raws extracted;
      phases_few = omega arith;
      phases_short = tt;
      conf_low = range.0;
      conf_high = range.1;
      one_kind = inr refl;
    },
  )

  clamped_range : (c : Option fl.F) → (fge (clamped c) fzero ≡ true) × (fge fone (clamped c) ≡ true)
  clamped_range none = ground (arith, flt_irrefl fzero, fl.asym fzero fone fl.zero_lt_one)
  clamped_range (some c) = ground (
    arith,
    flt_irrefl fzero,
    flt_irrefl fone,
    fl.asym fzero fone fl.zero_lt_one,
    fl.asym fzero c,
    fl.asym fone c,
    fl.zero_lt_one,
  )

  -- Parsing succeeds on every object that is not nil. The detection is significant and of the
  -- general domain, its confidence lies in [0, 1], the group title and each phase's title have at
  -- most 60 runes, there are at most 7 phases, and single fields and phases are not both given.
  pub parse-IsBounded :
      (extracted : Object fl.F)
      → (d : Detection fl.F) × (r : ExtractionResult fl.F) × (parse_extraction_from_agent
            (some extracted)
          ≡ ok (d, r))
        × (d.is_significant ≡ true)
        × (d.domain ≡ codes "general")
        × IsBounded d.confidence r
  unfolding parse_extraction_from_agent
  parse-IsBounded extracted = (
    _,
    extraction_of extracted,
    refl,
    refl,
    refl,
    if-elim (IsBounded (agent_confidence extracted)) (ltb 1 (length (raw_phases extracted)))
        (λ _.
          (extraction-IsBounded (agent_confidence extracted) _ range (raw_phases extracted)
            extracted).0)
        (λ _.
          (extraction-IsBounded (agent_confidence extracted) _ range (raw_phases extracted)
            extracted).1),
  )
    where
      range :
          (fge (agent_confidence extracted) fzero ≡ true)
          × (fge fone (agent_confidence extracted) ≡ true)
      range = clamped_range (as_float (get extracted (codes "confidence")))
