-- ===== src/Service/Capture/Contentless.antt =====
-- Which items a capture without a text rejects, by the fields of the agent's object.
use rune_mcp.Prelude.{
  ℕ, suc, Bool, true, false, not, ◌&&◌, ◌||◌, Option, none, some, [], ◌∷◌, ◌≡◌, refl, arith, length,
  if◌then◌else◌, if-elim, ltb,
}
use rune_mcp.Prelude.Float.{Float}
use rune_mcp.Prelude.Json.{Object}
use rune_mcp.Prelude.Text.{Text, Unicode, codes, is_empty, trim_space}
use rune_mcp.Adapters.AesCtr.{Crypto}
use rune_mcp.Domain.Calendar.{Calendar, Time}
use rune_mcp.Domain.Capture.{CaptureRequest, CaptureResponse}
use rune_mcp.Domain.Errors.{Result, err, other}
use rune_mcp.Domain.Extraction.{
  Detection, agent_confidence, extraction_of, has_content, no_text, parse_extraction_from_agent,
  raw_phases, single_extraction, single_fields, flat_fields, single_has_content,
  some_phase_has_content, str_slice, str_val, trunc_runes,
}
use rune_mcp.Policy.Builder.{build_phases}
use rune_mcp.Policy.Regexp.{Regexp}
use rune_mcp.Service.Backend.{Action, Backend, fail, lift, wrapping, ◌>>=◌}
use rune_mcp.Service.Capture.{
  AgentKey, Recorder, capture, capture_parsed, capture_records, contentless_error, raw_event,
}

-- No decision field of the flat shape holds anything.
abbrev pub is_bare : {F : Type 0} → Object F → Bool
is_bare o =
    is_empty (str_val o (codes "title"))
    && (is_empty (str_val o (codes "reusable_insight"))
        && (is_empty (str_val o (codes "rationale"))
            && (is_empty (str_val o (codes "problem"))
                && (no_text (str_slice o (codes "alternatives"))
                    && no_text (str_slice o (codes "trade_offs"))))))

trunc_runes-is_empty : (s : Text) (n : ℕ) → is_empty (trunc_runes s (suc n)) ≡ is_empty s
unfolding trunc_runes
trunc_runes-is_empty [] n =
    if-elim (λ t. is_empty t ≡ true) (ltb (suc n) (length {A = ℕ} [])) (λ _. refl) (λ _. refl)
trunc_runes-is_empty (c ∷ s) n =
    if-elim (λ t. is_empty t ≡ false) (ltb (suc n) (length (c ∷ s))) (λ _. refl) (λ _. refl)

chosen :
    {W A : Type 0} (c : Bool) (x y : Action W A) (w : W)
    → (if not (not c) then x else y) w ≡ (if c then x w else y w)
chosen true x y w = refl
chosen false x y w = refl

-- The disjunctions of HasContent, for a single record.
same_test :
    (t g r p a d : Bool)
    → (if not t || not g
        then true
        else if not t || not r || not p || not a || not d
        then true
        else false)
      ≡ not (t && (g && (r && (p && (a && d)))))
same_test t g r p a d = ground arith

module _ ⦃u : Unicode⦄ ⦃fl : Float⦄ where
  has_content-is_bare :
      (conf : Option fl.F) (o : Object fl.F)
      → has_content (single_extraction [] conf o) ≡ not (is_bare o)
  unfolding has_content single_extraction single_fields flat_fields single_has_content
      some_phase_has_content
  has_content-is_bare conf o = rw (trunc_runes-is_empty (str_val o (codes "title")) 59) (
      same_test (is_empty (str_val o (codes "title")))
        (is_empty (str_val o (codes "reusable_insight"))) (is_empty (str_val o (codes "rationale")))
        (is_empty (str_val o (codes "problem"))) (no_text (str_slice o (codes "alternatives")))
        (no_text (str_slice o (codes "trade_offs"))))

  extraction_of-is_bare :
      (o : Object fl.F) → raw_phases o ≡ [] → has_content (extraction_of o) ≡ not (is_bare o)
  unfolding extraction_of
  extraction_of-is_bare o e = rw e (has_content-is_bare _ o)

  abbrev pub HasNoPhases : Option (Object fl.F) → Type 0
  HasNoPhases none = Unit {0}
  HasNoPhases (some o) = raw_phases o ≡ []

  module _ ⦃rx : Regexp⦄ ⦃cal : Calendar⦄ (b : Backend fl.F) (crypto : Crypto b.W)
      (rec : Recorder fl.F b.W) (key : AgentKey) where
    -- The records are built, and the capture goes on with them.
    abbrev pub goes_on :
        CaptureRequest fl.F → Time → Time → Object fl.F → b.W → Result (CaptureResponse fl.F) × b.W
    goes_on req now later o =
        let detection : Detection fl.F = record {
          is_significant = true;
          confidence = agent_confidence o;
          domain = codes "general";
        } in
        wrapping (codes "build phases")
          (lift (build_phases (raw_event req) detection (some (extraction_of o)) now))
        >>= λ records. capture_records b crypto rec key records later

    abbrev pub expected :
        CaptureRequest fl.F
        → Time
        → Time
        → Option (Object fl.F)
        → b.W
        → Result (CaptureResponse fl.F) × b.W
    expected req now later none w = (err (other (codes "extracted JSON is nil")), w)
    expected req now later (some o) w =
        if is_bare o then (err contentless_error, w) else goes_on req now later o w

    parsed_case :
        (req : CaptureRequest fl.F) (now later : Time) (w : b.W) (o : Option (Object fl.F))
        → trim_space req.text ≡ []
        → HasNoPhases o
        → (lift (parse_extraction_from_agent o) >>= capture_parsed b crypto rec key req now later) w
          ≡ expected req now later o w
    unfolding parse_extraction_from_agent
    parsed_case req now later w none blank flat = refl
    parsed_case req now later w (some o) blank flat = rw blank (
        rw (extraction_of-is_bare o flat)
          (chosen (is_bare o) (fail contentless_error) (goes_on req now later o) w))

    -- An item whose text is blank and whose object has no phases: the capture rejects it, with the world
    -- as it was, where no decision field holds anything (a group_title, or fields that are nested under
    -- another key, do not count), and also where there is no object; where one field does hold
    -- something, the capture goes on and builds the records of the parsed extraction.
    pub capture-contentless :
        (req : CaptureRequest fl.F) (now later : Time) (w : b.W)
        → trim_space req.text ≡ []
        → HasNoPhases req.extracted
        → capture b crypto rec key req now later w ≡ expected req now later req.extracted w
    unfolding capture
    capture-contentless req now later w blank flat =
        parsed_case req now later w req.extracted blank flat
