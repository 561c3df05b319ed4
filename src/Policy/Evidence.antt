-- ===== src/Policy/Evidence.antt =====
-- internal/policy/record_builder.go: titles, evidence, certainty and status of a record.
pub mod Title
use rune_mcp.Prelude.{
  ℕ, suc, ◌≡◌, refl, Bool, true, false, not, ◌&&◌, ◌||◌, Option, none, some, List, [], ◌∷◌, ◌++◌,
  String, arith, take, leb, if◌then◌else◌,
}
use rune_mcp.Prelude.Text.{
  Text, Unicode, byte_len, codes, contains, is_empty, teq, to_lower, trim_space,
}
use rune_mcp.Domain.Record.{Certainty, Evidence, SourceRef, SourceType, Status, max_title_len}
use rune_mcp.Policy.Regexp.{Regexp}
use rune_mcp.Policy.Truncate.{trunc_runes}

-- RawEvent of internal/domain/capture.go
pub record RawEvent : Type 0 where
  pub text : Text
  pub source : Text
  pub user : Text
  pub channel : Text

abbrev pub quote_patterns : List String
quote_patterns = "\"([^\"]{10,})\"" ∷ "'([^']{10,})'" ∷ "「([^」]{10,})」" ∷ "«([^»]{10,})»" ∷ []

abbrev pub acceptance_patterns : List String
acceptance_patterns =
    "(?i)\\b(?:approved|accepted|confirmed|finalized|agreed|decided)\\b"
    ∷ "(?i)\\b(?:final decision|it's decided|we're going with)\\b" ∷ []

-- parseSourceType
unfoldable pub parse_source_type : ⦃u : Unicode⦄ → Text → SourceType
parse_source_type source =
    let s = to_lower source in
    if contains s (codes "slack")
    then SourceType.slack
    else if contains s (codes "github")
    then SourceType.github
    else if contains s (codes "notion")
    then SourceType.notion
    else if contains s (codes "meeting")
    then SourceType.meeting
    else if contains s (codes "email")
    then SourceType.email
    else if contains s (codes "doc")
    then SourceType.doc
    else SourceType.other

unfoldable pub make_source_ref : ⦃u : Unicode⦄ → RawEvent → SourceRef
unfolding parse_source_type
make_source_ref raw = record {
  source_type = parse_source_type raw.source;
  url = none;
  pointer = if is_empty raw.channel then none else some (codes "channel:" ++ raw.channel);
}

-- `len(m) > 1 && len(m[1]) >= 10`
abbrev quoted_group : List Text → Option Text
quoted_group (m ∷ g ∷ groups) = if leb 10 (byte_len g) then some g else none
quoted_group _ = none

abbrev push_quote : SourceRef → Option Text → List Evidence → List Evidence
push_quote source none es = es
push_quote source (some g) es =
    record {
      claim = codes "Quoted statement from discussion";
      quote = trunc_runes g 200;
      source = source;
    }
    ∷ es

-- The quotes among the matches of one pattern.
unfoldable pub quotes_of : SourceRef → List (List Text) → List Evidence
quotes_of source [] = []
quotes_of source (m ∷ ms) = push_quote source (quoted_group m) (quotes_of source ms)

module _ ⦃u : Unicode⦄ ⦃rx : Regexp⦄ where
  unfoldable pub all_quotes : SourceRef → Text → List String → List Evidence
  unfolding quotes_of
  all_quotes source text [] = []
  all_quotes source text (p ∷ ps) =
      quotes_of source (rx.find_all_submatch p text) ++ all_quotes source text ps

  -- The quote of the fallback.
  unfoldable pub paraphrase : Text → Text
  paraphrase text =
      let truncated = trunc_runes text 150 in
      if teq truncated text then text else truncated ++ codes "..."

  abbrev or_paraphrase : SourceRef → Text → List Evidence → List Evidence
  or_paraphrase source text [] =
      if leb 20 (byte_len text)
      then record {
        claim = codes "Decision statement (paraphrased)";
        quote = paraphrase text;
        source = source;
      }
        ∷ []
      else []
  or_paraphrase source text (e ∷ es) = e ∷ es

  unfoldable pub extract_evidence : RawEvent → Text → List Evidence
  extract_evidence raw text =
      let source = make_source_ref raw in
      take 3 (or_paraphrase source text (all_quotes source text quote_patterns))

  unfoldable pub has_direct_quotes : List Evidence → Bool
  has_direct_quotes [] = false
  has_direct_quotes (e ∷ es) =
      if contains (to_lower e.claim) (codes "paraphrase") then has_direct_quotes es else true

  unfoldable pub determine_certainty : List Evidence → Text → Certainty × List Text
  determine_certainty [] rationale = (Certainty.unknown, codes "No evidence found" ∷ [])
  determine_certainty (e ∷ es) rationale =
      if not (has_direct_quotes (e ∷ es))
      then (Certainty.partially_supported, codes "No direct quotes - evidence is paraphrased" ∷ [])
      else if is_empty rationale
      then (Certainty.partially_supported, codes "Explicit rationale not found" ∷ [])
      else (Certainty.supported, [])

  unfoldable pub matches_any : List String → Text → Bool
  matches_any [] text = false
  matches_any (p ∷ ps) text = if rx.match_string p text then true else matches_any ps text

  unfoldable pub determine_status : List Evidence → Text → Status
  unfolding matches_any
  determine_status [] text = Status.proposed
  determine_status (e ∷ es) text =
      if matches_any acceptance_patterns (to_lower text) then Status.accepted else Status.proposed

  unfoldable pub status_from_hint : Text → List Evidence → Text → Status
  unfolding determine_status
  status_from_hint hint evidence text =
      let h = trim_space (to_lower hint) in
      if teq h (codes "accepted")
      then Status.accepted
      else if teq h (codes "rejected")
      then Status.proposed
      else if teq h (codes "proposed")
      then Status.proposed
      else determine_status evidence text
