-- ===== src/Policy/Payload.antt =====
-- internal/policy/payload_text.go: the markdown text of a record.
pub mod Blank
pub mod Laws
use rune_mcp.Prelude.{
  ℕ, zero, suc, ◌+◌, Bool, true, false, ◌&&◌, ◌||◌, Option, none, some, List, [], ◌∷◌, ◌++◌, map,
  ◌==◌, if◌then◌else◌,
}
use rune_mcp.Prelude.Float.{Float}
use rune_mcp.Prelude.Text.{
  Text, Unicode, codes, contains, decimal, has_prefix, is_empty, join, teq, to_lower, trim_space,
}
use rune_mcp.Domain.Record.{
  DecisionRecord, Assumption, Risk, Evidence, Link, SourceRef, certainty_text, domain_text,
  sensitivity_text, source_type_text, status_text,
}
use Blank.{collapse_blank_lines}

abbrev pub newline : Text
newline = codes "\n"

abbrev pub none_documented : Text
none_documented = codes "- (none documented)"

-- A line of formatAlternatives. An empty `chosen` is contained in every alternative.
unfoldable pub alternative_line : ⦃u : Unicode⦄ → Text → Text → Text
alternative_line chosen_lower alt =
    let alt_lower = to_lower alt in
    if teq alt_lower chosen_lower || contains alt_lower chosen_lower
    then codes "- " ++ (alt ++ codes " (chosen)")
    else codes "- " ++ alt

unfoldable pub format_alternatives : ⦃u : Unicode⦄ → List Text → Text → Text
format_alternatives [] chosen = none_documented
format_alternatives (a ∷ more) chosen =
    join (map (alternative_line (to_lower chosen)) (a ∷ more)) newline

abbrev bullet : Text → Text
bullet t = codes "- " ++ t

unfoldable pub format_trade_offs : List Text → Text
format_trade_offs [] = none_documented
format_trade_offs (t ∷ ts) = join (map bullet (t ∷ ts)) newline

unfoldable pub format_assumptions : ⦃fl : Float⦄ → List (Assumption fl.F) → Text
format_assumptions [] = none_documented
format_assumptions ⦃fl⦄ (a ∷ more) = join (map line (a ∷ more)) newline
  where
    line : Assumption fl.F → Text
    line x =
        codes "- "
        ++ (x.assumption ++ (codes " (confidence: " ++ (fl.format_1 x.confidence ++ codes ")")))

-- `p != nil && *p != ""`, with what stands in otherwise.
abbrev or_default : Option Text → Text → Text
or_default none d = d
or_default (some []) d = d
or_default (some (c ∷ s)) d = c ∷ s

unfoldable pub risk_lines : Risk → Text
risk_lines r =
    codes "- Risk: "
    ++ (r.risk ++ (codes "\n  Mitigation: " ++ or_default r.mitigation (codes "TBD")))

unfoldable pub format_risks : List Risk → Text
format_risks [] = none_documented
format_risks (r ∷ rs) = join (map risk_lines (r ∷ rs)) newline

abbrev pointer_line : Option Text → List Text
pointer_line none = []
pointer_line (some []) = []
pointer_line (some (c ∷ s)) = (codes "   Pointer: " ++ c ∷ s) ∷ []

-- The lines of the evidence from number `i + 1` on.
unfoldable pub evidence_lines : ℕ → List Evidence → List Text
evidence_lines i [] = []
evidence_lines i (e ∷ es) =
    (decimal (i + 1) ++ (codes ") Claim: " ++ e.claim))
    ∷ (codes "   Quote: \"" ++ (e.quote ++ codes "\""))
    ∷ (codes "   Source: "
        ++ (source_type_text e.source.source_type
            ++ (codes " " ++ or_default e.source.url (codes "(no url)"))))
    ∷ (pointer_line e.source.pointer ++ [] ∷ evidence_lines (i + 1) es)

unfoldable pub format_evidence : List Evidence → Text
format_evidence [] = codes "(no evidence recorded)"
format_evidence (e ∷ es) = trim_space (join (evidence_lines 0 (e ∷ es)) newline)

abbrev some_or : Option Text → Text → Text
some_or none d = d
some_or (some s) d = s

unfoldable pub format_links : List Link → Text
format_links [] = codes "- (none)"
format_links (l ∷ ls) = join (map line (l ∷ ls)) newline
  where
    line : Link → Text
    line x = codes "- " ++ (some_or x.rel (codes "link") ++ (codes ": " ++ some_or x.url []))

unfoldable pub format_tags : List Text → Text
format_tags [] = codes "(none)"
format_tags (t ∷ ts) = join (t ∷ ts) (codes ", ")

abbrev text_or : Text → Text → Text
text_or [] d = d
text_or (c ∷ s) d = c ∷ s

-- The rationale with the list of missing information behind it.
unfoldable pub rationale_block : Text → List Text → Text
rationale_block rationale [] = text_or rationale (codes "(no rationale documented)")
rationale_block rationale (m ∷ ms) =
    text_or rationale (codes "(no rationale documented)")
    ++ (codes "\n\nMissing Information:\n" ++ join (map bullet (m ∷ ms)) newline)

module _ ⦃u : Unicode⦄ ⦃fl : Float⦄ where
  -- `payloadTemplate`, filled in.
  unfoldable pub fill_template : DecisionRecord fl.F → Text
  fill_template r =
      join
        (codes "\n# Decision Record: "
          ∷ r.title
          ∷ codes "\nID: "
          ∷ r.id
          ∷ codes "\nStatus: "
          ∷ status_text r.status
          ∷ codes " | Sensitivity: "
          ∷ sensitivity_text r.sensitivity
          ∷ codes " | Domain: "
          ∷ domain_text r.domain
          ∷ codes "\nWhen/Where: "
          ∷ text_or r.decision.when (codes "(unknown)")
          ∷ codes " | "
          ∷ text_or r.decision.where_ (codes "(unknown)")
          ∷ codes "\n\n## Decision\n"
          ∷ r.decision.what
          ∷ codes "\n\n## Problem\n"
          ∷ text_or r.context.problem (codes "(not documented)")
          ∷ codes "\n\n## Alternatives Considered\n"
          ∷ format_alternatives r.context.alternatives r.context.chosen
          ∷ codes "\n\n## Why (Rationale)\n"
          ∷ rationale_block r.why.rationale_summary r.why.missing_info
          ∷ codes "\nCertainty: "
          ∷ certainty_text r.why.certainty
          ∷ codes "\n\n## Trade-offs\n"
          ∷ format_trade_offs r.context.trade_offs
          ∷ codes "\n\n## Assumptions\n"
          ∷ format_assumptions r.context.assumptions
          ∷ codes "\n\n## Risks & Mitigations\n"
          ∷ format_risks r.context.risks
          ∷ codes "\n\n## Evidence (Quotes)\n"
          ∷ format_evidence r.evidence
          ∷ codes "\n\n## Links\n"
          ∷ format_links r.links
          ∷ codes "\n\n## Tags\n"
          ∷ format_tags r.tags
          ∷ codes "\n"
          ∷ [])
        []

-- `strings.Split(text, "\n")`; the open line stands first.
unfoldable pub split_from : Text → Text → List Text
split_from line [] = line ∷ []
split_from line (c ∷ s) =
    let closed = split_from [] s in
    let more = split_from (line ++ c ∷ []) s in if c == 10 then line ∷ closed else more

-- The loop that puts lines behind the first one with the prefix "ID: ".
unfoldable pub insert_after_id : List Text → List Text → List Text
insert_after_id new [] = []
insert_after_id new (line ∷ lines) =
    if has_prefix line (codes "ID: ")
    then line ∷ (new ++ lines)
    else line ∷ insert_after_id new lines

abbrev or_zero : Option ℕ → ℕ
or_zero none = 0
or_zero (some n) = n

abbrev total_text : Option ℕ → Text
total_text none = codes "?"
total_text (some n) = decimal n

abbrev summary_line : Option Text → List Text
summary_line none = []
summary_line (some []) = []
summary_line (some (c ∷ s)) = (codes "Group Summary: " ++ c ∷ s) ∷ []

unfoldable pub phase_line : {F : Type 0} → DecisionRecord F → Text → Text
phase_line r gid =
    codes "Part: "
    ++ (decimal (or_zero r.phase_seq + 1)
        ++ (codes " of "
            ++ (total_text r.phase_total
                ++ (codes " | Type: "
                    ++ (or_default r.group_type (codes "phase_chain")
                        ++ (codes " | Group: " ++ gid))))))

-- The post insertion, for a record of a group.
unfoldable pub insert_group_lines : {F : Type 0} → DecisionRecord F → Option Text → Text → Text
insert_group_lines r none text = text
insert_group_lines r (some []) text = text
insert_group_lines r (some (c ∷ gid)) text =
    join
      (insert_after_id (phase_line r (c ∷ gid) ∷ summary_line r.group_summary) (split_from [] text))
      newline

module _ ⦃u : Unicode⦄ ⦃fl : Float⦄ where
  unfoldable pub render_payload_text : DecisionRecord fl.F → Text
  render_payload_text r =
      trim_space (collapse_blank_lines (insert_group_lines r r.group_id (fill_template r)))
