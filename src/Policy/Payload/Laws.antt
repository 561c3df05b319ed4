-- ===== src/Policy/Payload/Laws.antt =====
-- What the rendered text guarantees.
use rune_mcp.Prelude.{◌≡◌, refl, false, arith, List, [], ◌∷◌, ◌++◌, map, ap}
use rune_mcp.Prelude.Float.{Float}
use rune_mcp.Prelude.Text.{Text, Unicode, codes, contains, join, to_lower, trim_space}
use rune_mcp.Prelude.Text.Trim.{contains-nil, contains-trim_space, trim_space_idem}
use rune_mcp.Domain.Record.{DecisionRecord}
use rune_mcp.Policy.Payload.{
  alternative_line, format_alternatives, render_payload_text, newline, insert_group_lines,
  fill_template,
}
use rune_mcp.Policy.Payload.Blank.{three_newlines, collapse_blank_lines, collapse_blank_lines_clean}

module _ ⦃u : Unicode⦄ where
  alternative_line_chosen :
      (alt : Text) → alternative_line [] alt ≡ codes "- " ++ (alt ++ codes " (chosen)")
  unfolding alternative_line
  alternative_line_chosen alt = ground (arith, contains-nil (to_lower alt))

  chosen_lines :
      (alts : List Text)
      → map (alternative_line []) alts ≡ map (λ a. codes "- " ++ (a ++ codes " (chosen)")) alts
  chosen_lines [] = refl
  chosen_lines (a ∷ more) = cc (alternative_line_chosen a, chosen_lines more)

  -- Where no alternative is chosen, that is `chosen` is empty, every alternative is rendered as the
  -- chosen one.
  pub format_alternatives_all_chosen :
      (a : Text) (alts : List Text)
      → format_alternatives (a ∷ alts) []
        ≡ join (map (λ x. codes "- " ++ (x ++ codes " (chosen)")) (a ∷ alts)) newline
  unfolding format_alternatives to_lower
  format_alternatives_all_chosen a alts = ap (λ l. join l newline) (chosen_lines (a ∷ alts))

module _ ⦃u : Unicode⦄ ⦃fl : Float⦄ where
  -- The rendered text of any record has no two blank lines in a row and no white space at its ends.
  pub render_payload_text_clean :
      (r : DecisionRecord fl.F)
      → (contains (render_payload_text r) three_newlines ≡ false)
        × (trim_space (render_payload_text r) ≡ render_payload_text r)
  unfolding render_payload_text
  render_payload_text_clean r =
      let text = insert_group_lines r r.group_id (fill_template r) in
      (
        contains-trim_space (collapse_blank_lines text) three_newlines
            (collapse_blank_lines_clean text),
        trim_space_idem (collapse_blank_lines text),
      )
