-- ===== src/Service/Recall/Answer.antt =====
-- buildResult and calculateConfidence.
use rune_mcp.Prelude.{ℕ, suc, true, false, List, [], ◌∷◌, map, length, take, if◌then◌else◌}
use rune_mcp.Prelude.Float.{Float, fmin, fone, fzero}
use rune_mcp.Prelude.Text.{Text, codes, teq}
use rune_mcp.Domain.Query.{RecallEntry, RecallResult, RecallSource, SearchHit}

abbrev pub entry_of : {F : Type 0} → SearchHit F → RecallEntry F
entry_of h = record {
  record_id = h.record_id;
  title = h.title;
  domain = h.domain;
  certainty = h.certainty;
  status = h.status;
  score = h.score;
  adjusted_score = h.adjusted_score;
  reusable_insight = h.reusable_insight;
  payload_text = h.payload_text;
  group_id = h.group_id;
  group_type = h.group_type;
  phase_seq = h.phase_seq;
  phase_total = h.phase_total;
}

abbrev pub source_of : {F : Type 0} → SearchHit F → RecallSource
source_of h = record { record_id = h.record_id; title = h.title }

module _ ⦃fl : Float⦄ where
  abbrev pub certainty_weight : Text → fl.F
  certainty_weight c =
      if teq c (codes "supported")
      then fone
      else if teq c (codes "partially_supported")
      then fl.lit 6 1
      else fl.lit 3 1

  -- The sum over the hits from the one at `i`.
  unfoldable pub sum_weights : ℕ → List (SearchHit fl.F) → fl.F → fl.F
  sum_weights i [] total = total
  sum_weights i (r ∷ rs) total =
      let position_weight = fl.div fone (fl.lit (suc i) 0) in
      let weight = fl.mul (fl.mul position_weight (certainty_weight r.certainty)) r.score in
      sum_weights (suc i) rs (fl.add total weight)

  abbrev pub rounded_2 : fl.F → fl.F
  rounded_2 x = fl.div (fl.round (fl.mul x (fl.lit 100 0))) (fl.lit 100 0)

  unfoldable pub calculate_confidence : List (SearchHit fl.F) → fl.F
  unfolding sum_weights
  calculate_confidence [] = fzero
  calculate_confidence (r ∷ rs) =
      rounded_2 (fmin fone (fl.div (sum_weights 0 (take 5 (r ∷ rs)) fzero) (fl.lit 2 0)))

  unfoldable pub build_result : List (SearchHit fl.F) → RecallResult fl.F
  unfolding calculate_confidence
  build_result results = record {
    okay = true;
    found = length results;
    results = map entry_of results;
    confidence = calculate_confidence results;
    sources = map source_of (take 5 results);
    synthesized = false;
  }
