-- ===== src/Examples/Recalls.antt =====
-- Recalls in the concrete world.
use mathlib.Core.List.{Perm}
use mathlib.Core.List.Perm
use rune_mcp.Prelude.{false, Option, none, some, List, [], ◌∷◌, ◌≡◌, refl}
use rune_mcp.Prelude.Float.{fixed}
use rune_mcp.Prelude.Float.Fixed
use rune_mcp.Prelude.Int.{pos}
use rune_mcp.Prelude.Json.{end}
use rune_mcp.Prelude.Text.{Text, ascii, codes, teq}
use rune_mcp.Domain.Errors.{ok, panic}
use rune_mcp.Domain.Query.{RecallArgs, SearchHit}
use rune_mcp.Service.Backend.Outcome.{Outcome}
use rune_mcp.Service.Recall.Expand.{expand_phase_chains}
use rune_mcp.Service.Recall.Expand.Laws.{IsExpansion, NoError, expand_phase_chains-IsExpansion}
use rune_mcp.Service.Recall.Flow.{recall}
use rune_mcp.Service.Recall.Flow.Outcome.{IsRecallAnswer, IsRecallError, recall-Outcome}
use rune_mcp.Service.Recall.Groups.{assemble_groups}
use rune_mcp.Service.Recall.Groups.Laws.{assemble_groups-panic, assemble_groups-perm}
use rune_mcp.Service.Recall.Search.{search_with_expansions}
use rune_mcp.Service.Recall.Search.Laws.{IsAnswer, IsTopkLimit, search_with_expansions-Outcome}
use rune_mcp.Examples.Setting.{demo, half, no_patterns, one_day, plain_walk}

abbrev hit : Text → Fixed.Fixed → Option Text → SearchHit Fixed.Fixed
hit id score gid = record {
  record_id = id;
  title = [];
  payload_text = [];
  domain = [];
  certainty = [];
  status = [];
  score = score;
  reusable_insight = [];
  adjusted_score = fixed.lit 0 0;
  metadata = end;
  group_id = gid;
  group_type = none;
  phase_seq = none;
  phase_total = some (pos 2);
}

abbrev two_hits : List (SearchHit Fixed.Fixed)
two_hits = hit (codes "a") half none ∷ hit (codes "b") half (some (codes "g")) ∷ []

-- A standalone hit that scores -1.
abbrev low_hits : List (SearchHit Fixed.Fixed)
low_hits = hit (codes "a") (fixed.neg (fixed.lit 1 0)) none ∷ []

abbrev pub demo_args : RecallArgs
demo_args = record {
  query = codes "Why Go";
  top_k = pos 0;
  domain = none;
  status = none;
  since = none;
}

recall-Outcome_example :
    Outcome
      (IsRecallAnswer ⦃fl = fixed⦄ ⦃u = ascii⦄ ⦃rx = no_patterns⦄ ⦃cal = one_day⦄ demo plain_walk
        (λ gs. Perm.rfl)
        demo_args)
      (IsRecallError ⦃fl = fixed⦄ ⦃u = ascii⦄ ⦃rx = no_patterns⦄ ⦃cal = one_day⦄ demo)
      (recall ⦃fl = fixed⦄ ⦃u = ascii⦄ ⦃rx = no_patterns⦄ ⦃cal = one_day⦄ demo plain_walk demo_args
        100 0).0
recall-Outcome_example =
    recall-Outcome ⦃fl = fixed⦄ ⦃u = ascii⦄ ⦃rx = no_patterns⦄ ⦃cal = one_day⦄ demo plain_walk
      (λ gs. Perm.rfl) demo_args 100 0

assemble_groups-perm_example :
    (l : List (SearchHit Fixed.Fixed)) × (assemble_groups ⦃fl = fixed⦄ (λ gs. gs) two_hits ≡ ok l)
    × Perm l two_hits
assemble_groups-perm_example =
    assemble_groups-perm ⦃fl = fixed⦄ (λ gs. gs) (λ gs. Perm.rfl) two_hits (refl, (tt, tt))

assemble_groups-panic_example : assemble_groups ⦃fl = fixed⦄ (λ gs. gs) low_hits ≡ panic
assemble_groups-panic_example =
    assemble_groups-panic ⦃fl = fixed⦄ (λ gs. gs) (λ gs. Perm.rfl) low_hits (λ m. absurd cc)

search_with_expansions-Outcome_example :
    Outcome
      (IsAnswer ⦃fl = fixed⦄ demo)
      (IsTopkLimit ⦃fl = fixed⦄ demo)
      (search_with_expansions ⦃fl = fixed⦄ demo (codes "q") (codes "e" ∷ []) (tt ∷ []) (pos 5) 0).0
search_with_expansions-Outcome_example =
    search_with_expansions-Outcome ⦃fl = fixed⦄ demo (codes "q") (codes "e" ∷ []) (tt ∷ []) (pos 5)
      0

different_ids : teq (codes "a") (codes "b") ≡ false
unfolding teq codes
different_ids = refl

expand_phase_chains-IsExpansion_example :
    Outcome
      (IsExpansion ⦃fl = fixed⦄ demo (λ gs. gs) two_hits)
      NoError
      (expand_phase_chains ⦃fl = fixed⦄ demo (λ gs. gs) two_hits 0).0
expand_phase_chains-IsExpansion_example =
    expand_phase_chains-IsExpansion ⦃fl = fixed⦄ demo (λ gs. gs) two_hits 0
      ((different_ids, tt), (tt, tt))
