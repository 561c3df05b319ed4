-- ===== src/Service/Recall/Flow.antt =====
-- RecallService.Handle.
pub mod Laws
pub mod Outcome
use rune_mcp.Prelude.{ℕ, Bool, true, false, Option, List, [], ◌∷◌, take, if◌then◌else◌}
use rune_mcp.Prelude.Float.{Float}
use rune_mcp.Prelude.Int.{ℤ, pos, ltb_ℤ, pos_part}
use rune_mcp.Prelude.Text.{Text, Unicode, codes}
use rune_mcp.Domain.Calendar.{Calendar, Time}
use rune_mcp.Domain.Query.{ParsedQuery, RecallArgs, RecallResult, SearchHit}
use rune_mcp.Policy.Query.{parse}
use rune_mcp.Policy.Regexp.{Regexp}
use rune_mcp.Policy.Rerank.{apply_recency_weighting, filter_by_time}
use rune_mcp.Service.Backend.{Action, Backend, lift, pure, wrapping, ◌>>=◌}
use rune_mcp.Service.Recall.Answer.{build_result}
use rune_mcp.Service.Recall.Expand.{GroupInfo, expand_phase_chains}
use rune_mcp.Service.Recall.Filter.{Filters, apply_metadata_filters}
use rune_mcp.Service.Recall.Groups.{Group, assemble_groups}
use rune_mcp.Service.Recall.Search.{search_with_expansions}

-- A request without a positive topk asks for 5.
abbrev pub top_k_of : ℤ → ℤ
top_k_of k = if ltb_ℤ (pos 0) k then k else pos 5

abbrev pub filters_of : RecallArgs → Filters
filters_of args = record { domain = args.domain; status = args.status; since = args.since }

-- The orders in which Go walks the two maps of groups.
pub record Walk (F : Type 0) : Type 0 where
  pub arrange : List (GroupInfo F) → List (GroupInfo F)
  pub visit : List (Group F) → List (Group F)

module _ ⦃fl : Float⦄ ⦃u : Unicode⦄ ⦃rx : Regexp⦄ ⦃cal : Calendar⦄ where
  -- Everything after the assembly of the groups.
  unfoldable pub finish :
      RecallArgs → ParsedQuery → Time → List (SearchHit fl.F) → List (SearchHit fl.F)
  finish args parsed now hits =
      let hits = apply_metadata_filters (filters_of args) hits in
      let hits = filter_by_time hits parsed.time_scope now in
      let hits = apply_recency_weighting hits now in take (pos_part (top_k_of args.top_k)) hits

  module _ (b : Backend fl.F) (walk : Walk fl.F) where
    abbrev pub expand_if_any :
        List b.Vec → List (SearchHit fl.F) → Action b.W (List (SearchHit fl.F))
    expand_if_any [] hits = pure hits
    expand_if_any (v ∷ vs) hits = expand_phase_chains b walk.arrange hits

    -- The hits that the answer is built from.
    unfoldable pub recall_hits : RecallArgs → Time → Action b.W (List (SearchHit fl.F))
    unfolding finish
    recall_hits args now =
        let parsed = parse args.query in
        let expansions = take 3 parsed.expanded_queries in
        wrapping (codes "embed expansions") (b.embed_batch expansions) >>= λ vectors.
        wrapping (codes "search")
          (search_with_expansions b args.query expansions vectors (top_k_of args.top_k))
        >>= λ found. expand_if_any vectors found >>= λ expanded.
            lift (assemble_groups walk.visit expanded) >>= λ assembled.
            pure (finish args parsed now assembled)

    -- RecallService.Handle; `now` is what the injected clock gives.
    unfoldable pub recall : RecallArgs → Time → Action b.W (RecallResult fl.F)
    unfolding recall_hits
    recall args now = recall_hits args now >>= λ hits. pure (build_result hits)
