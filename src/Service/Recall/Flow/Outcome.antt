-- ===== src/Service/Recall/Flow/Outcome.antt =====
-- The whole of a recall, whatever the daemons answer.
use mathlib.Core.List.{Perm}
use mathlib.Core.List.Perm
use rune_mcp.Prelude.{
  Option, none, some, List, [], ◌∷◌, map, ◌≡◌, refl, sym, ◌∙◌, ◌⊎◌, inl, inr, All, arith, length,
  length-map, length-take, min, take, Bool-cases,
}
use rune_mcp.Prelude.Float.{Float, fge}
use rune_mcp.Prelude.Permuted.{AllPairs}
use rune_mcp.Prelude.Text.{Text, Unicode, codes}
use rune_mcp.Domain.Calendar.{Calendar, Time}
use rune_mcp.Domain.Errors.{Error}
use rune_mcp.Domain.Query.{RecallArgs, RecallResult, SearchHit}
use rune_mcp.Policy.Query.{parse}
use rune_mcp.Policy.Regexp.{Regexp}
use rune_mcp.Service.Backend.{Backend, lift, pure, wrapping, ◌>>=◌}
use rune_mcp.Service.Backend.Outcome.{
  Outcome, Outcome-impl, Outcome-map, any-Outcome, bind-Outcome, ok-Outcome, panic-Outcome,
  wrapped-Outcome,
}
use rune_mcp.Service.Recall.Answer.{build_result, entry_of, source_of}
use rune_mcp.Service.Recall.Expand.{expand_phase_chains}
use rune_mcp.Service.Recall.Expand.Laws.{NoError, IsExpansion, expand_phase_chains-IsExpansion}
use rune_mcp.Service.Recall.Flow.{Walk, expand_if_any, finish, recall, recall_hits, top_k_of}
use rune_mcp.Service.Recall.Flow.Laws.{IsRanked, finish-IsRanked}
use rune_mcp.Service.Recall.Groups.{Group, assemble_groups, minus_one}
use rune_mcp.Service.Recall.Groups.Laws.{assemble_groups-panic, assemble_groups-perm}
use rune_mcp.Service.Recall.Groups.Split.{IsMergeable, IsMergeableIn}
use rune_mcp.Service.Recall.Search.{search_with_expansions}
use rune_mcp.Service.Recall.Search.Laws.{
  DifferentId, DifferentId-perm, IsAnswer, IsTopkLimit, search_with_expansions-Outcome,
}

module _ ⦃fl : Float⦄ where
  IsMergeableIn-cases :
      (o : Option Text) (h : SearchHit fl.F) → IsMergeableIn o h ⊎ (IsMergeableIn o h → ⊥)
  IsMergeableIn-cases none h = elim (Bool-cases (fge minus_one h.score)) [
    | inl e ↦ inr (λ e'. absurd (ground arith))
    | inr e ↦ inl e
  ]
  IsMergeableIn-cases (some gid) h = inl tt

  both-cases : {P Q : Type 0} → P ⊎ (P → ⊥) → Q ⊎ (Q → ⊥) → (P × Q) ⊎ (P × Q → ⊥)
  both-cases (inl p) (inl q) = inl (p, q)
  both-cases (inl p) (inr bad) = inr (λ a. bad a.1)
  both-cases (inr bad) q = inr (λ a. bad a.0)

  IsMergeable-cases : (hs : List (SearchHit fl.F)) → All IsMergeable hs ⊎ (All IsMergeable hs → ⊥)
  IsMergeable-cases [] = inl tt
  IsMergeable-cases (h ∷ hs) = both-cases (IsMergeableIn-cases h.group_id h) (IsMergeable-cases hs)

  assemble_groups-DifferentId :
      (visit : List (Group fl.F) → List (Group fl.F))
      (visits : (gs : List (Group fl.F)) → Perm (visit gs) gs) (hits : List (SearchHit fl.F))
      → AllPairs DifferentId hits
      → Outcome (AllPairs DifferentId) NoError (assemble_groups visit hits)
  assemble_groups-DifferentId visit visits hits apart = elim (IsMergeable-cases hits) [
    | inl m ↦
        let (l, e, p) = assemble_groups-perm visit visits hits m in
        ok-Outcome (AllPairs DifferentId) NoError (assemble_groups visit hits) l e
          (DifferentId-perm hits l (Perm.symm p) apart)
    | inr bad ↦
        panic-Outcome (AllPairs DifferentId) NoError (assemble_groups visit hits)
          (assemble_groups-panic visit visits hits bad)
  ]

  module _ ⦃u : Unicode⦄ ⦃rx : Regexp⦄ ⦃cal : Calendar⦄ (b : Backend fl.F) where
    -- The errors of a recall: the batch embedding's, and the TOPK_LIMIT error of a search.
    abbrev pub IsRecallError : Error → Type 0
    IsRecallError e =
        ((e' : Error) × (e ≡ Error.wrap (codes "embed expansions") e'))
        ⊎ ((e' : Error) × (e ≡ Error.wrap (codes "search") e') × IsTopkLimit b e')

    abbrev IsUnique : List (SearchHit fl.F) → Type 0
    IsUnique hits = AllPairs DifferentId hits

    module _ (walk : Walk fl.F) (visits : (gs : List (Group fl.F)) → Perm (walk.visit gs) gs) where
      expand_if_any-Outcome :
          (vectors : List b.Vec) (hits : List (SearchHit fl.F)) (w : b.W)
          → IsUnique hits
          → Outcome IsUnique IsRecallError (expand_if_any b walk vectors hits w).0
      expand_if_any-Outcome [] hits w h = h
      expand_if_any-Outcome (v ∷ vs) hits w h =
          Outcome-map (IsExpansion b walk.arrange hits) IsUnique NoError IsRecallError
            (expand_phase_chains b walk.arrange hits w).0 (λ l e. e.0) (λ e no. absurd no)
            (expand_phase_chains-IsExpansion b walk.arrange hits w h)

      recall_hits-Outcome :
          (args : RecallArgs) (now : Time) (w : b.W)
          → Outcome (IsRanked args) IsRecallError (recall_hits b walk args now w).0
      unfolding recall_hits
      recall_hits-Outcome args now w =
          let parsed = parse args.query in
          let expansions = take 3 parsed.expanded_queries in
          let search = λ (vectors : List b.Vec).
            wrapping (codes "search")
              (search_with_expansions b args.query expansions vectors (top_k_of args.top_k)) in
          let last = λ (expanded : List (SearchHit fl.F)).
            lift (assemble_groups walk.visit expanded) >>= λ assembled.
            pure (finish args parsed now assembled) in
          let embed = wrapping (codes "embed expansions") (b.embed_batch expansions) in
          bind-Outcome (λ v. Unit) (IsRanked args) IsRecallError embed
            (λ vectors. search vectors >>= λ found. expand_if_any b walk vectors found >>= last) w
            (wrapped-Outcome (λ v. Unit) (λ e. Unit) IsRecallError (codes "embed expansions")
              (b.embed_batch expansions w).0 (λ e q. inl (e, refl))
              (any-Outcome (b.embed_batch expansions w).0))
            λ vectors w₁ _.
              bind-Outcome IsUnique (IsRanked args) IsRecallError (search vectors)
                (λ found. expand_if_any b walk vectors found >>= last) w₁
                (wrapped-Outcome IsUnique (IsTopkLimit b) IsRecallError (codes "search")
                  (search_with_expansions b args.query expansions vectors (top_k_of args.top_k)
                    w₁).0
                  (λ e q. inr (e, refl, q))
                  (Outcome-map (IsAnswer b) IsUnique (IsTopkLimit b) (IsTopkLimit b)
                    (search_with_expansions b args.query expansions vectors (top_k_of args.top_k)
                      w₁).0
                    (λ l a. a.0) (λ e q. q)
                    (search_with_expansions-Outcome b args.query expansions vectors
                      (top_k_of args.top_k) w₁)))
                λ found w₂ unique.
                  bind-Outcome IsUnique (IsRanked args) IsRecallError
                    (expand_if_any b walk vectors found) last w₂
                    (expand_if_any-Outcome vectors found w₂ unique)
                    λ expanded w₃ unique'.
                      bind-Outcome IsUnique (IsRanked args) IsRecallError
                        (lift (assemble_groups walk.visit expanded))
                        (λ assembled. pure (finish args parsed now assembled)) w₃
                        (Outcome-impl IsUnique NoError IsRecallError
                          (assemble_groups walk.visit expanded) (λ e no. absurd no)
                          (assemble_groups-DifferentId walk.visit visits expanded unique'))
                        (λ assembled w₄ apart. finish-IsRanked args parsed now assembled apart)

      -- An answer made of ranked hits.
      abbrev pub IsRecallAnswer : RecallArgs → RecallResult fl.F → Type 0
      IsRecallAnswer args r =
          (hits : List (SearchHit fl.F)) × IsRanked args hits
          × (r.results ≡ map entry_of hits)
          × (r.found ≡ length r.results)
          × (r.sources ≡ map source_of (take 5 hits))
          × (length r.sources ≡ min 5 r.found)

      build_result-IsRecallAnswer :
          (args : RecallArgs) (hits : List (SearchHit fl.F))
          → IsRanked args hits
          → IsRecallAnswer args (build_result hits)
      unfolding build_result
      build_result-IsRecallAnswer args hits h = (
        hits,
        h,
        refl,
        sym (length-map hits entry_of),
        refl,
        length-map (take 5 hits) source_of ∙ length-take 5 hits,
      )

      -- A recall of the service, whatever the daemons answer and in whatever order Go visits the map
      -- of the groups: the results of an answer are at most `topk` (5 where that is not positive),
      -- no two have the same record id, each passes the filters of the request, and none has a higher
      -- adjusted score than one before it; `found` counts them, and the sources are the first 5. Where
      -- it fails with an error, that is the batch embedding's or a TOPK_LIMIT error.
      pub recall-Outcome :
          (args : RecallArgs) (now : Time) (w : b.W)
          → Outcome (IsRecallAnswer args) IsRecallError (recall b walk args now w).0
      unfolding recall
      recall-Outcome args now w =
          bind-Outcome (IsRanked args) (IsRecallAnswer args) IsRecallError
            (recall_hits b walk args now) (λ hits. pure (build_result hits)) w
            (recall_hits-Outcome args now w) (λ hits w' h. build_result-IsRecallAnswer args hits h)
